-- ===== src/Cminus/Symtab/Lookup.antt =====
-- st_insert_ and st_lookup_ of symtab.c: a scope as a map from names.
use c_s_e_hanyang.Base.{
  ℕ, ◌+◌, ◌*◌, ◌%◌, ◌<◌, ◌≡◌, refl, sym, ap, ◌∙◌, true, false, List, [], ◌∷◌, ◌++◌, length,
  if◌then◌else◌, get_or, set, get_or-set_self, get_or-set_ne, Option, none, some, ◌==◌, arith,
  Bool-cases, inl, inr,
}
use c_s_e_hanyang.Cminus.Scan.{same}
use c_s_e_hanyang.Cminus.Symtab.{
  size, ExpType, Bucket, Scope, hash, hash_from, find_bucket, add_line_in, insert_chain,
  insert_found, insert_in, lookup_in_scope,
}

pub same_refl : (a : List ℕ) → same a a ≡ true
unfolding same
same_refl [] = refl
same_refl (c ∷ cs) = ground (arith, same_refl cs)

pub same→eq : (a b : List ℕ) → same a b ≡ true → a ≡ b
unfolding same
same→eq [] [] h = refl
same→eq [] (b ∷ bs) h = ground arith
same→eq (a ∷ as') [] h = ground arith
same→eq (a ∷ as') (b ∷ bs) h = ground (arith, same→eq as' bs)

hash_from-bound : (temp : ℕ) (cs : List ℕ) → temp < size → hash_from temp cs < size
unfolding hash_from
hash_from-bound temp [] h = h
hash_from-bound temp (c ∷ cs) h = hash_from-bound ((temp * 16 + c) % size) cs (omega arith)

-- What a lookup of `key` finds after the insertion, when it found `before`.
pub entered : List ℕ → ExpType → ℕ → ℕ → Option Bucket → Bucket
entered key ty line loc none = record { name = key; type = ty; lines = line ∷ []; memloc = loc }
entered key ty line loc (some b) = record b { lines = b.lines ++ line ∷ [] }

find-add_line_self :
    (key : List ℕ) (line : ℕ) (bs : List Bucket) (b : Bucket)
    → find_bucket key bs ≡ some b
    → find_bucket key (add_line_in key line bs) ≡ some (record b { lines = b.lines ++ line ∷ [] })
unfolding find_bucket add_line_in
find-add_line_self key line [] b h = ground arith
find-add_line_self key line (c ∷ bs) b h = elim (Bool-cases (same key c.name)) [
  | inl e ↦ ground arith
  | inr e ↦ ground (arith, find-add_line_self key line bs b)
]

find-add_line_ne :
    (key other : List ℕ) (line : ℕ) (bs : List Bucket)
    → same other key ≡ false
    → find_bucket other (add_line_in key line bs) ≡ find_bucket other bs
unfolding find_bucket add_line_in
find-add_line_ne key other line [] h = refl
find-add_line_ne key other line (c ∷ bs) h = elim (Bool-cases (same key c.name)) [
  | inl e ↦
      let differs : same other c.name ≡ false = ap (same other) (sym (same→eq key c.name e)) ∙ h in
      ground arith
  | inr e ↦ ground (arith, find-add_line_ne key other line bs h)
]

insert_found_self :
    (key : List ℕ) (ty : ExpType) (line loc : ℕ) (bs : List Bucket) (o : Option Bucket)
    → find_bucket key bs ≡ o
    → find_bucket key (insert_found key ty line loc bs o) ≡ some (entered key ty line loc o)
unfolding insert_found entered find_bucket
insert_found_self key ty line loc bs none h = ground (arith, same_refl key)
insert_found_self key ty line loc bs (some b) h = find-add_line_self key line bs b h

insert_found_ne :
    (key other : List ℕ) (ty : ExpType) (line loc : ℕ) (bs : List Bucket) (o : Option Bucket)
    → same other key ≡ false
    → find_bucket other (insert_found key ty line loc bs o) ≡ find_bucket other bs
unfolding insert_found find_bucket
insert_found_ne key other ty line loc bs none ne = ground arith
insert_found_ne key other ty line loc bs (some b) ne = find-add_line_ne key other line bs ne

lookup_self :
    (s : Scope) (key : List ℕ) (ty : ExpType) (line loc : ℕ)
    → length s.bucket ≡ size
    → lookup_in_scope (insert_in s key ty line loc) key
      ≡ some (entered key ty line loc (lookup_in_scope s key))
unfolding insert_in lookup_in_scope hash insert_chain
lookup_self s key ty line loc full =
    let h = hash key in
    let chain = get_or s.bucket (hash key) [] in
    let chain' = insert_chain key ty line loc (get_or s.bucket (hash key) []) in
    let inside : h < length s.bucket = omega (arith, hash_from-bound 0 key (omega arith)) in
    ap (find_bucket key) (get_or-set_self s.bucket h chain' [] inside)
    ∙ insert_found_self key ty line loc chain (find_bucket key chain) refl

lookup_ne :
    (s : Scope) (key other : List ℕ) (ty : ExpType) (line loc : ℕ)
    → length s.bucket ≡ size
    → same other key ≡ false
    → lookup_in_scope (insert_in s key ty line loc) other ≡ lookup_in_scope s other
unfolding insert_in lookup_in_scope hash insert_chain
lookup_ne s key other ty line loc full ne =
    let chains = s.bucket in
    let h = hash key in
    let chain = get_or s.bucket (hash key) [] in
    let chain' = insert_chain key ty line loc (get_or s.bucket (hash key) []) in
    let inside : h < length chains = omega (arith, hash_from-bound 0 key (omega arith)) in
    elim (Bool-cases (h == hash other)) [
      | inl e ↦
          let q : h ≡ hash other = ground arith in
          ap (λ i. find_bucket other (get_or (set chains h chain') i [])) (sym q)
          ∙ ap (find_bucket other) (get_or-set_self chains h chain' [] inside)
          ∙ insert_found_ne key other ty line loc chain (find_bucket key chain) ne
          ∙ ap (λ i. find_bucket other (get_or chains i [])) q
      | inr e ↦
          ap (find_bucket other) (get_or-set_ne chains h (hash other) chain' [] (ground arith))
    ]

-- In a scope with SIZE chains, after st_insert_ a lookup of that name finds a bucket with the given
-- type, line and location if there was none, and the old bucket with the line added if there was one;
-- a lookup of any other name finds what it found before.
pub insert_in-lookup :
    (s : Scope) (key other : List ℕ) (ty : ExpType) (line loc : ℕ)
    → length s.bucket ≡ size
    → lookup_in_scope (insert_in s key ty line loc) other ≡ (
        if same other key
        then some (entered key ty line loc (lookup_in_scope s key))
        else lookup_in_scope s other)
insert_in-lookup s key other ty line loc full = elim (Bool-cases (same other key)) [
  | inl e ↦ rw e (
      ap (lookup_in_scope (insert_in s key ty line loc)) (same→eq other key e)
      ∙ lookup_self s key ty line loc full)
  | inr e ↦ rw e (lookup_ne s key other ty line loc full e)
]
