-- ===== src/Cminus/Symtab/Depth.antt =====
-- getParentScope and st_lookup of symtab.c end: the fuel of their models is enough.
use c_s_e_hanyang.Base.{
  ℕ, zero, suc, ◌≤◌, ◌<◌, ◌≡◌, refl, ap, List, [], ◌∷◌, length, get_or, if◌then◌else◌, ◌==◌, arith,
  Option, none, some, Bool-cases, inl, inr,
}
use c_s_e_hanyang.Cminus.Scan.{same}
use c_s_e_hanyang.Cminus.Symtab.{
  Scope, Table, hash, find_scope, before_colon, outer_name, parent_loop, get_parent_scope, scope_of,
  lookup_loop, lookup_at, st_lookup,
}
use c_s_e_hanyang.Cminus.Symtab.Lookup.{same→eq}

Within : ℕ → Option (List ℕ) → Type 0
Within n none = 0 ≤ 0
Within n (some ds) = length ds < n

before_colon-Within : (cs : List ℕ) → Within (length cs) (before_colon cs)
unfolding before_colon Within
before_colon-Within [] = omega arith
before_colon-Within (c ∷ cs) = step (before_colon cs) (before_colon-Within cs)
  where
    step :
        (o : Option (List ℕ))
        → Within (length cs) o
        → Within
            (length (c ∷ cs))
            (elim o [ some ds ↦ some (c ∷ ds) | none ↦ if c == b':' then some [] else none ])
    step none h = ground arith
    step (some ds) h = omega arith

length-outer_name : (c : ℕ) (cs : List ℕ) → length (outer_name (c ∷ cs)) ≤ length cs
unfolding outer_name Within
length-outer_name c cs = step (before_colon (c ∷ cs)) (before_colon-Within (c ∷ cs))
  where
    step :
        (o : Option (List ℕ))
        → Within (length (c ∷ cs)) o
        → length (elim o [ none ↦ [] | some ds ↦ ds ]) ≤ length cs
    step none h = omega arith
    step (some ds) h = omega arith

find_scope-name :
    (key : List ℕ) (ss : List Scope) (s : Scope) → find_scope key ss ≡ some s → key ≡ s.scope_name
unfolding find_scope
find_scope-name key [] s h = ground arith
find_scope-name key (x ∷ ss) s h = elim (Bool-cases (same key x.scope_name)) [
  | inl e ↦ let q = same→eq key x.scope_name e in ground arith
  | inr e ↦ find_scope-name key ss s (ground arith)
]

parent_loop-fuel :
    (f g : ℕ) (key : List ℕ) (t : Table)
    → length key < f
    → length key < g
    → parent_loop f key t ≡ parent_loop g key t
unfolding parent_loop
parent_loop-fuel zero g key t lf lg = absurd (omega arith)
parent_loop-fuel (suc f) zero key t lf lg = absurd (omega arith)
parent_loop-fuel (suc f) (suc g) [] t lf lg = refl
parent_loop-fuel (suc f) (suc g) (c ∷ cs) t lf lg =
    let outer = outer_name (c ∷ cs) in
    ap (λ r. elim (scope_of outer t) [ some s ↦ some s | none ↦ r ])
      (parent_loop-fuel f g outer t (omega (arith, length-outer_name c cs))
        (omega (arith, length-outer_name c cs)))

parent_loop-shorter :
    (f : ℕ) (key : List ℕ) (t : Table) (p : Scope)
    → parent_loop f key t ≡ some p
    → length p.scope_name < length key
unfolding parent_loop
parent_loop-shorter zero key t p h = ground arith
parent_loop-shorter (suc f) [] t p h = ground arith
parent_loop-shorter (suc f) (c ∷ cs) t p h =
    step (scope_of (outer_name (c ∷ cs)) t)
      (λ s e. find_scope-name (outer_name (c ∷ cs)) (get_or t (hash (outer_name (c ∷ cs))) []) s e)
      (λ e. parent_loop-shorter f (outer_name (c ∷ cs)) t p e) h
  where
    step :
        (o : Option Scope)
        → ((s : Scope) → o ≡ some s → outer_name (c ∷ cs) ≡ s.scope_name)
        → (parent_loop f (outer_name (c ∷ cs)) t ≡ some p
            → length p.scope_name < length (outer_name (c ∷ cs)))
        → elim o [ some s ↦ some s | none ↦ parent_loop f (outer_name (c ∷ cs)) t ] ≡ some p
        → length p.scope_name < length (c ∷ cs)
    step (some s) named later h =
        let q = ap length (named s refl) in
        let same_scope : s ≡ p = ground arith in
        let r : length s.scope_name ≡ length p.scope_name =
          ap (λ x. length x.scope_name) same_scope in
        omega (arith, q, r, length-outer_name c cs)
    step none named later h = omega (arith, later h, length-outer_name c cs)

lookup_loop-fuel :
    (f g : ℕ) (scope key : List ℕ) (t : Table)
    → length scope < f
    → length scope < g
    → lookup_loop f scope key t ≡ lookup_loop g scope key t
unfolding lookup_loop
lookup_loop-fuel zero g scope key t lf lg = absurd (omega arith)
lookup_loop-fuel (suc f) zero scope key t lf lg = absurd (omega arith)
lookup_loop-fuel (suc f) (suc g) scope key t lf lg =
    ap (λ r. elim (lookup_at (scope_of scope t) key) [ some b ↦ some b | none ↦ r ])
      (step (get_parent_scope scope t)
        (λ p e. unfold get_parent_scope in parent_loop-shorter (suc (length scope)) scope t p e)
        (λ p l. lookup_loop-fuel f g p.scope_name key t (omega arith) (omega arith)))
  where
    step :
        (o : Option Scope)
        → ((p : Scope) → o ≡ some p → length p.scope_name < length scope)
        → ((p : Scope)
            → length p.scope_name < length scope
            → lookup_loop f p.scope_name key t ≡ lookup_loop g p.scope_name key t)
        → elim o [ none ↦ none | some p ↦ lookup_loop f p.scope_name key t ]
          ≡ elim o [ none ↦ none | some p ↦ lookup_loop g p.scope_name key t ]
    step none shorter ih = refl
    step (some p) shorter ih = ih p (shorter p refl)

-- st_lookup gives the same on any fuel above the length of the scope's name, so its recursion has
-- ended by then.
pub st_lookup-fuel :
    (fuel : ℕ) (scope key : List ℕ) (t : Table)
    → length scope < fuel
    → lookup_loop fuel scope key t ≡ st_lookup scope key t
unfolding st_lookup
st_lookup-fuel fuel scope key t h =
    lookup_loop-fuel fuel (suc (length scope)) scope key t h (omega arith)

-- getParentScope gives the same on any fuel above the length of the scope's name.
pub get_parent_scope-fuel :
    (fuel : ℕ) (key : List ℕ) (t : Table)
    → length key < fuel
    → parent_loop fuel key t ≡ get_parent_scope key t
unfolding get_parent_scope
get_parent_scope-fuel fuel key t h = parent_loop-fuel fuel (suc (length key)) key t h (omega arith)
