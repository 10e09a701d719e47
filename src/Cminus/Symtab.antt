-- ===== src/Cminus/Symtab.antt =====
-- 2018_ELE4029_2013012041/project/symtab.c: the table of scopes, a hash table of chains, each scope with
-- a hash table of chains of its own. A name is the list of its characters. Scopes are never removed and
-- their names differ, so the pointer `parent` is the name of the scope it points to.
pub mod Lookup
pub mod Depth
mod Tests
use c_s_e_hanyang.Base.{
  ℕ, zero, suc, ◌+◌, ◌*◌, ◌%◌, Bool, true, false, List, [], ◌∷◌, ◌++◌, length, if◌then◌else◌,
  get_or, set, replicate, Option, none, some, ◌==◌,
}
use c_s_e_hanyang.Cminus.Scan.{same}

-- SIZE
abbrev pub size : ℕ
size = 211

-- ExpType of globals.h
pub data ExpType : Type 0 where
  void_type integer_type : ExpType

-- BucketListRec and ScopeListRec; the `next` pointers are the lists that hold them.
pub record Bucket : Type 0 where
  pub name : List ℕ
  pub type : ExpType
  pub lines : List ℕ
  pub memloc : ℕ

pub record Scope : Type 0 where
  pub scope_name : List ℕ
  pub bucket : List (List Bucket)
  pub parent : Option (List ℕ)

-- `scopeHashTable`
abbrev pub Table : Type 0
Table = List (List Scope)

abbrev pub empty_table : Table
empty_table = replicate size []

unfoldable pub hash_from : ℕ → List ℕ → ℕ
hash_from temp [] = temp
hash_from temp (c ∷ cs) = hash_from ((temp * 16 + c) % size) cs

unfoldable pub hash : List ℕ → ℕ
unfolding hash_from
hash key = hash_from 0 key

-- The two loops along a chain.
unfoldable pub find_bucket : List ℕ → List Bucket → Option Bucket
unfolding same
find_bucket key [] = none
find_bucket key (b ∷ bs) =
    let later = find_bucket key bs in if same key b.name then some b else later

unfoldable pub find_scope : List ℕ → List Scope → Option Scope
unfolding same
find_scope key [] = none
find_scope key (s ∷ ss) =
    let later = find_scope key ss in if same key s.scope_name then some s else later

abbrev pub scope_of : List ℕ → Table → Option Scope
unfolding hash find_scope
scope_of key t = find_scope key (get_or t (hash key) [])

-- The loop of `getParentScope`: what stands before the last colon, if there is one.
unfoldable pub before_colon : List ℕ → Option (List ℕ)
before_colon [] = none
before_colon (c ∷ cs) = elim (before_colon cs) [
  | some ds ↦ some (c ∷ ds)
  | none ↦ if c == b':' then some [] else none
]

unfoldable pub outer_name : List ℕ → List ℕ
unfolding before_colon
outer_name key = elim (before_colon key) [ none ↦ [] | some ds ↦ ds ]

-- `getParentScope`, on fuel: each call is for a shorter name.
unfoldable pub parent_loop : ℕ → List ℕ → Table → Option Scope
unfolding outer_name scope_of
parent_loop zero key t = none
parent_loop (suc fuel) [] t = none
parent_loop (suc fuel) (c ∷ cs) t =
    let outer = outer_name (c ∷ cs) in
    elim (scope_of outer t) [ some s ↦ some s | none ↦ parent_loop fuel outer t ]

unfoldable pub get_parent_scope : List ℕ → Table → Option Scope
unfolding parent_loop
get_parent_scope key t = parent_loop (suc (length key)) key t

-- The new line goes behind the others of the first bucket with that name.
unfoldable pub add_line_in : List ℕ → ℕ → List Bucket → List Bucket
unfolding same
add_line_in key line [] = []
add_line_in key line (b ∷ bs) =
    let later = add_line_in key line bs in
    if same key b.name then record b { lines = b.lines ++ line ∷ [] } ∷ bs else b ∷ later

abbrev pub new_bucket : List ℕ → ExpType → ℕ → ℕ → Bucket
new_bucket key ty line loc = record { name = key; type = ty; lines = line ∷ []; memloc = loc }

-- The two branches of `st_insert_`.
unfoldable pub insert_found : List ℕ → ExpType → ℕ → ℕ → List Bucket → Option Bucket → List Bucket
unfolding add_line_in
insert_found key ty line loc bs none = new_bucket key ty line loc ∷ bs
insert_found key ty line loc bs (some b) = add_line_in key line bs

unfoldable pub insert_chain : List ℕ → ExpType → ℕ → ℕ → List Bucket → List Bucket
unfolding find_bucket insert_found
insert_chain key ty line loc bs = insert_found key ty line loc bs (find_bucket key bs)

-- st_insert_
unfoldable pub insert_in : Scope → List ℕ → ExpType → ℕ → ℕ → Scope
unfolding insert_chain hash
insert_in s key ty line loc =
    let h = hash key in
    record s { bucket = set s.bucket h (insert_chain key ty line loc (get_or s.bucket h [])) }

-- A change to the scope with that name, through its pointer.
unfoldable pub change_in : List ℕ → (Scope → Scope) → List Scope → List Scope
unfolding same
change_in key f [] = []
change_in key f (s ∷ ss) =
    let later = change_in key f ss in if same key s.scope_name then f s ∷ ss else s ∷ later

unfoldable pub change_scope : List ℕ → (Scope → Scope) → Table → Table
unfolding change_in hash
change_scope key f t = set t (hash key) (change_in key f (get_or t (hash key) []))

unfoldable pub new_scope : List ℕ → Table → Scope
unfolding get_parent_scope
new_scope key t = record {
  scope_name = key;
  bucket = replicate size [];
  parent = elim (get_parent_scope key t) [ none ↦ none | some p ↦ some p.scope_name ];
}

unfoldable pub enter_scope : List ℕ → Table → Table
unfolding scope_of new_scope hash
enter_scope key t = elim (scope_of key t) [
  | some s ↦ t
  | none ↦ set t (hash key) (new_scope key t ∷ get_or t (hash key) [])
]

unfoldable pub st_insert : List ℕ → List ℕ → ExpType → ℕ → ℕ → Table → Table
unfolding enter_scope change_scope insert_in
st_insert scope key ty line loc t =
    change_scope scope (λ s. insert_in s key ty line loc) (enter_scope scope t)

-- st_lookup_
unfoldable pub lookup_in_scope : Scope → List ℕ → Option Bucket
unfolding find_bucket hash
lookup_in_scope s key = find_bucket key (get_or s.bucket (hash key) [])

abbrev pub lookup_at : Option Scope → List ℕ → Option Bucket
unfolding lookup_in_scope
lookup_at none key = none
lookup_at (some s) key = lookup_in_scope s key

-- `st_lookup`, on fuel: each call is for a shorter name of a scope.
unfoldable pub lookup_loop : ℕ → List ℕ → List ℕ → Table → Option Bucket
unfolding scope_of lookup_at get_parent_scope
lookup_loop zero scope key t = none
lookup_loop (suc fuel) scope key t = elim (lookup_at (scope_of scope t) key) [
  | some b ↦ some b
  | none ↦ elim (get_parent_scope scope t) [
    | none ↦ none
    | some p ↦ lookup_loop fuel p.scope_name key t
  ]
]

unfoldable pub st_lookup : List ℕ → List ℕ → Table → Option Bucket
unfolding lookup_loop
st_lookup scope key t = lookup_loop (suc (length scope)) scope key t

unfoldable pub st_lookup_excluding_parent : List ℕ → List ℕ → Table → Option Bucket
unfolding scope_of lookup_at
st_lookup_excluding_parent scope key t = lookup_at (scope_of scope t) key

-- The loop of `addline` up the parents, on fuel; `none` is the use of a null pointer, or the end of
-- the fuel, which a table made by `st_insert` does not reach: a parent's name is shorter.
unfoldable pub addline_loop : ℕ → Option (List ℕ) → List ℕ → ℕ → Table → Option Table
unfolding scope_of lookup_in_scope change_scope add_line_in hash
addline_loop zero at key line t = none
addline_loop (suc fuel) none key line t = none
addline_loop (suc fuel) (some at) key line t = elim (scope_of at t) [
  | none ↦ none
  | some s ↦ elim (lookup_in_scope s key) [
    | none ↦ addline_loop fuel s.parent key line t
    | some b ↦
        let h = hash key in
        some (
          change_scope at
            (λ s'. record s' {
              bucket = set s'.bucket h (add_line_in key line (get_or s'.bucket h []));
            })
            t)
  ]
]

unfoldable pub addline : List ℕ → List ℕ → ℕ → Table → Option Table
unfolding scope_of get_parent_scope addline_loop
addline scope key line t =
    let fuel = suc (suc (length scope)) in
    elim (scope_of scope t) [
      | some s ↦ addline_loop fuel (some scope) key line t
      | none ↦ elim (get_parent_scope scope t) [
        | none ↦ none
        | some p ↦ addline_loop fuel (some p.scope_name) key line t
      ]
    ]
