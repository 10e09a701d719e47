-- ===== src/Cminus/Symtab/Tests.antt =====
-- Runs of the symbol table and the instance of its theorem.
use c_s_e_hanyang.Base.{arith, ℕ, List, [], ◌∷◌, ◌≡◌, refl, some, none, replicate}
use c_s_e_hanyang.Cminus.Scan.{same}
use c_s_e_hanyang.Cminus.Symtab.{
  Scope, integer_type, void_type, size, empty_table, st_insert, st_lookup, lookup_in_scope,
  insert_in, new_bucket, outer_name, Table,
}
use c_s_e_hanyang.Cminus.Symtab.{lookup_loop}
use c_s_e_hanyang.Cminus.Symtab.Depth.{st_lookup-fuel}
use c_s_e_hanyang.Cminus.Symtab.Lookup.{insert_in-lookup, entered}

-- The scopes "", "f" and "f:g", and the names "x" and "y".
abbrev scope_f : List ℕ
scope_f = b'f' ∷ []

abbrev scope_fg : List ℕ
scope_fg = b'f' ∷ b':' ∷ b'g' ∷ []

abbrev name_x : List ℕ
name_x = b'x' ∷ []

abbrev name_y : List ℕ
name_y = b'y' ∷ []

abbrev two_scopes : Table
unfolding st_insert
two_scopes =
    st_insert scope_f name_y integer_type 2 7 (st_insert [] name_x void_type 1 3 empty_table)

outer_of_fg : outer_name scope_fg ≡ scope_f
unfolding outer_name
outer_of_fg = refl

-- "x" is found in the outermost scope from the scope "f:g", which has no names of its own.
lookup_outer : st_lookup scope_fg name_x two_scopes ≡ some (new_bucket name_x void_type 1 3)
unfolding st_lookup two_scopes
lookup_outer = refl

abbrev bare : Scope
bare = record { scope_name = []; bucket = replicate size []; parent = none }

insert_in-lookup_example :
    lookup_in_scope (insert_in bare name_x integer_type 1 0) name_x
    ≡ some (entered name_x integer_type 1 0 (lookup_in_scope bare name_x))
unfolding same
insert_in-lookup_example = insert_in-lookup bare name_x name_x integer_type 1 0 refl

st_lookup-fuel_example :
    lookup_loop 9 scope_fg name_x two_scopes ≡ st_lookup scope_fg name_x two_scopes
st_lookup-fuel_example = st_lookup-fuel 9 scope_fg name_x two_scopes (omega arith)
