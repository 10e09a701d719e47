-- ===== src/Kernel/Fs/Names.antt =====
-- Path names of xv6-public/fs.c: skipelem. A path is the list of its bytes before the terminator.
pub mod Buffer
pub mod Elements
mod Tests
use c_s_e_hanyang.Base.{
  ℕ, zero, suc, ◌+◌, ◌≡◌, Bool, true, false, not, List, [], ◌∷◌, ◌++◌, leb, ◌==◌, if◌then◌else◌,
  length, take, drop, Option, none, some,
}

-- '/' and DIRSIZ
abbrev pub slash : ℕ
slash = 47

abbrev pub dirsiz : ℕ
dirsiz = 14

-- `while(*path == '/') path++`
unfoldable pub skip_slashes : List ℕ → List ℕ
skip_slashes [] = []
skip_slashes (c ∷ cs) = let rest = skip_slashes cs in if c == slash then rest else c ∷ cs

-- The bytes that `while(*path != '/' && *path != 0) path++` passes, and those behind them.
unfoldable pub element : List ℕ → List ℕ
element [] = []
element (c ∷ cs) = let rest = element cs in if c == slash then [] else c ∷ rest

unfoldable pub after : List ℕ → List ℕ
after [] = []
after (c ∷ cs) = let rest = after cs in if c == slash then c ∷ cs else rest

-- `name` is the buffer of DIRSIZ bytes; bytes that are not written stay.
unfoldable pub copy_name : List ℕ → List ℕ → List ℕ
copy_name s name =
    if leb dirsiz (length s) then take dirsiz s else s ++ 0 ∷ drop (length s + 1) name

unfoldable pub named : List ℕ → List ℕ → Option (List ℕ × List ℕ)
unfolding element after skip_slashes copy_name
named [] name = none
named (c ∷ cs) name = some (skip_slashes (after (c ∷ cs)), copy_name (element (c ∷ cs)) name)

-- The path behind the element, and the buffer; `none` is the null pointer.
unfoldable pub skipelem : List ℕ → List ℕ → Option (List ℕ × List ℕ)
unfolding skip_slashes named
skipelem path name = named (skip_slashes path) name
