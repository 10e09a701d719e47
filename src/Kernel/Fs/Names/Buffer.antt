-- ===== src/Kernel/Fs/Names/Buffer.antt =====
-- The buffer that skipelem of xv6-public/fs.c copies an element into.
use c_s_e_hanyang.Base.{
  ℕ, zero, suc, ◌+◌, ◌-◌, ◌≤◌, ◌<◌, ◌≡◌, refl, sym, ◌∙◌, false, List, [], ◌∷◌, ◌++◌, get_or, take,
  drop, length, length-append, ltb, leb, ◌==◌, if◌then◌else◌, arith, Bool-cases, inl, inr,
}
use c_s_e_hanyang.Kernel.Fs.Names.{dirsiz, copy_name}

-- The buffer of DIRSIZ bytes holds the first DIRSIZ bytes of the element; a shorter one is terminated,
-- and the bytes behind the terminator are as they were.
pub record Copied (e name buffer : List ℕ) : Type 0 where
  pub same_length : length buffer ≡ length name
  pub bytes :
      (k : ℕ)
      → k < dirsiz
      → get_or buffer k 0 ≡ (
          if ltb k (length e) then get_or e k 0 else (if k == length e then 0 else get_or name k 0))

get_or-take : (n k : ℕ) (xs : List ℕ) → k < n → get_or (take n xs) k 0 ≡ get_or xs k 0
get_or-take zero k xs lt = absurd (omega arith)
get_or-take (suc n) k [] lt = refl
get_or-take (suc n) zero (x ∷ xs) lt = refl
get_or-take (suc n) (suc k) (x ∷ xs) lt = get_or-take n k xs (omega arith)

get_or-terminated :
    (e name : List ℕ) (k : ℕ)
    → get_or (e ++ 0 ∷ drop (length e + 1) name) k 0
      ≡ (if ltb k (length e) then get_or e k 0 else (if k == length e then 0 else get_or name k 0))
get_or-terminated [] [] zero = refl
get_or-terminated [] [] (suc k) = ground arith
get_or-terminated [] (x ∷ name) zero = refl
get_or-terminated [] (x ∷ name) (suc k) = ground arith
get_or-terminated (c ∷ e) name zero = ground arith
get_or-terminated (c ∷ e) [] (suc k) = ground (arith, get_or-terminated e [] k)
get_or-terminated (c ∷ e) (x ∷ name) (suc k) = ground (arith, get_or-terminated e name k)

length-drop : (n : ℕ) (xs : List ℕ) → length (drop n xs) ≡ length xs - n
length-drop zero xs = omega arith
length-drop (suc n) [] = omega arith
length-drop (suc n) (x ∷ xs) = omega (arith, length-drop n xs)

length-take_le : (n : ℕ) (xs : List ℕ) → n ≤ length xs → length (take n xs) ≡ n
length-take_le zero xs le = refl
length-take_le (suc n) [] le = absurd (omega arith)
length-take_le (suc n) (x ∷ xs) le = omega (arith, length-take_le n xs (omega arith))

pub copy_name-Copied : (e name : List ℕ) → length name ≡ dirsiz → Copied e name (copy_name e name)
unfolding copy_name
copy_name-Copied e name sized = elim (Bool-cases (leb dirsiz (length e))) [
  | inl long ↦ record {
    same_length = rw long (length-take_le dirsiz e (ground arith) ∙ sym sized);
    bytes = λ k lt. rw long (ground (arith, get_or-take dirsiz k e lt));
  }
  | inr short ↦ record {
    same_length = rw short (
        omega (
          arith,
          length-append e (0 ∷ drop (length e + 1) name),
          length-drop (length e + 1) name,
          short_lt e short,
        ));
    bytes = λ k lt. rw short (get_or-terminated e name k);
  }
]
  where
    short_lt : (e : List ℕ) → leb dirsiz (length e) ≡ false → length e < dirsiz
    short_lt e h = ground arith
