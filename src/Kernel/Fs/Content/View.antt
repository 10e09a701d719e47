-- ===== src/Kernel/Fs/Content/View.antt =====
-- The bytes of a file of xv6-public/fs.c, as its block numbers give them.
use c_s_e_hanyang.Base.{
  ℕ, zero, suc, ◌+◌, ◌-◌, ◌*◌, ◌/◌, ◌%◌, ◌<◌, ◌≡◌, refl, ap, ◌∙◌, ◌∷◌, ◌++◌, ltb, ◌==◌,
  if◌then◌else◌, arith, Bool-cases, inl, inr,
}
use c_s_e_hanyang.Kernel.Fs.{Fs, byte_at, block_size}
use c_s_e_hanyang.Kernel.Fs.Bmap.{Inode, ndirect, nindirect}
use c_s_e_hanyang.Kernel.Fs.Bmap.Places.{
  Place, top, slot, table, cell, IsPlace, IsData, same_place, addr, place,
}
use c_s_e_hanyang.Kernel.Fs.Bmap.Grow.{same_place_refl, same_place→eq}
use c_s_e_hanyang.Kernel.Fs.Content.{maxfile, run_of}

-- Byte `k` of the file. A block that is missing counts as zero, as bmap would make it.
unfoldable pub content : Inode → Fs → ℕ → ℕ
content ip s k =
    let b = addr ip s (place (k / block_size)) in if b == 0 then 0 else byte_at s b (k % block_size)

pub place-IsData : (bn : ℕ) → bn < maxfile → IsData (place bn)
unfolding place
place-IsData bn lt = elim (Bool-cases (ltb bn ndirect)) [
  | inl e ↦ rw e (ground arith)
  | inr e ↦ elim (Bool-cases (ltb (bn - ndirect) nindirect)) [
    | inl f ↦ rw (e, f) (ground arith)
    | inr f ↦ rw (e, f) (omega arith, omega arith)
  ]
]

pub IsData-IsPlace : (p : Place) → IsData p → IsPlace p
IsData-IsPlace (top k) d = omega arith
IsData-IsPlace (slot k) d = d
IsData-IsPlace (table k) d = absurd (omega arith)
IsData-IsPlace (cell k l) d = d

-- The file's block at a place.
number : Place → ℕ
number (top k) = k
number (slot i) = ndirect + i
number (table i) = 0
number (cell i j) = ndirect + nindirect + nindirect * i + j

number-place : (bn : ℕ) → number (place bn) ≡ bn
unfolding place number
number-place bn = elim (Bool-cases (ltb bn ndirect)) [
  | inl e ↦ rw e refl
  | inr e ↦ elim (Bool-cases (ltb (bn - ndirect) nindirect)) [
    | inl f ↦ rw (e, f) (ground arith)
    | inr f ↦ rw (e, f) (ground arith)
  ]
]

-- Two blocks of the file have two places.
pub same_place-place : (a b : ℕ) → same_place (place a) (place b) ≡ (a == b)
same_place-place a b = elim (Bool-cases (a == b)) [
  | inl e ↦ let q : a ≡ b = ground arith in rw (e, q) (same_place_refl (place b))
  | inr e ↦ elim (Bool-cases (same_place (place a) (place b))) [
    | inr f ↦ rw (e, f) refl
    | inl f ↦
        let q = ap number (same_place→eq (place a) (place b) f) in
        ground (arith, number-place a, number-place b)
  ]
]

pub run_of-ext :
    (f g : ℕ → ℕ) (i j n : ℕ)
    → ((k x y : ℕ) → k < n → x ≡ i + k → y ≡ j + k → f x ≡ g y)
    → run_of f i n ≡ run_of g j n
unfolding run_of
run_of-ext f g i j zero h = refl
run_of-ext f g i j (suc n) h =
    rw
      (
        h 0 i j (omega arith) (omega arith) (omega arith),
        run_of-ext f g (suc i) (suc j) n
            (λ k x y lt p q. h (suc k) x y (omega arith) (omega arith) (omega arith)),
      )
      refl

pub run_of-append :
    (f : ℕ → ℕ) (i j m n : ℕ) → j ≡ i + m → run_of f i (m + n) ≡ run_of f i m ++ run_of f j n
unfolding run_of
run_of-append f i j zero n e =
    let q : j ≡ i = omega arith in let z : zero + n ≡ n = omega arith in rw q (ap (run_of f i) z)
run_of-append f i j (suc m) n e =
    let z : suc m + n ≡ suc (m + n) = omega arith in
    ap (run_of f i) z ∙ ap (λ r. f i ∷ r) (run_of-append f (suc i) j m n (omega arith))
