-- ===== src/Kernel/Fs/Blocks/Room.antt =====
-- How many blocks of the disk of xv6-public/fs.c are free.
use c_s_e_hanyang.Base.{
  ℕ, zero, suc, ◌+◌, ◌≤◌, ◌<◌, ◌≡◌, refl, ap, ◌∙◌, false, ◌||◌, ◌==◌, if◌then◌else◌, arith,
  Bool-cases, inl, inr, some,
}
use c_s_e_hanyang.Kernel.Fs.{Fs, balloc}
use c_s_e_hanyang.Kernel.Fs.Blocks.{used, balloc-finds}

-- The free blocks under `n`.
unfoldable pub free_under : Fs → ℕ → ℕ
free_under s zero = 0
free_under s (suc n) = free_under s n + (if used s n then 0 else 1)

unfoldable pub free_blocks : Fs → ℕ
unfolding free_under
free_blocks s = free_under s s.sb.size

free_found : (s : Fs) (n : ℕ) → 0 < free_under s n → (x : ℕ) × (x < n) × (used s x ≡ false)
unfolding free_under
free_found s zero h = absurd (omega arith)
free_found s (suc n) h = elim (Bool-cases (used s n)) [
  | inr e ↦ (n, omega arith, e)
  | inl e ↦ let (x, lt, f) = free_found s n (ground arith) in (x, omega arith, f)
]

free_under-ext :
    (s t : Fs) (n : ℕ) → ((c : ℕ) → c < n → used t c ≡ used s c) → free_under t n ≡ free_under s n
unfolding free_under
free_under-ext s t zero h = refl
free_under-ext s t (suc n) h =
    rw (h n (omega arith), free_under-ext s t n (λ c lt. h c (omega arith))) refl

free_under-spent :
    (s t : Fs) (b n : ℕ)
    → ((c : ℕ) → c < n → used t c ≡ ((c == b) || used s c))
    → free_under s n ≤ suc (free_under t n)
unfolding free_under
free_under-spent s t b zero h = omega arith
free_under-spent s t b (suc n) h = elim (Bool-cases (n == b)) [
  | inr e ↦
      let p = free_under-spent s t b n (λ c lt. h c (omega arith)) in
      let q = h n (omega arith) in ground arith
  | inl e ↦
      let same = free_under-ext s t n (λ c lt. h c (omega arith) ∙ ground arith) in ground arith
]

-- balloc returns if there is a free block.
pub balloc-room : (s : Fs) → 0 < free_blocks s → (r : ℕ × Fs) × (balloc s ≡ some r)
unfolding free_blocks
balloc-room s h = let (x, lt, f) = free_found s s.sb.size h in balloc-finds s x lt f

-- One allocation takes one block at most.
pub free_blocks-spent :
    (s t : Fs) (b : ℕ)
    → t.sb ≡ s.sb
    → ((c : ℕ) → c < s.sb.size → used t c ≡ ((c == b) || used s c))
    → free_blocks s ≤ suc (free_blocks t)
unfolding free_blocks
free_blocks-spent s t b e h =
    let z : t.sb.size ≡ s.sb.size = ap (λ b. b.size) e in
    let q : free_under t t.sb.size ≡ free_under t s.sb.size = ap (free_under t) z in
    omega (arith, q, free_under-spent s t b s.sb.size h)

pub free_blocks-ext :
    (s t : Fs)
    → t.sb ≡ s.sb
    → ((c : ℕ) → c < s.sb.size → used t c ≡ used s c)
    → free_blocks t ≡ free_blocks s
unfolding free_blocks
free_blocks-ext s t e h = ap (λ b. free_under t b.size) e ∙ free_under-ext s t s.sb.size h
