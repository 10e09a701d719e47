-- ===== src/Kernel/Fs/Bmap/Words.antt =====
-- Blocks as arrays of 32-bit numbers.
use c_s_e_hanyang.Base.{
  ℕ, ◌+◌, ◌*◌, ◌/◌, ◌%◌, ◌<◌, ◌≡◌, refl, ◌&&◌, ◌==◌, if◌then◌else◌, arith, Bool-cases, inl, inr,
  u32_mod,
}
use c_s_e_hanyang.Kernel.Fs.{Fs, byte_at, block_size}
use c_s_e_hanyang.Kernel.Fs.Bmap.{word, set_word, byte_of, nindirect}

pub digits_lem :
    (v : ℕ)
    → v < u32_mod
    → byte_of v 0 + 256 * byte_of v 1 + 65536 * byte_of v 2 + 16777216 * byte_of v 3 ≡ v
digits_lem v h = omega arith

set_word-byte :
    (s : Fs) (b i v c j k x : ℕ)
    → k < 4
    → x ≡ 4 * j + k
    → byte_at (set_word b i v s) c x ≡ (if (c == b) && (j == i) then byte_of v k else byte_at s c x)
unfolding set_word
set_word-byte s b i v c j k x h e =
    let q : x / 4 ≡ j = omega arith in let r : x % 4 ≡ k = omega arith in rw (q, r) (ground arith)

pub word-set_word :
    (s : Fs) (b i v c j : ℕ)
    → v < u32_mod
    → word (set_word b i v s) c j ≡ (if (c == b) && (j == i) then v else word s c j)
unfolding word
word-set_word s b i v c j h =
    rw
      (
        set_word-byte s b i v c j 0 (4 * j) (omega arith) (omega arith),
        set_word-byte s b i v c j 1 (4 * j + 1) (omega arith) refl,
        set_word-byte s b i v c j 2 (4 * j + 2) (omega arith) refl,
        set_word-byte s b i v c j 3 (4 * j + 3) (omega arith) refl,
      )
      (elim (Bool-cases ((c == b) && (j == i))) [
        | inl e ↦ rw e (digits_lem v h)
        | inr e ↦ rw e refl
      ])

pub word-zeroed :
    (s : Fs) (b i : ℕ)
    → ((j : ℕ) → j < block_size → byte_at s b j ≡ 0)
    → i < nindirect
    → word s b i ≡ 0
unfolding word
word-zeroed s b i z h = omega (
  arith,
  z (4 * i) (omega arith),
  z (4 * i + 1) (omega arith),
  z (4 * i + 2) (omega arith),
  z (4 * i + 3) (omega arith),
)

pub word-kept :
    (s s' : Fs) (b i : ℕ) → ((j : ℕ) → s'.block b j ≡ s.block b j) → word s' b i ≡ word s b i
unfolding word
word-kept s s' b i k = rw (k (4 * i), k (4 * i + 1), k (4 * i + 2), k (4 * i + 3)) refl
