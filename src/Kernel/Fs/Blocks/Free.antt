-- ===== src/Kernel/Fs/Blocks/Free.antt =====
-- bfree of xv6-public/fs.c against the set of blocks in use.
use Prim.Native.Nat.{bit_and}
use mathlib.Core.Path.{subst}
use c_s_e_hanyang.Base.{
  ℕ, ◌-◌, ◌/◌, ◌%◌, ◌^◌, ◌≡◌, ◌≢◌, refl, true, false, not, ◌&&◌, ◌==◌, none, some, arith,
  Bool-cases, Option-cases, ◌⊎◌, inl, inr,
}
use c_s_e_hanyang.Kernel.Fs.{
  Fs, byte_at, set_byte, note_write, bitmap_block, is_clear, bfree, bits_per_block,
}
use c_s_e_hanyang.Kernel.Fs.Bits.{bit-and}
use c_s_e_hanyang.Kernel.Fs.Blocks.{used, set_byte-bit}

-- What freeing block `b` leaves.
pub record Freed (s : Fs) (b : ℕ) (s' : Fs) : Type 0 where
  pub was_used : used s b ≡ true
  pub now_used : (c : ℕ) → used s' c ≡ (not (c == b) && used s c)
  pub kept : (c i : ℕ) → c ≢ bitmap_block s b → s'.block c i ≡ s.block c i
  pub same_sb : s'.sb ≡ s.sb

cleared : ℕ → Fs → Fs
unfolding set_byte
cleared b s = note_write (bitmap_block s b) (
    set_byte (bitmap_block s b) (b % bits_per_block / 8)
      (bit_and (byte_at s (bitmap_block s b) (b % bits_per_block / 8))
        (255 - 2 ^ (b % bits_per_block % 8)))
      s)

cleared-used : (s : Fs) (b c : ℕ) → used (cleared b s) c ≡ (not (c == b) && used s c)
unfolding used is_clear cleared
cleared-used s b c =
    elim (Bool-cases (
      (bitmap_block s c == bitmap_block s b)
      && (c % bits_per_block / 8 == b % bits_per_block / 8))) [
        | inl e ↦ ground (
          arith,
          set_byte-bit s (bitmap_block s b) (b % bits_per_block) _ (bitmap_block s c)
              (c % bits_per_block),
          bit-and (b % bits_per_block % 8) (c % bits_per_block % 8)
              (byte_at s (bitmap_block s b) (b % bits_per_block / 8)),
        )
        | inr e ↦ ground (
          arith,
          set_byte-bit s (bitmap_block s b) (b % bits_per_block) _ (bitmap_block s c)
              (c % bits_per_block),
        )
      ]

cleared-kept : (s : Fs) (b c i : ℕ) → c ≢ bitmap_block s b → (cleared b s).block c i ≡ s.block c i
unfolding cleared set_byte
cleared-kept s b c i ne = ground arith

cleared-Freed : (s : Fs) (b : ℕ) → used s b ≡ true → Freed s b (cleared b s)
unfolding cleared
cleared-Freed s b u = record {
  was_used = u;
  now_used = cleared-used s b;
  kept = cleared-kept s b;
  same_sb = refl;
}

freed_lem : (b : ℕ) (s s' : Fs) → bfree b s ≡ some s' → Freed s b s'
unfolding bfree used cleared
freed_lem b s s' h = elim (Bool-cases (is_clear s (bitmap_block s b) (b % bits_per_block))) [
  | inl e ↦ ground arith
  | inr e ↦ subst (Freed s b) (ground arith) (cleared-Freed s b (ground arith))
]

-- bfree panics exactly if the block is free. Else it clears the block's bit, and changes no other bit
-- and no byte of a block that is not of the free map.
pub bfree-Freed :
    (b : ℕ) (s : Fs)
    → ((bfree b s ≡ none) × (used s b ≡ false)) ⊎ ((s' : Fs) × (bfree b s ≡ some s') × Freed s b s')
unfolding bfree used
bfree-Freed b s = elim (Option-cases (bfree b s)) [
  | inl o ↦ elim (Bool-cases (is_clear s (bitmap_block s b) (b % bits_per_block))) [
    | inl e ↦ inl (o, ground arith)
    | inr e ↦ ground arith
  ]
  | inr (s', o) ↦ inr (s', o, freed_lem b s s' o)
]
