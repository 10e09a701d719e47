-- ===== src/Kernel/Fs/Blocks.antt =====
-- balloc of xv6-public/fs.c against the set of blocks in use.
pub mod Free
pub mod Room
use Prim.Native.Nat.{bit_and}
use mathlib.Core.Path.{subst}
use c_s_e_hanyang.Base.{
  ℕ, zero, suc, ◌+◌, ◌-◌, ◌*◌, ◌/◌, ◌%◌, ◌^◌, ◌≤◌, ◌<◌, ◌≡◌, ◌≢◌, refl, ap, sym, ◌∙◌, min, Bool,
  true, false, not, ◌&&◌, ◌||◌, List, [], ◌∷◌, ltb, leb, ◌==◌, if◌then◌else◌, Option, none, some,
  arith, Bool-cases, Option-cases, ◌⊎◌, inl, inr,
}
use c_s_e_hanyang.Kernel.Fs.{
  Superblock, Fs, byte_at, set_byte, note_write, bitmap_block, inode_block, is_clear, zero_block,
  scan_bits, scan_blocks, mark, balloc, bfree, block_size, bits_per_block,
}
use c_s_e_hanyang.Kernel.Fs.Bits.{bit, bit-or, bit-and}

-- The bit of block `b` in the free map.
unfoldable pub used : Fs → ℕ → Bool
unfolding is_clear
used s b = not (is_clear s (bitmap_block s b) (b % bits_per_block))

pub set_byte-bit :
    (s : Fs) (bb bi v cc ci : ℕ)
    → bit (byte_at (set_byte bb (bi / 8) v s) cc (ci / 8)) (ci % 8) ≡ (
        if (cc == bb) && (ci / 8 == bi / 8)
        then bit (v % 256) (ci % 8)
        else bit (byte_at s cc (ci / 8)) (ci % 8))
unfolding set_byte
set_byte-bit s bb bi v cc ci = ground arith

pub mark-is_clear :
    (s : Fs) (bb bi cc ci : ℕ)
    → is_clear (mark bb bi s) cc ci ≡ (not ((cc == bb) && (ci == bi)) && is_clear s cc ci)
unfolding is_clear mark
mark-is_clear s bb bi cc ci = elim (Bool-cases ((cc == bb) && (ci / 8 == bi / 8))) [
  | inl e ↦
      ground (arith, set_byte-bit s bb bi _ cc ci, bit-or (bi % 8) (ci % 8) (byte_at s bb (bi / 8)))
  | inr e ↦ ground (arith, set_byte-bit s bb bi _ cc ci)
]

scan_bits_lem :
    (s : Fs) (bb bi n r : ℕ)
    → scan_bits s bb bi n ≡ some r
    → (is_clear s bb r ≡ true) × (bi ≤ r) × (r < bi + n)
unfolding scan_bits
scan_bits_lem s bb bi zero r h = ground arith
scan_bits_lem s bb bi (suc n) r h = ground (arith, scan_bits_lem s bb (suc bi) n r)

scan_bits-none :
    (s : Fs) (bb bi n j : ℕ)
    → scan_bits s bb bi n ≡ none
    → bi ≤ j
    → j < bi + n
    → is_clear s bb j ≡ false
unfolding scan_bits
scan_bits-none s bb bi zero j h le lt = absurd (omega arith)
scan_bits-none s bb bi (suc n) j h le lt = elim (Bool-cases (is_clear s bb bi)) [
  | inl e ↦ ground arith
  | inr e ↦ elim (Bool-cases (bi == j)) [
    | inl here ↦ let same : bi ≡ j = ground arith in rw (← same) e
    | inr later ↦ scan_bits-none s bb (suc bi) n j (ground arith) (ground arith) (omega arith)
  ]
]

-- What a result of the scan says.
record Found (s : Fs) (c bi : ℕ) : Type 0 where
  pub aligned : c % bits_per_block ≡ 0
  pub offset : bi < bits_per_block
  pub inside : c + bi < s.sb.size
  pub clear : is_clear s (bitmap_block s c) bi ≡ true

scan_blocks-Found :
    (s : Fs) (n b c bi : ℕ)
    → b % bits_per_block ≡ 0
    → scan_blocks s n b ≡ some (c, bi)
    → Found s c bi
unfolding scan_blocks
scan_blocks-Found s zero b c bi a h = ground arith
scan_blocks-Found s (suc n) b c bi a h = elim (Bool-cases (ltb b s.sb.size)) [
  | inr e ↦ ground arith
  | inl e ↦
      elim (Option-cases (scan_bits s (bitmap_block s b) 0 (min bits_per_block (s.sb.size - b)))) [
        | inl o ↦ scan_blocks-Found s n (b + bits_per_block) c bi (omega arith) (ground arith)
        | inr (r, o) ↦
            let facts =
              scan_bits_lem s (bitmap_block s b) 0 (min bits_per_block (s.sb.size - b)) r o in
            ground arith
      ]
]

scan_blocks-finds :
    (s : Fs) (n b x : ℕ)
    → b % bits_per_block ≡ 0
    → b ≤ x
    → x < s.sb.size
    → s.sb.size ≤ b + n
    → used s x ≡ false
    → (r : ℕ × ℕ) × (scan_blocks s n b ≡ some r)
unfolding scan_blocks used
scan_blocks-finds s zero b x a le lt enough free = absurd (omega arith)
scan_blocks-finds s (suc n) b x a le lt enough free =
    elim (Option-cases (scan_bits s (bitmap_block s b) 0 (min bits_per_block (s.sb.size - b)))) [
      | inr (r, o) ↦ ((b, r), ground arith)
      | inl o ↦
          let beyond : b + bits_per_block ≤ x = ground (
            arith,
            scan_bits-none s (bitmap_block s b) 0 (min bits_per_block (s.sb.size - b))
                (x % bits_per_block) o,
          ) in
          let rest =
            scan_blocks-finds s n (b + bits_per_block) x (omega arith) beyond lt (omega arith)
              free in
          (rest.0, ground (arith, rest.1))
    ]

-- The blocks of the free map are on the disk and in use.
abbrev pub BitmapUsed : Fs → Type 0
BitmapUsed s =
    (c : ℕ) → c < s.sb.size → (bitmap_block s c < s.sb.size) × (used s (bitmap_block s c) ≡ true)

-- So are the inode blocks.
abbrev pub InodesUsed : Fs → Type 0
InodesUsed s =
    (i : ℕ) → i < s.sb.ninodes → (inode_block s i < s.sb.size) × (used s (inode_block s i) ≡ true)

-- What an allocation of block `b` leaves.
pub record Allocated (s : Fs) (b : ℕ) (s' : Fs) : Type 0 where
  pub inside : b < s.sb.size
  pub was_free : used s b ≡ false
  pub now_used : (c : ℕ) → c < s.sb.size → used s' c ≡ ((c == b) || used s c)
  pub zeroed : (i : ℕ) → i < block_size → byte_at s' b i ≡ 0
  pub kept : (c i : ℕ) → c ≢ b → c ≢ bitmap_block s b → s'.block c i ≡ s.block c i
  pub same_sb : s'.sb ≡ s.sb

zero_block-is_clear :
    (s : Fs) (b cc ci : ℕ) → cc ≢ b → is_clear (zero_block b s) cc ci ≡ is_clear s cc ci
unfolding is_clear zero_block
zero_block-is_clear s b cc ci ne = ground arith

zero_block-kept : (s : Fs) (b c i : ℕ) → c ≢ b → (zero_block b s).block c i ≡ s.block c i
unfolding zero_block
zero_block-kept s b c i ne = ground arith

zero_block-zeroed : (s : Fs) (b i : ℕ) → i < block_size → byte_at (zero_block b s) b i ≡ 0
unfolding zero_block
zero_block-zeroed s b i lt = ground arith

mark-kept : (s : Fs) (bb bi c i : ℕ) → c ≢ bb → (mark bb bi s).block c i ≡ s.block c i
unfolding mark set_byte
mark-kept s bb bi c i ne = ground arith

mark-sb : (s : Fs) (b bb bi : ℕ) → (zero_block b (mark bb bi s)).sb ≡ s.sb
unfolding mark zero_block set_byte
mark-sb s b bb bi = refl

module _ (s : Fs) (c bi : ℕ) (fixed : BitmapUsed s) (f : Found s c bi) where
  same_map : bitmap_block s (c + bi) ≡ bitmap_block s c
  same_map = omega (arith, f.aligned, f.offset)

  offset_eq : (c + bi) % bits_per_block ≡ bi
  offset_eq = omega (arith, f.aligned, f.offset)

  free_before : used s (c + bi) ≡ false
  unfolding used
  free_before = rw (same_map, offset_eq, f.clear) refl

  not_map : (x : ℕ) → x < s.sb.size → bitmap_block s x ≢ c + bi
  not_map x lt e =
      let a : used s (c + bi) ≡ true = (rw (← e) ((fixed x lt).1)) in ground (arith, free_before)

  used_after :
      (x : ℕ)
      → x < s.sb.size
      → used (zero_block (c + bi) (mark (bitmap_block s c) bi s)) x ≡ ((x == (c + bi)) || used s x)
  unfolding used zero_block mark
  used_after x lt =
      ap not (
        zero_block-is_clear (mark (bitmap_block s c) bi s) (c + bi) (bitmap_block s x)
          (x % bits_per_block) (not_map x lt))
      ∙ ground (
        arith,
        mark-is_clear s (bitmap_block s c) bi (bitmap_block s x) (x % bits_per_block),
        f.aligned,
        f.offset,
      )

  balloc-step : Allocated s (c + bi) (zero_block (c + bi) (mark (bitmap_block s c) bi s))
  balloc-step = record {
    inside = f.inside;
    was_free = free_before;
    now_used = used_after;
    zeroed = zero_block-zeroed (mark (bitmap_block s c) bi s) (c + bi);
    kept = λ x i ne map.
        zero_block-kept (mark (bitmap_block s c) bi s) (c + bi) x i ne
        ∙ mark-kept s (bitmap_block s c) bi x i (λ e. map (e ∙ sym same_map));
    same_sb = mark-sb s (c + bi) (bitmap_block s c) bi;
  }

balloc-result :
    (s : Fs) (c bi b : ℕ) (s' : Fs)
    → BitmapUsed s
    → scan_blocks s s.sb.size 0 ≡ some (c, bi)
    → (c + bi ≡ b) × (zero_block (c + bi) (mark (bitmap_block s c) bi s) ≡ s')
    → Allocated s b s'
balloc-result s c bi b s' fixed found (eb, es) =
    subst (λ x. Allocated s x s') eb
      (subst (Allocated s (c + bi)) es
        (balloc-step s c bi fixed (scan_blocks-Found s s.sb.size 0 c bi (omega arith) found)))

-- A block that balloc returns was free; it is then in use and all zero.
pub balloc-Allocated :
    (s : Fs) (b : ℕ) (s' : Fs) → BitmapUsed s → balloc s ≡ some (b, s') → Allocated s b s'
unfolding balloc
balloc-Allocated s b s' fixed h = elim (Option-cases (scan_blocks s s.sb.size 0)) [
  | inl o ↦ ground arith
  | inr ((c, bi), o) ↦ balloc-result s c bi b s' fixed o (ground arith)
]

-- balloc finds a free block if there is one.
pub balloc-finds :
    (s : Fs) (x : ℕ) → x < s.sb.size → used s x ≡ false → (r : ℕ × Fs) × (balloc s ≡ some r)
unfolding balloc
balloc-finds s x lt free =
    let (r, o) =
      scan_blocks-finds s s.sb.size 0 x (omega arith) (omega arith) lt (omega arith) free in
    ((r.0 + r.1, zero_block (r.0 + r.1) (mark (bitmap_block s r.0) r.1 s)), ground arith)

-- balloc panics only if every block is in use. Else the block that it returns was free, and is then in
-- use and all zero; no other block's bit changes, and no other block's bytes but those of the free map.
-- The blocks of the free map are themselves in use.
pub balloc-total :
    (s : Fs)
    → BitmapUsed s
    → ((balloc s ≡ none) × ((x : ℕ) → x < s.sb.size → used s x ≡ true))
      ⊎ ((b : ℕ) × (s' : Fs) × (balloc s ≡ some (b, s')) × Allocated s b s')
balloc-total s fixed = elim (Option-cases (balloc s)) [
  | inr ((b, s'), o) ↦ inr (b, s', o, balloc-Allocated s b s' fixed o)
  | inl o ↦ inl (
    o,
    λ x lt. elim (Bool-cases (used s x)) [
      | inl u ↦ u
      | inr free ↦ ground (arith, (balloc-finds s x lt free).1)
    ],
  )
]
