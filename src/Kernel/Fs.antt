-- ===== src/Kernel/Fs.antt =====
-- 2017_ELE3021/xv6-public/fs.c, fs.h and file.h: blocks, inodes, their contents and paths. `block` is
-- what `bread` returns for each block: a buffer that is changed stays cached, since log.c marks it
-- dirty. `logged` has the blocks of the calls of `log_write`, newest first; whether log.c takes them or
-- panics is not decided here: `Fs/Logged` hands them to its model. There is one device.
pub mod Bits
pub mod Blocks
pub mod Bmap
pub mod Inodes
pub mod Content
pub mod Trunc
pub mod Icache
pub mod Names
pub mod Dirs
pub mod Logged
pub mod Tests
use Prim.Native.Nat.{bit_and, bit_or}
use c_s_e_hanyang.Base.{
  ℕ, zero, suc, ◌+◌, ◌-◌, ◌*◌, ◌/◌, ◌%◌, ◌^◌, ◌≡◌, min, Bool, true, false, not, ◌&&◌, List, [], ◌∷◌,
  ltb, leb, ◌==◌, if◌then◌else◌, Option, none, some,
}

-- BSIZE and BPB
abbrev pub block_size : ℕ
block_size = 512

abbrev pub bits_per_block : ℕ
bits_per_block = 4096

pub record Superblock : Type 0 where
  pub size : ℕ
  pub nblocks : ℕ
  pub ninodes : ℕ
  pub nlog : ℕ
  pub logstart : ℕ
  pub inodestart : ℕ
  pub bmapstart : ℕ

pub record Fs : Type 0 where
  pub sb : Superblock
  pub block : ℕ → ℕ → ℕ
  pub logged : List ℕ

-- A byte of a block is read modulo 256, so that any function is a block.
abbrev pub byte_at : Fs → ℕ → ℕ → ℕ
byte_at s b i = s.block b i % 256

unfoldable pub set_byte : ℕ → ℕ → ℕ → Fs → Fs
set_byte b i v s = record s { block = λ c j. if (c == b) && (j == i) then v else s.block c j }

-- A call of `log_write`, noted for log.c.
abbrev pub note_write : ℕ → Fs → Fs
note_write b s = record s { logged = b ∷ s.logged }

-- BBLOCK
abbrev pub bitmap_block : Fs → ℕ → ℕ
bitmap_block s b = b / bits_per_block + s.sb.bmapstart

-- IPB and IBLOCK
abbrev pub inodes_per_block : ℕ
inodes_per_block = 8

abbrev pub inode_block : Fs → ℕ → ℕ
inode_block s i = i / inodes_per_block + s.sb.inodestart

-- `(bp->data[bi/8] & (1 << (bi % 8))) == 0`
unfoldable pub is_clear : Fs → ℕ → ℕ → Bool
is_clear s bb bi = bit_and (byte_at s bb (bi / 8)) (2 ^ (bi % 8)) == 0

-- bzero
unfoldable pub zero_block : ℕ → Fs → Fs
zero_block b s =
    note_write b
      (record s { block = λ c i. if (c == b) && ltb i block_size then 0 else s.block c i })

-- The loops of `balloc`: over the bits of one bitmap block, and over the bitmap blocks. The second
-- needs a turn for each block number at most.
unfoldable pub scan_bits : Fs → ℕ → ℕ → ℕ → Option ℕ
unfolding is_clear
scan_bits s bb bi zero = none
scan_bits s bb bi (suc n) =
    let later = scan_bits s bb (suc bi) n in if is_clear s bb bi then some bi else later

unfoldable pub scan_blocks : Fs → ℕ → ℕ → Option (ℕ × ℕ)
unfolding scan_bits
scan_blocks s zero b = none
scan_blocks s (suc n) b =
    let later = scan_blocks s n (b + bits_per_block) in
    let found : Option (ℕ × ℕ) =
      elim (scan_bits s (bitmap_block s b) 0 (min bits_per_block (s.sb.size - b))) [
        | some bi ↦ some (b, bi)
        | none ↦ later
      ] in
    if ltb b s.sb.size then found else none

unfoldable pub mark : ℕ → ℕ → Fs → Fs
unfolding set_byte
mark bb bi s =
    note_write bb (set_byte bb (bi / 8) (bit_or (byte_at s bb (bi / 8)) (2 ^ (bi % 8))) s)

-- `none` is the panic "balloc: out of blocks".
unfoldable pub balloc : Fs → Option (ℕ × Fs)
unfolding scan_blocks mark zero_block
balloc s = elim (scan_blocks s s.sb.size 0) [
  | none ↦ none
  | some (b, bi) ↦ some (b + bi, zero_block (b + bi) (mark (bitmap_block s b) bi s))
]

-- `none` is the panic "freeing free block". The superblock that it reads again does not change.
unfoldable pub bfree : ℕ → Fs → Option Fs
unfolding is_clear set_byte
bfree b s =
    let bb = bitmap_block s b in
    let bi = b % bits_per_block in
    let rest = bit_and (byte_at s bb (bi / 8)) (255 - 2 ^ (bi % 8)) in
    if is_clear s bb bi then none else some (note_write bb (set_byte bb (bi / 8) rest s))
