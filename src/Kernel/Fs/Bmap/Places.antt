-- ===== src/Kernel/Fs/Bmap/Places.antt =====
-- The places that hold the block numbers of an inode of xv6-public/fs.c, and what it means that the
-- inode's blocks are its own.
use c_s_e_hanyang.Base.{
  ℕ, [], ◌+◌, ◌-◌, ◌/◌, ◌%◌, ◌≤◌, ◌<◌, ◌≡◌, ◌≢◌, Bool, true, false, ◌&&◌, ltb, ◌==◌, if◌then◌else◌,
  get_or, length, u32_mod,
}
use c_s_e_hanyang.Kernel.Fs.{Fs, bitmap_block, inode_block}
use c_s_e_hanyang.Kernel.Fs.Blocks.{used, BitmapUsed, InodesUsed}
use c_s_e_hanyang.Kernel.Fs.Bmap.{Inode, word, ndirect, nindirect}

-- `top k` is `addrs[k]`; `slot` is in the indirect block, `table` in the doubly indirect block, and
-- `cell i j` in the block of `table i`.
pub data Place : Type 0 where
  top slot table : ℕ → Place
  cell : ℕ → ℕ → Place

abbrev pub IsPlace : Place → Type 0
IsPlace (top k) = k < ndirect + 2
IsPlace (slot i) = i < nindirect
IsPlace (table i) = i < nindirect
IsPlace (cell i j) = (i < nindirect) × (j < nindirect)

-- The places of the blocks with the file's bytes.
abbrev pub IsData : Place → Type 0
IsData (top k) = k < ndirect
IsData (slot i) = i < nindirect
IsData (table i) = 1 ≤ 0
IsData (cell i j) = (i < nindirect) × (j < nindirect)

abbrev pub same_place : Place → Place → Bool
same_place (top k) (top l) = k == l
same_place (slot i) (slot j) = i == j
same_place (table i) (table j) = i == j
same_place (cell i j) (cell k l) = (i == k) && (j == l)
same_place _ _ = false

-- The place of the block that holds the number, for the places that are in a block; and where in it.
abbrev pub HasParent : Place → Type 0
HasParent (top k) = 1 ≤ 0
HasParent _ = 0 ≤ 0

abbrev pub parent : Place → Place
parent (top k) = top k
parent (slot i) = top ndirect
parent (table i) = top (ndirect + 1)
parent (cell i j) = table i

abbrev pub index : Place → ℕ
index (top k) = k
index (slot i) = i
index (table i) = i
index (cell i j) = j

-- The inode less its block numbers.
abbrev pub strip : Inode → Inode
strip ip = record ip { addrs = [] }

-- A number in a block, if there is the block.
unfoldable pub through : Fs → ℕ → ℕ → ℕ
through s a i = if a == 0 then 0 else word s a i

unfoldable pub addr : Inode → Fs → Place → ℕ
unfolding through
addr ip s (top k) = get_or ip.addrs k 0
addr ip s (slot i) = through s (get_or ip.addrs ndirect 0) i
addr ip s (table i) = through s (get_or ip.addrs (ndirect + 1) 0) i
addr ip s (cell i j) = through s (through s (get_or ip.addrs (ndirect + 1) 0) i) j

-- The place of the file's block `bn`.
unfoldable pub place : ℕ → Place
place bn =
    let in_double = bn - ndirect - nindirect in
    if ltb bn ndirect
    then top bn
    else (if ltb (bn - ndirect) nindirect
        then slot (bn - ndirect)
        else cell (in_double / nindirect) (in_double % nindirect))

-- A block of the inode is on the disk, in use, and neither of the free map nor an inode block.
pub record Owned (s : Fs) (a : ℕ) : Type 0 where
  pub inside : a < s.sb.size
  pub in_use : used s a ≡ true
  pub no_map : (c : ℕ) → c < s.sb.size → a ≢ bitmap_block s c
  pub no_inode : (i : ℕ) → i < s.sb.ninodes → a ≢ inode_block s i

-- The blocks of the inode are owned, and no two places hold the same one.
pub record IsMapped (ip : Inode) (s : Fs) : Type 0 where
  pub bitmap : BitmapUsed s
  pub inodes : InodesUsed s
  pub bound : s.sb.size ≤ u32_mod
  pub positive : 0 < s.sb.size
  pub boot : used s 0 ≡ true
  pub tops : length ip.addrs ≡ ndirect + 2
  pub owned : (p : Place) → IsPlace p → addr ip s p ≢ 0 → Owned s (addr ip s p)
  pub injective :
      (p q : Place)
      → IsPlace p
      → IsPlace q
      → addr ip s p ≢ 0
      → addr ip s p ≡ addr ip s q
      → same_place p q ≡ true
