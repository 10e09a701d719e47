-- ===== src/Kernel/Fs/Bmap.antt =====
-- bmap and itrunc of xv6-public/fs.c: the block numbers of an inode, in the inode, in the indirect
-- block, and in the blocks below the doubly indirect block.
pub mod Words
pub mod Places
pub mod Grow
pub mod Reach
pub mod Inner
pub mod Lookup
pub mod Present
pub mod Returns
use c_s_e_hanyang.Base.{
  ℕ, zero, suc, ◌+◌, ◌-◌, ◌*◌, ◌/◌, ◌%◌, ◌≡◌, Bool, true, false, not, ◌&&◌, List, [], ◌∷◌, ltb,
  ◌==◌, if◌then◌else◌, get_or, set, Option, none, some,
}
use c_s_e_hanyang.Kernel.Fs.{Fs, byte_at, note_write, balloc, bfree}

-- NDIRECT and NINDIRECT
abbrev pub ndirect : ℕ
ndirect = 11

abbrev pub nindirect : ℕ
nindirect = 128

-- `struct inode`, less its lock; `valid` is the flag I_VALID.
pub record Inode : Type 0 where
  pub dev : ℕ
  pub inum : ℕ
  pub ref : ℕ
  pub valid : Bool
  pub type : ℕ
  pub major : ℕ
  pub minor : ℕ
  pub nlink : ℕ
  pub size : ℕ
  pub addrs : List ℕ

-- `a[i]` of a block read as an array of 32-bit numbers, lowest byte first.
unfoldable pub word : Fs → ℕ → ℕ → ℕ
word s b i =
    byte_at s b (4 * i)
    + 256 * byte_at s b (4 * i + 1)
    + 65536 * byte_at s b (4 * i + 2)
    + 16777216 * byte_at s b (4 * i + 3)

abbrev pub byte_of : ℕ → ℕ → ℕ
byte_of v k =
    if k == 0
    then v % 256
    else (if k == 1
        then v / 256 % 256
        else (if k == 2 then v / 65536 % 256 else v / 16777216 % 256))

unfoldable pub set_word : ℕ → ℕ → ℕ → Fs → Fs
set_word b i v s = record s {
  block = λ c j. if (c == b) && (j / 4 == i) then byte_of v (j % 4) else s.block c j;
}

-- `if((addr = ip->addrs[k]) == 0) ip->addrs[k] = addr = balloc(ip->dev)`
unfoldable pub top_addr : ℕ → Inode → Fs → Option (ℕ × Inode × Fs)
unfolding balloc
top_addr k ip s =
    if get_or ip.addrs k 0 == 0
    then elim (balloc s) [
      | none ↦ none
      | some (b, s') ↦ some (b, record ip { addrs = set ip.addrs k b }, s')
    ]
    else some (get_or ip.addrs k 0, ip, s)

-- The same for `a[i]` in block `b`, with the `note_write` behind it.
unfoldable pub word_addr : ℕ → ℕ → Fs → Option (ℕ × Fs)
unfolding balloc word set_word
word_addr b i s =
    if word s b i == 0
    then elim (balloc s) [ none ↦ none | some (x, s') ↦ some (x, note_write b (set_word b i x s')) ]
    else some (word s b i, s)

-- The last step of the indirect branches, and the one before it of the doubly indirect branch.
unfoldable pub last_addr : ℕ → Option (ℕ × Inode × Fs) → Option (ℕ × Inode × Fs)
unfolding word_addr
last_addr i none = none
last_addr i (some (a, ip, s)) = elim (word_addr a i s) [
  | none ↦ none
  | some (x, s') ↦ some (x, ip, s')
]

-- `none` is a panic.
unfoldable pub bmap : Inode → ℕ → Fs → Option (ℕ × Inode × Fs)
unfolding top_addr last_addr
bmap ip bn s =
    let in_single = bn - ndirect in
    let in_double = bn - ndirect - nindirect in
    if ltb bn ndirect
    then top_addr bn ip s
    else (if ltb in_single nindirect
        then last_addr in_single (top_addr ndirect ip s)
        else (if ltb in_double (nindirect * nindirect)
            then last_addr (in_double % nindirect)
                (last_addr (in_double / nindirect) (top_addr (ndirect + 1) ip s))
            else none))
