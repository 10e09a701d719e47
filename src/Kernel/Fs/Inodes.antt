-- ===== src/Kernel/Fs/Inodes.antt =====
-- Inodes on the disk of xv6-public/fs.c: the dinode of fs.h, iupdate, and what ilock reads. The sleep
-- lock of an inode is not modelled.
pub mod Disk
use c_s_e_hanyang.Base.{
  ℕ, zero, suc, ◌+◌, ◌-◌, ◌*◌, ◌/◌, ◌%◌, ◌≡◌, Bool, true, false, ◌&&◌, List, [], ◌∷◌, ◌==◌,
  if◌then◌else◌, get_or, Option, none, some,
}
use c_s_e_hanyang.Kernel.Fs.{Fs, note_write, inode_block, inodes_per_block}
use c_s_e_hanyang.Kernel.Fs.Bmap.{Inode, word, byte_of, ndirect}

-- `struct dinode` as 16 words: four shorts, the size, and the block numbers.
unfoldable pub dinode_word : Inode → ℕ → ℕ
dinode_word ip w =
    if w == 0
    then ip.type % 65536 + 65536 * (ip.major % 65536)
    else (if w == 1
        then ip.minor % 65536 + 65536 * (ip.nlink % 65536)
        else (if w == 2 then ip.size else get_or ip.addrs (w - 3) 0))

-- A dinode has 64 bytes.
unfoldable pub iupdate : Inode → Fs → Fs
unfolding dinode_word
iupdate ip s =
    let b = inode_block s ip.inum in
    note_write b (record s {
      block = λ c j.
          if (c == b) && (j / 64 == ip.inum % inodes_per_block)
          then byte_of (dinode_word ip (j % 64 / 4)) (j % 4)
          else s.block c j;
    })

-- `memmove` of n words from word i on
unfoldable pub words : Fs → ℕ → ℕ → ℕ → List ℕ
unfolding word
words s b i zero = []
words s b i (suc n) = word s b i ∷ words s b (suc i) n

unfoldable pub read_inode : Inode → Fs → Inode
unfolding word words
read_inode ip s =
    let b = inode_block s ip.inum in
    let at = 16 * (ip.inum % inodes_per_block) in
    record ip {
      valid = true;
      type = word s b at % 65536;
      major = word s b at / 65536;
      minor = word s b (at + 1) % 65536;
      nlink = word s b (at + 1) / 65536;
      size = word s b (at + 2);
      addrs = words s b (at + 3) (ndirect + 2);
    }

-- `none` is the panic "ilock: no type".
unfoldable pub typed : Inode → Option Inode
typed ip = if ip.type == 0 then none else some ip

-- `none` is a panic.
unfoldable pub ilock : Inode → Fs → Option Inode
unfolding read_inode typed
ilock ip s =
    let read = typed (read_inode ip s) in
    if ip.ref == 0 then none else (if ip.valid then some ip else read)

pub record Stat : Type 0 where
  pub type : ℕ
  pub dev : ℕ
  pub ino : ℕ
  pub nlink : ℕ
  pub size : ℕ

unfoldable pub stati : Inode → Stat
stati ip = record { type = ip.type; dev = ip.dev; ino = ip.inum; nlink = ip.nlink; size = ip.size }
