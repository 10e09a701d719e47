-- ===== src/Kernel/Fs/Tests.antt =====
-- A disk of 20 blocks with blocks 0, 1 and 2 in use, and an empty file on it.
use c_s_e_hanyang.Base.{
  ◌≤◌, ◌+◌, ◌∷◌, ◌++◌, List, length, false, ℕ, ◌<◌, zero, suc, ◌/◌, ◌≡◌, refl, true, ◌&&◌, ◌==◌,
  if◌then◌else◌, [], ◌⊎◌, Option, none, some, get_or, replicate, arith,
}
use c_s_e_hanyang.Kernel.Fs.{
  Fs, is_clear, zero_block, mark, balloc, bfree, set_byte, scan_bits, scan_blocks,
}
use c_s_e_hanyang.Kernel.Fs.Blocks.{used, BitmapUsed, InodesUsed, Allocated, balloc-total}
use c_s_e_hanyang.Kernel.Log.Admission.{Log}
use c_s_e_hanyang.Kernel.Log.Admission.Took.{take_writes}
use c_s_e_hanyang.Kernel.Fs.Logged.{bmap-logged}
use c_s_e_hanyang.Kernel.Fs.Blocks.Room.{free_blocks, free_under}
use c_s_e_hanyang.Kernel.Fs.Blocks.Free.{Freed, bfree-Freed}
use c_s_e_hanyang.Kernel.Fs.Bmap.{Inode, bmap, top_addr, word_addr, last_addr, word, set_word}
use c_s_e_hanyang.Kernel.Fs.Bmap.Places.{
  Place, top, slot, table, cell, addr, place, through, IsMapped,
}
use c_s_e_hanyang.Kernel.Fs.Bmap.Lookup.{Bmapped, bmap-Bmapped}

abbrev pub disk : Fs
disk = record {
  sb = record {
    size = 20;
    nblocks = 17;
    ninodes = 8;
    nlog = 0;
    logstart = 2;
    inodestart = 2;
    bmapstart = 1;
  };
  block = λ b i. if (b == 1) && (i == 0) then 7 else 0;
  logged = [];
}

abbrev pub empty_file : Inode
empty_file = record {
  dev = 1;
  inum = 1;
  ref = 1;
  valid = true;
  type = 2;
  major = 0;
  minor = 0;
  nlink = 1;
  size = 0;
  addrs = replicate 13 0;
}

disk-BitmapUsed : BitmapUsed disk
unfolding used is_clear
disk-BitmapUsed c lt = let z : c / 4096 ≡ 0 = omega arith in rw z (omega arith, refl)

disk-InodesUsed : InodesUsed disk
unfolding used is_clear
disk-InodesUsed c lt = let z : c / 8 ≡ 0 = omega arith in rw z (omega arith, refl)

balloc-total_example :
    ((balloc disk ≡ none) × ((x : ℕ) → x < 20 → used disk x ≡ true))
    ⊎ ((b : ℕ) × (s' : Fs) × (balloc disk ≡ some (b, s')) × Allocated disk b s')
balloc-total_example = balloc-total disk disk-BitmapUsed

bfree-Freed_example :
    ((bfree 2 disk ≡ none) × (used disk 2 ≡ false))
    ⊎ ((s' : Fs) × (bfree 2 disk ≡ some s') × Freed disk 2 s')
bfree-Freed_example = bfree-Freed 2 disk

pub zeros : (n k a : ℕ) → get_or (replicate n a) k a ≡ a
zeros zero k a = refl
zeros (suc n) zero a = refl
zeros (suc n) (suc k) a = zeros n k a

empty_addr : (p : Place) → addr empty_file disk p ≡ 0
unfolding addr through
empty_addr (top k) = zeros 13 k 0
empty_addr (slot i) = refl
empty_addr (table i) = refl
empty_addr (cell i j) = refl

pub empty-IsMapped : IsMapped empty_file disk
unfolding used is_clear
empty-IsMapped = record {
  bitmap = disk-BitmapUsed;
  inodes = disk-InodesUsed;
  bound = omega arith;
  positive = omega arith;
  boot = refl;
  tops = refl;
  owned = λ p i ne. absurd (ne (empty_addr p));
  injective = λ p q i j ne e. absurd (ne (empty_addr p));
}

unfoldable pub from_some : {A : Type 0} → A → Option A → A
from_some a none = a
from_some a (some b) = b

abbrev after : ℕ × Inode × Fs
unfolding bmap
after = from_some (0, empty_file, disk) (bmap empty_file 20 disk)

bmap_disk : bmap empty_file 20 disk ≡ some (4, after.1, after.2)
unfolding after from_some bmap top_addr last_addr word_addr balloc word set_word scan_blocks
    scan_bits is_clear zero_block mark set_byte
bmap_disk = refl

bmap-Bmapped_example : Bmapped empty_file disk (place 20) 4 after.1 after.2
bmap-Bmapped_example = bmap-Bmapped empty_file disk 20 4 after.1 after.2 empty-IsMapped bmap_disk

pub disk_room : 3 ≤ free_blocks disk
unfolding free_blocks free_under used is_clear
disk_room = omega arith

-- A log of 40 blocks with two blocks of an operation in it.
abbrev pub open_log : Log
open_log = record { size = 40; outstanding = 1; committing = false; lh = 9 ∷ 4 ∷ [] }

bmap-logged_example :
    (x : ℕ) × (ip' : Inode) × (s' : Fs) × (added : List ℕ) × (l' : Log) × (bmap empty_file 200 disk
      ≡ some (x, ip', s'))
    × (s'.logged ≡ added ++ [])
    × (take_writes added open_log ≡ some l')
    × (length l'.lh ≤ 10)
    × (free_blocks disk ≤ free_blocks s' + 3)
bmap-logged_example =
    bmap-logged empty_file disk 200 open_log empty-IsMapped (omega arith) disk_room (omega arith)
      (omega arith) (omega arith)
