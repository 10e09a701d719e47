-- ===== src/Kernel/Fs/Dirs/Tests.antt =====
-- A directory with the entry "a" for inode 5.
use c_s_e_hanyang.Base.{
  ◌∷◌, replicate, none, ℕ, ◌≡◌, refl, ap, ◌==◌, if◌then◌else◌, Option, some, arith,
}
use c_s_e_hanyang.Base.Int.{ℤ, pos}
use c_s_e_hanyang.Kernel.Fs.{
  Fs, is_clear, zero_block, mark, balloc, set_byte, scan_bits, scan_blocks,
}
use c_s_e_hanyang.Kernel.Fs.Tests.{zeros, disk, empty_file, empty-IsMapped, from_some}
use c_s_e_hanyang.Kernel.Fs.Bmap.{Inode, bmap, top_addr, word_addr, last_addr, word, set_word}
use c_s_e_hanyang.Kernel.Fs.Inodes.{iupdate, dinode_word}
use c_s_e_hanyang.Kernel.Fs.Content.{set_bytes, write_loop, grow, writei}
use c_s_e_hanyang.Kernel.Fs.Bmap.Places.{Place, top, slot, table, cell, addr, through, IsMapped}
use c_s_e_hanyang.Kernel.Fs.Content.View.{content}
use c_s_e_hanyang.Kernel.Fs.Content.Size.{HasInode, Updated, writei-Updated}
use c_s_e_hanyang.Kernel.Fs.Content.Tests.{no_reader, no_writer}
use c_s_e_hanyang.Kernel.Fs.Dirs.{t_dir, dirlookup}
use c_s_e_hanyang.Kernel.Fs.Icache.{Icache, blank}
use c_s_e_hanyang.Kernel.Fs.Dirs.Scan.{First, HasEntries, looked_up, dirlookup-First}

abbrev dirent_bytes : ℕ → ℕ
dirent_bytes k = if k == 0 then 5 else (if k == 2 then 97 else 0)

abbrev name_a : ℕ → ℕ
name_a k = if k == 0 then 97 else 0

abbrev empty_dir : Inode
empty_dir = record empty_file { type = 1 }

-- The type of an inode does not matter to its blocks.
empty_dir-IsMapped : IsMapped empty_dir disk
unfolding addr through
empty_dir-IsMapped = record {
  bitmap = empty-IsMapped.bitmap;
  inodes = empty-IsMapped.inodes;
  bound = empty-IsMapped.bound;
  positive = empty-IsMapped.positive;
  boot = empty-IsMapped.boot;
  tops = refl;
  owned = λ p i ne. absurd (ne (no_addr p));
  injective = λ p q i j ne e. absurd (ne (no_addr p));
}
  where
    no_addr : (p : Place) → addr empty_dir disk p ≡ 0
    no_addr (top k) = zeros 13 k 0
    no_addr (slot i) = refl
    no_addr (table i) = refl
    no_addr (cell i j) = refl

empty_dir-HasInode : HasInode empty_dir disk
empty_dir-HasInode = record { number = omega arith; no_map = λ c lt e. omega arith }

abbrev written_dir : ℤ × Inode × Fs
unfolding writei
written_dir = from_some (pos 0, empty_dir, disk) (writei no_writer empty_dir dirent_bytes 0 16 disk)

written_dir_made : writei no_writer empty_dir dirent_bytes 0 16 disk ≡ some written_dir
unfolding written_dir from_some writei write_loop grow iupdate dinode_word set_bytes bmap top_addr
    last_addr word_addr balloc word set_word scan_blocks scan_bits is_clear zero_block mark set_byte
written_dir_made = refl

written_dir-Updated : Updated empty_dir disk 0 16 dirent_bytes (written_dir.1) (written_dir.2)
written_dir-Updated =
    (writei-Updated no_writer empty_dir dirent_bytes 0 16 disk written_dir empty_dir-IsMapped
      empty_dir-HasInode (λ e. omega arith) (omega arith) (omega arith) written_dir_made).1

written_dir_size : (written_dir.1).size ≡ 16
written_dir_size = written_dir-Updated.new_size

-- The cache with that directory in entry 0.
abbrev dir_cache : Icache
dir_cache = record { inode = (written_dir.1) ∷ replicate 49 blank; fs = written_dir.2 }

written_dir-HasEntries : HasEntries (written_dir.1) (written_dir.2)
written_dir-HasEntries = record {
  whole = omega (arith, written_dir_size);
  fits = omega (arith, written_dir_size);
  there = λ k lt. written_dir-Updated.there k (omega arith) (omega (arith, written_dir_size));
}

dirlookup-First_example :
    (r : Option (ℕ × ℕ)) × First
      (content (written_dir.1) (written_dir.2))
      name_a
      (written_dir.1).size
      0
      r
    × (dirlookup no_reader 0 name_a dir_cache ≡ (
        if (written_dir.1).type == t_dir then looked_up (written_dir.1).dev dir_cache r else none))
dirlookup-First_example = dirlookup-First no_reader 0 name_a dir_cache written_dir-HasEntries

written_dir_type : (written_dir.1).type ≡ t_dir
written_dir_type = ap (λ i. i.type) written_dir-Updated.same_ip
