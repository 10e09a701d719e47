-- ===== src/Kernel/Fs/Content/Tests.antt =====
-- Three bytes written to an empty file, read again, and the inode on the disk.
use c_s_e_hanyang.Base.{
  List, [], ◌++◌, ap, ℕ, ◌+◌, ◌%◌, ◌≡◌, refl, false, ◌==◌, if◌then◌else◌, Option, none, some, arith,
}
use c_s_e_hanyang.Kernel.Fs.Trunc.{itrunc}
use c_s_e_hanyang.Kernel.Fs.Trunc.Done.{Truncated, itrunc-Truncated}
use c_s_e_hanyang.Base.Int.{ℤ, pos}
use c_s_e_hanyang.Kernel.Fs.{
  Fs, is_clear, zero_block, mark, balloc, set_byte, scan_bits, scan_blocks,
}
use c_s_e_hanyang.Kernel.Fs.Tests.{
  disk_room, open_log, disk, empty_file, empty-IsMapped, zeros, from_some,
}
use c_s_e_hanyang.Kernel.Fs.Bmap.{Inode, bmap, top_addr, word_addr, last_addr, word, set_word}
use c_s_e_hanyang.Kernel.Fs.Inodes.{iupdate, dinode_word, ilock}
use c_s_e_hanyang.Kernel.Fs.Inodes.Disk.{IsInode, with_fields, ilock-iupdate}
use c_s_e_hanyang.Kernel.Fs.Content.{
  run_of, set_bytes, write_loop, grow, writei, readi, ReadDevice, WriteDevice,
}
use c_s_e_hanyang.Kernel.Fs.Content.Size.{HasInode, HasInode-same, Updated, writei-Updated}
use c_s_e_hanyang.Kernel.Log.Admission.{Log}
use c_s_e_hanyang.Kernel.Log.Admission.Took.{take_writes}
use c_s_e_hanyang.Kernel.Fs.Content.Returns.{spans, writei-returns}
use c_s_e_hanyang.Kernel.Fs.Content.Read.{readi-writei}

abbrev pub no_reader : ℕ → Option ReadDevice
no_reader k = none

abbrev pub no_writer : ℕ → Option WriteDevice
no_writer k = none

abbrev letters : ℕ → ℕ
letters k = 65 + k

pub empty-HasInode : HasInode empty_file disk
empty-HasInode = record { number = omega arith; no_map = λ c lt e. omega arith }

abbrev result : ℤ × Inode × Fs
unfolding writei
result = from_some (pos 0, empty_file, disk) (writei no_writer empty_file letters 0 3 disk)

writei_runs : writei no_writer empty_file letters 0 3 disk ≡ some result
unfolding result from_some writei write_loop grow iupdate dinode_word set_bytes bmap top_addr
    last_addr word_addr balloc word set_word scan_blocks scan_bits is_clear zero_block mark set_byte
writei_runs = refl

writei-Updated_example :
    (result.0 ≡ pos 3) × Updated empty_file disk 0 3 letters (result.1) (result.2)
writei-Updated_example =
    writei-Updated no_writer empty_file letters 0 3 disk result empty-IsMapped empty-HasInode
      (λ e. omega arith) (omega arith) (omega arith) writei_runs

readi-writei_example :
    readi no_reader (result.1) 0 3 (result.2)
    ≡ some (pos 3, run_of (λ k. letters k % 256) 0 3, result.1, result.2)
readi-writei_example =
    readi-writei no_reader no_writer empty_file letters 0 3 disk result empty-IsMapped
      empty-HasInode (λ e. omega arith) (omega arith) (omega arith) (omega arith) writei_runs

three_bytes : spans 0 3 ≡ 1
unfolding spans
three_bytes = refl

writei-returns_example :
    (r : ℤ × Inode × Fs) × (added : List ℕ) × (l' : Log) × (writei no_writer empty_file letters 0 3
        disk
      ≡ some r)
    × (r.2.logged ≡ added ++ [])
    × (take_writes added open_log ≡ some l')
writei-returns_example =
    writei-returns no_writer empty_file letters 0 3 disk open_log empty-IsMapped (λ e. omega arith)
      (omega arith) (omega arith) (omega (arith, three_bytes, disk_room)) (omega arith)
      (omega (arith, three_bytes)) (omega (arith, three_bytes))

empty-IsInode : IsInode empty_file
empty-IsInode = record {
  type_fits = omega arith;
  major_fits = omega arith;
  minor_fits = omega arith;
  nlink_fits = omega arith;
  size_fits = omega arith;
  tops = refl;
  addrs_fit = λ k. omega (arith, zeros 13 k 0);
}

-- An entry that has just been taken from the cache.
abbrev fresh_entry : Inode
fresh_entry = record empty_file { valid = false; type = 0; nlink = 0 }

ilock-iupdate_example : ilock fresh_entry (iupdate empty_file disk) ≡ (
    if 1 == 1
    then (if 2 == 0 then none else some (with_fields empty_file fresh_entry))
    else ilock fresh_entry disk)
ilock-iupdate_example = ilock-iupdate empty_file fresh_entry disk empty-IsInode (omega arith) refl

result-Updated : Updated empty_file disk 0 3 letters (result.1) (result.2)
result-Updated =
    (writei-Updated no_writer empty_file letters 0 3 disk result empty-IsMapped empty-HasInode
      (λ e. omega arith) (omega arith) (omega arith) writei_runs).1

result-HasInode : HasInode (result.1) (result.2)
result-HasInode =
    HasInode-same empty_file (result.1) disk (result.2) (ap (λ i. i.inum) result-Updated.same_ip)
      result-Updated.same_sb empty-HasInode

itrunc-Truncated_example :
    (ip' : Inode) × (s' : Fs) × (itrunc (result.1) (result.2) ≡ some (ip', s'))
    × Truncated (result.1) (result.2) ip' s'
itrunc-Truncated_example =
    itrunc-Truncated (result.1) (result.2) result-Updated.mapped result-HasInode
