-- ===== src/Kernel/Fs/Icache/Tests.antt =====
-- The first inode that is taken into the cache.
use c_s_e_hanyang.Base.{ℕ, ◌<◌, ◌≡◌, refl, ◌⊎◌, length, none, some}
use c_s_e_hanyang.Kernel.Fs.Tests.{disk}
use c_s_e_hanyang.Kernel.Fs.Icache.{Icache, blank, entry, put_entry, probe, take_entry, iget, start}
use c_s_e_hanyang.Kernel.Fs.Icache.Get.{Got, iget-Got}
use c_s_e_hanyang.Kernel.Fs.Icache.Unique.{
  IsUnique, got, Reached, at_start, and_then, icache-IsUnique,
}

abbrev one_inode : Icache
one_inode = put_entry 0 (record blank { dev = 1; inum = 1; ref = 1 }) (start disk)

first_iget : iget 1 1 (start disk) ≡ some (0, one_inode)
unfolding iget take_entry probe
first_iget = refl

one_inode-Reached : Reached one_inode
one_inode-Reached =
    and_then (start disk) one_inode (at_start disk) (got 1 1 (start disk) (0, one_inode) first_iget)

icache-IsUnique_example : IsUnique one_inode
icache-IsUnique_example = icache-IsUnique one_inode one_inode-Reached

iget-Got_example :
    ((iget 1 1 one_inode ≡ none)
      × ((k : ℕ) → k < length one_inode.inode → 0 < (entry one_inode k).ref))
    ⊎ ((i : ℕ) × (c' : Icache) × (iget 1 1 one_inode ≡ some (i, c')) × Got 1 1 one_inode i c')
iget-Got_example = iget-Got 1 1 one_inode
