-- ===== src/Kernel/Fs/Icache.antt =====
-- The inode cache of xv6-public/fs.c: iget, idup, iput, ialloc. An inode is named by its index in
-- `icache.inode`. `icache.lock` and the sleep locks are not modelled: a call is one step, so iunlock
-- does nothing here and iunlockput is iput.
pub mod Probing
pub mod Get
pub mod Put
pub mod Unique
mod Tests
use c_s_e_hanyang.Base.{
  ℕ, zero, suc, ◌+◌, ◌-◌, ◌*◌, ◌/◌, ◌%◌, ◌≡◌, Bool, true, false, not, ◌&&◌, List, [], ◌∷◌, ltb,
  ◌==◌, if◌then◌else◌, get_or, set, replicate, Option, none, some, ◌>>=◌,
}
use c_s_e_hanyang.Kernel.Fs.{Fs, note_write, inode_block, inodes_per_block}
use c_s_e_hanyang.Kernel.Fs.Bmap.{Inode, word, byte_of}
use c_s_e_hanyang.Kernel.Fs.Inodes.{iupdate}
use c_s_e_hanyang.Kernel.Fs.Trunc.{itrunc}

-- NINODE
abbrev pub ninode : ℕ
ninode = 50

pub record Icache : Type 0 where
  pub inode : List Inode
  pub fs : Fs

-- An entry of the zeroed array.
abbrev pub blank : Inode
blank = record {
  dev = 0;
  inum = 0;
  ref = 0;
  valid = false;
  type = 0;
  major = 0;
  minor = 0;
  nlink = 0;
  size = 0;
  addrs = replicate 13 0;
}

abbrev pub start : Fs → Icache
start s = record { inode = replicate ninode blank; fs = s }

abbrev pub entry : Icache → ℕ → Inode
entry c i = get_or c.inode i blank

abbrev pub put_entry : ℕ → Inode → Icache → Icache
put_entry i ip c = record c { inode = set c.inode i ip }

-- The loop of iget stops at a hit, or knows the first empty slot.
pub data Probe : Type 0 where
  hit : ℕ → Probe
  miss : Option ℕ → Probe

abbrev pub is_cached : ℕ → ℕ → Inode → Bool
is_cached dev inum ip = ltb 0 ip.ref && (ip.dev == dev && ip.inum == inum)

abbrev pub remember : Option ℕ → ℕ → Inode → Option ℕ
remember (some e) i ip = some e
remember none i ip = if ip.ref == 0 then some i else none

unfoldable pub probe : ℕ → ℕ → List Inode → ℕ → Option ℕ → Probe
probe dev inum [] i empty = miss empty
probe dev inum (ip ∷ ips) i empty =
    let later = probe dev inum ips (suc i) (remember empty i ip) in
    if is_cached dev inum ip then hit i else later

-- `none` is the panic "iget: no inodes".
unfoldable pub take_entry : ℕ → ℕ → Icache → Probe → Option (ℕ × Icache)
take_entry dev inum c (hit i) =
    some (i, put_entry i (record (entry c i) { ref = (entry c i).ref + 1 }) c)
take_entry dev inum c (miss none) = none
take_entry dev inum c (miss (some e)) =
    some (e, put_entry e (record (entry c e) { dev = dev; inum = inum; ref = 1; valid = false }) c)

unfoldable pub iget : ℕ → ℕ → Icache → Option (ℕ × Icache)
unfolding probe take_entry
iget dev inum c = take_entry dev inum c (probe dev inum c.inode 0 none)

unfoldable pub idup : ℕ → Icache → Icache
idup i c = put_entry i (record (entry c i) { ref = (entry c i).ref + 1 }) c

-- `ip->type = 0; iupdate(ip); ip->flags = 0`
unfoldable pub retire : ℕ → Icache → Inode × Fs → Icache
unfolding iupdate
retire i c (ip, s) =
    let ip' = record ip { type = 0 } in
    record c { inode = set c.inode i (record ip' { valid = false }); fs = iupdate ip' s }

-- The inode has no links and no other references.
unfoldable pub free_inode : ℕ → Icache → Option Icache
unfolding retire
free_inode i c = do r ← itrunc (entry c i) c.fs; some (retire i c r)

abbrev pub drop_ref : ℕ → Icache → Icache
drop_ref i c = put_entry i (record (entry c i) { ref = (entry c i).ref - 1 }) c

-- The caller holds a reference, so `ref` is not 0. `none` is a panic of itrunc.
unfoldable pub iput : ℕ → Icache → Option Icache
unfolding free_inode
iput i c =
    let ip = entry c i in
    let freed : Option Icache = elim (free_inode i c) [
      | none ↦ none
      | some c' ↦ some (drop_ref i c')
    ] in
    if ip.ref == 1 && (ip.valid && ip.nlink == 0) then freed else some (drop_ref i c)

-- `memset(dip, 0, sizeof(*dip)); dip->type = type`
unfoldable pub claim_dinode : ℕ → ℕ → Fs → Fs
claim_dinode inum type s =
    let b = inode_block s inum in
    note_write b (record s {
      block = λ x j.
          if (x == b) && (j / 64 == inum % inodes_per_block)
          then (if ltb (j % 64) 2 then byte_of type (j % 64) else 0)
          else s.block x j;
    })

-- The loop of ialloc from `inum` on, `n` turns. `none` is a panic.
unfoldable pub ialloc_loop : ℕ → ℕ → ℕ → ℕ → Icache → Option (ℕ × Icache)
unfolding iget claim_dinode
ialloc_loop zero inum dev type c = none
ialloc_loop (suc n) inum dev type c =
    let later = ialloc_loop n (suc inum) dev type c in
    if word c.fs (inode_block c.fs inum) (16 * (inum % inodes_per_block)) % 65536 == 0
    then iget dev inum (record c { fs = claim_dinode inum type c.fs })
    else later

unfoldable pub ialloc : ℕ → ℕ → Icache → Option (ℕ × Icache)
unfolding ialloc_loop
ialloc dev type c = ialloc_loop (c.fs.sb.ninodes - 1) 1 dev type c
