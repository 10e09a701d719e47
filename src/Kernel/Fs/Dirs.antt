-- ===== src/Kernel/Fs/Dirs.antt =====
-- dirlookup of xv6-public/fs.c. A directory is a file of entries of 16 bytes: an inode number of two
-- bytes, and a name of DIRSIZ bytes.
pub mod Same
pub mod Scan
mod Tests
use c_s_e_hanyang.Base.{
  ℕ, zero, suc, ◌+◌, ◌*◌, ◌%◌, ◌≡◌, Bool, true, false, not, ◌&&◌, List, [], ◌∷◌, ltb, ◌==◌,
  if◌then◌else◌, get_or, set, u32_mod, Option, none, some,
}
use c_s_e_hanyang.Base.Int.{ℤ, pos, eqb_ℤ}
use c_s_e_hanyang.Kernel.Fs.{Fs}
use c_s_e_hanyang.Kernel.Fs.Bmap.{Inode}
use c_s_e_hanyang.Kernel.Fs.Content.{ReadDevice, readi}
use c_s_e_hanyang.Kernel.Fs.Icache.{Icache, entry, iget}
use c_s_e_hanyang.Kernel.Fs.Names.{dirsiz}

-- T_DIR and sizeof(struct dirent)
abbrev pub t_dir : ℕ
t_dir = 1

abbrev pub dirent_size : ℕ
dirent_size = 16

-- `strncmp(p, q, n) == 0`
unfoldable pub same_name : ℕ → (ℕ → ℕ) → (ℕ → ℕ) → Bool
same_name zero p q = true
same_name (suc n) p q =
    let later = same_name n (λ i. p (suc i)) (λ i. q (suc i)) in
    if not (p 0 == 0) && p 0 == q 0 then later else p 0 == q 0

-- `de.inum`, and `namecmp(name, de.name) == 0`, of the 16 bytes read
abbrev pub de_inum : List ℕ → ℕ
de_inum de = get_or de 0 0 + 256 * get_or de 1 0

unfoldable pub de_named : (ℕ → ℕ) → List ℕ → Bool
unfolding same_name
de_named name de = same_name dirsiz name (λ i. get_or de (2 + i) 0)

-- The loop from `off` on: the inode number and the offset of the entry, if there is one. `none` is the
-- panic "dirlink read".
unfoldable pub dir_scan :
    (ℕ → Option ReadDevice) → ℕ → Inode → (ℕ → ℕ) → ℕ → Fs → Option (Option (ℕ × ℕ) × Inode × Fs)
unfolding de_named
dir_scan devsw zero dp name off s = if ltb off dp.size then none else some (none, dp, s)
dir_scan devsw (suc fuel) dp name off s =
    let next : Option (Option (ℕ × ℕ) × Inode × Fs) = elim (readi devsw dp off dirent_size s) [
      | none ↦ none
      | some (r, de, dp', s') ↦
          let later = dir_scan devsw fuel dp' name ((off + dirent_size) % u32_mod) s' in
          if eqb_ℤ r (pos dirent_size)
          then (if not (de_inum de == 0) && de_named name de
              then some (some (de_inum de, off), dp', s')
              else later)
          else none
    ] in
    if ltb off dp.size then next else some (none, dp, s)

-- The entry in the cache, if the name is found, and the offset that goes to `*poff`. One turn for each
-- byte of the directory is more than enough.
unfoldable pub dirlookup :
    (ℕ → Option ReadDevice) → ℕ → (ℕ → ℕ) → Icache → Option (Option (ℕ × ℕ) × Icache)
dirlookup devsw d name c =
    let dp = entry c d in
    let found : Option (Option (ℕ × ℕ) × Icache) = elim (dir_scan devsw dp.size dp name 0 c.fs) [
      | none ↦ none
      | some (none, dp', s') ↦ some (none, record c { inode = set c.inode d dp'; fs = s' })
      | some (some (inum, off), dp', s') ↦
          elim (iget dp.dev inum (record c { inode = set c.inode d dp'; fs = s' })) [
            | none ↦ none
            | some (i, c') ↦ some (some (i, off), c')
          ]
    ] in
    if dp.type == t_dir then found else none
