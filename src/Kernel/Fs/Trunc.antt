-- ===== src/Kernel/Fs/Trunc.antt =====
-- itrunc of xv6-public/fs.c. `none` is the panic of bfree, "freeing free block".
pub mod Freeing
pub mod Loops
pub mod Words
pub mod Parts
pub mod Done
use c_s_e_hanyang.Base.{
  ℕ, zero, suc, ◌+◌, ◌==◌, if◌then◌else◌, get_or, set, Option, none, some, ◌>>=◌,
}
use c_s_e_hanyang.Kernel.Fs.{Fs, bfree}
use c_s_e_hanyang.Kernel.Fs.Bmap.{Inode, word, ndirect, nindirect}
use c_s_e_hanyang.Kernel.Fs.Inodes.{iupdate}

-- `if(x) bfree(ip->dev, x)`
unfoldable pub free_addr : ℕ → Fs → Option Fs
unfolding bfree
free_addr x s = if x == 0 then some s else bfree x s

abbrev pub clear : ℕ → Inode → Inode
clear k ip = record ip { addrs = set ip.addrs k 0 }

-- The loops: `n` turns, from index `k` on.
unfoldable pub free_direct : ℕ → ℕ → Inode → Fs → Option (Inode × Fs)
unfolding bfree
free_direct zero k ip s = some (ip, s)
free_direct (suc n) k ip s =
    let later = free_direct n (suc k) ip s in
    let freed : Option (Inode × Fs) = elim (bfree (get_or ip.addrs k 0) s) [
      | none ↦ none
      | some s' ↦ free_direct n (suc k) (clear k ip) s'
    ] in
    if get_or ip.addrs k 0 == 0 then later else freed

unfoldable pub free_words : ℕ → ℕ → ℕ → Fs → Option Fs
unfolding free_addr word
free_words zero j b s = some s
free_words (suc n) j b s = elim (free_addr (word s b j) s) [
  | none ↦ none
  | some s' ↦ free_words n (suc j) b s'
]

unfoldable pub free_indirect : Inode → Fs → Option (Inode × Fs)
unfolding bfree free_words
free_indirect ip s =
    let a = get_or ip.addrs ndirect 0 in
    let freed : Option (Inode × Fs) = elim (free_words nindirect 0 a s) [
      | none ↦ none
      | some s' ↦ elim (bfree a s') [ none ↦ none | some s'' ↦ some (clear ndirect ip, s'') ]
    ] in
    if a == 0 then some (ip, s) else freed

unfoldable pub free_tables : ℕ → ℕ → ℕ → Fs → Option Fs
unfolding bfree free_words word
free_tables zero j b s = some s
free_tables (suc n) j b s =
    let later = free_tables n (suc j) b s in
    let freed : Option Fs = elim (free_words nindirect 0 (word s b j) s) [
      | none ↦ none
      | some s' ↦ elim (bfree (word s' b j) s') [
        | none ↦ none
        | some s'' ↦ free_tables n (suc j) b s''
      ]
    ] in
    if word s b j == 0 then later else freed

-- The number goes; the doubly indirect block itself is not freed.
unfoldable pub drop_double : Inode → Option Fs → Option (Inode × Fs)
drop_double ip none = none
drop_double ip (some s) = some (clear (ndirect + 1) ip, s)

unfoldable pub free_double : Inode → Fs → Option (Inode × Fs)
unfolding drop_double
free_double ip s =
    let a = get_or ip.addrs (ndirect + 1) 0 in
    let freed = drop_double ip (free_tables nindirect 0 a s) in
    if a == 0 then some (ip, s) else freed

unfoldable pub finish : Inode × Fs → Inode × Fs
unfolding iupdate
finish (ip, s) = (record ip { size = 0 }, iupdate (record ip { size = 0 }) s)

unfoldable pub itrunc : Inode → Fs → Option (Inode × Fs)
unfolding finish
itrunc ip s = do
  (ip₁, s₁) ← free_direct ndirect 0 ip s
  (ip₂, s₂) ← free_indirect ip₁ s₁
  r ← free_double ip₂ s₂
  some (finish r)
