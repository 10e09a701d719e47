-- ===== src/Kernel/Fs/Content.antt =====
-- readi and writei of xv6-public/fs.c. The device functions of `devsw` are parameters. The loops run on
-- fuel: each turn moves a byte at least, so `n` turns are enough, as the theorems about them show.
pub mod View
pub mod Elsewhere
pub mod Turn
pub mod Write
pub mod Size
pub mod Tests
pub mod Read
pub mod Returns
use c_s_e_hanyang.Base.{
  ℕ, zero, suc, ◌+◌, ◌-◌, ◌*◌, ◌/◌, ◌%◌, ◌≡◌, min, Bool, true, false, not, ◌&&◌, ◌||◌, List, [],
  ◌∷◌, ◌++◌, ltb, leb, ◌==◌, if◌then◌else◌, Option, none, some, u32_mod,
}
use c_s_e_hanyang.Base.Int.{ℤ, pos, negsuc}
use c_s_e_hanyang.Kernel.Fs.{Fs, byte_at, note_write, block_size}
use c_s_e_hanyang.Kernel.Fs.Bmap.{Inode, bmap, ndirect, nindirect}
use c_s_e_hanyang.Kernel.Fs.Inodes.{iupdate}

-- MAXFILE
abbrev pub maxfile : ℕ
maxfile = ndirect + nindirect + nindirect * nindirect

-- T_DEV and NDEV
abbrev pub t_dev : ℕ
t_dev = 3

abbrev pub ndev : ℕ
ndev = 10

-- `n` values of `f` from `i` on.
unfoldable pub run_of : (ℕ → ℕ) → ℕ → ℕ → List ℕ
run_of f i zero = []
run_of f i (suc n) = f i ∷ run_of f (suc i) n

-- `memmove(bp->data + o, src, m)`
unfoldable pub set_bytes : ℕ → ℕ → ℕ → (ℕ → ℕ) → Fs → Fs
set_bytes b o m src s = record s {
  block = λ c j. if (c == b) && (leb o j && ltb j (o + m)) then src (j - o) else s.block c j;
}

-- `left` is `n - tot`.
unfoldable pub read_loop : ℕ → Inode → ℕ → ℕ → Fs → Option (List ℕ × Inode × Fs)
unfolding bmap run_of
read_loop zero ip off left s = if left == 0 then some ([], ip, s) else none
read_loop (suc fuel) ip off left s =
    let m = min left (block_size - off % block_size) in
    let next : Option (List ℕ × Inode × Fs) = elim (bmap ip (off / block_size) s) [
      | none ↦ none
      | some (b, ip', s') ↦ elim (read_loop fuel ip' ((off + m) % u32_mod) (left - m) s') [
        | none ↦ none
        | some (bytes, ip₂, s₂) ↦
            some (run_of (byte_at s' b) (off % block_size) m ++ bytes, ip₂, s₂)
      ]
    ] in
    if left == 0 then some ([], ip, s) else next

-- The result is the file offset behind the last byte.
unfoldable pub write_loop : ℕ → Inode → (ℕ → ℕ) → ℕ → ℕ → Fs → Option (ℕ × Inode × Fs)
unfolding bmap set_bytes
write_loop zero ip src off left s = if left == 0 then some (off, ip, s) else none
write_loop (suc fuel) ip src off left s =
    let m = min left (block_size - off % block_size) in
    let next : Option (ℕ × Inode × Fs) = elim (bmap ip (off / block_size) s) [
      | none ↦ none
      | some (b, ip', s') ↦
          write_loop fuel ip' (λ i. src (m + i)) ((off + m) % u32_mod) (left - m)
            (note_write b (set_bytes b (off % block_size) m src s'))
    ] in
    if left == 0 then some (off, ip, s) else next

-- A device that has the function is `some`. `none` as a result is a panic.
abbrev pub ReadDevice : Type 0
ReadDevice = Inode → ℕ → Fs → Option (ℤ × List ℕ × Inode × Fs)

abbrev pub WriteDevice : Type 0
WriteDevice = Inode → (ℕ → ℕ) → ℕ → Fs → Option (ℤ × Inode × Fs)

-- A negative `major` is over NDEV as an unsigned short.
unfoldable pub readi :
    (ℕ → Option ReadDevice) → Inode → ℕ → ℕ → Fs → Option (ℤ × List ℕ × Inode × Fs)
unfolding read_loop
readi devsw ip off n s =
    let device : Option (ℤ × List ℕ × Inode × Fs) = elim (devsw ip.major) [
      | none ↦ some (negsuc 0, [], ip, s)
      | some read ↦ read ip n s
    ] in
    let n' = if ltb ip.size ((off + n) % u32_mod) then ip.size - off else n in
    let file : Option (ℤ × List ℕ × Inode × Fs) = elim (read_loop n' ip off n' s) [
      | none ↦ none
      | some (bytes, ip', s') ↦ some (pos n', bytes, ip', s')
    ] in
    if ip.type == t_dev
    then (if leb ndev ip.major then some (negsuc 0, [], ip, s) else device)
    else (if ltb ip.size off || ltb ((off + n) % u32_mod) off
        then some (negsuc 0, [], ip, s)
        else file)

-- The size grows to the offset behind the last byte.
unfoldable pub grow : ℕ → ℕ → Inode → Fs → Inode × Fs
unfolding iupdate
grow n off ip s =
    if ltb 0 n && ltb ip.size off
    then (record ip { size = off }, iupdate (record ip { size = off }) s)
    else (ip, s)

unfoldable pub writei :
    (ℕ → Option WriteDevice) → Inode → (ℕ → ℕ) → ℕ → ℕ → Fs → Option (ℤ × Inode × Fs)
unfolding write_loop grow
writei devsw ip src off n s =
    let device : Option (ℤ × Inode × Fs) = elim (devsw ip.major) [
      | none ↦ some (negsuc 0, ip, s)
      | some write ↦ write ip src n s
    ] in
    let file : Option (ℤ × Inode × Fs) = elim (write_loop n ip src off n s) [
      | none ↦ none
      | some (off', ip', s') ↦ (let g = grow n off' ip' s' in some (pos n, g.0, g.1))
    ] in
    if ip.type == t_dev
    then (if leb ndev ip.major then some (negsuc 0, ip, s) else device)
    else (if ltb ip.size off || ltb ((off + n) % u32_mod) off
        then some (negsuc 0, ip, s)
        else (if ltb (maxfile * block_size) ((off + n) % u32_mod)
            then some (negsuc 0, ip, s)
            else file))
