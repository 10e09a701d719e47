-- ===== src/Kernel/Fs/Content/Returns.antt =====
-- writei of xv6-public/fs.c does not panic while there is room on the disk and in the log.
use c_s_e_hanyang.Base.{
  ◌<◌, ◌&&◌, if◌then◌else◌, List, [], ◌∷◌, ◌++◌, length, ℕ, zero, suc, ◌+◌, ◌-◌, ◌*◌, ◌/◌, ◌%◌, ◌≤◌,
  ◌≡◌, ◌≢◌, refl, false, ◌||◌, ltb, ◌==◌, min, u32_mod, arith, Bool-cases, Option, some, inl, inr,
}
use c_s_e_hanyang.Base.Int.{ℤ, pos}
use c_s_e_hanyang.Kernel.Log.{log_size}
use c_s_e_hanyang.Kernel.Log.Admission.{Log}
use c_s_e_hanyang.Kernel.Log.Admission.Took.{take_writes, take_writes-Took}
use c_s_e_hanyang.Kernel.Fs.Logged.{Noted, Noted-trans, Noted-le, bmap-Noted}
use c_s_e_hanyang.Kernel.Fs.Inodes.{iupdate}
use c_s_e_hanyang.Kernel.Fs.{Fs, note_write, block_size, inode_block}
use c_s_e_hanyang.Kernel.Fs.Blocks.Room.{free_blocks}
use c_s_e_hanyang.Kernel.Fs.Bmap.{Inode, bmap}
use c_s_e_hanyang.Kernel.Fs.Bmap.Places.{IsMapped}
use c_s_e_hanyang.Kernel.Fs.Bmap.Lookup.{bmap-Bmapped}
use c_s_e_hanyang.Kernel.Fs.Bmap.Returns.{bmap-returns}
use c_s_e_hanyang.Kernel.Fs.Content.{
  maxfile, t_dev, set_bytes, write_loop, writei, grow, WriteDevice,
}
use c_s_e_hanyang.Kernel.Fs.Content.Turn.{written, written-free}

-- The part of the block from `off` on that a turn moves.
abbrev part : ℕ → ℕ → ℕ
part off left = min left (block_size - off % block_size)

write_loop-step :
    (fuel : ℕ) (ip : Inode) (src : ℕ → ℕ) (off left : ℕ) (s : Fs) (x : ℕ) (ip' : Inode) (s' : Fs)
    (r : ℕ × Inode × Fs)
    → (left == 0) ≡ false
    → off + left ≤ maxfile * block_size
    → bmap ip (off / block_size) s ≡ some (x, ip', s')
    → write_loop fuel ip'
        (λ i. src (part off left + i))
        (off + part off left)
        (left - part off left)
        (note_write x (set_bytes x (off % block_size) (part off left) src s'))
      ≡ some r
    → write_loop (suc fuel) ip src off left s ≡ some r
unfolding write_loop
write_loop-step fuel ip src off left s x ip' s' r e fits o rest =
    let q : (off + part off left) % u32_mod ≡ off + part off left = omega arith in rw (e, o, q) rest

-- The blocks that the bytes from `off` on touch.
unfoldable pub spans : ℕ → ℕ → ℕ
spans off left = if left == 0 then 0 else (off % block_size + left + (block_size - 1)) / block_size

spans-part :
    (off left : ℕ)
    → 1 ≤ left
    → spans (off + part off left) (left - part off left) + 1 ≤ spans off left
unfolding spans
spans-part off left more = ground arith

turn-Noted :
    (x off k : ℕ) (src : ℕ → ℕ) (s s' t : Fs) (n : ℕ)
    → Noted 8 s s'
    → Noted n (note_write x (set_bytes x off k src s')) t
    → Noted (9 + n) s t
unfolding set_bytes
turn-Noted x off k src s s' t n mapped rest =
    let s₁ = note_write x (set_bytes x off k src s') in
    Noted-trans 9 n s s₁ t (Noted-trans 8 1 s s' s₁ mapped (x ∷ [], refl, omega arith)) rest

-- `left` turns are enough, and a turn notes nine calls of log_write at most.
write_loop-returns :
    (fuel : ℕ) (ip : Inode) (src : ℕ → ℕ) (off left : ℕ) (s : Fs)
    → IsMapped ip s
    → left ≤ fuel
    → off + left ≤ maxfile * block_size
    → 3 * spans off left ≤ free_blocks s
    → (r : ℕ × Inode × Fs) × (write_loop fuel ip src off left s ≡ some r)
      × Noted (9 * spans off left) s (r.2)
write_loop-returns zero ip src off left s m enough fits room =
    let z : left ≡ 0 = omega arith in
    ((off, ip, s), unfold write_loop in (rw z refl), ([], refl, omega arith))
write_loop-returns (suc fuel) ip src off left s m enough fits room = elim (Bool-cases (left == 0)) [
  | inl e ↦ ((off, ip, s), unfold write_loop in (rw e refl), ([], refl, omega arith))
  | inr e ↦
      let k = part off left in
      let more : 1 ≤ left = ground arith in
      let fewer = spans-part off left more in
      let (x, ip', s', o, spent) =
        bmap-returns ip s (off / block_size) m (omega arith) (omega (arith, fewer)) in
      let b = bmap-Bmapped ip s (off / block_size) x ip' s' m o in
      let w = written ip s off k src x ip' s' b (omega arith) (omega arith) in
      let same = written-free ip s off k src x ip' s' b (omega arith) (omega arith) in
      let rest =
        write_loop-returns fuel ip' (λ i. src (k + i)) (off + k) (left - k) _ w.mapped (omega arith)
          (omega arith) (omega (arith, same, fewer)) in
      (
        rest.0,
        write_loop-step fuel ip src off left s x ip' s' (rest.0) e fits o (rest.1),
        Noted-le (9 + 9 * spans (off + k) (left - k)) (9 * spans off left) s (rest.0.2)
            (omega (arith, fewer))
            (turn-Noted x (off % block_size) k src s s' (rest.0.2) (9 * spans (off + k) (left - k))
              (bmap-Noted ip (off / block_size) s (x, ip', s') o) rest.2),
      )
]

grow-Noted : (n off : ℕ) (ip : Inode) (s : Fs) → Noted 1 s (grow n off ip s).1
unfolding grow iupdate
grow-Noted n off ip s = elim (Bool-cases (ltb 0 n && ltb ip.size off)) [
  | inl e ↦ rw e (inode_block s ip.inum ∷ [], refl, omega arith)
  | inr e ↦ rw e ([], refl, omega arith)
]

writei-step :
    (devsw : ℕ → Option WriteDevice) (ip : Inode) (src : ℕ → ℕ) (off n : ℕ) (s : Fs)
    (w : ℕ × Inode × Fs) (m : ℕ)
    → ip.type ≢ t_dev
    → off ≤ ip.size
    → off + n ≤ maxfile * block_size
    → write_loop n ip src off n s ≡ some w
    → Noted m s (w.2)
    → (r : ℤ × Inode × Fs) × (writei devsw ip src off n s ≡ some r) × Noted (m + 1) s (r.2)
unfolding writei
writei-step devsw ip src off n s w m nd le fits o noted =
    let t0 : (ip.type == t_dev) ≡ false = ground arith in
    let wrap : (off + n) % u32_mod ≡ off + n = omega arith in
    let t1 : (ltb ip.size off || ltb (off + n) off) ≡ false = ground arith in
    let t2 : ltb (maxfile * block_size) (off + n) ≡ false = ground arith in
    let g = grow n (w.0) (w.1) (w.2) in
    (
      (pos n, g.0, g.1),
      rw (t0, wrap, t1, t2, o) refl,
      Noted-trans m 1 s (w.2) g.1 noted (grow-Noted n (w.0) (w.1) (w.2)),
    )

-- writei within the largest file, from an offset that is not past the end, for an operation inside a
-- transaction, returns if for each block that the bytes touch three blocks of the disk are free and nine
-- fit in the log, and one more in the log for the inode: neither bmap, nor balloc, nor log_write panics,
-- and `n` turns of the loop are enough.
pub writei-returns :
    (devsw : ℕ → Option WriteDevice) (ip : Inode) (src : ℕ → ℕ) (off n : ℕ) (s : Fs) (l : Log)
    → IsMapped ip s
    → ip.type ≢ t_dev
    → off ≤ ip.size
    → off + n ≤ maxfile * block_size
    → 3 * spans off n ≤ free_blocks s
    → 1 ≤ l.outstanding
    → length l.lh + 9 * spans off n + 1 ≤ log_size
    → length l.lh + 9 * spans off n + 1 < l.size
    → (r : ℤ × Inode × Fs) × (added : List ℕ) × (l' : Log) × (writei devsw ip src off n s ≡ some r)
      × (r.2.logged ≡ added ++ s.logged)
      × (take_writes added l ≡ some l')
writei-returns devsw ip src off n s l m nd le fits room busy log_fits log_room =
    let (w, o, noted) = write_loop-returns n ip src off n s m (omega arith) fits room in
    let (r, done, (added, e, few)) =
      writei-step devsw ip src off n s w (9 * spans off n) nd le fits o noted in
    let (l', t, took) = take_writes-Took added l busy (omega arith) (omega arith) in
    (r, added, l', done, e, t)
