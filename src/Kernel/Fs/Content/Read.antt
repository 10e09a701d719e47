-- ===== src/Kernel/Fs/Content/Read.antt =====
-- readi of xv6-public/fs.c, on blocks that the file has.
use c_s_e_hanyang.Base.{
  ℕ, zero, suc, ◌+◌, ◌-◌, ◌*◌, ◌/◌, ◌%◌, ◌≤◌, ◌<◌, ◌≡◌, ◌≢◌, refl, ap, sym, ◌∙◌, false, ◌||◌, ◌++◌,
  ltb, ◌==◌, if◌then◌else◌, min, u32_mod, arith, Bool-cases, Option, some, inl, inr,
}
use c_s_e_hanyang.Base.Int.{ℤ, pos}
use c_s_e_hanyang.Kernel.Fs.{Fs, byte_at, block_size}
use c_s_e_hanyang.Kernel.Fs.Bmap.{Inode}
use c_s_e_hanyang.Kernel.Fs.Bmap.Places.{addr, place, IsMapped}
use c_s_e_hanyang.Kernel.Fs.Bmap.Present.{bmap-present}
use c_s_e_hanyang.Kernel.Fs.Content.{
  maxfile, t_dev, run_of, read_loop, readi, writei, ReadDevice, WriteDevice,
}
use c_s_e_hanyang.Kernel.Fs.Content.View.{content, run_of-ext, run_of-append}
use c_s_e_hanyang.Kernel.Fs.Content.Size.{HasInode, writei-Updated}

slice-content :
    (ip : Inode) (s : Fs) (off m : ℕ)
    → off % block_size + m ≤ block_size
    → addr ip s (place (off / block_size)) ≢ 0
    → run_of (byte_at s (addr ip s (place (off / block_size)))) (off % block_size) m
      ≡ run_of (content ip s) off m
unfolding content
slice-content ip s off m fits ne = run_of-ext _ _ (off % block_size) off m (λ k x y lt p q.
    let e : y / block_size ≡ off / block_size = omega arith in
    let f : y % block_size ≡ x = omega arith in rw (e, f) (ground arith))

-- `n` turns are enough.
read_loop_lem :
    (fuel : ℕ) (ip : Inode) (off left : ℕ) (s : Fs)
    → left ≤ fuel
    → off + left ≤ maxfile * block_size
    → ((k : ℕ) → off ≤ k → k < off + left → addr ip s (place (k / block_size)) ≢ 0)
    → read_loop fuel ip off left s ≡ some (run_of (content ip s) off left, ip, s)
unfolding read_loop run_of
read_loop_lem zero ip off left s enough fits there = let z : left ≡ 0 = omega arith in rw z refl
read_loop_lem (suc fuel) ip off left s enough fits there = elim (Bool-cases (left == 0)) [
  | inl e ↦ let z : left ≡ 0 = ground arith in rw z refl
  | inr e ↦
      let m = min left (block_size - off % block_size) in
      let here = there off (omega arith) (ground arith) in
      let b = bmap-present ip (off / block_size) s (ground arith) here in
      let q : (off + m) % u32_mod ≡ off + m = omega arith in
      let rest =
        read_loop_lem fuel ip (off + m) (left - m) s (ground arith) (omega arith)
          (λ k le lt. there k (omega arith) (omega arith)) in
      let all : m + (left - m) ≡ left = omega arith in
      let joined = run_of-append (content ip s) off (off + m) m (left - m) refl in
      let slice = slice-content ip s off m (omega arith) here in
      rw (e, b, q, rest)
        (ap (λ bs. some (bs, ip, s))
          (ap (λ bs. bs ++ run_of (content ip s) (off + m) (left - m)) slice
            ∙ sym joined
            ∙ ap (run_of (content ip s) off) all))
]

-- The bytes that a read of `n` at `off` can give.
abbrev pub available : ℕ → ℕ → ℕ → ℕ
available size off n = if ltb size (off + n) then size - off else n

-- A read that begins inside the file and meets no missing block returns the bytes of the file from
-- `off` on, as many as are asked for and are there, and changes nothing.
pub readi-content :
    (devsw : ℕ → Option ReadDevice) (ip : Inode) (off n : ℕ) (s : Fs)
    → ip.type ≢ t_dev
    → off ≤ ip.size
    → ip.size ≤ maxfile * block_size
    → off + n < u32_mod
    → ((k : ℕ)
        → off ≤ k
        → k < off + available ip.size off n
        → addr ip s (place (k / block_size)) ≢ 0)
    → readi devsw ip off n s
      ≡ some (
        pos (available ip.size off n),
        run_of (content ip s) off (available ip.size off n),
        ip,
        s,
      )
unfolding readi
readi-content devsw ip off n s nd le max fits there =
    let t0 : (ip.type == t_dev) ≡ false = ground arith in
    let wrap : (off + n) % u32_mod ≡ off + n = omega arith in
    let t1 : (ltb ip.size off || ltb (off + n) off) ≡ false = ground arith in
    let inside : off + available ip.size off n ≤ maxfile * block_size = ground arith in
    let l =
      read_loop_lem (available ip.size off n) ip off (available ip.size off n) s (omega arith)
        inside there in
    rw (t0, wrap, t1, l)
      (ap
        (λ w. some (
          pos (if ltb ip.size w then ip.size - off else n),
          run_of (content ip s) off (available ip.size off n),
          ip,
          s,
        ))
        wrap)

-- What writei has written, readi reads: after a write that has returned, a read of as many bytes at the
-- same offset gives the bytes written, and changes nothing.
pub readi-writei :
    (rd : ℕ → Option ReadDevice) (wd : ℕ → Option WriteDevice) (ip : Inode) (src : ℕ → ℕ)
    (off n : ℕ) (s : Fs) (r : ℤ × Inode × Fs)
    → IsMapped ip s
    → HasInode ip s
    → ip.type ≢ t_dev
    → off ≤ ip.size
    → ip.size ≤ maxfile * block_size
    → off + n ≤ maxfile * block_size
    → writei wd ip src off n s ≡ some r
    → readi rd (r.1) off n (r.2) ≡ some (pos n, run_of (λ k. src k % 256) 0 n, r.1, r.2)
readi-writei rd wd ip src off n s r m d nd le max fits h =
    let u = (writei-Updated wd ip src off n s r m d nd le fits h).1 in
    let same_type : (r.1).type ≡ ip.type = ap (λ i. i.type) u.same_ip in
    let all : available ((r.1).size) off n ≡ n = ground (arith, u.new_size) in
    let max' : (r.1).size ≤ maxfile * block_size = ground (arith, u.new_size) in
    let bytes =
      run_of-ext (content (r.1) (r.2)) (λ k. src k % 256) off 0 n
        (λ k x y lt p q.
          let z : x - off ≡ y = omega arith in u.bytes x (omega arith) ∙ rw z (ground arith)) in
    readi-content rd (r.1) off n (r.2) (λ z. nd (sym same_type ∙ z)) (ground (arith, u.new_size))
      max' (omega arith) (λ k le lt. u.there k le (rw all at lt))
    ∙ ap (λ l. some (pos l, run_of (content (r.1) (r.2)) off l, r.1, r.2)) all
    ∙ ap (λ bs. some (pos n, bs, r.1, r.2)) bytes
