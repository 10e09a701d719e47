-- ===== src/Kernel/Fs/Content/Write.antt =====
-- writei of xv6-public/fs.c: the bytes of the file after it.
use mathlib.Core.Path.{subst}
use c_s_e_hanyang.Base.{
  ℕ, zero, suc, ◌+◌, ◌-◌, ◌*◌, ◌/◌, ◌%◌, ◌≤◌, ◌<◌, ◌≡◌, ◌≢◌, refl, sym, ◌∙◌, false, ◌&&◌, ltb, leb,
  ◌==◌, if◌then◌else◌, min, u32_mod, arith, Bool-cases, Option-cases, some_inj, inl, inr, some,
}
use c_s_e_hanyang.Kernel.Fs.{Fs, note_write, block_size}
use c_s_e_hanyang.Kernel.Fs.Bmap.{Inode, bmap}
use c_s_e_hanyang.Kernel.Fs.Bmap.Places.{addr, place, IsMapped}
use c_s_e_hanyang.Kernel.Fs.Bmap.Lookup.{bmap-Bmapped}
use c_s_e_hanyang.Kernel.Fs.Content.{maxfile, set_bytes, write_loop}
use c_s_e_hanyang.Kernel.Fs.Content.View.{content}
use c_s_e_hanyang.Kernel.Fs.Content.Turn.{Written, written}

module _ (ip : Inode) (s : Fs) (off m n : ℕ) (src : ℕ → ℕ) (ip₁ : Inode) (s₁ : Fs) (ip₂ : Inode)
    (s₂ : Fs) (first : Written ip s off m src ip₁ s₁)
    (second : Written ip₁ s₁ (off + m) n (λ i. src (m + i)) ip₂ s₂)
    (inside : off + m ≤ maxfile * block_size) where
  bytes-both :
      (k : ℕ)
      → k < maxfile * block_size
      → content ip₂ s₂ k
        ≡ (if leb off k && ltb k (off + (m + n)) then src (k - off) % 256 else content ip s k)
  bytes-both k lt = second.bytes k lt ∙ elim (Bool-cases (leb (off + m) k)) [
    | inl e ↦
        let q : m + (k - (off + m)) ≡ k - off = ground arith in
        rw q (ground (arith, first.bytes k lt))
    | inr e ↦ ground (arith, first.bytes k lt)
  ]

  there-both : (k : ℕ) → off ≤ k → k < off + (m + n) → addr ip₂ s₂ (place (k / block_size)) ≢ 0
  there-both k le lt = elim (Bool-cases (ltb k (off + m))) [
    | inl e ↦ second.kept (k / block_size) (ground arith) (first.there k le (ground arith))
    | inr e ↦ second.there k (ground arith) (omega arith)
  ]

  both : Written ip s off (m + n) src ip₂ s₂
  both = record {
    mapped = second.mapped;
    bytes = bytes-both;
    there = there-both;
    kept = λ k lt ne. second.kept k lt (first.kept k lt ne);
    same_ip = second.same_ip ∙ first.same_ip;
    same_sb = second.same_sb ∙ first.same_sb;
  }

nothing-Written :
    (ip : Inode) (s : Fs) (off : ℕ) (src : ℕ → ℕ) → IsMapped ip s → Written ip s off 0 src ip s
nothing-Written ip s off src m = record {
  mapped = m;
  bytes = λ k lt. ground arith;
  there = λ k le lt. absurd (omega arith);
  kept = λ k lt ne. ne;
  same_ip = refl;
  same_sb = refl;
}

-- The loop of writei has written `n` bytes.
abbrev pub Wrote : Inode → Fs → ℕ → ℕ → (ℕ → ℕ) → ℕ × Inode × Fs → Type 0
Wrote ip s off n src r = (r.0 ≡ off + n) × Written ip s off n src (r.1) (r.2)

stopped :
    (ip : Inode) (src : ℕ → ℕ) (off left : ℕ) (s : Fs) (r : ℕ × Inode × Fs)
    → IsMapped ip s
    → left ≡ 0
    → some (off, ip, s) ≡ some r
    → Wrote ip s off left src r
stopped ip src off left s r m z h =
    let r₀ : ℕ × Inode × Fs = (off, ip, s) in
    let q : some r₀ ≡ some r = h in
    subst (λ n. Wrote ip s off n src r) (sym z)
      (subst (Wrote ip s off 0 src) (some_inj q) (omega arith, nothing-Written ip s off src m))

-- The part of the block from `off` on that a turn moves.
abbrev part : ℕ → ℕ → ℕ
part off left = min left (block_size - off % block_size)

step-inv :
    (fuel : ℕ) (ip : Inode) (src : ℕ → ℕ) (off left : ℕ) (s : Fs) (r : ℕ × Inode × Fs)
    → (left == 0) ≡ false
    → write_loop (suc fuel) ip src off left s ≡ some r
    → (x : ℕ) × (ip' : Inode) × (s' : Fs) × (bmap ip (off / block_size) s ≡ some (x, ip', s'))
      × (write_loop fuel ip'
            (λ i. src (part off left + i))
            ((off + part off left) % u32_mod)
            (left - part off left)
            (note_write x (set_bytes x (off % block_size) (part off left) src s'))
          ≡ some r)
unfolding write_loop
step-inv fuel ip src off left s r ne h = elim (Option-cases (bmap ip (off / block_size) s)) [
  | inl o ↦ absurd (ground arith)
  | inr ((x, ip', s'), o) ↦ (x, ip', s', o, (rw (ne, o) at h))
]

-- If the loop returns, it has written all the bytes.
pub write_loop-Wrote :
    (fuel : ℕ) (ip : Inode) (src : ℕ → ℕ) (off left : ℕ) (s : Fs) (r : ℕ × Inode × Fs)
    → IsMapped ip s
    → off + left ≤ maxfile * block_size
    → write_loop fuel ip src off left s ≡ some r
    → Wrote ip s off left src r
write_loop-Wrote zero ip src off left s r m le h = elim (Bool-cases (left == 0)) [
  | inl e ↦ stopped ip src off left s r m (ground arith) (unfold write_loop in (rw e at h))
  | inr e ↦ absurd (unfold write_loop in ground arith)
]
write_loop-Wrote (suc fuel) ip src off left s r m le h = elim (Bool-cases (left == 0)) [
  | inl e ↦ stopped ip src off left s r m (ground arith) (unfold write_loop in (rw e at h))
  | inr e ↦
      let (x, ip', s', o, g) = step-inv fuel ip src off left s r e h in
      let k = part off left in
      let b = bmap-Bmapped ip s (off / block_size) x ip' s' m o in
      let first = written ip s off k src x ip' s' b (omega arith) (ground arith) in
      let q : (off + k) % u32_mod ≡ off + k = omega arith in
      let all : k + (left - k) ≡ left = omega arith in
      let rest =
        write_loop-Wrote fuel ip' (λ i. src (k + i)) (off + k) (left - k) _ r first.mapped
          (omega arith) (rw q at g) in
      (
        omega (arith, rest.0, all),
        subst (λ n. Written ip s off n src (r.1) (r.2)) all
            (both ip s off k (left - k) src ip' _ (r.1) (r.2) first (rest.1) (omega arith)),
      )
]
