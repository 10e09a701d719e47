-- ===== src/Kernel/Fs/Bmap/Lookup.antt =====
-- bmap of xv6-public/fs.c finds or makes the block of a file, and disturbs no other.
use c_s_e_hanyang.Base.{
  ℕ, ◌+◌, ◌-◌, ◌*◌, ◌/◌, ◌%◌, ◌≤◌, ◌<◌, ◌≡◌, ◌≢◌, refl, ap, sym, ◌∙◌, false, ltb, arith, Bool-cases,
  Option-cases, some_inj, Option, none, some, inl, inr,
}
use c_s_e_hanyang.Kernel.Fs.{Fs, byte_at, block_size}
use c_s_e_hanyang.Kernel.Fs.Bmap.{Inode, top_addr, word_addr, last_addr, bmap, ndirect, nindirect}
use c_s_e_hanyang.Kernel.Fs.Bmap.Places.{
  Place, top, slot, table, cell, IsPlace, IsData, same_place, addr, place, strip, IsMapped,
  HasParent, parent, index,
}
use c_s_e_hanyang.Kernel.Fs.Bmap.Grow.{same_place→eq}
use c_s_e_hanyang.Kernel.Fs.Bmap.Reach.{Reached, top_addr-Reached}
use c_s_e_hanyang.Kernel.Fs.Bmap.Inner.{word_addr-Reached}

-- The blocks of the file and their numbers are as they were.
record Extends (ip : Inode) (s : Fs) (ip' : Inode) (s' : Fs) : Type 0 where
  kept : (q : Place) → IsPlace q → addr ip s q ≢ 0 → addr ip' s' q ≡ addr ip s q
  same_data : (q : Place) → IsPlace q → IsData q → addr ip' s' q ≡ addr ip s q
  same_ip : strip ip' ≡ strip ip
  same_sb : s'.sb ≡ s.sb
  bytes :
      (q : Place)
      → IsPlace q
      → IsData q
      → addr ip s q ≢ 0
      → (j : ℕ) → s'.block (addr ip s q) j ≡ s.block (addr ip s q) j

-- What bmap leaves, for the file's block number at place `p`.
pub record Bmapped (ip : Inode) (s : Fs) (p : Place) (x : ℕ) (ip' : Inode) (s' : Fs) : Type 0 where
  pub mapped : IsMapped ip' s'
  pub nonzero : x ≢ 0
  pub here : addr ip' s' p ≡ x
  pub kept : (q : Place) → IsPlace q → addr ip s q ≢ 0 → addr ip' s' q ≡ addr ip s q
  pub others :
      (q : Place) → IsPlace q → IsData q → same_place q p ≡ false → addr ip' s' q ≡ addr ip s q
  pub bytes :
      (q : Place)
      → IsPlace q
      → IsData q
      → addr ip s q ≢ 0
      → (j : ℕ) → s'.block (addr ip s q) j ≡ s.block (addr ip s q) j
  pub zeroed : addr ip s p ≡ 0 → (j : ℕ) → j < block_size → byte_at s' x j ≡ 0
  pub same_ip : strip ip' ≡ strip ip
  pub same_sb : s'.sb ≡ s.sb

Extends-refl : (ip : Inode) (s : Fs) → Extends ip s ip s
Extends-refl ip s = record {
  same_ip = refl;
  same_sb = refl;
  kept = λ q i ne. refl;
  same_data = λ q i d. refl;
  bytes = λ q i d ne j. refl;
}

Reached-kept :
    (ip : Inode) (s : Fs) (p : Place) (x : ℕ) (ip' : Inode) (s' : Fs)
    → Reached ip s p x ip' s'
    → (q : Place) → IsPlace q
    → addr ip s q ≢ 0
    → addr ip' s' q ≡ addr ip s q
Reached-kept ip s p x ip' s' r q i ne = elim (Bool-cases (same_place q p)) [
  | inr e ↦ r.kept q i e
  | inl e ↦
      let z = same_place→eq q p e in
      let was : addr ip s p ≢ 0 = λ o. ne (ap (addr ip s) z ∙ o) in
      ap (addr ip' s') z ∙ r.here ∙ sym (r.stays was) ∙ ap (addr ip s) (sym z)
]

-- A step at a place that is not the file's own.
Extends-next :
    (ip : Inode) (s : Fs) (ip₁ : Inode) (s₁ : Fs) (p : Place) (x : ℕ) (ip₂ : Inode) (s₂ : Fs)
    → Extends ip s ip₁ s₁
    → Reached ip₁ s₁ p x ip₂ s₂
    → ((q : Place) → IsData q → same_place q p ≡ false)
    → Extends ip s ip₂ s₂
Extends-next ip s ip₁ s₁ p x ip₂ s₂ e r inner = record {
  same_ip = r.same_ip ∙ e.same_ip;
  same_sb = r.same_sb ∙ e.same_sb;
  kept = λ q i ne.
      let k = e.kept q i ne in Reached-kept ip₁ s₁ p x ip₂ s₂ r q i (λ z. ne (sym k ∙ z)) ∙ k;
  same_data = λ q i d. r.kept q i (inner q d) ∙ e.same_data q i d;
  bytes = λ q i d ne j.
      let k = e.kept q i ne in
      ap (λ c. s₂.block c j) (sym k)
      ∙ r.bytes q i d (λ z. ne (sym k ∙ z)) j
      ∙ ap (λ c. s₁.block c j) k
      ∙ e.bytes q i d ne j;
}

Extends-last :
    (ip : Inode) (s : Fs) (ip₁ : Inode) (s₁ : Fs) (p : Place) (x : ℕ) (ip₂ : Inode) (s₂ : Fs)
    → Extends ip s ip₁ s₁
    → Reached ip₁ s₁ p x ip₂ s₂
    → IsPlace p
    → IsData p
    → Bmapped ip s p x ip₂ s₂
Extends-last ip s ip₁ s₁ p x ip₂ s₂ e r ip_p d_p = record {
  same_ip = r.same_ip ∙ e.same_ip;
  same_sb = r.same_sb ∙ e.same_sb;
  mapped = r.mapped;
  nonzero = r.nonzero;
  here = r.here;
  kept = λ q i ne.
      let k = e.kept q i ne in Reached-kept ip₁ s₁ p x ip₂ s₂ r q i (λ z. ne (sym k ∙ z)) ∙ k;
  others = λ q i d ne. r.kept q i ne ∙ e.same_data q i d;
  bytes = λ q i d ne j.
      let k = e.kept q i ne in
      ap (λ c. s₂.block c j) (sym k)
      ∙ r.bytes q i d (λ z. ne (sym k ∙ z)) j
      ∙ ap (λ c. s₁.block c j) k
      ∙ e.bytes q i d ne j;
  zeroed = λ z. r.zeroed (e.same_data p ip_p d_p ∙ z);
}

last_addr-inv :
    (i : ℕ) (o : Option (ℕ × Inode × Fs)) (x : ℕ) (ip' : Inode) (s' : Fs)
    → last_addr i o ≡ some (x, ip', s')
    → (a : ℕ) × (t : Fs) × (o ≡ some (a, ip', t)) × (word_addr a i t ≡ some (x, s'))
unfolding last_addr
last_addr-inv i none x ip' s' h = ground arith
last_addr-inv i (some (a, ip₁, t)) x ip' s' h = elim (Option-cases (word_addr a i t)) [
  | inl o ↦ ground arith
  | inr ((y, u), o) ↦
      let r : ℕ × Inode × Fs = (y, ip₁, u) in
      let q : some r ≡ some (x, ip', s') = ground arith in
      let e = some_inj q in (a, t, ap (λ z. some (a, z.1, t)) e, o ∙ ap (λ z. some (z.0, z.2)) e)
]

-- A step below a place that has been reached.
pub below :
    (ip : Inode) (s : Fs) (p : Place) (a x : ℕ) (s' : Fs)
    → IsMapped ip s
    → addr ip s (parent p) ≡ a
    → a ≢ 0
    → IsPlace p
    → HasParent p
    → word_addr a (index p) s ≡ some (x, s')
    → Reached ip s p x ip s'
below ip s p a x s' m here ne i hp h =
    word_addr-Reached ip s p x s' m i hp (λ z. ne (sym here ∙ z))
      (ap (λ c. word_addr c (index p) s) here ∙ h)

top_inner : (k : ℕ) → ndirect ≤ k → (q : Place) → IsData q → same_place q (top k) ≡ false
top_inner k le (top l) d = ground arith
top_inner k le (slot l) d = refl
top_inner k le (table l) d = refl
top_inner k le (cell l m) d = refl

table_inner : (i : ℕ) (q : Place) → IsData q → same_place q (table i) ≡ false
table_inner i (top l) d = refl
table_inner i (slot l) d = refl
table_inner i (table l) d = absurd (omega arith)
table_inner i (cell l m) d = refl

module _ (ip : Inode) (s : Fs) (x : ℕ) (ip' : Inode) (s' : Fs) (m : IsMapped ip s) where
  bmap_direct :
      (k : ℕ) → k < ndirect → top_addr k ip s ≡ some (x, ip', s') → Bmapped ip s (top k) x ip' s'
  bmap_direct k lt h =
      Extends-last ip s ip s (top k) x ip' s' (Extends-refl ip s)
        (top_addr-Reached ip s k x ip' s' m (omega arith) h) (omega arith) lt

  bmap_single :
      (i : ℕ)
      → i < nindirect
      → last_addr i (top_addr ndirect ip s) ≡ some (x, ip', s')
      → Bmapped ip s (slot i) x ip' s'
  bmap_single i lt h =
      let (a, t, o, w) = last_addr-inv i (top_addr ndirect ip s) x ip' s' h in
      let r = top_addr-Reached ip s ndirect a ip' t m (omega arith) o in
      Extends-last ip s ip' t (slot i) x ip' s'
        (Extends-next ip s ip s (top ndirect) a ip' t (Extends-refl ip s) r
          (top_inner ndirect (omega arith)))
        (below ip' t (slot i) a x s' r.mapped r.here r.nonzero lt (omega arith) w) lt lt

  bmap_double :
      (i j : ℕ)
      → i < nindirect
      → j < nindirect
      → last_addr j (last_addr i (top_addr (ndirect + 1) ip s)) ≡ some (x, ip', s')
      → Bmapped ip s (cell i j) x ip' s'
  bmap_double i j li lj h =
      let (a₂, t₂, o₂, w₂) =
        last_addr-inv j (last_addr i (top_addr (ndirect + 1) ip s)) x ip' s' h in
      let (a₁, t₁, o₁, w₁) = last_addr-inv i (top_addr (ndirect + 1) ip s) a₂ ip' t₂ o₂ in
      let r₁ = top_addr-Reached ip s (ndirect + 1) a₁ ip' t₁ m (omega arith) o₁ in
      let r₂ = below ip' t₁ (table i) a₁ a₂ t₂ r₁.mapped r₁.here r₁.nonzero li (omega arith) w₁ in
      let e₁ =
        Extends-next ip s ip s (top (ndirect + 1)) a₁ ip' t₁ (Extends-refl ip s) r₁
          (top_inner (ndirect + 1) (omega arith)) in
      let e₂ = Extends-next ip s ip' t₁ (table i) a₂ ip' t₂ e₁ r₂ (table_inner i) in
      Extends-last ip s ip' t₂ (cell i j) x ip' s' e₂
        (below ip' t₂ (cell i j) a₂ x s' r₂.mapped r₂.here r₂.nonzero (li, lj) (omega arith) w₂)
        (li, lj) (li, lj)

-- In a file system where the inode's blocks are its own, a block number that bmap returns is not 0
-- and stands at the place of the file's block `bn`. The blocks are the inode's own still: no number
-- that was there has changed, no other block of the file has come or gone, the bytes of the blocks
-- that were there are as they were, and a new block is all zero. The inode's other fields and the
-- superblock do not change.
pub bmap-Bmapped :
    (ip : Inode) (s : Fs) (bn x : ℕ) (ip' : Inode) (s' : Fs)
    → IsMapped ip s
    → bmap ip bn s ≡ some (x, ip', s')
    → Bmapped ip s (place bn) x ip' s'
unfolding bmap place
bmap-Bmapped ip s bn x ip' s' m h = elim (Bool-cases (ltb bn ndirect)) [
  | inl e ↦ rw e (bmap_direct ip s x ip' s' m bn (ground arith) (rw e at h))
  | inr e ↦ elim (Bool-cases (ltb (bn - ndirect) nindirect)) [
    | inl e₁ ↦
        rw (e, e₁) (bmap_single ip s x ip' s' m (bn - ndirect) (ground arith) (rw (e, e₁) at h))
    | inr e₁ ↦ elim (Bool-cases (ltb (bn - ndirect - nindirect) (nindirect * nindirect))) [
      | inl e₂ ↦
          let n = bn - ndirect - nindirect in
          rw (e, e₁)
            (bmap_double ip s x ip' s' m (n / nindirect) (n % nindirect) (ground arith)
              (omega arith) (rw (e, e₁, e₂) at h))
      | inr e₂ ↦ ground arith
    ]
  ]
]
