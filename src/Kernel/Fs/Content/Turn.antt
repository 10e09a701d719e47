-- ===== src/Kernel/Fs/Content/Turn.antt =====
-- One turn of the loops of readi and writei of xv6-public/fs.c: bmap, and a write to the block.
use c_s_e_hanyang.Base.{
  ℕ, ◌+◌, ◌-◌, ◌*◌, ◌/◌, ◌%◌, ◌≤◌, ◌<◌, ◌≡◌, ◌≢◌, refl, ap, sym, ◌∙◌, false, ◌&&◌, ltb, leb, ◌==◌,
  if◌then◌else◌, arith, Bool-cases, inl, inr,
}
use c_s_e_hanyang.Kernel.Fs.{Fs, byte_at, note_write, block_size}
use c_s_e_hanyang.Kernel.Fs.Bmap.{Inode}
use c_s_e_hanyang.Kernel.Fs.Bmap.Places.{
  Place, top, slot, table, cell, IsPlace, IsData, same_place, addr, place, strip, IsMapped,
  HasParent, parent,
}
use c_s_e_hanyang.Kernel.Fs.Bmap.Grow.{same_place→eq}
use c_s_e_hanyang.Kernel.Fs.Bmap.Lookup.{Bmapped}
use c_s_e_hanyang.Kernel.Fs.Bmap.Inner.{IsPlace-parent}
use c_s_e_hanyang.Kernel.Fs.Content.{maxfile, set_bytes}
use c_s_e_hanyang.Kernel.Fs.Content.View.{content, place-IsData, IsData-IsPlace, same_place-place}
use c_s_e_hanyang.Kernel.Fs.Content.Elsewhere.{Apart, Apart-addr, Apart-IsMapped, Apart-free}
use c_s_e_hanyang.Kernel.Fs.Blocks.Room.{free_blocks}

-- What a write of `n` bytes at `off` leaves: those bytes are as given, all others as they were.
pub record Written (ip : Inode) (s : Fs) (off n : ℕ) (src : ℕ → ℕ) (ip' : Inode) (s' : Fs)
    : Type 0 where
  pub mapped : IsMapped ip' s'
  pub bytes :
      (k : ℕ)
      → k < maxfile * block_size
      → content ip' s' k
        ≡ (if leb off k && ltb k (off + n) then src (k - off) % 256 else content ip s k)
  pub there : (k : ℕ) → off ≤ k → k < off + n → addr ip' s' (place (k / block_size)) ≢ 0
  pub kept : (k : ℕ) → k < maxfile → addr ip s (place k) ≢ 0 → addr ip' s' (place k) ≢ 0
  pub same_ip : strip ip' ≡ strip ip
  pub same_sb : s'.sb ≡ s.sb

-- bmap changes no byte of the file.
pub bmap-content :
    (ip : Inode) (s : Fs) (bn x : ℕ) (ip' : Inode) (s' : Fs) (k : ℕ)
    → Bmapped ip s (place bn) x ip' s'
    → k < maxfile * block_size
    → content ip' s' k ≡ content ip s k
unfolding content
bmap-content ip s bn x ip' s' k r lt =
    let p = place (k / block_size) in
    let d = place-IsData (k / block_size) (omega arith) in
    let i = IsData-IsPlace p d in
    elim (Bool-cases (addr ip s p == 0)) [
      | inr e ↦
          let ne : addr ip s p ≢ 0 = λ z. ground arith in
          rw (r.kept p i ne)
            (ap (λ b. if addr ip s p == 0 then 0 else b % 256) (r.bytes p i d ne (k % block_size)))
      | inl e ↦ elim (Bool-cases (same_place p (place bn))) [
        | inr f ↦ rw (r.others p i d f, e) refl
        | inl f ↦
            let q = same_place→eq p (place bn) f in
            let was : addr ip s (place bn) ≡ 0 = ap (addr ip s) (sym q) ∙ (ground arith) in
            let now : addr ip' s' p ≡ x = ap (addr ip' s') q ∙ r.here in
            let z = r.zeroed was (k % block_size) (omega arith) in rw (e, now) (ground arith)
      ]
    ]

-- A block with the file's bytes holds none of its block numbers.
data_no_parent : (p q : Place) → IsData p → HasParent q → same_place (parent q) p ≡ false
data_no_parent (top k) (top l) d h = absurd (omega arith)
data_no_parent (top k) (slot l) d h = ground arith
data_no_parent (top k) (table l) d h = ground arith
data_no_parent (top k) (cell l j) d h = refl
data_no_parent (slot k) (top l) d h = absurd (omega arith)
data_no_parent (slot k) (slot l) d h = refl
data_no_parent (slot k) (table l) d h = refl
data_no_parent (slot k) (cell l j) d h = refl
data_no_parent (table k) q d h = absurd (omega arith)
data_no_parent (cell k j) (top l) d h = absurd (omega arith)
data_no_parent (cell k j) (slot l) d h = refl
data_no_parent (cell k j) (table l) d h = refl
data_no_parent (cell k j) (cell l i) d h = refl

module _ (ip : Inode) (s : Fs) (off m : ℕ) (src : ℕ → ℕ) (x : ℕ) (ip' : Inode) (s' : Fs)
    (r : Bmapped ip s (place (off / block_size)) x ip' s')
    (fits : off % block_size + m ≤ block_size) (inside : off < maxfile * block_size) where
  abbrev at : Place
  at = place (off / block_size)

  abbrev t : Fs
  unfolding set_bytes
  t = note_write x (set_bytes x (off % block_size) m src s')

  at-IsData : IsData at
  at-IsData = place-IsData (off / block_size) (omega arith)

  at-IsPlace : IsPlace at
  at-IsPlace = IsData-IsPlace at at-IsData

  at_there : addr ip' s' at ≢ 0
  at_there z = r.nonzero (sym r.here ∙ z)

  apart : Apart ip' s' x
  apart = record {
    no_map = λ c lt e. (r.mapped.owned at at-IsPlace at_there).no_map c lt (r.here ∙ e);
    no_table = λ q i h ne e.
        let y =
          r.mapped.injective (parent q) at (IsPlace-parent q i) at-IsPlace ne (e ∙ sym r.here) in
        ground (arith, data_no_parent at q at-IsData h);
  }

  t-away : (c j : ℕ) → c ≢ x → t.block c j ≡ s'.block c j
  unfolding set_bytes
  t-away c j ne = ground arith

  t-byte :
      (k : ℕ)
      → k / block_size ≡ off / block_size
      → byte_at t x (k % block_size) ≡ (
          if leb off k && ltb k (off + m)
          then src (k - off) % 256
          else byte_at s' x (k % block_size))
  unfolding set_bytes
  t-byte k e =
      let q : k % 512 - off % 512 ≡ k - off = omega arith in
      elim (Bool-cases (leb off k && ltb k (off + m))) [
        | inl f ↦ rw (f, q) (ground arith)
        | inr f ↦ rw (f, q) (ground arith)
      ]

  t-addr : (q : Place) → IsPlace q → addr ip' t q ≡ addr ip' s' q
  unfolding set_bytes
  t-addr q i = Apart-addr ip' s' t x r.mapped apart refl t-away q i

  other :
      (k : ℕ)
      → IsPlace (place (k / block_size))
      → (k / block_size == off / block_size) ≡ false
      → addr ip' s' (place (k / block_size)) ≢ 0
      → addr ip' s' (place (k / block_size)) ≢ x
  other k i e ne h =
      let y = r.mapped.injective (place (k / block_size)) at i at-IsPlace ne (h ∙ sym r.here) in
      ground (arith, same_place-place (k / block_size) (off / block_size))

  outside :
      (k : ℕ)
      → (k / block_size == off / block_size) ≡ false
      → (leb off k && ltb k (off + m)) ≡ false
  outside k e = ground arith

  t-content :
      (k : ℕ)
      → k < maxfile * block_size
      → content ip' t k
        ≡ (if leb off k && ltb k (off + m) then src (k - off) % 256 else content ip' s' k)
  unfolding content
  t-content k lt =
      let p = place (k / block_size) in
      let i = IsData-IsPlace p (place-IsData (k / block_size) (omega arith)) in
      let ea = t-addr p i in
      elim (Bool-cases (k / block_size == off / block_size)) [
        | inl e ↦
            let q : k / block_size ≡ off / block_size = ground arith in
            let now : addr ip' s' p ≡ x = ap (λ c. addr ip' s' (place c)) q ∙ r.here in
            rw (ea, now) (ground (arith, t-byte k q, r.nonzero))
        | inr e ↦
            let test : (leb off k && ltb k (off + m)) ≡ false = outside k e in
            elim (Bool-cases (addr ip' s' p == 0)) [
              | inl z ↦ rw (ea, test, z) refl
              | inr z ↦
                  let old =
                    t-away (addr ip' s' p) (k % block_size) (other k i e (λ w. ground arith)) in
                  rw (ea, test) (ap (λ b. if addr ip' s' p == 0 then 0 else b % 256) old)
            ]
      ]

  pub written : Written ip s off m src ip' (note_write x (set_bytes x (off % block_size) m src s'))
  unfolding set_bytes
  written = record {
    mapped = Apart-IsMapped ip' s' t x r.mapped apart refl t-away;
    bytes = λ k lt.
        t-content k lt
        ∙ ap (λ c. if leb off k && ltb k (off + m) then src (k - off) % 256 else c)
            (bmap-content ip s (off / block_size) x ip' s' k r lt);
    there = λ k le lt.
        let q : k / block_size ≡ off / block_size = omega arith in
        rw q (λ z. at_there (sym (t-addr at at-IsPlace) ∙ z));
    kept = λ k lt ne z.
        let d = IsData-IsPlace (place k) (place-IsData k lt) in
        ne (sym (r.kept (place k) d ne) ∙ sym (t-addr (place k) d) ∙ z);
    same_ip = r.same_ip;
    same_sb = r.same_sb;
  }

  pub written-free :
      free_blocks (note_write x (set_bytes x (off % block_size) m src s')) ≡ free_blocks s'
  unfolding set_bytes
  written-free = Apart-free ip' s' t x r.mapped apart refl t-away
