-- ===== src/Kernel/Fs/Bmap/Grow.antt =====
-- One more block for an inode of xv6-public/fs.c: a place that was empty gets a fresh block.
use c_s_e_hanyang.Base.{
  ℕ, ◌+◌, ◌/◌, ◌<◌, ◌≡◌, ◌≢◌, refl, ap, sym, ◌∙◌, true, false, ◌||◌, ◌==◌, if◌then◌else◌, length,
  arith, Bool-cases, inl, inr,
}
use c_s_e_hanyang.Kernel.Fs.{Fs, bitmap_block, inode_block}
use c_s_e_hanyang.Kernel.Fs.Blocks.{used, BitmapUsed, InodesUsed}
use c_s_e_hanyang.Kernel.Fs.Bmap.{Inode, ndirect}
use c_s_e_hanyang.Kernel.Fs.Bmap.Places.{
  Place, top, slot, table, cell, IsPlace, same_place, addr, Owned, IsMapped,
}

pub record Grown (ip : Inode) (s : Fs) (p : Place) (b : ℕ) (ip' : Inode) (s' : Fs) : Type 0 where
  pub is_place : IsPlace p
  pub inside : b < s.sb.size
  pub was_free : used s b ≡ false
  pub was_empty : addr ip s p ≡ 0
  pub now_used : (c : ℕ) → c < s.sb.size → used s' c ≡ ((c == b) || used s c)
  pub same_sb : s'.sb ≡ s.sb
  pub tops : length ip'.addrs ≡ ndirect + 2
  pub addrs : (q : Place) → IsPlace q → addr ip' s' q ≡ (if same_place q p then b else addr ip s q)

pub same_place_refl : (p : Place) → same_place p p ≡ true
same_place_refl (top k) = ground arith
same_place_refl (slot k) = ground arith
same_place_refl (table k) = ground arith
same_place_refl (cell i j) = ground arith

pub same_place→eq : (p q : Place) → same_place p q ≡ true → p ≡ q
same_place→eq (top k) (top l) h = ground arith
same_place→eq (slot k) (slot l) h = ground arith
same_place→eq (table k) (table l) h = ground arith
same_place→eq (cell i j) (cell k l) h = ground arith
same_place→eq p q h = ground arith

module _ (ip ip' : Inode) (s s' : Fs) (p : Place) (b : ℕ) (m : IsMapped ip s)
    (g : Grown ip s p b ip' s') where
  size_eq : s'.sb.size ≡ s.sb.size
  size_eq = ap (λ x. x.size) g.same_sb

  map_eq : (c : ℕ) → bitmap_block s' c ≡ bitmap_block s c
  map_eq c = ap (λ x. c / 4096 + x.bmapstart) g.same_sb

  b_nonzero : b ≢ 0
  b_nonzero e = ground (arith, ap (used s) e, g.was_free, m.boot)

  b_no_map : (c : ℕ) → c < s.sb.size → b ≢ bitmap_block s c
  b_no_map c lt e = ground (arith, ap (used s) e, g.was_free, m.bitmap c lt)

  ninodes_eq : s'.sb.ninodes ≡ s.sb.ninodes
  ninodes_eq = ap (λ x. x.ninodes) g.same_sb

  inode_eq : (i : ℕ) → inode_block s' i ≡ inode_block s i
  inode_eq i = ap (λ x. i / 8 + x.inodestart) g.same_sb

  b_no_inode : (i : ℕ) → i < s.sb.ninodes → b ≢ inode_block s i
  b_no_inode i lt e = ground (arith, ap (used s) e, g.was_free, m.inodes i lt)

  Grown-inodes : InodesUsed s'
  Grown-inodes i lt =
      let old = m.inodes i (rw (← ninodes_eq) lt) in
      (
        omega (arith, old.0, size_eq, inode_eq i),
        ap (used s') (inode_eq i) ∙ g.now_used (inode_block s i) old.0 ∙ ground (arith, old.1),
      )

  Grown-bitmap : BitmapUsed s'
  Grown-bitmap c lt =
      let old = m.bitmap c (rw (← size_eq) lt) in
      (
        omega (arith, old.0, size_eq, map_eq c),
        ap (used s') (map_eq c) ∙ g.now_used (bitmap_block s c) old.0 ∙ ground (arith, old.1),
      )

  Owned-kept : (a : ℕ) → Owned s a → Owned s' a
  Owned-kept a o = record {
    inside = rw size_eq o.inside;
    in_use = g.now_used a o.inside ∙ ground (arith, o.in_use);
    no_map = λ c lt. rw (map_eq c) (o.no_map c (rw (← size_eq) lt));
    no_inode = λ i lt. rw (inode_eq i) (o.no_inode i (rw (← ninodes_eq) lt));
  }

  Owned-fresh : Owned s' b
  Owned-fresh = record {
    inside = rw size_eq g.inside;
    in_use = g.now_used b g.inside ∙ ground arith;
    no_map = λ c lt. rw (map_eq c) (b_no_map c (rw (← size_eq) lt));
    no_inode = λ i lt. rw (inode_eq i) (b_no_inode i (rw (← ninodes_eq) lt));
  }

  addr-Owned : (q : Place) → IsPlace q → addr ip' s' q ≢ 0 → Owned s' (addr ip' s' q)
  addr-Owned q i ne = elim (Bool-cases (same_place q p)) [
    | inl e ↦ let a : addr ip' s' q ≡ b = g.addrs q i ∙ rw e refl in rw a Owned-fresh
    | inr e ↦
        let a : addr ip' s' q ≡ addr ip s q = g.addrs q i ∙ rw e refl in
        rw a (Owned-kept (addr ip s q) (m.owned q i (λ z. ne (a ∙ z))))
  ]

  old_ne_fresh : (q : Place) → IsPlace q → addr ip s q ≢ b
  old_ne_fresh q i e =
      let o = m.owned q i (λ z. b_nonzero (sym e ∙ z)) in
      ground (arith, ap (used s) e, g.was_free, o.in_use)

  addr_injective :
      (q r : Place)
      → IsPlace q
      → IsPlace r
      → addr ip' s' q ≢ 0
      → addr ip' s' q ≡ addr ip' s' r
      → same_place q r ≡ true
  addr_injective q r iq ir ne e =
      let aq = g.addrs q iq in
      let ar = g.addrs r ir in
      elim (Bool-cases (same_place q p)) [
        | inl eq ↦ elim (Bool-cases (same_place r p)) [
          | inl er ↦
              let x = same_place→eq q p eq in
              let y = same_place→eq r p er in rw (x, y) (same_place_refl p)
          | inr er ↦ absurd (old_ne_fresh r ir (sym (ar ∙ rw er refl) ∙ sym e ∙ aq ∙ rw eq refl))
        ]
        | inr eq ↦ elim (Bool-cases (same_place r p)) [
          | inl er ↦ absurd (old_ne_fresh q iq (sym (aq ∙ rw eq refl) ∙ e ∙ ar ∙ rw er refl))
          | inr er ↦
              let x : addr ip' s' q ≡ addr ip s q = aq ∙ rw eq refl in
              m.injective q r iq ir (λ z. ne (x ∙ z)) (sym x ∙ e ∙ ar ∙ rw er refl)
        ]
      ]

  pub Grown-IsMapped : IsMapped ip' s'
  Grown-IsMapped = record {
    bitmap = Grown-bitmap;
    inodes = Grown-inodes;
    bound = rw size_eq m.bound;
    positive = rw size_eq m.positive;
    boot = g.now_used 0 m.positive ∙ ground (arith, m.boot);
    tops = g.tops;
    owned = addr-Owned;
    injective = addr_injective;
  }
