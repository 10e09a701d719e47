-- ===== src/Kernel/Fs/Content/Elsewhere.antt =====
-- Writes of xv6-public/fs.c to a block that holds no block numbers of the inode and is not of the free
-- map: the inode's blocks stay its own.
use c_s_e_hanyang.Base.{
  ℕ, ◌+◌, ◌/◌, ◌%◌, ◌<◌, ◌≡◌, ◌≢◌, refl, ap, sym, ◌∙◌, ◌==◌, arith, Bool-cases, inl, inr,
}
use mathlib.Core.Path.{subst}
use c_s_e_hanyang.Kernel.Fs.{Fs, bitmap_block, inode_block, is_clear}
use c_s_e_hanyang.Kernel.Fs.Blocks.{used}
use c_s_e_hanyang.Kernel.Fs.Blocks.Room.{free_blocks, free_blocks-ext}
use c_s_e_hanyang.Kernel.Fs.Bmap.{Inode, nindirect}
use c_s_e_hanyang.Kernel.Fs.Bmap.Words.{word-kept}
use c_s_e_hanyang.Kernel.Fs.Bmap.Places.{
  Place, top, slot, table, cell, IsPlace, addr, through, Owned, IsMapped, HasParent, parent,
}

-- Block `x` has no number of the inode, and no bit of the free map.
pub record Apart (ip : Inode) (s : Fs) (x : ℕ) : Type 0 where
  pub no_map : (c : ℕ) → c < s.sb.size → x ≢ bitmap_block s c
  pub no_table :
      (q : Place) → IsPlace q → HasParent q → addr ip s (parent q) ≢ 0 → addr ip s (parent q) ≢ x

module _ (ip : Inode) (s t : Fs) (x : ℕ) (m : IsMapped ip s) (ap_x : Apart ip s x)
    (same_sb : t.sb ≡ s.sb) (away : (c j : ℕ) → c ≢ x → t.block c j ≡ s.block c j) where
  through-same : (a i : ℕ) → (a ≢ 0 → a ≢ x) → through t a i ≡ through s a i
  unfolding through
  through-same a i ne = elim (Bool-cases (a == 0)) [
    | inl e ↦ rw e refl
    | inr e ↦ rw e (word-kept s t a i (λ j. away a j (ne (ground arith))))
  ]

  table-same : (k : ℕ) → k < nindirect → addr ip t (table k) ≡ addr ip s (table k)
  unfolding addr
  table-same k i = through-same _ k (ap_x.no_table (table k) i (omega arith))

  pub Apart-addr : (q : Place) → IsPlace q → addr ip t q ≡ addr ip s q
  unfolding addr
  Apart-addr (top k) i = refl
  Apart-addr (slot k) i = through-same _ k (ap_x.no_table (slot k) i (omega arith))
  Apart-addr (table k) i = table-same k i
  Apart-addr (cell k l) i =
      ap (λ a. through t a l) (table-same k (i.0))
      ∙ through-same _ l (ap_x.no_table (cell k l) i (omega arith))

  bitmap_eq : (c : ℕ) → bitmap_block t c ≡ bitmap_block s c
  bitmap_eq c = ap (λ b. c / 4096 + b.bmapstart) same_sb

  inode_eq : (c : ℕ) → inode_block t c ≡ inode_block s c
  inode_eq c = ap (λ b. c / 8 + b.inodestart) same_sb

  size_eq : t.sb.size ≡ s.sb.size
  size_eq = ap (λ b. b.size) same_sb

  ninodes_eq : t.sb.ninodes ≡ s.sb.ninodes
  ninodes_eq = ap (λ b. b.ninodes) same_sb

  used_eq : (c : ℕ) → c < s.sb.size → used t c ≡ used s c
  unfolding used is_clear
  used_eq c lt =
      let k = away (bitmap_block s c) (c % 4096 / 8) (λ e. ap_x.no_map c lt (sym e)) in
      rw (bitmap_eq c, k) refl

  Owned-kept : (a : ℕ) → Owned s a → Owned t a
  Owned-kept a o = record {
    inside = rw size_eq o.inside;
    in_use = used_eq a o.inside ∙ o.in_use;
    no_map = λ c lt. rw (bitmap_eq c) (o.no_map c (rw (← size_eq) lt));
    no_inode = λ i lt. rw (inode_eq i) (o.no_inode i (rw (← ninodes_eq) lt));
  }

  pub Apart-IsMapped : IsMapped ip t
  Apart-IsMapped = record {
    bitmap = λ c lt.
        let b = m.bitmap c (rw (← size_eq) lt) in
        (
          rw (size_eq, bitmap_eq c) (b.0),
          ap (used t) (bitmap_eq c) ∙ used_eq (bitmap_block s c) (b.0) ∙ b.1,
        );
    inodes = λ i lt.
        let b = m.inodes i (rw (← ninodes_eq) lt) in
        (
          rw (size_eq, inode_eq i) (b.0),
          ap (used t) (inode_eq i) ∙ used_eq (inode_block s i) (b.0) ∙ b.1,
        );
    bound = rw size_eq m.bound;
    positive = rw size_eq m.positive;
    boot = used_eq 0 m.positive ∙ m.boot;
    tops = m.tops;
    owned = λ p i ne.
        let e = Apart-addr p i in
        subst (Owned t) (sym e) (Owned-kept (addr ip s p) (m.owned p i (λ z. ne (e ∙ z))));
    injective = λ p q i j ne h.
        let e = Apart-addr p i in
        m.injective p q i j (λ z. ne (e ∙ z)) (sym e ∙ h ∙ Apart-addr q j);
  }

  pub Apart-free : free_blocks t ≡ free_blocks s
  Apart-free = free_blocks-ext s t same_sb used_eq
