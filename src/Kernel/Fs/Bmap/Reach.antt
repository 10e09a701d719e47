-- ===== src/Kernel/Fs/Bmap/Reach.antt =====
-- The steps of bmap of xv6-public/fs.c: each finds the block number at a place, or puts one there.
use mathlib.Core.Path.{subst}
use c_s_e_hanyang.Base.{
  ℕ, suc, ◌≤◌, ◌+◌, ◌<◌, ◌≡◌, ◌≢◌, refl, ap, ◌∙◌, false, ◌==◌, if◌then◌else◌, get_or, set,
  length-set, get_or-set_self, get_or-set_ne, arith, Bool-cases, Option-cases, some_inj, some, inl,
  inr,
}
use c_s_e_hanyang.Kernel.Fs.{Fs, balloc, byte_at, block_size}
use c_s_e_hanyang.Kernel.Fs.Blocks.{used, Allocated, balloc-Allocated}
use c_s_e_hanyang.Kernel.Fs.Bmap.{Inode, word, top_addr, ndirect, nindirect}
use c_s_e_hanyang.Kernel.Fs.Bmap.Words.{word-zeroed, word-kept}
use c_s_e_hanyang.Kernel.Fs.Blocks.Room.{free_blocks, free_blocks-spent}
use c_s_e_hanyang.Kernel.Fs.Bmap.Places.{
  Place, top, slot, table, cell, IsPlace, IsData, same_place, through, addr, strip, Owned, IsMapped,
}
use c_s_e_hanyang.Kernel.Fs.Bmap.Grow.{Grown, Grown-IsMapped}

-- An allocation leaves the numbers in a block that is owned.
module _ (s : Fs) (b : ℕ) (s' : Fs) (al : Allocated s b s') where
  word-old : (a i : ℕ) → Owned s a → word s' a i ≡ word s a i
  word-old a i o = word-kept s s' a i (λ j.
      al.kept a j (λ e. ground (arith, ap (used s) e, o.in_use, al.was_free))
        (o.no_map b al.inside))

  pub through-old : (a i : ℕ) → (a ≢ 0 → Owned s a) → through s' a i ≡ through s a i
  unfolding through
  through-old a i o = elim (Bool-cases (a == 0)) [
    | inl e ↦ rw e refl
    | inr e ↦ rw e (word-old a i (o (ground arith)))
  ]

  pub through-fresh : (i : ℕ) → i < nindirect → through s' b i ≡ 0
  unfolding through
  through-fresh i lt = ground (arith, word-zeroed s' b i al.zeroed lt)

  pub block-old : (a j : ℕ) → Owned s a → s'.block a j ≡ s.block a j
  block-old a j o =
      al.kept a j (λ e. ground (arith, ap (used s) e, o.in_use, al.was_free)) (o.no_map b al.inside)

-- What a step leaves that is asked for the number `x` at place `p`.
pub record Reached (ip : Inode) (s : Fs) (p : Place) (x : ℕ) (ip' : Inode) (s' : Fs) : Type 0 where
  pub mapped : IsMapped ip' s'
  pub nonzero : x ≢ 0
  pub here : addr ip' s' p ≡ x
  pub stays : addr ip s p ≢ 0 → addr ip s p ≡ x
  pub kept : (q : Place) → IsPlace q → same_place q p ≡ false → addr ip' s' q ≡ addr ip s q
  pub bytes :
      (q : Place)
      → IsPlace q
      → IsData q
      → addr ip s q ≢ 0
      → (j : ℕ) → s'.block (addr ip s q) j ≡ s.block (addr ip s q) j
  pub zeroed : addr ip s p ≡ 0 → (j : ℕ) → j < block_size → byte_at s' x j ≡ 0
  pub same_ip : strip ip' ≡ strip ip
  pub same_sb : s'.sb ≡ s.sb
  pub spent : free_blocks s ≤ suc (free_blocks s')

pub Reached-old :
    (ip : Inode) (s : Fs) (p : Place)
    → IsMapped ip s
    → addr ip s p ≢ 0
    → Reached ip s p (addr ip s p) ip s
Reached-old ip s p m ne = record {
  mapped = m;
  nonzero = ne;
  here = refl;
  stays = λ _. refl;
  kept = λ q _ _. refl;
  bytes = λ q _ _ _ j. refl;
  zeroed = λ z. absurd (ne z);
  same_ip = refl;
  same_sb = refl;
  spent = omega arith;
}

module _ (ip : Inode) (s : Fs) (k b : ℕ) (s' : Fs) (m : IsMapped ip s) (al : Allocated s b s')
    (ik : k < ndirect + 2) (empty : get_or ip.addrs k 0 ≡ 0) where
  abbrev with_top : Inode
  with_top = record ip { addrs = set ip.addrs k b }

  top-after : (l : ℕ) → get_or (set ip.addrs k b) l 0 ≡ (if l == k then b else get_or ip.addrs l 0)
  top-after l = elim (Bool-cases (l == k)) [
    | inl e ↦
        let q : l ≡ k = ground arith in
        rw e (
          ap (λ x. get_or (set ip.addrs k b) x 0) q
          ∙ get_or-set_self ip.addrs k b 0 (omega (arith, m.tops)))
    | inr e ↦ rw e (get_or-set_ne ip.addrs k l b 0 (ground arith))
  ]

  root-after :
      (l j : ℕ)
      → l < ndirect + 2
      → j < nindirect
      → through s' (get_or (set ip.addrs k b) l 0) j ≡ through s (get_or ip.addrs l 0) j
  unfolding through
  root-after l j il ij = elim (Bool-cases (l == k)) [
    | inl e ↦
        let q : l ≡ k = ground arith in
        let old : get_or ip.addrs l 0 ≡ 0 = ap (λ x. get_or ip.addrs x 0) q ∙ empty in
        let new : get_or (set ip.addrs k b) l 0 ≡ b = top-after l ∙ rw e refl in
        rw (old, new) (through-fresh s b s' al j ij)
    | inr e ↦
        let new : get_or (set ip.addrs k b) l 0 ≡ get_or ip.addrs l 0 = top-after l ∙ rw e refl in
        rw new (through-old s b s' al (get_or ip.addrs l 0) j (unfold addr in m.owned (top l) il))
  ]

  addr-after :
      (q : Place)
      → IsPlace q
      → addr with_top s' q ≡ (if same_place q (top k) then b else addr ip s q)
  unfolding addr
  addr-after (top l) i = top-after l
  addr-after (slot j) i = root-after ndirect j (omega arith) i
  addr-after (table j) i = root-after (ndirect + 1) j (omega arith) i
  addr-after (cell j l) i =
      ap (λ a. through s' a l) (root-after (ndirect + 1) j (omega arith) (i.0))
      ∙ through-old s b s' al (through s (get_or ip.addrs 12 0) j) l (m.owned (table j) (i.0))

  top-Grown : Grown ip s (top k) b with_top s'
  top-Grown = record {
    is_place = ik;
    inside = al.inside;
    was_free = al.was_free;
    was_empty = unfold addr in empty;
    now_used = al.now_used;
    same_sb = al.same_sb;
    tops = length-set ip.addrs k b ∙ m.tops;
    addrs = addr-after;
  }

  top-Reached : Reached ip s (top k) b with_top s'
  top-Reached = record {
    mapped = Grown-IsMapped ip with_top s s' (top k) b m top-Grown;
    nonzero = λ e. ground (arith, ap (used s) e, al.was_free, m.boot);
    here = addr-after (top k) ik ∙ ground arith;
    stays = λ ne. absurd (ne (unfold addr in empty));
    kept = λ q i ne. addr-after q i ∙ rw ne refl;
    bytes = λ q i d ne j. block-old s b s' al (addr ip s q) j (m.owned q i ne);
    zeroed = λ _. al.zeroed;
    same_ip = refl;
    same_sb = al.same_sb;
    spent = free_blocks-spent s s' b al.same_sb al.now_used;
  }

-- `top_addr` reaches `top k`.
pub top_addr-Reached :
    (ip : Inode) (s : Fs) (k : ℕ) (x : ℕ) (ip' : Inode) (s' : Fs)
    → IsMapped ip s
    → k < ndirect + 2
    → top_addr k ip s ≡ some (x, ip', s')
    → Reached ip s (top k) x ip' s'
unfolding top_addr addr
top_addr-Reached ip s k x ip' s' m ik h = elim (Bool-cases (get_or ip.addrs k 0 == 0)) [
  | inr e ↦
      let r : ℕ × Inode × Fs = (get_or ip.addrs k 0, ip, s) in
      let q : some r ≡ some (x, ip', s') = ground arith in
      let old = Reached-old ip s (top k) m (unfold addr in (λ z. ground arith)) in
      subst (λ r. Reached ip s (top k) r.0 r.1 r.2) (some_inj q) old
  | inl e ↦ elim (Option-cases (balloc s)) [
    | inl o ↦ ground arith
    | inr ((b, t), o) ↦
        let r : ℕ × Inode × Fs = (b, record ip { addrs = set ip.addrs k b }, t) in
        let q : some r ≡ some (x, ip', s') = ground arith in
        subst (λ r. Reached ip s (top k) r.0 r.1 r.2) (some_inj q)
          (top-Reached ip s k b t m (balloc-Allocated s b t m.bitmap o) ik (ground arith))
  ]
]
