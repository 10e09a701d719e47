-- ===== src/Kernel/Fs/Bmap/Inner.antt =====
-- The steps of bmap of xv6-public/fs.c that look into an indirect block.
use mathlib.Core.Path.{subst}
use c_s_e_hanyang.Base.{
  ℕ, ◌+◌, ◌/◌, ◌%◌, ◌<◌, ◌≡◌, ◌≢◌, refl, ap, sym, ◌∙◌, true, false, ◌&&◌, ◌==◌, if◌then◌else◌,
  arith, Bool-cases, Option-cases, some_inj, some, inl, inr,
}
use c_s_e_hanyang.Kernel.Fs.{Fs, bitmap_block, note_write, balloc, is_clear}
use c_s_e_hanyang.Kernel.Fs.Blocks.{used, Allocated, balloc-Allocated}
use c_s_e_hanyang.Kernel.Fs.Bmap.{Inode, word, set_word, word_addr, ndirect, nindirect}
use c_s_e_hanyang.Kernel.Fs.Bmap.Words.{word-set_word}
use c_s_e_hanyang.Kernel.Fs.Blocks.Room.{free_blocks-spent}
use c_s_e_hanyang.Kernel.Fs.Bmap.Places.{
  Place, top, slot, table, cell, IsPlace, IsData, same_place, through, addr, Owned, IsMapped,
  HasParent, parent, index,
}
use c_s_e_hanyang.Kernel.Fs.Bmap.Grow.{Grown, Grown-IsMapped, same_place_refl, same_place→eq}
use c_s_e_hanyang.Kernel.Fs.Bmap.Reach.{Reached, Reached-old, through-old, through-fresh, block-old}

pub addr-parent :
    (ip : Inode) (s : Fs) (q : Place)
    → HasParent q
    → addr ip s q ≡ through s (addr ip s (parent q)) (index q)
unfolding addr
addr-parent ip s (top k) h = absurd (omega arith)
addr-parent ip s (slot k) h = refl
addr-parent ip s (table k) h = refl
addr-parent ip s (cell i j) h = refl

same-parent :
    (p q : Place)
    → HasParent p
    → HasParent q
    → same_place q p ≡ (same_place (parent q) (parent p) && (index q == index p))
same-parent (top k) q hp hq = absurd (omega arith)
same-parent (slot i) (top k) hp hq = absurd (omega arith)
same-parent (slot i) (slot j) hp hq = ground arith
same-parent (slot i) (table j) hp hq = refl
same-parent (slot i) (cell j l) hp hq = refl
same-parent (table i) (top k) hp hq = absurd (omega arith)
same-parent (table i) (slot j) hp hq = refl
same-parent (table i) (table j) hp hq = ground arith
same-parent (table i) (cell j l) hp hq = refl
same-parent (cell i k) (top j) hp hq = absurd (omega arith)
same-parent (cell i k) (slot j) hp hq = refl
same-parent (cell i k) (table j) hp hq = refl
same-parent (cell i k) (cell j l) hp hq = refl

pub IsPlace-parent : (q : Place) → IsPlace q → IsPlace (parent q)
IsPlace-parent (top k) i = i
IsPlace-parent (slot k) i = omega arith
IsPlace-parent (table k) i = omega arith
IsPlace-parent (cell k j) i = i.0

index-lt : (q : Place) → HasParent q → IsPlace q → index q < nindirect
index-lt (top k) h i = absurd (omega arith)
index-lt (slot k) h i = i
index-lt (table k) h i = i
index-lt (cell k j) h i = i.1

parent-data : (p q : Place) → HasParent p → IsData q → same_place q (parent p) ≡ false
parent-data (top k) q hp d = absurd (omega arith)
parent-data (slot i) (top l) hp d = ground arith
parent-data (slot i) (slot l) hp d = refl
parent-data (slot i) (table l) hp d = refl
parent-data (slot i) (cell l m) hp d = refl
parent-data (table i) (top l) hp d = ground arith
parent-data (table i) (slot l) hp d = refl
parent-data (table i) (table l) hp d = refl
parent-data (table i) (cell l m) hp d = refl
parent-data (cell i j) (top l) hp d = refl
parent-data (cell i j) (slot l) hp d = refl
parent-data (cell i j) (table l) hp d = absurd (omega arith)
parent-data (cell i j) (cell l m) hp d = refl

module _ (ip : Inode) (s : Fs) (p : Place) (b : ℕ) (t : Fs) (m : IsMapped ip s)
    (al : Allocated s b t) (i_p : IsPlace p) (hp : HasParent p) (has : addr ip s (parent p) ≢ 0)
    (empty : addr ip s p ≡ 0) where
  abbrev a : ℕ
  a = addr ip s (parent p)

  abbrev s' : Fs
  s' = note_write (addr ip s (parent p)) (set_word (addr ip s (parent p)) (index p) b t)

  owner : Owned s (addr ip s (parent p))
  owner = m.owned (parent p) (IsPlace-parent p i_p) has

  word-after : (c j : ℕ) → word s' c j ≡ (if (c == a) && (j == index p) then b else word t c j)
  unfolding word
  word-after c j = word-set_word t a (index p) b c j (omega (arith, al.inside, m.bound))

  through-after :
      (c j : ℕ)
      → (c ≢ 0 → Owned s c)
      → through s' c j ≡ (if (c == a) && (j == index p) then b else through s c j)
  unfolding through
  through-after c j o = elim (Bool-cases (c == 0)) [
    | inl e ↦ ground arith
    | inr e ↦ let old = through-old s b t al c j o in ground (arith, word-after c j)
  ]

  same-test : (q : Place) → IsPlace q → (addr ip s q == a) ≡ same_place q (parent p)
  same-test q iq = elim (Bool-cases (same_place q (parent p))) [
    | inl e ↦ let x = ap (addr ip s) (same_place→eq q (parent p) e) in ground arith
    | inr e ↦ elim (Bool-cases (addr ip s q == a)) [
      | inr ne ↦ ne ∙ sym e
      | inl eq ↦
          let x : a ≡ addr ip s q = ground arith in
          let y = m.injective (parent p) q (IsPlace-parent p i_p) iq has x in
          let z = same_place→eq (parent p) q y in
          let w : same_place q (parent p) ≡ true = rw z (same_place_refl q) in ground arith
    ]
  ]

  kid-after :
      (q : Place)
      → HasParent q
      → IsPlace q
      → addr ip s' (parent q) ≡ addr ip s (parent q)
      → addr ip s' q ≡ (if same_place q p then b else addr ip s q)
  kid-after q hq iq e =
      let ip_q = IsPlace-parent q iq in
      addr-parent ip s' q hq
      ∙ ap (λ c. through s' c (index q)) e
      ∙ through-after (addr ip s (parent q)) (index q) (m.owned (parent q) ip_q)
      ∙ ap
          (λ c. if c && (index q == index p) then b else through s (addr ip s (parent q)) (index q))
          (same-test (parent q) ip_q)
      ∙ ap (λ c. if c then b else through s (addr ip s (parent q)) (index q))
          (sym (same-parent p q hp hq))
      ∙ ap (λ c. if same_place q p then b else c) (sym (addr-parent ip s q hq))

  top-kept : (k : ℕ) → addr ip s' (top k) ≡ addr ip s (top k)
  unfolding addr
  top-kept k = refl

  top-differs : (k : ℕ) → same_place (top k) p ≡ false
  top-differs k = not_top p hp
    where
      not_top : (p : Place) → HasParent p → same_place (top k) p ≡ false
      not_top (top l) h = absurd (omega arith)
      not_top (slot l) h = refl
      not_top (table l) h = refl
      not_top (cell l n) h = refl

  b_ne_a : b ≢ a
  b_ne_a e = ground (arith, ap (used s) e, al.was_free, owner.in_use)

  fresh-after : (l : ℕ) → l < nindirect → through s' b l ≡ 0
  unfolding through
  fresh-after l lt = let old = through-fresh s b t al l lt in ground (arith, word-after b l, b_ne_a)

  through-zero : (l : ℕ) → through s 0 l ≡ 0
  unfolding through
  through-zero l = refl

  below_new :
      (j l : ℕ)
      → l < nindirect
      → table j ≡ p
      → addr ip s' (table j) ≡ b
      → addr ip s' (cell j l) ≡ (if same_place (cell j l) p then b else addr ip s (cell j l))
  below_new j l lt e here =
      let other : same_place (cell j l) p ≡ false = ap (same_place (cell j l)) (sym e) in
      let before : addr ip s (table j) ≡ 0 = ap (addr ip s) e ∙ empty in
      rw other (
        addr-parent ip s' (cell j l) (omega arith)
        ∙ ap (λ c. through s' c l) here
        ∙ fresh-after l lt
        ∙ sym (
            addr-parent ip s (cell j l) (omega arith)
            ∙ ap (λ c. through s c l) before
            ∙ through-zero l))

  addr-after : (q : Place) → IsPlace q → addr ip s' q ≡ (if same_place q p then b else addr ip s q)
  addr-after (top k) i = rw (top-differs k) (top-kept k)
  addr-after (slot j) i = kid-after (slot j) (omega arith) i (top-kept ndirect)
  addr-after (table j) i = kid-after (table j) (omega arith) i (top-kept (ndirect + 1))
  addr-after (cell j l) i =
      let up = kid-after (table j) (omega arith) (i.0) (top-kept (ndirect + 1)) in
      elim (Bool-cases (same_place (table j) p)) [
        | inr e ↦ kid-after (cell j l) (omega arith) i (up ∙ rw e refl)
        | inl e ↦ below_new j l (i.1) (same_place→eq (table j) p e) (up ∙ rw e refl)
      ]

  same_used : (c : ℕ) → c < s.sb.size → used s' c ≡ used t c
  unfolding used is_clear set_word
  same_used c lt =
      let away : bitmap_block t c ≢ a =
        λ e. owner.no_map c lt (sym e ∙ ap (λ x. c / 4096 + x.bmapstart) al.same_sb) in
      ground arith

  same_super : s'.sb ≡ s.sb
  unfolding set_word
  same_super = al.same_sb

  inner-Grown : Grown ip s p b ip s'
  inner-Grown = record {
    is_place = i_p;
    inside = al.inside;
    was_free = al.was_free;
    was_empty = empty;
    now_used = λ c lt. same_used c lt ∙ al.now_used c lt;
    same_sb = same_super;
    tops = m.tops;
    addrs = addr-after;
  }

  block-after : (c j : ℕ) → c ≢ a → s'.block c j ≡ t.block c j
  unfolding set_word
  block-after c j ne = ground arith

  data_ne_a : (q : Place) → IsPlace q → IsData q → addr ip s q ≢ a
  data_ne_a q iq d e =
      let y = m.injective (parent p) q (IsPlace-parent p i_p) iq has (sym e) in
      let z = same_place→eq (parent p) q y in
      let w : same_place q (parent p) ≡ true = rw z (same_place_refl q) in
      ground (arith, parent-data p q hp d)

  inner-Reached : Reached ip s p b ip s'
  inner-Reached = record {
    mapped = Grown-IsMapped ip ip s s' p b m inner-Grown;
    nonzero = λ e. ground (arith, ap (used s) e, al.was_free, m.boot);
    here = addr-after p i_p ∙ rw (same_place_refl p) refl;
    stays = λ ne. absurd (ne empty);
    kept = λ q i ne. addr-after q i ∙ rw ne refl;
    bytes = λ q i d ne j.
        block-after (addr ip s q) j (data_ne_a q i d)
        ∙ block-old s b t al (addr ip s q) j (m.owned q i ne);
    zeroed = λ _ j lt. ap (λ x. x % 256) (block-after b j b_ne_a) ∙ al.zeroed j lt;
    same_ip = refl;
    same_sb = same_super;
    spent = free_blocks-spent s s' b same_super (λ c lt. same_used c lt ∙ al.now_used c lt);
  }

-- `word_addr` reaches a place in a block that is there.
pub word_addr-Reached :
    (ip : Inode) (s : Fs) (p : Place) (x : ℕ) (s' : Fs)
    → IsMapped ip s
    → IsPlace p
    → HasParent p
    → addr ip s (parent p) ≢ 0
    → word_addr (addr ip s (parent p)) (index p) s ≡ some (x, s')
    → Reached ip s p x ip s'
unfolding word_addr
word_addr-Reached ip s p x s' m i hp has h =
    let here : addr ip s p ≡ word s (addr ip s (parent p)) (index p) =
      addr-parent ip s p hp ∙ (unfold through in ground arith) in
    elim (Bool-cases (word s (addr ip s (parent p)) (index p) == 0)) [
      | inr e ↦
          let r : ℕ × Fs = (word s (addr ip s (parent p)) (index p), s) in
          let q : some r ≡ some (x, s') = ground arith in
          subst (λ r. Reached ip s p r.0 ip r.1) (some_inj q)
            (subst (λ y. Reached ip s p y ip s) here (Reached-old ip s p m (λ z. ground arith)))
      | inl e ↦ elim (Option-cases (balloc s)) [
        | inl o ↦ ground arith
        | inr ((b, t), o) ↦
            let r : ℕ × Fs = (
              b,
              note_write (addr ip s (parent p)) (set_word (addr ip s (parent p)) (index p) b t),
            ) in
            let q : some r ≡ some (x, s') = ground arith in
            subst (λ r. Reached ip s p r.0 ip r.1) (some_inj q)
              (inner-Reached ip s p b t m (balloc-Allocated s b t m.bitmap o) i hp has
                (ground arith))
      ]
    ]
