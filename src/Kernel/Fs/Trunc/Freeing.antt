-- ===== src/Kernel/Fs/Trunc/Freeing.antt =====
-- What the disk of xv6-public/fs.c looks like while itrunc frees the blocks of an inode.
use c_s_e_hanyang.Base.{
  ℕ, ◌+◌, ◌/◌, ◌<◌, ◌≡◌, ◌≢◌, refl, ap, sym, ◌∙◌, Bool, false, not, ◌||◌, ◌==◌, arith, Bool-cases,
  some, inl, inr,
}
use c_s_e_hanyang.Kernel.Fs.{Fs, bitmap_block, bfree}
use c_s_e_hanyang.Kernel.Fs.Blocks.{used}
use c_s_e_hanyang.Kernel.Fs.Blocks.Free.{Freed, bfree-Freed}
use c_s_e_hanyang.Kernel.Fs.Bmap.{Inode, word}
use c_s_e_hanyang.Kernel.Fs.Bmap.Words.{word-kept}
use c_s_e_hanyang.Kernel.Fs.Bmap.Places.{
  Place, IsPlace, same_place, addr, through, IsMapped, HasParent, parent, index,
}
use c_s_e_hanyang.Kernel.Fs.Bmap.Grow.{same_place→eq}
use c_s_e_hanyang.Kernel.Fs.Bmap.Inner.{IsPlace-parent, addr-parent}
use c_s_e_hanyang.Kernel.Fs.Trunc.{free_addr}

-- The blocks at the places of `done` are free; every other block is as it was.
pub record Freeing (ip : Inode) (s : Fs) (done : Place → Bool) (t : Fs) : Type 0 where
  pub same_sb : t.sb ≡ s.sb
  pub live : (p : Place) → IsPlace p → addr ip s p ≢ 0 → used t (addr ip s p) ≡ not (done p)
  pub others :
      (c : ℕ) → ((p : Place) → IsPlace p → addr ip s p ≢ 0 → addr ip s p ≢ c) → used t c ≡ used s c
  pub kept :
      (c j : ℕ) → ((x : ℕ) → x < s.sb.size → c ≢ bitmap_block s x) → t.block c j ≡ s.block c j

module _ (ip : Inode) (s : Fs) (m : IsMapped ip s) where
  pub Freeing-start : Freeing ip s (λ p. false) s
  Freeing-start = record {
    same_sb = refl;
    live = λ p i ne. (m.owned p i ne).in_use;
    others = λ c h. refl;
    kept = λ c j h. refl;
  }

  pub Freeing-ext :
      (done done' : Place → Bool) (t : Fs)
      → Freeing ip s done t
      → ((p : Place) → IsPlace p → addr ip s p ≢ 0 → done p ≡ done' p)
      → Freeing ip s done' t
  Freeing-ext done done' t f e = record {
    same_sb = f.same_sb;
    live = λ p i ne. f.live p i ne ∙ ap not (e p i ne);
    others = f.others;
    kept = f.kept;
  }

  addr_test :
      (p q : Place)
      → IsPlace p
      → IsPlace q
      → addr ip s p ≢ 0
      → (addr ip s p == addr ip s q) ≡ same_place p q
  addr_test p q i j ne = elim (Bool-cases (same_place p q)) [
    | inl e ↦ let z = ap (addr ip s) (same_place→eq p q e) in ground arith
    | inr e ↦ elim (Bool-cases (addr ip s p == addr ip s q)) [
      | inr f ↦ f ∙ sym e
      | inl f ↦
          let z : addr ip s p ≡ addr ip s q = ground arith in f ∙ sym (m.injective p q i j ne z)
    ]
  ]

  module _ (done : Place → Bool) (t : Fs) (f : Freeing ip s done t) where
    same_bitmap : (c : ℕ) → bitmap_block t c ≡ bitmap_block s c
    same_bitmap c = ap (λ b. c / 4096 + b.bmapstart) f.same_sb

    bfree_live :
        (p : Place) (t' : Fs)
        → IsPlace p
        → addr ip s p ≢ 0
        → Freed t (addr ip s p) t'
        → Freeing ip s (λ q. done q || same_place q p) t'
    bfree_live p t' i ne r = record {
      same_sb = r.same_sb ∙ f.same_sb;
      live =
          λ q j nq. r.now_used (addr ip s q) ∙ ground (arith, f.live q j nq, addr_test q p j i nq);
      others = λ c h. r.now_used c ∙ ground (arith, f.others c h, h p i ne);
      kept = λ c j h.
          r.kept c j (λ e. h (addr ip s p) (m.owned p i ne).inside (e ∙ same_bitmap (addr ip s p)))
          ∙ f.kept c j h;
    }

    module _ (p : Place) (i : IsPlace p) (done' : Place → Bool)
        (next : (q : Place) → IsPlace q → (done q || same_place q p) ≡ done' q) where
      -- There is nothing to free at an empty place.
      pub skip-Freeing : addr ip s p ≡ 0 → Freeing ip s done' t
      skip-Freeing e = Freeing-ext done done' t f (λ q j nq. elim (Bool-cases (same_place q p)) [
        | inr n ↦ ground (arith, next q j)
        | inl y ↦ let z = ap (addr ip s) (same_place→eq q p y) in absurd (nq (z ∙ e))
      ])

      -- A block that is still there can be freed.
      pub bfree-Freeing :
          addr ip s p ≢ 0
          → done p ≡ false
          → (t' : Fs) × (bfree (addr ip s p) t ≡ some t') × Freeing ip s done' t'
      bfree-Freeing ne d = elim (bfree-Freed (addr ip s p) t) [
        | inl (_, u) ↦ ground (arith, f.live p i ne)
        | inr (t', o, r) ↦ (
          t',
          o,
          Freeing-ext (λ q. done q || same_place q p) done' t' (bfree_live p t' i ne r)
              (λ q j nq. next q j),
        )
      ]

      pub free_addr-Freeing :
          done p ≡ false → (t' : Fs) × (free_addr (addr ip s p) t ≡ some t') × Freeing ip s done' t'
      unfolding free_addr
      free_addr-Freeing d = elim (Bool-cases (addr ip s p == 0)) [
        | inr e ↦ let (t', o, r) = bfree-Freeing (λ z. ground arith) d in (t', rw e o, r)
        | inl e ↦ (t, rw e refl, skip-Freeing (ground arith))
      ]

    -- The numbers in the inode's blocks can still be read.
    pub child-word :
        (p : Place)
        → IsPlace p
        → HasParent p
        → addr ip s (parent p) ≢ 0
        → word t (addr ip s (parent p)) (index p) ≡ addr ip s p
    child-word p i h ne =
        let o = m.owned (parent p) (IsPlace-parent p i) ne in
        word-kept s t (addr ip s (parent p)) (index p)
          (λ j. f.kept (addr ip s (parent p)) j o.no_map)
        ∙ sym (addr-parent ip s p h ∙ (unfold through in ground arith))
