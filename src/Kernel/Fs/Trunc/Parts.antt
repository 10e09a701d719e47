-- ===== src/Kernel/Fs/Trunc/Parts.antt =====
-- The three parts of itrunc of xv6-public/fs.c: the direct, the indirect and the doubly indirect blocks.
use c_s_e_hanyang.Base.{
  ◌+◌, ◌≡◌, ◌≢◌, refl, ap, sym, ◌∙◌, true, false, ◌==◌, get_or, arith, Bool-cases, some, inl, inr,
}
use c_s_e_hanyang.Kernel.Fs.{Fs, bfree}
use c_s_e_hanyang.Kernel.Fs.Bmap.{Inode, ndirect, nindirect}
use c_s_e_hanyang.Kernel.Fs.Bmap.Places.{Place, top, slot, table, cell, addr, through, IsMapped}
use c_s_e_hanyang.Kernel.Fs.Trunc.{
  clear, free_words, free_indirect, free_tables, drop_double, free_double,
}
use c_s_e_hanyang.Kernel.Fs.Trunc.Freeing.{Freeing, Freeing-ext, bfree-Freeing}
use c_s_e_hanyang.Kernel.Fs.Trunc.Loops.{stage, stage-top, Cleared, Cleared-empty, Cleared-clear}
use c_s_e_hanyang.Kernel.Fs.Trunc.Words.{slots, free_words-Freeing, free_tables-Freeing}

double_step :
    (ip : Inode) (t t₁ : Fs)
    → (get_or ip.addrs (ndirect + 1) 0 == 0) ≡ false
    → free_tables nindirect 0 (get_or ip.addrs (ndirect + 1) 0) t ≡ some t₁
    → free_double ip t ≡ some (clear (ndirect + 1) ip, t₁)
unfolding free_double drop_double
double_step ip t t₁ z w = rw z (ap (drop_double ip) w)

double_empty :
    (ip : Inode) (t : Fs)
    → (get_or ip.addrs (ndirect + 1) 0 == 0) ≡ true
    → free_double ip t ≡ some (ip, t)
unfolding free_double
double_empty ip t z = rw z refl

module _ (ip : Inode) (s : Fs) (m : IsMapped ip s) where
  -- Without the indirect block there are no slots.
  no_slots :
      (q : Place)
      → addr ip s (top ndirect) ≡ 0
      → addr ip s q ≢ 0
      → stage ndirect 0 0 0 q ≡ stage (ndirect + 1) nindirect 0 0 q
  unfolding addr through
  no_slots (top j) z ne = elim (Bool-cases (j == ndirect)) [
    | inl e ↦
        let y : j ≡ ndirect = ground arith in absurd (ne (ap (λ k. get_or ip.addrs k 0) y ∙ z))
    | inr e ↦ ground arith
  ]
  no_slots (slot j) z ne = absurd (ne (ap (λ a. through s a j) z))
  no_slots (table j) z ne = refl
  no_slots (cell i j) z ne = refl

  pub indirect-Freeing :
      (ip' : Inode) (t : Fs)
      → Cleared ip ndirect ip'
      → Freeing ip s (stage ndirect 0 0 0) t
      → (ip'' : Inode) × (t' : Fs) × (free_indirect ip' t ≡ some (ip'', t'))
        × Cleared ip (ndirect + 1) ip''
        × Freeing ip s (stage (ndirect + 1) nindirect 0 0) t'
  unfolding free_indirect addr
  indirect-Freeing ip' t c f =
      let here : addr ip s (top ndirect) ≡ get_or ip'.addrs ndirect 0 =
        sym (c.rest ndirect (omega arith)) in
      elim (Bool-cases (get_or ip'.addrs ndirect 0 == 0)) [
        | inl z ↦ (
          ip',
          t,
          rw z refl,
          Cleared-empty ip ndirect ip' c (ground arith),
          Freeing-ext ip s m (stage ndirect 0 0 0) (stage (ndirect + 1) nindirect 0 0) t f
              (λ q i ne. no_slots q (ground arith) ne),
        )
        | inr z ↦
            let nz : addr ip s (top ndirect) ≢ 0 = λ y. ground arith in
            let (t₁, w, g) =
              free_words-Freeing ip s m (top ndirect) slot (λ b. stage ndirect b 0 0) (slots ip s m)
                nz nindirect 0 t (omega arith) f in
            let (t₂, b, h) =
              bfree-Freeing ip s m (stage ndirect nindirect 0 0) t₁ g (top ndirect) (omega arith)
                (stage (ndirect + 1) nindirect 0 0) (λ q _. stage-top ndirect nindirect 0 0 q) nz
                refl in
            let w' : free_words nindirect 0 (get_or ip'.addrs ndirect 0) t ≡ some t₁ =
              ap (λ a. free_words nindirect 0 a t) (sym here) ∙ w in
            let b' : bfree (get_or ip'.addrs ndirect 0) t₁ ≡ some t₂ =
              ap (λ a. bfree a t₁) (sym here) ∙ b in
            (
              clear ndirect ip',
              t₂,
              rw (z, w', b') refl,
              Cleared-clear ip ndirect ip' c (omega arith),
              h,
            )
      ]

  -- Without the doubly indirect block there are no tables and no cells.
  no_tables :
      (q : Place)
      → addr ip s (top (ndirect + 1)) ≡ 0
      → addr ip s q ≢ 0
      → stage (ndirect + 1) nindirect 0 0 q ≡ stage (ndirect + 1) nindirect nindirect 0 q
  unfolding addr through
  no_tables (top j) z ne = refl
  no_tables (slot j) z ne = refl
  no_tables (table j) z ne = absurd (ne (ap (λ a. through s a j) z))
  no_tables (cell i j) z ne = absurd (ne (ap (λ a. through s (through s a i) j) z))

  pub double-Freeing :
      (ip' : Inode) (t : Fs)
      → Cleared ip (ndirect + 1) ip'
      → Freeing ip s (stage (ndirect + 1) nindirect 0 0) t
      → (ip'' : Inode) × (t' : Fs) × (free_double ip' t ≡ some (ip'', t'))
        × Cleared ip (ndirect + 2) ip''
        × Freeing ip s (stage (ndirect + 1) nindirect nindirect 0) t'
  unfolding addr
  double-Freeing ip' t c f =
      let here : addr ip s (top (ndirect + 1)) ≡ get_or ip'.addrs (ndirect + 1) 0 =
        sym (c.rest (ndirect + 1) (omega arith)) in
      elim (Bool-cases (get_or ip'.addrs (ndirect + 1) 0 == 0)) [
        | inl z ↦ (
          ip',
          t,
          double_empty ip' t z,
          Cleared-empty ip (ndirect + 1) ip' c (ground arith),
          Freeing-ext ip s m (stage (ndirect + 1) nindirect 0 0)
              (stage (ndirect + 1) nindirect nindirect 0) t f
              (λ q i ne. no_tables q (ground arith) ne),
        )
        | inr z ↦
            let (t₁, w, g) =
              free_tables-Freeing ip s m nindirect 0 t (omega arith) (λ y. ground arith) f in
            let w' : free_tables nindirect 0 (get_or ip'.addrs (ndirect + 1) 0) t ≡ some t₁ =
              ap (λ a. free_tables nindirect 0 a t) (sym here) ∙ w in
            (
              clear (ndirect + 1) ip',
              t₁,
              double_step ip' t t₁ z w',
              Cleared-clear ip (ndirect + 1) ip' c (omega arith),
              g,
            )
      ]
