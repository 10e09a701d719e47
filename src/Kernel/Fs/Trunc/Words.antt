-- ===== src/Kernel/Fs/Trunc/Words.antt =====
-- The loops of itrunc of xv6-public/fs.c over the numbers in a block.
use mathlib.Core.Path.{subst}
use c_s_e_hanyang.Base.{
  ℕ, zero, suc, ◌+◌, ◌<◌, ◌≡◌, ◌≢◌, refl, ap, sym, ◌∙◌, Bool, false, ◌||◌, ◌==◌, arith, Bool-cases,
  Option, none, some, inl, inr,
}
use c_s_e_hanyang.Kernel.Fs.{Fs, bfree}
use c_s_e_hanyang.Kernel.Fs.Bmap.{Inode, word, ndirect, nindirect}
use c_s_e_hanyang.Kernel.Fs.Bmap.Places.{
  Place, top, slot, table, cell, IsPlace, same_place, addr, through, IsMapped, HasParent, parent,
  index,
}
use c_s_e_hanyang.Kernel.Fs.Trunc.{free_addr, free_words, free_tables}
use c_s_e_hanyang.Kernel.Fs.Trunc.Freeing.{
  Freeing, Freeing-ext, bfree-Freeing, free_addr-Freeing, child-word,
}
use c_s_e_hanyang.Kernel.Fs.Trunc.Loops.{stage, stage-slot, stage-cell, stage-table}

-- The places in one block, and the stages in which they are freed.
pub record Row (up : Place) (at : ℕ → Place) (st : ℕ → Place → Bool) : Type 0 where
  pub is_place : (j : ℕ) → j < nindirect → IsPlace (at j)
  pub has_parent : (j : ℕ) → HasParent (at j)
  pub parent_eq : (j : ℕ) → parent (at j) ≡ up
  pub index_eq : (j : ℕ) → index (at j) ≡ j
  pub not_yet : (j : ℕ) → st j (at j) ≡ false
  pub next : (j : ℕ) (q : Place) → (st j q || same_place q (at j)) ≡ st (suc j) q

free_words_step :
    (n j b : ℕ) (t t' : Fs) (o : Option Fs)
    → free_addr (word t b j) t ≡ some t'
    → free_words n (suc j) b t' ≡ o
    → free_words (suc n) j b t ≡ o
unfolding free_words
free_words_step n j b t t' o h rest =
    ap (λ x. elim x [ none ↦ none | some s' ↦ free_words n (suc j) b s' ]) h ∙ rest

table_waits : (j : ℕ) → stage (ndirect + 1) nindirect j nindirect (table j) ≡ false
table_waits j = ground arith

free_tables_step :
    (n j b : ℕ) (t t₁ t₂ : Fs) (o : Option Fs)
    → (word t b j == 0) ≡ false
    → free_words nindirect 0 (word t b j) t ≡ some t₁
    → bfree (word t₁ b j) t₁ ≡ some t₂
    → free_tables n (suc j) b t₂ ≡ o
    → free_tables (suc n) j b t ≡ o
unfolding free_tables
free_tables_step n j b t t₁ t₂ o z w f rest = rw (z, w, f) rest

module _ (ip : Inode) (s : Fs) (m : IsMapped ip s) where
  number_at :
      (up : Place) (at : ℕ → Place) (st : ℕ → Place → Bool) (row : Row up at st)
      (done : Place → Bool) (t : Fs) (j : ℕ)
      → Freeing ip s done t
      → addr ip s up ≢ 0
      → j < nindirect
      → word t (addr ip s up) j ≡ addr ip s (at j)
  number_at up at st row done t j f ne lt =
      let e : addr ip s (parent (at j)) ≡ addr ip s up = ap (addr ip s) (row.parent_eq j) in
      ap (λ a. word t a j) (sym e)
      ∙ ap (word t (addr ip s (parent (at j)))) (sym (row.index_eq j))
      ∙ child-word ip s m done t f (at j) (row.is_place j lt) (row.has_parent j)
          (λ z. ne (sym e ∙ z))

  pub free_words-Freeing :
      (up : Place) (at : ℕ → Place) (st : ℕ → Place → Bool)
      → Row up at st
      → addr ip s up ≢ 0
      → (n j : ℕ) (t : Fs) → j + n ≡ nindirect
      → Freeing ip s (st j) t
      → (t' : Fs) × (free_words n j (addr ip s up) t ≡ some t') × Freeing ip s (st nindirect) t'
  free_words-Freeing up at st row ne zero j t e f =
      let z : j ≡ nindirect = omega arith in
      (t, unfold free_words in refl, subst (λ x. Freeing ip s (st x) t) z f)
  free_words-Freeing up at st row ne (suc n) j t e f =
      let here = number_at up at st row (st j) t j f ne (omega arith) in
      let (t₁, o, g) =
        free_addr-Freeing ip s m (st j) t f (at j) (row.is_place j (omega arith)) (st (suc j))
          (λ q _. row.next j q) (row.not_yet j) in
      let (t₂, rest, h) = free_words-Freeing up at st row ne n (suc j) t₁ (omega arith) g in
      (
        t₂,
        free_words_step n j (addr ip s up) t t₁ (some t₂) (ap (λ x. free_addr x t) here ∙ o) rest,
        h,
      )

  cells : (c : ℕ) → c < nindirect → Row (table c) (cell c) (stage (ndirect + 1) nindirect c)
  cells c lt = record {
    is_place = λ j lj. (lt, lj);
    has_parent = λ j. omega arith;
    parent_eq = λ j. refl;
    index_eq = λ j. refl;
    not_yet = λ j. ground arith;
    next = λ j q. stage-cell (ndirect + 1) nindirect c j q;
  }

  -- A table that is missing has no cells.
  no_table :
      (c : ℕ) (q : Place)
      → addr ip s (table c) ≡ 0
      → addr ip s q ≢ 0
      → stage (ndirect + 1) nindirect c 0 q ≡ stage (ndirect + 1) nindirect (suc c) 0 q
  unfolding addr through
  no_table c (top j) z ne = refl
  no_table c (slot j) z ne = refl
  no_table c (table j) z ne = elim (Bool-cases (j == c)) [
    | inl e ↦ let y : j ≡ c = ground arith in absurd (ne (ap (λ k. addr ip s (table k)) y ∙ z))
    | inr e ↦ ground arith
  ]
  no_table c (cell i j) z ne = elim (Bool-cases (i == c)) [
    | inl e ↦
        let y : i ≡ c = ground arith in
        absurd (ne (ap (λ k. through s (addr ip s (table k)) j) y ∙ ap (λ a. through s a j) z))
    | inr e ↦ ground arith
  ]

  pub slots : Row (top ndirect) slot (λ b. stage ndirect b 0 0)
  slots = record {
    is_place = λ j lj. lj;
    has_parent = λ j. omega arith;
    parent_eq = λ j. refl;
    index_eq = λ j. refl;
    not_yet = λ j. ground arith;
    next = λ j q. stage-slot ndirect j 0 0 q;
  }

  pub free_tables-Freeing :
      (n j : ℕ) (t : Fs)
      → j + n ≡ nindirect
      → addr ip s (top (ndirect + 1)) ≢ 0
      → Freeing ip s (stage (ndirect + 1) nindirect j 0) t
      → (t' : Fs) × (free_tables n j (addr ip s (top (ndirect + 1))) t ≡ some t')
        × Freeing ip s (stage (ndirect + 1) nindirect nindirect 0) t'
  unfolding free_tables
  free_tables-Freeing zero j t e ne f =
      let z : j ≡ nindirect = omega arith in
      (t, refl, subst (λ x. Freeing ip s (stage (ndirect + 1) nindirect x 0) t) z f)
  free_tables-Freeing (suc n) j t e ne f =
      let st = stage (ndirect + 1) nindirect j 0 in
      let here = child-word ip s m st t f (table j) (omega arith) (omega arith) ne in
      elim (Bool-cases (addr ip s (table j) == 0)) [
        | inl z ↦
            let g =
              Freeing-ext ip s m st (stage (ndirect + 1) nindirect (suc j) 0) t f
                (λ q i nq. no_table j q (ground arith) nq) in
            let (t₂, o, h) = free_tables-Freeing n (suc j) t (omega arith) ne g in
            (t₂, rw (here, z) o, h)
        | inr z ↦
            let nz : addr ip s (table j) ≢ 0 = λ y. ground arith in
            let (t₁, w, g) =
              free_words-Freeing (table j) (cell j) (stage (ndirect + 1) nindirect j)
                (cells j (omega arith)) nz nindirect 0 t (omega arith) f in
            let here₁ =
              child-word ip s m (stage (ndirect + 1) nindirect j nindirect) t₁ g (table j)
                (omega arith) (omega arith) ne in
            let (t₂, b, h) =
              bfree-Freeing ip s m (stage (ndirect + 1) nindirect j nindirect) t₁ g (table j)
                (omega arith) (stage (ndirect + 1) nindirect (suc j) 0)
                (stage-table (ndirect + 1) nindirect j) nz (table_waits j) in
            let (t₃, o, k) = free_tables-Freeing n (suc j) t₂ (omega arith) ne h in
            (
              t₃,
              free_tables_step n j (addr ip s (top (ndirect + 1))) t t₁ t₂ (some t₃) (rw here z)
                  (ap (λ x. free_words nindirect 0 x t) here ∙ w) (ap (λ x. bfree x t₁) here₁ ∙ b)
                  o,
              k,
            )
      ]
