-- ===== src/Kernel/Fs/Trunc/Loops.antt =====
-- The loops of itrunc of xv6-public/fs.c.
use mathlib.Core.Path.{subst}
use c_s_e_hanyang.Base.{
  ℕ, zero, suc, ◌+◌, ◌≤◌, ◌<◌, ◌≡◌, refl, ap, sym, ◌∙◌, Bool, ◌&&◌, ◌||◌, ltb, ◌==◌, get_or, length,
  length-set, get_or-set_self, get_or-set_ne, arith, Bool-cases, some, inl, inr,
}
use c_s_e_hanyang.Kernel.Fs.{Fs, bfree}
use c_s_e_hanyang.Kernel.Fs.Bmap.{Inode, ndirect, nindirect}
use c_s_e_hanyang.Kernel.Fs.Bmap.Places.{
  Place, top, slot, table, cell, IsPlace, same_place, addr, IsMapped, strip,
}
use c_s_e_hanyang.Kernel.Fs.Trunc.{clear, free_direct}
use c_s_e_hanyang.Kernel.Fs.Trunc.Freeing.{Freeing, skip-Freeing, bfree-Freeing}

-- How far itrunc is: in the inode, in the indirect block, in the doubly indirect block, and in the block
-- of its table `c`.
abbrev pub stage : ℕ → ℕ → ℕ → ℕ → Place → Bool
stage a b c l (top j) = ltb j a
stage a b c l (slot j) = ltb j b
stage a b c l (table j) = ltb j c
stage a b c l (cell i m) = ltb i c || (i == c && ltb m l)

pub stage-top :
    (k b c l : ℕ) (q : Place) → (stage k b c l q || same_place q (top k)) ≡ stage (suc k) b c l q
stage-top k b c l (top j) = ground arith
stage-top k b c l (slot j) = ground arith
stage-top k b c l (table j) = ground arith
stage-top k b c l (cell i j) = ground arith

pub stage-slot :
    (a k c l : ℕ) (q : Place) → (stage a k c l q || same_place q (slot k)) ≡ stage a (suc k) c l q
stage-slot a k c l (top j) = ground arith
stage-slot a k c l (slot j) = ground arith
stage-slot a k c l (table j) = ground arith
stage-slot a k c l (cell i j) = ground arith

pub stage-cell :
    (a b c l : ℕ) (q : Place) → (stage a b c l q || same_place q (cell c l)) ≡ stage a b c (suc l) q
stage-cell a b c l (top j) = ground arith
stage-cell a b c l (slot j) = ground arith
stage-cell a b c l (table j) = ground arith
stage-cell a b c l (cell i j) = ground arith

pub stage-table :
    (a b c : ℕ) (q : Place)
    → IsPlace q
    → (stage a b c nindirect q || same_place q (table c)) ≡ stage a b (suc c) 0 q
stage-table a b c (top j) i = ground arith
stage-table a b c (slot j) i = ground arith
stage-table a b c (table j) i = ground arith
stage-table a b c (cell k j) i = let lt = i.1 in ground arith

-- The inode in memory: the numbers under `k` are 0, the others as they were.
pub record Cleared (ip : Inode) (k : ℕ) (ip' : Inode) : Type 0 where
  pub gone : (j : ℕ) → j < k → get_or ip'.addrs j 0 ≡ 0
  pub rest : (j : ℕ) → k ≤ j → get_or ip'.addrs j 0 ≡ get_or ip.addrs j 0
  pub tops : length ip'.addrs ≡ ndirect + 2
  pub same_ip : strip ip' ≡ strip ip

pub Cleared-empty :
    (ip : Inode) (k : ℕ) (ip' : Inode)
    → Cleared ip k ip'
    → get_or ip'.addrs k 0 ≡ 0
    → Cleared ip (suc k) ip'
Cleared-empty ip k ip' c e = record {
  gone = λ j lt. elim (Bool-cases (j == k)) [
    | inl h ↦ let z : j ≡ k = ground arith in rw z e
    | inr h ↦ c.gone j (ground arith)
  ];
  rest = λ j le. c.rest j (omega arith);
  tops = c.tops;
  same_ip = c.same_ip;
}

pub Cleared-clear :
    (ip : Inode) (k : ℕ) (ip' : Inode)
    → Cleared ip k ip'
    → k < ndirect + 2
    → Cleared ip (suc k) (clear k ip')
Cleared-clear ip k ip' c lt = record {
  gone = λ j le. elim (Bool-cases (j == k)) [
    | inl h ↦
        let z : j ≡ k = ground arith in
        rw z (get_or-set_self ip'.addrs k 0 0 (omega (arith, c.tops)))
    | inr h ↦ get_or-set_ne ip'.addrs k j 0 0 (ground arith) ∙ c.gone j (ground arith)
  ];
  rest = λ j le. get_or-set_ne ip'.addrs k j 0 0 (omega arith) ∙ c.rest j (omega arith);
  tops = length-set ip'.addrs k 0 ∙ c.tops;
  same_ip = c.same_ip;
}

module _ (ip : Inode) (s : Fs) (m : IsMapped ip s) where
  top-addr : (k : ℕ) → addr ip s (top k) ≡ get_or ip.addrs k 0
  unfolding addr
  top-addr k = refl

  pub free_direct-Freeing :
      (n k : ℕ) (ip' : Inode) (t : Fs)
      → k + n ≡ ndirect
      → Cleared ip k ip'
      → Freeing ip s (stage k 0 0 0) t
      → (ip'' : Inode) × (t' : Fs) × (free_direct n k ip' t ≡ some (ip'', t'))
        × Cleared ip ndirect ip''
        × Freeing ip s (stage ndirect 0 0 0) t'
  unfolding free_direct
  free_direct-Freeing zero k ip' t e c f =
      let z : k ≡ ndirect = omega arith in
      (
        ip',
        t,
        refl,
        subst (λ x. Cleared ip x ip') z c,
        subst (λ x. Freeing ip s (stage x 0 0 0) t) z f,
      )
  free_direct-Freeing (suc n) k ip' t e c f =
      let here : addr ip s (top k) ≡ get_or ip'.addrs k 0 =
        top-addr k ∙ sym (c.rest k (omega arith)) in
      let next : (q : Place)
          → IsPlace q
          → (stage k 0 0 0 q || same_place q (top k)) ≡ stage (suc k) 0 0 0 q =
        λ q _. stage-top k 0 0 0 q in
      elim (Bool-cases (get_or ip'.addrs k 0 == 0)) [
        | inl z ↦
            let g : Freeing ip s (stage (suc k) 0 0 0) t =
              skip-Freeing ip s m (stage k 0 0 0) t f (top k) (omega arith) (stage (suc k) 0 0 0)
                next (ground arith) in
            let (ip₂, t₂, o, c₂, f₂) =
              free_direct-Freeing n (suc k) ip' t (omega arith)
                (Cleared-empty ip k ip' c (ground arith)) g in
            (ip₂, t₂, rw z o, c₂, f₂)
        | inr z ↦
            let (t₁, b, g) =
              bfree-Freeing ip s m (stage k 0 0 0) t f (top k) (omega arith) (stage (suc k) 0 0 0)
                next (λ y. ground arith) (ground arith) in
            let (ip₂, t₂, o, c₂, f₂) =
              free_direct-Freeing n (suc k) (clear k ip') t₁ (omega arith)
                (Cleared-clear ip k ip' c (omega arith)) g in
            let b' : bfree (get_or ip'.addrs k 0) t ≡ some t₁ =
              ap (λ x. bfree x t) (sym here) ∙ b in
            (ip₂, t₂, rw (z, b') o, c₂, f₂)
      ]
