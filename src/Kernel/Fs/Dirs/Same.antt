-- ===== src/Kernel/Fs/Dirs/Same.antt =====
-- namecmp of xv6-public/fs.c: when strncmp of string.c takes two names for the same.
use c_s_e_hanyang.Base.{
  ℕ, zero, suc, ◌+◌, ◌<◌, ◌≡◌, ◌≢◌, refl, ap, sym, ◌∙◌, true, false, not, ◌&&◌, ◌==◌, arith,
  Bool-cases, inl, inr,
}
use c_s_e_hanyang.Base.Int.{pos, sub_ℕ, eqb_ℤ}
use c_s_e_hanyang.Kernel.Strings.{Memory, strncmp}
use c_s_e_hanyang.Kernel.Fs.Dirs.{same_name}

-- Two names of at most `n` bytes are the same: their bytes are, up to the terminator of the first.
abbrev pub Agree : ℕ → (ℕ → ℕ) → (ℕ → ℕ) → Type 0
Agree n p q = (i : ℕ) → i < n → ((j : ℕ) → j < i → p j ≢ 0) → q i ≡ p i

pub same_name-ext :
    (n : ℕ) (p q r : ℕ → ℕ) → ((i : ℕ) → i < n → q i ≡ r i) → same_name n p q ≡ same_name n p r
unfolding same_name
same_name-ext zero p q r h = refl
same_name-ext (suc n) p q r h =
    rw
      (
        h 0 (omega arith),
        same_name-ext n (λ i. p (suc i)) (λ i. q (suc i)) (λ i. r (suc i))
            (λ i lt. h (suc i) (omega arith)),
      )
      refl

pub same_name-true : (n : ℕ) (p q : ℕ → ℕ) → same_name n p q ≡ true → Agree n p q
unfolding same_name
same_name-true zero p q h i lt open_ = absurd (omega arith)
same_name-true (suc n) p q h zero lt open_ = ground arith
same_name-true (suc n) p q h (suc i) lt open_ =
    let first : (p 0 == 0) ≡ false = ground (arith, open_ 0 (omega arith)) in
    same_name-true n (λ k. p (suc k)) (λ k. q (suc k)) (ground arith) i (omega arith)
      (λ j below. open_ (suc j) (omega arith))

pub same_name-Agree : (n : ℕ) (p q : ℕ → ℕ) → Agree n p q → same_name n p q ≡ true
unfolding same_name
same_name-Agree zero p q a = refl
same_name-Agree (suc n) p q a =
    let first : q 0 ≡ p 0 = a 0 (omega arith) (λ j below. absurd (omega arith)) in
    elim (Bool-cases (p 0 == 0)) [
      | inl e ↦ ground arith
      | inr e ↦
          let rest =
            same_name-Agree n (λ k. p (suc k)) (λ k. q (suc k))
              (λ i lt started. a (suc i) (omega arith) (λ j. elim j as (λ j. j < suc i → p j ≢ 0) [
                | zero ↦ (λ below z. ground arith)
                | suc m ↦ (λ below. started m (omega arith))
              ])) in
          ground arith
    ]

sub_ℕ-pos : (a b : ℕ) → eqb_ℤ (sub_ℕ a b) (pos 0) ≡ (a == b)
sub_ℕ-pos a b = ground arith

strncmp_lem :
    (n : ℕ) (f g : ℕ → ℕ) (p q : ℕ) (mem : Memory)
    → ((i : ℕ) → f i ≡ mem (p + i))
    → ((i : ℕ) → g i ≡ mem (q + i))
    → same_name n f g ≡ eqb_ℤ (strncmp p q n mem) (pos 0)
unfolding same_name strncmp
strncmp_lem zero f g p q mem ef eg = refl
strncmp_lem (suc n) f g p q mem ef eg =
    let e₀ : f 0 ≡ mem p = ef 0 ∙ ap mem (omega arith) in
    let e₁ : g 0 ≡ mem q = eg 0 ∙ ap mem (omega arith) in
    let rest =
      strncmp_lem n (λ i. f (suc i)) (λ i. g (suc i)) (suc p) (suc q) mem
        (λ i. ef (suc i) ∙ ap mem (omega arith)) (λ i. eg (suc i) ∙ ap mem (omega arith)) in
    elim (Bool-cases (not (mem p == 0) && (mem p == mem q))) [
      | inl more ↦ rw (e₀, e₁, more) rest
      | inr stop ↦ rw (e₀, e₁, stop) (sym (sub_ℕ-pos (mem p) (mem q)))
    ]

-- It is the comparison of string.c.
pub same_name-strncmp :
    (n p q : ℕ) (mem : Memory)
    → same_name n (λ i. mem (p + i)) (λ i. mem (q + i)) ≡ eqb_ℤ (strncmp p q n mem) (pos 0)
same_name-strncmp n p q mem = strncmp_lem n _ _ p q mem (λ i. refl) (λ i. refl)
