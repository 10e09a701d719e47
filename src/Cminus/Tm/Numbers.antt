-- ===== src/Cminus/Tm/Numbers.antt =====
-- getNum of tm.c ends: the fuel of its model is enough.
use c_s_e_hanyang.Base.{
  ℕ, zero, suc, ◌+◌, ◌-◌, ◌*◌, ◌≤◌, ◌<◌, ◌≡◌, refl, Bool, true, false, not, List, [], ◌∷◌, length,
  arith, Bool-cases, inl, inr,
}
use c_s_e_hanyang.Base.Int.{ℤ, pos}
use c_s_e_hanyang.Cminus.Tm.Line.{non_blank, signs, digits, next_is_sign, sum_terms, get_num}

length-non_blank : (cs : List ℕ) → length (non_blank cs) ≤ length cs
unfolding non_blank
length-non_blank [] = omega arith
length-non_blank (c ∷ cs) = ground (arith, length-non_blank cs)

length-signs : (neg seen : Bool) (cs : List ℕ) → length (signs neg seen cs).2 ≤ length cs
unfolding signs
length-signs neg seen [] = omega arith
length-signs neg seen (c ∷ cs) =
    ground
      (arith, length-signs neg seen cs, length-signs neg true cs, length-signs (not neg) true cs)

length-signs_sign :
    (neg seen : Bool) (cs : List ℕ)
    → next_is_sign cs ≡ true
    → length (signs neg seen cs).2 < length cs
unfolding signs
length-signs_sign neg seen [] h = ground arith
length-signs_sign neg seen (c ∷ cs) h =
    ground
      (arith, length-signs neg seen cs, length-signs neg true cs, length-signs (not neg) true cs)

length-digits : (term : ℕ) (seen : Bool) (cs : List ℕ) → length (digits term seen cs).2 ≤ length cs
unfolding digits
length-digits term seen [] = omega arith
length-digits term seen (c ∷ cs) = ground (arith, length-digits (term * 10 + (c - b'0')) true cs)

-- What a turn of the outer loop leaves of the line.
after_term : List ℕ → List ℕ
after_term cs = non_blank (digits 0 false (signs false false cs).2).2

length-after_term : (cs : List ℕ) → length (after_term cs) ≤ length cs
unfolding after_term
length-after_term cs = omega (
  arith,
  length-non_blank (digits 0 false (signs false false cs).2).2,
  length-digits 0 false (signs false false cs).2,
  length-signs false false cs,
)

length-after_term_sign : (cs : List ℕ) → next_is_sign cs ≡ true → length (after_term cs) < length cs
unfolding after_term
length-after_term_sign cs h = omega (
  arith,
  length-non_blank (digits 0 false (signs false false cs).2).2,
  length-digits 0 false (signs false false cs).2,
  length-signs_sign false false cs h,
)

no_sign : (cs : List ℕ) → length cs ≤ 0 → next_is_sign cs ≡ true → 1 ≤ 0
no_sign [] l h = ground arith
no_sign (c ∷ cs) l h = omega arith

sum_terms-fuel_sign :
    (f g : ℕ) (num : ℤ) (ok : Bool) (cs : List ℕ)
    → next_is_sign cs ≡ true
    → length cs ≤ f
    → length cs ≤ g
    → sum_terms f num ok cs ≡ sum_terms g num ok cs
unfolding sum_terms after_term
sum_terms-fuel_sign zero g num ok cs h lf lg = absurd (omega (arith, no_sign cs lf h))
sum_terms-fuel_sign (suc f) zero num ok cs h lf lg = absurd (omega (arith, no_sign cs lg h))
sum_terms-fuel_sign (suc f) (suc g) num ok cs h lf lg =
    elim (Bool-cases (next_is_sign (after_term cs))) [
      | inl more ↦ rw more (
          sum_terms-fuel_sign f g _ _ (after_term cs) more
            (omega (arith, length-after_term_sign cs h))
            (omega (arith, length-after_term_sign cs h)))
      | inr end ↦ rw end refl
    ]

-- getNum gives the same on any fuel above the length of the line, so its loop has ended by then.
pub get_num-fuel :
    (fuel : ℕ) (cs : List ℕ) → length cs < fuel → sum_terms fuel (pos 0) false cs ≡ get_num cs
unfolding get_num sum_terms after_term
get_num-fuel zero cs h = absurd (omega arith)
get_num-fuel (suc f) cs h = elim (Bool-cases (next_is_sign (after_term cs))) [
  | inl more ↦ rw more (
      sum_terms-fuel_sign f (length cs) _ _ (after_term cs) more
        (omega (arith, length-after_term cs)) (length-after_term cs))
  | inr end ↦ rw end refl
]
