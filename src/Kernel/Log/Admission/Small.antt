-- ===== src/Kernel/Log/Admission/Small.antt =====
-- A log of xv6-public/log.c that is no larger than LOGSIZE is too small for what begin_op admits.
use mathlib.Core.Path.{subst}
use c_s_e_hanyang.Base.{
  ℕ, zero, suc, ◌+◌, ◌-◌, ◌≤◌, ◌<◌, ◌≡◌, refl, List, [], ◌∷◌, ◌++◌, length, arith, Bool-cases, inl,
  inr, ltb, false, none, some, get_elem?, set, length-append,
}
use c_s_e_hanyang.Kernel.Log.{log_size}
use c_s_e_hanyang.Kernel.Log.Admission.{
  Log, begin_op, absorb, log_write, Running, Step, begins, writes, Reach, here, next, initial,
}

Under : ℕ → List ℕ → Type 0
Under b [] = Unit
Under b (x ∷ xs) = (x < b) × Under b xs

absorb-Under : (b : ℕ) (xs : List ℕ) → Under b xs → absorb b xs ≡ xs ++ b ∷ []
unfolding absorb Under
absorb-Under b [] u = refl
absorb-Under b (x ∷ xs) u = ground (arith, u.0, absorb-Under b xs u.1)

Under-append : (b : ℕ) (xs ys : List ℕ) → Under b xs → Under b ys → Under b (xs ++ ys)
unfolding Under
Under-append b [] ys u w = w
Under-append b (x ∷ xs) ys u w = (u.0, Under-append b xs ys u.1 w)

-- The blocks 0 to m - 1.
blocks : ℕ → List ℕ
blocks zero = []
blocks (suc m) = blocks m ++ m ∷ []

blocks-Under : (b m : ℕ) → m ≤ b → Under b (blocks m)
unfolding blocks Under
blocks-Under b zero le = tt
blocks-Under b (suc m) le =
    Under-append b (blocks m) (m ∷ []) (blocks-Under b m (omega arith)) (omega arith, tt)

length-blocks : (m : ℕ) → length (blocks m) ≡ m
unfolding blocks
length-blocks zero = refl
length-blocks (suc m) = omega (arith, length-append (blocks m) (m ∷ []), length-blocks m)

-- What three operations may still write after `m` writes, the first one writing first.
left : ℕ → List ℕ
left m = (10 - m) ∷ (10 - (m - 10)) ∷ (10 - (m - 20)) ∷ []

abbrev logged : ℕ → ℕ → Log
logged size m = record { size = size; outstanding = 3; committing = false; lh = blocks m }

abbrev written : ℕ → ℕ → Running
written size m = record { log = logged size m; budgets = left m }

next_writer :
    (m : ℕ)
    → m < 30
    → (i : ℕ) × (k : ℕ) × (get_elem? (left m) i ≡ some (suc k)) × (set (left m) i k ≡ left (suc m))
unfolding left
next_writer m lt = elim (Bool-cases (ltb m 10)) [
  | inl first ↦ (0, 9 - m, ground arith, ground arith)
  | inr more ↦ elim (Bool-cases (ltb m 20)) [
    | inl second ↦ (1, 19 - m, ground arith, ground arith)
    | inr third ↦ (2, 29 - m, ground arith, ground arith)
  ]
]

log_write-fits :
    (size m : ℕ)
    → m + 1 < size
    → m < log_size
    → log_write m (logged size m) ≡ some (logged size (suc m))
unfolding log_write blocks
log_write-fits size m room lt =
    let n = length-blocks m in
    let e = absorb-Under m (blocks m) (blocks-Under m m (omega arith)) in ground (arith, n, e)

written-Step :
    (size m : ℕ) → m + 1 < size → m < log_size → Step (written size m) (written size (suc m))
written-Step size m room lt =
    let (i, k, had, now) = next_writer m lt in
    subst (λ bs. Step (written size m) (record { log = logged size (suc m); budgets = bs })) now
      (writes (written size m) i k m (logged size (suc m)) had (log_write-fits size m room lt))

begun : ℕ → ℕ → List ℕ → Running
begun size n bs = record {
  log = record { size = size; outstanding = n; committing = false; lh = [] };
  budgets = bs;
}

started-Reach : (size : ℕ) → Reach (initial size) (written size 0)
unfolding begin_op begun left blocks
started-Reach size =
    next
      (next (next here (begins (initial size) (begun size 1 []).log refl))
        (begins (begun size 1 (10 ∷ [])) (begun size 2 []).log refl))
      (begins (begun size 2 (10 ∷ 10 ∷ [])) (begun size 3 []).log refl)

written-Reach : (size m : ℕ) → m ≤ size - 1 → m < log_size → Reach (initial size) (written size m)
written-Reach size zero le lt = started-Reach size
written-Reach size (suc m) le lt =
    next (written-Reach size m (omega arith) (omega arith))
      (written-Step size m (omega arith) (omega arith))

full_log : (size b : ℕ) → log_write b (logged size (size - 1)) ≡ none
unfolding log_write
full_log size b = let n = length-blocks (size - 1) in ground (arith, n)

-- A log of at most LOGSIZE blocks can fill up: from the start, admitted operations within their ten
-- writes each can reach a state in which one of them may still write, and its write of any block panics.
pub small_log-panics :
    (size : ℕ)
    → size ≤ log_size
    → (r : Running) × Reach (initial size) r
      × ((i : ℕ) × (k : ℕ) × (get_elem? r.budgets i ≡ some (suc k)))
      × ((b : ℕ) → log_write b r.log ≡ none)
small_log-panics size small =
    let m = size - 1 in
    let (i, k, had, now) = next_writer m (omega arith) in
    (
      written size m,
      written-Reach size m (omega arith) (omega arith),
      (i, k, had),
      (λ b. full_log size b),
    )
