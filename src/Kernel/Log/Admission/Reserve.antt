-- ===== src/Kernel/Log/Admission/Reserve.antt =====
-- The log of xv6-public/log.c always has room for the operations that begin_op admitted.
use mathlib.Core.Path.{subst}
use c_s_e_hanyang.Base.{
  ℕ, zero, suc, ◌+◌, ◌*◌, ◌≤◌, ◌<◌, ◌≡◌, ◌≢◌, refl, ap, ◌∙◌, List, [], ◌∷◌, length, arith, Bool,
  true, false, ◌⊎◌, none, some, get_elem?, set, length-set, length-append, ◌++◌,
}
use c_s_e_hanyang.Kernel.Log.{max_op_blocks, log_size}
use c_s_e_hanyang.Kernel.Log.Admission.{
  Log, admitted, waits, begin_op, absorb, log_write, end_op, end_commit, Running, Step, begins,
  writes, ends, commits, Reach, here, next, sum, initial,
}

pub length-absorb_le : (b : ℕ) (lh : List ℕ) → length (absorb b lh) ≤ length lh + 1
unfolding absorb
length-absorb_le b [] = omega arith
length-absorb_le b (c ∷ cs) = ground (arith, length-absorb_le b cs)

sum-set : (xs : List ℕ) (i k : ℕ) → get_elem? xs i ≡ some (suc k) → sum (set xs i k) + 1 ≡ sum xs
sum-set [] i k h = ground arith
sum-set (x ∷ xs) zero k h = ground arith
sum-set (x ∷ xs) (suc i) k h = omega (arith, sum-set xs i k h)

abbrev pub Capped : List ℕ → Type 0
Capped [] = Unit
Capped (x ∷ xs) = (x ≤ max_op_blocks) × Capped xs

sum-Capped : (xs : List ℕ) → Capped xs → sum xs ≤ length xs * max_op_blocks
sum-Capped [] c = omega arith
sum-Capped (x ∷ xs) c = omega (arith, sum-Capped xs c.1, c.0)

set-Capped :
    (xs : List ℕ) (i k : ℕ) → get_elem? xs i ≡ some (suc k) → Capped xs → Capped (set xs i k)
set-Capped [] i k h c = tt
set-Capped (x ∷ xs) zero k h c = (ground (arith, c.0), c.1)
set-Capped (x ∷ xs) (suc i) k h c = (c.0, set-Capped xs i k h c.1)

remove-Capped :
    (before : List ℕ) (k : ℕ) (after : List ℕ)
    → Capped (before ++ k ∷ after)
    → Capped (before ++ after)
remove-Capped [] k after c = c.1
remove-Capped (x ∷ xs) k after c = (c.0, remove-Capped xs k after c.1)

-- Every operation has its room in the log.
pub record Inv (r : Running) : Type 0 where
  pub counted : length r.budgets ≡ r.log.outstanding
  pub capped : Capped r.budgets
  pub reserved : length r.log.lh + sum r.budgets ≤ log_size
  pub quiet : r.log.committing ≡ true → r.log.outstanding ≡ 0
  pub drained : r.log.committing ≡ false → r.log.outstanding ≡ 0 → r.log.lh ≡ []

sum-append : (xs ys : List ℕ) → sum (xs ++ ys) ≡ sum xs + sum ys
sum-append [] ys = omega arith
sum-append (x ∷ xs) ys = omega (arith, sum-append xs ys)

get-le-sum : (xs : List ℕ) (i k : ℕ) → get_elem? xs i ≡ some (suc k) → 1 ≤ sum xs
get-le-sum [] i k h = ground arith
get-le-sum (x ∷ xs) zero k h = ground arith
get-le-sum (x ∷ xs) (suc i) k h = omega (arith, get-le-sum xs i k h)

get-lt-length : (xs : List ℕ) (i k : ℕ) → get_elem? xs i ≡ some (suc k) → 1 ≤ length xs
get-lt-length [] i k h = ground arith
get-lt-length (x ∷ xs) i k h = omega arith

length-pos : (xs : List ℕ) → xs ≢ [] → 1 ≤ length xs
length-pos [] h = absurd (h refl)
length-pos (x ∷ xs) h = omega arith

begins-Inv :
    (r : Running) (l : Log)
    → begin_op r.log ≡ (admitted, l)
    → Inv r
    → Inv (record { log = l; budgets = max_op_blocks ∷ r.budgets })
unfolding begin_op
begins-Inv r l e v = record {
  counted = ground (arith, v.counted);
  capped = (omega arith, v.capped);
  reserved = ground (arith, v.reserved, v.counted, sum-Capped r.budgets v.capped);
  quiet = ground (arith, v.quiet);
  drained = ground (arith, v.drained);
}

writes-Inv :
    (r : Running) (i k b : ℕ) (l : Log)
    → get_elem? r.budgets i ≡ some (suc k)
    → log_write b r.log ≡ some l
    → Inv r
    → Inv (record { log = l; budgets = set r.budgets i k })
unfolding log_write
writes-Inv r i k b l h e v = record {
  counted = ground (arith, v.counted, length-set r.budgets i k);
  capped = set-Capped r.budgets i k h v.capped;
  reserved = ground (arith, v.reserved, sum-set r.budgets i k h, length-absorb_le b r.log.lh);
  quiet = ground (arith, v.quiet);
  drained = ground (arith, v.drained);
}

ends-Inv :
    (r : Running) (before after : List ℕ) (k : ℕ) (c : Bool) (l : Log)
    → r.budgets ≡ before ++ k ∷ after
    → end_op r.log ≡ some (c, l)
    → Inv r
    → Inv (record { log = l; budgets = before ++ after })
unfolding end_op
ends-Inv r before after k c l h e v = record {
  counted = ground (arith, v.counted, fewer, total);
  capped = remove-Capped before k after (subst Capped h v.capped);
  reserved = ground (arith, v.reserved, split, join);
  quiet = ground (arith, v.quiet);
  drained = ground (arith, v.drained, fewer, total);
}
  where
    total : length r.budgets ≡ length before + suc (length after)
    total = ap length h ∙ length-append before (k ∷ after)

    fewer : length (before ++ after) ≡ length before + length after
    fewer = length-append before after

    split : sum r.budgets ≡ sum before + (k + sum after)
    split = ap sum h ∙ sum-append before (k ∷ after)

    join : sum (before ++ after) ≡ sum before + sum after
    join = sum-append before after

commits-Inv :
    (r : Running) → r.log.committing ≡ true → Inv r → Inv (record r { log = end_commit r.log })
unfolding end_commit
commits-Inv r e v = record {
  counted = v.counted;
  capped = v.capped;
  reserved = omega (arith, v.reserved);
  quiet = λ h. ground arith;
  drained = λ _ _. refl;
}

pub Step-Inv : {r s : Running} → Step r s → Inv r → Inv s
Step-Inv (begins r l e) v = begins-Inv r l e v
Step-Inv (writes r i k b l h e) v = writes-Inv r i k b l h e v
Step-Inv (ends r before after k c l h e) v = ends-Inv r before after k c l h e v
Step-Inv (commits r e) v = commits-Inv r e v

initial-Inv : (size : ℕ) → Inv (initial size)
initial-Inv size = record {
  counted = refl;
  capped = tt;
  reserved = omega arith;
  quiet = λ h. ground arith;
  drained = λ _ _. refl;
}

Reach-Inv : {r s : Running} → Inv r → Reach r s → Inv s
Reach-Inv v here = v
Reach-Inv v (next m st) = Step-Inv st (Reach-Inv v m)

size-Step : {r s : Running} → Step r s → s.log.size ≡ r.log.size
size-Step (begins r l e) = unfold begin_op in (ground arith)
size-Step (writes r i k b l h e) = unfold log_write in (ground arith)
size-Step (ends r before after k c l h e) = unfold end_op in (ground arith)
size-Step (commits r e) = unfold end_commit in refl

size-Reach : {r s : Running} → Reach r s → s.log.size ≡ r.log.size
size-Reach here = refl
size-Reach (next m st) = size-Step st ∙ size-Reach m

running_log_write :
    (r : Running) (i k b : ℕ)
    → Inv r
    → log_size < r.log.size
    → get_elem? r.budgets i ≡ some (suc k)
    → log_write b r.log ≢ none
unfolding log_write
running_log_write r i k b v big h e =
    let left : 1 ≤ sum r.budgets = get-le-sum r.budgets i k h in
    let fits : length r.log.lh < log_size = omega (arith, v.reserved) in
    let busy : 1 ≤ r.log.outstanding = omega (arith, v.counted, get-lt-length r.budgets i k h) in
    ground arith

running_end_op : (r : Running) → Inv r → r.budgets ≢ [] → end_op r.log ≢ none
unfolding end_op
running_end_op r v some_left e =
    let busy : 1 ≤ length r.budgets = length-pos r.budgets some_left in
    ground (arith, v.quiet, v.counted)

-- If the log has more than LOGSIZE blocks, then in every state that the operations can reach, by
-- at most MAXOPBLOCKS writes each, no write that an operation may still make panics, and no
-- running operation panics when it ends.
pub log_never_panics :
    {size : ℕ} {r : Running}
    → log_size < size
    → Reach (initial size) r
    → ((i k b : ℕ) → get_elem? r.budgets i ≡ some (suc k) → log_write b r.log ≢ none)
      × (r.budgets ≢ [] → end_op r.log ≢ none)
unfolding log_write end_op
log_never_panics {size} {r} big m =
    let v : Inv r = Reach-Inv (initial-Inv size) m in
    let same : r.log.size ≡ size = size-Reach m in
    (
      (λ i k b h e. running_log_write r i k b v (omega (arith, same)) h e),
      (λ some_left e. running_end_op r v some_left e),
    )

-- A call of begin_op waits only while the log is being committed or an operation is running.
pub begin_op-waits :
    {size : ℕ} {r : Running}
    → Reach (initial size) r
    → (begin_op r.log).0 ≡ waits
    → (r.log.committing ≡ true) ⊎ (1 ≤ length r.budgets)
unfolding begin_op
begin_op-waits {size} {r} m e =
    let v : Inv r = Reach-Inv (initial-Inv size) m in ground (arith, v.counted, v.drained)
