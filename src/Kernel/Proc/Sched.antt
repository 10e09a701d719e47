-- ===== src/Kernel/Proc/Sched.antt =====
-- scheduler, sched and yield of xv6-public/proc.c, on one CPU.
use c_s_e_hanyang.Base.{
  ℕ, zero, suc, ◌+◌, ◌-◌, ◌≤◌, ◌<◌, ◌≡◌, refl, Bool, true, false, ◌&&◌, not, List, [], ◌∷◌, Option,
  none, some, ◌==◌, if◌then◌else◌, get_or, Bool-cases, inl, inr, arith, elem,
}
use c_s_e_hanyang.Kernel.Proc.{Proc, ProcState, runnable, running, Kernel, blank, is_runnable}
use c_s_e_hanyang.Kernel.Proc.Table.{slot, assign}

-- The inner loop of `scheduler` up to the next process that it switches to, from slot `i` on.
unfoldable pub pick : ℕ → List Proc → Option ℕ
pick i [] = none
pick i (p ∷ ps) = let later = pick (suc i) ps in if is_runnable p.state then some i else later

-- The table from slot `i` on.
unfoldable pub from_slot : ℕ → List Proc → List Proc
from_slot zero ps = ps
from_slot (suc i) [] = []
from_slot (suc i) (p ∷ ps) = from_slot i ps

-- One dispatch, with the loop's `p` at slot `pos`: `none` ends the pass. The chosen process runs
-- until it switches back, and the loop goes on behind it.
unfoldable pub dispatch_with : Option ℕ → Kernel → Option ℕ × Kernel
dispatch_with none k = (none, k)
dispatch_with (some i) k = (some i, assign k i (λ p. record p { state = running }))

unfoldable pub dispatch : ℕ → Kernel → Option ℕ × Kernel
unfolding pick from_slot dispatch_with
dispatch pos k = dispatch_with (pick pos (from_slot pos k.procs)) k

unfoldable pub yield : ℕ → Kernel → Kernel
yield me k = assign k me (λ p. record p { state = runnable })

-- The checks of `sched`; `false` is a panic.
unfoldable pub sched_allowed : Bool → ℕ → Proc → Bool → Bool
sched_allowed holding_lock ncli p interrupts =
    holding_lock && (ncli == 1) && not (is_running p.state) && not interrupts
  where
    is_running : ProcState → Bool
    is_running running = true
    is_running _ = false

pick-ge : (i : ℕ) (ps : List Proc) (j : ℕ) → pick i ps ≡ some j → i ≤ j
unfolding pick
pick-ge i [] j e = ground arith
pick-ge i (p ∷ ps) j e = ground (arith, pick-ge (suc i) ps j)

-- A runnable process bounds the choice.
pick-le :
    (i n : ℕ) (ps : List Proc)
    → is_runnable (get_or ps n blank).state ≡ true
    → (j : ℕ) × (pick i ps ≡ some j) × (j ≤ i + n)
unfolding pick
pick-le i n [] r = ground arith
pick-le i zero (p ∷ ps) r = (i, ground arith, omega arith)
pick-le i (suc n) (p ∷ ps) r = elim (Bool-cases (is_runnable p.state)) [
  | inl now ↦ (i, ground arith, omega arith)
  | inr other ↦ let (j, e, le) = pick-le (suc i) n ps r in (j, ground arith, omega arith)
]

pub from_slot-get :
    (pos n : ℕ) (ps : List Proc) → get_or (from_slot pos ps) n blank ≡ get_or ps (pos + n) blank
unfolding from_slot
from_slot-get zero n ps = let e : 0 + n ≡ n = omega arith in rw e
from_slot-get (suc pos) n [] = refl
from_slot-get (suc pos) n (p ∷ ps) =
    let e : suc pos + n ≡ suc (pos + n) = omega arith in rw e (from_slot-get pos n ps)

-- With a process runnable at or behind the loop's place, the pass goes on, and it neither goes
-- back nor skips that process.
pub dispatch_between :
    (pos target : ℕ) (k : Kernel)
    → pos ≤ target
    → is_runnable (slot k target).state ≡ true
    → (i : ℕ) × ((dispatch pos k).0 ≡ some i) × (pos ≤ i) × (i ≤ target)
unfolding dispatch
dispatch_between pos target k le r =
    let here : pos + (target - pos) ≡ target = omega arith in
    let found =
      pick-le pos (target - pos) (from_slot pos k.procs)
        (rw (from_slot-get pos (target - pos) k.procs, here) r) in
    (
      found.0,
      ground (arith, found.1),
      pick-ge pos (from_slot pos k.procs) found.0 found.1,
      omega (arith, found.2),
    )

-- The slots dispatched in the next `n` dispatches of a pass, at most: `tables t` is the table at
-- the `t`-th of them, and what the processes do in between is any change.
unfoldable pub pass : ℕ → (ℕ → Kernel) → ℕ → List ℕ
unfolding dispatch
pass zero tables pos = []
pass (suc n) tables pos = elim (dispatch pos (tables 0)).0 [
  | none ↦ []
  | some i ↦ i ∷ pass n (λ t. tables (suc t)) (suc i)
]

pass-step :
    (n : ℕ) (tables : ℕ → Kernel) (pos i : ℕ)
    → (dispatch pos (tables 0)).0 ≡ some i
    → pass (suc n) tables pos ≡ i ∷ pass n (λ t. tables (suc t)) (suc i)
unfolding pass
pass-step n tables pos i e = ground arith

-- A process that is runnable each time is dispatched before the pass ends, however the others
-- change: within one dispatch for each slot from the loop's place up to its own.
pub pass-elem :
    (n : ℕ) (tables : ℕ → Kernel) (pos target : ℕ)
    → pos ≤ target
    → target < pos + n
    → ((t : ℕ) → t < n → is_runnable (slot (tables t) target).state ≡ true)
    → elem target (pass n tables pos) ≡ true
pass-elem zero tables pos target lo hi r = absurd (omega arith)
pass-elem (suc n) tables pos target lo hi r =
    let (i, chosen, ge, le) = dispatch_between pos target (tables 0) lo (r 0 (omega arith)) in
    rw (pass-step n tables pos i chosen) (elim (Bool-cases (target == i)) [
      | inl now ↦ ground arith
      | inr later ↦
          let rest =
            pass-elem n (λ t. tables (suc t)) (suc i) target (ground arith) (omega arith)
              (λ t lt. r (suc t) (omega arith)) in
          ground (arith, rest)
    ])
