-- ===== src/Kernel/Proc/Kids.antt =====
-- The flag `havekids` of wait and join of xv6-public/proc.c: what it tells of the table.
use c_s_e_hanyang.Base.{
  ℕ, zero, suc, ◌≡◌, Bool, true, false, ◌||◌, not, List, [], ◌∷◌, none, arith, inl, inr, ◌⊎◌,
  Bool-cases,
}
use c_s_e_hanyang.Kernel.Proc.{Proc, is_child}
use c_s_e_hanyang.Kernel.Proc.Reap.{wait_scan, join_scan}
use c_s_e_hanyang.Kernel.Proc.Pids.{at}

-- If the scan of `wait` finds no one to free, its flag is set exactly if it was before, or the caller
-- has a child that is no thread.
pub wait_scan-kid :
    (me i : ℕ) (have : Bool) (ps : List Proc)
    → (wait_scan me i have ps).0 ≡ none
    → (wait_scan me i have ps).1 ≡ true
    → (have ≡ true) ⊎ ((n : ℕ) × (is_child me (at ps n) ≡ true) × ((at ps n).is_thread ≡ false))
unfolding wait_scan
wait_scan-kid me i have [] e f = inl f
wait_scan-kid me i have (p ∷ ps) e f = elim (Bool-cases (not (is_child me p) || p.is_thread)) [
  | inl other ↦ elim (wait_scan-kid me (suc i) have ps (ground arith) (ground arith)) [
    | inl h ↦ inl h
    | inr k ↦ inr (suc k.0, k.1, k.2)
  ]
  | inr child ↦ inr (0, ground arith, ground arith)
]

wait_scan-unset :
    (me i : ℕ) (have : Bool) (ps : List Proc) → (wait_scan me i have ps).1 ≡ false → have ≡ false
unfolding wait_scan
wait_scan-unset me i have [] f = f
wait_scan-unset me i have (p ∷ ps) f =
    ground (arith, wait_scan-unset me (suc i) have ps, wait_scan-unset me (suc i) true ps)

pub wait_scan-no_kid :
    (me i : ℕ) (have : Bool) (ps : List Proc) (n : ℕ)
    → (wait_scan me i have ps).1 ≡ false
    → is_child me (at ps n) ≡ true
    → (at ps n).is_thread ≡ true
unfolding wait_scan
wait_scan-no_kid me i have [] n f c = ground arith
wait_scan-no_kid me i have (p ∷ ps) zero f c = ground (arith, wait_scan-unset me (suc i) true ps)
wait_scan-no_kid me i have (p ∷ ps) (suc n) f c =
    ground (arith, wait_scan-no_kid me (suc i) have ps n, wait_scan-no_kid me (suc i) true ps n)

-- If the scan of `join` finds no one to free, its flag is set exactly if it was before, or the caller
-- has a child that is a thread.
pub join_scan-kid :
    (me tid i : ℕ) (have : Bool) (ps : List Proc)
    → (join_scan me tid i have ps).0 ≡ none
    → (join_scan me tid i have ps).1 ≡ true
    → (have ≡ true) ⊎ ((n : ℕ) × (is_child me (at ps n) ≡ true) × ((at ps n).is_thread ≡ true))
unfolding join_scan
join_scan-kid me tid i have [] e f = inl f
join_scan-kid me tid i have (p ∷ ps) e f =
    elim (Bool-cases (not (is_child me p) || not p.is_thread)) [
      | inl other ↦ elim (join_scan-kid me tid (suc i) have ps (ground arith) (ground arith)) [
        | inl h ↦ inl h
        | inr k ↦ inr (suc k.0, k.1, k.2)
      ]
      | inr child ↦ inr (0, ground arith, ground arith)
    ]

join_scan-unset :
    (me tid i : ℕ) (have : Bool) (ps : List Proc)
    → (join_scan me tid i have ps).1 ≡ false
    → have ≡ false
unfolding join_scan
join_scan-unset me tid i have [] f = f
join_scan-unset me tid i have (p ∷ ps) f =
    ground (arith, join_scan-unset me tid (suc i) have ps, join_scan-unset me tid (suc i) true ps)

pub join_scan-no_kid :
    (me tid i : ℕ) (have : Bool) (ps : List Proc) (n : ℕ)
    → (join_scan me tid i have ps).1 ≡ false
    → is_child me (at ps n) ≡ true
    → (at ps n).is_thread ≡ false
unfolding join_scan
join_scan-no_kid me tid i have [] n f c = ground arith
join_scan-no_kid me tid i have (p ∷ ps) zero f c =
    ground (arith, join_scan-unset me tid (suc i) true ps)
join_scan-no_kid me tid i have (p ∷ ps) (suc n) f c =
    ground
      (arith, join_scan-no_kid me tid (suc i) have ps n, join_scan-no_kid me tid (suc i) true ps n)
