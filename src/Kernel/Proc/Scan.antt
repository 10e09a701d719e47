-- ===== src/Kernel/Proc/Scan.antt =====
-- The scans of wait and join of xv6-public/proc.c: what they find.
use c_s_e_hanyang.Base.{
  ℕ, zero, suc, ◌+◌, ◌≡◌, ◌<◌, refl, Bool, true, false, ◌&&◌, ◌||◌, not, List, [], ◌∷◌, none, some,
  ◌==◌, length, arith, inl, inr, Bool-cases,
}
use c_s_e_hanyang.Kernel.Proc.{Proc, is_zombie, is_child}
use c_s_e_hanyang.Kernel.Proc.Reap.{wait_scan, join_scan}
use c_s_e_hanyang.Kernel.Proc.Pids.{at}

-- What the scan of `wait` finds is a zombie child that is no thread.
pub wait_scan-found :
    (me i : ℕ) (have : Bool) (ps : List Proc) (j : ℕ)
    → (wait_scan me i have ps).0 ≡ some j
    → (n : ℕ) × (j ≡ i + n)
      × (n < length ps)
      × (is_child me (at ps n) ≡ true)
      × ((at ps n).is_thread ≡ false)
      × (is_zombie (at ps n).state ≡ true)
unfolding wait_scan
wait_scan-found me i have [] j e = ground arith
wait_scan-found me i have (p ∷ ps) j e = elim (Bool-cases (not (is_child me p) || p.is_thread)) [
  | inl other ↦
      let r = wait_scan-found me (suc i) have ps j (ground arith) in
      (suc r.0, omega (arith, r.1), omega (arith, r.2), r.3, r.4, r.5)
  | inr child ↦ elim (Bool-cases (is_zombie p.state)) [
    | inl dead ↦ (0, ground arith, omega arith, ground arith, ground arith, ground arith)
    | inr alive ↦
        let r = wait_scan-found me (suc i) true ps j (ground arith) in
        (suc r.0, omega (arith, r.1), omega (arith, r.2), r.3, r.4, r.5)
  ]
]

-- Where it finds none there is none.
pub wait_scan-none :
    (me i : ℕ) (have : Bool) (ps : List Proc) (n : ℕ)
    → (wait_scan me i have ps).0 ≡ none
    → is_child me (at ps n) ≡ true
    → (at ps n).is_thread ≡ false
    → is_zombie (at ps n).state ≡ false
unfolding wait_scan
wait_scan-none me i have [] n e c t = refl
wait_scan-none me i have (p ∷ ps) zero e c t = ground arith
wait_scan-none me i have (p ∷ ps) (suc n) e c t =
    ground (arith, wait_scan-none me (suc i) have ps n, wait_scan-none me (suc i) true ps n)

pub join_scan-found :
    (me tid i : ℕ) (have : Bool) (ps : List Proc) (j : ℕ)
    → (join_scan me tid i have ps).0 ≡ some j
    → (n : ℕ) × (j ≡ i + n)
      × (n < length ps)
      × (is_child me (at ps n) ≡ true)
      × ((at ps n).is_thread ≡ true)
      × (is_zombie (at ps n).state ≡ true)
      × ((at ps n).pid ≡ tid)
unfolding join_scan
join_scan-found me tid i have [] j e = ground arith
join_scan-found me tid i have (p ∷ ps) j e =
    elim (Bool-cases (not (is_child me p) || not p.is_thread)) [
      | inl other ↦
          let r = join_scan-found me tid (suc i) have ps j (ground arith) in
          (suc r.0, omega (arith, r.1), omega (arith, r.2), r.3, r.4, r.5, r.6)
      | inr child ↦ elim (Bool-cases (is_zombie p.state && (p.pid == tid))) [
        | inl dead ↦
            (0, ground arith, omega arith, ground arith, ground arith, ground arith, ground arith)
        | inr alive ↦
            let r = join_scan-found me tid (suc i) true ps j (ground arith) in
            (suc r.0, omega (arith, r.1), omega (arith, r.2), r.3, r.4, r.5, r.6)
      ]
    ]

pub join_scan-none :
    (me tid i : ℕ) (have : Bool) (ps : List Proc) (n : ℕ)
    → (join_scan me tid i have ps).0 ≡ none
    → is_child me (at ps n) ≡ true
    → (at ps n).is_thread ≡ true
    → (at ps n).pid ≡ tid
    → is_zombie (at ps n).state ≡ false
unfolding join_scan
join_scan-none me tid i have [] n e c t p = refl
join_scan-none me tid i have (q ∷ ps) zero e c t p = ground arith
join_scan-none me tid i have (q ∷ ps) (suc n) e c t p =
    ground (arith, join_scan-none me tid (suc i) have ps n, join_scan-none me tid (suc i) true ps n)
