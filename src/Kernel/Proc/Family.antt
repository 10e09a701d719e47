-- ===== src/Kernel/Proc/Family.antt =====
-- Whom wait and join of xv6-public/proc.c free, and when they fail or sleep.
use mathlib.Core.Path.{subst}
use c_s_e_hanyang.Base.{
  ℕ, ◌≡◌, ◌≢◌, ◌<◌, refl, ap, ◌∙◌, sym, Bool, true, false, List, [], ◌∷◌, ◌++◌, Option, none, some,
  arith, inl, inr, ◌⊎◌, Bool-cases, length, append-nil,
}
use c_s_e_hanyang.Kernel.Proc.{
  Proc, unused, sleeping, proc_chan, Kernel, Call, freevm, is_zombie, is_child,
}
use c_s_e_hanyang.Kernel.Proc.Table.{slot, modify}
use c_s_e_hanyang.Kernel.Proc.Reap.{
  reaped, no_child, sleeps, wait_scan, join_scan, free_slot, fall_asleep, idle_turn, wait_with,
  wait, join_with, join, clear, Turn,
}
use c_s_e_hanyang.Kernel.Proc.Pids.{at, at-modify}
use c_s_e_hanyang.Kernel.Proc.Calls.{at-modify_self}
use c_s_e_hanyang.Kernel.Proc.Scan.{
  wait_scan-found, wait_scan-none, join_scan-found, join_scan-none,
}
use c_s_e_hanyang.Kernel.Proc.Kids.{
  wait_scan-kid, wait_scan-no_kid, join_scan-kid, join_scan-no_kid,
}

pub at-modify_ne :
    (f : Proc → Proc) (ps : List Proc) (i j : ℕ) → i ≢ j → at (modify ps i f) j ≡ at ps j
at-modify_ne f ps i j ne = elim (at-modify f ps i j) [ inl e ↦ e | inr e ↦ absurd (ne (sym e.0)) ]

-- Slot `i` is free again and its stack is back on the free list; nothing else has changed but for the
-- calls into other files.
pub record Freed (k : Kernel) (i : ℕ) (made : List Call) (k' : Kernel) : Type 0 where
  pub emptied : slot k' i ≡ record (slot k i) {
    kstack = 0;
    state = unused;
    parent = none;
    pid = 0;
    name = [];
    killed = false;
    is_thread = false;
  }
  pub others : (j : ℕ) → i ≢ j → slot k' j ≡ slot k j
  pub stack_back : k'.freelist ≡ (slot k i).kstack ∷ k.freelist
  pub calls_made : k'.calls ≡ k.calls ++ made
  pub nextpid_kept : k'.nextpid ≡ k.nextpid
  pub initproc_kept : k'.initproc ≡ k.initproc

free_slot-Freed :
    (k : Kernel) (i : ℕ) (made : List Call)
    → i < length k.procs
    → Freed k i made (record (free_slot i k) { calls = k.calls ++ made })
unfolding free_slot clear
free_slot-Freed k i made inside = record {
  emptied = at-modify_self clear k.procs i inside;
  others = λ j ne. at-modify_ne clear k.procs i j ne;
  stack_back = refl;
  calls_made = refl;
  nextpid_kept = refl;
  initproc_kept = refl;
}

-- A turn that frees no one: it returns -1 and changes nothing if the caller has no child of the kind
-- in question or is killed, and else puts the caller to sleep on its own address.
abbrev pub Idle : ℕ → Bool → Kernel → Turn × Kernel → Type 0
Idle me thread k r =
    ((r ≡ (no_child, k))
      × (((n : ℕ) → is_child me (slot k n) ≡ true → (slot k n).is_thread ≢ thread)
          ⊎ ((slot k me).killed ≡ true)))
    ⊎ (((n : ℕ) × (is_child me (slot k n) ≡ true) × ((slot k n).is_thread ≡ thread))
        × ((slot k me).killed ≡ false)
        × (r.0 ≡ sleeps)
        × (r.1 ≡ record k {
          procs =
              modify k.procs me (λ p. record p { chan = some (proc_chan me); state = sleeping });
        }))

idle_turn-Idle :
    (me : ℕ) (thread have : Bool) (k : Kernel)
    → (have ≡ true → (n : ℕ) × (is_child me (slot k n) ≡ true) × ((slot k n).is_thread ≡ thread))
    → (have ≡ false → (n : ℕ) → is_child me (slot k n) ≡ true → (slot k n).is_thread ≢ thread)
    → Idle me thread k (idle_turn me have k)
unfolding idle_turn fall_asleep
idle_turn-Idle me thread false k kid nobody = inl (refl, inl (nobody refl))
idle_turn-Idle me thread true k kid nobody = elim (Bool-cases (slot k me).killed) [
  | inl dead ↦ inl (rw dead refl, inr dead)
  | inr alive ↦ inr (kid refl, alive, rw alive refl, rw alive refl)
]

-- What a turn of the loop of wait does.
abbrev pub WaitTurn : ℕ → Kernel → Turn × Kernel → Type 0
WaitTurn me k r =
    ((i : ℕ) × (is_child me (slot k i) ≡ true)
      × ((slot k i).is_thread ≡ false)
      × (is_zombie (slot k i).state ≡ true)
      × (r.0 ≡ reaped (slot k i).pid 0 0)
      × Freed k i (freevm (slot k i).pgdir ∷ []) r.1)
    ⊎ (((n : ℕ)
          → is_child me (slot k n) ≡ true
          → (slot k n).is_thread ≡ false
          → is_zombie (slot k n).state ≡ false)
        × Idle me false k r)

wait_with-turn :
    (me : ℕ) (k : Kernel) (r : Option ℕ × Bool)
    → wait_scan me 0 false k.procs ≡ r
    → WaitTurn me k (wait_with me r k)
unfolding wait_with free_slot
wait_with-turn me k (none, have) e =
    let missed = ap (λ t. t.0) e in
    inr (
      (λ n. wait_scan-none me 0 false k.procs n missed),
      idle_turn-Idle me false have k
          (λ h. elim (wait_scan-kid me 0 false k.procs missed (ap (λ t. t.1) e ∙ h)) [
            | inl f ↦ absurd (ground arith)
            | inr kid ↦ kid
          ])
          (λ h n c f.
            let other = wait_scan-no_kid me 0 false k.procs n (ap (λ t. t.1) e ∙ h) c in
            ground arith),
    )
wait_with-turn me k (some i, have) e =
    let f = wait_scan-found me 0 false k.procs i (ap (λ t. t.0) e) in
    let same : f.0 ≡ i = omega (arith, f.1) in
    let inside : i < length k.procs = omega (arith, f.2, same) in
    inl (
      i,
      subst (λ j. is_child me (slot k j) ≡ true) same f.3,
      subst (λ j. (slot k j).is_thread ≡ false) same f.4,
      subst (λ j. is_zombie (slot k j).state ≡ true) same f.5,
      refl,
      free_slot-Freed k i (freevm (slot k i).pgdir ∷ []) inside,
    )

-- A turn of wait frees exactly one child that is a zombie and no thread, and returns its pid, if
-- there is such a child: it empties the child's slot, gives its kernel stack and its page table back,
-- and touches no other slot. Else it frees no one: it returns -1 if the caller has no child but threads
-- or is killed, and sleeps if it has one.
pub wait_lem : (me : ℕ) (k : Kernel) → WaitTurn me k (wait me k)
unfolding wait
wait_lem me k = wait_with-turn me k (wait_scan me 0 false k.procs) refl

-- What a turn of the loop of join does.
abbrev pub JoinTurn : ℕ → ℕ → Kernel → Turn × Kernel → Type 0
JoinTurn me tid k r =
    ((i : ℕ) × (is_child me (slot k i) ≡ true)
      × ((slot k i).is_thread ≡ true)
      × (is_zombie (slot k i).state ≡ true)
      × ((slot k i).pid ≡ tid)
      × (r.0 ≡ reaped tid (slot k i).ustack (slot k i).retval)
      × Freed k i [] r.1)
    ⊎ (((n : ℕ)
          → is_child me (slot k n) ≡ true
          → (slot k n).is_thread ≡ true
          → (slot k n).pid ≡ tid
          → is_zombie (slot k n).state ≡ false)
        × Idle me true k r)

join_with-turn :
    (me tid : ℕ) (k : Kernel) (r : Option ℕ × Bool)
    → join_scan me tid 0 false k.procs ≡ r
    → JoinTurn me tid k (join_with me r k)
unfolding join_with free_slot
join_with-turn me tid k (none, have) e =
    let missed = ap (λ t. t.0) e in
    inr (
      (λ n. join_scan-none me tid 0 false k.procs n missed),
      idle_turn-Idle me true have k
          (λ h. elim (join_scan-kid me tid 0 false k.procs missed (ap (λ t. t.1) e ∙ h)) [
            | inl f ↦ absurd (ground arith)
            | inr kid ↦ kid
          ])
          (λ h n c f.
            let other = join_scan-no_kid me tid 0 false k.procs n (ap (λ t. t.1) e ∙ h) c in
            ground arith),
    )
join_with-turn me tid k (some i, have) e =
    let f = join_scan-found me tid 0 false k.procs i (ap (λ t. t.0) e) in
    let same : f.0 ≡ i = omega (arith, f.1) in
    let inside : i < length k.procs = omega (arith, f.2, same) in
    let pid : (slot k i).pid ≡ tid = subst (λ j. (slot k j).pid ≡ tid) same f.6 in
    inl (
      i,
      subst (λ j. is_child me (slot k j) ≡ true) same f.3,
      subst (λ j. (slot k j).is_thread ≡ true) same f.4,
      subst (λ j. is_zombie (slot k j).state ≡ true) same f.5,
      pid,
      ap (λ q. reaped q (slot k i).ustack (slot k i).retval) pid,
      subst (λ cs. Freed k i [] (record (free_slot i k) { calls = cs })) (append-nil k.calls)
          (free_slot-Freed k i [] inside),
    )

-- A turn of join frees the caller's zombie thread with that pid, and returns its pid, stack and return
-- value, if there is one: it empties the thread's slot, gives its kernel stack back, and touches no
-- other slot. Else it frees no one: it returns -1 if the caller has no thread at all or is killed, and
-- sleeps if the caller has a thread, whatever its pid.
pub join_lem : (me tid : ℕ) (k : Kernel) → JoinTurn me tid k (join me tid k)
unfolding join
join_lem me tid k = join_with-turn me tid k (join_scan me tid 0 false k.procs) refl

-- A call of wait by another process leaves a thread as it is, a dead one too, whoever its parent is.
pub wait-thread :
    (me t : ℕ) (k : Kernel) → t ≢ me → (slot k t).is_thread ≡ true → slot (wait me k).1 t ≡ slot k t
wait-thread me t k ne thread = elim (wait_lem me k) [
  | inl (i, child, process, dead, result, freed) ↦ freed.others t (λ e.
      let clash : (slot k t).is_thread ≡ false =
        subst (λ j. (slot k j).is_thread ≡ false) e process in
      ground arith)
  | inr (spared, idle) ↦ elim idle [
    | inl (same, why) ↦ ap (λ (q : Turn × Kernel). slot q.1 t) same
    | inr (kid, alive, result, slept) ↦
        ap (λ (q : Kernel). slot q t) slept ∙ at-modify_ne _ k.procs me t (λ w. ne (sym w))
  ]
]
