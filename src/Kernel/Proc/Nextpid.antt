-- ===== src/Kernel/Proc/Nextpid.antt =====
-- How far a call of xv6-public/proc.c moves `nextpid` on.
use c_s_e_hanyang.Base.{
  ℕ, zero, suc, ◌+◌, ◌≤◌, ◌≡◌, refl, Bool, false, ◌||◌, not, Option, none, some, ◌==◌, ◌%◌, ltb,
  arith, inl, inr, Bool-cases, u32_mod,
}
use c_s_e_hanyang.Kernel.Proc.{Kernel, is_parent}
use c_s_e_hanyang.Kernel.Proc.Table.{slot, allocproc, wakeup, kill, growproc}
use c_s_e_hanyang.Kernel.Proc.Life.{
  page_size, Copyuvm, fork, clone_with, clone, leave, thexit, exit,
}
use c_s_e_hanyang.Kernel.Proc.Reap.{
  wait_scan, join_scan, free_slot, fall_asleep, tidy_up, idle_turn, wait_with, wait, join_with,
  join,
}
use c_s_e_hanyang.Kernel.Proc.Sched.{dispatch, dispatch_with, yield, pick, from_slot}
use c_s_e_hanyang.Kernel.Proc.Pids.{live, allocproc-nextpid}
use c_s_e_hanyang.Kernel.Proc.Calls.{fork_with-nextpid, clone_with-nextpid}
use c_s_e_hanyang.Kernel.Proc.Trace.{
  Event, forks, clones, exits, thexits, waits, yields, tidies, joins, kills, grows, sleeps_on,
  wakes, dispatches, or_same, by, step,
}

-- One pid at most is taken.
abbrev Moves : Kernel → Kernel → Type 0
Moves k k' = k'.nextpid ≤ k.nextpid + 1

stays : (k k' : Kernel) → k'.nextpid ≡ k.nextpid → Moves k k'
stays k k' e = omega (arith, e)

by-Moves : (me : ℕ) (k k' : Kernel) → Moves k k' → Moves k (by me k k')
by-Moves me k k' m = elim (Bool-cases (live (slot k me))) [
  | inl l ↦ rw l m
  | inr d ↦ rw d (omega arith)
]

fork-Moves : (me : ℕ) (copyuvm : Copyuvm) (k : Kernel) → Moves k (fork me copyuvm k).1
unfolding fork
fork-Moves me copyuvm k =
    omega (arith, fork_with-nextpid me copyuvm (allocproc k).0 (allocproc k).1, allocproc-nextpid k)

clone-Moves : (me start arg stack : ℕ) (k : Kernel) → Moves k (clone me start arg stack k).1
unfolding clone
clone-Moves me start arg stack k =
    let taken : Moves k (clone_with me start arg stack (allocproc k).0 (allocproc k).1).1 = omega (
      arith,
      clone_with-nextpid me start arg stack (allocproc k).0 (allocproc k).1,
      allocproc-nextpid k,
    ) in
    elim (Bool-cases (ltb (slot k me).sz ((stack + page_size) % u32_mod))) [
      | inl far ↦ rw far (omega arith)
      | inr near ↦ elim (Bool-cases (stack % page_size == 0)) [
        | inl aligned ↦ rw (near, aligned) taken
        | inr skewed ↦ rw (near, skewed) (omega arith)
      ]
    ]

exit-nextpid : (me : ℕ) (k : Kernel) → (or_same (exit me k) k).nextpid ≡ k.nextpid
unfolding exit leave
exit-nextpid me k = elim (Bool-cases (is_parent k.initproc me)) [
  | inl init ↦ rw init refl
  | inr other ↦ rw other refl
]

thexit-nextpid : (me : ℕ) (k : Kernel) → (or_same (thexit me k) k).nextpid ≡ k.nextpid
unfolding thexit leave
thexit-nextpid me k = elim (Bool-cases (is_parent k.initproc me)) [
  | inl init ↦ rw init refl
  | inr other ↦ rw other refl
]

idle_turn-nextpid :
    (me : ℕ) (have : Bool) (k : Kernel) → (idle_turn me have k).1.nextpid ≡ k.nextpid
unfolding idle_turn fall_asleep
idle_turn-nextpid me have k = elim (Bool-cases (not have || (slot k me).killed)) [
  | inl stop ↦ rw stop refl
  | inr go ↦ rw go refl
]

wait_with-nextpid :
    (me : ℕ) (r : Option ℕ × Bool) (k : Kernel) → (wait_with me r k).1.nextpid ≡ k.nextpid
unfolding wait_with free_slot
wait_with-nextpid me (none, have) k = idle_turn-nextpid me have k
wait_with-nextpid me (some i, have) k = refl

join_with-nextpid :
    (me : ℕ) (r : Option ℕ × Bool) (k : Kernel) → (join_with me r k).1.nextpid ≡ k.nextpid
unfolding join_with free_slot
join_with-nextpid me (none, have) k = idle_turn-nextpid me have k
join_with-nextpid me (some i, have) k = refl

growproc-nextpid :
    (me : ℕ) (grown : Option ℕ) (k : Kernel) → (growproc me grown k).1.nextpid ≡ k.nextpid
unfolding growproc
growproc-nextpid me none k = refl
growproc-nextpid me (some zero) k = refl
growproc-nextpid me (some (suc sz)) k = refl

dispatch_with-nextpid :
    (chosen : Option ℕ) (k : Kernel) → (dispatch_with chosen k).1.nextpid ≡ k.nextpid
unfolding dispatch_with
dispatch_with-nextpid none k = refl
dispatch_with-nextpid (some i) k = refl

-- An event gives out one pid at most.
pub step-nextpid : (e : Event) (k : Kernel) → (step e k).nextpid ≤ k.nextpid + 1
unfolding step
step-nextpid (forks me copyuvm) k = by-Moves me k _ (fork-Moves me copyuvm k)
step-nextpid (clones me start arg stack) k = by-Moves me k _ (clone-Moves me start arg stack k)
step-nextpid (exits me) k = by-Moves me k _ (stays k (or_same (exit me k) k) (exit-nextpid me k))
step-nextpid (thexits me) k =
    by-Moves me k _ (stays k (or_same (thexit me k) k) (thexit-nextpid me k))
step-nextpid (waits me) k =
    by-Moves me k _
      (stays k (wait me k).1 (unfold wait in wait_with-nextpid me (wait_scan me 0 false k.procs) k))
step-nextpid (yields me) k = by-Moves me k _ (stays k (yield me k) (unfold yield in refl))
step-nextpid (tidies me) k = by-Moves me k _ (stays k (tidy_up me k) (unfold tidy_up in refl))
step-nextpid (joins me tid) k = by-Moves me k _ (
    stays k (join me tid k).1
      (unfold join in join_with-nextpid me (join_scan me tid 0 false k.procs) k))
step-nextpid (kills pid) k = stays k (kill pid k).1 (unfold kill in refl)
step-nextpid (grows me grown) k =
    by-Moves me k _ (stays k (growproc me grown k).1 (growproc-nextpid me grown k))
step-nextpid (sleeps_on me c) k =
    by-Moves me k _ (stays k (fall_asleep me (some c) k) (unfold fall_asleep in refl))
step-nextpid (wakes c) k = stays k (wakeup (some c) k) (unfold wakeup in refl)
step-nextpid (dispatches pos) k =
    stays k (dispatch pos k).1
      (unfold dispatch in dispatch_with-nextpid (pick pos (from_slot pos k.procs)) k)
