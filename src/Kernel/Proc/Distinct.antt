-- ===== src/Kernel/Proc/Distinct.antt =====
-- The pids of the process table of xv6-public/proc.c stay distinct in every run.
use c_s_e_hanyang.Base.{
  ◌<◌, ◌^◌, length, ℕ, zero, suc, ◌+◌, ◌≡◌, refl, ap, ◌∙◌, sym, Bool, true, false, List, [], ◌∷◌,
  map, Option, none, some, arith, inl, inr, Bool-cases,
}
use c_s_e_hanyang.Kernel.Proc.{Proc, running, Kernel, call, is_parent, is_runnable}
use c_s_e_hanyang.Kernel.Proc.Table.{slot, modify, assign, wakeup, kill, resize, growproc}
use c_s_e_hanyang.Kernel.Proc.Life.{closes, thexit, exit}
use c_s_e_hanyang.Kernel.Proc.Reap.{
  wait_scan, join_scan, free_slot, fall_asleep, tidy_up, wait_with, wait, join_with, join,
}
use c_s_e_hanyang.Kernel.Proc.Sched.{dispatch, dispatch_with, yield, pick, from_slot, from_slot-get}
use c_s_e_hanyang.Kernel.Proc.Pids.{
  live, at, PidsOk, int_max, Shrinks-PidsOk, Shrinks-modify, Shrinks-map, wakeup1-Shrinks, Ok,
  kill_loop-Shrinks,
}
use c_s_e_hanyang.Kernel.Proc.Calls.{Shrinks-modify-live}
use c_s_e_hanyang.Kernel.Proc.Nextpid.{step-nextpid}
use c_s_e_hanyang.Kernel.Proc.Trace.{
  fork-Ok, clone-Ok, leave-Ok, free_slot-Ok, idle_turn-Ok, Like-modify, Event, forks, clones, exits,
  thexits, waits, yields, tidies, joins, kills, grows, sleeps_on, wakes, dispatches, or_same, by,
  step, run,
}

by-Ok : (me : ℕ) (k k' : Kernel) → Ok k → (live (slot k me) ≡ true → Ok k') → Ok (by me k k')
by-Ok me k k' v w = elim (Bool-cases (live (slot k me))) [ inl l ↦ rw l (w l) | inr d ↦ rw d v ]

thexit-Ok : (me : ℕ) (k : Kernel) → live (slot k me) ≡ true → Ok k → Ok (or_same (thexit me k) k)
unfolding thexit
thexit-Ok me k l v = elim (Bool-cases (is_parent k.initproc me)) [
  | inl init ↦ rw init v
  | inr other ↦ rw other (leave-Ok me k l v)
]

exit-Ok : (me : ℕ) (k : Kernel) → live (slot k me) ≡ true → Ok k → Ok (or_same (exit me k) k)
unfolding exit
exit-Ok me k l v =
    let f : Proc → Proc = λ p. record p { ofile = map (λ _. none) p.ofile } in
    let k' : Kernel = assign (call k (closes (slot k me).ofile)) me f in
    let live' : live (slot k' me) ≡ true =
      (Like-modify f (λ p. (refl, refl)) k.procs me me).0 ∙ l in
    let v' : Ok k' = Shrinks-PidsOk (Shrinks-modify f (λ p m. (m, refl)) k.procs me) v in
    elim (Bool-cases (is_parent k.initproc me)) [
      | inl init ↦ rw init v
      | inr other ↦ rw other (leave-Ok me k' live' v')
    ]

wait_with-Ok :
    (me : ℕ) (r : Option ℕ × Bool) (k : Kernel)
    → live (slot k me) ≡ true
    → Ok k
    → Ok (wait_with me r k).1
unfolding wait_with
wait_with-Ok me (none, have) k l v = idle_turn-Ok me have k l v
wait_with-Ok me (some i, have) k l v = unfold free_slot in (unfold free_slot in free_slot-Ok i k v)

join_with-Ok :
    (me : ℕ) (r : Option ℕ × Bool) (k : Kernel)
    → live (slot k me) ≡ true
    → Ok k
    → Ok (join_with me r k).1
unfolding join_with
join_with-Ok me (none, have) k l v = idle_turn-Ok me have k l v
join_with-Ok me (some i, have) k l v = free_slot-Ok i k v

growproc-Ok : (me : ℕ) (grown : Option ℕ) (k : Kernel) → Ok k → Ok (growproc me grown k).1
unfolding growproc resize
growproc-Ok me none k v =
    Shrinks-PidsOk (Shrinks-map (resize me (slot k me).sz) (λ p l. ground arith) k.procs) v
growproc-Ok me (some zero) k v = v
growproc-Ok me (some (suc sz)) k v =
    let f : Proc → Proc = λ p. record p { sz = suc sz } in
    Shrinks-PidsOk (Shrinks-map (resize me (suc sz)) (λ p l. ground arith) (modify k.procs me f))
      (Shrinks-PidsOk (Shrinks-modify f (λ p l. (l, refl)) k.procs me) v)

pick-runnable :
    (i : ℕ) (ps : List Proc) (j : ℕ)
    → pick i ps ≡ some j
    → (n : ℕ) × (j ≡ i + n) × (live (at ps n) ≡ true)
unfolding pick
pick-runnable i [] j e = ground arith
pick-runnable i (p ∷ ps) j e = elim (Bool-cases (is_runnable p.state)) [
  | inl now ↦ (0, ground arith, ground arith)
  | inr other ↦
      let r = pick-runnable (suc i) ps j (ground arith) in (suc r.0, omega (arith, r.1), r.2)
]

dispatch_with-Ok :
    (chosen : Option ℕ) (k : Kernel)
    → ((i : ℕ) → chosen ≡ some i → live (slot k i) ≡ true)
    → Ok k
    → Ok (dispatch_with chosen k).1
unfolding dispatch_with
dispatch_with-Ok none k l v = v
dispatch_with-Ok (some i) k l v =
    Shrinks-PidsOk
      (Shrinks-modify-live (λ p. record p { state = running }) k.procs i (λ p. refl)
        (λ _. l i refl))
      v

dispatch-Ok : (pos : ℕ) (k : Kernel) → Ok k → Ok (dispatch pos k).1
unfolding dispatch
dispatch-Ok pos k v =
    dispatch_with-Ok (pick pos (from_slot pos k.procs)) k
      (λ i e.
        let r = pick-runnable pos (from_slot pos k.procs) i e in
        rw r.1 (ap live (sym (from_slot-get pos r.0 k.procs)) ∙ r.2))
      v

step-Ok : (e : Event) (k : Kernel) → k.nextpid < int_max → Ok k → Ok (step e k)
unfolding step
step-Ok (forks me copyuvm) k left v = by-Ok me k _ v (λ l. fork-Ok me copyuvm k left v)
step-Ok (clones me start arg stack) k left v =
    by-Ok me k _ v (λ l. clone-Ok me start arg stack k left v)
step-Ok (exits me) k left v = by-Ok me k _ v (λ l. exit-Ok me k l v)
step-Ok (thexits me) k left v = by-Ok me k _ v (λ l. thexit-Ok me k l v)
step-Ok (waits me) k left v =
    by-Ok me k _ v (λ l. unfold wait in wait_with-Ok me (wait_scan me 0 false k.procs) k l v)
step-Ok (yields me) k left v =
    by-Ok me k _ v (λ l.
      unfold yield in Shrinks-PidsOk (Shrinks-modify-live _ k.procs me (λ p. refl) (λ _. l)) v)
step-Ok (tidies me) k left v = by-Ok me k _ v (λ l.
    unfold tidy_up in
    Shrinks-PidsOk (Shrinks-modify (λ p. record p { chan = none }) (λ p m. (m, refl)) k.procs me) v)
step-Ok (joins me tid) k left v =
    by-Ok me k _ v (λ l. unfold join in join_with-Ok me (join_scan me tid 0 false k.procs) k l v)
step-Ok (kills pid) k left v = unfold kill in Shrinks-PidsOk (kill_loop-Shrinks pid k.procs) v
step-Ok (grows me grown) k left v = by-Ok me k _ v (λ l. growproc-Ok me grown k v)
step-Ok (sleeps_on me c) k left v = by-Ok me k _ v (λ l.
    unfold fall_asleep in Shrinks-PidsOk (Shrinks-modify-live _ k.procs me (λ p. refl) (λ _. l)) v)
step-Ok (wakes c) k left v = unfold wakeup in Shrinks-PidsOk (wakeup1-Shrinks (some c) k.procs) v
step-Ok (dispatches pos) k left v = dispatch-Ok pos k v

-- In every run of calls and scheduling events from a table whose live processes have distinct pids
-- below `nextpid`, they still do, as long as the run is too short for the `int` nextpid to overflow.
pub run-PidsOk :
    (es : List Event) (k : Kernel)
    → PidsOk k.nextpid k.procs
    → k.nextpid + length es < 2 ^ 31
    → PidsOk (run es k).nextpid (run es k).procs
unfolding run
run-PidsOk [] k v bound = v
run-PidsOk (e ∷ es) k v bound =
    run-PidsOk es (step e k) (step-Ok e k (omega arith) v) (omega (arith, step-nextpid e k))
