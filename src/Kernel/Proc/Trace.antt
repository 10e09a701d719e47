-- ===== src/Kernel/Proc/Trace.antt =====
-- The pids of the process table of xv6-public/proc.c over every sequence of calls.
use c_s_e_hanyang.Base.{
  ◌<◌, ℕ, zero, suc, ◌+◌, ◌≡◌, refl, ◌∙◌, sym, Bool, true, ◌||◌, not, List, [], ◌∷◌, Option, none,
  some, ◌==◌, if◌then◌else◌, length, ltb, arith, inl, inr, Bool-cases, ◌%◌, u32_mod,
}
use c_s_e_hanyang.Kernel.Proc.{Proc, zombie, Chan, proc_chan, Kernel}
use c_s_e_hanyang.Kernel.Proc.Table.{
  slot, modify, rouse, wakeup1, wakeup, first_unused, allocproc, kill, growproc,
}
use c_s_e_hanyang.Kernel.Proc.Life.{
  page_size, Copyuvm, fork, clone_with, clone, reparent_slot, reparent, leave, thexit, exit,
  to_chan,
}
use c_s_e_hanyang.Kernel.Proc.Reap.{free_slot, fall_asleep, tidy_up, idle_turn, wait, join, clear}
use c_s_e_hanyang.Kernel.Proc.Sched.{dispatch, yield}
use c_s_e_hanyang.Kernel.Proc.Pids.{
  live, at, Shrinks, Shrinks-PidsOk, Shrinks-modify, Ok, allocproc-Ok, int_max,
}
use c_s_e_hanyang.Kernel.Proc.Calls.{
  Shrinks-modify-live, at_found-live, fork_with-Ok, clone_with-Ok,
}

pub fork-Ok :
    (me : ℕ) (copyuvm : Copyuvm) (k : Kernel)
    → k.nextpid < int_max
    → Ok k
    → Ok (fork me copyuvm k).1
unfolding fork
fork-Ok me copyuvm k left v =
    fork_with-Ok me copyuvm (allocproc k).0 (allocproc k).1
      (λ j e h. unfold allocproc in at_found-live (first_unused 0 k.procs) k j e h)
      (allocproc-Ok k left v)

pub clone-Ok :
    (me start arg stack : ℕ) (k : Kernel)
    → k.nextpid < int_max
    → Ok k
    → Ok (clone me start arg stack k).1
unfolding clone
clone-Ok me start arg stack k left v =
    let w : Ok (clone_with me start arg stack (allocproc k).0 (allocproc k).1).1 =
      clone_with-Ok me start arg stack (allocproc k).0 (allocproc k).1
        (λ j e h. unfold allocproc in at_found-live (first_unused 0 k.procs) k j e h)
        (allocproc-Ok k left v) in
    elim (Bool-cases (ltb (slot k me).sz ((stack + page_size) % u32_mod))) [
      | inl far ↦ rw far v
      | inr near ↦ elim (Bool-cases (stack % page_size == 0)) [
        | inl aligned ↦ rw (near, aligned) w
        | inr skewed ↦ rw (near, skewed) v
      ]
    ]

-- The change keeps every pid and keeps the live processes live and the others not.
abbrev pub Like : List Proc → List Proc → Type 0
Like ps qs = (i : ℕ) → (live (at qs i) ≡ live (at ps i)) × ((at qs i).pid ≡ (at ps i).pid)

Like-trans : (ps qs rs : List Proc) → Like ps qs → Like qs rs → Like ps rs
Like-trans ps qs rs s t i = ((t i).0 ∙ (s i).0, (t i).1 ∙ (s i).1)

Like-Shrinks : (ps qs : List Proc) → Like ps qs → Shrinks ps qs
Like-Shrinks ps qs s i l = (sym (s i).0 ∙ l, (s i).1)

pub Like-modify :
    (f : Proc → Proc)
    → ((p : Proc) → (live (f p) ≡ live p) × ((f p).pid ≡ p.pid))
    → (ps : List Proc) (i : ℕ) → Like ps (modify ps i f)
Like-modify f t [] i j = (refl, refl)
Like-modify f t (p ∷ ps) zero zero = t p
Like-modify f t (p ∷ ps) zero (suc j) = (refl, refl)
Like-modify f t (p ∷ ps) (suc i) zero = (refl, refl)
Like-modify f t (p ∷ ps) (suc i) (suc j) = Like-modify f t ps i j

wakeup1-Like : (c : Option Chan) (ps : List Proc) → Like ps (wakeup1 c ps)
unfolding wakeup1 rouse
wakeup1-Like c [] i = (refl, refl)
wakeup1-Like c (p ∷ ps) zero = ground arith
wakeup1-Like c (p ∷ ps) (suc i) = wakeup1-Like c ps i

reparent_slot-Like :
    (me : ℕ) (init : Option ℕ) (i : ℕ) (ps : List Proc) → Like ps (reparent_slot me init i ps)
unfolding reparent_slot
reparent_slot-Like me init i ps =
    let f : Proc → Proc = λ q. record q { parent = init } in
    let s = Like-modify f (λ p. (refl, refl)) ps i in
    let s' =
      Like-trans ps (modify ps i f) (wakeup1 (to_chan init) (modify ps i f)) s
        (wakeup1-Like (to_chan init) (modify ps i f)) in
    λ j. ground (arith, s j, s' j)

reparent-Like :
    (me : ℕ) (init : Option ℕ) (n i : ℕ) (ps : List Proc) → Like ps (reparent me init n i ps)
unfolding reparent
reparent-Like me init zero i ps = λ j. (refl, refl)
reparent-Like me init (suc n) i ps =
    Like-trans ps (reparent_slot me init i ps)
      (reparent me init n (suc i) (reparent_slot me init i ps)) (reparent_slot-Like me init i ps)
      (reparent-Like me init n (suc i) (reparent_slot me init i ps))

pub leave-Ok : (me : ℕ) (k : Kernel) → live (slot k me) ≡ true → Ok k → Ok (leave me k)
unfolding leave
leave-Ok me k l v =
    let ps₁ = modify k.procs me (λ p. record p { cwd = none }) in
    let ps₂ = wakeup1 (to_chan (slot k me).parent) ps₁ in
    let ps₃ = reparent me k.initproc (length ps₂) 0 ps₂ in
    let like : Like k.procs ps₃ =
      Like-trans k.procs ps₁ ps₃
        (Like-modify (λ p. record p { cwd = none }) (λ p. (refl, refl)) k.procs me)
        (Like-trans ps₁ ps₂ ps₃ (wakeup1-Like (to_chan (slot k me).parent) ps₁)
          (reparent-Like me k.initproc (length ps₂) 0 ps₂)) in
    Shrinks-PidsOk
      (Shrinks-modify-live (λ p. record p { state = zombie }) ps₃ me (λ p. refl)
        (λ _. (like me).0 ∙ l))
      (Shrinks-PidsOk (Like-Shrinks k.procs ps₃ like) v)

pub free_slot-Ok : (i : ℕ) (k : Kernel) → Ok k → Ok (free_slot i k)
unfolding free_slot clear
free_slot-Ok i k v = Shrinks-PidsOk (Shrinks-modify clear (λ p l. ground arith) k.procs i) v

pub idle_turn-Ok :
    (me : ℕ) (have : Bool) (k : Kernel)
    → live (slot k me) ≡ true
    → Ok k
    → Ok (idle_turn me have k).1
unfolding idle_turn fall_asleep
idle_turn-Ok me have k l v =
    let w : Ok (fall_asleep me (some (proc_chan me)) k) =
      Shrinks-PidsOk (Shrinks-modify-live _ k.procs me (λ p. refl) (λ _. l)) v in
    elim (Bool-cases (not have || (slot k me).killed)) [ inl stop ↦ rw stop v | inr go ↦ rw go w ]

-- The calls, with the caller's slot where it matters, and the events of the scheduler. A call is one
-- event up to where it returns or sleeps; fork and clone, which hold no lock while they fill the new
-- slot, are one event too.
pub data Event : Type 0 where
  forks : ℕ → Copyuvm → Event
  clones : ℕ → ℕ → ℕ → ℕ → Event
  exits thexits waits yields tidies : ℕ → Event
  joins : ℕ → ℕ → Event
  kills : ℕ → Event
  grows : ℕ → Option ℕ → Event
  sleeps_on : ℕ → Chan → Event
  wakes : Chan → Event
  dispatches : ℕ → Event

abbrev pub or_same : Option Kernel → Kernel → Kernel
or_same none k = k
or_same (some k') k = k'

-- A call of a process that is not live does not happen.
abbrev pub by : ℕ → Kernel → Kernel → Kernel
by me k k' = if live (slot k me) then k' else k

unfoldable pub step : Event → Kernel → Kernel
step (forks me copyuvm) k = by me k (fork me copyuvm k).1
step (clones me start arg stack) k = by me k (clone me start arg stack k).1
step (exits me) k = by me k (or_same (exit me k) k)
step (thexits me) k = by me k (or_same (thexit me k) k)
step (waits me) k = by me k (wait me k).1
step (yields me) k = by me k (yield me k)
step (tidies me) k = by me k (tidy_up me k)
step (joins me tid) k = by me k (join me tid k).1
step (kills pid) k = (kill pid k).1
step (grows me grown) k = by me k (growproc me grown k).1
step (sleeps_on me c) k = by me k (fall_asleep me (some c) k)
step (wakes c) k = wakeup (some c) k
step (dispatches pos) k = (dispatch pos k).1

unfoldable pub run : List Event → Kernel → Kernel
unfolding step
run [] k = k
run (e ∷ es) k = run es (step e k)
