-- ===== src/Kernel/Proc/Reap.antt =====
-- wait and join of xv6-public/proc.c, one turn of their loops at a time.
use c_s_e_hanyang.Base.{
  ℕ, suc, Bool, true, false, ◌&&◌, ◌||◌, not, List, [], ◌∷◌, Option, none, some, ◌==◌,
  if◌then◌else◌,
}
use c_s_e_hanyang.Kernel.Proc.{
  Proc, unused, sleeping, Chan, proc_chan, Kernel, call, is_zombie, is_child, freevm,
}
use c_s_e_hanyang.Kernel.Proc.Table.{slot, assign}

-- How a turn ends: with a process freed, with -1, or asleep on the caller's own address.
pub data Turn : Type 0 where
  reaped : ℕ → ℕ → ℕ → Turn
  no_child sleeps : Turn

-- The scan of `wait` from slot `i` on: the child to free, and `havekids`.
unfoldable pub wait_scan : ℕ → ℕ → Bool → List Proc → Option ℕ × Bool
wait_scan me i have [] = (none, have)
wait_scan me i have (p ∷ ps) =
    let skip = wait_scan me (suc i) have ps in
    let next = wait_scan me (suc i) true ps in
    if not (is_child me p) || p.is_thread
    then skip
    else (if is_zombie p.state then (some i, true) else next)

unfoldable pub join_scan : ℕ → ℕ → ℕ → Bool → List Proc → Option ℕ × Bool
join_scan me tid i have [] = (none, have)
join_scan me tid i have (p ∷ ps) =
    let skip = join_scan me tid (suc i) have ps in
    let next = join_scan me tid (suc i) true ps in
    if not (is_child me p) || not p.is_thread
    then skip
    else (if is_zombie p.state && (p.pid == tid) then (some i, true) else next)

-- The assignments of both to the slot that is freed.
unfoldable pub clear : Proc → Proc
clear p = record p {
  kstack = 0;
  state = unused;
  parent = none;
  pid = 0;
  name = [];
  killed = false;
  is_thread = false;
}

unfoldable pub free_slot : ℕ → Kernel → Kernel
unfolding clear
free_slot i k =
    let page = (slot k i).kstack in record (assign k i clear) { freelist = page ∷ k.freelist }

-- The assignments of `sleep` up to `sched`.
unfoldable pub fall_asleep : ℕ → Option Chan → Kernel → Kernel
fall_asleep me c k = assign k me (λ p. record p { chan = c; state = sleeping })

-- What `sleep` does when it is scheduled again.
unfoldable pub tidy_up : ℕ → Kernel → Kernel
tidy_up me k = assign k me (λ p. record p { chan = none })

-- What the loop of both does when the scan has found no one to free.
unfoldable pub idle_turn : ℕ → Bool → Kernel → Turn × Kernel
unfolding fall_asleep
idle_turn me have k =
    if not have || (slot k me).killed
    then (no_child, k)
    else (sleeps, fall_asleep me (some (proc_chan me)) k)

unfoldable pub wait_with : ℕ → Option ℕ × Bool → Kernel → Turn × Kernel
unfolding free_slot idle_turn
wait_with me (none, have) k = idle_turn me have k
wait_with me (some i, have) k =
    let p = slot k i in (reaped p.pid 0 0, call (free_slot i k) (freevm p.pgdir ∷ []))

unfoldable pub wait : ℕ → Kernel → Turn × Kernel
unfolding wait_scan wait_with
wait me k = wait_with me (wait_scan me 0 false k.procs) k

unfoldable pub join_with : ℕ → Option ℕ × Bool → Kernel → Turn × Kernel
unfolding free_slot idle_turn
join_with me (none, have) k = idle_turn me have k
join_with me (some i, have) k = let p = slot k i in (reaped p.pid p.ustack p.retval, free_slot i k)

-- `reaped` carries the pid, and what goes through `stack` and `retval`.
unfoldable pub join : ℕ → ℕ → Kernel → Turn × Kernel
unfolding join_scan join_with
join me tid k = join_with me (join_scan me tid 0 false k.procs) k
