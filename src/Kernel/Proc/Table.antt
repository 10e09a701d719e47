-- ===== src/Kernel/Proc/Table.antt =====
-- Loops over the process table of xv6-public/proc.c: wakeup1, allocproc, kill, growproc.
use c_s_e_hanyang.Base.{
  ℕ, zero, suc, ◌+◌, Bool, true, false, ◌&&◌, ◌||◌, not, List, [], ◌∷◌, map, Option, none, some,
  ◌==◌, if◌then◌else◌, get_or, ◌%◌, u32_mod,
}
use c_s_e_hanyang.Kernel.Proc.{
  Proc, unused, embryo, runnable, Chan, Kernel, blank, is_unused, is_sleeping, is_child, on_chan,
}

-- `ptable.proc[i]`
abbrev pub slot : Kernel → ℕ → Proc
slot k i = get_or k.procs i blank

abbrev pub modify : List Proc → ℕ → (Proc → Proc) → List Proc
modify [] i f = []
modify (p ∷ ps) zero f = f p ∷ ps
modify (p ∷ ps) (suc i) f = p ∷ modify ps i f

abbrev pub assign : Kernel → ℕ → (Proc → Proc) → Kernel
assign k i f = record k { procs = modify k.procs i f }

-- One turn of the loop of `wakeup1`; `none` is the null channel.
unfoldable pub rouse : Option Chan → Proc → Proc
rouse c p = if is_sleeping p.state && on_chan p.chan c then record p { state = runnable } else p

unfoldable pub wakeup1 : Option Chan → List Proc → List Proc
unfolding rouse
wakeup1 c ps = map (rouse c) ps

unfoldable pub wakeup : Option Chan → Kernel → Kernel
unfolding wakeup1
wakeup c k = record k { procs = wakeup1 c k.procs }

-- The scan of `allocproc` from slot `i` on.
unfoldable pub first_unused : ℕ → List Proc → Option ℕ
first_unused i [] = none
first_unused i (p ∷ ps) =
    let later = first_unused (suc i) ps in if is_unused p.state then some i else later

-- `kalloc`: a page of the free list, or none.
unfoldable pub kalloc : List ℕ → Option (ℕ × List ℕ)
kalloc [] = none
kalloc (page ∷ pages) = some (page, pages)

-- `nextpid` is an `int`, kept as its 32 bits.
unfoldable pub claim : Kernel → ℕ → Kernel
claim k i = record (assign k i (λ p. record p { state = embryo; pid = k.nextpid })) {
  nextpid = (k.nextpid + 1) % u32_mod;
}

-- The part of `allocproc` behind `kalloc`.
unfoldable pub give_stack : ℕ → Option (ℕ × List ℕ) → Kernel → Option ℕ × Kernel
give_stack i none k = (none, assign k i (λ p. record p { kstack = 0; state = unused }))
give_stack i (some (page, pages)) k =
    (some i, record (assign k i (λ p. record p { kstack = page })) { freelist = pages })

unfoldable pub allocproc_at : Kernel → ℕ → Option ℕ × Kernel
unfolding claim kalloc give_stack
allocproc_at k i = give_stack i (kalloc k.freelist) (claim k i)

unfoldable pub at_found : Option ℕ → Kernel → Option ℕ × Kernel
unfolding allocproc_at
at_found none k = (none, k)
at_found (some i) k = allocproc_at k i

unfoldable pub allocproc : Kernel → Option ℕ × Kernel
unfolding at_found first_unused
allocproc k = at_found (first_unused 0 k.procs) k

-- The loop of `kill`; the flag tells whether a process has that pid.
unfoldable pub kill_loop : ℕ → List Proc → Bool × List Proc
kill_loop pid [] = (false, [])
kill_loop pid (p ∷ ps) =
    let rest = kill_loop pid ps in
    if p.pid == pid
    then (
      true,
      record p { killed = true; state = (if is_sleeping p.state then runnable else p.state) } ∷ ps,
    )
    else (rest.0, p ∷ rest.1)

-- `false` is the result -1.
unfoldable pub kill : ℕ → Kernel → Bool × Kernel
unfolding kill_loop
kill pid k = let r = kill_loop pid k.procs in (r.0, record k { procs = r.1 })

-- One turn of the loop of `growproc`, for the caller in slot `me`.
unfoldable pub resize : ℕ → ℕ → Proc → Proc
resize me sz p = if not (is_child me p) || p.is_thread then record p { sz = sz } else p

-- `grown` is what `allocuvm` or `deallocuvm` returns, 0 for a failure; a call with `n == 0` keeps
-- the size, and the caller passes `none`. `false` is the result -1.
unfoldable pub growproc : ℕ → Option ℕ → Kernel → Bool × Kernel
unfolding resize
growproc me (some zero) k = (false, k)
growproc me (some (suc sz)) k =
    let k' = assign k me (λ p. record p { sz = suc sz }) in
    (true, record k' { procs = map (resize me (suc sz)) k'.procs })
growproc me none k =
    let sz = (slot k me).sz in (true, record k { procs = map (resize me sz) k.procs })
