-- ===== src/Kernel/Proc/Life.antt =====
-- fork, clone, exit and thexit of xv6-public/proc.c.
use c_s_e_hanyang.Base.{
  ℕ, zero, suc, ◌+◌, ◌-◌, ◌%◌, true, false, not, List, [], ◌∷◌, ◌++◌, map, Option, none, some, ◌==◌,
  if◌then◌else◌, get_or, length, ltb, u32_mod,
}
use c_s_e_hanyang.Kernel.Proc.{
  Proc, unused, runnable, zombie, Chan, proc_chan, Kernel, Call, blank, call, is_zombie, is_child,
  is_parent, filedup, fileclose, idup, iput, begin_op, end_op, poke,
}
use c_s_e_hanyang.Kernel.Proc.Table.{slot, modify, assign, wakeup1, allocproc}

-- PGSIZE
abbrev pub page_size : ℕ
page_size = 4096

-- The loop over `ofile` in `fork` and `clone`: an absent file of the parent leaves the child's entry.
unfoldable pub copy_files : List (Option ℕ) → List (Option ℕ) → List (Option ℕ)
copy_files [] ys = ys
copy_files (x ∷ xs) [] = []
copy_files (none ∷ xs) (y ∷ ys) = y ∷ copy_files xs ys
copy_files (some f ∷ xs) (y ∷ ys) = some f ∷ copy_files xs ys

unfoldable pub dups : List (Option ℕ) → List Call
dups [] = []
dups (none ∷ xs) = dups xs
dups (some f ∷ xs) = filedup f ∷ dups xs

unfoldable pub closes : List (Option ℕ) → List Call
closes [] = []
closes (none ∷ xs) = closes xs
closes (some f ∷ xs) = fileclose f ∷ closes xs

-- `idup` and `iput` of the working directory.
abbrev pub on_cwd : (ℕ → Call) → Option ℕ → List Call
on_cwd c none = []
on_cwd c (some i) = c i ∷ []

-- `fork` behind a successful `allocproc`, which gave slot `i`.
unfoldable pub fork_at : ℕ → ℕ → Option ℕ → Kernel → Option ℕ × Kernel
unfolding copy_files dups
fork_at me i none k =
    let page = (slot k i).kstack in
    (
      none,
      record (assign k i (λ p. record p { pgdir = 0; kstack = 0; state = unused })) {
        freelist = page ∷ k.freelist;
      },
    )
fork_at me i (some dir) k =
    let cur = slot k me in
    (
      some (slot k i).pid,
      call
          (assign k i λ p. record p {
            pgdir = dir;
            sz = cur.sz;
            parent = some me;
            tf = record { eax = 0; eip = cur.tf.eip; esp = cur.tf.esp };
            ofile = copy_files cur.ofile p.ofile;
            cwd = cur.cwd;
            name = cur.name;
            is_thread = false;
            state = runnable;
          })
          (dups cur.ofile ++ on_cwd idup cur.cwd),
    )

-- `copyuvm`: of a page table, a size and the free list, the page table of the copy, if there is one,
-- and the free list that is left.
abbrev pub Copyuvm : Type 0
Copyuvm = ℕ → ℕ → List ℕ → Option ℕ × List ℕ

unfoldable pub fork_with : ℕ → Copyuvm → Option ℕ → Kernel → Option ℕ × Kernel
unfolding fork_at
fork_with me copyuvm none k = (none, k)
fork_with me copyuvm (some i) k =
    let cur = slot k me in
    let copied = copyuvm cur.pgdir cur.sz k.freelist in
    fork_at me i copied.0 (record k { freelist = copied.1 })

-- `none` in the result is -1.
unfoldable pub fork : ℕ → Copyuvm → Kernel → Option ℕ × Kernel
unfolding fork_with allocproc
fork me copyuvm k = let a = allocproc k in fork_with me copyuvm a.0 a.1

-- `clone` behind a successful `allocproc`. The two `poke`s are its stores through the stack pointer
-- that is in the copied trap frame at that point.
unfoldable pub clone_at : ℕ → ℕ → ℕ → ℕ → ℕ → Kernel → Option ℕ × Kernel
unfolding copy_files dups
clone_at me i start arg stack k =
    let cur = slot k me in
    (
      some (slot k i).pid,
      call
          (assign k i λ p. record p {
            sz = cur.sz;
            parent = some me;
            pgdir = cur.pgdir;
            is_thread = true;
            tf = record { eax = 0; eip = start; esp = (stack + page_size - 4 - 4) % u32_mod };
            ustack = stack;
            ofile = copy_files cur.ofile p.ofile;
            cwd = cur.cwd;
            name = cur.name;
            state = runnable;
          })
          (dups cur.ofile
            ++ (on_cwd idup cur.cwd
                ++ poke cur.tf.esp arg
                  ∷ poke ((cur.tf.esp + u32_mod - 16) % u32_mod) 0xffffffff
                  ∷ [])),
    )

unfoldable pub clone_with : ℕ → ℕ → ℕ → ℕ → Option ℕ → Kernel → Option ℕ × Kernel
unfolding clone_at
clone_with me start arg stack none k = (none, k)
clone_with me start arg stack (some i) k = clone_at me i start arg stack k

unfoldable pub clone : ℕ → ℕ → ℕ → ℕ → Kernel → Option ℕ × Kernel
unfolding clone_with allocproc
clone me start arg stack k =
    if ltb (slot k me).sz ((stack + page_size) % u32_mod)
    then (none, k)
    else (if not (stack % page_size == 0)
        then (none, k)
        else (let a = allocproc k in clone_with me start arg stack a.0 a.1))

abbrev pub to_chan : Option ℕ → Option Chan
to_chan none = none
to_chan (some i) = some (proc_chan i)

-- One turn of the loop of `exit` and `thexit` that passes children to init.
unfoldable pub reparent_slot : ℕ → Option ℕ → ℕ → List Proc → List Proc
reparent_slot me init i ps =
    let p = get_or ps i blank in
    let ps' = modify ps i (λ q. record q { parent = init }) in
    if is_child me p then (if is_zombie p.state then wakeup1 (to_chan init) ps' else ps') else ps

unfoldable pub reparent : ℕ → Option ℕ → ℕ → ℕ → List Proc → List Proc
unfolding reparent_slot
reparent me init zero i ps = ps
reparent me init (suc n) i ps = reparent me init n (suc i) (reparent_slot me init i ps)

-- From `begin_op` on, `exit` and `thexit` do the same; they end in `sched`, which does not return.
unfoldable pub leave : ℕ → Kernel → Kernel
unfolding reparent wakeup1
leave me k =
    let cur = slot k me in
    let k₁ = call k (begin_op ∷ (on_cwd iput cur.cwd ++ end_op ∷ [])) in
    let k₂ = assign k₁ me (λ p. record p { cwd = none }) in
    let ps = wakeup1 (to_chan cur.parent) k₂.procs in
    let ps' = reparent me k.initproc (length ps) 0 ps in
    assign (record k₂ { procs = ps' }) me (λ p. record p { state = zombie })

-- `none` is the panic "init exiting".
unfoldable pub thexit : ℕ → Kernel → Option Kernel
unfolding leave
thexit me k = if is_parent k.initproc me then none else some (leave me k)

unfoldable pub exit : ℕ → Kernel → Option Kernel
unfolding leave closes
exit me k =
    if is_parent k.initproc me
    then none
    else (let cur = slot k me in
        some (
          leave me (
            assign (call k (closes cur.ofile)) me
              (λ p. record p { ofile = map (λ _. none) p.ofile }))))
