-- ===== src/Kernel/Proc/Tests.antt =====
-- The process table of xv6-public/proc.c at concrete inputs.
use c_s_e_hanyang.Base.{
  ℕ, zero, suc, ◌≡◌, ◌<◌, refl, true, false, [], ◌∷◌, none, some, arith, replicate, elem,
}
use c_s_e_hanyang.Kernel.Proc.{Proc, runnable, running, zombie, Kernel, blank, is_child}
use c_s_e_hanyang.Kernel.Proc.Table.{slot, growproc, allocproc, kalloc, first_unused, claim}
use c_s_e_hanyang.Kernel.Proc.Life.{Copyuvm, fork, leave}
use c_s_e_hanyang.Kernel.Proc.Reap.{wait, join}
use c_s_e_hanyang.Kernel.Proc.Sched.{pass, pass-elem}
use c_s_e_hanyang.Kernel.Proc.Pids.{PidsOk, live, at}
use c_s_e_hanyang.Kernel.Proc.Trace.{forks, exits, waits, kills, dispatches, run}
use c_s_e_hanyang.Kernel.Proc.Distinct.{run-PidsOk}
use c_s_e_hanyang.Kernel.Proc.Family.{WaitTurn, wait_lem, JoinTurn, join_lem, wait-thread}
use c_s_e_hanyang.Kernel.Proc.Orphans.{leave-no_child}
use c_s_e_hanyang.Kernel.Proc.Child.{Forked, fork_child}
use c_s_e_hanyang.Kernel.Proc.Grow.{growproc-sz}

-- Slot 0 is init; 1 is a shell, 2 a dead thread of it, 3 free with the leavings of a killed process.
abbrev init_proc : Proc
init_proc = record blank { state = running; pid = 1; sz = 4096 }

abbrev shell : Proc
shell = record blank { state = running; pid = 2; parent = some 0; sz = 8192; cwd = some 1 }

abbrev thread : Proc
thread = record blank {
  state = zombie;
  pid = 3;
  parent = some 1;
  is_thread = true;
  sz = 8192;
  retval = 7;
}

abbrev leavings : Proc
leavings = record blank { killed = true; ofile = some 5 ∷ replicate 15 none }

abbrev machine : Kernel
machine = record {
  procs = init_proc ∷ shell ∷ thread ∷ leavings ∷ [];
  nextpid = 4;
  initproc = some 0;
  freelist = 12288 ∷ 16384 ∷ [];
  calls = [];
}

-- A copy that takes one page.
abbrev copy_at_77 : Copyuvm
copy_at_77 dir sz [] = (none, [])
copy_at_77 dir sz (page ∷ pages) = (some 77, pages)

machine-PidsOk : PidsOk 4 machine.procs
machine-PidsOk = record { given = given; distinct = distinct }
  where
    given : (i : ℕ) → live (at machine.procs i) ≡ true → (at machine.procs i).pid < 4
    given zero l = omega arith
    given (suc zero) l = omega arith
    given (suc (suc zero)) l = omega arith
    given (suc (suc (suc zero))) l = ground arith
    given (suc (suc (suc (suc i)))) l = ground arith

    distinct :
        (i j : ℕ)
        → live (at machine.procs i) ≡ true
        → live (at machine.procs j) ≡ true
        → (at machine.procs i).pid ≡ (at machine.procs j).pid
        → i ≡ j
    distinct zero zero l m e = refl
    distinct zero (suc zero) l m e = ground arith
    distinct zero (suc (suc zero)) l m e = ground arith
    distinct zero (suc (suc (suc zero))) l m e = ground arith
    distinct (suc zero) zero l m e = ground arith
    distinct (suc zero) (suc zero) l m e = refl
    distinct (suc zero) (suc (suc zero)) l m e = ground arith
    distinct (suc zero) (suc (suc (suc zero))) l m e = ground arith
    distinct (suc (suc zero)) zero l m e = ground arith
    distinct (suc (suc zero)) (suc zero) l m e = ground arith
    distinct (suc (suc zero)) (suc (suc zero)) l m e = refl
    distinct (suc (suc zero)) (suc (suc (suc zero))) l m e = ground arith
    distinct (suc (suc (suc zero))) j l m e = ground arith
    distinct (suc (suc (suc (suc i)))) j l m e = ground arith
    distinct zero (suc (suc (suc (suc j)))) l m e = ground arith
    distinct (suc zero) (suc (suc (suc (suc j)))) l m e = ground arith
    distinct (suc (suc zero)) (suc (suc (suc (suc j)))) l m e = ground arith

run-PidsOk_example :
    let k = run (forks 1 copy_at_77 ∷ kills 3 ∷ exits 1 ∷ waits 0 ∷ dispatches 1 ∷ []) machine in
    PidsOk k.nextpid k.procs
run-PidsOk_example =
    run-PidsOk (forks 1 copy_at_77 ∷ kills 3 ∷ exits 1 ∷ waits 0 ∷ dispatches 1 ∷ []) machine
      machine-PidsOk (omega arith)

wait_lem_example : WaitTurn 0 machine (wait 0 machine)
wait_lem_example = wait_lem 0 machine

join_lem_example : JoinTurn 1 3 machine (join 1 3 machine)
join_lem_example = join_lem 1 3 machine

wait-thread_example : slot (wait 0 machine).1 2 ≡ thread
wait-thread_example = wait-thread 0 2 machine (λ e. omega arith) refl

leave-no_child_example : is_child 1 (slot (leave 1 machine) 2) ≡ false
leave-no_child_example = leave-no_child 1 machine refl 2

fork_child_example : Forked 1 copy_at_77 machine (fork 1 copy_at_77 machine).1 4
fork_child_example =
    fork_child 1 copy_at_77 machine 4 refl (unfold fork first_unused kalloc allocproc claim in refl)

growproc-sz_example : (slot (growproc 1 (some 12288) machine).1 0).sz ≡ 12288
growproc-sz_example = growproc-sz 1 12288 machine 0 (omega arith) (omega arith) (omega arith)

abbrev two_ready : Kernel
two_ready = record machine {
  procs = record shell { state = runnable } ∷ record shell { state = runnable } ∷ [];
}

pass-elem_example : elem 1 (pass 2 (λ _. two_ready) 0) ≡ true
pass-elem_example = pass-elem 2 (λ _. two_ready) 0 1 (omega arith) (omega arith) (λ t lt. refl)
