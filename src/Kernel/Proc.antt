-- ===== src/Kernel/Proc.antt =====
-- xv6-public/proc.c and proc.h: the process table, with the threads that clone, join and thexit add.
-- A process is named by its slot. Calls into other files that change state there are collected in
-- `calls`, in order; what they return is an argument.
pub mod Table
pub mod Life
pub mod Reap
pub mod Sched
pub mod Pids
pub mod Calls
pub mod Trace
pub mod Nextpid
pub mod Distinct
pub mod Scan
pub mod Kids
pub mod Family
pub mod Orphans
pub mod Alloc
pub mod Child
pub mod Grow
mod Tests
use c_s_e_hanyang.Base.{
  ℕ, ◌+◌, Bool, true, false, List, [], ◌∷◌, ◌++◌, Option, none, some, ◌==◌, replicate,
}

pub data ProcState : Type 0 where
  unused embryo sleeping runnable running zombie : ProcState

-- What a sleeper waits on: a process, or another address of the kernel.
pub data Chan : Type 0 where
  proc_chan addr_chan : ℕ → Chan

-- The registers of the trap frame that this file sets.
pub record TrapFrame : Type 0 where
  pub eax : ℕ
  pub eip : ℕ
  pub esp : ℕ

-- `struct proc`; an absent pointer is `none` or 0. The saved kernel context is not modelled.
pub record Proc : Type 0 where
  pub sz : ℕ
  pub pgdir : ℕ
  pub kstack : ℕ
  pub state : ProcState
  pub pid : ℕ
  pub parent : Option ℕ
  pub tf : TrapFrame
  pub chan : Option Chan
  pub killed : Bool
  pub ofile : List (Option ℕ)
  pub cwd : Option ℕ
  pub name : List ℕ
  pub is_thread : Bool
  pub ustack : ℕ
  pub retval : ℕ

-- The calls that change the state of other files.
pub data Call : Type 0 where
  filedup fileclose idup iput freevm kfree : ℕ → Call
  begin_op end_op : Call
  poke : ℕ → ℕ → Call

-- `ptable`, `nextpid`, `initproc` and the free list of kalloc.c.
pub record Kernel : Type 0 where
  pub procs : List Proc
  pub nextpid : ℕ
  pub initproc : Option ℕ
  pub freelist : List ℕ
  pub calls : List Call

abbrev pub is_unused : ProcState → Bool
is_unused unused = true
is_unused _ = false

abbrev pub is_sleeping : ProcState → Bool
is_sleeping sleeping = true
is_sleeping _ = false

abbrev pub is_runnable : ProcState → Bool
is_runnable runnable = true
is_runnable _ = false

abbrev pub is_zombie : ProcState → Bool
is_zombie zombie = true
is_zombie _ = false

abbrev pub is_parent : Option ℕ → ℕ → Bool
is_parent none me = false
is_parent (some i) me = i == me

-- `p->parent == proc` for the process in slot `me`.
abbrev pub is_child : ℕ → Proc → Bool
is_child me p = is_parent p.parent me

abbrev pub chan_eq : Chan → Chan → Bool
chan_eq (proc_chan i) (proc_chan j) = i == j
chan_eq (addr_chan i) (addr_chan j) = i == j
chan_eq _ _ = false

abbrev pub on_chan : Option Chan → Option Chan → Bool
on_chan none none = true
on_chan none (some c) = false
on_chan (some d) none = false
on_chan (some d) (some c) = chan_eq d c

-- A slot of the zeroed table.
abbrev pub blank : Proc
blank = record {
  sz = 0;
  pgdir = 0;
  kstack = 0;
  state = unused;
  pid = 0;
  parent = none;
  tf = record { eax = 0; eip = 0; esp = 0 };
  chan = none;
  killed = false;
  ofile = replicate 16 none;
  cwd = none;
  name = [];
  is_thread = false;
  ustack = 0;
  retval = 0;
}

abbrev pub call : Kernel → List Call → Kernel
call k cs = record k { calls = k.calls ++ cs }
