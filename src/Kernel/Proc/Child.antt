-- ===== src/Kernel/Proc/Child.antt =====
-- What fork of xv6-public/proc.c writes into the slot of the child.
use mathlib.Core.Path.{subst, ap₂}
use c_s_e_hanyang.Base.{
  ℕ, zero, suc, ◌≡◌, ◌<◌, ◌≢◌, refl, ap, ◌∙◌, sym, true, false, List, [], ◌∷◌, Option, none, some,
  if◌then◌else◌, length, get_or, ltb, arith,
}
use c_s_e_hanyang.Kernel.Proc.{Proc, runnable, Kernel, is_unused}
use c_s_e_hanyang.Kernel.Proc.Table.{slot, modify, allocproc}
use c_s_e_hanyang.Kernel.Proc.Alloc.{fresh, allocproc-some}
use c_s_e_hanyang.Kernel.Proc.Life.{copy_files, Copyuvm, fork_at, fork_with, fork}
use c_s_e_hanyang.Kernel.Proc.Pids.{at}
use c_s_e_hanyang.Kernel.Proc.Family.{at-modify_ne}
use c_s_e_hanyang.Kernel.Proc.Calls.{at-modify_self, length-modify}

-- The child of `cur`, in slot `me`, in a slot that was `old`.
pub record IsChild (me : ℕ) (cur old : Proc) (p : Proc) : Type 0 where
  pub parent : p.parent ≡ some me
  pub state : p.state ≡ runnable
  pub sz : p.sz ≡ cur.sz
  pub result : p.tf.eax ≡ 0
  pub eip : p.tf.eip ≡ cur.tf.eip
  pub esp : p.tf.esp ≡ cur.tf.esp
  pub cwd : p.cwd ≡ cur.cwd
  pub name : p.name ≡ cur.name
  pub process : p.is_thread ≡ false
  pub file_count : length p.ofile ≡ length old.ofile
  pub files :
      (fd : ℕ)
      → get_or p.ofile fd none ≡ (
          if ltb fd (length old.ofile)
          then (elim (get_or cur.ofile fd none) [
            | some f ↦ some f
            | none ↦ get_or old.ofile fd none
          ])
          else none)
  pub killed_kept : p.killed ≡ old.killed
  pub chan_kept : p.chan ≡ old.chan
  pub ustack_kept : p.ustack ≡ old.ustack
  pub retval_kept : p.retval ≡ old.retval

length-copy_files : (xs ys : List (Option ℕ)) → length (copy_files xs ys) ≡ length ys
unfolding copy_files
length-copy_files [] ys = refl
length-copy_files (x ∷ xs) [] = refl
length-copy_files (none ∷ xs) (y ∷ ys) = ap suc (length-copy_files xs ys)
length-copy_files (some f ∷ xs) (y ∷ ys) = ap suc (length-copy_files xs ys)

get_or_self :
    (ys : List (Option ℕ)) (fd : ℕ)
    → get_or ys fd none ≡ (if ltb fd (length ys) then get_or ys fd none else none)
get_or_self [] fd = ground arith
get_or_self (y ∷ ys) zero = ground arith
get_or_self (y ∷ ys) (suc fd) = ground (arith, get_or_self ys fd)

get_or-copy_files :
    (xs ys : List (Option ℕ)) (fd : ℕ)
    → get_or (copy_files xs ys) fd none ≡ (
        if ltb fd (length ys)
        then (elim (get_or xs fd none) [ some f ↦ some f | none ↦ get_or ys fd none ])
        else none)
unfolding copy_files
get_or-copy_files [] ys fd = get_or_self ys fd
get_or-copy_files (x ∷ xs) [] fd = ground arith
get_or-copy_files (none ∷ xs) (y ∷ ys) zero = ground arith
get_or-copy_files (some f ∷ xs) (y ∷ ys) zero = ground arith
get_or-copy_files (none ∷ xs) (y ∷ ys) (suc fd) = ground (arith, get_or-copy_files xs ys fd)
get_or-copy_files (some f ∷ xs) (y ∷ ys) (suc fd) = ground (arith, get_or-copy_files xs ys fd)

-- What `fork_at` assigns to the slot.
abbrev filled_in : ℕ → ℕ → Proc → Proc → Proc
filled_in me dir cur p = record p {
  pgdir = dir;
  sz = cur.sz;
  parent = some me;
  tf = record { eax = 0; eip = cur.tf.eip; esp = cur.tf.esp };
  ofile = copy_files cur.ofile p.ofile;
  cwd = cur.cwd;
  name = cur.name;
  is_thread = false;
  state = runnable;
}

filled_in-IsChild :
    (me dir pid page : ℕ) (cur old : Proc)
    → IsChild me cur old (filled_in me dir cur (fresh pid page old))
filled_in-IsChild me dir pid page cur old = record {
  parent = refl;
  state = refl;
  sz = refl;
  result = refl;
  eip = refl;
  esp = refl;
  cwd = refl;
  name = refl;
  process = refl;
  file_count = length-copy_files cur.ofile old.ofile;
  files = λ fd. get_or-copy_files cur.ofile old.ofile fd;
  killed_kept = refl;
  chan_kept = refl;
  ustack_kept = refl;
  retval_kept = refl;
}

fork_at-some :
    (me i : ℕ) (copied : Option ℕ) (k : Kernel) (pid : ℕ)
    → (fork_at me i copied k).0 ≡ some pid
    → (dir : ℕ) × (copied ≡ some dir)
      × (pid ≡ (slot k i).pid)
      × ((fork_at me i copied k).1.procs ≡ modify k.procs i (filled_in me dir (slot k me)))
unfolding fork_at
fork_at-some me i none k pid e = ground arith
fork_at-some me i (some dir) k pid e = (dir, refl, ground arith, refl)

fork_with-some :
    (me : ℕ) (copyuvm : Copyuvm) (found : Option ℕ) (k : Kernel) (pid : ℕ)
    → (fork_with me copyuvm found k).0 ≡ some pid
    → (i : ℕ) × (dir : ℕ) × (found ≡ some i)
      × ((copyuvm (slot k me).pgdir (slot k me).sz k.freelist).0 ≡ some dir)
      × (pid ≡ (slot k i).pid)
      × ((fork_with me copyuvm found k).1.procs ≡ modify k.procs i (filled_in me dir (slot k me)))
unfolding fork_with
fork_with-some me copyuvm none k pid e = ground arith
fork_with-some me copyuvm (some i) k pid e =
    let copied = copyuvm (slot k me).pgdir (slot k me).sz k.freelist in
    let (dir, copy, given, procs) =
      fork_at-some me i copied.0 (record k { freelist = copied.1 }) pid e in
    (i, dir, refl, copy, given, procs)

-- What a fork that returns `pid` has done.
pub record Forked (me : ℕ) (copyuvm : Copyuvm) (k k' : Kernel) (pid : ℕ) : Type 0 where
  pub child : ℕ
  pub page : ℕ
  pub rest : List ℕ
  pub dir : ℕ
  pub was_free : is_unused (slot k child).state ≡ true
  pub next : pid ≡ k.nextpid
  pub stack_page : k.freelist ≡ page ∷ rest
  pub copied : (copyuvm (slot k me).pgdir (slot k me).sz rest).0 ≡ some dir
  pub is_child : IsChild me (slot k me) (slot k child) (slot k' child)
  pub pid_set : (slot k' child).pid ≡ pid
  pub kstack_set : (slot k' child).kstack ≡ page
  pub pgdir_set : (slot k' child).pgdir ≡ dir
  pub others : (j : ℕ) → child ≢ j → slot k' j ≡ slot k j

-- A fork by a live process that succeeds returns the next pid, and its child is in a slot that was
-- unused, with the first free page for its stack and the copy of the caller's memory that copyuvm makes
-- with the other pages: it has the caller's size, directory, name and trap frame (with 0 for the
-- result), the caller's file in each descriptor that the caller has open, and is runnable. Whatever the
-- code does not assign, such as `killed` and the descriptors that the caller has closed, is what the
-- slot's previous owner left there. No other slot changes.
pub fork_child :
    (me : ℕ) (copyuvm : Copyuvm) (k : Kernel) (pid : ℕ)
    → is_unused (slot k me).state ≡ false
    → (fork me copyuvm k).0 ≡ some pid
    → Forked me copyuvm k (fork me copyuvm k).1 pid
unfolding fork
fork_child me copyuvm k pid busy e =
    let (i, dir, found, copy, given, procs) =
      fork_with-some me copyuvm (allocproc k).0 (allocproc k).1 pid e in
    let (page, rest, inside, free, first, left, claimed) = allocproc-some k i found in
    let k' : Kernel = (fork_with me copyuvm (allocproc k).0 (allocproc k).1).1 in
    let f : Proc → Proc = fresh k.nextpid page in
    let apart : i ≢ me = λ w.
      let clash : is_unused (slot k i).state ≡ false =
        subst (λ n. is_unused (slot k n).state ≡ false) (sym w) busy in
      ground arith in
    let mine : slot (allocproc k).1 me ≡ slot k me =
      ap (λ ps. at ps me) claimed ∙ at-modify_ne f k.procs i me apart in
    let its : slot (allocproc k).1 i ≡ f (slot k i) =
      ap (λ ps. at ps i) claimed ∙ at-modify_self f k.procs i inside in
    let long : i < length (allocproc k).1.procs =
      omega (arith, ap length claimed, length-modify f k.procs i) in
    let after : slot k' i ≡ filled_in me dir (slot k me) (f (slot k i)) =
      ap (λ ps. at ps i) procs
      ∙ at-modify_self (filled_in me dir (slot (allocproc k).1 me)) (allocproc k).1.procs i long
      ∙ ap₂ (λ (c p : Proc). filled_in me dir c p) mine its in
    let number : pid ≡ k.nextpid = given ∙ ap (λ (p : Proc). p.pid) its in
    record {
      child = i;
      page = page;
      rest = rest;
      dir = dir;
      was_free = free;
      next = number;
      stack_page = first;
      copied =
          ap₂ (λ (c : Proc) (fl : List ℕ). (copyuvm c.pgdir c.sz fl).0) (sym mine) (sym left)
          ∙ copy;
      is_child =
          subst (IsChild me (slot k me) (slot k i)) (sym after)
            (filled_in-IsChild me dir k.nextpid page (slot k me) (slot k i));
      pid_set = ap (λ (p : Proc). p.pid) after ∙ sym number;
      kstack_set = ap (λ (p : Proc). p.kstack) after;
      pgdir_set = ap (λ (p : Proc). p.pgdir) after;
      others = λ j ne.
          ap (λ ps. at ps j) procs
          ∙ at-modify_ne (filled_in me dir (slot (allocproc k).1 me)) (allocproc k).1.procs i j ne
          ∙ ap (λ ps. at ps j) claimed
          ∙ at-modify_ne f k.procs i j ne;
    }
