-- ===== src/Kernel/Proc/Calls.antt =====
-- Any sequence of the calls of xv6-public/proc.c by live processes keeps the pids distinct.
use c_s_e_hanyang.Base.{
  ℕ, zero, suc, ◌≡◌, ◌<◌, refl, ap, true, List, [], ◌∷◌, Option, none, some, length, arith,
}
use c_s_e_hanyang.Kernel.Proc.{Proc, unused, embryo, Kernel}
use c_s_e_hanyang.Kernel.Proc.Table.{
  slot, modify, allocproc_at, at_found, give_stack, claim, kalloc,
}
use c_s_e_hanyang.Kernel.Proc.Life.{fork_at, fork_with, Copyuvm, clone_at, clone_with}
use c_s_e_hanyang.Kernel.Proc.Pids.{live, at, Shrinks, Shrinks-PidsOk, Shrinks-modify, Ok}

-- A slot that is live may take any live state.
pub Shrinks-modify-live :
    (f : Proc → Proc) (ps : List Proc) (i : ℕ)
    → ((p : Proc) → (f p).pid ≡ p.pid)
    → (i < length ps → live (at ps i) ≡ true)
    → Shrinks ps (modify ps i f)
Shrinks-modify-live f [] i same l j m = (m, refl)
Shrinks-modify-live f (p ∷ ps) zero same l zero m = (l (omega arith), same p)
Shrinks-modify-live f (p ∷ ps) zero same l (suc j) m = (m, refl)
Shrinks-modify-live f (p ∷ ps) (suc i) same l zero m = (m, refl)
Shrinks-modify-live f (p ∷ ps) (suc i) same l (suc j) m =
    Shrinks-modify-live f ps i same (λ h. l (omega arith)) j m

pub at-modify_self :
    (f : Proc → Proc) (ps : List Proc) (i : ℕ) → i < length ps → at (modify ps i f) i ≡ f (at ps i)
at-modify_self f [] i h = elim h [ ]
at-modify_self f (p ∷ ps) zero h = refl
at-modify_self f (p ∷ ps) (suc i) h = at-modify_self f ps i (omega arith)

pub length-modify : (f : Proc → Proc) (ps : List Proc) (i : ℕ) → length (modify ps i f) ≡ length ps
length-modify f [] i = refl
length-modify f (p ∷ ps) zero = refl
length-modify f (p ∷ ps) (suc i) = ap suc (length-modify f ps i)

-- The slot that `allocproc` gives is live, if it is one of the table.
give_stack-live :
    (i : ℕ) (page : Option (ℕ × List ℕ)) (k : Kernel) (j : ℕ)
    → (i < length k.procs → live (slot k i) ≡ true)
    → (give_stack i page k).0 ≡ some j
    → j < length (give_stack i page k).1.procs
    → live (slot (give_stack i page k).1 j) ≡ true
unfolding give_stack
give_stack-live i none k j l e h = ground arith
give_stack-live i (some (page, pages)) k j l e h =
    let f : Proc → Proc = λ p. record p { kstack = page } in
    let same : i ≡ j = ground arith in
    let inside : i < length k.procs = omega (arith, length-modify f k.procs i) in
    let now : live (at (modify k.procs i f) i) ≡ true =
      rw (at-modify_self f k.procs i inside) (l inside) in
    rw (← same) now

pub at_found-live :
    (found : Option ℕ) (k : Kernel) (j : ℕ)
    → (at_found found k).0 ≡ some j
    → j < length (at_found found k).1.procs
    → live (slot (at_found found k).1 j) ≡ true
unfolding at_found
at_found-live none k j e h = ground arith
at_found-live (some i) k j e h =
    unfold allocproc_at in
    give_stack-live i (kalloc k.freelist) (claim k i) j
      (unfold claim in
        (λ inside.
          let f : Proc → Proc = λ p. record p { state = embryo; pid = k.nextpid } in
          let lt : i < length k.procs = omega (arith, length-modify f k.procs i) in
          rw (at-modify_self f k.procs i lt) refl))
      e h

fork_at-Ok :
    (me i : ℕ) (dir : Option ℕ) (k : Kernel)
    → (i < length k.procs → live (slot k i) ≡ true)
    → Ok k
    → Ok (fork_at me i dir k).1
unfolding fork_at
fork_at-Ok me i none k l v =
    Shrinks-PidsOk
      (Shrinks-modify (λ p. record p { pgdir = 0; kstack = 0; state = unused })
        (λ p m. ground arith) k.procs i)
      v
fork_at-Ok me i (some dir) k l v = Shrinks-PidsOk (Shrinks-modify-live _ k.procs i (λ p. refl) l) v

pub fork_with-Ok :
    (me : ℕ) (copyuvm : Copyuvm) (found : Option ℕ) (k : Kernel)
    → ((j : ℕ) → found ≡ some j → j < length k.procs → live (slot k j) ≡ true)
    → Ok k
    → Ok (fork_with me copyuvm found k).1
unfolding fork_with
fork_with-Ok me copyuvm none k l v = v
fork_with-Ok me copyuvm (some i) k l v =
    let copied = copyuvm (slot k me).pgdir (slot k me).sz k.freelist in
    fork_at-Ok me i copied.0 (record k { freelist = copied.1 }) (l i refl)
      (record { given = v.given; distinct = v.distinct })

pub clone_with-Ok :
    (me start arg stack : ℕ) (found : Option ℕ) (k : Kernel)
    → ((j : ℕ) → found ≡ some j → j < length k.procs → live (slot k j) ≡ true)
    → Ok k
    → Ok (clone_with me start arg stack found k).1
unfolding clone_with clone_at
clone_with-Ok me start arg stack none k l v = v
clone_with-Ok me start arg stack (some i) k l v =
    Shrinks-PidsOk (Shrinks-modify-live _ k.procs i (λ p. refl) (l i refl)) v

fork_at-nextpid :
    (me i : ℕ) (dir : Option ℕ) (k : Kernel) → (fork_at me i dir k).1.nextpid ≡ k.nextpid
unfolding fork_at
fork_at-nextpid me i none k = refl
fork_at-nextpid me i (some dir) k = refl

pub fork_with-nextpid :
    (me : ℕ) (copyuvm : Copyuvm) (found : Option ℕ) (k : Kernel)
    → (fork_with me copyuvm found k).1.nextpid ≡ k.nextpid
unfolding fork_with
fork_with-nextpid me copyuvm none k = refl
fork_with-nextpid me copyuvm (some i) k = fork_at-nextpid me i _ _

pub clone_with-nextpid :
    (me start arg stack : ℕ) (found : Option ℕ) (k : Kernel)
    → (clone_with me start arg stack found k).1.nextpid ≡ k.nextpid
unfolding clone_with clone_at
clone_with-nextpid me start arg stack none k = refl
clone_with-nextpid me start arg stack (some i) k = refl
