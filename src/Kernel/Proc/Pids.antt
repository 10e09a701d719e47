-- ===== src/Kernel/Proc/Pids.antt =====
-- No two live processes of xv6-public/proc.c share a pid, whatever calls are made.
use c_s_e_hanyang.Base.{
  ◌≤◌, ◌^◌, ◌-◌, ◌%◌, u32_mod, ℕ, zero, suc, ◌+◌, ◌≡◌, ◌<◌, refl, ap, ◌∙◌, sym, Bool, true, not,
  List, [], ◌∷◌, map, Option, none, some, ◌==◌, get_or, arith, inl, inr, ◌⊎◌, Bool-cases,
}
use c_s_e_hanyang.Kernel.Proc.{Proc, unused, embryo, Chan, Kernel, blank, is_unused}
use c_s_e_hanyang.Kernel.Proc.Table.{
  modify, rouse, wakeup1, first_unused, allocproc_at, at_found, give_stack, claim, kalloc,
  allocproc, kill_loop,
}

abbrev pub live : Proc → Bool
live p = not (is_unused p.state)

abbrev pub at : List Proc → ℕ → Proc
at ps i = get_or ps i blank

-- The pids of live processes are given out and distinct.
pub record PidsOk (next : ℕ) (ps : List Proc) : Type 0 where
  pub given : (i : ℕ) → live (at ps i) ≡ true → (at ps i).pid < next
  pub distinct :
      (i j : ℕ)
      → live (at ps i) ≡ true
      → live (at ps j) ≡ true
      → (at ps i).pid ≡ (at ps j).pid
      → i ≡ j

-- The change leaves no process live that was not, and no live process another pid.
abbrev pub Shrinks : List Proc → List Proc → Type 0
Shrinks ps qs =
    (i : ℕ) → live (at qs i) ≡ true → (live (at ps i) ≡ true) × ((at qs i).pid ≡ (at ps i).pid)

pub Shrinks-PidsOk :
    {next : ℕ} {ps qs : List Proc} → Shrinks ps qs → PidsOk next ps → PidsOk next qs
Shrinks-PidsOk {ps = ps} {qs = qs} s v = record {
  given = λ i l. omega (arith, (s i l).1, v.given i (s i l).0);
  distinct = λ i j l m e. v.distinct i j (s i l).0 (s j m).0 (sym (s i l).1 ∙ e ∙ (s j m).1);
}

pub Shrinks-trans : (ps qs rs : List Proc) → Shrinks ps qs → Shrinks qs rs → Shrinks ps rs
Shrinks-trans ps qs rs s t i l = let b = t i l in let a = s i b.0 in (a.0, b.1 ∙ a.1)

-- A function of one slot that shrinks, on one slot or on all.
abbrev pub Tame : (Proc → Proc) → Type 0
Tame f = (p : Proc) → live (f p) ≡ true → (live p ≡ true) × ((f p).pid ≡ p.pid)

pub Shrinks-modify :
    (f : Proc → Proc) → Tame f → (ps : List Proc) (i : ℕ) → Shrinks ps (modify ps i f)
Shrinks-modify f t [] i j l = (l, refl)
Shrinks-modify f t (p ∷ ps) zero zero l = t p l
Shrinks-modify f t (p ∷ ps) zero (suc j) l = (l, refl)
Shrinks-modify f t (p ∷ ps) (suc i) zero l = (l, refl)
Shrinks-modify f t (p ∷ ps) (suc i) (suc j) l = Shrinks-modify f t ps i j l

pub Shrinks-map : (f : Proc → Proc) → Tame f → (ps : List Proc) → Shrinks ps (map f ps)
Shrinks-map f t [] j l = (l, refl)
Shrinks-map f t (p ∷ ps) zero l = t p l
Shrinks-map f t (p ∷ ps) (suc j) l = Shrinks-map f t ps j l

rouse-Tame : (c : Option Chan) → Tame (rouse c)
unfolding rouse
rouse-Tame c p l = ground arith

pub wakeup1-Shrinks : (c : Option Chan) (ps : List Proc) → Shrinks ps (wakeup1 c ps)
unfolding wakeup1
wakeup1-Shrinks c ps = Shrinks-map (rouse c) (rouse-Tame c) ps

pub kill_loop-Shrinks : (pid : ℕ) (ps : List Proc) → Shrinks ps (kill_loop pid ps).1
unfolding kill_loop
kill_loop-Shrinks pid [] i l = (l, refl)
kill_loop-Shrinks pid (p ∷ ps) zero l = ground arith
kill_loop-Shrinks pid (p ∷ ps) (suc i) l = elim (Bool-cases (p.pid == pid)) [
  | inl hit ↦ ground arith
  | inr miss ↦ ground (arith, kill_loop-Shrinks pid ps i)
]

pub at-modify :
    (f : Proc → Proc) (ps : List Proc) (i j : ℕ)
    → (at (modify ps i f) j ≡ at ps j) ⊎ ((j ≡ i) × (at (modify ps i f) j ≡ f (at ps i)))
at-modify f [] i j = inl refl
at-modify f (p ∷ ps) zero zero = inr (refl, refl)
at-modify f (p ∷ ps) zero (suc j) = inl refl
at-modify f (p ∷ ps) (suc i) zero = inl refl
at-modify f (p ∷ ps) (suc i) (suc j) = elim (at-modify f ps i j) [
  | inl e ↦ inl e
  | inr e ↦ inr (ap suc e.0, e.1)
]

claimed : ℕ → Proc → Proc
claimed next p = record p { state = embryo; pid = next }

-- A slot that gets the next pid keeps the pids distinct.
claim-PidsOk :
    (next : ℕ) (ps : List Proc) (i : ℕ)
    → PidsOk next ps
    → PidsOk (next + 1) (modify ps i (claimed next))
unfolding claimed
claim-PidsOk next ps i v = record {
  given = λ j l. elim (at-modify (claimed next) ps i j) [
    | inl e ↦ ground (arith, v.given j)
    | inr e ↦ ground arith
  ];
  distinct = λ j m lj lm e. elim (at-modify (claimed next) ps i j) [
    | inl ej ↦ elim (at-modify (claimed next) ps i m) [
      | inl em ↦ ground (arith, v.distinct j m)
      | inr em ↦ ground (arith, v.given j)
    ]
    | inr ej ↦ elim (at-modify (claimed next) ps i m) [
      | inl em ↦ ground (arith, v.given m)
      | inr em ↦ ej.0 ∙ sym em.0
    ]
  ];
}

abbrev pub Ok : Kernel → Type 0
Ok k = PidsOk k.nextpid k.procs

-- A shrinking change with the same `nextpid`.
pub keep-Ok : (k k' : Kernel) → k'.nextpid ≡ k.nextpid → Shrinks k.procs k'.procs → Ok k → Ok k'
keep-Ok k k' e s v = rw e (Shrinks-PidsOk s v)

give_stack-Ok :
    (i : ℕ) (page : Option (ℕ × List ℕ)) (k : Kernel) → Ok k → Ok (give_stack i page k).1
unfolding give_stack
give_stack-Ok i none k v =
    Shrinks-PidsOk
      (Shrinks-modify (λ p. record p { kstack = 0; state = unused }) (λ p l. ground arith) k.procs
        i)
      v
give_stack-Ok i (some (page, pages)) k v =
    Shrinks-PidsOk (Shrinks-modify (λ p. record p { kstack = page }) (λ p l. (l, refl)) k.procs i) v

-- The pids have not run out: `nextpid` can be incremented as an `int`.
abbrev pub int_max : ℕ
int_max = 2 ^ 31 - 1

claim-Ok : (k : Kernel) (i : ℕ) → k.nextpid < int_max → Ok k → Ok (claim k i)
unfolding claim claimed
claim-Ok k i left v =
    let whole : (k.nextpid + 1) % u32_mod ≡ k.nextpid + 1 = omega arith in
    rw whole (claim-PidsOk k.nextpid k.procs i v)

at_found-Ok : (found : Option ℕ) (k : Kernel) → k.nextpid < int_max → Ok k → Ok (at_found found k).1
unfolding at_found
at_found-Ok none k left v = v
at_found-Ok (some i) k left v =
    unfold allocproc_at in give_stack-Ok i (kalloc k.freelist) (claim k i) (claim-Ok k i left v)

pub allocproc-Ok : (k : Kernel) → k.nextpid < int_max → Ok k → Ok (allocproc k).1
unfolding allocproc
allocproc-Ok k left v = at_found-Ok (first_unused 0 k.procs) k left v

at_found-nextpid : (found : Option ℕ) (k : Kernel) → (at_found found k).1.nextpid ≤ k.nextpid + 1
unfolding at_found allocproc_at claim
at_found-nextpid none k = omega arith
at_found-nextpid (some i) k =
    elim (kalloc k.freelist)
      as (λ page. (give_stack i page (claim k i)).1.nextpid ≤ k.nextpid + 1) [
        | none ↦ unfold give_stack in (omega arith)
        | some (page, pages) ↦ unfold give_stack in (omega arith)
      ]

pub allocproc-nextpid : (k : Kernel) → (allocproc k).1.nextpid ≤ k.nextpid + 1
unfolding allocproc
allocproc-nextpid k = at_found-nextpid (first_unused 0 k.procs) k
