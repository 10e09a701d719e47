-- ===== src/Kernel/Proc/Alloc.antt =====
-- allocproc of xv6-public/proc.c: the slot, the pid and the page that it gives.
use mathlib.Core.Path.{subst}
use c_s_e_hanyang.Base.{
  ℕ, zero, suc, ◌+◌, ◌≡◌, ◌<◌, refl, ap, ◌∙◌, true, List, [], ◌∷◌, Option, none, some, length,
  arith, inl, inr, Bool-cases,
}
use c_s_e_hanyang.Kernel.Proc.{Proc, embryo, Kernel, is_unused}
use c_s_e_hanyang.Kernel.Proc.Table.{
  slot, modify, first_unused, allocproc_at, at_found, give_stack, claim, kalloc, allocproc,
}
use c_s_e_hanyang.Kernel.Proc.Pids.{at}

first_unused-found :
    (i : ℕ) (ps : List Proc) (j : ℕ)
    → first_unused i ps ≡ some j
    → (n : ℕ) × (j ≡ i + n) × (n < length ps) × (is_unused (at ps n).state ≡ true)
unfolding first_unused
first_unused-found i [] j e = ground arith
first_unused-found i (p ∷ ps) j e = elim (Bool-cases (is_unused p.state)) [
  | inl free ↦ (0, ground arith, omega arith, ground arith)
  | inr busy ↦
      let r = first_unused-found (suc i) ps j (ground arith) in
      (suc r.0, omega (arith, r.1), omega (arith, r.2), r.3)
]

modify-modify :
    (f g : Proc → Proc) (ps : List Proc) (i : ℕ)
    → modify (modify ps i f) i g ≡ modify ps i (λ p. g (f p))
modify-modify f g [] i = refl
modify-modify f g (p ∷ ps) zero = refl
modify-modify f g (p ∷ ps) (suc i) = ap (λ qs. p ∷ qs) (modify-modify f g ps i)

abbrev pub fresh : ℕ → ℕ → Proc → Proc
fresh pid page p = record p { state = embryo; pid = pid; kstack = page }

-- `allocproc` gives a slot the next pid and the first free page, and touches no more of it.
give_stack-some :
    (i j : ℕ) (pages : List ℕ) (k : Kernel)
    → (give_stack i (kalloc pages) (claim k i)).0 ≡ some j
    → (page : ℕ) × (rest : List ℕ) × (i ≡ j)
      × (pages ≡ page ∷ rest)
      × ((give_stack i (kalloc pages) (claim k i)).1.freelist ≡ rest)
      × ((give_stack i (kalloc pages) (claim k i)).1.procs
          ≡ modify k.procs j (fresh k.nextpid page))
unfolding give_stack claim kalloc
give_stack-some i j [] k e = ground arith
give_stack-some i j (page ∷ rest) k e =
    let same : i ≡ j = ground arith in
    (
      page,
      rest,
      same,
      refl,
      refl,
      modify-modify (λ p. record p { state = embryo; pid = k.nextpid })
            (λ p. record p { kstack = page }) k.procs i
          ∙ ap (λ n. modify k.procs n (fresh k.nextpid page)) same,
    )

at_found-some :
    (found : Option ℕ) (k : Kernel) (j : ℕ)
    → (at_found found k).0 ≡ some j
    → (page : ℕ) × (rest : List ℕ) × (found ≡ some j)
      × (k.freelist ≡ page ∷ rest)
      × ((at_found found k).1.freelist ≡ rest)
      × ((at_found found k).1.procs ≡ modify k.procs j (fresh k.nextpid page))
unfolding at_found allocproc_at
at_found-some none k j e = ground arith
at_found-some (some i) k j e =
    let (page, rest, same, first, left, procs) = give_stack-some i j k.freelist k e in
    (page, rest, ap some same, first, left, procs)

pub allocproc-some :
    (k : Kernel) (i : ℕ)
    → (allocproc k).0 ≡ some i
    → (page : ℕ) × (rest : List ℕ) × (i < length k.procs)
      × (is_unused (slot k i).state ≡ true)
      × (k.freelist ≡ page ∷ rest)
      × ((allocproc k).1.freelist ≡ rest)
      × ((allocproc k).1.procs ≡ modify k.procs i (fresh k.nextpid page))
unfolding allocproc
allocproc-some k i e =
    let (page, rest, found, first, left, procs) = at_found-some (first_unused 0 k.procs) k i e in
    let f = first_unused-found 0 k.procs i found in
    let same : f.0 ≡ i = omega (arith, f.1) in
    (
      page,
      rest,
      omega (arith, same, f.2),
      subst (λ n. is_unused (slot k n).state ≡ true) same f.3,
      first,
      left,
      procs,
    )
