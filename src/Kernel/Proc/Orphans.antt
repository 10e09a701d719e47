-- ===== src/Kernel/Proc/Orphans.antt =====
-- What exit and thexit of xv6-public/proc.c leave behind.
use c_s_e_hanyang.Base.{
  ℕ, zero, suc, ◌+◌, ◌≡◌, ◌≤◌, ◌<◌, refl, ap, ◌∙◌, sym, true, false, List, [], ◌∷◌, Option, none,
  ◌==◌, if◌then◌else◌, length, arith, inl, inr, ◌⊎◌, Bool-cases,
}
use c_s_e_hanyang.Kernel.Proc.{Proc, zombie, Chan, Kernel, blank, is_zombie, is_child, is_parent}
use c_s_e_hanyang.Kernel.Proc.Table.{slot, modify, rouse, wakeup1}
use c_s_e_hanyang.Kernel.Proc.Life.{reparent_slot, reparent, leave, to_chan}
use c_s_e_hanyang.Kernel.Proc.Pids.{at, at-modify}

child-modify :
    (me : ℕ) (f : Proc → Proc)
    → ((p : Proc) → is_child me (f p) ≡ is_child me p)
    → (ps : List Proc) (i j : ℕ) → is_child me (at (modify ps i f) j) ≡ is_child me (at ps j)
child-modify me f same ps i j = elim (at-modify f ps i j) [
  | inl e ↦ ap (is_child me) e
  | inr e ↦ ap (is_child me) e.1 ∙ same (at ps i) ∙ ap (λ n. is_child me (at ps n)) (sym e.0)
]

child-wakeup1 :
    (me : ℕ) (c : Option Chan) (ps : List Proc) (j : ℕ)
    → is_child me (at (wakeup1 c ps) j) ≡ is_child me (at ps j)
unfolding wakeup1 rouse
child-wakeup1 me c [] j = refl
child-wakeup1 me c (p ∷ ps) zero = ground arith
child-wakeup1 me c (p ∷ ps) (suc j) = child-wakeup1 me c ps j

thread-wakeup1 :
    (c : Option Chan) (ps : List Proc) (j : ℕ)
    → (at (wakeup1 c ps) j).is_thread ≡ (at ps j).is_thread
unfolding wakeup1 rouse
thread-wakeup1 c [] j = refl
thread-wakeup1 c (p ∷ ps) zero = ground arith
thread-wakeup1 c (p ∷ ps) (suc j) = thread-wakeup1 c ps j

length-wakeup1 : (c : Option Chan) (ps : List Proc) → length (wakeup1 c ps) ≡ length ps
unfolding wakeup1
length-wakeup1 c [] = refl
length-wakeup1 c (p ∷ ps) = ap suc (length-wakeup1 c ps)

module _ (me : ℕ) (init : Option ℕ) (other : is_parent init me ≡ false) where
  child-adopt :
      (ps : List Proc) (i j : ℕ)
      → is_child me (at (modify ps i (λ q. record q { parent = init })) j)
        ≡ (if j == i then false else is_child me (at ps j))
  child-adopt [] i j = ground arith
  child-adopt (p ∷ ps) zero zero = other
  child-adopt (p ∷ ps) zero (suc j) = ground arith
  child-adopt (p ∷ ps) (suc i) zero = ground arith
  child-adopt (p ∷ ps) (suc i) (suc j) = ground (arith, child-adopt ps i j)

  child-reparent_slot :
      (ps : List Proc) (i j : ℕ)
      → is_child me (at (reparent_slot me init i ps) j)
        ≡ (if j == i then false else is_child me (at ps j))
  unfolding reparent_slot
  child-reparent_slot ps i j =
      let ps' = modify ps i (λ q. record q { parent = init }) in
      elim (Bool-cases (is_child me (at ps i))) [
        | inl c ↦ elim (Bool-cases (is_zombie (at ps i).state)) [
          | inl z ↦ rw (c, z, child-wakeup1 me (to_chan init) ps' j) (child-adopt ps i j)
          | inr z ↦ rw (c, z) (child-adopt ps i j)
        ]
        | inr c ↦ rw c (elim (Bool-cases (j == i)) [
          | inl e ↦
              let same : j ≡ i = ground arith in rw e (ap (λ n. is_child me (at ps n)) same ∙ c)
          | inr e ↦ rw e
        ])
      ]

  child-reparent :
      (n i : ℕ) (ps : List Proc) (j : ℕ)
      → is_child me (at (reparent me init n i ps) j) ≡ true
      → (is_child me (at ps j) ≡ true) × ((j < i) ⊎ (i + n ≤ j))
  unfolding reparent
  child-reparent zero i ps j c = (c, omega arith)
  child-reparent (suc n) i ps j c =
      let r = child-reparent n (suc i) (reparent_slot me init i ps) j c in
      ground (arith, r.0, r.1, child-reparent_slot ps i j)

at-beyond : (ps : List Proc) (j : ℕ) → length ps ≤ j → at ps j ≡ blank
at-beyond [] j h = refl
at-beyond (p ∷ ps) zero h = absurd (omega arith)
at-beyond (p ∷ ps) (suc j) h = at-beyond ps j (omega arith)

-- After exit or thexit by any process but init, no process has it as its parent.
pub leave-no_child :
    (me : ℕ) (k : Kernel)
    → is_parent k.initproc me ≡ false
    → (j : ℕ) → is_child me (slot (leave me k) j) ≡ false
unfolding leave
leave-no_child me k other j =
    let ps₁ = modify k.procs me (λ p. record p { cwd = none }) in
    let ps₂ = wakeup1 (to_chan (slot k me).parent) ps₁ in
    let ps₃ = reparent me k.initproc (length ps₂) 0 ps₂ in
    child-modify me (λ p. record p { state = zombie }) (λ p. refl) ps₃ me j
    ∙ elim (Bool-cases (is_child me (at ps₃ j))) [
      | inl c ↦
          let r = child-reparent me k.initproc other (length ps₂) 0 ps₂ j c in
          let far : length ps₂ ≤ j = omega (arith, r.1) in
          let no : is_child me (at ps₂ j) ≡ false = ap (is_child me) (at-beyond ps₂ j far) in
          ground (arith, r.0)
      | inr c ↦ c
    ]
