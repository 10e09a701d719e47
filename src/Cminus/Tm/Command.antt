-- ===== src/Cminus/Tm/Command.antt =====
-- doCommand of tm.c, less the text that it prints. The terminal's lines are those that the machine
-- reads too.
use c_s_e_hanyang.Base.{
  ℕ, zero, suc, ◌+◌, ◌≡◌, refl, ap, ◌∙◌, Bool, not, List, [], ◌∷◌, if◌then◌else◌, ltb, ◌==◌, Option,
  none, some, arith,
}
use c_s_e_hanyang.Base.Int.{ℤ, pos, negsuc, pos_part, neg_part}
use c_s_e_hanyang.Cminus.Tm.{
  StepResult, okay, halted, imem_err, dmem_err, zero_divide, cleared_reg, cleared_dmem, iaddr_size,
  daddr_size, pc_reg,
}
use c_s_e_hanyang.Cminus.Tm.Line.{get_num, get_word, at_eol}
use c_s_e_hanyang.Cminus.Tm.Step.{World, Outcome, returns, undefined, blocked, step_tm, reg_at}

pub record Simulator : Type 0 where
  pub world : World
  pub iloc : ℤ
  pub dloc : ℤ
  pub traceflag : Bool
  pub icountflag : Bool

-- How the stepping loops stop: with a result, by an access past an array, or at the terminal.
pub data Ending : Type 0 where
  ended : StepResult → Simulator → Ending
  faulted : Ending
  waiting : World → Ending

abbrev pub stepped : World → Simulator → Simulator
stepped w sim = record sim { world = w; iloc = reg_at sim.world.machine (pos pc_reg) }

-- One turn of the stepping loops, which `go` continues while the result is `srOKAY`.
unfoldable pub follow : (Simulator → Ending) → Simulator → Outcome → Ending
follow go sim undefined = faulted
follow go sim (blocked w) = waiting w
follow go sim (returns okay w) = go (stepped w sim)
follow go sim (returns r w) = ended r (stepped w sim)

-- The loop of `s`, for `n` more steps; with the fuel `n` it is the loop of `g`, which has not ended
-- when the result is `srOKAY`.
unfoldable pub steps : ℕ → Simulator → Ending
unfolding follow step_tm
steps zero sim = ended okay sim
steps (suc n) sim = follow (λ s. steps n s) sim (step_tm sim.world)

-- The loop that reads a line with a word on it: its first letter, and the rest of the line.
unfoldable pub read_command : List (List ℕ) → Option (ℕ × List ℕ × List (List ℕ))
unfolding get_word
read_command [] = none
read_command (l ∷ ls) =
    let later = read_command ls in
    let (word, rest) = get_word l in elim word [ [] ↦ later | c ∷ w ↦ some (c, rest, ls) ]

-- The loops of `i` and `d` for `n` more locations: those that are printed, and where they stop.
unfoldable pub listing : ℕ → ℕ → ℤ → List ℕ × ℤ
listing bound zero loc = ([], loc)
listing bound (suc n) (negsuc a) = ([], negsuc a)
listing bound (suc n) (pos a) =
    let more = listing bound n (pos (suc a)) in
    if ltb a bound then (a ∷ more.0, more.1) else ([], pos a)

-- The arguments of `i` and `d`: the location, `printcnt`, and whether the line ends there.
unfoldable pub list_args : ℤ → List ℕ → ℤ × ℤ × Bool
unfolding get_num at_eol
list_args loc cs =
    let (ok₁, first, cs₁) = get_num cs in
    let (ok₂, second, cs₂) = get_num cs₁ in
    if ok₁ then (first, (if ok₂ then second else pos 1), at_eol cs₂) else (loc, pos 1, at_eol cs₁)

unfoldable pub list_from : ℕ → ℤ → List ℕ → List ℕ × ℤ
unfolding list_args listing
list_from bound loc cs =
    let (start, count, clean) = list_args loc cs in
    if clean then listing bound (pos_part count) start else ([], start)

-- `stepcnt` for the command `s`.
unfoldable pub step_count : List ℕ → ℕ
unfolding get_num at_eol
step_count cs =
    let (ok, num, rest) = get_num cs in
    if at_eol cs then 1 else (if ok then pos_part num + neg_part num else 0)

unfoldable pub clear_machine : Simulator → Simulator
unfolding cleared_dmem
clear_machine sim = record sim {
  iloc = pos 0;
  dloc = pos 0;
  world = record sim.world {
    machine = record sim.world.machine { reg = cleared_reg; dmem = cleared_dmem };
  };
}

-- What a command does: it runs the machine, prints locations of a memory, or leaves.
pub data Effect : Type 0 where
  runs : Ending → Effect
  lists : List ℕ → Simulator → Effect
  quits no_command : Effect

-- The `switch`, and the loops behind it; `fuel` is for `g`.
unfoldable pub perform : ℕ → ℕ → List ℕ → Simulator → Effect
unfolding steps list_from step_count clear_machine
perform fuel c rest sim =
    if c == b't'
    then lists [] (record sim { traceflag = not sim.traceflag })
    else (if c == b'p'
        then lists [] (record sim { icountflag = not sim.icountflag })
        else (if c == b's'
            then runs (steps (step_count rest) sim)
            else (if c == b'g'
                then runs (steps fuel sim)
                else (if c == b'i'
                    then (let r = list_from iaddr_size sim.iloc rest in
                        lists r.0 (record sim { iloc = r.1 }))
                    else (if c == b'd'
                        then (let r = list_from daddr_size sim.dloc rest in
                            lists r.0 (record sim { dloc = r.1 }))
                        else (if c == b'c'
                            then lists [] (clear_machine sim)
                            else (if c == b'q' then quits else lists [] sim)))))))

unfoldable pub do_command : ℕ → Simulator → Effect
unfolding read_command perform
do_command fuel sim = elim (read_command sim.world.inputs) [
  | none ↦ no_command
  | some (c, rest, ls) ↦
      perform fuel c rest (record sim { world = record sim.world { inputs = ls } })
]

-- Steps after a number of them go on from where those stopped, if all were okay.
unfoldable pub resume : Ending → ℕ → Ending
unfolding steps
resume (ended okay sim) k = steps k sim
resume (ended r sim) k = ended r sim
resume faulted k = faulted
resume (waiting w) k = waiting w

follow-resume :
    (go go' : Simulator → Ending) (k : ℕ) (sim : Simulator) (o : Outcome)
    → ((s : Simulator) → go' s ≡ resume (go s) k)
    → follow go' sim o ≡ resume (follow go sim o) k
unfolding follow resume
follow-resume go go' k sim undefined h = refl
follow-resume go go' k sim (blocked w) h = refl
follow-resume go go' k sim (returns okay w) h = h (stepped w sim)
follow-resume go go' k sim (returns halted w) h = refl
follow-resume go go' k sim (returns imem_err w) h = refl
follow-resume go go' k sim (returns dmem_err w) h = refl
follow-resume go go' k sim (returns zero_divide w) h = refl

-- The command `s` with `n + k` does what `s` with `n` and then, if no step has stopped it, `s` with
-- `k` do. So a run of `g` that has stopped within `n` steps does not depend on the fuel.
pub steps_add : (n k : ℕ) (sim : Simulator) → steps (n + k) sim ≡ resume (steps n sim) k
unfolding steps resume
steps_add zero k sim = let e : 0 + k ≡ k = omega arith in ap (λ i. steps i sim) e
steps_add (suc n) k sim =
    let e : suc n + k ≡ suc (n + k) = omega arith in
    ap (λ i. steps i sim) e
    ∙ follow-resume (λ s. steps n s) (λ s. steps (n + k) s) k sim (step_tm sim.world)
        (λ s. steps_add n k s)
