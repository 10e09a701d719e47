-- ===== src/Cminus/Tm/Step.antt =====
-- stepTM of tm.c.
use c_s_e_hanyang.Base.{
  ℕ, ◌+◌, ◌/◌, Bool, not, ◌&&◌, ◌||◌, List, [], ◌∷◌, ◌++◌, ltb, if◌then◌else◌, get_elem?, get_or,
  set, Option, none, some,
}
use c_s_e_hanyang.Base.Int.{
  ℤ, pos, negsuc, pos_part, neg_part, sub_ℕ, ◌+ℤ◌, ◌-ℤ◌, ◌*ℤ◌, ltb_ℤ, eqb_ℤ,
}
use c_s_e_hanyang.Cminus.Tm.{
  OpClass, rr, rm, ra, OpCode, halt, in_op, out, add, sub, mul, div, rr_lim, ld, st, rm_lim, lda,
  ldc, jlt, jle, jgt, jge, jeq, jne, ra_lim, StepResult, okay, halted, imem_err, dmem_err,
  zero_divide, Instruction, Machine, op_class, iaddr_size, daddr_size, pc_reg,
}
use c_s_e_hanyang.Cminus.Tm.Line.{get_num}

-- What a step needs from and gives to the terminal.
pub record World : Type 0 where
  pub machine : Machine
  pub inputs : List (List ℕ)
  pub outputs : List ℤ

-- A step returns; or it reads or writes past an array, which C leaves undefined; or it waits for a
-- line at the terminal.
pub data Outcome : Type 0 where
  returns : StepResult → World → Outcome
  undefined : Outcome
  blocked : World → Outcome

-- An index is used only if it is in the array.
abbrev pub index : ℤ → ℕ → Option ℕ
index (pos i) n = if ltb i n then some i else none
index (negsuc i) n = none

abbrev pub reg_at : Machine → ℤ → ℤ
reg_at m (pos i) = get_or m.reg i (pos 0)
reg_at m (negsuc i) = pos 0

abbrev pub set_reg : ℤ → ℤ → World → World
set_reg (pos i) v w = record w { machine = record w.machine { reg = set w.machine.reg i v } }
set_reg (negsuc i) v w = w

-- C division, towards zero.
abbrev pub quotient : ℤ → ℤ → ℤ
quotient a b =
    let q = (pos_part a + neg_part a) / (pos_part b + neg_part b) in
    let neg_a = ltb_ℤ a (pos 0) in
    let neg_b = ltb_ℤ b (pos 0) in
    if (neg_a && not neg_b) || (not neg_a && neg_b) then sub_ℕ 0 q else pos q

-- The loop of `IN` over the lines typed.
unfoldable pub read_in : ℤ → List (List ℕ) → World → Outcome
unfolding get_num
read_in r [] w = blocked (record w { inputs = [] })
read_in r (l ∷ ls) w =
    let again = read_in r ls w in
    let (ok, num, rest) = get_num l in
    if ok then returns okay (set_reg r num (record w { inputs = ls })) else again

abbrev pub jump_if : Bool → ℤ → World → Outcome
jump_if test m w = returns okay (if test then set_reg (pos pc_reg) m w else w)

-- The second `switch`; `m` is the address that the first has computed.
unfoldable pub execute : OpCode → ℤ → ℤ → ℤ → ℤ → ℤ → World → Outcome
unfolding read_in ◌+ℤ◌ ◌-ℤ◌ ◌*ℤ◌
execute halt r s t d m w = returns halted w
execute in_op r s t d m w = read_in r w.inputs w
execute out r s t d m w = returns okay (record w { outputs = w.outputs ++ reg_at w.machine r ∷ [] })
execute add r s t d m w = returns okay (set_reg r (reg_at w.machine s +ℤ reg_at w.machine t) w)
execute sub r s t d m w = returns okay (set_reg r (reg_at w.machine s -ℤ reg_at w.machine t) w)
execute mul r s t d m w = returns okay (set_reg r (reg_at w.machine s *ℤ reg_at w.machine t) w)
execute div r s t d m w =
    if eqb_ℤ (reg_at w.machine t) (pos 0)
    then returns zero_divide w
    else returns okay (set_reg r (quotient (reg_at w.machine s) (reg_at w.machine t)) w)
execute ld r s t d m w = elim (index m daddr_size) [
  | none ↦ undefined
  | some i ↦ returns okay (set_reg r (get_or w.machine.dmem i (pos 0)) w)
]
execute st r s t d m w = elim (index m daddr_size) [
  | none ↦ undefined
  | some i ↦
      returns okay (record w {
        machine = record w.machine { dmem = set w.machine.dmem i (reg_at w.machine r) };
      })
]
execute lda r s t d m w = returns okay (set_reg r m w)
execute ldc r s t d m w = returns okay (set_reg r d w)
execute jlt r s t d m w = jump_if (ltb_ℤ (reg_at w.machine r) (pos 0)) m w
execute jle r s t d m w = jump_if (not (ltb_ℤ (pos 0) (reg_at w.machine r))) m w
execute jgt r s t d m w = jump_if (ltb_ℤ (pos 0) (reg_at w.machine r)) m w
execute jge r s t d m w = jump_if (not (ltb_ℤ (reg_at w.machine r) (pos 0))) m w
execute jeq r s t d m w = jump_if (eqb_ℤ (reg_at w.machine r) (pos 0)) m w
execute jne r s t d m w = jump_if (not (eqb_ℤ (reg_at w.machine r) (pos 0))) m w
execute rr_lim r s t d m w = returns okay w
execute rm_lim r s t d m w = returns okay w
execute ra_lim r s t d m w = returns okay w

abbrev pub outside : ℤ → ℕ → Bool
outside a n = ltb_ℤ a (pos 0) || ltb_ℤ (pos n) a

-- The first `switch`, by the class of the instruction.
unfoldable pub decode : OpClass → Instruction → World → Outcome
unfolding execute ◌+ℤ◌
decode rr i w = execute i.iop i.iarg1 i.iarg2 i.iarg3 (pos 0) (pos 0) w
decode rm i w =
    let m = i.iarg2 +ℤ reg_at w.machine i.iarg3 in
    if outside m daddr_size
    then returns dmem_err w
    else execute i.iop i.iarg1 i.iarg3 (pos 0) i.iarg2 m w
decode ra i w =
    execute i.iop i.iarg1 i.iarg3 (pos 0) i.iarg2 (i.iarg2 +ℤ reg_at w.machine i.iarg3) w

unfoldable pub fetch : ℤ → World → Outcome
unfolding decode op_class ◌+ℤ◌
fetch pc w = elim (index pc iaddr_size) [
  | none ↦ undefined
  | some n ↦ elim (get_elem? w.machine.imem n) [
    | none ↦ undefined
    | some i ↦ decode (op_class i.iop) i (set_reg (pos pc_reg) (pc +ℤ pos 1) w)
  ]
]

unfoldable pub step_tm : World → Outcome
unfolding fetch
step_tm w =
    let pc = reg_at w.machine (pos pc_reg) in
    if outside pc iaddr_size then returns imem_err w else fetch pc w
