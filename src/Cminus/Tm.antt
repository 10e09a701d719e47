-- ===== src/Cminus/Tm.antt =====
-- 2018_ELE4029_2013012041/project/tm.c: the TM machine that runs the compiler's code. Integers are
-- unbounded here: what C leaves undefined on an `int` overflow is not modelled.
pub mod Line
pub mod Step
pub mod Load
pub mod Command
pub mod Numbers
pub mod Shape
mod Tests
use c_s_e_hanyang.Base.{ℕ, zero, suc, Bool, true, false, List, [], ◌∷◌, replicate}
use c_s_e_hanyang.Base.Int.{ℤ, pos}

-- IADDR_SIZE, DADDR_SIZE, NO_REGS, PC_REG and WORDSIZE
abbrev pub iaddr_size : ℕ
iaddr_size = 1024

abbrev pub daddr_size : ℕ
daddr_size = 1024

abbrev pub no_regs : ℕ
no_regs = 8

abbrev pub pc_reg : ℕ
pc_reg = 7

abbrev pub word_size : ℕ
word_size = 20

pub data OpClass : Type 0 where
  rr rm ra : OpClass

-- OPCODE, in its order.
pub data OpCode : Type 0 where
  halt in_op out add sub mul div rr_lim ld st rm_lim lda ldc jlt jle jgt jge jeq jne ra_lim : OpCode

-- STEPRESULT
pub data StepResult : Type 0 where
  okay halted imem_err dmem_err zero_divide : StepResult

pub record Instruction : Type 0 where
  pub iop : OpCode
  pub iarg1 : ℤ
  pub iarg2 : ℤ
  pub iarg3 : ℤ

pub record Machine : Type 0 where
  pub imem : List Instruction
  pub dmem : List ℤ
  pub reg : List ℤ

-- `opClass`; the limits count with the codes before them.
unfoldable pub op_class : OpCode → OpClass
op_class halt = rr
op_class in_op = rr
op_class out = rr
op_class add = rr
op_class sub = rr
op_class mul = rr
op_class div = rr
op_class rr_lim = rr
op_class ld = rm
op_class st = rm
op_class rm_lim = rm
op_class _ = ra

abbrev pub halt_instruction : Instruction
halt_instruction = record { iop = halt; iarg1 = pos 0; iarg2 = pos 0; iarg3 = pos 0 }

-- The registers and the data memory as `readInstructions` and the command `c` set them.
abbrev pub cleared_reg : List ℤ
cleared_reg = replicate no_regs (pos 0)

unfoldable pub cleared_dmem : List ℤ
cleared_dmem = pos 1023 ∷ replicate 1023 (pos 0)
