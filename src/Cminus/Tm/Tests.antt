-- ===== src/Cminus/Tm/Tests.antt =====
-- Runs of the TM machine and the instances of its theorems.
use c_s_e_hanyang.Base.{ℕ, true, false, List, [], ◌∷◌, ◌≡◌, refl}
use c_s_e_hanyang.Base.Int.{ℤ, pos, negsuc, ◌+ℤ◌, ◌-ℤ◌}
use c_s_e_hanyang.Cminus.Tm.{
  Instruction, add, cleared_reg, op_class, halt_instruction, ldc, out, halted, cleared_dmem,
}
use c_s_e_hanyang.Cminus.Tm.Command.{Simulator, Effect, runs, ended, do_command}
use c_s_e_hanyang.Cminus.Tm.Line.{get_num}
use c_s_e_hanyang.Cminus.Tm.Load.{parse_line, ok}
use c_s_e_hanyang.Cminus.Tm.Shape.{RegsOk, parse_line-RegsOk}

-- "2: ADD 1,0,7"
abbrev add_line : List ℕ
add_line = b'2' ∷ b':' ∷ b' ' ∷ b'A' ∷ b'D' ∷ b'D' ∷ b' ' ∷ b'1' ∷ b',' ∷ b'0' ∷ b',' ∷ b'7' ∷ []

abbrev add_instruction : Instruction
add_instruction = record { iop = add; iarg1 = pos 1; iarg2 = pos 0; iarg3 = pos 7 }

-- A number may be a sum: "3-5".
get_num_sum : get_num (b'3' ∷ b'-' ∷ b'5' ∷ []) ≡ (true, negsuc 1, [])
unfolding get_num ◌+ℤ◌ ◌-ℤ◌
get_num_sum = refl

parse_add_line : parse_line add_line ≡ ok (pos 2, add_instruction)
unfolding parse_line ◌+ℤ◌
parse_add_line = refl

parse_line-RegsOk_example : RegsOk (op_class add) add_instruction
parse_line-RegsOk_example = parse_line-RegsOk add_line (pos 2) add_instruction parse_add_line

-- "LDC 0,5(0)", "OUT 0,0,0" and "HALT 0,0,0", with the command "g" at the terminal.
abbrev five : Simulator
unfolding cleared_dmem
five = record {
  world = record {
    machine = record {
      imem =
          record { iop = ldc; iarg1 = pos 0; iarg2 = pos 5; iarg3 = pos 0 }
          ∷ record { iop = out; iarg1 = pos 0; iarg2 = pos 0; iarg3 = pos 0 }
          ∷ halt_instruction
          ∷ [];
      dmem = [];
      reg = cleared_reg;
    };
    inputs = (b'g' ∷ []) ∷ [];
    outputs = [];
  };
  iloc = pos 0;
  dloc = pos 0;
  traceflag = false;
  icountflag = false;
}

-- What a command leaves in the terminal, if it halts the machine.
abbrev printed : Effect → List ℤ
printed (runs (ended halted sim)) = sim.world.outputs
printed _ = []

go_five : printed (do_command 4 five) ≡ pos 5 ∷ []
unfolding do_command ◌+ℤ◌ five
go_five = refl
