-- ===== src/Cminus/Tm/Load.antt =====
-- readInstructions of tm.c, on the lines of the program file.
use c_s_e_hanyang.Base.{
  ℕ, zero, suc, Bool, true, false, not, ◌&&◌, ◌||◌, List, [], ◌∷◌, ◌==◌, if◌then◌else◌, set, Option,
  none, some, replicate,
}
use c_s_e_hanyang.Base.Int.{ℤ, pos, ltb_ℤ}
use c_s_e_hanyang.Cminus.Tm.{
  OpClass, rr, OpCode, halt, in_op, out, add, sub, mul, div, ld, st, lda, ldc, jlt, jle, jgt, jge,
  jeq, jne, Instruction, Machine, op_class, iaddr_size, no_regs, halt_instruction, cleared_reg,
  cleared_dmem,
}
use c_s_e_hanyang.Cminus.Tm.Line.{non_blank, get_num, get_word, skip_ch}
use c_s_e_hanyang.Cminus.Tm.Step.{index}

-- The messages of `error`.
pub data Error : Type 0 where
  bad_location location_too_large missing_colon missing_opcode illegal_opcode : Error
  bad_first_register bad_second_register bad_third_register missing_comma bad_displacement : Error
  missing_lparen : Error

pub data Result (A : Type 0) : Type 0 where
  ok : A → Result A
  err : Error → Result A

infixl 5 ◌>>=◌
abbrev pub ◌>>=◌ : {A B : Type 0} → Result A → (A → Result B) → Result B
ok a >>= f = f a
err e >>= f = err e

-- `strncmp(entry, word, 4) == 0` for a table entry of at most four letters.
unfoldable pub same_word : ℕ → List ℕ → List ℕ → Bool
same_word zero a b = true
same_word (suc n) [] [] = true
same_word (suc n) [] (b ∷ bs) = false
same_word (suc n) (a ∷ as') [] = false
same_word (suc n) (a ∷ as') (b ∷ bs) = (a == b) && same_word n as' bs

-- `opCodeTab`, less its entries "????", which no word of letters and digits matches.
abbrev pub op_code_tab : List (List ℕ × OpCode)
op_code_tab =
    (b'H' ∷ b'A' ∷ b'L' ∷ b'T' ∷ [], halt)
    ∷ (b'I' ∷ b'N' ∷ [], in_op)
    ∷ (b'O' ∷ b'U' ∷ b'T' ∷ [], out)
    ∷ (b'A' ∷ b'D' ∷ b'D' ∷ [], add)
    ∷ (b'S' ∷ b'U' ∷ b'B' ∷ [], sub)
    ∷ (b'M' ∷ b'U' ∷ b'L' ∷ [], mul)
    ∷ (b'D' ∷ b'I' ∷ b'V' ∷ [], div)
    ∷ (b'L' ∷ b'D' ∷ [], ld)
    ∷ (b'S' ∷ b'T' ∷ [], st)
    ∷ (b'L' ∷ b'D' ∷ b'A' ∷ [], lda)
    ∷ (b'L' ∷ b'D' ∷ b'C' ∷ [], ldc)
    ∷ (b'J' ∷ b'L' ∷ b'T' ∷ [], jlt)
    ∷ (b'J' ∷ b'L' ∷ b'E' ∷ [], jle)
    ∷ (b'J' ∷ b'G' ∷ b'T' ∷ [], jgt)
    ∷ (b'J' ∷ b'G' ∷ b'E' ∷ [], jge)
    ∷ (b'J' ∷ b'E' ∷ b'Q' ∷ [], jeq)
    ∷ (b'J' ∷ b'N' ∷ b'E' ∷ [], jne)
    ∷ []

-- The loop that looks for the opcode.
unfoldable pub find_op : List (List ℕ × OpCode) → List ℕ → Result OpCode
unfolding same_word
find_op [] word = err illegal_opcode
find_op ((name, op) ∷ tab) word =
    let later = find_op tab word in if same_word 4 name word then ok op else later

abbrev pub not_reg : ℤ → Bool
not_reg n = ltb_ℤ n (pos 0) || not (ltb_ℤ n (pos no_regs))

-- `(! getNum ()) || (num < 0) || (num >= NO_REGS)`
unfoldable pub get_reg : Error → List ℕ → Result (ℤ × List ℕ)
unfolding get_num
get_reg e cs =
    let (read, n, rest) = get_num cs in if not read || not_reg n then err e else ok (n, rest)

unfoldable pub get_any : Error → List ℕ → Result (ℤ × List ℕ)
unfolding get_num
get_any e cs = let (read, n, rest) = get_num cs in if not read then err e else ok (n, rest)

unfoldable pub expect : ℕ → Error → List ℕ → Result (List ℕ)
unfolding skip_ch
expect c e cs = let (found, rest) = skip_ch c cs in if found then ok rest else err e

-- `! skipCh('(') && ! skipCh(',')`
unfoldable pub expect_paren : List ℕ → Result (List ℕ)
unfolding skip_ch expect
expect_paren cs =
    let (found, rest) = skip_ch b'(' cs in
    if found then ok rest else expect b',' missing_lparen rest

unfoldable pub get_args : OpClass → OpCode → List ℕ → Result Instruction
unfolding get_reg get_any expect expect_paren
get_args rr op cs = do
  (a, cs₁) ← get_reg bad_first_register cs
  cs₂ ← expect b',' missing_comma cs₁
  (b, cs₃) ← get_reg bad_second_register cs₂
  cs₄ ← expect b',' missing_comma cs₃
  (c, cs₅) ← get_reg bad_third_register cs₄
  ok (record { iop = op; iarg1 = a; iarg2 = b; iarg3 = c })
get_args _ op cs = do
  (a, cs₁) ← get_reg bad_first_register cs
  cs₂ ← expect b',' missing_comma cs₁
  (d, cs₃) ← get_any bad_displacement cs₂
  cs₄ ← expect_paren cs₃
  (c, cs₅) ← get_reg bad_second_register cs₄
  ok (record { iop = op; iarg1 = a; iarg2 = d; iarg3 = c })

unfoldable pub get_op : List ℕ → Result (OpCode × List ℕ)
unfolding get_word find_op
get_op cs =
    let (word, rest) = get_word cs in
    elim word [
      | [] ↦ err missing_opcode
      | c ∷ w ↦ find_op op_code_tab (c ∷ w) >>= λ op. ok (op, rest)
    ]

unfoldable pub get_location : List ℕ → Result (ℤ × List ℕ)
unfolding get_any
get_location cs = do
  (loc, rest) ← get_any bad_location cs
  if ltb_ℤ (pos iaddr_size) loc then err location_too_large else ok (loc, rest)

-- A line that is neither blank nor a comment.
unfoldable pub parse_line : List ℕ → Result (ℤ × Instruction)
unfolding get_location get_op get_args expect op_class
parse_line cs = do
  (loc, cs₁) ← get_location cs
  cs₂ ← expect b':' missing_colon cs₁
  (op, cs₃) ← get_op cs₂
  i ← get_args (op_class op) op cs₃
  ok (loc, i)

abbrev pub is_skipped : List ℕ → Bool
is_skipped [] = true
is_skipped (c ∷ cs) = c == b'*'

-- How the loading ends: by the machine, by an error with its line's number, or by a store outside
-- `iMem`.
pub data Loaded : Type 0 where
  loaded : Machine → Loaded
  failed : ℕ → Error → Loaded
  stray_store : ℕ → ℤ → Loaded

unfoldable pub store : Machine → ℤ → Instruction → Option Machine
store m loc i = elim (index loc iaddr_size) [
  | none ↦ none
  | some n ↦ some (record m { imem = set m.imem n i })
]

unfoldable pub load_line : Machine → ℕ → List ℕ → Result (ℤ × Instruction) → Loaded
unfolding store
load_line m line_no cs (err e) = failed line_no e
load_line m line_no cs (ok (loc, i)) = elim (store m loc i) [
  | none ↦ stray_store line_no loc
  | some m' ↦ loaded m'
]

-- The loop over the lines; `line_no` counts them.
unfoldable pub load_lines : Machine → ℕ → List (List ℕ) → Loaded
unfolding load_line parse_line non_blank
load_lines m line_no [] = loaded m
load_lines m line_no (l ∷ ls) =
    let cs = non_blank l in
    let skip = load_lines m (suc line_no) ls in
    if is_skipped cs then skip else elim (load_line m (suc line_no) cs (parse_line cs)) [
      | loaded m' ↦ load_lines m' (suc line_no) ls
      | failed n e ↦ failed n e
      | stray_store n loc ↦ stray_store n loc
    ]

unfoldable pub initial : Machine
unfolding cleared_dmem
initial = record {
  imem = replicate iaddr_size halt_instruction;
  dmem = cleared_dmem;
  reg = cleared_reg;
}

unfoldable pub read_instructions : List (List ℕ) → Loaded
unfolding load_lines initial
read_instructions file = load_lines initial 0 file
