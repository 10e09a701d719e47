-- ===== src/Cminus/Tm/Shape.antt =====
-- What loading guarantees to stepTM: register numbers that `reg` has.
use c_s_e_hanyang.Base.{
  ℕ, ◌<◌, ◌≡◌, refl, sym, Bool, true, false, not, ◌||◌, List, arith, if◌then◌else◌,
}
use mathlib.Core.Path.{subst}
use c_s_e_hanyang.Base.Int.{ℤ, pos, negsuc}
use c_s_e_hanyang.Cminus.Tm.{Instruction, OpCode, OpClass, rr, rm, ra, op_class, no_regs}
use c_s_e_hanyang.Cminus.Tm.Line.{get_num}
use c_s_e_hanyang.Cminus.Tm.Load.{
  Error, bad_first_register, bad_second_register, bad_third_register, bad_displacement,
  missing_comma, missing_colon, Result, ok, err, ◌>>=◌, get_reg, get_any, expect, expect_paren,
  get_args, get_op, get_location, not_reg, parse_line,
}

-- A register number that `reg` has.
unfoldable pub IsReg : ℤ → Type 0
IsReg n = (i : ℕ) × ((n ≡ pos i) × (i < no_regs))

not_reg-IsReg : (n : ℤ) → not_reg n ≡ false → IsReg n
unfolding IsReg
not_reg-IsReg (pos i) h = (i, (refl, ground arith))
not_reg-IsReg (negsuc i) h = ground arith

-- Every value that `r` returns has the property.
abbrev pub Always : {A : Type 0} → (A → Type 0) → Result A → Type 0
Always {A = A} P r = (a : A) → r ≡ ok a → P a

bind_Always :
    {A B : Type 0} (P : A → Type 0) (Q : B → Type 0) (r : Result A) (f : A → Result B)
    → Always P r
    → ((a : A) → P a → Always Q (f a))
    → Always Q (r >>= f)
bind_Always P Q (ok a) f h step = step a (h a refl)
bind_Always P Q (err e) f h step = λ b eq. ground arith

then_Always :
    {A B : Type 0} (Q : B → Type 0) (r : Result A) (f : A → Result B)
    → ((a : A) → Always Q (f a))
    → Always Q (r >>= f)
then_Always Q (ok a) f step = step a
then_Always Q (err e) f step = λ b eq. ground arith

ok_inj : {A : Type 0} (a b : A) → ok a ≡ ok b → a ≡ b
ok_inj a b h = ground arith

abbrev pub HasReg : ℤ × List ℕ → Type 0
HasReg p = IsReg p.0

checked :
    (e : Error) (read bad : Bool) (n : ℤ) (rest : List ℕ)
    → not_reg n ≡ bad
    → Always HasReg (if not read || bad then err e else ok (n, rest))
checked e true true n rest h = λ p eq. ground arith
checked e false bad n rest h = λ p eq. ground arith
checked e true false n rest h = λ p eq. subst HasReg (ok_inj (n, rest) p eq) (not_reg-IsReg n h)

get_reg-IsReg : (e : Error) (cs : List ℕ) → Always HasReg (get_reg e cs)
unfolding get_reg
get_reg-IsReg e cs =
    checked e (get_num cs).0 (not_reg (get_num cs).1) (get_num cs).1 (get_num cs).2 refl

-- The registers of an instruction of class `c`.
unfoldable pub RegsOk : OpClass → Instruction → Type 0
RegsOk rr i = IsReg i.iarg1 × IsReg i.iarg2 × IsReg i.iarg3
RegsOk _ i = IsReg i.iarg1 × IsReg i.iarg3

Reads : OpClass → OpCode → Instruction → Type 0
Reads c op i = (i.iop ≡ op) × RegsOk c i

get_args-Reads_rr : (op : OpCode) (cs : List ℕ) → Always (Reads rr op) (get_args rr op cs)
unfolding get_args RegsOk Reads
get_args-Reads_rr op cs =
    bind_Always HasReg (Reads rr op) (get_reg bad_first_register cs) _ (get_reg-IsReg _ cs) (λ a ha.
      then_Always (Reads rr op) (expect b',' missing_comma (a.1)) _ (λ cs₂.
        bind_Always HasReg (Reads rr op) (get_reg bad_second_register cs₂) _ (get_reg-IsReg _ cs₂)
          (λ b hb. then_Always (Reads rr op) (expect b',' missing_comma (b.1)) _ (λ cs₄.
            bind_Always HasReg (Reads rr op) (get_reg bad_third_register cs₄) _
              (get_reg-IsReg _ cs₄)
              (λ c hc. λ i eq. subst (Reads rr op) (ok_inj _ i eq) (refl, (ha, hb, hc)))))))

get_args-Reads_rm : (op : OpCode) (cs : List ℕ) → Always (Reads rm op) (get_args rm op cs)
unfolding get_args RegsOk Reads
get_args-Reads_rm op cs =
    bind_Always HasReg (Reads rm op) (get_reg bad_first_register cs) _ (get_reg-IsReg _ cs) (λ a ha.
      then_Always (Reads rm op) (expect b',' missing_comma (a.1)) _ (λ cs₂.
        then_Always (Reads rm op) (get_any bad_displacement cs₂) _ (λ d.
          then_Always (Reads rm op) (expect_paren (d.1)) _ (λ cs₄.
            bind_Always HasReg (Reads rm op) (get_reg bad_second_register cs₄) _
              (get_reg-IsReg _ cs₄)
              (λ c hc. λ i eq.
                subst (Reads rm op)
                  (ok_inj (record { iop = op; iarg1 = a.0; iarg2 = d.0; iarg3 = c.0 }) i eq)
                  (refl, (ha, hc)))))))

get_args-Reads : (c : OpClass) (op : OpCode) (cs : List ℕ) → Always (Reads c op) (get_args c op cs)
unfolding get_args RegsOk Reads
get_args-Reads rr op cs = get_args-Reads_rr op cs
get_args-Reads rm op cs = get_args-Reads_rm op cs
get_args-Reads ra op cs = get_args-Reads_rm op cs

abbrev pub Sound : ℤ × Instruction → Type 0
Sound (loc, i) = RegsOk (op_class i.iop) i

Reads-Sound :
    (loc : ℤ) (op : OpCode) (i : Instruction)
    → Reads (op_class op) op i
    → Always Sound (ok (loc, i))
unfolding Reads
Reads-Sound loc op i h = λ p eq.
    subst Sound (ok_inj (loc, i) p eq) (subst (λ o. RegsOk (op_class o) i) (sym (h.0)) (h.1))

parse_line-Sound : (cs : List ℕ) → Always Sound (parse_line cs)
unfolding parse_line
parse_line-Sound cs = then_Always Sound (get_location cs) _ (λ l.
    then_Always Sound (expect b':' missing_colon (l.1)) _ (λ cs₂.
      then_Always Sound (get_op cs₂) _ (λ o.
        bind_Always (Reads (op_class (o.0)) (o.0)) Sound (get_args (op_class (o.0)) (o.0) (o.1)) _
          (get_args-Reads (op_class (o.0)) (o.0) (o.1)) (λ i h. Reads-Sound (l.0) (o.0) i h))))

-- The instruction of every line that `readInstructions` accepts names registers that `reg` has, in
-- each of the fields that its class uses as a register.
pub parse_line-RegsOk :
    (cs : List ℕ) (loc : ℤ) (i : Instruction)
    → parse_line cs ≡ ok (loc, i)
    → RegsOk (op_class i.iop) i
parse_line-RegsOk cs loc i h = parse_line-Sound cs (loc, i) h
