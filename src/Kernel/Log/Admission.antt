-- ===== src/Kernel/Log/Admission.antt =====
-- begin_op, log_write and end_op of xv6-public/log.c: how system calls share the log.
pub mod Reserve
pub mod Small
pub mod Took
mod Tests
use mathlib.Core.Path.{subst}
use c_s_e_hanyang.Base.{
  ℕ, zero, suc, ◌+◌, ◌-◌, ◌*◌, ◌≤◌, ◌<◌, ◌≡◌, ◌≢◌, refl, ap, ◌∙◌, sym, List, [], ◌∷◌, length, arith,
  Bool, true, false, ◌||◌, ◌==◌, if◌then◌else◌, ◌⊎◌, Option, none, some, Bool-cases, inl, inr, ltb,
  leb, get_elem?, set, length-set, length-append, ◌++◌,
}
use c_s_e_hanyang.Kernel.Log.{max_op_blocks, log_size}

-- `struct log`, less its lock and the device: `lh` is `lh.block[0 .. lh.n)`.
pub record Log : Type 0 where
  pub size : ℕ
  pub outstanding : ℕ
  pub committing : Bool
  pub lh : List ℕ

pub data Admit : Type 0 where
  admitted waits : Admit

-- One turn of the loop of `begin_op`; `waits` is a `sleep` on `&log`, and another turn after it.
pub begin_op : Log → Admit × Log
begin_op l =
    if l.committing
    then (waits, l)
    else (if ltb log_size (length l.lh + (l.outstanding + 1) * max_op_blocks)
        then (waits, l)
        else (admitted, record l { outstanding = l.outstanding + 1 }))

-- The loop of `log_write` and the assignments behind it: a logged block is not logged again.
pub absorb : ℕ → List ℕ → List ℕ
absorb b [] = b ∷ []
absorb b (c ∷ cs) = if c == b then b ∷ cs else c ∷ absorb b cs

-- `none` is a panic: "too big a transaction" or "log_write outside of trans".
pub log_write : ℕ → Log → Option Log
unfolding absorb
log_write b l =
    if leb log_size (length l.lh) || leb (l.size - 1) (length l.lh)
    then none
    else (if ltb l.outstanding 1 then none else some (record l { lh = absorb b l.lh }))

-- `end_op` up to its first `release`: the flag is `do_commit`. `none` is the panic; `outstanding`
-- is positive here, since the caller is an operation.
pub end_op : Log → Option (Bool × Log)
end_op l =
    if l.committing
    then none
    else (if l.outstanding - 1 == 0
        then some (true, record l { outstanding = 0; committing = true })
        else some (false, record l { outstanding = l.outstanding - 1 }))

-- The rest of `end_op` for the committer; `commit` has emptied the header.
pub end_commit : Log → Log
end_commit l = record l { committing = false; lh = [] }

-- The log with the writes that each running operation may still make.
pub record Running : Type 0 where
  pub log : Log
  pub budgets : List ℕ

-- An operation starts, writes a block while it may, or ends; the committer finishes.
pub data Step : Running → Running → Type 0 where
  begins :
      (r : Running) (l : Log)
      → begin_op r.log ≡ (admitted, l)
      → Step r (record { log = l; budgets = max_op_blocks ∷ r.budgets })
  writes :
      (r : Running) (i k b : ℕ) (l : Log)
      → get_elem? r.budgets i ≡ some (suc k)
      → log_write b r.log ≡ some l
      → Step r (record { log = l; budgets = set r.budgets i k })
  ends :
      (r : Running) (before after : List ℕ) (k : ℕ) (c : Bool) (l : Log)
      → r.budgets ≡ before ++ k ∷ after
      → end_op r.log ≡ some (c, l)
      → Step r (record { log = l; budgets = before ++ after })
  commits : (r : Running) → r.log.committing ≡ true → Step r (record r { log = end_commit r.log })

pub data Reach (start : Running) : Running → Type 0 where
  here : Reach start start
  next : {r s : Running} → Reach start r → Step r s → Reach start s

abbrev pub sum : List ℕ → ℕ
sum [] = 0
sum (x ∷ xs) = x + sum xs

abbrev pub initial : ℕ → Running
initial size = record {
  log = record { size = size; outstanding = 0; committing = false; lh = [] };
  budgets = [];
}
