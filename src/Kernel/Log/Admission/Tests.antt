-- ===== src/Kernel/Log/Admission/Tests.antt =====
-- begin_op, log_write and end_op of xv6-public/log.c at concrete inputs.
use c_s_e_hanyang.Base.{
  ℕ, suc, ◌≤◌, ◌≡◌, ◌≢◌, refl, [], ◌∷◌, length, get_elem?, arith, true, false, ◌⊎◌, none, some,
}
use c_s_e_hanyang.Kernel.Log.Admission.{
  begin_op, log_write, end_op, Running, begins, writes, Reach, here, next, initial, absorb,
}
use c_s_e_hanyang.Kernel.Log.Admission.Small.{small_log-panics}
use c_s_e_hanyang.Kernel.Log.Admission.Reserve.{log_never_panics, begin_op-waits}

abbrev one_op : Running
one_op = record {
  log = record { size = 40; outstanding = 1; committing = false; lh = 7 ∷ [] };
  budgets = 9 ∷ [];
}

one_op-Reach : Reach (initial 40) one_op
unfolding begin_op log_write absorb
one_op-Reach =
    next
      (next here (
        begins (initial 40) (record { size = 40; outstanding = 1; committing = false; lh = [] })
          refl))
      (writes _ 0 9 7 one_op.log refl refl)

log_never_panics_example :
    ((i k b : ℕ) → get_elem? one_op.budgets i ≡ some (suc k) → log_write b one_op.log ≢ none)
    × (one_op.budgets ≢ [] → end_op one_op.log ≢ none)
log_never_panics_example = log_never_panics {r = one_op} (omega arith) one_op-Reach

abbrev three_ops : Running
three_ops = record {
  log = record { size = 40; outstanding = 3; committing = false; lh = [] };
  budgets = 10 ∷ 10 ∷ 10 ∷ [];
}

three_ops-Reach : Reach (initial 40) three_ops
unfolding begin_op
three_ops-Reach =
    next
      (next
        (next here (
          begins (initial 40) (record { size = 40; outstanding = 1; committing = false; lh = [] })
            refl))
        (begins _ (record { size = 40; outstanding = 2; committing = false; lh = [] }) refl))
      (begins _ (record { size = 40; outstanding = 3; committing = false; lh = [] }) refl)

begin_op-waits_example : (three_ops.log.committing ≡ true) ⊎ (1 ≤ length three_ops.budgets)
begin_op-waits_example = begin_op-waits {r = three_ops} three_ops-Reach (unfold begin_op in refl)

-- The log that mkfs makes.
small_log-panics_example :
    (r : Running) × Reach (initial 30) r
    × ((i : ℕ) × (k : ℕ) × (get_elem? r.budgets i ≡ some (suc k)))
    × ((b : ℕ) → log_write b r.log ≡ none)
small_log-panics_example = small_log-panics 30 (omega arith)
