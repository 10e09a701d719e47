-- ===== src/Kernel/Log/Admission/Took.antt =====
-- A sequence of calls of log_write of xv6-public/log.c inside a transaction.
use c_s_e_hanyang.Base.{
  ℕ, ◌+◌, ◌≤◌, ◌<◌, ◌≡◌, refl, ◌∙◌, List, [], ◌∷◌, length, arith, Option, none, some,
}
use c_s_e_hanyang.Kernel.Log.{log_size}
use c_s_e_hanyang.Kernel.Log.Admission.{Log, absorb, log_write}
use c_s_e_hanyang.Kernel.Log.Admission.Reserve.{length-absorb_le}

-- The log after `log_write` of the blocks, newest first; `none` is a panic of it.
unfoldable pub take_writes : List ℕ → Log → Option Log
take_writes [] l = some l
take_writes (b ∷ bs) l = elim (take_writes bs l) [ none ↦ none | some l' ↦ log_write b l' ]

-- The log has taken `n` blocks at most.
abbrev pub Took : ℕ → Log → Log → Type 0
Took n l l' =
    (length l'.lh ≤ length l.lh + n) × (l'.size ≡ l.size) × (l'.outstanding ≡ l.outstanding)

log_write-Took :
    (b : ℕ) (l : Log)
    → 1 ≤ l.outstanding
    → length l.lh < log_size
    → length l.lh + 1 < l.size
    → (l' : Log) × (log_write b l ≡ some l') × Took 1 l l'
unfolding log_write
log_write-Took b l busy fits room =
    (record l { lh = absorb b l.lh }, ground arith, (length-absorb_le b l.lh, refl, refl))

pub take_writes-Took :
    (bs : List ℕ) (l : Log)
    → 1 ≤ l.outstanding
    → length l.lh + length bs ≤ log_size
    → length l.lh + length bs < l.size
    → (l' : Log) × (take_writes bs l ≡ some l') × Took (length bs) l l'
unfolding take_writes
take_writes-Took [] l busy fits room = (l, refl, (omega arith, refl, refl))
take_writes-Took (b ∷ bs) l busy fits room =
    let (l₁, e₁, (n₁, s₁, o₁)) = take_writes-Took bs l busy (omega arith) (omega arith) in
    let (l₂, e₂, (n₂, s₂, o₂)) =
      log_write-Took b l₁ (omega (arith, o₁)) (omega (arith, n₁)) (omega (arith, n₁, s₁)) in
    (l₂, rw e₁ e₂, (omega (arith, n₁, n₂), s₂ ∙ s₁, o₂ ∙ o₁))
