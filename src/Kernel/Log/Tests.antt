-- ===== src/Kernel/Log/Tests.antt =====
-- The log of xv6-public/log.c at concrete inputs.
use c_s_e_hanyang.Base.{
  ℕ, ◌≡◌, refl, [], ◌∷◌, length, replicate, arith, ◌⊎◌, inr, get_or, length-replicate,
}
use c_s_e_hanyang.Kernel.Log.{
  Block, Disk, Device, update, commit, write_head, put_head, write_log, install_trans, read_head,
}
use c_s_e_hanyang.Kernel.Log.Header.{read_head-put_head}
use c_s_e_hanyang.Kernel.Log.Loops.{IsHome, All}
use c_s_e_hanyang.Kernel.Log.Phases.{Ready}
use c_s_e_hanyang.Kernel.Log.Commit.{RecoversAlways, commit_atomic, commit_durable}

abbrev zeros : Block
zeros = replicate 128 0

abbrev blank : Disk
blank = λ _. zeros

-- Blocks 40 and 41 are changed in the cache and logged; the log takes blocks 2 to 31.
abbrev two_dirty : Device
two_dirty = record {
  cached = update (update blank 40 (1 ∷ [])) 41 (2 ∷ []);
  disk = blank;
  history = [];
}

two_dirty-Ready : Ready 2 30 (40 ∷ 41 ∷ []) two_dirty
two_dirty-Ready = record {
  homes = (inr (omega arith), (inr (omega arith), tt));
  fits = omega arith;
  small = omega arith;
  header_block = length-replicate {A = ℕ} 128 0;
  none_logged = refl;
  clean = λ x h other. ground arith;
  fresh = refl;
}

commit_runs : length (commit 2 (40 ∷ 41 ∷ []) two_dirty).history ≡ 6
unfolding commit write_head write_log install_trans
commit_runs = refl

commit_atomic_example :
    All
      (λ d. RecoversAlways 2 30 blank d ⊎ RecoversAlways 2 30 two_dirty.cached d)
      (commit 2 (40 ∷ 41 ∷ []) two_dirty).history
commit_atomic_example = commit_atomic 2 30 (40 ∷ 41 ∷ []) two_dirty two_dirty-Ready

commit_durable_example :
    ((x : ℕ)
      → IsHome 2 30 x
      → ((commit 2 (40 ∷ 41 ∷ []) two_dirty).disk x ≡ two_dirty.cached x)
        × ((commit 2 (40 ∷ 41 ∷ []) two_dirty).cached x ≡ two_dirty.cached x))
    × (get_or ((commit 2 (40 ∷ 41 ∷ []) two_dirty).disk 2) 0 0 ≡ 0)
commit_durable_example = commit_durable 2 30 (40 ∷ 41 ∷ []) two_dirty two_dirty-Ready

read_head-put_head_example : read_head (put_head (7 ∷ 9 ∷ []) zeros) ≡ 7 ∷ 9 ∷ []
read_head-put_head_example = read_head-put_head (7 ∷ 9 ∷ []) zeros (omega arith)
