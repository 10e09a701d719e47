-- ===== src/Kernel/Log/Commit.antt =====
-- commit of xv6-public/log.c is atomic: a crash at any point, recovered from, leaves all of the
-- transaction or none of it.
use c_s_e_hanyang.Base.{ℕ, ◌≡◌, refl, sym, List, [], ◌∷◌, arith, ◌⊎◌, inl, inr, get_or}
use c_s_e_hanyang.Kernel.Log.{Disk, Device, recover_from_log, commit}
use c_s_e_hanyang.Kernel.Log.Loops.{IsHome, All}
use c_s_e_hanyang.Kernel.Log.Crash.{
  Recovers, Clear, Logged, Clear-Recovers, Clear-history, Logged-Recovers, Logged-history,
}
use c_s_e_hanyang.Kernel.Log.Phases.{
  Ready, Phase, finished, headed, finished_homes, finished-Clear, All-map, commit_phases,
}

-- What commit leaves: every home block is on the disk as it is in the cache, which it has not
-- changed, and the log on the disk is empty.
pub commit_durable :
    (start size : ℕ) (lh : List ℕ) (s : Device)
    → Ready start size lh s
    → ((x : ℕ)
        → IsHome start size x
        → ((commit start lh s).disk x ≡ s.cached x) × ((commit start lh s).cached x ≡ s.cached x))
      × (get_or ((commit start lh s).disk start) 0 0 ≡ 0)
unfolding commit
commit_durable start size [] s r = ((λ x h. (sym (r.clean x h refl), refl)), r.none_logged)
commit_durable start size (b ∷ lh) s r =
    let homes = finished_homes start size (b ∷ lh) s r in
    unfold finished headed in
    ((λ x h. ((homes x h).1, (homes x h).0)), (finished-Clear start size (b ∷ lh) s r).none_logged)

-- The disk `d` and every disk that a crash in its recovery leaves are recovered to `target`.
abbrev pub RecoversAlways : ℕ → ℕ → Disk → Disk → Type 0
RecoversAlways start size target d =
    Recovers start size target d
    × All (Recovers start size target) (recover_from_log start d).history

module _ (start size : ℕ) (lh : List ℕ) (s : Device) (r : Ready start size lh s) where
  Clear-always : (target d : Disk) → Clear start size target d → RecoversAlways start size target d
  Clear-always target d c = (
    Clear-Recovers start size (omega (arith, r.fits)) target d c,
    All-map (Clear-Recovers start size (omega (arith, r.fits)) target)
        (recover_from_log start d).history
        (Clear-history start size (omega (arith, r.fits)) target d c),
  )

  Either-Recovers :
      (target d : Disk)
      → Logged start size lh target d ⊎ Clear start size target d
      → Recovers start size target d
  Either-Recovers target d (inl l) = Logged-Recovers start size lh r.homes r.fits target d l
  Either-Recovers target d (inr c) = Clear-Recovers start size (omega (arith, r.fits)) target d c

  Logged-always :
      (target d : Disk) → Logged start size lh target d → RecoversAlways start size target d
  Logged-always target d l = (
    Logged-Recovers start size lh r.homes r.fits target d l,
    All-map (Either-Recovers target) (recover_from_log start d).history
        (Logged-history start size lh r.homes r.fits target d l),
  )

  Phase-always :
      (d : Disk)
      → Phase start size lh s d
      → RecoversAlways start size s.disk d ⊎ RecoversAlways start size s.cached d
  unfolding Phase
  Phase-always d (inl old) = inl (Clear-always s.disk d old)
  Phase-always d (inr (inl mid)) = inr (Logged-always s.cached d mid)
  Phase-always d (inr (inr new)) = inr (Clear-always s.cached d new)

-- A crash after any of the disk writes of commit, followed by recovery, leaves the home blocks
-- either all as they were on the disk before, or all as they are in the cache; and a further crash,
-- after any of the disk writes of that recovery, is recovered to the same home blocks.
pub commit_atomic :
    (start size : ℕ) (lh : List ℕ) (s : Device)
    → Ready start size lh s
    → All
        (λ d. RecoversAlways start size s.disk d ⊎ RecoversAlways start size s.cached d)
        (commit start lh s).history
commit_atomic start size lh s r =
    All-map (Phase-always start size lh s r) (commit start lh s).history
      (commit_phases start size lh s r)
