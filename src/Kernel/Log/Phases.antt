-- ===== src/Kernel/Log/Phases.antt =====
-- The disks that commit of xv6-public/log.c goes through, from a clean log to a clean log.
use c_s_e_hanyang.Base.{
  ℕ, ◌+◌, ◌≤◌, ◌<◌, ◌≡◌, refl, ap, ◌∙◌, sym, List, [], ◌∷◌, length, get_elem?, arith, false, ◌==◌,
  ◌⊎◌, some, Bool-cases, inl, inr, get_or, ==_refl,
}
use c_s_e_hanyang.Kernel.Log.{
  Disk, Device, write_log, install_trans, write_head, commit, block_words, log_size,
}
use c_s_e_hanyang.Kernel.Log.Header.{read_head-put_head}
use c_s_e_hanyang.Kernel.Log.Loops.{
  IsHome, All, elem, write_log-off, write_log-on, write_log-history, install_trans-off,
  install_trans-on, install_trans-history,
}
use c_s_e_hanyang.Kernel.Log.Crash.{
  Clear, Logged, Logged-update, count-put_head_none, home-ne-start,
}

-- A transaction that `commit` may find: its blocks are outside the log and fit in it, all other
-- blocks are clean, and the log on the disk is empty.
pub record Ready (start size : ℕ) (lh : List ℕ) (s : Device) : Type 0 where
  pub homes : All (IsHome start size) lh
  pub fits : length lh < size
  pub small : length lh ≤ log_size
  pub header_block : length (s.cached start) ≡ block_words
  pub none_logged : get_or (s.disk start) 0 0 ≡ 0
  pub clean : (x : ℕ) → IsHome start size x → elem x lh ≡ false → s.cached x ≡ s.disk x
  pub fresh : s.history ≡ []

-- The three kinds of disk that commit goes through.
unfoldable pub Phase : ℕ → ℕ → List ℕ → Device → Disk → Type 0
Phase start size lh s d =
    Clear start size s.disk d ⊎ (Logged start size lh s.cached d ⊎ Clear start size s.cached d)

module _ (start size : ℕ) (lh : List ℕ) (s : Device) (r : Ready start size lh s) where
  logged : Device
  logged = write_log start 0 lh s

  unfoldable pub headed : Device
  headed = write_head start lh (write_log start 0 lh s)

  start_kept : (logged).cached start ≡ s.cached start
  unfolding logged
  start_kept = (write_log-off start 0 lh s start (inl (omega arith))).0

  Phase-old : Clear start size s.disk logged.disk × All (Phase start size lh s) logged.history
  unfolding logged Phase
  Phase-old =
      write_log-history start (Clear start size s.disk) (Phase start size lh s) size 0 lh s
        (λ d x v lo hi c. record {
          none_logged = ground (arith, c.none_logged);
          home = λ y hy. ground (arith, c.home y hy);
        })
        (λ d c. inl c) (omega (arith, r.fits))
        (record { none_logged = r.none_logged; home = λ x h. refl }) (rw r.fresh tt)

  phase_headed : Logged start size lh s.cached headed.disk
  unfolding headed write_head
  phase_headed = record {
    header =
        let long : length (logged.cached start) ≡ block_words =
          ap length start_kept ∙ r.header_block in
        rw (==_refl start) (
          unfold logged in
          read_head-put_head lh ((write_log start 0 lh s).cached start)
            (omega (arith, long, r.small)));
    slots = λ i b e.
        let apart : (start + 0 + 1 + i == start) ≡ false = ground arith in
        rw apart (write_log-on start size 0 lh s i b r.homes (omega (arith, r.fits)) e).1;
    home = λ x h other.
        let apart : (x == start) ≡ false = home-ne-start start size x (omega (arith, r.fits)) h in
        let beyond : (x ≤ start + 0) ⊎ (start + 0 + length lh < x) = omega (arith, r.fits) in
        rw apart ((write_log-off start 0 lh s x beyond).1 ∙ sym (r.clean x h other));
  }

  Phase-installed :
      Logged start size lh s.cached (install_trans start 0 lh headed).disk
      × All (Phase start size lh s) (install_trans start 0 lh headed).history
  unfolding Phase
  Phase-installed =
      install_trans-history start (Logged start size lh s.cached) (Phase start size lh s) 0 lh
        headed (Logged-update start size lh r.homes r.fits s.cached) (λ d l. inr (inl l))
        phase_headed (unfold headed write_head logged in (inr (inl phase_headed), Phase-old.1))

  headed_slots :
      (i b : ℕ) → get_elem? lh i ≡ some b → headed.cached (start + 0 + 1 + i) ≡ s.cached b
  unfolding headed write_head
  headed_slots i b e =
      let apart : (start + 0 + 1 + i == start) ≡ false = ground arith in
      rw apart (write_log-on start size 0 lh s i b r.homes (omega (arith, r.fits)) e).0

  headed_home : (x : ℕ) → IsHome start size x → headed.cached x ≡ s.cached x
  unfolding headed write_head
  headed_home x h =
      let apart : (x == start) ≡ false = home-ne-start start size x (omega (arith, r.fits)) h in
      let beyond : (x ≤ start + 0) ⊎ (start + 0 + length lh < x) = omega (arith, r.fits) in
      rw apart (write_log-off start 0 lh s x beyond).0

  -- After the installation every home block on the disk is as in the cache, which is as before.
  homes_installed :
      (x : ℕ)
      → IsHome start size x
      → ((install_trans start 0 lh headed).cached x ≡ s.cached x)
        × ((install_trans start 0 lh headed).disk x ≡ s.cached x)
  homes_installed x h = elim (Bool-cases (elem x lh)) [
    | inl hit ↦
        install_trans-on start size 0 lh headed s.cached x r.homes (omega (arith, r.fits))
          headed_slots hit
    | inr other ↦
        let kept = install_trans-off start 0 lh headed x other in
        (kept.0 ∙ headed_home x h, kept.1 ∙ phase_headed.home x h other)
  ]

  unfoldable pub finished : Device
  finished = write_head start [] (install_trans start 0 lh headed)

  pub finished_homes :
      (x : ℕ)
      → IsHome start size x
      → (finished.cached x ≡ s.cached x) × (finished.disk x ≡ s.cached x)
  unfolding finished write_head
  finished_homes x h =
      let apart : (x == start) ≡ false = home-ne-start start size x (omega (arith, r.fits)) h in
      rw apart (homes_installed x h)

  pub finished-Clear : Clear start size s.cached finished.disk
  unfolding finished write_head
  finished-Clear = record {
    none_logged =
        rw (==_refl start) (count-put_head_none ((install_trans start 0 lh headed).cached start));
    home = λ x h. unfold finished write_head in (finished_homes x h).1;
  }

  pub finished_history : All (Phase start size lh s) finished.history
  unfolding Phase finished write_head
  finished_history =
      (unfold finished write_head in inr (inr finished-Clear), unfold Phase in Phase-installed.1)

pub All-map :
    {P Q : Disk → Type 0} (f : (d : Disk) → P d → Q d) (ds : List Disk) → All P ds → All Q ds
All-map f [] a = tt
All-map f (d ∷ ds) a = (f d a.0, All-map f ds a.1)

pub commit_phases :
    (start size : ℕ) (lh : List ℕ) (s : Device)
    → Ready start size lh s
    → All (Phase start size lh s) (commit start lh s).history
unfolding commit
commit_phases start size [] s r = rw r.fresh tt
commit_phases start size (b ∷ lh) s r =
    unfold finished headed in finished_history start size (b ∷ lh) s r
