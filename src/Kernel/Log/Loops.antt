-- ===== src/Kernel/Log/Loops.antt =====
-- The loops write_log and install_trans of xv6-public/log.c: what they leave in the cache and on
-- the disk, and what every disk on the way looks like.
use mathlib.Core.Path.{subst}
use c_s_e_hanyang.Base.{
  ℕ, zero, suc, ◌+◌, ◌≤◌, ◌<◌, ◌≡◌, refl, List, [], ◌∷◌, length, get_elem?, arith, true, false, ◌⊎◌,
  some, Bool-cases, inl, inr,
}
pub use c_s_e_hanyang.Base.{elem}
use c_s_e_hanyang.Kernel.Log.{Block, Disk, Device, update, fill, bwrite, write_log, install_trans}

-- The blocks outside the log, which takes `size` blocks from `start` on.
abbrev pub IsHome : ℕ → ℕ → ℕ → Type 0
IsHome start size x = (x < start) ⊎ (start + size ≤ x)

abbrev pub All {ℓ κ} : {A : Type ℓ} → (A → Type κ) → List A → Type κ
All P [] = Unit
All P (x ∷ xs) = P x × All P xs

pub elem-get : (bs : List ℕ) (i b : ℕ) → get_elem? bs i ≡ some b → elem b bs ≡ true
elem-get [] i b h = ground arith
elem-get (c ∷ bs) zero b h = ground arith
elem-get (c ∷ bs) (suc i) b h = ground (arith, elem-get bs i b h)

pub All-get {κ} :
    (P : ℕ → Type κ) (bs : List ℕ) (i b : ℕ) → All P bs → get_elem? bs i ≡ some b → P b
All-get P [] i b a h = ground arith
All-get P (c ∷ bs) zero b a h = let e : c ≡ b = ground arith in subst P e a.0
All-get P (c ∷ bs) (suc i) b a h = All-get P bs i b a.1 h

pub get_elem?-some : (bs : List ℕ) (i b : ℕ) → get_elem? bs i ≡ some b → i < length bs
get_elem?-some [] i b h = ground arith
get_elem?-some (c ∷ bs) zero b h = omega arith
get_elem?-some (c ∷ bs) (suc i) b h = omega (arith, get_elem?-some bs i b h)

module _ (start : ℕ) where
  -- Blocks that are no slot of this call keep their contents.
  pub write_log-off :
      (tail : ℕ) (bs : List ℕ) (s : Device) (x : ℕ)
      → (x ≤ start + tail) ⊎ (start + tail + length bs < x)
      → ((write_log start tail bs s).cached x ≡ s.cached x)
        × ((write_log start tail bs s).disk x ≡ s.disk x)
  unfolding write_log
  write_log-off tail [] s x h = (refl, refl)
  write_log-off tail (b ∷ bs) s x h = ground (
    arith,
    write_log-off (suc tail) bs (bwrite (start + tail + 1) (fill (start + tail + 1) (s.cached b) s))
        x,
  )

  -- The slots get what the cache held of the blocks to log.
  pub write_log-on :
      (size tail : ℕ) (bs : List ℕ) (s : Device) (i b : ℕ)
      → All (IsHome start size) bs
      → tail + length bs < size
      → get_elem? bs i ≡ some b
      → ((write_log start tail bs s).cached (start + tail + 1 + i) ≡ s.cached b)
        × ((write_log start tail bs s).disk (start + tail + 1 + i) ≡ s.cached b)
  unfolding write_log
  write_log-on size tail [] s i b hs fits e = ground arith
  write_log-on size tail (c ∷ bs) s zero b hs fits e = ground (
    arith,
    write_log-off (suc tail) bs (bwrite (start + tail + 1) (fill (start + tail + 1) (s.cached c) s))
        (start + tail + 1 + 0),
  )
  write_log-on size tail (c ∷ bs) s (suc i) b hs fits e =
      let s' : Device = bwrite (start + tail + 1) (fill (start + tail + 1) (s.cached c) s) in
      let place : start + suc tail + 1 + i ≡ start + tail + 1 + suc i = omega arith in
      let home : IsHome start size b = All-get (IsHome start size) bs i b hs.1 e in
      let same : s'.cached b ≡ s.cached b = ground arith in
      rw (← place, ← same) (write_log-on size (suc tail) bs s' i b hs.1 (omega arith) e)

  -- A property of disks that survives a write to a slot holds of every disk on the way; the
  -- history may satisfy a weaker one.
  pub write_log-history :
      (P Q : Disk → Type 0) (size tail : ℕ) (bs : List ℕ) (s : Device)
      → ((d : Disk) (x : ℕ) (v : Block) → start < x → x < start + size → P d → P (update d x v))
      → ((d : Disk) → P d → Q d)
      → tail + length bs < size
      → P s.disk
      → All Q s.history
      → P (write_log start tail bs s).disk × All Q (write_log start tail bs s).history
  unfolding write_log
  write_log-history P Q size tail [] s keep weaken fits now past = (now, past)
  write_log-history P Q size tail (b ∷ bs) s keep weaken fits now past =
      let s' : Device = bwrite (start + tail + 1) (fill (start + tail + 1) (s.cached b) s) in
      let next : P s'.disk =
        keep s.disk (start + tail + 1) (s'.cached (start + tail + 1)) (omega arith) (omega arith)
          now in
      write_log-history P Q size (suc tail) bs s' keep weaken (omega arith) next
        (weaken s'.disk next, past)

  -- Each block of the list gets its slot's contents; the other home blocks and the log stay.
  pub install_trans-off :
      (tail : ℕ) (bs : List ℕ) (s : Device) (x : ℕ)
      → elem x bs ≡ false
      → ((install_trans start tail bs s).cached x ≡ s.cached x)
        × ((install_trans start tail bs s).disk x ≡ s.disk x)
  unfolding install_trans
  install_trans-off tail [] s x h = (refl, refl)
  install_trans-off tail (b ∷ bs) s x h =
      ground (
        arith,
        install_trans-off (suc tail) bs (bwrite b (fill b (s.cached (start + tail + 1)) s)) x,
      )

  -- What each slot holds arrives at its block, on the disk too.
  pub install_trans-on :
      (size tail : ℕ) (bs : List ℕ) (s : Device) (value : Disk) (x : ℕ)
      → All (IsHome start size) bs
      → tail + length bs < size
      → ((i b : ℕ) → get_elem? bs i ≡ some b → s.cached (start + tail + 1 + i) ≡ value b)
      → elem x bs ≡ true
      → ((install_trans start tail bs s).cached x ≡ value x)
        × ((install_trans start tail bs s).disk x ≡ value x)
  unfolding install_trans
  install_trans-on size tail [] s value x hs fits slots h = ground arith
  install_trans-on size tail (b ∷ bs) s value x hs fits slots h = elim (Bool-cases (elem x bs)) [
    | inl later ↦ install_trans-on size (suc tail) bs s' value x hs.1 (omega arith) slots' later
    | inr last ↦ ground (arith, install_trans-off (suc tail) bs s' x last, first)
  ]
    where
      s' : Device
      s' = bwrite b (fill b (s.cached (start + tail + 1)) s)

      first : s.cached (start + tail + 1) ≡ value b
      first =
          let e : start + tail + 1 + 0 ≡ start + tail + 1 = omega arith in rw (← e) (slots 0 b refl)

      slots' : (i c : ℕ) → get_elem? bs i ≡ some c → s'.cached (start + suc tail + 1 + i) ≡ value c
      slots' i c e =
          let place : start + suc tail + 1 + i ≡ start + tail + 1 + suc i = omega arith in
          let bound : i < length bs = get_elem?-some bs i c e in
          rw place (ground (arith, slots (suc i) c e, hs.0))

  pub install_trans-history :
      (P Q : Disk → Type 0) (tail : ℕ) (bs : List ℕ) (s : Device)
      → ((d : Disk) (x : ℕ) (v : Block) → elem x bs ≡ true → P d → P (update d x v))
      → ((d : Disk) → P d → Q d)
      → P s.disk
      → All Q s.history
      → P (install_trans start tail bs s).disk × All Q (install_trans start tail bs s).history
  unfolding install_trans
  install_trans-history P Q tail [] s keep weaken now past = (now, past)
  install_trans-history P Q tail (b ∷ bs) s keep weaken now past =
      let s' : Device = bwrite b (fill b (s.cached (start + tail + 1)) s) in
      let next : P s'.disk = keep s.disk b (s'.cached b) (ground arith) now in
      install_trans-history P Q (suc tail) bs s' (λ d x v h. keep d x v (ground arith)) weaken next
        (weaken s'.disk next, past)
