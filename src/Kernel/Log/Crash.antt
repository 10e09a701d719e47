-- ===== src/Kernel/Log/Crash.antt =====
-- Crashes during commit and recover_from_log of xv6-public/log.c.
use mathlib.Core.Path.{subst}
use c_s_e_hanyang.Base.{
  ℕ, ◌+◌, ◌<◌, ◌≡◌, refl, ◌∙◌, List, [], ◌∷◌, length, get_elem?, arith, true, false, ◌==◌, ◌⊎◌,
  some, Bool-cases, inl, inr, get_or, take, drop,
}
use c_s_e_hanyang.Kernel.Log.{
  Block, Disk, Device, update, install_trans, write_head, put_head, read_head, put_words,
  recover_from_log,
}
use c_s_e_hanyang.Kernel.Log.Loops.{
  IsHome, All, elem, install_trans-off, install_trans-on, install_trans-history, get_elem?-some,
}

-- Recovery of the disk `d` gives every home block the contents that `target` has.
abbrev pub Recovers : ℕ → ℕ → Disk → Disk → Type 0
Recovers start size target d =
    (x : ℕ) → IsHome start size x → (recover_from_log start d).disk x ≡ target x

-- No transaction is in the log.
pub record Clear (start size : ℕ) (target d : Disk) : Type 0 where
  pub none_logged : get_or (d start) 0 0 ≡ 0
  pub home : (x : ℕ) → IsHome start size x → d x ≡ target x

-- The transaction `lh` is in the log, and some of it may be installed.
pub record Logged (start size : ℕ) (lh : List ℕ) (target d : Disk) : Type 0 where
  pub header : read_head (d start) ≡ lh
  pub slots : (i b : ℕ) → get_elem? lh i ≡ some b → d (start + 0 + 1 + i) ≡ target b
  pub home : (x : ℕ) → IsHome start size x → elem x lh ≡ false → d x ≡ target x

take-zero : (n : ℕ) (xs : List ℕ) → n ≡ 0 → take n xs ≡ []
take-zero n xs e = rw e

read_head-none : (blk : Block) → get_or blk 0 0 ≡ 0 → read_head blk ≡ []
unfolding read_head
read_head-none blk e = take-zero (get_or blk 0 0) (drop 1 blk) e

pub count-put_head_none : (blk : Block) → get_or (put_head [] blk) 0 0 ≡ 0
unfolding put_head put_words
count-put_head_none [] = refl
count-put_head_none (x ∷ xs) = refl

pub home-ne-start : (start size x : ℕ) → 0 < size → IsHome start size x → (x == start) ≡ false
home-ne-start start size x pos h = ground arith

module _ (start size : ℕ) (pos : 0 < size) where
  pub Clear-Recovers : (target d : Disk) → Clear start size target d → Recovers start size target d
  unfolding recover_from_log write_head install_trans
  Clear-Recovers target d c x h =
      rw (read_head-none (d start) c.none_logged)
        (ground (arith, home-ne-start start size x pos h, c.home x h))

  -- What recovery leaves on the way: the disk it found, or one with an empty header.
  pub Clear-history :
      (target d : Disk)
      → Clear start size target d
      → All (Clear start size target) (recover_from_log start d).history
  unfolding recover_from_log write_head install_trans
  Clear-history target d c = rw (read_head-none (d start) c.none_logged) (
    record {
      none_logged = ground (arith, count-put_head_none (d start));
      home = λ x h. ground (arith, home-ne-start start size x pos h, c.home x h);
    },
    tt,
  )

pub elem-IsHome :
    (start size : ℕ) (lh : List ℕ) (x : ℕ)
    → All (IsHome start size) lh
    → elem x lh ≡ true
    → IsHome start size x
elem-IsHome start size [] x hs h = ground arith
elem-IsHome start size (b ∷ lh) x hs h = elim (Bool-cases (x == b)) [
  | inl same ↦ let e : b ≡ x = ground arith in subst (IsHome start size) e hs.0
  | inr other ↦ elem-IsHome start size lh x hs.1 (ground arith)
]

module _ (start size : ℕ) (lh : List ℕ) (homes : All (IsHome start size) lh)
    (fits : length lh < size) where
  pub Logged-update :
      (target d : Disk) (x : ℕ) (v : Block)
      → elem x lh ≡ true
      → Logged start size lh target d
      → Logged start size lh target (update d x v)
  Logged-update target d x v h l =
      let out : IsHome start size x = elem-IsHome start size lh x homes h in
      record {
        header = let e : (start == x) ≡ false = ground arith in rw e l.header;
        slots = λ i b e.
            let bound : i < length lh = get_elem?-some lh i b e in
            let apart : (start + 0 + 1 + i == x) ≡ false = ground arith in rw apart (l.slots i b e);
        home = λ y hy other. ground (arith, l.home y hy other);
      }

  installed :
      (target d : Disk) (x : ℕ)
      → Logged start size lh target d
      → IsHome start size x
      → (install_trans start 0 lh (record { cached = d; disk = d; history = [] })).disk x ≡ target x
  installed target d x l h = elim (Bool-cases (elem x lh)) [
    | inl logged ↦
        (install_trans-on start size 0 lh (record { cached = d; disk = d; history = [] }) target x
          homes (omega arith) l.slots logged).1
    | inr other ↦
        (install_trans-off start 0 lh (record { cached = d; disk = d; history = [] }) x other).1
        ∙ l.home x h other
  ]

  pub Logged-Recovers :
      (target d : Disk) → Logged start size lh target d → Recovers start size target d
  unfolding recover_from_log write_head
  Logged-Recovers target d l x h =
      rw l.header
        (ground (arith, home-ne-start start size x (omega arith) h, installed target d x l h))

  -- The disks on the way of recovery: the transaction is still logged, or it is all installed.
  pub Logged-history :
      (target d : Disk)
      → Logged start size lh target d
      → All
          (λ d'. Logged start size lh target d' ⊎ Clear start size target d')
          (recover_from_log start d).history
  unfolding recover_from_log write_head
  Logged-history target d l =
      let s : Device = record { cached = d; disk = d; history = [] } in
      let s' : Device = install_trans start 0 lh s in
      rw l.header (
        inr (record {
          none_logged = ground (arith, count-put_head_none (s'.cached start));
          home = λ x h.
              ground (arith, home-ne-start start size x (omega arith) h, installed target d x l h);
        }),
        (install_trans-history start (Logged start size lh target)
            (λ d'. Logged start size lh target d' ⊎ Clear start size target d') 0 lh s
            (Logged-update target) (λ d' m. inl m) l tt).1,
      )
