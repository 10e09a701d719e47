-- ===== src/Kernel/Fs/Dirs/Scan.antt =====
-- dirlookup of xv6-public/fs.c finds the first entry of the name.
use c_s_e_hanyang.Base.{
  List, [], ◌∷◌, set, ℕ, zero, suc, ◌+◌, ◌*◌, ◌/◌, ◌%◌, ◌≤◌, ◌<◌, ◌≡◌, ◌≢◌, refl, ap, ◌∙◌, Bool,
  true, false, not, ◌&&◌, ltb, ◌==◌, if◌then◌else◌, get_or, u32_mod, arith, Bool-cases, Option,
  none, some, inl, inr,
}
use c_s_e_hanyang.Base.Int.{pos}
use c_s_e_hanyang.Kernel.Fs.{Fs, block_size}
use c_s_e_hanyang.Kernel.Fs.Bmap.{Inode}
use c_s_e_hanyang.Kernel.Fs.Bmap.Places.{addr, place}
use c_s_e_hanyang.Kernel.Fs.Content.{maxfile, t_dev, run_of, ReadDevice, readi}
use c_s_e_hanyang.Kernel.Fs.Content.View.{content}
use c_s_e_hanyang.Kernel.Fs.Content.Read.{available, readi-content}
use c_s_e_hanyang.Kernel.Fs.Names.{dirsiz}
use c_s_e_hanyang.Kernel.Fs.Icache.{Icache, blank, entry, iget}
use c_s_e_hanyang.Kernel.Fs.Dirs.{
  t_dir, dirent_size, same_name, de_inum, de_named, dir_scan, dirlookup,
}
use c_s_e_hanyang.Kernel.Fs.Dirs.Same.{Agree, same_name-ext, same_name-true, same_name-Agree}

-- The inode number of the entry at `off` of a directory with bytes `f`.
abbrev pub inum_at : (ℕ → ℕ) → ℕ → ℕ
inum_at f off = f off + 256 * f (off + 1)

-- The test of the loop.
unfoldable matches : (ℕ → ℕ) → (ℕ → ℕ) → ℕ → Bool
matches f name off = not (inum_at f off == 0) && same_name dirsiz name (λ i. f (off + (2 + i)))

get_or-run_of : (f : ℕ → ℕ) (i n k j : ℕ) → k < n → j ≡ i + k → get_or (run_of f i n) k 0 ≡ f j
unfolding run_of
get_or-run_of f i zero k j lt e = absurd (omega arith)
get_or-run_of f i (suc n) zero j lt e = let z : i ≡ j = omega arith in ap f z
get_or-run_of f i (suc n) (suc k) j lt e = get_or-run_of f (suc i) n k j (omega arith) (omega arith)

-- What is read of an entry.
inum_read : (f : ℕ → ℕ) (off : ℕ) → de_inum (run_of f off dirent_size) ≡ inum_at f off
inum_read f off =
    let a = get_or-run_of f off dirent_size 0 off (omega arith) (omega arith) in
    let b = get_or-run_of f off dirent_size 1 (off + 1) (omega arith) refl in rw (a, b) refl

match_read :
    (f name : ℕ → ℕ) (off : ℕ)
    → (not (de_inum (run_of f off dirent_size) == 0) && de_named name (run_of f off dirent_size))
      ≡ matches f name off
unfolding de_named matches
match_read f name off =
    let e = inum_read f off in
    let n =
      same_name-ext dirsiz name (λ i. get_or (run_of f off dirent_size) (2 + i) 0)
        (λ i. f (off + (2 + i)))
        (λ i lt. get_or-run_of f off dirent_size (2 + i) (off + (2 + i)) (omega arith) refl) in
    ap
      (λ x.
        not (x == 0) && same_name dirsiz name (λ i. get_or (run_of f off dirent_size) (2 + i) 0))
      e
    ∙ ap (λ b. not (inum_at f off == 0) && b) n

-- The entry at `off` is live and has the name: its bytes are those of the name up to the terminator, or
-- to DIRSIZ.
abbrev pub Named : (ℕ → ℕ) → (ℕ → ℕ) → ℕ → Type 0
Named f name off = (inum_at f off ≢ 0) × Agree dirsiz name (λ i. f (off + (2 + i)))

matches-true : (f name : ℕ → ℕ) (off : ℕ) → matches f name off ≡ true → Named f name off
unfolding matches
matches-true f name off h =
    ((λ z. ground arith), same_name-true dirsiz name (λ i. f (off + (2 + i))) (ground arith))

matches-false : (f name : ℕ → ℕ) (off : ℕ) → matches f name off ≡ false → ¬ Named f name off
unfolding matches
matches-false f name off h named =
    let same = same_name-Agree dirsiz name (λ i. f (off + (2 + i))) named.1 in
    let live : (inum_at f off == 0) ≡ false = ground (arith, named.0) in ground arith

-- The first entry of the name from `off` on, or none.
pub data First (f name : ℕ → ℕ) (size : ℕ) : ℕ → Option (ℕ × ℕ) → Type 0 where
  here :
      (off : ℕ) → off < size → Named f name off → First f name size off (some (inum_at f off, off))
  later :
      (off : ℕ) (r : Option (ℕ × ℕ))
      → off < size
      → ¬ Named f name off
      → First f name size (off + dirent_size) r
      → First f name size off r
  ended : (off : ℕ) → size ≤ off → First f name size off none

-- A directory that can be read: whole entries, no missing block.
pub record HasEntries (dp : Inode) (s : Fs) : Type 0 where
  pub whole : dp.size % dirent_size ≡ 0
  pub fits : dp.size ≤ maxfile * block_size
  pub there : (k : ℕ) → k < dp.size → addr dp s (place (k / block_size)) ≢ 0

module _ (devsw : ℕ → Option ReadDevice) (dp : Inode) (name : ℕ → ℕ) (s : Fs)
    (no_device : dp.type ≢ t_dev) (d : HasEntries dp s) where
  entry_read :
      (off : ℕ)
      → off % dirent_size ≡ 0
      → off < dp.size
      → readi devsw dp off dirent_size s
        ≡ some (pos dirent_size, run_of (content dp s) off dirent_size, dp, s)
  entry_read off a lt =
      let upto : off + dirent_size ≤ dp.size = omega (arith, d.whole) in
      let all : available dp.size off dirent_size ≡ dirent_size = ground (arith, d.whole) in
      readi-content devsw dp off dirent_size s no_device (omega arith) d.fits
        (omega (arith, d.fits))
        (λ k le below. let b = rw all at below in d.there k (omega (arith, b, upto)))
      ∙ ap (λ n. some (pos n, run_of (content dp s) off n, dp, s)) all

  scan_step :
      (fuel off : ℕ)
      → off % dirent_size ≡ 0
      → off < dp.size
      → dir_scan devsw (suc fuel) dp name off s ≡ (
          if matches (content dp s) name off
          then some (some (inum_at (content dp s) off, off), dp, s)
          else dir_scan devsw fuel dp name ((off + dirent_size) % u32_mod) s)
  unfolding dir_scan
  scan_step fuel off a lt =
      let t : ltb off dp.size ≡ true = ground arith in
      rw (t, entry_read off a lt, match_read (content dp s) name off, inum_read (content dp s) off)
        refl

  scan_miss :
      (fuel off : ℕ)
      → off % dirent_size ≡ 0
      → off < dp.size
      → matches (content dp s) name off ≡ false
      → dir_scan devsw (suc fuel) dp name off s ≡ dir_scan devsw fuel dp name (off + dirent_size) s
  scan_miss fuel off a lt y =
      let wrap : (off + dirent_size) % u32_mod ≡ off + dirent_size = omega (arith, d.fits) in
      scan_step fuel off a lt ∙ rw y (ap (λ x. dir_scan devsw fuel dp name x s) wrap)

  -- The scan from an entry on returns the first live entry of the name, and changes nothing.
  dir_scan-First :
      (fuel off : ℕ)
      → off % dirent_size ≡ 0
      → dp.size ≤ off + fuel
      → (r : Option (ℕ × ℕ)) × (dir_scan devsw fuel dp name off s ≡ some (r, dp, s))
        × First (content dp s) name dp.size off r
  dir_scan-First zero off a enough =
      (none, unfold dir_scan in ground arith, ended off (omega arith))
  dir_scan-First (suc fuel) off a enough = elim (Bool-cases (ltb off dp.size)) [
    | inr e ↦ (none, unfold dir_scan in (rw e refl), ended off (ground arith))
    | inl e ↦
        let lt : off < dp.size = ground arith in
        let step = scan_step fuel off a lt in
        let f = content dp s in
        elim (Bool-cases (matches f name off)) [
          | inl y ↦
              (some (inum_at f off, off), step ∙ rw y refl, here off lt (matches-true f name off y))
          | inr y ↦
              let (r, o, first) =
                dir_scan-First fuel (off + dirent_size) (omega arith) (omega arith) in
              (r, scan_miss fuel off a lt y ∙ o, later off r lt (matches-false f name off y) first)
        ]
  ]

-- There is a first entry or none, in any run of bytes.
search-First :
    (f name : ℕ → ℕ) (size fuel off : ℕ)
    → size ≤ off + fuel
    → (r : Option (ℕ × ℕ)) × First f name size off r
search-First f name size zero off enough = (none, ended off (omega arith))
search-First f name size (suc fuel) off enough = elim (Bool-cases (ltb off size)) [
  | inr e ↦ (none, ended off (ground arith))
  | inl e ↦ elim (Bool-cases (matches f name off)) [
    | inl y ↦ (some (inum_at f off, off), here off (ground arith) (matches-true f name off y))
    | inr y ↦
        let (r, first) = search-First f name size fuel (off + dirent_size) (omega arith) in
        (r, later off r (ground arith) (matches-false f name off y) first)
  ]
]

set_same : (xs : List Inode) (i : ℕ) (v : Inode) → set xs i (get_or xs i v) ≡ xs
set_same [] i v = refl
set_same (x ∷ xs) zero v = refl
set_same (x ∷ xs) (suc i) v = ap (λ ys. x ∷ ys) (set_same xs i v)

-- What dirlookup returns when the entry found is `r`: nothing, or the inode that iget gives and the
-- offset.
abbrev pub looked_up : ℕ → Icache → Option (ℕ × ℕ) → Option (Option (ℕ × ℕ) × Icache)
looked_up dev c none = some (none, c)
looked_up dev c (some (inum, off)) = elim (iget dev inum c) [
  | none ↦ none
  | some (i, c') ↦ some (some (i, off), c')
]

dirlookup-step :
    (devsw : ℕ → Option ReadDevice) (d : ℕ) (name : ℕ → ℕ) (c : Icache) (r : Option (ℕ × ℕ))
    → (entry c d).type ≡ t_dir
    → dir_scan devsw (entry c d).size (entry c d) name 0 c.fs ≡ some (r, entry c d, c.fs)
    → dirlookup devsw d name c ≡ looked_up (entry c d).dev c r
unfolding dirlookup
dirlookup-step devsw d name c none dir o =
    let same = set_same c.inode d blank in rw (dir, o, same) refl
dirlookup-step devsw d name c (some (inum, off)) dir o =
    let same = set_same c.inode d blank in rw (dir, o, same) refl

-- dirlookup in a directory that can be read looks up the inode of the first entry that is live and has
-- the name, and returns it with the offset of the entry; if there is no such entry it returns the null
-- pointer and changes nothing. It panics on an inode that is no directory, and otherwise only when iget
-- does.
pub dirlookup-First :
    (devsw : ℕ → Option ReadDevice) (d : ℕ) (name : ℕ → ℕ) (c : Icache)
    → HasEntries (entry c d) c.fs
    → (r : Option (ℕ × ℕ)) × First (content (entry c d) c.fs) name (entry c d).size 0 r
      × (dirlookup devsw d name c
          ≡ (if (entry c d).type == t_dir then looked_up (entry c d).dev c r else none))
dirlookup-First devsw d name c h = elim (Bool-cases ((entry c d).type == t_dir)) [
  | inl e ↦
      let dir : (entry c d).type ≡ t_dir = ground arith in
      let (r, o, first) =
        dir_scan-First devsw (entry c d) name c.fs (λ z. omega (arith, z, dir)) h (entry c d).size 0
          (omega arith) (omega arith) in
      (r, first, dirlookup-step devsw d name c r dir o ∙ rw e refl)
  | inr e ↦
      let (r, first) =
        search-First (content (entry c d) c.fs) name (entry c d).size (entry c d).size 0
          (omega arith) in
      (r, first, unfold dirlookup in rw e refl)
]
