-- ===== src/Kernel/Fs/Icache/Probing.antt =====
-- The loop of iget of xv6-public/fs.c over the inode cache.
use c_s_e_hanyang.Base.{
  ℕ, zero, suc, ◌+◌, ◌<◌, ◌≡◌, refl, true, false, List, [], ◌∷◌, ◌==◌, get_or, length, arith,
  Bool-cases, Option, none, some, ◌⊎◌, inl, inr,
}
use c_s_e_hanyang.Kernel.Fs.Bmap.{Inode}
use c_s_e_hanyang.Kernel.Fs.Icache.{blank, hit, miss, is_cached, remember, probe}

abbrev pub at : List Inode → ℕ → Inode
at ips k = get_or ips k blank

pub probe-hit :
    (dev inum : ℕ) (ips : List Inode) (i : ℕ) (e : Option ℕ) (j : ℕ)
    → probe dev inum ips i e ≡ hit j
    → (k : ℕ) × (j ≡ i + k) × (k < length ips) × (is_cached dev inum (at ips k) ≡ true)
unfolding probe
probe-hit dev inum [] i e j h = absurd (ground arith)
probe-hit dev inum (ip ∷ ips) i e j h = elim (Bool-cases (is_cached dev inum ip)) [
  | inl y ↦ (0, ground arith, omega arith, y)
  | inr n ↦
      let (k, a, b, c) = probe-hit dev inum ips (suc i) (remember e i ip) j (rw n at h) in
      (suc k, omega arith, omega arith, c)
]

pub probe-miss :
    (dev inum : ℕ) (ips : List Inode) (i : ℕ) (e r : Option ℕ)
    → probe dev inum ips i e ≡ miss r
    → (k : ℕ) → k < length ips
    → is_cached dev inum (at ips k) ≡ false
unfolding probe
probe-miss dev inum [] i e r h k lt = absurd (omega arith)
probe-miss dev inum (ip ∷ ips) i e r h k lt = elim (Bool-cases (is_cached dev inum ip)) [
  | inl y ↦ absurd (ground arith)
  | inr n ↦ here k lt n (probe-miss dev inum ips (suc i) (remember e i ip) r (rw n at h))
]
  where
    here :
        (k : ℕ)
        → k < suc (length ips)
        → is_cached dev inum ip ≡ false
        → ((k : ℕ) → k < length ips → is_cached dev inum (at ips k) ≡ false)
        → is_cached dev inum (at (ip ∷ ips) k) ≡ false
    here zero lt n rest = n
    here (suc k) lt n rest = rest k (omega arith)

-- The slot that the loop remembers is free.
pub probe-empty :
    (dev inum : ℕ) (ips : List Inode) (i : ℕ) (e : Option ℕ) (x : ℕ)
    → probe dev inum ips i e ≡ miss (some x)
    → (e ≡ some x) ⊎ ((k : ℕ) × (x ≡ i + k) × (k < length ips) × ((at ips k).ref ≡ 0))
unfolding probe
probe-empty dev inum [] i e x h = inl (ground arith)
probe-empty dev inum (ip ∷ ips) i e x h = elim (Bool-cases (is_cached dev inum ip)) [
  | inl y ↦ absurd (ground arith)
  | inr n ↦ elim (probe-empty dev inum ips (suc i) (remember e i ip) x (rw n at h)) [
    | inr (k, a, b, c) ↦ inr (suc k, omega arith, omega arith, c)
    | inl r ↦ kept e r
  ]
]
  where
    kept :
        (e : Option ℕ)
        → remember e i ip ≡ some x
        → (e ≡ some x)
          ⊎ ((k : ℕ) × (x ≡ i + k) × (k < suc (length ips)) × ((at (ip ∷ ips) k).ref ≡ 0))
    kept (some y) r = inl r
    kept none r = elim (Bool-cases (ip.ref == 0)) [
      | inl z ↦ inr (0, ground arith, omega arith, ground arith)
      | inr z ↦ absurd (ground arith)
    ]

-- If it remembers none, there is none.
pub probe-full :
    (dev inum : ℕ) (ips : List Inode) (i : ℕ) (e : Option ℕ)
    → probe dev inum ips i e ≡ miss none
    → (e ≡ none) × ((k : ℕ) → k < length ips → 0 < (at ips k).ref)
unfolding probe
probe-full dev inum [] i e h = (ground arith, λ k lt. absurd (omega arith))
probe-full dev inum (ip ∷ ips) i e h = elim (Bool-cases (is_cached dev inum ip)) [
  | inl y ↦ absurd (ground arith)
  | inr n ↦
      let (r, rest) = probe-full dev inum ips (suc i) (remember e i ip) (rw n at h) in
      (first e r, held e r rest)
]
  where
    first : (e : Option ℕ) → remember e i ip ≡ none → e ≡ none
    first (some y) r = absurd (ground arith)
    first none r = refl

    held :
        (e : Option ℕ)
        → remember e i ip ≡ none
        → ((k : ℕ) → k < length ips → 0 < (at ips k).ref)
        → (k : ℕ) → k < suc (length ips)
        → 0 < (at (ip ∷ ips) k).ref
    held (some y) r rest k lt = absurd (ground arith)
    held none r rest zero lt = ground arith
    held none r rest (suc k) lt = rest k (omega arith)
