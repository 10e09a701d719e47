-- ===== src/Kernel/Fs/Icache/Get.antt =====
-- iget of xv6-public/fs.c: which entry it returns.
use mathlib.Core.Path.{subst}
use c_s_e_hanyang.Base.{
  ℕ, ◌+◌, ◌<◌, ◌≡◌, refl, ap, ◌∙◌, true, false, ◌==◌, if◌then◌else◌, length, length-set,
  get_or-set_self, get_or-set_ne, arith, Bool-cases, Option, none, some, ◌⊎◌, inl, inr,
}
use c_s_e_hanyang.Kernel.Fs.Bmap.{Inode}
use c_s_e_hanyang.Kernel.Fs.Icache.{
  Icache, blank, entry, put_entry, Probe, hit, miss, is_cached, probe, take_entry, iget,
}
use c_s_e_hanyang.Kernel.Fs.Icache.Probing.{probe-hit, probe-miss, probe-empty, probe-full}

pub entry-put_entry :
    (i j : ℕ) (ip : Inode) (c : Icache)
    → i < length c.inode
    → entry (put_entry i ip c) j ≡ (if j == i then ip else entry c j)
entry-put_entry i j ip c lt = elim (Bool-cases (j == i)) [
  | inl e ↦ let z : j ≡ i = ground arith in rw (e, z) (get_or-set_self c.inode i ip blank lt)
  | inr e ↦ rw e (get_or-set_ne c.inode i j ip blank (ground arith))
]

-- The entry `i` is for the inode, with one reference more than there were; the rest of the cache is as
-- it was. Either the inode was cached there, or it was not cached and the slot was free.
pub record Got (dev inum : ℕ) (c : Icache) (i : ℕ) (c' : Icache) : Type 0 where
  pub inside : i < length c.inode
  pub same_length : length c'.inode ≡ length c.inode
  pub others : (j : ℕ) → (j == i) ≡ false → entry c' j ≡ entry c j
  pub same_fs : c'.fs ≡ c.fs
  pub is_dev : (entry c' i).dev ≡ dev
  pub is_inum : (entry c' i).inum ≡ inum
  pub cached_or_free :
      ((is_cached dev inum (entry c i) ≡ true)
        × (entry c' i ≡ record (entry c i) { ref = (entry c i).ref + 1 }))
      ⊎ (((k : ℕ) → k < length c.inode → is_cached dev inum (entry c k) ≡ false)
          × ((entry c i).ref ≡ 0)
          × ((entry c' i).ref ≡ 1)
          × ((entry c' i).valid ≡ false))

module _ (dev inum : ℕ) (c : Icache) (k : ℕ) (lt : k < length c.inode) where
  hit-Got :
      is_cached dev inum (entry c k) ≡ true
      → Got dev inum c k (put_entry k (record (entry c k) { ref = (entry c k).ref + 1 }) c)
  hit-Got y =
      let here : entry (put_entry k (record (entry c k) { ref = (entry c k).ref + 1 }) c) k
          ≡ record (entry c k) { ref = (entry c k).ref + 1 } =
        get_or-set_self c.inode k _ blank lt in
      record {
        inside = lt;
        same_length = length-set c.inode k _;
        others = λ j ne. get_or-set_ne c.inode k j _ blank (ground arith);
        same_fs = refl;
        is_dev = ap (λ e. e.dev) here ∙ ground arith;
        is_inum = ap (λ e. e.inum) here ∙ ground arith;
        cached_or_free = inl (y, here);
      }

  abbrev fresh : Inode
  fresh = record (entry c k) { dev = dev; inum = inum; ref = 1; valid = false }

  miss-Got :
      ((j : ℕ) → j < length c.inode → is_cached dev inum (entry c j) ≡ false)
      → (entry c k).ref ≡ 0
      → Got dev inum c k
          (put_entry k (record (entry c k) { dev = dev; inum = inum; ref = 1; valid = false }) c)
  miss-Got none_of z =
      let here : entry (put_entry k fresh c) k ≡ fresh = get_or-set_self c.inode k fresh blank lt in
      record {
        inside = lt;
        same_length = length-set c.inode k _;
        others = λ j ne. get_or-set_ne c.inode k j _ blank (ground arith);
        same_fs = refl;
        is_dev = ap (λ e. e.dev) here;
        is_inum = ap (λ e. e.inum) here;
        cached_or_free = inr (none_of, z, ap (λ e. e.ref) here, ap (λ e. e.valid) here);
      }

abbrev Outcome : ℕ → ℕ → Icache → Type 0
Outcome dev inum c =
    ((iget dev inum c ≡ none) × ((k : ℕ) → k < length c.inode → 0 < (entry c k).ref))
    ⊎ ((i : ℕ) × (c' : Icache) × (iget dev inum c ≡ some (i, c')) × Got dev inum c i c')

hit_outcome :
    (dev inum : ℕ) (c : Icache) (i : ℕ) → probe dev inum c.inode 0 none ≡ hit i → Outcome dev inum c
unfolding iget take_entry
hit_outcome dev inum c i h =
    let (k, e, lt, y) = probe-hit dev inum c.inode 0 none i h in
    let z : k ≡ i = omega arith in
    inr (
      i,
      put_entry i (record (entry c i) { ref = (entry c i).ref + 1 }) c,
      ap (take_entry dev inum c) h,
      subst
          (λ i. Got dev inum c i (put_entry i (record (entry c i) { ref = (entry c i).ref + 1 }) c))
          z (hit-Got dev inum c k lt y),
    )

miss_outcome :
    (dev inum : ℕ) (c : Icache) (r : Option ℕ)
    → probe dev inum c.inode 0 none ≡ miss r
    → Outcome dev inum c
unfolding iget take_entry
miss_outcome dev inum c none h =
    inl (ap (take_entry dev inum c) h, (probe-full dev inum c.inode 0 none h).1)
miss_outcome dev inum c (some x) h = elim (probe-empty dev inum c.inode 0 none x h) [
  | inl e ↦ absurd (ground arith)
  | inr (k, e, lt, z) ↦
      let y : k ≡ x = omega arith in
      inr (
        x,
        put_entry x (record (entry c x) { dev = dev; inum = inum; ref = 1; valid = false }) c,
        ap (take_entry dev inum c) h,
        subst
            (λ i. Got dev inum c i (
              put_entry i (record (entry c i) { dev = dev; inum = inum; ref = 1; valid = false })
                c))
            y (miss-Got dev inum c k lt (probe-miss dev inum c.inode 0 none (some x) h) z),
      )
]

-- iget panics only if every entry has a reference. Else it returns an entry for the inode, with one
-- reference more: the entry that the inode has, if it is cached, and else a free one, which is not
-- valid yet. No other entry changes, nor does the disk.
pub iget-Got :
    (dev inum : ℕ) (c : Icache)
    → ((iget dev inum c ≡ none) × ((k : ℕ) → k < length c.inode → 0 < (entry c k).ref))
      ⊎ ((i : ℕ) × (c' : Icache) × (iget dev inum c ≡ some (i, c')) × Got dev inum c i c')
iget-Got dev inum c = split (probe dev inum c.inode 0 none) refl
  where
    split : (p : Probe) → probe dev inum c.inode 0 none ≡ p → Outcome dev inum c
    split (hit i) h = hit_outcome dev inum c i h
    split (miss r) h = miss_outcome dev inum c r h
