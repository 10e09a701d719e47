-- ===== src/Kernel/Fs/Icache/Unique.antt =====
-- The inode cache of xv6-public/fs.c holds an inode once at most.
use mathlib.Core.Path.{subst}
use c_s_e_hanyang.Base.{
  ℕ, zero, suc, ◌+◌, ◌-◌, ◌*◌, ◌%◌, ◌<◌, ◌≡◌, refl, ap, sym, ◌∙◌, true, List, [], ◌∷◌, ◌==◌, get_or,
  set, length, replicate, arith, Bool-cases, some_inj, some, inl, inr,
}
use c_s_e_hanyang.Kernel.Fs.{Fs, inode_block, inodes_per_block}
use c_s_e_hanyang.Kernel.Fs.Bmap.{Inode, word}
use c_s_e_hanyang.Kernel.Fs.Icache.Put.{Same, Kept, put_entry-Kept, iput-Kept}
use c_s_e_hanyang.Kernel.Fs.Icache.{
  Icache, blank, entry, is_cached, iget, idup, iput, ialloc, ialloc_loop, claim_dinode, ninode,
  start,
}
use c_s_e_hanyang.Kernel.Fs.Icache.Get.{Got, iget-Got}

-- Two entries with references are not for the same inode.
abbrev pub IsUnique : Icache → Type 0
IsUnique c =
    (i j : ℕ)
    → 0 < (entry c i).ref
    → 0 < (entry c j).ref
    → (entry c i).dev ≡ (entry c j).dev
    → (entry c i).inum ≡ (entry c j).inum
    → i ≡ j

held_inside : (c : Icache) (i : ℕ) → 0 < (entry c i).ref → i < length c.inode
held_inside c i h = at_most c.inode i h
  where
    at_most : (ips : List Inode) (i : ℕ) → 0 < (get_or ips i blank).ref → i < length ips
    at_most [] i h = absurd (omega arith)
    at_most (ip ∷ ips) zero h = omega arith
    at_most (ip ∷ ips) (suc i) h = let r = at_most ips i h in omega arith

module _ (dev inum : ℕ) (c : Icache) (i : ℕ) (c' : Icache) (u : IsUnique c)
    (g : Got dev inum c i c') where
  -- An entry that was for the inode is the one returned.
  only : (j : ℕ) → 0 < (entry c j).ref → (entry c j).dev ≡ dev → (entry c j).inum ≡ inum → j ≡ i
  only j h d n =
      let y : is_cached dev inum (entry c j) ≡ true = ground arith in
      elim g.cached_or_free [
        | inl (z, _) ↦ u j i h (ground arith) (ground arith) (ground arith)
        | inr (none_of, _, _, _) ↦ absurd (ground (arith, none_of j (held_inside c j h)))
      ]

  Got-IsUnique : IsUnique c'
  Got-IsUnique j k hj hk d n = elim (Bool-cases (j == i)) [
    | inl e ↦ elim (Bool-cases (k == i)) [
      | inl f ↦ ground arith
      | inr f ↦
          let o = g.others k f in
          let z : j ≡ i = ground arith in
          z
          ∙ sym (
              only k (rw o at hk)
                (ap (λ e. e.dev) (sym o) ∙ sym d ∙ ap (λ x. (entry c' x).dev) z ∙ g.is_dev)
                (ap (λ e. e.inum) (sym o) ∙ sym n ∙ ap (λ x. (entry c' x).inum) z ∙ g.is_inum))
    ]
    | inr e ↦
        let o = g.others j e in
        elim (Bool-cases (k == i)) [
          | inl f ↦
              let z : k ≡ i = ground arith in
              only j (rw o at hj)
                (ap (λ e. e.dev) (sym o) ∙ d ∙ ap (λ x. (entry c' x).dev) z ∙ g.is_dev)
                (ap (λ e. e.inum) (sym o) ∙ n ∙ ap (λ x. (entry c' x).inum) z ∙ g.is_inum)
              ∙ sym z
          | inr f ↦
              let p = g.others k f in
              u j k (rw o at hj) (rw p at hk) (rw (o, p) at d) (rw (o, p) at n)
        ]
  ]

Kept-IsUnique :
    (c : Icache) (i : ℕ) (c' : Icache)
    → IsUnique c
    → 0 < (entry c i).ref
    → Kept c i c'
    → IsUnique c'
Kept-IsUnique c i c' u held k j l hj hl d n =
    u j l (was j hj) (was l hl) (sym (dev_eq j) ∙ d ∙ dev_eq l) (sym (inum_eq j) ∙ n ∙ inum_eq l)
  where
    was : (j : ℕ) → 0 < (entry c' j).ref → 0 < (entry c j).ref
    was j h = elim (Bool-cases (j == i)) [
      | inl e ↦ let z : j ≡ i = ground arith in rw z held
      | inr e ↦ rw (k.others j e) at h
    ]

    dev_eq : (j : ℕ) → (entry c' j).dev ≡ (entry c j).dev
    dev_eq j = elim (Bool-cases (j == i)) [
      | inl e ↦ let z : j ≡ i = ground arith in rw z k.same_dev
      | inr e ↦ ap (λ e. e.dev) (k.others j e)
    ]

    inum_eq : (j : ℕ) → (entry c' j).inum ≡ (entry c j).inum
    inum_eq j = elim (Bool-cases (j == i)) [
      | inl e ↦ let z : j ≡ i = ground arith in rw z k.same_inum
      | inr e ↦ ap (λ e. e.inum) (k.others j e)
    ]

iget-IsUnique :
    (dev inum : ℕ) (c : Icache) (r : ℕ × Icache)
    → IsUnique c
    → iget dev inum c ≡ some r
    → IsUnique (r.1)
iget-IsUnique dev inum c r u h = elim (iget-Got dev inum c) [
  | inl (o, _) ↦ absurd (ground arith)
  | inr (i, c', o, g) ↦
      let p : ℕ × Icache = (i, c') in
      let q : some p ≡ some r = sym o ∙ h in
      subst (λ r. IsUnique (r.1)) (some_inj q) (Got-IsUnique dev inum c i c' u g)
]

ialloc_loop-IsUnique :
    (n inum dev type : ℕ) (c : Icache) (r : ℕ × Icache)
    → IsUnique c
    → ialloc_loop n inum dev type c ≡ some r
    → IsUnique (r.1)
unfolding ialloc_loop
ialloc_loop-IsUnique zero inum dev type c r u h = absurd (ground arith)
ialloc_loop-IsUnique (suc n) inum dev type c r u h =
    elim (Bool-cases
      (word c.fs (inode_block c.fs inum) (16 * (inum % inodes_per_block)) % 65536 == 0)) [
        | inl e ↦
            iget-IsUnique dev inum (record c { fs = claim_dinode inum type c.fs }) r u (rw e at h)
        | inr e ↦ ialloc_loop-IsUnique n (suc inum) dev type c r u (rw e at h)
      ]

-- The calls on the cache. The caller of idup and iput holds a reference. With a reference an entry may
-- be filled and changed, as ilock and writei do; no call but these changes `dev`, `inum` or `ref`.
pub data Step : Icache → Icache → Type 0 where
  got : (dev inum : ℕ) (c : Icache) (r : ℕ × Icache) → iget dev inum c ≡ some r → Step c (r.1)
  allocated :
      (dev type : ℕ) (c : Icache) (r : ℕ × Icache) → ialloc dev type c ≡ some r → Step c (r.1)
  duplicated : (i : ℕ) (c : Icache) → 0 < (entry c i).ref → Step c (idup i c)
  put : (i : ℕ) (c c' : Icache) → 0 < (entry c i).ref → iput i c ≡ some c' → Step c c'
  changed :
      (i : ℕ) (ip : Inode) (s : Fs) (c : Icache)
      → 0 < (entry c i).ref
      → Same ip (entry c i)
      → Step c (record c { inode = set c.inode i ip; fs = s })

pub data Reached : Icache → Type 0 where
  at_start : (s : Fs) → Reached (start s)
  and_then : (c c' : Icache) → Reached c → Step c c' → Reached c'

Step-IsUnique : (c c' : Icache) → Step c c' → IsUnique c → IsUnique c'
unfolding idup ialloc
Step-IsUnique c c' (got dev inum _ r h) u = iget-IsUnique dev inum c r u h
Step-IsUnique c c' (allocated dev type _ r h) u =
    ialloc_loop-IsUnique (c.fs.sb.ninodes - 1) 1 dev type c r u h
Step-IsUnique c c' (duplicated i _ held) u = Kept-IsUnique c i _ u held (
    put_entry-Kept c i (record (entry c i) { ref = (entry c i).ref + 1 }) c.fs
      (held_inside c i held) refl refl)
Step-IsUnique c c' (put i _ _ held h) u =
    Kept-IsUnique c i c' u held (iput-Kept c i c' (held_inside c i held) h)
Step-IsUnique c c' (changed i ip s _ held (d, n, r)) u =
    Kept-IsUnique c i _ u held (put_entry-Kept c i ip s (held_inside c i held) d n)

start_free : (s : Fs) (i : ℕ) → (entry (start s) i).ref ≡ 0
start_free s i = blanks ninode i
  where
    blanks : (n i : ℕ) → (get_or (replicate n blank) i blank).ref ≡ 0
    blanks zero i = refl
    blanks (suc n) zero = refl
    blanks (suc n) (suc i) = blanks n i

-- However the calls on the inode cache follow each other, no two entries with references are for the
-- same inode, if every caller of idup and iput, and of code that changes an entry, holds a reference.
pub icache-IsUnique : (c : Icache) → Reached c → IsUnique c
icache-IsUnique c (at_start s) = λ i j hi hj d n. absurd (omega (arith, start_free s i))
icache-IsUnique c (and_then b _ r st) = Step-IsUnique b c st (icache-IsUnique b r)
