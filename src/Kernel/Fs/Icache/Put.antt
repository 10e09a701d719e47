-- ===== src/Kernel/Fs/Icache/Put.antt =====
-- itrunc and iput of xv6-public/fs.c do not change which inode an entry is for.
use mathlib.Core.Path.{subst}
use c_s_e_hanyang.Base.{
  ℕ, zero, suc, ◌+◌, ◌-◌, ◌<◌, ◌≡◌, refl, ap, sym, ◌∙◌, false, ◌&&◌, ◌==◌, get_or, set, length,
  length-set, get_or-set_self, get_or-set_ne, arith, Bool-cases, Option-cases, some_inj, Option,
  none, some, inl, inr, ◌>>=◌,
}
use c_s_e_hanyang.Kernel.Fs.{Fs, bfree}
use c_s_e_hanyang.Kernel.Fs.Bmap.{Inode, ndirect, nindirect}
use c_s_e_hanyang.Kernel.Fs.Trunc.{
  clear, free_direct, free_words, free_indirect, free_tables, drop_double, free_double, finish,
  itrunc,
}
use c_s_e_hanyang.Kernel.Fs.Icache.{Icache, blank, entry, retire, free_inode, drop_ref, iput}

-- Which inode it is, and its references.
abbrev pub Same : Inode → Inode → Type 0
Same ip' ip = (ip'.dev ≡ ip.dev) × (ip'.inum ≡ ip.inum) × (ip'.ref ≡ ip.ref)

free_direct-Same :
    (n k : ℕ) (ip : Inode) (s : Fs) (r : Inode × Fs) → free_direct n k ip s ≡ some r → Same (r.0) ip
unfolding free_direct
free_direct-Same zero k ip s r h =
    let e = some_inj h in
    (ap (λ r. (r.0).dev) (sym e), ap (λ r. (r.0).inum) (sym e), ap (λ r. (r.0).ref) (sym e))
free_direct-Same (suc n) k ip s r h = elim (Bool-cases (get_or ip.addrs k 0 == 0)) [
  | inl e ↦ free_direct-Same n (suc k) ip s r (rw e at h)
  | inr e ↦ elim (Option-cases (bfree (get_or ip.addrs k 0) s)) [
    | inl o ↦ absurd (ground arith)
    | inr (s', o) ↦ free_direct-Same n (suc k) (clear k ip) s' r (rw (e, o) at h)
  ]
]

Same-some : (ip : Inode) (a r : Inode × Fs) → some a ≡ some r → Same (a.0) ip → Same (r.0) ip
Same-some ip a r h (d, i, n) =
    let e = some_inj h in
    (
      ap (λ r. (r.0).dev) (sym e) ∙ d,
      ap (λ r. (r.0).inum) (sym e) ∙ i,
      ap (λ r. (r.0).ref) (sym e) ∙ n,
    )

free_indirect-Same :
    (ip : Inode) (s : Fs) (r : Inode × Fs) → free_indirect ip s ≡ some r → Same (r.0) ip
unfolding free_indirect
free_indirect-Same ip s r h = elim (Bool-cases (get_or ip.addrs ndirect 0 == 0)) [
  | inl e ↦ Same-some ip (ip, s) r (rw e at h) (refl, refl, refl)
  | inr e ↦ elim (Option-cases (free_words nindirect 0 (get_or ip.addrs ndirect 0) s)) [
    | inl o ↦ absurd (ground arith)
    | inr (s', o) ↦ elim (Option-cases (bfree (get_or ip.addrs ndirect 0) s')) [
      | inl q ↦ absurd (ground arith)
      | inr (s'', q) ↦ Same-some ip (clear ndirect ip, s'') r (rw (e, o, q) at h) (refl, refl, refl)
    ]
  ]
]

drop_double-Same :
    (ip : Inode) (o : Option Fs) (r : Inode × Fs) → drop_double ip o ≡ some r → Same (r.0) ip
unfolding drop_double
drop_double-Same ip none r h = absurd (ground arith)
drop_double-Same ip (some s) r h = Same-some ip (clear (ndirect + 1) ip, s) r h (refl, refl, refl)

free_double-Same :
    (ip : Inode) (s : Fs) (r : Inode × Fs) → free_double ip s ≡ some r → Same (r.0) ip
unfolding free_double
free_double-Same ip s r h = elim (Bool-cases (get_or ip.addrs (ndirect + 1) 0 == 0)) [
  | inl e ↦ Same-some ip (ip, s) r (rw e at h) (refl, refl, refl)
  | inr e ↦
      drop_double-Same ip (free_tables nindirect 0 (get_or ip.addrs (ndirect + 1) 0) s) r
        (rw e at h)
]

Same-trans : (a b c : Inode) → Same a b → Same b c → Same a c
Same-trans a b c (d, i, n) (d', i', n') = (d ∙ d', i ∙ i', n ∙ n')

bind_inv :
    {A B : Type 0} (o : Option A) (f : A → Option B) (r : B)
    → (o >>= f) ≡ some r
    → (a : A) × (o ≡ some a) × (f a ≡ some r)
bind_inv none f r h = absurd (ground arith)
bind_inv (some a) f r h = (a, refl, h)

pub itrunc-Same : (ip : Inode) (s : Fs) (r : Inode × Fs) → itrunc ip s ≡ some r → Same (r.0) ip
unfolding itrunc finish
itrunc-Same ip s r h =
    let (a, oa, h₁) = bind_inv (free_direct ndirect 0 ip s) _ r h in
    let (b, ob, h₂) = bind_inv (free_indirect (a.0) (a.1)) _ r h₁ in
    let (c, oc, h₃) = bind_inv (free_double (b.0) (b.1)) _ r h₂ in
    let sa = free_direct-Same ndirect 0 ip s a oa in
    let sb = Same-trans (b.0) (a.0) ip (free_indirect-Same (a.0) (a.1) b ob) sa in
    let sc = Same-trans (c.0) (b.0) ip (free_double-Same (b.0) (b.1) c oc) sb in
    Same-some ip (finish c) r h₃ sc

-- The cache with entry `i` for the same inode still, and all others as they were.
pub record Kept (c : Icache) (i : ℕ) (c' : Icache) : Type 0 where
  pub same_length : length c'.inode ≡ length c.inode
  pub same_dev : (entry c' i).dev ≡ (entry c i).dev
  pub same_inum : (entry c' i).inum ≡ (entry c i).inum
  pub others : (j : ℕ) → (j == i) ≡ false → entry c' j ≡ entry c j

pub put_entry-Kept :
    (c : Icache) (i : ℕ) (ip : Inode) (s : Fs)
    → i < length c.inode
    → ip.dev ≡ (entry c i).dev
    → ip.inum ≡ (entry c i).inum
    → Kept c i (record c { inode = set c.inode i ip; fs = s })
put_entry-Kept c i ip s lt d n =
    let here : get_or (set c.inode i ip) i blank ≡ ip = get_or-set_self c.inode i ip blank lt in
    record {
      same_length = length-set c.inode i ip;
      same_dev = ap (λ e. e.dev) here ∙ d;
      same_inum = ap (λ e. e.inum) here ∙ n;
      others = λ j ne. get_or-set_ne c.inode i j ip blank (ground arith);
    }

Kept-trans : (a b c : Icache) (i : ℕ) → Kept a i b → Kept b i c → Kept a i c
Kept-trans a b c i k l = record {
  same_length = l.same_length ∙ k.same_length;
  same_dev = l.same_dev ∙ k.same_dev;
  same_inum = l.same_inum ∙ k.same_inum;
  others = λ j ne. l.others j ne ∙ k.others j ne;
}

drop_ref-Kept : (c : Icache) (i : ℕ) → i < length c.inode → Kept c i (drop_ref i c)
drop_ref-Kept c i lt =
    put_entry-Kept c i (record (entry c i) { ref = (entry c i).ref - 1 }) c.fs lt refl refl

free_inode-Kept :
    (c : Icache) (i : ℕ) (c' : Icache) → i < length c.inode → free_inode i c ≡ some c' → Kept c i c'
unfolding free_inode retire
free_inode-Kept c i c' lt h =
    let (r, o, e) = bind_inv (itrunc (entry c i) c.fs) _ c' h in
    let (d, n, _) = itrunc-Same (entry c i) c.fs r o in
    subst (Kept c i) (some_inj e) (put_entry-Kept c i _ _ lt d n)

pub iput-Kept :
    (c : Icache) (i : ℕ) (c' : Icache) → i < length c.inode → iput i c ≡ some c' → Kept c i c'
unfolding iput
iput-Kept c i c' lt h =
    elim (Bool-cases ((entry c i).ref == 1 && ((entry c i).valid && (entry c i).nlink == 0))) [
      | inr e ↦ subst (Kept c i) (some_inj (rw e at h)) (drop_ref-Kept c i lt)
      | inl e ↦ elim (Option-cases (free_inode i c)) [
        | inl o ↦ absurd (ground arith)
        | inr (d, o) ↦
            let k = free_inode-Kept c i d lt o in
            let inside : i < length d.inode = omega (arith, k.same_length) in
            subst (Kept c i) (some_inj (rw (e, o) at h))
              (Kept-trans c d (drop_ref i d) i k (drop_ref-Kept d i inside))
      ]
    ]
