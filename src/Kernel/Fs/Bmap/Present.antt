-- ===== src/Kernel/Fs/Bmap/Present.antt =====
-- bmap of xv6-public/fs.c for a block that the file has: nothing changes.
use c_s_e_hanyang.Base.{
  ℕ, ◌+◌, ◌-◌, ◌*◌, ◌/◌, ◌%◌, ◌<◌, ◌≡◌, ◌≢◌, ap, sym, ◌∙◌, true, ltb, get_or, arith, Bool-cases,
  none, some, inl, inr,
}
use c_s_e_hanyang.Kernel.Fs.{Fs}
use c_s_e_hanyang.Kernel.Fs.Bmap.{
  Inode, word, top_addr, word_addr, last_addr, bmap, ndirect, nindirect,
}
use c_s_e_hanyang.Kernel.Fs.Bmap.Places.{addr, through, place}

top_addr-present :
    (k : ℕ) (ip : Inode) (s : Fs)
    → get_or ip.addrs k 0 ≢ 0
    → top_addr k ip s ≡ some (get_or ip.addrs k 0, ip, s)
unfolding top_addr
top_addr-present k ip s ne = ground arith

through-root : (s : Fs) (a i : ℕ) → through s a i ≢ 0 → a ≢ 0
unfolding through
through-root s a i ne = ground arith

through-word : (s : Fs) (a i : ℕ) → through s a i ≢ 0 → word s a i ≡ through s a i
unfolding through
through-word s a i ne = ground arith

word_addr-present : (a i : ℕ) (s : Fs) → word s a i ≢ 0 → word_addr a i s ≡ some (word s a i, s)
unfolding word_addr
word_addr-present a i s ne = ground arith

last_addr-present :
    (i a : ℕ) (ip : Inode) (s : Fs)
    → through s a i ≢ 0
    → last_addr i (some (a, ip, s)) ≡ some (through s a i, ip, s)
unfolding last_addr
last_addr-present i a ip s ne =
    let e = through-word s a i ne in
    ap (λ o. elim o [ none ↦ none | some (x, s') ↦ some (x, ip, s') ])
      (word_addr-present a i s (λ z. ne (sym e ∙ z)))
    ∙ ap (λ x. some (x, ip, s)) e

pub bmap-present :
    (ip : Inode) (bn : ℕ) (s : Fs)
    → bn < ndirect + nindirect + nindirect * nindirect
    → addr ip s (place bn) ≢ 0
    → bmap ip bn s ≡ some (addr ip s (place bn), ip, s)
unfolding bmap addr place
bmap-present ip bn s lt ne = elim (Bool-cases (ltb bn ndirect)) [
  | inl e ↦ rw e (top_addr-present bn ip s (rw e at ne))
  | inr e ↦ elim (Bool-cases (ltb (bn - ndirect) nindirect)) [
    | inl f ↦
        let h = rw (e, f) at ne in
        rw (e, f)
          (ap (last_addr (bn - ndirect)) (top_addr-present ndirect ip s (through-root s _ _ h))
            ∙ last_addr-present (bn - ndirect) _ ip s h)
    | inr f ↦
        let h = rw (e, f) at ne in
        let n = bn - ndirect - nindirect in
        let inside : ltb n (nindirect * nindirect) ≡ true = ground arith in
        let h₁ = through-root s _ _ h in
        rw (e, f, inside)
          (ap (λ o. last_addr (n % nindirect) (last_addr (n / nindirect) o))
              (top_addr-present (ndirect + 1) ip s (through-root s _ _ h₁))
            ∙ ap (last_addr (n % nindirect)) (last_addr-present (n / nindirect) _ ip s h₁)
            ∙ last_addr-present (n % nindirect) _ ip s h)
  ]
]
