-- ===== src/Kernel/Fs/Bmap/Returns.antt =====
-- bmap of xv6-public/fs.c does not panic while three blocks are free.
use c_s_e_hanyang.Base.{
  ℕ, ◌+◌, ◌-◌, ◌*◌, ◌/◌, ◌%◌, ◌≤◌, ◌<◌, ◌≡◌, refl, ap, ◌∙◌, true, ltb, ◌==◌, get_or, set, arith,
  Bool-cases, Option, none, some, inl, inr,
}
use c_s_e_hanyang.Kernel.Fs.{Fs, note_write}
use c_s_e_hanyang.Kernel.Fs.Blocks.Room.{free_blocks, balloc-room}
use c_s_e_hanyang.Kernel.Fs.Bmap.{
  Inode, word, set_word, top_addr, word_addr, last_addr, bmap, ndirect, nindirect,
}
use c_s_e_hanyang.Kernel.Fs.Bmap.Places.{slot, table, cell, IsMapped}
use c_s_e_hanyang.Kernel.Fs.Bmap.Reach.{top_addr-Reached}
use c_s_e_hanyang.Kernel.Fs.Bmap.Lookup.{below}

top_addr-returns :
    (k : ℕ) (ip : Inode) (s : Fs)
    → 0 < free_blocks s
    → (x : ℕ) × (ip' : Inode) × (s' : Fs) × (top_addr k ip s ≡ some (x, ip', s'))
unfolding top_addr
top_addr-returns k ip s room = elim (Bool-cases (get_or ip.addrs k 0 == 0)) [
  | inr e ↦ (get_or ip.addrs k 0, ip, s, rw e refl)
  | inl e ↦
      let ((b, t), o) = balloc-room s room in
      (b, record ip { addrs = set ip.addrs k b }, t, rw (e, o) refl)
]

word_addr-returns :
    (a i : ℕ) (s : Fs) → 0 < free_blocks s → (x : ℕ) × (s' : Fs) × (word_addr a i s ≡ some (x, s'))
unfolding word_addr
word_addr-returns a i s room = elim (Bool-cases (word s a i == 0)) [
  | inr e ↦ (word s a i, s, rw e refl)
  | inl e ↦
      let ((b, t), o) = balloc-room s room in (b, note_write a (set_word a i b t), rw (e, o) refl)
]

last_addr_step :
    (i a : ℕ) (o : Option (ℕ × Inode × Fs)) (ip : Inode) (t : Fs) (x : ℕ) (s' : Fs)
    → o ≡ some (a, ip, t)
    → word_addr a i t ≡ some (x, s')
    → last_addr i o ≡ some (x, ip, s')
unfolding last_addr
last_addr_step i a o ip t x s' e h =
    ap (last_addr i) e ∙ ap (λ o. elim o [ none ↦ none | some (x, s') ↦ some (x, ip, s') ]) h

Result : Option (ℕ × Inode × Fs) → Fs → Type 0
Result o s =
    (x : ℕ) × (ip' : Inode) × (s' : Fs) × (o ≡ some (x, ip', s'))
    × (free_blocks s ≤ free_blocks s' + 3)

module _ (ip : Inode) (s : Fs) (m : IsMapped ip s) (room : 3 ≤ free_blocks s) where
  direct : (k : ℕ) → k < ndirect → Result (top_addr k ip s) s
  unfolding Result
  direct k lt =
      let (x, ip', s', o) = top_addr-returns k ip s (omega arith) in
      let r = top_addr-Reached ip s k x ip' s' m (omega arith) o in
      (x, ip', s', o, omega (arith, r.spent))

  single : (i : ℕ) → i < nindirect → Result (last_addr i (top_addr ndirect ip s)) s
  unfolding Result
  single i lt =
      let (a, ip', t, o) = top_addr-returns ndirect ip s (omega arith) in
      let r = top_addr-Reached ip s ndirect a ip' t m (omega arith) o in
      let (x, s', w) = word_addr-returns a i t (omega (arith, r.spent)) in
      let b = below ip' t (slot i) a x s' r.mapped r.here r.nonzero lt (omega arith) w in
      (x, ip', s', last_addr_step i a _ ip' t x s' o w, omega (arith, r.spent, b.spent))

  double :
      (i j : ℕ)
      → i < nindirect
      → j < nindirect
      → Result (last_addr j (last_addr i (top_addr (ndirect + 1) ip s))) s
  unfolding Result
  double i j li lj =
      let (a, ip', t, o) = top_addr-returns (ndirect + 1) ip s (omega arith) in
      let r = top_addr-Reached ip s (ndirect + 1) a ip' t m (omega arith) o in
      let (b, u, w) = word_addr-returns a i t (omega (arith, r.spent)) in
      let r₁ = below ip' t (table i) a b u r.mapped r.here r.nonzero li (omega arith) w in
      let (x, s', v) = word_addr-returns b j u (omega (arith, r.spent, r₁.spent)) in
      let r₂ =
        below ip' u (cell i j) b x s' r₁.mapped r₁.here r₁.nonzero (li, lj) (omega arith) v in
      (
        x,
        ip',
        s',
        last_addr_step j b _ ip' u x s' (last_addr_step i a _ ip' t b u o w) v,
        omega (arith, r.spent, r₁.spent, r₂.spent),
      )

-- bmap of a block that is not past the largest file returns if three blocks are free, and takes no more.
pub bmap-returns :
    (ip : Inode) (s : Fs) (bn : ℕ)
    → IsMapped ip s
    → bn < ndirect + nindirect + nindirect * nindirect
    → 3 ≤ free_blocks s
    → (x : ℕ) × (ip' : Inode) × (s' : Fs) × (bmap ip bn s ≡ some (x, ip', s'))
      × (free_blocks s ≤ free_blocks s' + 3)
unfolding bmap Result
bmap-returns ip s bn m lt room = elim (Bool-cases (ltb bn ndirect)) [
  | inl e ↦ rw e (direct ip s m room bn (ground arith))
  | inr e ↦ elim (Bool-cases (ltb (bn - ndirect) nindirect)) [
    | inl f ↦ rw (e, f) (single ip s m room (bn - ndirect) (ground arith))
    | inr f ↦
        let n = bn - ndirect - nindirect in
        let inside : ltb n (nindirect * nindirect) ≡ true = ground arith in
        rw (e, f, inside)
          (double ip s m room (n / nindirect) (n % nindirect) (ground arith) (omega arith))
  ]
]
