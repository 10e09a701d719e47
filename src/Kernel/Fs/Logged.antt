-- ===== src/Kernel/Fs/Logged.antt =====
-- The calls of log_write that bmap of xv6-public/fs.c makes, handed to the model of log.c.
use mathlib.Core.Path.{subst}
use c_s_e_hanyang.Base.{
  set, ℕ, ◌+◌, ◌-◌, ◌*◌, ◌/◌, ◌%◌, ◌≤◌, ◌<◌, ◌≡◌, refl, ap, ◌∙◌, sym, List, [], ◌∷◌, ◌++◌,
  append_assoc, length, length-append, ltb, ◌==◌, get_or, arith, Bool-cases, Option, none, some,
  inl, inr,
}
use c_s_e_hanyang.Kernel.Log.{log_size}
use c_s_e_hanyang.Kernel.Log.Admission.{Log}
use c_s_e_hanyang.Kernel.Log.Admission.Took.{take_writes, take_writes-Took}
use c_s_e_hanyang.Kernel.Fs.{
  set_byte, bitmap_block, note_write, Fs, scan_blocks, balloc, mark, zero_block,
}
use c_s_e_hanyang.Kernel.Fs.Blocks.Room.{free_blocks}
use c_s_e_hanyang.Kernel.Fs.Bmap.{
  Inode, word, set_word, top_addr, word_addr, last_addr, bmap, ndirect, nindirect,
}
use c_s_e_hanyang.Kernel.Fs.Bmap.Places.{IsMapped}
use c_s_e_hanyang.Kernel.Fs.Bmap.Returns.{bmap-returns}

-- The calls of `log_write` between two states, `n` at most.
abbrev pub Noted : ℕ → Fs → Fs → Type 0
Noted n s s' = (added : List ℕ) × (s'.logged ≡ added ++ s.logged) × (length added ≤ n)

pub Noted-trans : (m n : ℕ) (s t u : Fs) → Noted m s t → Noted n t u → Noted (m + n) s u
Noted-trans m n s t u (a, e, le) (b, f, lf) = (
  b ++ a,
  f ∙ ap (λ xs. b ++ xs) e ∙ sym (append_assoc b a s.logged),
  omega (arith, le, lf, length-append b a),
)

some_eq : {A : Type 0} {a b : A} → some a ≡ some b → a ≡ b
some_eq {a = a} e = ap (λ o. elim o [ none ↦ a | some r ↦ r ]) e

found-Noted :
    (s : Fs) (r : ℕ × Fs) (o : Option (ℕ × ℕ))
    → (elim o [
      | none ↦ none
      | some (b, bi) ↦ some (b + bi, zero_block (b + bi) (mark (bitmap_block s b) bi s))
    ])
      ≡ some r
    → Noted 2 s (r.1)
unfolding mark zero_block set_byte
found-Noted s r none h = absurd (ground arith)
found-Noted s r (some (b, bi)) h =
    subst (λ (q : ℕ × Fs). Noted 2 s (q.1)) (some_eq h)
      ((b + bi) ∷ bitmap_block s b ∷ [], refl, omega arith)

balloc-Noted : (s : Fs) (r : ℕ × Fs) → balloc s ≡ some r → Noted 2 s (r.1)
unfolding balloc
balloc-Noted s r e = found-Noted s r (scan_blocks s s.sb.size 0) e

-- What is done behind a `balloc` may note more.
balloc_then :
    {A : Type 0} (s : Fs) (f : ℕ → Fs → A) (view : A → Fs) (r : A) (n : ℕ) (o : Option (ℕ × Fs))
    → ((b : ℕ) (t : Fs) → Noted n t (view (f b t)))
    → balloc s ≡ o
    → (elim o [ none ↦ none | some (b, t) ↦ some (f b t) ]) ≡ some r
    → Noted (2 + n) s (view r)
balloc_then s f view r n none more e h = absurd (ground arith)
balloc_then s f view r n (some (b, t)) more e h =
    subst (λ a. Noted (2 + n) s (view a)) (some_eq h)
      (Noted-trans 2 n s t (view (f b t)) (balloc-Noted s (b, t) e) (more b t))

top_addr-Noted :
    (k : ℕ) (ip : Inode) (s : Fs) (r : ℕ × Inode × Fs) → top_addr k ip s ≡ some r → Noted 2 s (r.2)
unfolding top_addr
top_addr-Noted k ip s r e = elim (Bool-cases (get_or ip.addrs k 0 == 0)) [
  | inr there ↦
      let h : some (get_or ip.addrs k 0, ip, s) ≡ some r = rw there at e in
      subst (λ (q : ℕ × Inode × Fs). Noted 2 s (q.2)) (some_eq h) ([], refl, omega arith)
  | inl absent ↦
      balloc_then s (λ b t. (b, record ip { addrs = set ip.addrs k b }, t)) (λ q. q.2) r 0
        (balloc s) (λ b t. ([], refl, omega arith)) refl (rw absent at e)
]

word_addr-Noted : (a i : ℕ) (s : Fs) (r : ℕ × Fs) → word_addr a i s ≡ some r → Noted 3 s (r.1)
unfolding word_addr set_word
word_addr-Noted a i s r e = elim (Bool-cases (word s a i == 0)) [
  | inr there ↦
      let h : some (word s a i, s) ≡ some r = rw there at e in
      subst (λ (q : ℕ × Fs). Noted 3 s (q.1)) (some_eq h) ([], refl, omega arith)
  | inl absent ↦
      balloc_then s (λ x t. (x, note_write a (set_word a i x t))) (λ q. q.1) r 1 (balloc s)
        (λ x t. (a ∷ [], refl, omega arith)) refl (rw absent at e)
]

last_addr-Noted :
    (i n : ℕ) (s : Fs) (o : Option (ℕ × Inode × Fs)) (r : ℕ × Inode × Fs)
    → ((q : ℕ × Inode × Fs) → o ≡ some q → Noted n s (q.2))
    → last_addr i o ≡ some r
    → Noted (n + 3) s (r.2)
unfolding last_addr
last_addr-Noted i n s none r before e = absurd (ground arith)
last_addr-Noted i n s (some (a, ip, t)) r before e =
    word_then (word_addr a i t) (λ q h. word_addr-Noted a i t q h) e
  where
    word_then :
        (o : Option (ℕ × Fs))
        → ((q : ℕ × Fs) → o ≡ some q → Noted 3 t (q.1))
        → (elim o [ none ↦ none | some (x, s') ↦ some (x, ip, s') ]) ≡ some r
        → Noted (n + 3) s (r.2)
    word_then none step h = absurd (ground arith)
    word_then (some (x, s')) step h =
        subst (λ (q : ℕ × Inode × Fs). Noted (n + 3) s (q.2)) (some_eq h)
          (Noted-trans n 3 s t s' (before (a, ip, t) refl) (step (x, s') refl))

pub Noted-le : (m n : ℕ) (s t : Fs) → m ≤ n → Noted m s t → Noted n s t
Noted-le m n s t le (added, e, few) = (added, e, omega arith)

pub bmap-Noted :
    (ip : Inode) (bn : ℕ) (s : Fs) (r : ℕ × Inode × Fs) → bmap ip bn s ≡ some r → Noted 8 s (r.2)
unfolding bmap
bmap-Noted ip bn s r e = elim (Bool-cases (ltb bn ndirect)) [
  | inl f ↦ Noted-le 2 8 s (r.2) (omega arith) (top_addr-Noted bn ip s r (rw f at e))
  | inr f ↦ elim (Bool-cases (ltb (bn - ndirect) nindirect)) [
    | inl g ↦ Noted-le 5 8 s (r.2) (omega arith) (
        last_addr-Noted (bn - ndirect) 2 s (top_addr ndirect ip s) r (top_addr-Noted ndirect ip s)
          (rw (f, g) at e))
    | inr g ↦
        let n = bn - ndirect - nindirect in
        elim (Bool-cases (ltb n (nindirect * nindirect))) [
          | inr outside ↦ let h : none ≡ some r = rw (f, g, outside) at e in absurd (ground arith)
          | inl inside ↦
              last_addr-Noted (n % nindirect) 5 s
                (last_addr (n / nindirect) (top_addr (ndirect + 1) ip s)) r
                (λ q h.
                  last_addr-Noted (n / nindirect) 2 s (top_addr (ndirect + 1) ip s) q
                    (top_addr-Noted (ndirect + 1) ip s) h)
                (rw (f, g, inside) at e)
        ]
  ]
]

-- bmap of a block that is not past the largest file, for an operation inside a transaction, returns if
-- three blocks of the disk are free and eight more blocks fit in the log: neither bmap, nor balloc, nor
-- log_write panics. It takes at most three blocks of the disk and eight of the log.
pub bmap-logged :
    (ip : Inode) (s : Fs) (bn : ℕ) (l : Log)
    → IsMapped ip s
    → bn < ndirect + nindirect + nindirect * nindirect
    → 3 ≤ free_blocks s
    → 1 ≤ l.outstanding
    → length l.lh + 8 ≤ log_size
    → length l.lh + 8 < l.size
    → (x : ℕ) × (ip' : Inode) × (s' : Fs) × (added : List ℕ) × (l' : Log) × (bmap ip bn s
        ≡ some (x, ip', s'))
      × (s'.logged ≡ added ++ s.logged)
      × (take_writes added l ≡ some l')
      × (length l'.lh ≤ length l.lh + 8)
      × (free_blocks s ≤ free_blocks s' + 3)
bmap-logged ip s bn l m lt free busy fits room =
    let (x, ip', s', o, spent) = bmap-returns ip s bn m lt free in
    let (added, e, few) = bmap-Noted ip bn s (x, ip', s') o in
    let (l', t, took) = take_writes-Took added l busy (omega arith) (omega arith) in
    (x, ip', s', added, l', o, e, t, omega (arith, took.0), spent)
