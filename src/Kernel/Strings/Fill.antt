-- ===== src/Kernel/Strings/Fill.antt =====
-- memset and safestrcpy of xv6-public/string.c: what they write, and where.
use c_s_e_hanyang.Base.{
  Bool, true, ◌^◌, refl, table, table_entry, ℕ, zero, suc, ◌+◌, ◌*◌, ◌/◌, ◌%◌, ◌≤◌, ◌<◌, ◌≡◌, ◌&&◌,
  if◌then◌else◌, ltb, leb, ◌==◌, arith, Bool-cases, ◌⊎◌, inl, inr, ◌∙◌, ap,
}
use c_s_e_hanyang.Kernel.Strings.{
  Memory, write, write_word, repeated, fill_bytes, fill_words, memset, safestrcpy, safestrcpy_loop,
}

-- The memory with `n` bytes of value `v` from `dst` on.
unfoldable pub filled : ℕ → ℕ → ℕ → Memory → Memory
filled dst v n mem = λ x. if leb dst x && ltb x (dst + n) then v else mem x

fill_bytes_lem :
    (dst v n : ℕ) (mem : Memory) (x : ℕ) → fill_bytes dst v n mem x ≡ filled dst v n mem x
unfolding fill_bytes filled
fill_bytes_lem dst v zero mem x = ground arith
fill_bytes_lem dst v (suc n) mem x =
    ground (arith, fill_bytes_lem (suc dst) v n (write dst v mem) x)

-- The bytes of the word that memset composes.
repeats : ℕ → Bool
repeats c =
    let w = repeated c in
    (w % 256 == c) && (w / 2 ^ 8 % 256 == c) && (w / 2 ^ 16 % 256 == c) && (w / 2 ^ 24 % 256 == c)

repeats-table : table repeats 256 ≡ true
unfolding repeats repeated
repeats-table = refl

repeated_bytes :
    (c : ℕ)
    → c < 256
    → (repeated c % 256 ≡ c)
      × (repeated c / 2 ^ 8 % 256 ≡ c)
      × (repeated c / 2 ^ 16 % 256 ≡ c)
      × (repeated c / 2 ^ 24 % 256 ≡ c)
repeated_bytes c h =
    let e : repeats c ≡ true = table_entry repeats 256 c h repeats-table in
    unfold repeats in ground (arith, e)

write_word_lem :
    (dst c : ℕ) (mem : Memory) (x : ℕ)
    → c < 256
    → write_word dst (repeated c) mem x ≡ filled dst c 4 mem x
unfolding write_word filled
write_word_lem dst c mem x h =
    let (e₀, e₁, e₂, e₃) = repeated_bytes c h in rw (e₀, e₁, e₂, e₃) (ground arith)

fill_words_lem :
    (dst c n : ℕ) (mem : Memory) (x : ℕ)
    → c < 256
    → fill_words dst (repeated c) n mem x ≡ filled dst c (4 * n) mem x
unfolding fill_words filled
fill_words_lem dst c zero mem x h = ground arith
fill_words_lem dst c (suc n) mem x h = ground (
  arith,
  fill_words_lem (dst + 4) c n (write_word dst (repeated c) mem) x h,
  write_word_lem dst c mem x h,
)

-- memset writes the low byte of its argument to the `n` bytes from `dst` on and nothing else, by
-- words of four copies of the byte where both are multiples of 4, and by bytes elsewhere.
pub memset-filled :
    (dst c n : ℕ) (mem : Memory) (x : ℕ) → memset dst c n mem x ≡ filled dst (c % 256) n mem x
unfolding memset
memset-filled dst c n mem x = elim (Bool-cases ((dst % 4 == 0) && (n % 4 == 0))) [
  | inl by_words ↦
      let whole : 4 * (n / 4) ≡ n = ground arith in
      rw by_words (
        fill_words_lem dst (c % 256) (n / 4) mem x (omega arith)
        ∙ ap (λ k. filled dst (c % 256) k mem x) whole)
  | inr by_bytes ↦ rw by_bytes (fill_bytes_lem dst (c % 256) n mem x)
]

safestrcpy_loop_lem :
    (s t n : ℕ) (mem : Memory)
    → ((j : ℕ) × ((j ≤ n) × (safestrcpy_loop s t n mem (s + j) ≡ 0)))
      × ((x : ℕ) → (x < s) ⊎ (s + n < x) → safestrcpy_loop s t n mem x ≡ mem x)
unfolding safestrcpy_loop
safestrcpy_loop_lem s t zero mem = ((0, (omega arith, ground arith)), (λ x l. ground arith))
safestrcpy_loop_lem s t (suc n) mem =
    let ((j, (le, nul)), outside) = safestrcpy_loop_lem (suc s) (suc t) n (write s (mem t) mem) in
    elim (Bool-cases (mem t == 0)) [
      | inl ends ↦ ((1, (omega arith, ground arith)), (λ x l. ground arith))
      | inr more ↦ (
        (suc j, (omega arith, let e : s + suc j ≡ suc s + j = omega arith in rw (more, e) nul)),
        (λ x l. ground (arith, outside x (ground arith))),
      )
    ]

-- safestrcpy into `n + 1` bytes leaves a NUL among them.
pub safestrcpy-terminated :
    (s t n : ℕ) (mem : Memory) → (j : ℕ) × ((j ≤ n) × (safestrcpy s t (suc n) mem (s + j) ≡ 0))
unfolding safestrcpy
safestrcpy-terminated s t n mem = (safestrcpy_loop_lem s t n mem).0

-- safestrcpy into `n + 1` bytes changes no other byte.
pub safestrcpy-outside :
    (s t n : ℕ) (mem : Memory) (x : ℕ)
    → (x < s) ⊎ (s + n < x)
    → safestrcpy s t (suc n) mem x ≡ mem x
unfolding safestrcpy
safestrcpy-outside s t n mem x = (safestrcpy_loop_lem s t n mem).1 x
