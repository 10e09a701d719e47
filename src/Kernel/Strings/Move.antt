-- ===== src/Kernel/Strings/Move.antt =====
-- memmove of xv6-public/string.c on ranges that may overlap.
use c_s_e_hanyang.Base.{
  ℕ, zero, suc, ◌+◌, ◌-◌, ◌≤◌, ◌<◌, ◌≡◌, ◌≢◌, refl, ◌&&◌, if◌then◌else◌, ltb, leb, ◌==◌, arith,
  Bool-cases, ◌⊎◌, inl, inr, ◌∙◌, ap, sym,
}
use c_s_e_hanyang.Kernel.Strings.{Memory, write, copy_down, copy_up, memmove}

-- What a move of `n` bytes leaves: the old bytes of the source in the target, and the rest.
Moved : ℕ → ℕ → ℕ → Memory → Memory → Type 0
Moved d s n mem mem' =
    ((i : ℕ) → i < n → mem' (d + i) ≡ mem (s + i))
    × ((x : ℕ) → (x < d) ⊎ (d + n ≤ x) → mem' x ≡ mem x)

write_other : (a v x : ℕ) (mem : Memory) → x ≢ a → write a v mem x ≡ mem x
write_other a v x mem h = ground arith

write_same : (a v : ℕ) (mem : Memory) → write a v mem a ≡ v
write_same a v mem = ground arith

copy_down-Moved : (d s n : ℕ) (mem : Memory) → s < d → Moved d s n mem (copy_down d s n mem)
unfolding copy_down Moved
copy_down-Moved d s zero mem h = ((λ i l. absurd (omega arith)), (λ x l. refl))
copy_down-Moved d s (suc n) mem h =
    let (inside, outside) = copy_down-Moved d s n (write (d + n) (mem (s + n)) mem) h in
    (
      λ i l. elim (Bool-cases (i == n)) [
        | inl e ↦
            let same : i ≡ n = ground arith in
            rw same (outside (d + n) (inr (omega arith)) ∙ write_same (d + n) (mem (s + n)) mem)
        | inr e ↦
            inside i (ground arith)
            ∙ write_other (d + n) (mem (s + n)) (s + i) mem (λ q. omega arith)
      ],
      λ x l. outside x (ground arith) ∙ write_other (d + n) (mem (s + n)) x mem (λ q. ground arith),
    )

copy_up-Moved :
    (d s n : ℕ) (mem : Memory) → (d ≤ s) ⊎ (s + n ≤ d) → Moved d s n mem (copy_up d s n mem)
unfolding copy_up Moved
copy_up-Moved d s zero mem h = ((λ i l. absurd (omega arith)), (λ x l. refl))
copy_up-Moved d s (suc n) mem h =
    let (inside, outside) = copy_up-Moved (suc d) (suc s) n (write d (mem s) mem) (ground arith) in
    (
      λ i l. up_inside i l inside outside,
      λ x l. outside x (ground arith) ∙ write_other d (mem s) x mem (λ q. ground arith),
    )
  where
    up_inside :
        (i : ℕ)
        → i < suc n
        → ((i' : ℕ)
            → i' < n
            → copy_up (suc d) (suc s) n (write d (mem s) mem) (suc d + i')
              ≡ write d (mem s) mem (suc s + i'))
        → ((x : ℕ)
            → (x < suc d) ⊎ (suc d + n ≤ x)
            → copy_up (suc d) (suc s) n (write d (mem s) mem) x ≡ write d (mem s) mem x)
        → copy_up (suc d) (suc s) n (write d (mem s) mem) (d + i) ≡ mem (s + i)
    up_inside zero l inside outside =
        let d0 : d + 0 ≡ d = omega arith in
        let s0 : s + 0 ≡ s = omega arith in
        rw (d0, s0) (outside d (inl (omega arith)) ∙ write_same d (mem s) mem)
    up_inside (suc i) l inside outside =
        let d1 : d + suc i ≡ suc d + i = omega arith in
        let s1 : s + suc i ≡ suc s + i = omega arith in
        rw (d1, s1)
          (inside i (omega arith) ∙ write_other d (mem s) (suc s + i) mem (λ q. ground arith))

Moved-read :
    (d s n : ℕ) (mem mem' : Memory) (x : ℕ)
    → Moved d s n mem mem'
    → mem' x ≡ (if leb d x && ltb x (d + n) then mem (s + (x - d)) else mem x)
unfolding Moved
Moved-read d s n mem mem' x (inside, outside) = elim (Bool-cases (leb d x && ltb x (d + n))) [
  | inl e ↦
      let back : d + (x - d) ≡ x = ground arith in
      rw e (ap mem' (sym back) ∙ inside (x - d) (ground arith))
  | inr e ↦ rw e (outside x (ground arith))
]

-- After memmove the `n` bytes from `dst` on are those that stood at `src` before, and all other bytes
-- are as they were, however the two ranges overlap.
pub memmove_lem :
    (dst src n : ℕ) (mem : Memory) (x : ℕ)
    → memmove dst src n mem x
      ≡ (if leb dst x && ltb x (dst + n) then mem (src + (x - dst)) else mem x)
unfolding memmove
memmove_lem dst src n mem x = elim (Bool-cases (ltb src dst && ltb dst (src + n))) [
  | inl over ↦ rw over (
      Moved-read dst src n mem (copy_down dst src n mem) x
        (copy_down-Moved dst src n mem (ground arith)))
  | inr apart ↦ rw apart (
      Moved-read dst src n mem (copy_up dst src n mem) x
        (copy_up-Moved dst src n mem (ground arith)))
]
