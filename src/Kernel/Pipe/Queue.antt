-- ===== src/Kernel/Pipe/Queue.antt =====
-- A pipe as a queue of the bytes written and not yet read, against pipewrite and piperead of
-- xv6-public/pipe.c.
use mathlib.Core.Path.{ap₂}
use c_s_e_hanyang.Base.{
  ℕ, zero, suc, ◌+◌, ◌-◌, ◌%◌, ◌≤◌, ◌<◌, ◌≡◌, refl, ap, ◌∙◌, false, List, [], ◌∷◌, ◌++◌, length,
  get_or, set, length-set, get_or-set_self, get_or-set_ne, ◌==◌, arith, u32_mod,
}
use c_s_e_hanyang.Kernel.Pipe.{Pipe, pipe_size, is_full, put, advance, front}

-- The `n` bytes from counter `h` on.
abbrev pub window : List ℕ → ℕ → ℕ → List ℕ
window buf h zero = []
window buf h (suc n) = get_or buf (h % pipe_size) 0 ∷ window buf (h + 1) n

-- `nwrite - nread` in 32 bits.
abbrev pub used : Pipe → ℕ
used p = (p.nwrite + u32_mod - p.nread) % u32_mod

abbrev pub contents : Pipe → List ℕ
contents p = window p.buf p.nread (used p)

pub record IsValid (p : Pipe) : Type 0 where
  pub storage : length p.buf ≡ pipe_size
  pub nread_in : p.nread < u32_mod
  pub nwrite_in : p.nwrite < u32_mod
  pub bounded : used p ≤ pipe_size

-- Only the counter's place in the buffer matters.
window_congr :
    (buf : List ℕ) (n h k : ℕ) → h % pipe_size ≡ k % pipe_size → window buf h n ≡ window buf k n
window_congr buf zero h k e = refl
window_congr buf (suc n) h k e = rw (e, window_congr buf n (h + 1) (k + 1) (omega arith))

-- A byte stored behind the window extends it.
window-set :
    (buf : List ℕ) (n h i b : ℕ)
    → length buf ≡ pipe_size
    → n < pipe_size
    → i ≡ (h + n) % pipe_size
    → window (set buf i b) h (suc n) ≡ window buf h n ++ b ∷ []
window-set buf zero h i b l m e =
    let same : i ≡ h % pipe_size = omega arith in
    rw (same, get_or-set_self buf (h % pipe_size) b 0 (omega arith))
window-set buf (suc n) h i b l m e =
    ap₂ ◌∷◌ (get_or-set_ne buf i (h % pipe_size) b 0 (omega arith))
      (window-set buf n (h + 1) i b l (omega arith) (omega arith))

pub length-contents : (p : Pipe) → length (contents p) ≡ used p
length-contents p = go (used p) p.nread
  where
    go : (n h : ℕ) → length (window p.buf h n) ≡ n
    go zero h = refl
    go (suc n) h = ap suc (go n (h + 1))

pub used-put : {p : Pipe} (b : ℕ) → IsValid p → is_full p ≡ false → used (put p b) ≡ used p + 1
unfolding put
used-put b v e = ground arith

pub put-IsValid : {p : Pipe} (b : ℕ) → IsValid p → is_full p ≡ false → IsValid (put p b)
unfolding put
put-IsValid {p} b v e = record {
  storage = length-set p.buf (p.nwrite % pipe_size) b ∙ v.storage;
  nread_in = v.nread_in;
  nwrite_in = omega arith;
  bounded = ground arith;
}

pub contents-put :
    {p : Pipe} (b : ℕ) → IsValid p → is_full p ≡ false → contents (put p b) ≡ contents p ++ b ∷ []
unfolding put
contents-put {p} b v e =
    let grown : used (put p b) ≡ suc (used p) = omega (arith, used-put b v e) in
    let room : used p < pipe_size = ground arith in
    rw grown (
      window-set p.buf (used p) p.nread (p.nwrite % pipe_size) b v.storage room
        (omega (arith, v.nread_in, v.nwrite_in)))

-- `window` matches on `suc`, the code compares the counters.
pub contents-advance :
    {p : Pipe}
    → IsValid p
    → (p.nread == p.nwrite) ≡ false
    → contents p ≡ front p ∷ contents (advance p)
unfolding advance
contents-advance {p} v e =
    let fewer : used p ≡ suc (used (advance p)) = ground arith in
    rw fewer (
      ap (λ t. front p ∷ t)
        (window_congr p.buf (used (advance p)) (p.nread + 1) ((p.nread + 1) % u32_mod)
          (omega arith)))

pub advance-IsValid : {p : Pipe} → IsValid p → (p.nread == p.nwrite) ≡ false → IsValid (advance p)
unfolding advance
advance-IsValid v e = ground arith

pub used-advance :
    {p : Pipe} → IsValid p → (p.nread == p.nwrite) ≡ false → used p ≡ suc (used (advance p))
unfolding advance
used-advance v e = ground arith
