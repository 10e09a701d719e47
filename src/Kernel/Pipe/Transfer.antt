-- ===== src/Kernel/Pipe/Transfer.antt =====
-- What pipewrite and piperead of xv6-public/pipe.c move, on every branch.
use c_s_e_hanyang.Base.{
  ℕ, zero, suc, ◌-◌, ◌≡◌, refl, Bool, true, false, not, ◌&&◌, ◌||◌, List, [], ◌∷◌, ◌++◌,
  append_assoc, append-nil, length, take, drop, leb, ◌==◌, if◌then◌else◌, Bool-cases, inl, inr,
  arith,
}
use c_s_e_hanyang.Kernel.Pipe.{
  Pipe, Chan, WriteStop, wrote, write_failed, write_sleeps, ReadStop, got, read_failed, read_sleeps,
  pipe_size, is_full, put, advance, write_loop, pipewrite, read_loop, piperead, nread_chan,
  nwrite_chan,
}
use c_s_e_hanyang.Kernel.Pipe.Queue.{
  used, contents, IsValid, used-put, put-IsValid, contents-put, contents-advance, advance-IsValid,
}

-- The bytes that fit.
abbrev pub room : Pipe → ℕ
room p = pipe_size - used p

abbrev pub expected_stop : ℕ → Bool → Pipe → List ℕ → WriteStop
expected_stop n killed p bs =
    if leb (length bs) (room p)
    then wrote n
    else (if not p.readopen || killed then write_failed else write_sleeps (drop (room p) bs))

abbrev pub expected_wakeups : Bool → Pipe → List ℕ → List Chan
expected_wakeups killed p bs =
    if leb (length bs) (room p) || not (not p.readopen || killed) then nread_chan ∷ [] else []

pub record WriteResult (n : ℕ) (killed : Bool) (p : Pipe) (bs : List ℕ)
    (r : WriteStop × Pipe × List Chan) : Type 0 where
  pub valid : IsValid r.1
  pub stop : r.0 ≡ expected_stop n killed p bs
  pub moved : contents r.1 ≡ contents p ++ take (room p) bs
  pub woken : r.2 ≡ expected_wakeups killed p bs
  pub readopen_kept : r.1.readopen ≡ p.readopen
  pub writeopen_kept : r.1.writeopen ≡ p.writeopen

put_keeps :
    (p : Pipe) (b : ℕ) → ((put p b).readopen ≡ p.readopen) × ((put p b).writeopen ≡ p.writeopen)
unfolding put
put_keeps p b = (refl, refl)

room-full : {p : Pipe} → IsValid p → is_full p ≡ true → room p ≡ 0
room-full v e = ground arith

room-put : {p : Pipe} (b : ℕ) → IsValid p → is_full p ≡ false → room p ≡ suc (room (put p b))
room-put {p} b v e = omega (arith, used-put b v e, (put-IsValid b v e).bounded)

take_nil : (k : ℕ) → take {A = ℕ} k [] ≡ []
take_nil zero = refl
take_nil (suc k) = refl

-- The loop from any point on: a call that slept resumes here, on the pipe as it wakes to.
pub write_loop-result :
    (n : ℕ) (killed : Bool) (bs : List ℕ) {p : Pipe}
    → IsValid p
    → WriteResult n killed p bs (write_loop n killed p bs)
unfolding write_loop
write_loop-result n killed [] {p} v = ground (arith, take_nil (room p), append-nil (contents p))
write_loop-result n killed (b ∷ bs) {p} v = elim (Bool-cases (is_full p)) [
  | inl full ↦ ground (arith, room-full v full, append-nil (contents p))
  | inr space ↦ ground (
    arith,
    room-put b v space,
    put_keeps p b,
    contents-put b v space,
    append_assoc (contents p) (b ∷ []) (take (room (put p b)) bs),
    write_loop-result n killed bs (put-IsValid b v space),
  )
]

-- pipewrite moves the bytes that fit, in order, behind those in the pipe. If all fit it returns
-- their number; if not, it fails when the reader is gone or the caller is killed, and else sleeps
-- with exactly the rest to write. It wakes the reader unless it fails.
pub pipewrite_lem :
    (killed : Bool) {p : Pipe} (addr : List ℕ)
    → IsValid p
    → WriteResult (length addr) killed p addr (pipewrite killed p addr)
unfolding pipewrite
pipewrite_lem killed addr v = write_loop-result (length addr) killed addr v

pub record ReadResult (killed : Bool) (p : Pipe) (n : ℕ) (r : ReadStop × Pipe × List Chan)
    : Type 0 where
  pub valid : IsValid r.1
  pub stop : r.0 ≡ (
      if (used p == 0) && p.writeopen
      then (if killed then read_failed else read_sleeps)
      else got (take n (contents p)))
  pub left :
      contents r.1 ≡ (if (used p == 0) && p.writeopen then contents p else drop n (contents p))
  pub woken : r.2 ≡ (if (used p == 0) && p.writeopen then [] else nwrite_chan ∷ [])
  pub readopen_kept : r.1.readopen ≡ p.readopen
  pub writeopen_kept : r.1.writeopen ≡ p.writeopen

record Copied (p : Pipe) (n : ℕ) (r : List ℕ × Pipe) : Type 0 where
  valid : IsValid r.1
  bytes : r.0 ≡ take n (contents p)
  left : contents r.1 ≡ drop n (contents p)
  readopen_kept : r.1.readopen ≡ p.readopen
  writeopen_kept : r.1.writeopen ≡ p.writeopen

advance_keeps :
    (p : Pipe) → ((advance p).readopen ≡ p.readopen) × ((advance p).writeopen ≡ p.writeopen)
unfolding advance
advance_keeps p = (refl, refl)

empty_iff : {p : Pipe} → IsValid p → (p.nread == p.nwrite) ≡ (used p == 0)
empty_iff v = ground arith

contents-empty : (p : Pipe) → used p ≡ 0 → contents p ≡ []
contents-empty p e = rw e

drop_nil : (k : ℕ) → drop {A = ℕ} k [] ≡ []
drop_nil zero = refl
drop_nil (suc k) = refl

read_loop-Copied : (n : ℕ) {p : Pipe} → IsValid p → Copied p n (read_loop p n)
unfolding read_loop
read_loop-Copied zero v = ground arith
read_loop-Copied (suc n) {p} v = elim (Bool-cases (p.nread == p.nwrite)) [
  | inl e ↦ ground (arith, empty_iff v, contents-empty p)
  | inr e ↦
      ground
        (arith, contents-advance v e, advance_keeps p, read_loop-Copied n (advance-IsValid v e))
]

-- piperead takes the first `n` bytes, or all if there are fewer, and wakes the writer. On an empty
-- pipe that a writer holds open it changes nothing, and sleeps, or fails if the caller is killed;
-- on an empty pipe with no writer it returns no byte.
pub piperead_lem :
    (killed : Bool) {p : Pipe} (n : ℕ) → IsValid p → ReadResult killed p n (piperead killed p n)
unfolding piperead
piperead_lem killed {p} n v = ground (arith, empty_iff v, read_loop-Copied n v)
