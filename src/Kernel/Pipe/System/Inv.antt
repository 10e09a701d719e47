-- ===== src/Kernel/Pipe/System/Inv.antt =====
-- The invariant of the two processes on a pipe of xv6-public/pipe.c, kept by each stretch of
-- pipewrite and piperead.
use c_s_e_hanyang.Base.{
  ℕ, zero, suc, ◌≤◌, ◌<◌, ◌≡◌, refl, ap, Bool, true, false, List, [], ◌∷◌, ◌++◌, append_assoc,
  length, length-append, take, drop, ◌⊎◌, leb, arith, min,
}
use c_s_e_hanyang.Kernel.Pipe.{
  Pipe, Chan, WriteStop, ReadStop, got, read_failed, read_sleeps, pipe_size,
}
use c_s_e_hanyang.Kernel.Pipe.Queue.{used, contents, IsValid, length-contents}
use c_s_e_hanyang.Kernel.Pipe.Transfer.{WriteResult, ReadResult, room}
use c_s_e_hanyang.Kernel.Pipe.System.{
  System, Writer, Reader, writer_idle, writer_failed, writer_closed, writer_asleep, writer_ready,
  reader_asleep, after_write, after_read,
}

-- What the writer still has to write, where that is known.
abbrev pub Owes : Writer → List ℕ → Type 0
Owes writer_idle lost = lost ≡ []
Owes writer_failed lost = Unit
Owes writer_closed lost = Unit
Owes (writer_asleep n rest) lost = lost ≡ rest
Owes (writer_ready n rest) lost = lost ≡ rest

abbrev pub WriterMaySleep : Writer → Pipe → Type 0
WriterMaySleep (writer_asleep n rest) p = (used p ≡ pipe_size) × (p.readopen ≡ true)
WriterMaySleep _ p = Unit

abbrev pub ReaderMaySleep : Reader → Writer → Pipe → Type 0
ReaderMaySleep (reader_asleep n) w p = (p.writeopen ≡ true) × ((used p ≡ 0) ⊎ (w ≡ writer_failed))
ReaderMaySleep _ w p = Unit

-- Bytes are neither lost, repeated nor reordered; a sleeper has a reason to sleep.
pub record Inv (s : System) : Type 0 where
  pub valid : IsValid s.pipe
  pub lost : List ℕ
  pub flow : (s.received ++ contents s.pipe) ++ lost ≡ s.requested
  pub owes : Owes s.writer lost
  pub writer_sleep : WriterMaySleep s.writer s.pipe
  pub reader_sleep : ReaderMaySleep s.reader s.writer s.pipe

drop_all : (k : ℕ) (xs : List ℕ) → length xs ≤ k → drop k xs ≡ []
drop_all zero [] h = refl
drop_all (suc k) [] h = refl
drop_all zero (x ∷ xs) h = elim h [ ]
drop_all (suc k) (x ∷ xs) h = drop_all k xs (omega arith)

take-append-drop : (k : ℕ) (xs : List ℕ) → take k xs ++ drop k xs ≡ xs
take-append-drop zero xs = refl
take-append-drop (suc k) [] = refl
take-append-drop (suc k) (x ∷ xs) = ap (λ t. x ∷ t) (take-append-drop k xs)

regroup : (a b c d : List ℕ) → (a ++ (b ++ c)) ++ d ≡ (a ++ b) ++ (c ++ d)
regroup a b c d = simp append_assoc

length-take : (k : ℕ) (xs : List ℕ) → length (take k xs) ≡ min k (length xs)
length-take zero xs = omega arith
length-take (suc k) [] = omega arith
length-take (suc k) (x ∷ xs) = omega (arith, length-take k xs)

-- A write that does not fit fills the pipe.
used-after_write :
    (n : ℕ) (killed : Bool) (bs : List ℕ) (p : Pipe) (r : WriteStop × Pipe × List Chan)
    → IsValid p
    → WriteResult n killed p bs r
    → leb (length bs) (room p) ≡ false
    → used r.1 ≡ pipe_size
used-after_write n killed bs p r v w over =
    let total : length (contents r.1) ≡ length (contents p ++ take (room p) bs) =
      ap length w.moved in
    let more : room p < length bs = ground arith in
    omega (
      arith,
      total,
      more,
      v.bounded,
      length-contents r.1,
      length-contents p,
      length-append (contents p) (take (room p) bs),
      length-take (room p) bs,
    )

flow-after_write :
    (n : ℕ) (killed : Bool) (bs : List ℕ) (s : System) (r : WriteStop × Pipe × List Chan)
    → WriteResult n killed s.pipe bs r
    → (s.received ++ contents s.pipe) ++ bs ≡ s.requested
    → (s.received ++ contents r.1) ++ drop (room s.pipe) bs ≡ s.requested
flow-after_write n killed bs s r w flow =
    rw
      (
        w.moved,
        regroup s.received (contents s.pipe) (take (room s.pipe) bs) (drop (room s.pipe) bs),
        take-append-drop (room s.pipe) bs,
      )
      flow

-- The rest of a write, `bs`, is the writer's, and no one else moves in between.
pub after_write-Inv :
    (n : ℕ) (killed : Bool) (bs : List ℕ) (s : System) (r : WriteStop × Pipe × List Chan)
    → IsValid s.pipe
    → WriteResult n killed s.pipe bs r
    → (s.received ++ contents s.pipe) ++ bs ≡ s.requested
    → ReaderMaySleep s.reader s.writer s.pipe
    → Inv (after_write n r s)
unfolding after_write
after_write-Inv n killed bs s (stop, p, woken) v w flow sleep = record {
  valid = ground (arith, w.valid);
  lost = drop (room s.pipe) bs;
  flow = ground (arith, flow-after_write n killed bs s (stop, p, woken) w flow);
  owes = ground (arith, drop_all (room s.pipe) bs);
  writer_sleep = ground (arith, used-after_write n killed bs s.pipe (stop, p, woken) v w);
  reader_sleep = ground arith;
}

got-left :
    (killed : Bool) (n : ℕ) (p q : Pipe) (bytes : List ℕ) (cs : List Chan)
    → ReadResult killed p n (got bytes, q, cs)
    → contents q ≡ drop n (contents p)
got-left killed n p q bytes cs w = ground arith

take-drop-flow :
    (s : System) (n : ℕ) (p : Pipe) (lost : List ℕ)
    → contents p ≡ drop n (contents s.pipe)
    → (s.received ++ contents s.pipe) ++ lost ≡ s.requested
    → ((s.received ++ take n (contents s.pipe)) ++ contents p) ++ lost ≡ s.requested
take-drop-flow s n p lost e flow =
    rw
      (
        e,
        append_assoc s.received (take n (contents s.pipe)) (drop n (contents s.pipe)),
        take-append-drop n (contents s.pipe),
      )
      flow

pub after_read-Inv :
    (killed : Bool) (n : ℕ) (s : System) (r : ReadStop × Pipe × List Chan)
    → Inv s
    → ReadResult killed s.pipe n r
    → Inv (after_read n r s)
unfolding after_read
after_read-Inv killed n s (got bytes, p, woken) v w = record {
  valid = ground (arith, w.valid);
  lost = v.lost;
  flow =
      ground (arith, take-drop-flow s n p v.lost (got-left killed n s.pipe p bytes woken w) v.flow);
  owes = ground (arith, v.owes);
  writer_sleep = ground (arith, v.writer_sleep);
  reader_sleep = ground arith;
}
after_read-Inv killed n s (read_failed, p, woken) v w = record {
  valid = ground (arith, w.valid);
  lost = v.lost;
  flow = ground (arith, v.flow);
  owes = ground (arith, v.owes);
  writer_sleep = ground (arith, v.writer_sleep);
  reader_sleep = ground arith;
}
after_read-Inv killed n s (read_sleeps, p, woken) v w = record {
  valid = ground (arith, w.valid);
  lost = v.lost;
  flow = ground (arith, v.flow);
  owes = ground (arith, v.owes);
  writer_sleep = ground (arith, v.writer_sleep);
  reader_sleep = ground (arith, length-contents p, length-contents s.pipe);
}
