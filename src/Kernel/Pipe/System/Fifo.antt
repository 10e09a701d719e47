-- ===== src/Kernel/Pipe/System/Fifo.antt =====
-- What holds of a pipe of xv6-public/pipe.c under every interleaving: order, and no lost sleeper.
use mathlib.Core.Path.{subst}
use c_s_e_hanyang.Base.{
  ℕ, ◌≡◌, refl, ap, ◌∙◌, sym, Bool, List, [], ◌∷◌, ◌++◌, append-nil, length, arith, ◌≢◌,
}
use c_s_e_hanyang.Kernel.Pipe.{pipe_size, write_loop, pipewrite, piperead, pipeclose, pipe_init}
use c_s_e_hanyang.Kernel.Pipe.Queue.{contents}
use c_s_e_hanyang.Kernel.Pipe.Transfer.{pipewrite_lem, write_loop-result, piperead_lem}
use c_s_e_hanyang.Kernel.Pipe.System.{
  System, Event, step, run, boot, Writer, Reader, writer_idle, writer_failed, writer_asleep,
  writer_ready, reader_idle, reader_asleep, reader_ready, write_call, write_resume, read_call,
  read_resume, close_write, close_read, write, read, resume_writer, resume_reader, kill_writer,
  kill_reader, close_writer, close_reader,
}
use c_s_e_hanyang.Kernel.Pipe.System.Inv.{
  Inv, Owes, WriterMaySleep, ReaderMaySleep, after_write-Inv, after_read-Inv,
}

write-Inv :
    (addr : List ℕ) (killed : Bool) (w : Writer) (s : System)
    → s.writer ≡ w
    → Inv s
    → Inv (write_call w addr killed s)
unfolding write_call
write-Inv addr killed writer_idle s e v =
    after_write-Inv (length addr) killed addr (record s { requested = s.requested ++ addr })
      (pipewrite killed s.pipe addr) v.valid (pipewrite_lem killed addr v.valid)
      (ap (λ t. t ++ addr) all_in) v.reader_sleep
  where
    X : List ℕ
    X = s.received ++ contents s.pipe

    nothing : v.lost ≡ []
    nothing = subst (λ w. Owes w v.lost) e v.owes

    all_in : X ≡ s.requested
    all_in = sym (append-nil X) ∙ ap (λ l. X ++ l) (sym nothing) ∙ v.flow
write-Inv addr killed writer_failed s e v = v
write-Inv addr killed _ s e v = v

write_resume-Inv :
    (killed : Bool) (w : Writer) (s : System) → s.writer ≡ w → Inv s → Inv (write_resume w killed s)
unfolding write_resume
write_resume-Inv killed (writer_ready n rest) s e v =
    after_write-Inv n killed rest s (write_loop n killed s.pipe rest) v.valid
      (write_loop-result n killed rest v.valid)
      (ap (λ l. (s.received ++ contents s.pipe) ++ l) (sym (subst (λ w. Owes w v.lost) e v.owes))
        ∙ v.flow)
      v.reader_sleep
write_resume-Inv killed writer_failed s e v = v
write_resume-Inv killed _ s e v = v

read-Inv : (n : ℕ) (killed : Bool) (r : Reader) (s : System) → Inv s → Inv (read_call r n killed s)
unfolding read_call
read-Inv n killed reader_idle s v =
    after_read-Inv killed n s (piperead killed s.pipe n) v (piperead_lem killed n v.valid)
read-Inv n killed _ s v = v

read_resume-Inv : (killed : Bool) (r : Reader) (s : System) → Inv s → Inv (read_resume r killed s)
unfolding read_resume
read_resume-Inv killed (reader_ready n) s v =
    after_read-Inv killed n s (piperead killed s.pipe n) v (piperead_lem killed n v.valid)
read_resume-Inv killed _ s v = v

close_write-Inv : (w : Writer) (s : System) → s.writer ≡ w → Inv s → Inv (close_write w s)
unfolding close_write pipeclose
close_write-Inv writer_idle s e v = record {
  valid = ground (arith, v.valid);
  lost = v.lost;
  flow = v.flow;
  owes = tt;
  writer_sleep = tt;
  reader_sleep = ground arith;
}
close_write-Inv writer_failed s e v = record {
  valid = ground (arith, v.valid);
  lost = v.lost;
  flow = v.flow;
  owes = tt;
  writer_sleep = tt;
  reader_sleep = ground arith;
}
close_write-Inv _ s e v = v

close_read-Inv : (r : Reader) (s : System) → Inv s → Inv (close_read r s)
unfolding close_read pipeclose
close_read-Inv reader_idle s v = record {
  valid = ground (arith, v.valid);
  lost = v.lost;
  flow = v.flow;
  owes = ground (arith, v.owes);
  writer_sleep = ground arith;
  reader_sleep = tt;
}
close_read-Inv _ s v = v

-- Every event keeps the invariant.
pub step-Inv : (e : Event) {s : System} → Inv s → Inv (step e s)
unfolding step
step-Inv (write addr killed) {s} v = write-Inv addr killed s.writer s refl v
step-Inv (read n killed) {s} v = read-Inv n killed s.reader s v
step-Inv (resume_writer killed) {s} v = write_resume-Inv killed s.writer s refl v
step-Inv (resume_reader killed) {s} v = read_resume-Inv killed s.reader s v
step-Inv kill_writer {s} v = record {
  valid = v.valid;
  lost = v.lost;
  flow = v.flow;
  owes = ground (arith, v.owes);
  writer_sleep = ground arith;
  reader_sleep = ground (arith, v.reader_sleep);
}
step-Inv kill_reader {s} v = record {
  valid = v.valid;
  lost = v.lost;
  flow = v.flow;
  owes = v.owes;
  writer_sleep = v.writer_sleep;
  reader_sleep = ground arith;
}
step-Inv close_writer {s} v = close_write-Inv s.writer s refl v
step-Inv close_reader {s} v = close_read-Inv s.reader s v

run-Inv : (es : List Event) {s : System} → Inv s → Inv (run es s)
unfolding run
run-Inv [] v = v
run-Inv (e ∷ es) v = run-Inv es (step-Inv e v)

boot-Inv : (junk : List ℕ) → length junk ≡ pipe_size → Inv (boot junk)
unfolding boot pipe_init
boot-Inv junk e = record {
  valid = ground arith;
  lost = [];
  flow = refl;
  owes = refl;
  writer_sleep = tt;
  reader_sleep = tt;
}

-- After any sequence of events on a fresh pipe, what the reader was given, then what is in the
-- pipe, then some rest, is what the writer asked to write, in order; the rest is what the sleeping
-- or woken call still holds, and is empty if the writer is between calls with no failed write.
pub pipe_fifo :
    (junk : List ℕ) (es : List Event)
    → length junk ≡ pipe_size
    → let s = run es (boot junk) in
      (lost : List ℕ) × ((s.received ++ contents s.pipe) ++ lost ≡ s.requested) × Owes s.writer lost
pipe_fifo junk es e = let v = run-Inv es (boot-Inv junk e) in (v.lost, v.flow, v.owes)

-- After any sequence of events on a fresh pipe a sleeping writer faces a full pipe with an open
-- reader, and a sleeping reader faces an open writer and an empty pipe, unless the writer has
-- failed and not closed yet; so the two are never asleep together.
pub pipe_sleepers :
    (junk : List ℕ) (es : List Event)
    → length junk ≡ pipe_size
    → let s = run es (boot junk) in
      WriterMaySleep s.writer s.pipe
      × ReaderMaySleep s.reader s.writer s.pipe
      × ((n k : ℕ) (rest : List ℕ) → s.writer ≡ writer_asleep n rest → s.reader ≢ reader_asleep k)
pipe_sleepers junk es e =
    let v = run-Inv es (boot-Inv junk e) in
    (
      v.writer_sleep,
      v.reader_sleep,
      λ n k rest we re. ground (arith, v.writer_sleep, v.reader_sleep),
    )
