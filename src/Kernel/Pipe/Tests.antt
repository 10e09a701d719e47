-- ===== src/Kernel/Pipe/Tests.antt =====
-- The pipe of xv6-public/pipe.c at concrete inputs.
use c_s_e_hanyang.Base.{
  ℕ, ◌≡◌, refl, true, false, List, [], ◌∷◌, ◌++◌, replicate, length-replicate, arith, ◌≢◌,
}
use c_s_e_hanyang.Kernel.Pipe.{
  Pipe, got, pipewrite, piperead, put, advance, write_loop, read_loop, pipe_init,
}
use c_s_e_hanyang.Kernel.Pipe.Queue.{contents, IsValid}
use c_s_e_hanyang.Kernel.Pipe.Transfer.{WriteResult, ReadResult, pipewrite_lem, piperead_lem}
use c_s_e_hanyang.Kernel.Pipe.System.{
  run, boot, Event, write, read, resume_writer, resume_reader, writer_asleep, reader_asleep,
}
use c_s_e_hanyang.Kernel.Pipe.System.Inv.{Owes, WriterMaySleep, ReaderMaySleep}
use c_s_e_hanyang.Kernel.Pipe.System.Fifo.{pipe_fifo, pipe_sleepers}

abbrev junk : List ℕ
junk = replicate 512 0

-- The counters are about to wrap: two bytes are in the pipe.
abbrev near_wrap : Pipe
near_wrap = record { buf = junk; nread = 4294967294; nwrite = 0; readopen = true; writeopen = true }

near_wrap-IsValid : IsValid near_wrap
near_wrap-IsValid = record {
  storage = length-replicate {A = ℕ} 512 0;
  nread_in = omega arith;
  nwrite_in = omega arith;
  bounded = omega arith;
}

three_in_three_out :
    (piperead false (pipewrite false (pipe_init junk) (1 ∷ 2 ∷ 3 ∷ [])).1 2).0 ≡ got (1 ∷ 2 ∷ [])
unfolding pipewrite write_loop put pipe_init piperead read_loop advance
three_in_three_out = refl

pipewrite_lem_example :
    WriteResult 3 false near_wrap (7 ∷ 8 ∷ 9 ∷ []) (pipewrite false near_wrap (7 ∷ 8 ∷ 9 ∷ []))
pipewrite_lem_example = pipewrite_lem false (7 ∷ 8 ∷ 9 ∷ []) near_wrap-IsValid

piperead_lem_example : ReadResult false near_wrap 5 (piperead false near_wrap 5)
piperead_lem_example = piperead_lem false 5 near_wrap-IsValid

abbrev script : List Event
script =
    read 4 false
    ∷ write (1 ∷ 2 ∷ 3 ∷ []) false
    ∷ resume_reader false
    ∷ write (replicate 600 5) false
    ∷ read 9 false
    ∷ resume_writer false
    ∷ []

pipe_fifo_example :
    let s = run script (boot junk) in
    (lost : List ℕ) × ((s.received ++ contents s.pipe) ++ lost ≡ s.requested) × Owes s.writer lost
pipe_fifo_example = pipe_fifo junk script (length-replicate {A = ℕ} 512 0)

pipe_sleepers_example :
    let s = run script (boot junk) in
    WriterMaySleep s.writer s.pipe
    × ReaderMaySleep s.reader s.writer s.pipe
    × ((n k : ℕ) (rest : List ℕ) → s.writer ≡ writer_asleep n rest → s.reader ≢ reader_asleep k)
pipe_sleepers_example = pipe_sleepers junk script (length-replicate {A = ℕ} 512 0)
