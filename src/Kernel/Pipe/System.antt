-- ===== src/Kernel/Pipe/System.antt =====
-- One writer and one reader on a pipe of xv6-public/pipe.c, in any interleaving of their calls,
-- wakeups, kills and closes. A call runs with `p->lock` held up to where it returns or sleeps, so
-- one event is one such stretch. The writer is a client that stops at its first failed write.
pub mod Inv
pub mod Fifo
use c_s_e_hanyang.Base.{
  ℕ, zero, suc, ◌+◌, ◌-◌, ◌%◌, ◌≤◌, ◌<◌, ◌≡◌, refl, ap, ◌∙◌, sym, Bool, true, false, not, ◌&&◌,
  ◌||◌, List, [], ◌∷◌, ◌++◌, append_assoc, append-nil, length, get_or, set, take, drop, length-set,
  ◌⊎◌, leb, ◌==◌, if◌then◌else◌, Bool-cases, inl, inr, arith, u32_mod, ◌≢◌, min,
}
use c_s_e_hanyang.Kernel.Pipe.{
  Pipe, Chan, WriteStop, wrote, write_failed, write_sleeps, ReadStop, got, read_failed, read_sleeps,
  pipe_size, is_full, put, advance, front, write_loop, pipewrite, read_loop, piperead, nread_chan,
  nwrite_chan, pipeclose, pipe_init,
}
use c_s_e_hanyang.Kernel.Pipe.Queue.{used, contents, IsValid, length-contents}
use c_s_e_hanyang.Kernel.Pipe.Transfer.{
  WriteResult, ReadResult, pipewrite_lem, piperead_lem, room, expected_stop,
}

-- A process asleep or made runnable in its call keeps the call's locals.
pub data Writer : Type 0 where
  writer_idle writer_failed writer_closed : Writer
  writer_asleep writer_ready : ℕ → List ℕ → Writer

pub data Reader : Type 0 where
  reader_idle reader_closed : Reader
  reader_asleep reader_ready : ℕ → Reader

-- `requested` and `received` are the histories of the bytes that the writer asked to write and
-- that the reader was given.
pub record System : Type 0 where
  pub pipe : Pipe
  pub writer : Writer
  pub reader : Reader
  pub requested : List ℕ
  pub received : List ℕ

-- The flag is what `proc->killed` reads in that stretch.
pub data Event : Type 0 where
  write : List ℕ → Bool → Event
  read : ℕ → Bool → Event
  resume_writer resume_reader : Bool → Event
  kill_writer kill_reader close_writer close_reader : Event

rouse_writer : Writer → Writer
rouse_writer (writer_asleep n rest) = writer_ready n rest
rouse_writer w = w

rouse_reader : Reader → Reader
rouse_reader (reader_asleep n) = reader_ready n
rouse_reader r = r

-- `wakeup` on each channel.
wake : List Chan → System → System
unfolding rouse_writer rouse_reader
wake [] s = s
wake (nread_chan ∷ cs) s = wake cs (record s { reader = rouse_reader s.reader })
wake (nwrite_chan ∷ cs) s = wake cs (record s { writer = rouse_writer s.writer })

writer_after : ℕ → WriteStop → Writer
writer_after n (wrote k) = writer_idle
writer_after n write_failed = writer_failed
writer_after n (write_sleeps rest) = writer_asleep n rest

pub after_write : ℕ → WriteStop × Pipe × List Chan → System → System
unfolding writer_after wake
after_write n r s = wake r.2 (record s { pipe = r.1; writer = writer_after n r.0 })

pub after_read : ℕ → ReadStop × Pipe × List Chan → System → System
unfolding wake
after_read n (got bytes, p, cs) s =
    wake cs (record s { pipe = p; reader = reader_idle; received = s.received ++ bytes })
after_read n (read_failed, p, cs) s = wake cs (record s { pipe = p; reader = reader_idle })
after_read n (read_sleeps, p, cs) s = wake cs (record s { pipe = p; reader = reader_asleep n })

write_call : Writer → List ℕ → Bool → System → System
unfolding after_write
write_call writer_idle addr killed s =
    after_write (length addr) (pipewrite killed s.pipe addr)
      (record s { requested = s.requested ++ addr })
write_call w addr killed s = s

write_resume : Writer → Bool → System → System
unfolding after_write
write_resume (writer_ready n rest) killed s = after_write n (write_loop n killed s.pipe rest) s
write_resume w killed s = s

read_call : Reader → ℕ → Bool → System → System
unfolding after_read
read_call reader_idle n killed s = after_read n (piperead killed s.pipe n) s
read_call r n killed s = s

read_resume : Reader → Bool → System → System
unfolding after_read
read_resume (reader_ready n) killed s = after_read n (piperead killed s.pipe n) s
read_resume r killed s = s

close_write : Writer → System → System
unfolding wake
close_write writer_idle s =
    let c = pipeclose s.pipe true in wake c.1 (record s { pipe = c.0; writer = writer_closed })
close_write writer_failed s =
    let c = pipeclose s.pipe true in wake c.1 (record s { pipe = c.0; writer = writer_closed })
close_write w s = s

close_read : Reader → System → System
unfolding wake
close_read reader_idle s =
    let c = pipeclose s.pipe false in wake c.1 (record s { pipe = c.0; reader = reader_closed })
close_read r s = s

-- An event that the states do not allow changes nothing.
pub step : Event → System → System
unfolding write_call write_resume read_call read_resume close_write close_read
step (write addr killed) s = write_call s.writer addr killed s
step (read n killed) s = read_call s.reader n killed s
step (resume_writer killed) s = write_resume s.writer killed s
step (resume_reader killed) s = read_resume s.reader killed s
step kill_writer s = record s { writer = rouse_writer s.writer }
step kill_reader s = record s { reader = rouse_reader s.reader }
step close_writer s = close_write s.writer s
step close_reader s = close_read s.reader s

pub run : List Event → System → System
run [] s = s
run (e ∷ es) s = run es (step e s)

pub boot : List ℕ → System
boot junk = record {
  pipe = pipe_init junk;
  writer = writer_idle;
  reader = reader_idle;
  requested = [];
  received = [];
}
