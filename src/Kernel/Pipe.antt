-- ===== src/Kernel/Pipe.antt =====
-- xv6-public/pipe.c: the byte pipe between two processes. A call that reaches `sleep` suspends with
-- what it has left to do; resuming it runs the same loop again on the pipe as it is by then.
pub mod Queue
pub mod Transfer
pub mod System
mod Tests
use c_s_e_hanyang.Base.{
  ℕ, zero, suc, ◌+◌, ◌%◌, Bool, true, false, not, ◌&&◌, ◌||◌, List, [], ◌∷◌, length, get_or, set,
  ◌==◌, if◌then◌else◌, u32_mod,
}

-- PIPESIZE
abbrev pub pipe_size : ℕ
pipe_size = 512

-- `struct pipe`, less its lock: every function below runs with the lock held.
pub record Pipe : Type 0 where
  pub buf : List ℕ
  pub nread : ℕ
  pub nwrite : ℕ
  pub readopen : Bool
  pub writeopen : Bool

-- The addresses that sleepers wait on, `&p->nread` and `&p->nwrite`.
pub data Chan : Type 0 where
  nread_chan nwrite_chan : Chan

-- How a call stops: it returns a count, it returns -1, or it sleeps on a channel.
pub data WriteStop : Type 0 where
  wrote : ℕ → WriteStop
  write_failed : WriteStop
  write_sleeps : List ℕ → WriteStop

pub data ReadStop : Type 0 where
  got : List ℕ → ReadStop
  read_failed : ReadStop
  read_sleeps : ReadStop

-- The assignments to the new pipe in `pipealloc`; the page's old bytes are `junk`.
unfoldable pub pipe_init : List ℕ → Pipe
pipe_init junk = record { buf = junk; nread = 0; nwrite = 0; readopen = true; writeopen = true }

-- `p->nwrite == p->nread + PIPESIZE`, in 32 bits.
abbrev pub is_full : Pipe → Bool
is_full p = p.nwrite == (p.nread + pipe_size) % u32_mod

-- `p->data[p->nwrite++ % PIPESIZE] = b`.
unfoldable pub put : Pipe → ℕ → Pipe
put p b = record p { buf = set p.buf (p.nwrite % pipe_size) b; nwrite = (p.nwrite + 1) % u32_mod }

-- `p->nread++`, and the byte at the index before.
unfoldable pub advance : Pipe → Pipe
advance p = record p { nread = (p.nread + 1) % u32_mod }

abbrev pub front : Pipe → ℕ
front p = get_or p.buf (p.nread % pipe_size) 0

-- The loop of `pipewrite` over the bytes left; the third part lists the wakeups sent.
unfoldable pub write_loop : ℕ → Bool → Pipe → List ℕ → WriteStop × Pipe × List Chan
write_loop n killed p [] = (wrote n, p, nread_chan ∷ [])
write_loop n killed p (b ∷ bs) =
    let more = write_loop n killed (put p b) bs in
    if is_full p
    then (if not p.readopen || killed
        then (write_failed, p, [])
        else (write_sleeps (b ∷ bs), p, nread_chan ∷ []))
    else more

unfoldable pub pipewrite : Bool → Pipe → List ℕ → WriteStop × Pipe × List Chan
pipewrite killed p addr = write_loop (length addr) killed p addr

-- The copying loop of `piperead`, for `n` more bytes.
unfoldable pub read_loop : Pipe → ℕ → List ℕ × Pipe
read_loop p zero = ([], p)
read_loop p (suc n) =
    let rest = read_loop (advance p) n in
    if p.nread == p.nwrite then ([], p) else (front p ∷ rest.0, rest.1)

unfoldable pub piperead : Bool → Pipe → ℕ → ReadStop × Pipe × List Chan
unfolding read_loop
piperead killed p n =
    if (p.nread == p.nwrite) && p.writeopen
    then (if killed then (read_failed, p, []) else (read_sleeps, p, []))
    else (let r = read_loop p n in (got r.0, r.1, nwrite_chan ∷ []))

-- The last part tells whether the page goes back to `kfree`.
unfoldable pub pipeclose : Pipe → Bool → Pipe × List Chan × Bool
pipeclose p writable =
    let p' = if writable then record p { writeopen = false } else record p { readopen = false } in
    (
      p',
      (if writable then nread_chan ∷ [] else nwrite_chan ∷ []),
      not p'.readopen && not p'.writeopen,
    )
