-- ===== src/Kernel/Log.antt =====
-- xv6-public/log.c: the write-ahead log. The buffer cache is seen through what `bread` returns for
-- each block (`cached`), which `brelse` and the eviction of clean buffers do not change; `bwrite`
-- copies a block of it to the disk. `history` collects the disk after each `bwrite`, newest first:
-- these are the disks that a crash can leave.
pub mod Header
pub mod Loops
pub mod Crash
pub mod Phases
pub mod Commit
pub mod Admission
mod Tests
use c_s_e_hanyang.Base.{
  ℕ, zero, suc, ◌+◌, ◌-◌, ◌*◌, ◌≡◌, Bool, true, false, ◌&&◌, ◌||◌, List, [], ◌∷◌, ◌++◌, Option,
  none, some, length, get_or, set, take, drop, ltb, leb, ◌==◌, if◌then◌else◌,
}

-- BSIZE / sizeof(int): a block is read as words.
abbrev pub block_words : ℕ
block_words = 128

-- MAXOPBLOCKS and LOGSIZE
abbrev pub max_op_blocks : ℕ
max_op_blocks = 10

abbrev pub log_size : ℕ
log_size = 30

abbrev pub Block : Type 0
Block = List ℕ

abbrev pub Disk : Type 0
Disk = ℕ → Block

abbrev pub update : Disk → ℕ → Block → Disk
update d b v = λ x. if x == b then v else d x

pub record Device : Type 0 where
  pub cached : Disk
  pub disk : Disk
  pub history : List Disk

-- `memmove` into the buffer of block `b`.
abbrev pub fill : ℕ → Block → Device → Device
fill b v s = record s { cached = update s.cached b v }

abbrev pub bwrite : ℕ → Device → Device
bwrite b s = let d = update s.disk b (s.cached b) in record s { disk = d; history = d ∷ s.history }

-- The loop of `write_log` from `tail` on; the list is what is left of `log.lh.block`.
pub write_log : ℕ → ℕ → List ℕ → Device → Device
write_log start tail [] s = s
write_log start tail (b ∷ bs) s =
    write_log start (suc tail) bs
      (bwrite (start + tail + 1) (fill (start + tail + 1) (s.cached b) s))

-- The loop of `install_trans` from `tail` on.
pub install_trans : ℕ → ℕ → List ℕ → Device → Device
install_trans start tail [] s = s
install_trans start tail (b ∷ bs) s =
    install_trans start (suc tail) bs (bwrite b (fill b (s.cached (start + tail + 1)) s))

-- `hb->block[i] = …`, from word `i` on.
pub put_words : ℕ → List ℕ → Block → Block
put_words i [] blk = blk
put_words i (w ∷ ws) blk = put_words (suc i) ws (set blk i w)

pub put_head : List ℕ → Block → Block
unfolding put_words
put_head lh blk = put_words 1 lh (set blk 0 (length lh))

pub write_head : ℕ → List ℕ → Device → Device
unfolding put_head
write_head start lh s = bwrite start (fill start (put_head lh (s.cached start)) s)

-- `log.lh` as `read_head` fills it from the header block.
pub read_head : Block → List ℕ
read_head blk = take (get_or blk 0 0) (drop 1 blk)

-- `recover_from_log`, on a machine that has just started: the cache is empty.
pub recover_from_log : ℕ → Disk → Device
unfolding write_head install_trans read_head
recover_from_log start d =
    let s : Device = record { cached = d; disk = d; history = [] } in
    write_head start [] (install_trans start 0 (read_head (d start)) s)

pub commit : ℕ → List ℕ → Device → Device
unfolding write_head install_trans write_log
commit start [] s = s
commit start (b ∷ bs) s =
    write_head start []
      (install_trans start 0 (b ∷ bs) (write_head start (b ∷ bs) (write_log start 0 (b ∷ bs) s)))
