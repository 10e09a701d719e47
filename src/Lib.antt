-- ===== src/Lib.antt =====
-- The teaching kernel xv6 with threads (2017_ELE3021/xv6-public) and the C-Minus compiler with its TM
-- machine (2018_ELE4029_2013012041/project).
--
-- Kernel. `Kernel/Pipe.antt` is pipe.c: a pipe is a ring with 32-bit counters; pipewrite and piperead
-- run up to where they return or sleep, and report the wakeups they send. `Pipe/Queue` reads the ring
-- as a queue, `Pipe/Transfer` proves the two calls against that queue, and `Pipe/System` puts a writer
-- and a reader on one pipe in any interleaving. `Kernel/Log.antt` is the transfer half of log.c
-- (write_log, write_head, install_trans, recover_from_log, commit); every disk write adds the disk to
-- a history, whose elements are the disks a crash can leave. `Log/Admission` is the other half:
-- begin_op, log_write and end_op as a step relation over running operations. `Kernel/Proc.antt` is
-- proc.h and proc.c: `Proc/Table` has the loops over the table (allocproc, kill, growproc, wakeup),
-- `Proc/Life` fork, clone, exit and thexit, `Proc/Reap` wait, join and sleep, `Proc/Sched` the
-- scheduler and yield. `Proc/Trace` runs the calls as a list of events. The processes use the pages of
-- kalloc.c, and their calls into other files are collected in order. `Kernel/Strings.antt` is string.c
-- on a memory of bytes.
--
-- `Kernel/Fs.antt` is fs.c with fs.h and file.h: the blocks as `bread` returns them, balloc and bfree;
-- `Fs/Blocks` reads the free map as a set of blocks. `Fs/Bmap.antt` is struct inode and bmap; a `Place`
-- (`Bmap/Places`) is a position that holds a block number, in the inode or in an indirect block.
-- `Fs/Inodes.antt` has iupdate, what ilock reads, and stati, `Fs/Content.antt` readi and writei, and
-- `Content/View` the bytes of a file as its blocks give them. `Fs/Trunc.antt` is itrunc.
-- `Fs/Icache.antt` is the inode cache: iget, idup, iput and ialloc, an inode being an index.
-- `Fs/Names.antt` is skipelem and `Fs/Dirs.antt` dirlookup.
--
-- Cminus. `Cminus/Scan.antt` is scan.c: a turn of the loop of getToken is a function of the state and
-- the character. `Cminus/Symtab.antt` is symtab.c: the chains are lists, the hash tables lists of chains.
-- `Cminus/Tm.antt` is tm.c: `Tm/Line` the line scanner, `Tm/Load` readInstructions,
-- `Tm/Step` stepTM, which reports accesses past an array as undefined, `Tm/Command` doCommand.
--
-- `Base` has the helpers: lists as arrays, Boolean tests, integers.
--
-- Bounds and fuel. The counters of a pipe and the stack arithmetic of clone wrap at 2 ^ 32, as `uint`
-- does; `nextpid` is an `int` of 32 bits, and the theorem on pids bounds the length of the run so that
-- it does not overflow; block numbers and TM words do not overflow in the model. getToken runs on
-- fuel 2 * length + 2, which its progress theorem shows to be enough: a turn uses up a character or
-- leaves the state INCOMMENT_. getNum runs on the length of the line plus one: each turn but the first
-- reads a sign, and `Tm/Numbers` shows this to be enough. The symbol table goes up from a scope on the
-- length of the scope's name: the name of an outer scope is shorter, as `Symtab/Depth` shows for
-- getParentScope and st_lookup. The command `g` of the machine runs on any fuel, since a TM program may
-- not end.
-- The loop of balloc over the bitmap blocks has fuel for each block of the disk. readi and writei run
-- on `n` turns, which their theorems show to be enough: each turn moves a byte at least. dirlookup
-- runs on the size of the directory, ialloc on the number of inodes.
-- The loops of wait, join and begin_op are one turn each, up to their sleep.
--
-- Not modelled: spin locks and sleep locks (a stretch under a lock is one step; fork and clone are one
-- event though they hold no lock in the middle, and so is iput), saved contexts and the contents of
-- memory, the rest of the file system (dirlink, namex), the file table, virtual memory, system
-- call glue, devices, user programs, the compiler's parser (mostly generated), its analysis and code
-- generation; the other projects of the repository do input and output, or are in other languages. The
-- device functions of `devsw` are parameters of readi and writei. The blocks of the file system and the
-- disks of the log are separate models: fs.c notes its calls of log_write, and the panics of log_write are
-- in the model of log.c. `Fs/Logged` and `Content/Returns` join the two
-- for bmap and writei; elsewhere a panic of fs.c means its own.
-- What copyuvm returns and the pages it takes are a parameter of fork; the pages that growproc takes
-- are not taken from the free list.
pub mod Base
pub mod Kernel
pub mod Cminus
