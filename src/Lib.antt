-- ===== src/Lib.antt =====
-- The xv6 kernel of src/ with per-processor run queues and a scheduling log: its locks, its process
-- table, its scheduler, its run queues with work stealing, its scheduling log, its page allocator and page tables, its
-- pipes and open files, the arguments of its system calls, its block cache, its file system log and its
-- file system with inodes, directories and paths.
--
-- How the parts interact. Every part takes locks of src/spinlock.c. The process table (src/proc.c)
-- keeps the processes under one lock; sleep and wakeup tie the other parts to it; the functions that
-- change the state of a process write the scheduling log. The run queues link the processes of the
-- table; the configuration in src/proc.h (IS_MULTIPLE_RUNQUEUE 0) leaves them out of the scheduler.
-- System calls fetch their arguments (src/syscall.c) and work on descriptors (src/sysfile.c), which
-- hold files of the table (src/file.c): pipes (src/pipe.c), each in a page of the allocator
-- (src/kalloc.c), or inodes. The file system (src/fs.c) keeps inodes and their contents in blocks,
-- which go through the log (src/log.c) and the cache (src/bio.c) to the disk in memory (src/memide.c).
--
-- Files.
--   Base: names of the libraries; `Outcome`, what a call does (it returns, panics, or spins for
--     ever); a monad of functions on a state; arrays, memory as functions, 32-bit words; linked paths.
--   Spinlock: src/spinlock.c. acquire, release, holding, pushcli, popcli, getcallerpcs under
--     their names. Nesting and Section have one processor, Race many (`Step`).
--   Runqueue: enqueue, dequeue, runqueueinit and work_steal of src/proc.c, on a memory of links.
--     Queue: one operation on one queue; Steal and Search: work_steal.
--   Schedlog: mystrcmp and writelog of src/proc.c. Strings: mystrcmp; Order: the log.
--   CString: src/string.c. strncmp, strncpy, safestrcpy, strlen, memcmp; Copy has their proofs. Moves:
--     memmove and memset, on memory by address.
--   Proc: the process table of src/proc.c. Alloc: allocproc, fork; Sleep: sched, sleep, yield, wakeup,
--     kill; Exit: exit, wait; Run: the scheduler. Table, Born, Sched, Handoff, Wakeup, Kill, Pids,
--     Poison, Wait, Orphans and Pick have the proofs.
--   Kmem: src/kalloc.c. FreeList: kfree and kalloc; Range: freerange.
--   Pipe: src/pipe.c. Ring: the bytes in a pipe; Transfer: one call; Fifo: sequences of calls.
--   Vm: src/vm.c, with Space for allocuvm, deallocuvm, freevm, setupkvm and copyuvm. Tables and Extended: a
--     new entry and a new table; Walk: walkpgdir; Page and Mapped: mappages.
--   FileTable: src/file.c. Refs: the reference counts; Chunks: filewrite.
--   Syscall: src/syscall.c. Args: what the checks of an argument let through.
--   Sysfile: dup, close, read, write, fstat of src/sysfile.c. Descriptors: the counts under dup and
--     close; Hexa: convert_to_hexa.
--   Bcache: src/bio.c, with holdingsleep and acquiresleep of src/sleeplock.c and iderw of src/memide.c.
--     Lists: the list of buffers; Recency and Release: its order and the searches; Coherence and
--     Reading: the contents.
--   Paths: skipelem of src/fs.c. Elements: the path split at its slashes.
--   Fs: src/fs.c. Blocks with balloc and bfree (Bits, Bitmap, Alloc); Inode: bmap and itrunc (Owned, Slots,
--     Bmap); Content: readi and writei (Bytes, Read, Write, Writei, Grown); Icache: the cache of inodes
--     (Unique: iget; Lock: what ilock reads); Directory: dirlookup and dirlink (Entries, Free, Link, Linked);
--     Namex: the walk along a path (Ends: its loop). Example: a small disk for the runs.
--   FsLog: src/log.c. Install, Copies, Trace, Header: the writes of its functions; Crash and Recovery:
--     what a reboot makes of a disk; Commit: a crash at each point of a commit; Room: the reservation,
--     with many processes (`Step`); Progress: begin_op lets each in; Absorb: log_write.
--   Tests (in each part): runs on concrete states.
--
-- Correspondence. A function of the source is a definition of the same name from a state to an
-- `Outcome`, or to a result where it cannot panic; a part of its body that another proof needs is a
-- definition of its own. A function that gives up the processor is split there: in Proc at swtch, what
-- runs after it being `sleep_return`, `yield_return` and `undispatch`; in Pipe, FsLog and Bcache at the
-- sleep, which is a result (`waits`, `sleeps`, `none` of begin_op). Pointers are numbers and 0 is null:
-- slot `i` of the process table is `i + 1`, the head of run queue `i` is `i + 1`, buffer `i` of the
-- cache is `i + 1` and 0 its head; a cached inode is its index. `spins` is a wait for a lock word that
-- this processor alone cannot change, and in Fs a wait for an inode's sleep lock that another process
-- has. A block in Fs is the bytes that bread gives, and the calls of log_write are
-- recorded: `logged_writei` makes them on the log's state, and elsewhere in Fs they are taken to pass the
-- checks. The wakeups of end_op are in the steps of FsLog.Room, which also put begin_op to sleep. The time stamp counter is an argument `tsc`. What calls into other files return (kalloc and
-- copyuvm in allocproc and fork, readi and writei in fileread and filewrite) is an argument, and the
-- calls themselves are recorded where the order matters (the fields `calls`, `writes`, `chunks`).
-- A crash is a prefix of the writes to the disk, each block being written whole or not at all.
--
-- Bounds and fuel. `enqueue` takes fuel for its loop over the queue; fuel above the length of the
-- queue is enough, as the theorem on it states. freerange, filewrite, readi, writei and dirlookup have fuel
-- for each page or byte, and their theorems show that it does not run out; namex has fuel for each byte of
-- the path, and its theorem gives a walk without fuel; mappages has fuel for each page, which its theorem shows to be enough; the searches of bget have the number of the
-- buffers. Other loops are recursion on a list or on a number of rounds that the source fixes. Pids,
-- counters, reference counts and arguments are 32-bit words with their wrap written out; sums of
-- addresses in memmove, memset and freerange stay below 2 ^ 32. A log header on the disk counts at most
-- LOGSIZE blocks, as write_head leaves it, and a disk has fewer than 2 ^ 31 blocks: beyond, the signed
-- counts of read_head and balloc behave in a way that is not modelled.
--
-- Not modelled. userinit, growproc, forkret and procdump of src/proc.c; the code under
-- IS_MULTIPLE_RUNQUEUE in fork, sched, yield, wakeup1 and scheduler; the pushcli and popcli around the
-- processor number in writelog; other processors between the search and the lock of work_steal. In
-- FileTable, FsLog and Bcache the spin lock that a function holds from its start to its end is left
-- out. readsb, iinit and stati of src/fs.c; the segments and switchuvm of src/vm.c,
-- and inituvm, loaduvm and copyout, which move bytes; the program loader, the console, traps,
-- the devices but the disk in memory, boot and the user programs are outside.
pub mod Base
pub mod Bcache
pub mod CString
pub mod FileTable
pub mod Fs
pub mod FsLog
pub mod Kmem
pub mod Paths
pub mod Pipe
pub mod Proc
pub mod Runqueue
pub mod Schedlog
pub mod Spinlock
pub mod Syscall
pub mod Vm
pub mod Sysfile
