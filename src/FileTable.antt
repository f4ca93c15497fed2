-- ===== src/FileTable.antt =====
-- src/file.c and src/file.h: the table of open files. A file is its index in the table; a pointer
-- outside the table reads as an unused file. The lock of the table is held for each whole operation,
-- and its calls are left out. What the inode's and the pipe's functions answer is an argument.
pub mod Refs
pub mod Chunks
mod Tests
use waka_b4_research.Base.{
  ℕ, zero, suc, ◌+◌, ◌-◌, ◌*◌, ◌/◌, ◌^◌, Bool, true, false, ◌||◌, not, Option, none, some, List, [],
  ◌∷◌, ◌++◌, ◌==◌, ltb, leb, if◌then◌else◌, Outcome, ok, panic, on_ok, add_word, sub_word,
  minus_one, get_or, set, find_index,
}
use waka_b4_research.FsLog.{max_op_blocks}

pub data FileType : Type 0 where
  fd_none fd_pipe fd_inode : FileType

-- `struct file`
pub record File : Type 0 where
  pub type : FileType
  pub ref : ℕ
  pub readable : Bool
  pub writable : Bool
  pub pipe : ℕ
  pub ip : ℕ
  pub off : ℕ

abbrev pub no_file : File
no_file = record {
  type = fd_none;
  ref = 0;
  readable = false;
  writable = false;
  pipe = 0;
  ip = 0;
  off = 0;
}

abbrev pub file_at : List File → ℕ → File
file_at fs i = get_or fs i no_file

-- `ref < 1` on the pattern of an `int`.
abbrev pub is_below_one : ℕ → Bool
is_below_one r = (r == 0) || leb (2 ^ 31) r

abbrev pub allocated : List File → Option ℕ → Option ℕ × List File
allocated fs none = (none, fs)
allocated fs (some i) = (some i, set fs i (record (file_at fs i) { ref = 1 }))

unfoldable pub filealloc : List File → Option ℕ × List File
filealloc fs = allocated fs (find_index (λ f. f.ref == 0) fs)

unfoldable pub filedup : ℕ → List File → Outcome (ℕ × List File)
filedup i fs =
    let f = file_at fs i in
    if is_below_one f.ref
    then panic "filedup"
    else ok (i, set fs i (record f { ref = add_word f.ref 1 }))

-- What `fileclose` does behind the lock: nothing, pipeclose, or iput between begin_op and end_op.
pub data Closing : Type 0 where
  keeps : Closing
  closes_pipe : ℕ → Bool → Closing
  puts_inode : ℕ → Closing

abbrev pub closing_of : FileType → File → Closing
closing_of fd_none f = keeps
closing_of fd_pipe f = closes_pipe f.pipe f.writable
closing_of fd_inode f = puts_inode f.ip

unfoldable pub fileclose : ℕ → List File → Outcome (Closing × List File)
fileclose i fs =
    let f = file_at fs i in
    let left = sub_word f.ref 1 in
    if is_below_one f.ref
    then panic "fileclose"
    else if not (is_below_one left)
    then ok (keeps, set fs i (record f { ref = left }))
    else ok (closing_of f.type f, set fs i (record f { ref = 0; type = fd_none }))

-- The return value of `filestat`, with the inode that stati reads.
abbrev pub filestat : FileType → File → ℕ × Option ℕ
filestat fd_inode f = (0, some f.ip)
filestat fd_pipe f = (minus_one, none)
filestat fd_none f = (minus_one, none)

-- `r > 0` on the pattern of an `int`, and the offset after a transfer with result `r`.
abbrev pub moved : ℕ → File → File
moved r f = if is_below_one r then f else record f { off = add_word f.off r }

-- `fileread` by type: `from_pipe` and `from_inode` are what piperead and readi return.
abbrev pub read_by : FileType → ℕ → ℕ → File → Outcome (ℕ × File)
read_by fd_pipe from_pipe from_inode f = ok (from_pipe, f)
read_by fd_inode from_pipe from_inode f = ok (from_inode, moved from_inode f)
read_by fd_none from_pipe from_inode f = panic "fileread"

unfoldable pub fileread : ℕ → ℕ → File → Outcome (ℕ × File)
fileread from_pipe from_inode f =
    if not f.readable then ok (minus_one, f) else read_by f.type from_pipe from_inode f

-- The most bytes that one transaction of `filewrite` writes.
abbrev pub max_bytes : ℕ
max_bytes = (max_op_blocks - 1 - 1 - 2) / 2 * 512

-- One call of writei in a transaction of its own: the place in the caller's buffer, the offset in the
-- file, the number of bytes.
pub record Chunk : Type 0 where
  pub from : ℕ
  pub at : ℕ
  pub size : ℕ

abbrev pub chunk_size : ℕ → ℕ
chunk_size rest = if ltb max_bytes rest then max_bytes else rest

-- What is left when the loop of `filewrite` ends: how far it came, the file, the transactions.
pub record Progress : Type 0 where
  pub done : ℕ
  pub file : File
  pub chunks : List Chunk

abbrev pub bytes_of : Option ℕ → ℕ
bytes_of none = 0
bytes_of (some r) = r

-- The tests of the result: the loop is left, panics, or goes on with `later`.
abbrev pub after_chunk : Option ℕ → ℕ → Outcome Progress → Outcome Progress → Outcome Progress
after_chunk none n1 broken later = broken
after_chunk (some r) n1 broken later = if not (r == n1) then panic "short filewrite" else later

-- The loop of `filewrite` from byte `i` on, on fuel; `writei` answers a call with -1 (`none`) or the
-- number of bytes.
module _ (writei : Chunk → Option ℕ) where
  abbrev pub next_chunk : ℕ → ℕ → File → Chunk
  next_chunk n i f = record { from = i; at = f.off; size = chunk_size (n - i) }

  unfoldable pub chunk_loop : ℕ → ℕ → ℕ → File → List Chunk → Outcome Progress
  chunk_loop zero n i f cs = panic "out of fuel"
  chunk_loop (suc fuel) n i f cs =
      let c = next_chunk n i f in
      let r = bytes_of (writei c) in
      let made = cs ++ c ∷ [] in
      let later = chunk_loop fuel n (i + r) (moved r f) made in
      if ltb i n
      then after_chunk (writei c) c.size (ok (record { done = i; file = f; chunks = made })) later
      else ok (record { done = i; file = f; chunks = cs })

  -- A negative `n` makes no round of the loop, and is not the number of bytes written.
  abbrev pub write_by : FileType → ℕ → ℕ → File → Outcome (ℕ × Progress)
  write_by fd_none to_pipe n f = panic "filewrite"
  write_by fd_pipe to_pipe n f = ok (to_pipe, record { done = 0; file = f; chunks = [] })
  write_by fd_inode to_pipe n f =
      if leb (2 ^ 31) n
      then ok (minus_one, record { done = 0; file = f; chunks = [] })
      else on_ok (chunk_loop (suc n) n 0 f []) (λ p. ok (if p.done == n then n else minus_one, p))

  -- `filewrite` of `n` bytes; `to_pipe` is what pipewrite returns.
  unfoldable pub filewrite : ℕ → ℕ → File → Outcome (ℕ × Progress)
  filewrite to_pipe n f =
      if not f.writable
      then ok (minus_one, record { done = 0; file = f; chunks = [] })
      else write_by f.type to_pipe n f
