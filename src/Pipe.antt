-- ===== src/Pipe.antt =====
-- src/pipe.c: pipes. The counters are 32-bit words that wrap, and index the array modulo its size.
-- The calls of the locks, of sleep and wakeup and of kfree are recorded, the latest first. A function
-- that sleeps is two: what runs up to the sleep, and what runs when the process is woken.
pub mod Ring
pub mod Transfer
pub mod Fifo
mod Tests
use waka_b4_research.Base.{
  ℕ, zero, suc, ◌+◌, ◌-◌, ◌%◌, Bool, true, false, ◌&&◌, ◌||◌, not, List, [], ◌∷◌, ◌==◌,
  if◌then◌else◌, length, get_or, set, add_word, sub_word,
}

abbrev pub pipe_size : ℕ
pipe_size = 512

pub data Call : Type 0 where
  acquires releases wakes_reader wakes_writer sleeps_reader sleeps_writer frees : Call

-- `struct pipe`
pub record Pipe : Type 0 where
  pub bytes : List ℕ
  pub nread : ℕ
  pub nwrite : ℕ
  pub readopen : Bool
  pub writeopen : Bool
  pub calls : List Call

abbrev pub called : Call → Pipe → Pipe
called c p = record p { calls = c ∷ p.calls }

abbrev pub is_full : Pipe → Bool
is_full p = p.nwrite == add_word p.nread pipe_size

abbrev pub is_empty : Pipe → Bool
is_empty p = p.nread == p.nwrite

-- `p->data[p->nwrite++ % PIPESIZE] = b`
unfoldable pub put : ℕ → Pipe → Pipe
put b p = record p { bytes = set p.bytes (p.nwrite % pipe_size) b; nwrite = add_word p.nwrite 1 }

-- `p->data[p->nread++ % PIPESIZE]`: the byte, and the pipe behind it.
abbrev pub front : Pipe → ℕ
front p = get_or p.bytes (p.nread % pipe_size) 0

unfoldable pub skip : Pipe → Pipe
skip p = record p { nread = add_word p.nread 1 }

-- How a write ends: with its return value, with -1, or asleep before the bytes that are left.
pub data Written : Type 0 where
  wrote : ℕ → Written
  refused : Written
  waits : List ℕ → Written

-- The loop of `pipewrite` over the bytes that are left of `n`; `killed` is the caller's flag, which
-- is read at most once before the loop returns or sleeps.
unfoldable pub write_loop : Bool → ℕ → List ℕ → Pipe → Written × Pipe
write_loop killed n [] p = (wrote n, called releases (called wakes_reader p))
write_loop killed n (b ∷ bs) p =
    let later = write_loop killed n bs (put b p) in
    if is_full p
    then if not p.readopen || killed
      then (refused, called releases p)
      else (waits (b ∷ bs), called sleeps_writer (called wakes_reader p))
    else later

unfoldable pub pipewrite : Bool → List ℕ → Pipe → Written × Pipe
pipewrite killed bs p = write_loop killed (length bs) bs (called acquires p)

-- How a read ends.
pub data Received : Type 0 where
  got : List ℕ → Received
  failed : Received
  sleeps : Received

-- `for(i = 0; i < n; i++)`: the bytes that are copied.
unfoldable pub read_loop : ℕ → Pipe → List ℕ × Pipe
read_loop zero p = ([], p)
read_loop (suc n) p =
    let rest = read_loop n (skip p) in if is_empty p then ([], p) else (front p ∷ rest.0, rest.1)

-- `piperead` from its loop on the empty pipe on.
unfoldable pub piperead_return : Bool → ℕ → Pipe → Received × Pipe
unfolding read_loop
piperead_return killed n p =
    if is_empty p && p.writeopen
    then if killed then (failed, called releases p) else (sleeps, called sleeps_reader p)
    else let (bs, p') = read_loop n p in (got bs, called releases (called wakes_writer p'))

unfoldable pub piperead : Bool → ℕ → Pipe → Received × Pipe
piperead killed n p = piperead_return killed n (called acquires p)

unfoldable pub pipeclose : Bool → Pipe → Pipe
pipeclose writable p =
    let closed =
      if writable
      then called wakes_reader (record (called acquires p) { writeopen = false })
      else called wakes_writer (record (called acquires p) { readopen = false }) in
    if not closed.readopen && not closed.writeopen
    then called frees (called releases closed)
    else called releases closed

-- How `pipealloc` ends, and the files that it closes.
pub data Allocated : Type 0 where
  made : Pipe → Allocated
  undone : List ℕ → Allocated

-- `f0` and `f1` are what filealloc returns, `page` what kalloc returns, and `bytes` what is in the
-- page; the calls after the first that fails are not made.
unfoldable pub pipealloc : ℕ → ℕ → ℕ → List ℕ → Allocated
pipealloc f0 f1 page bytes =
    if f0 == 0
    then undone []
    else if f1 == 0
    then undone (f0 ∷ [])
    else if page == 0
    then undone (f0 ∷ f1 ∷ [])
    else made (record {
      bytes = bytes;
      nread = 0;
      nwrite = 0;
      readopen = true;
      writeopen = true;
      calls = [];
    })
