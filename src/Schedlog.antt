-- ===== src/Schedlog.antt =====
-- The scheduling log of src/proc.c: `mystrcmp` and `writelog`, and its record types in src/proc.h.
-- A string is the list of its bytes from the pointer on, the terminating 0 among them; a read past
-- the list reads 0. The time stamp counter is a parameter: `tsc n` is what its `n`-th reading gives.
pub mod Strings
pub mod Order
mod Tests
use waka_b4_research.Base.{
  ℕ, zero, suc, ◌+◌, Bool, true, false, ◌&&◌, ◌||◌, not, List, [], ◌∷◌, ◌==◌, leb, if◌then◌else◌,
  update, minus_one, sub_word, get_or,
}

pub record Clock : Type 0 where
  pub hi : ℕ
  pub lo : ℕ

pub data Event : Type 0 where
  allocproc wakeup yield fork tick exit wait sleep ptable_lock runqueue_lock : Event

-- `enum procstate`
pub data ProcState : Type 0 where
  unused embryo sleeping runnable running zombie acquired released : ProcState

-- `struct schedlog`
pub record Entry : Type 0 where
  pub clock : Clock
  pub pid : ℕ
  pub name : List ℕ
  pub event_name : Event
  pub prev_pstate : ProcState
  pub next_pstate : ProcState
  pub cpu : ℕ

abbrev pub bufsize : ℕ
bufsize = 500

-- `entries` is memory from `buf_log` on: an index of `bufsize` or more lies behind the array.
-- `reads` counts the readings of the counter.
pub record Log : Type 0 where
  pub finished_fork : ℕ
  pub value : ℕ
  pub entries : ℕ → Entry
  pub end_clock : Clock
  pub reads : ℕ

abbrev pub first : List ℕ → ℕ
first [] = 0
first (x ∷ _) = x

abbrev pub rest : List ℕ → List ℕ
rest [] = []
rest (_ ∷ xs) = xs

-- The difference of the first bytes that differ, or 0; an `int` as a 32-bit pattern.
unfoldable pub mystrcmp : List ℕ → List ℕ → ℕ
mystrcmp [] q = sub_word 0 (first q)
mystrcmp (x ∷ p) q =
    let later = mystrcmp p (rest q) in
    if not (x == 0) && (x == first q) then later else sub_word x (first q)

-- The bytes of "bufwrite".
abbrev pub bufwrite_name : List ℕ
bufwrite_name = b'b' ∷ b'u' ∷ b'f' ∷ b'w' ∷ b'r' ∷ b'i' ∷ b't' ∷ b'e' ∷ 0 ∷ []

-- `n` bytes of a name from the `i`-th on.
unfoldable pub copy_name : ℕ → ℕ → List ℕ → List ℕ
copy_name zero i name = []
copy_name (suc n) i name = get_or name i 0 ∷ copy_name n (i + 1) name

-- Whether an event is recorded at all.
abbrev pub is_logged : Log → ℕ → List ℕ → Bool
is_logged l pid pname =
    not (l.finished_fork == 0) && (mystrcmp pname bufwrite_name == 0) && not (pid == minus_one)

module _ (tsc : ℕ → Clock) (cpu : ℕ) where
  unfoldable pub writelog : ℕ → List ℕ → Event → ProcState → ProcState → Log → Log
  unfolding copy_name
  writelog pid pname event prev next l =
      if is_logged l pid pname
      then (let cl = tsc l.reads in
          let l' = record l { end_clock = cl; reads = l.reads + 1 } in
          if leb bufsize l.value then l' else record l' {
            value = l.value + 1;
            entries = update l.entries (l.value + 1) (record {
              clock = cl;
              pid = pid;
              name = copy_name 16 0 pname;
              event_name = event;
              prev_pstate = prev;
              next_pstate = next;
              cpu = cpu;
            });
          })
      else l
