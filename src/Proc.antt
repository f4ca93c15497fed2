-- ===== src/Proc.antt =====
-- src/proc.c with src/proc.h: the process table and the system calls on it, in the configuration
-- that src/proc.h sets (IS_MULTIPLE_RUNQUEUE 0, IS_ROUNDROBIN 1), in which no call below reaches a
-- run queue. This module has the state and the steps that the functions share.
--
-- A pointer to slot `i` of the table is `i + 1`, and 0 is null; other kernel addresses (channels)
-- are larger. What the functions call in other files is recorded in `calls`, the latest first, and
-- what such a call returns is an argument.
pub mod Table
pub mod Alloc
pub mod Born
pub mod Sleep
pub mod Exit
pub mod Run
pub mod Sched
pub mod Handoff
pub mod Wakeup
pub mod Pids
pub mod Poison
pub mod Kill
pub mod Wait
pub mod Orphans
pub mod Pick
mod Tests
use waka_b4_research.Base.{
  ℕ, zero, suc, ◌+◌, ◌-◌, Bool, true, false, ◌&&◌, ◌||◌, not, Option, none, some, List, [], ◌∷◌,
  ◌==◌, if◌then◌else◌, M, ok, on_ok, pure, fail, get, modify, ◌>>=◌, ◌>>◌, and_then, update,
  minus_one, add_word, get_elem?, set,
}
use waka_b4_research.Spinlock.{Cpu, Lock, acquire, release, pushcli, popcli}
use waka_b4_research.Schedlog.{
  Clock, Event, ProcState, unused, embryo, sleeping, runnable, running, zombie, acquired, released,
  Log, writelog,
}

-- `struct proc`, less the links of the run queues. `tf` is the trap frame that `tf_at` points to,
-- and `context` the saved registers that `context_at` points to, both as words.
pub record Proc : Type 0 where
  pub sz : ℕ
  pub pgdir : ℕ
  pub kstack : ℕ
  pub state : ProcState
  pub pid : ℕ
  pub parent : ℕ
  pub tf_at : ℕ
  pub tf : List ℕ
  pub context_at : ℕ
  pub context : List ℕ
  pub chan : ℕ
  pub killed : ℕ
  pub ofile : List ℕ
  pub cwd : ℕ
  pub name : List ℕ

-- Calls into other files.
pub data Call : Type 0 where
  kfree freevm filedup idup fileclose iput switchuvm : ℕ → Call
  begin_op end_op switchkvm sti : Call
  poke : ℕ → ℕ → Call

-- `clock_log pid n` and `first_running pid` are the arrays of those names; `current` is `c->proc`;
-- `locks` are the locks that sleep is called with, by address.
pub record Kernel : Type 0 where
  pub procs : List Proc
  pub nextpid : ℕ
  pub initproc : ℕ
  pub ptable_lock : Lock
  pub locks : ℕ → Lock
  pub cpu : Cpu
  pub current : ℕ
  pub log : Log
  pub clock_log : ℕ → ℕ → Clock
  pub isnot_first_running : ℕ → ℕ
  pub calls : List Call

abbrev pub number : ProcState → ℕ
number unused = 0
number embryo = 1
number sleeping = 2
number runnable = 3
number running = 4
number zombie = 5
number acquired = 6
number released = 7

abbrev pub is : ProcState → ProcState → Bool
is a b = number a == number b

abbrev pub ptr : ℕ → ℕ
ptr i = i + 1

-- The bytes of "test".
abbrev pub test_name : List ℕ
test_name = b't' ∷ b'e' ∷ b's' ∷ b't' ∷ 0 ∷ []

abbrev pub call : Call → M Kernel (Unit {0})
call c = modify (λ k. record k { calls = c ∷ k.calls })

-- A null or foreign pointer to a process faults, and the fault panics in the trap handler.
abbrev pub load : ℕ → M Kernel Proc
load zero k = fail "trap" k
load (suc i) k = elim (get_elem? k.procs i) [ none ↦ fail "trap" k | some p ↦ pure p k ]

abbrev pub store : ℕ → Proc → M Kernel (Unit {0})
store zero p k = fail "trap" k
store (suc i) p k = ok (tt, record k { procs = set k.procs i p })

-- What a run of the code depends on: the time stamp counter, the processor, its stack for
-- getcallerpcs, and the addresses of the entry points `forkret` and `trapret`.
pub record Machine : Type 0 where
  pub tsc : ℕ → Clock
  pub me : ℕ
  pub pcs : List ℕ
  pub forkret : ℕ
  pub trapret : ℕ

module _ (m : Machine) where
  open m use {tsc, me, pcs}

  unfoldable pub acquire_ptable : M Kernel (Unit {0})
  acquire_ptable k =
      on_ok (acquire me pcs k.ptable_lock k.cpu)
        λ (l, c). ok (tt, record k { ptable_lock = l; cpu = c })

  unfoldable pub release_ptable : M Kernel (Unit {0})
  release_ptable k =
      on_ok (release me k.ptable_lock k.cpu)
        λ (l, c). ok (tt, record k { ptable_lock = l; cpu = c })

  -- `writelog(-1, "test", PTABLE_LOCK, prev, next)`
  unfoldable pub lock_event : ProcState → ProcState → M Kernel (Unit {0})
  lock_event prev next = modify (λ k. record k {
    log = writelog tsc me minus_one test_name Event.ptable_lock prev next k.log;
  })

  -- `writelog(p->pid, p->name, event, p->state, next)`
  unfoldable pub event : Proc → Event → ProcState → M Kernel (Unit {0})
  event p e next =
      modify (λ k. record k { log = writelog tsc me p.pid p.name e p.state next k.log })

  -- `clock_log[pid][column] = rdtsc()`
  unfoldable pub stamp : ℕ → ℕ → M Kernel (Unit {0})
  stamp pid column = modify (λ k. record k {
    clock_log = update k.clock_log pid (update (k.clock_log pid) column (tsc k.log.reads));
    log = record (k.log) { reads = k.log.reads + 1 };
  })

-- `myproc`: the pointer `c->proc`, read with interrupts off.
unfoldable pub myproc : M Kernel ℕ
unfolding pushcli popcli
myproc k = on_ok (popcli (pushcli k.cpu)) λ c. ok (k.current, record k { cpu = c })

-- The loop of `wakeup1` over the table, with the log that it writes.
module _ (m : Machine) (chan : ℕ) where
  open m use {tsc, me}

  abbrev pub sleeps_on : Proc → Bool
  sleeps_on p = is p.state sleeping && (p.chan == chan)

  abbrev pub woken : Proc → Proc
  woken p = if sleeps_on p then record p { state = runnable } else p

  abbrev pub wake_log : Proc → Log → Log
  wake_log p l =
      if sleeps_on p then writelog tsc me p.pid p.name Event.wakeup p.state runnable l else l

  unfoldable pub wake_all : Log → List Proc → Log × List Proc
  wake_all l [] = (l, [])
  wake_all l (p ∷ ps) = let (l', ps') = wake_all (wake_log p l) ps in (l', woken p ∷ ps')

  unfoldable pub wakeup1 : M Kernel (Unit {0})
  wakeup1 k = let (l, ps) = wake_all k.log k.procs in ok (tt, record k { log = l; procs = ps })
