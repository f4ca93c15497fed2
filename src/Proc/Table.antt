-- ===== src/Proc/Table.antt =====
-- What the shared steps of src/proc.c do: the lock of the process table, the log, the current
-- process, and reads and writes of a slot.
use waka_b4_research.Spinlock.{Cpu, pushcli}
use waka_b4_research.Spinlock.Nesting.{IsMasked, restored, popcli-pushcli}
use waka_b4_research.Spinlock.Section.{taken, given_back, acquire-free, release-taken}
use waka_b4_research.Schedlog.{
  Event, ProcState, Log, unused, embryo, sleeping, runnable, running, zombie, acquired, released,
}
use waka_b4_research.Proc.{
  Proc, Kernel, ptr, is, test_name, load, store, Machine, acquire_ptable, release_ptable,
  lock_event, myproc,
}
use waka_b4_research.Schedlog.Order.{writelog_turned_away, is_logged-minus_one}
use waka_b4_research.Base.{ℕ, suc, ◌≡◌, refl, true, ap, some, arith, get_elem?, set, ok, minus_one}

-- A call of `writelog` for the lock of the process table records nothing: its pid is -1.
pub lock_event_lem : (m : Machine) (a b : ProcState) (k : Kernel) → lock_event m a b k ≡ ok (tt, k)
unfolding lock_event
lock_event_lem m a b k =
    ap (λ (l : Log). ok (tt, record k { log = l }))
      (writelog_turned_away m.tsc m.me minus_one test_name Event.ptable_lock a b k.log
        (is_logged-minus_one k.log test_name))

pub is-sleeping : (s : ProcState) → is s sleeping ≡ true → s ≡ sleeping
is-sleeping unused e = cc
is-sleeping embryo e = cc
is-sleeping sleeping e = refl
is-sleeping runnable e = cc
is-sleeping running e = cc
is-sleeping zombie e = cc
is-sleeping acquired e = cc
is-sleeping released e = cc

pub is-zombie : (s : ProcState) → is s zombie ≡ true → s ≡ zombie
is-zombie unused e = cc
is-zombie embryo e = cc
is-zombie sleeping e = cc
is-zombie runnable e = cc
is-zombie running e = cc
is-zombie zombie e = refl
is-zombie acquired e = cc
is-zombie released e = cc

pub myproc_lem :
    (k : Kernel) → IsMasked k.cpu → myproc k ≡ ok (k.current, record k { cpu = restored k.cpu })
unfolding myproc
myproc_lem k v = rw (popcli-pushcli k.cpu v)

module _ (m : Machine) (k : Kernel) where
  open m use {me, pcs}

  -- The kernel inside a critical section of the process table, and behind it.
  abbrev pub in_ptable : Kernel
  in_ptable = record k { ptable_lock = taken me pcs k.ptable_lock; cpu = pushcli k.cpu }

  abbrev pub past_ptable : Kernel
  past_ptable = record k {
    ptable_lock = given_back (taken me pcs k.ptable_lock);
    cpu = restored k.cpu;
  }

  pub acquire_ptable-free : k.ptable_lock.locked ≡ 0 → acquire_ptable m k ≡ ok (tt, in_ptable)
  unfolding acquire_ptable
  acquire_ptable-free free = rw (acquire-free me pcs k.ptable_lock k.cpu free)

  pub release_ptable-taken : IsMasked k.cpu → release_ptable m in_ptable ≡ ok (tt, past_ptable)
  unfolding release_ptable
  release_ptable-taken v = rw (release-taken me pcs k.ptable_lock k.cpu v)

-- The lock of the table is free, and interrupts are masked if they are counted as such: the state
-- between two calls.
pub record IsReady (k : Kernel) : Type 0 where
  pub free : k.ptable_lock.locked ≡ 0
  pub masked : IsMasked k.cpu

-- A pointer leads to a process.
pub load_lem :
    (i : ℕ) (k : Kernel) (p : Proc) → get_elem? k.procs i ≡ some p → load (ptr i) k ≡ ok (p, k)
load_lem i k p h = let e : ptr i ≡ suc i = omega arith in rw (e, load, h)

pub store_lem :
    (i : ℕ) (p : Proc) (k : Kernel)
    → store (ptr i) p k ≡ ok (tt, record k { procs = set k.procs i p })
store_lem i p k = let e : ptr i ≡ suc i = omega arith in rw e

pub restored-IsMasked : (c : Cpu) → IsMasked c → IsMasked (restored c)
restored-IsMasked c v = record { off = v.off }
