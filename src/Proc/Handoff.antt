-- ===== src/Proc/Handoff.antt =====
-- `sleep(chan, lk)` and `yield` of src/proc.c: the exchange of locks before the switch.
use waka_b4_research.Spinlock.{Cpu, Lock, pushcli, held_by}
use waka_b4_research.Spinlock.Nesting.{
  IsMasked, restored, pushcli-IsMasked, popcli-pushcli, pushcli-deep,
}
use waka_b4_research.Spinlock.Section.{taken, given_back, release_lem}
use waka_b4_research.Schedlog.{sleeping, acquired, released}
use waka_b4_research.Proc.{Proc, Kernel, ptr, Machine, myproc}
use waka_b4_research.Proc.Sleep.{release_other, sleep, other}
use waka_b4_research.Proc.Table.{lock_event_lem, myproc_lem, in_ptable, acquire_ptable-free}
use waka_b4_research.Proc.Sched.{IsSwitching, restored_of_one, not_null, asleep_kernel, doze_lem}
use waka_b4_research.Base.{
  ℕ, ◌≡◌, ap, ◌∙◌, true, false, some, List, arith, get_elem?, set, set-set, Returns, ok, update,
}

-- Process `p` in slot `i` runs here and holds the lock at `a` and no other; the lock of the table is
-- free.
pub record IsHolding (m : Machine) (k : Kernel) (i : ℕ) (p : Proc) (a : ℕ) : Type 0 where
  pub current : k.current ≡ ptr i
  pub slot : get_elem? k.procs i ≡ some p
  pub held : held_by (k.locks a) m.me ≡ true
  pub free : k.ptable_lock.locked ≡ 0
  pub depth : k.cpu.ncli ≡ 1
  pub off : k.cpu.iflag ≡ false

pub held_by-taken : (me : ℕ) (pcs : List ℕ) (l : Lock) → held_by (taken me pcs l) me ≡ true
held_by-taken me pcs l = ground arith

module _ (m : Machine) (k : Kernel) (i : ℕ) (p : Proc) (a : ℕ) (v : IsHolding m k i p a) where
  -- The lock of the table is taken, and then the caller's given back.
  pub exchanged : Kernel
  exchanged = record k {
    ptable_lock = taken m.me m.pcs k.ptable_lock;
    locks = update k.locks a (given_back (k.locks a));
    cpu = restored k.cpu;
  }

  masked : IsMasked k.cpu
  masked = record { off = λ _. v.off }

  pub exchanged-IsSwitching : IsSwitching m exchanged i p
  unfolding exchanged
  exchanged-IsSwitching = record {
    current = v.current;
    slot = v.slot;
    held = held_by-taken m.me m.pcs k.ptable_lock;
    depth = v.depth;
    off = v.off;
  }

  release_other-held : release_other m a (in_ptable m k) ≡ ok (tt, exchanged)
  unfolding release_other exchanged
  release_other-held = rw (
    release_lem m.me m.pcs (k.locks a) (pushcli k.cpu) (pushcli-deep k.cpu)
        (pushcli-IsMasked k.cpu),
    v.held,
    popcli-pushcli k.cpu masked,
  )

  myproc-holding : myproc k ≡ ok (ptr i, k)
  myproc-holding =
      myproc_lem k masked
      ∙ ap (λ (c : Cpu). ok (k.current, record k { cpu = c })) (restored_of_one k.cpu v.depth)
      ∙ ap (λ (b : ℕ). ok (b, k)) v.current

  sleep-exchanged :
      (chan : ℕ)
      → sleep m chan (other a) k
        ≡ ok (exchanged.cpu.intena, asleep_kernel m exchanged i p exchanged-IsSwitching chan)
  unfolding sleep
  sleep-exchanged chan =
      rw
        (
          myproc-holding,
          not_null i,
          lock_event_lem m released acquired k,
          acquire_ptable-free m k v.free,
          release_other-held,
        )
        (doze_lem m exchanged i p chan exchanged-IsSwitching)

-- What holds when `sleep` reaches the switch.
pub record IsAsleep (m : Machine) (i chan : ℕ) (p : Proc) (k k' : Kernel) : Type 0 where
  pub procs : k'.procs ≡ set k.procs i (record p { chan = chan; state = sleeping })
  pub held : held_by k'.ptable_lock m.me ≡ true

-- If process `p` in slot `i` runs here, holds lock `a` and no other, and the lock of the table is
-- free, `sleep` with lock `a` reaches the switch: the process sleeps on `chan` and no other slot
-- changes, the lock of the table is held, and lock `a` is free.
pub sleep-other :
    (m : Machine) (k : Kernel) (i : ℕ) (p : Proc) (a chan : ℕ)
    → IsHolding m k i p a
    → Returns
        (λ _ k'. IsAsleep m i chan p k k' × ((k'.locks a).locked ≡ 0))
        (sleep m chan (other a) k)
unfolding exchanged asleep_kernel
sleep-other m k i p a chan v = rw (sleep-exchanged m k i p a v chan) (
  record { procs = set-set k.procs i _ _; held = held_by-taken m.me m.pcs k.ptable_lock },
  ground arith,
)
