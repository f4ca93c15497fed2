-- ===== src/Proc/Wakeup.antt =====
-- `wakeup` of src/proc.c: which processes it wakes.
use waka_b4_research.Spinlock.{held_by}
use waka_b4_research.Spinlock.Nesting.{IsMasked, restored, holding_lem}
use waka_b4_research.Schedlog.{acquired, released, Log}
use waka_b4_research.Proc.{Proc, Kernel, Machine, woken, wake_log, wake_all, wakeup1}
use waka_b4_research.Proc.Sleep.{wakeup, holding_ptable}
use waka_b4_research.Proc.Table.{
  lock_event_lem, in_ptable, past_ptable, acquire_ptable-free, release_ptable-taken, IsReady,
  restored-IsMasked,
}
use waka_b4_research.Base.{ℕ, ◌≡◌, refl, ap, true, false, List, [], ◌∷◌, map, arith, ok, panic}

module _ (m : Machine) (chan : ℕ) where
  -- The loop over the table changes each process on its own.
  pub wake_all-map : (l : Log) (ps : List Proc) → (wake_all m chan l ps).1 ≡ map (woken m chan) ps
  unfolding wake_all
  wake_all-map l [] = refl
  wake_all-map l (p ∷ ps) = ap (λ qs. woken m chan p ∷ qs) (wake_all-map (wake_log m chan p l) ps)

  pub wakeup1_lem :
      (k : Kernel)
      → wakeup1 m chan k
        ≡ ok (
          tt,
          record k { log = (wake_all m chan k.log k.procs).0; procs = map (woken m chan) k.procs },
        )
  unfolding wakeup1
  wakeup1_lem k =
      ap
        (λ (ps : List Proc).
          ok (tt, record k { log = (wake_all m chan k.log k.procs).0; procs = ps }))
        (wake_all-map k.log k.procs)

  -- The kernel after a call: the sleepers on `chan` are runnable.
  abbrev pub awake : Kernel → Kernel
  awake k = record k { log = (wake_all m chan k.log k.procs).0; procs = map (woken m chan) k.procs }

  holding_ptable-free :
      (k : Kernel) → IsReady k → holding_ptable m k ≡ ok (false, record k { cpu = restored k.cpu })
  unfolding holding_ptable
  holding_ptable-free k v =
      rw (holding_lem m.me k.ptable_lock k.cpu v.masked) (ground (arith, v.free))

  -- With the lock of the table free, `wakeup` returns with every process that sleeps on `chan` made
  -- runnable, every other process as it was, and the lock free again.
  pub wakeup-awake :
      (k : Kernel)
      → IsReady k
      → wakeup m chan k
        ≡ ok (tt, record (past_ptable m (awake k)) { cpu = restored (restored k.cpu) })
  unfolding wakeup
  wakeup-awake k v =
      rw
        (
          holding_ptable-free k v,
          lock_event_lem m released acquired k',
          acquire_ptable-free m k' v.free,
          wakeup1_lem (in_ptable m k'),
          lock_event_lem m acquired released (in_ptable m (awake k')),
        )
        (release_ptable-taken m (awake k') (restored-IsMasked k.cpu v.masked))
    where
      k' : Kernel
      k' = record k { cpu = restored k.cpu }

  -- A call by the processor that holds the lock panics.
  pub wakeup-held :
      (k : Kernel)
      → held_by k.ptable_lock m.me ≡ true
      → IsMasked k.cpu
      → wakeup m chan k ≡ panic "already locked!\n"
  unfolding wakeup holding_ptable
  wakeup-held k h v = rw (holding_lem m.me k.ptable_lock k.cpu v, h)
