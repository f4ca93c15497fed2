-- ===== src/Proc/Sleep.antt =====
-- `sched`, `sleep`, `yield`, `wakeup` and `kill` of src/proc.c. A function that gives up the
-- processor is two: what runs up to `swtch`, and what runs when the process is resumed. Between
-- the two the scheduler and the other processes run.
use waka_b4_research.Spinlock.{acquire, release, holding}
use waka_b4_research.Schedlog.{Event, sleeping, runnable, running, acquired, released}
use waka_b4_research.Proc.{
  Proc, Kernel, is, ptr, load, store, Machine, acquire_ptable, release_ptable, lock_event, event,
  myproc, wakeup1,
}
use waka_b4_research.Base.{
  ℕ, Bool, not, Option, none, some, ◌==◌, if◌then◌else◌, ok, on_ok, M, pure, fail, get, modify,
  ◌>>=◌, ◌>>◌, update, find_index, minus_one,
}

-- The lock that `sleep` is called with.
pub data LockRef : Type 0 where
  null table : LockRef
  other : ℕ → LockRef

module _ (m : Machine) where
  open m use {me, pcs}

  unfoldable pub holding_ptable : M Kernel Bool
  holding_ptable k =
      on_ok (holding me k.ptable_lock k.cpu) λ (held, c). ok (held, record k { cpu = c })

  -- `sched` up to `swtch`: the value of `intena` that it saves.
  unfoldable pub sched : M Kernel Bool
  sched = do
    cur ← myproc
    held ← holding_ptable
    k ← get
    if not held then fail "sched ptable.lock" else do
      if not (k.cpu.ncli == 1) then fail "sched locks" else do
        p ← load cur
        if is p.state running
            then fail "sched running"
            else do if k.cpu.iflag then fail "sched interruptible" else pure k.cpu.intena

  -- `sched` from `swtch` on.
  abbrev pub sched_return : Bool → M Kernel (Unit {0})
  sched_return intena = modify (λ k. record k { cpu = record (k.cpu) { intena = intena } })

  unfoldable pub acquire_other : ℕ → M Kernel (Unit {0})
  acquire_other a k =
      on_ok (acquire me pcs (k.locks a) k.cpu)
        λ (l, c). ok (tt, record k { locks = update k.locks a l; cpu = c })

  unfoldable pub release_other : ℕ → M Kernel (Unit {0})
  release_other a k =
      on_ok (release me (k.locks a) k.cpu)
        λ (l, c). ok (tt, record k { locks = update k.locks a l; cpu = c })

  -- The exchange of the caller's lock for the table's, and back.
  abbrev pub take_table : LockRef → M Kernel (Unit {0})
  take_table null = fail "sleep without lk"
  take_table table = pure tt
  take_table (other a) = do lock_event m released acquired; acquire_ptable m; release_other a

  abbrev pub leave_table : LockRef → M Kernel (Unit {0})
  leave_table (other a) = do lock_event m acquired released; release_ptable m; acquire_other a
  leave_table _ = pure tt

  -- `sleep` with the lock of the table held.
  unfoldable pub doze : ℕ → ℕ → M Kernel Bool
  doze cur chan = do
    p ← load cur
    store cur (record p { chan = chan })
    p ← load cur
    event m p Event.sleep sleeping
    store cur (record p { state = sleeping })
    sched

  -- `sleep` up to `swtch`. The check of `lk` is in `take_table`.
  unfoldable pub sleep : ℕ → LockRef → M Kernel Bool
  sleep chan lk = do
    cur ← myproc
    if cur == 0 then fail "sleep" else do take_table lk; doze cur chan

  -- `sleep` from `swtch` on, for the process `cur`.
  unfoldable pub sleep_return : ℕ → LockRef → Bool → M Kernel (Unit {0})
  sleep_return cur lk intena = do
    sched_return intena
    p ← load cur
    store cur (record p { chan = 0 })
    leave_table lk

  unfoldable pub yield : M Kernel Bool
  yield = do
    cur ← myproc
    p ← load cur
    event m p Event.yield runnable
    lock_event m released acquired
    acquire_ptable m
    p ← load cur
    store cur (record p { state = runnable })
    sched

  unfoldable pub yield_return : Bool → M Kernel (Unit {0})
  yield_return intena = do sched_return intena; lock_event m acquired released; release_ptable m

  unfoldable pub wakeup : ℕ → M Kernel (Unit {0})
  wakeup chan = do
    held ← holding_ptable
    if held then fail "already locked!\n" else do
      lock_event m released acquired
      acquire_ptable m
      wakeup1 m chan
      lock_event m acquired released
      release_ptable m

  abbrev pub has_pid : ℕ → Proc → Bool
  has_pid pid p = p.pid == pid

  abbrev pub slain : Proc → Proc
  slain p = record p { killed = 1; state = if is p.state sleeping then runnable else p.state }

  abbrev pub kill_at : Option ℕ → M Kernel ℕ
  kill_at none = do lock_event m acquired released; release_ptable m; pure minus_one
  kill_at (some i) = do
    p ← load (ptr i)
    store (ptr i) (slain p)
    lock_event m acquired released
    release_ptable m
    pure 0

  unfoldable pub kill : ℕ → M Kernel ℕ
  kill pid = do
    lock_event m released acquired
    acquire_ptable m
    k ← get
    kill_at (find_index (has_pid pid) k.procs)
