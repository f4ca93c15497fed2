-- ===== src/Proc/Exit.antt =====
-- `exit` and `wait` of src/proc.c.
use waka_b4_research.Schedlog.{Event, unused, zombie, acquired, released}
use waka_b4_research.Proc.{
  Proc, Kernel, kfree, freevm, fileclose, iput, begin_op, end_op, is, ptr, call, load, store,
  Machine, acquire_ptable, release_ptable, lock_event, event, stamp, myproc, wakeup1,
}
use waka_b4_research.Proc.Sleep.{sleep, sched, table}
use waka_b4_research.Base.{
  ℕ, zero, suc, ◌+◌, Bool, false, ◌&&◌, ◌||◌, not, Option, none, some, List, [], ◌∷◌, ◌==◌,
  if◌then◌else◌, length, M, pure, fail, get, ◌>>=◌, ◌>>◌, find_index,
}

-- `fileclose(curproc->ofile[fd]); curproc->ofile[fd] = 0` for each open file.
abbrev pub close_file : ℕ → M Kernel (Unit {0})
close_file f = if f == 0 then pure tt else call (fileclose f)

unfoldable pub close_files : List ℕ → M Kernel (List ℕ)
close_files [] = pure []
close_files (f ∷ fs) = do close_file f; r ← close_files fs; pure (0 ∷ r)

module _ (m : Machine) where
  -- One round of the loop that passes the children of `cur` to init.
  unfoldable pub adopt : ℕ → ℕ → M Kernel (Unit {0})
  adopt cur i = do
    p ← load (ptr i)
    if not (p.parent == cur) then pure tt else do
      k ← get
      store (ptr i) (record p { parent = k.initproc })
      if is p.state zombie then wakeup1 m k.initproc else pure tt

  -- The rounds `i`, `i + 1`, …, `n` of them.
  unfoldable pub adopt_all : ℕ → ℕ → ℕ → M Kernel (Unit {0})
  adopt_all cur zero i = pure tt
  adopt_all cur (suc n) i = do adopt cur i; adopt_all cur n (i + 1)

  -- `exit` up to `swtch`; should the process be resumed, it panics ("zombie exit").
  unfoldable pub exit : M Kernel Bool
  exit = do
    cur ← myproc
    k ← get
    if cur == k.initproc then fail "init exiting" else do
      p ← load cur
      ofile ← close_files p.ofile
      store cur (record p { ofile = ofile })
      call begin_op
      call (iput p.cwd)
      call end_op
      store cur (record p { ofile = ofile; cwd = 0 })
      lock_event m released acquired
      acquire_ptable m
      p ← load cur
      wakeup1 m p.parent
      k ← get
      adopt_all cur (length k.procs) 0
      p ← load cur
      stamp m p.pid 2
      event m p Event.exit zombie
      store cur (record p { state = zombie })
      sched m

-- What one pass of `wait` over the table looks for: the first child of `cur` that is a zombie,
-- where the pass stops; and, in a pass to the end, whether a process is a child of `cur`.
abbrev pub is_child : ℕ → Proc → Bool
is_child cur p = p.parent == cur

abbrev pub is_dead_child : ℕ → Proc → Bool
is_dead_child cur p = is_child cur p && is p.state zombie

unfoldable pub havekids : ℕ → List Proc → Bool
havekids cur [] = false
havekids cur (p ∷ ps) = is_child cur p || havekids cur ps

-- How a pass of `wait` ends: it returns a pid, it returns -1, or it sleeps until the next pass.
pub data WaitStep : Type 0 where
  reaped : ℕ → WaitStep
  failed : WaitStep
  slept : Bool → WaitStep

abbrev pub clear_name : List ℕ → List ℕ
clear_name [] = []
clear_name (_ ∷ s) = 0 ∷ s

abbrev pub freed : Proc → Proc
freed p = record p {
  kstack = 0;
  pid = 0;
  parent = 0;
  name = clear_name p.name;
  killed = 0;
  state = unused;
}

module _ (m : Machine) where
  unfoldable pub reap : ℕ → M Kernel WaitStep
  reap i = do
    p ← load (ptr i)
    event m p Event.wait unused
    call (kfree p.kstack)
    call (freevm p.pgdir)
    lock_event m acquired released
    store (ptr i) (freed p)
    release_ptable m
    pure (reaped p.pid)

  -- What follows a pass over the table that found `dead`, for a caller with the flag `killed`.
  abbrev pub wait_at : ℕ → ℕ → Bool → Option ℕ → M Kernel WaitStep
  wait_at cur killed kids (some i) = reap i
  wait_at cur killed kids none =
      if not kids || not (killed == 0)
      then (do lock_event m acquired released; release_ptable m; pure failed)
      else (do intena ← sleep m cur table; pure (slept intena))

  -- One round of the endless loop of `wait`, with the lock of the table held.
  unfoldable pub wait_pass : ℕ → M Kernel WaitStep
  wait_pass cur = do
    k ← get
    c ← load cur
    wait_at cur c.killed (havekids cur k.procs) (find_index (is_dead_child cur) k.procs)

  -- `wait` up to its first return or sleep; after `sleep_return` it goes on with `wait_pass`.
  unfoldable pub wait : M Kernel WaitStep
  wait = do cur ← myproc; lock_event m released acquired; acquire_ptable m; wait_pass cur
