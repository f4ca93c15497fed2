-- ===== src/Proc/Alloc.antt =====
-- `allocproc` and `fork` of src/proc.c.
use waka_b4_research.Schedlog.{Event, ProcState, unused, embryo, runnable, acquired, released}
use waka_b4_research.CString.{safestrcpy}
use waka_b4_research.Proc.{
  Proc, Kernel, kfree, filedup, idup, poke, is, ptr, call, load, store, Machine, acquire_ptable,
  release_ptable, lock_event, event, stamp, myproc,
}
use waka_b4_research.Base.{
  ℕ, ◌+◌, ◌-◌, Bool, Option, none, some, List, [], ◌∷◌, ◌==◌, if◌then◌else◌, set, M, pure, get,
  modify, ◌>>=◌, ◌>>◌, find_index, minus_one, add_word,
}

abbrev pub is_unused : Proc → Bool
is_unused p = is p.state unused

-- `p->pid = nextpid++`
abbrev pub claim_pid : ℕ → Proc → M Kernel (Unit {0})
claim_pid np p = do
  k ← get
  store np (record p { pid = k.nextpid })
  modify (λ k'. record k' { nextpid = add_word k'.nextpid 1 })

abbrev pub set_state : ℕ → ProcState → M Kernel (Unit {0})
set_state np s = do p ← load np; store np (record p { state = s })

-- `np->ofile[i] = filedup(curproc->ofile[i])` where it is not null; the first list is the rest of
-- the child's array, the second of the parent's.
unfoldable pub dup_files : List ℕ → List ℕ → M Kernel (List ℕ)
dup_files [] fs = pure []
dup_files (o ∷ os) [] = pure (o ∷ os)
dup_files (o ∷ os) (f ∷ fs) =
    let later = dup_files os fs in
    if f == 0 then (do r ← later; pure (o ∷ r)) else do call (filedup f); r ← later; pure (f ∷ r)

module _ (m : Machine) where
  -- Everything after the lock is given back: the kernel stack that kalloc returned, with the trap
  -- frame at its top, the return address and the context below. What is in the trap frame is not
  -- written.
  unfoldable pub set_stack : ℕ → ℕ → M Kernel ℕ
  set_stack np stack = do
    p ← load np
    store np (record p { kstack = stack })
    if stack == 0 then (do set_state np unused; pure 0) else do
      p ← load np
      let tf_at = stack + 4096 - 76
      call (poke (tf_at - 4) m.trapret)
      store np (record p {
        tf_at = tf_at;
        context_at = tf_at - 4 - 20;
        context = 0 ∷ 0 ∷ 0 ∷ 0 ∷ m.forkret ∷ [];
      })
      pure np

  -- What follows the search of the table.
  abbrev pub alloc_at : ℕ → Option ℕ → M Kernel ℕ
  alloc_at stack none = do lock_event m acquired released; release_ptable m; pure 0
  alloc_at stack (some i) = do
    p ← load (ptr i)
    claim_pid (ptr i) p
    p ← load (ptr i)
    event m p Event.allocproc embryo
    store (ptr i) (record p { state = embryo })
    lock_event m acquired released
    release_ptable m
    set_stack (ptr i) stack

  -- `stack` is what kalloc returns.
  unfoldable pub allocproc : ℕ → M Kernel ℕ
  allocproc stack = do
    acquire_ptable m
    lock_event m released acquired
    k ← get
    alloc_at stack (find_index is_unused k.procs)

  -- `fork` on the child `np` once copyuvm has given it the page table `pgdir`.
  unfoldable pub fork_child : ℕ → ℕ → M Kernel ℕ
  unfolding dup_files
  fork_child np cur = do
    c ← load cur
    p ← load np
    store np (record p { sz = c.sz; parent = cur; tf = set c.tf 7 0 })
    p ← load np
    ofile ← dup_files p.ofile c.ofile
    call (idup c.cwd)
    store np (record p { ofile = ofile; cwd = c.cwd; name = safestrcpy p.name c.name 16 })
    p ← load np
    stamp m p.pid 0
    lock_event m released acquired
    acquire_ptable m
    event m p Event.fork runnable
    set_state np runnable
    release_ptable m
    lock_event m acquired released
    pure p.pid

  -- `stack` is what kalloc returns and `pgdir` what copyuvm returns.
  unfoldable pub fork : ℕ → ℕ → M Kernel ℕ
  fork stack pgdir = do
    cur ← myproc
    np ← allocproc stack
    if np == 0 then pure minus_one else do
      p ← load np
      store np (record p { pgdir = pgdir })
      p ← load np
      let undo = (do
        call (kfree p.kstack)
        store np (record p { kstack = 0; state = unused })
        pure minus_one)
      if pgdir == 0 then undo else fork_child np cur
