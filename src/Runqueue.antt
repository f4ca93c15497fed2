-- ===== src/Runqueue.antt =====
-- The run queues of src/proc.c: `struct runqueue`, `runqueueinit`, `enqueue`, `dequeue` and
-- `work_steal`. A queue is a circular doubly linked list through the members `next` and `prev` of
-- the processes, with a `struct proc` of the queue itself as its head. Memory is a function of the
-- address, so aliasing and order of the writes are those of the code. Addresses number the
-- objects: 0 is the null pointer, `head i` the head of queue `i`, any other a process.
pub mod Queue
pub mod Search
pub mod Steal
mod Tests
use waka_b4_research.Base.{
  ℕ, zero, suc, ◌+◌, ◌-◌, String, Bool, true, false, ◌&&◌, ◌||◌, not, Option, none, some, List, [],
  ◌∷◌, ◌==◌, ltb, if◌then◌else◌, Outcome, ok, panic, spins, on_ok, M, pure, fail, get, modify,
  ◌>>=◌, ◌>>◌, and_then, update, ◌%◌, ◌^◌,
}
use waka_b4_research.Spinlock.{Cpu, Lock, acquire, release, init_lock}

abbrev pub ncpu_max : ℕ
ncpu_max = 8

abbrev pub head : ℕ → ℕ
head i = i + 1

-- The members that the queues use: of every process (and head) `next`, `prev` and `pid`, of every
-- queue its length and its lock; the lock of the process table; the processor that runs the code.
pub record Kernel : Type 0 where
  pub next : ℕ → ℕ
  pub prev : ℕ → ℕ
  pub pid : ℕ → ℕ
  pub size : ℕ → ℕ
  pub rq_lock : ℕ → Lock
  pub ptable_lock : Lock
  pub bufsize : ℕ
  pub bufsize_lock : Lock
  pub cpu : Cpu

-- The loop of `enqueue` over the queue: it panics at a process with the new one's pid.
unfoldable pub scan : (ℕ → ℕ) → (ℕ → ℕ) → ℕ → ℕ → ℕ → ℕ → Outcome (Unit {0})
scan next pid zero h wanted elm = spins
scan next pid (suc fuel) h wanted elm =
    let rest = scan next pid fuel h wanted (next elm) in
    if elm == h then ok tt else if pid elm == wanted then panic "enqueue: push same pid" else rest

-- The five writes of `enqueue`.
unfoldable pub link_last : ℕ → ℕ → Kernel → Kernel
link_last i p k =
    let tail = k.prev (head i) in
    record k {
      size = update k.size i (k.size i + 1);
      prev = update (update k.prev p tail) (head i) p;
      next = update (update k.next p (head i)) tail p;
    }

-- A queue with more than `fuel` links makes the loop go on: `spins`.
unfoldable pub enqueue : ℕ → ℕ → ℕ → M Kernel (Unit {0})
unfolding scan link_last
enqueue fuel i p k =
    on_ok (scan k.next k.pid fuel (head i) (k.pid p) (k.next (head i)))
      λ _. ok (tt, link_last i p k)

-- The four writes that take the first process out.
unfoldable pub unlink_first : ℕ → Kernel → Kernel
unlink_first i k =
    let p = k.next (head i) in
    let after = update k.next (head i) (k.next p) in
    let before = update k.prev (after p) (head i) in
    record k { next = update after p 0; prev = update before p 0 }

module _ (me : ℕ) (pcs : List ℕ) where
  unfoldable pub acquire_ptable : M Kernel (Unit {0})
  acquire_ptable k =
      on_ok (acquire me pcs k.ptable_lock k.cpu)
        λ (l, c). ok (tt, record k { ptable_lock = l; cpu = c })

  unfoldable pub release_ptable : M Kernel (Unit {0})
  release_ptable k =
      on_ok (release me k.ptable_lock k.cpu)
        λ (l, c). ok (tt, record k { ptable_lock = l; cpu = c })

  unfoldable pub acquire_rq : ℕ → M Kernel (Unit {0})
  acquire_rq i k =
      on_ok (acquire me pcs (k.rq_lock i) k.cpu)
        λ (l, c). ok (tt, record k { rq_lock = update k.rq_lock i l; cpu = c })

  unfoldable pub release_rq : ℕ → M Kernel (Unit {0})
  release_rq i k =
      on_ok (release me (k.rq_lock i) k.cpu)
        λ (l, c). ok (tt, record k { rq_lock = update k.rq_lock i l; cpu = c })

  unfoldable pub dequeue : ℕ → M Kernel ℕ
  dequeue i = do
    k ← get
    if k.size i == 0 then fail "dequeue : empty runqueue" else do
      acquire_ptable
      modify (unlink_first i)
      release_ptable
      modify (λ k'. record k' { size = update k'.size i (k'.size i - 1) })
      pure (k.next (head i))

-- `head->pid = (-1) * (i + 1)`, as a 32-bit pattern.
abbrev pub head_pid : ℕ → ℕ
head_pid i = 2 ^ 32 - (i + 1)

module _ (me : ℕ) (pcs : List ℕ) where
  unfoldable pub init_queue : ℕ → M Kernel (Unit {0})
  init_queue i = do
    acquire_rq me pcs i
    acquire_ptable me pcs
    modify (λ k. record k {
      pid = update k.pid (head i) (head_pid i);
      next = update k.next (head i) (head i);
      prev = update k.prev (head i) (head i);
      size = update k.size i 0;
    })
    release_ptable me pcs
    release_rq me pcs i

  -- The rounds `i`, `i + 1`, … of the loop of `runqueueinit`, `n` of them.
  unfoldable pub init_queues : ℕ → ℕ → M Kernel (Unit {0})
  init_queues zero i = pure tt
  init_queues (suc n) i = do init_queue i; init_queues n (i + 1)

  unfoldable pub runqueueinit : ℕ → M Kernel (Unit {0})
  runqueueinit ncpu = do
    init_queues ncpu 0
    modify (λ k. record k { bufsize = 0; bufsize_lock = init_lock "bufsize" k.bufsize_lock.pcs })

-- `steal_target` with its index, and `max_rqsize`, after the rounds of the search from `i` on.
unfoldable pub seek : (ℕ → ℕ) → ℕ → ℕ → ℕ → Option ℕ → ℕ → Option ℕ
seek size cur zero i target most = target
seek size cur (suc n) i target most =
    let better = ltb most (size i) && not (i == cur) in
    seek size cur n (i + 1) (if better then some i else target) (if better then size i else most)

module _ (me : ℕ) (pcs : List ℕ) where
  -- What follows the search: one process goes from queue `t` to queue `cur`.
  unfoldable pub steal_from : ℕ → ℕ → ℕ → M Kernel (Unit {0})
  steal_from fuel cur t = do
    acquire_rq me pcs t
    k ← get
    (if k.size t == 0 then pure tt else do
      p ← dequeue me pcs t
      if p == 0
          then fail "test"
          else do acquire_ptable me pcs; enqueue fuel cur p; release_ptable me pcs)
    release_rq me pcs t

  abbrev pub steal_at : ℕ → ℕ → Option ℕ → M Kernel (Unit {0})
  steal_at fuel cur none = pure tt
  steal_at fuel cur (some t) =
      if t == 0 then pure tt else if t == cur then fail "steal itself" else steal_from fuel cur t

  unfoldable pub work_steal : ℕ → ℕ → ℕ → M Kernel (Unit {0})
  work_steal fuel ncpu cur = do k ← get; steal_at fuel cur (seek k.size cur ncpu 0 none 0)
