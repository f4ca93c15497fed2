-- ===== src/Runqueue/Steal.antt =====
-- `dequeue` and `work_steal` of src/proc.c with their locks.
use waka_b4_research.Base.{
  ℕ, ◌<◌, ◌≡◌, refl, sym, ap, ◌∙◌, ◌≢◌, false, List, [], ◌∷◌, arith, ◌==◌, ok, Returns, update,
  update_self, NotIn,
}
use waka_b4_research.Spinlock.{Cpu, Lock, pushcli}
use waka_b4_research.Spinlock.Nesting.{IsMasked, restored, restored_of_nested, pushcli-IsMasked}
use waka_b4_research.Spinlock.Section.{taken, given_back, acquire-free, release-taken}
use waka_b4_research.Runqueue.{
  Kernel, head, link_last, enqueue, unlink_first, dequeue, acquire_ptable, release_ptable,
  acquire_rq, release_rq, steal_from,
}
use waka_b4_research.Runqueue.Queue.{
  IsQueue, dequeued, next-head, dequeued-IsQueue, dequeued-frame, enqueue_lem, link_last-IsQueue,
  Apart, link_last-frame,
}

Apart-one : (b : ℕ) (xs : List ℕ) → NotIn b xs → Apart xs (b ∷ [])
Apart-one b [] n = tt
Apart-one b (x ∷ xs) n = ((λ e. n.0 (sym e), tt), Apart-one b xs n.1)

-- The lock after one critical section of `me`, and the kernel after one of the process table.
abbrev pub cycled : ℕ → List ℕ → Lock → Lock
cycled me pcs l = given_back (taken me pcs l)

module _ (me : ℕ) (pcs : List ℕ) where
  abbrev pub in_ptable : Kernel → Kernel
  in_ptable k = record k { ptable_lock = taken me pcs k.ptable_lock; cpu = pushcli k.cpu }

  abbrev pub past_ptable : Kernel → Kernel
  past_ptable k = record k { ptable_lock = cycled me pcs k.ptable_lock; cpu = restored k.cpu }

  pub acquire_ptable-free :
      (k : Kernel) → k.ptable_lock.locked ≡ 0 → acquire_ptable me pcs k ≡ ok (tt, in_ptable k)
  unfolding acquire_ptable
  acquire_ptable-free k free = rw (acquire-free me pcs k.ptable_lock k.cpu free)

  pub release_ptable-taken :
      (k : Kernel) → IsMasked k.cpu → release_ptable me pcs (in_ptable k) ≡ ok (tt, past_ptable k)
  unfolding release_ptable
  release_ptable-taken k v = rw (release-taken me pcs k.ptable_lock k.cpu v)

  pub dequeue_lem :
      (k : Kernel) (i x : ℕ) (xs : List ℕ)
      → IsQueue k i (x ∷ xs)
      → k.ptable_lock.locked ≡ 0
      → IsMasked k.cpu
      → dequeue me pcs i k ≡ ok (x, past_ptable (dequeued i k))
  unfolding dequeue unlink_first release_ptable
  dequeue_lem k i x xs q free v =
      let some_left : (k.size i == 0) ≡ false = ground (arith, q.size) in
      rw (
        some_left,
        acquire_ptable-free k free,
        next-head q,
        release-taken me pcs k.ptable_lock k.cpu v,
      )

module _ (me : ℕ) (pcs : List ℕ) where
  IsQueue-past_ptable :
      {k : Kernel} {i : ℕ} {ys : List ℕ} → IsQueue k i ys → IsQueue (past_ptable me pcs k) i ys
  IsQueue-past_ptable v = record {
    links = v.links;
    distinct = v.distinct;
    nonnull = v.nonnull;
    size = v.size;
  }

  -- On a well formed queue that is not empty, with the lock of the process table free and interrupts
  -- masked if they are counted as such, `dequeue` returns the first process of the queue. The queue is
  -- then the rest and well formed, the links of the process are null, the lock is free again, and every
  -- other well formed queue that shares no process and no head with this one stays as it is.
  pub dequeue-IsQueue :
      (k : Kernel) (i x : ℕ) (xs : List ℕ)
      → IsQueue k i (x ∷ xs)
      → k.ptable_lock.locked ≡ 0
      → IsMasked k.cpu
      → Returns
          (λ r k'.
            (r ≡ x)
            × IsQueue k' i xs
            × (k'.next x ≡ 0)
            × (k'.prev x ≡ 0)
            × (k'.ptable_lock.locked ≡ 0)
            × ((j : ℕ) (ys : List ℕ)
                → IsQueue k j ys
                → i ≢ j
                → Apart (head i ∷ x ∷ xs) (head j ∷ ys)
                → IsQueue k' j ys))
          (dequeue me pcs i k)
  dequeue-IsQueue k i x xs q free v =
      let (rest, next, prev) = dequeued-IsQueue q in
      rw (dequeue_lem me pcs k i x xs q free v) (
        refl,
        IsQueue-past_ptable rest,
        next,
        prev,
        refl,
        λ j ys r far apart. IsQueue-past_ptable (dequeued-frame q r far apart),
      )

module _ (me : ℕ) (pcs : List ℕ) where
  abbrev pub in_rq : ℕ → Kernel → Kernel
  in_rq t k = record k {
    rq_lock = update k.rq_lock t (taken me pcs (k.rq_lock t));
    cpu = pushcli k.cpu;
  }

  pub acquire_rq-free :
      (k : Kernel) (t : ℕ) → (k.rq_lock t).locked ≡ 0 → acquire_rq me pcs t k ≡ ok (tt, in_rq t k)
  unfolding acquire_rq
  acquire_rq-free k t free = rw (acquire-free me pcs (k.rq_lock t) k.cpu free)

  pub release_rq-taken :
      (k : Kernel) (t : ℕ) (l : Lock) (c : Cpu)
      → k.rq_lock t ≡ taken me pcs l
      → k.cpu ≡ pushcli c
      → IsMasked c
      → release_rq me pcs t k
        ≡ ok (tt, record k { rq_lock = update k.rq_lock t (cycled me pcs l); cpu = restored c })
  unfolding release_rq
  release_rq-taken k t l c el ec v = rw (el, ec, release-taken me pcs l c v)

  -- The kernel at each point of a steal of process `x` from queue `t` for queue `cur`.
  module _ (cur t x : ℕ) (k : Kernel) where
    abbrev popped : Kernel
    popped = past_ptable me pcs (dequeued t (in_rq t k))

    abbrev pushed : Kernel
    pushed = past_ptable me pcs (link_last cur x popped)

    -- What a steal leaves: the locks are free again.
    abbrev pub stolen : Kernel
    stolen = record pushed {
      rq_lock = update pushed.rq_lock t (cycled me pcs (k.rq_lock t));
      cpu = restored k.cpu;
    }

    module _ (xs : List ℕ) (ne : cur ≢ t) (q : IsQueue k t (x ∷ xs)) (e : IsQueue k cur [])
        (xc : NotIn (head cur) (x ∷ xs)) where
      IsQueue-in_rq : {i : ℕ} {ys : List ℕ} → IsQueue k i ys → IsQueue (in_rq t k) i ys
      IsQueue-in_rq v = record {
        links = v.links;
        distinct = v.distinct;
        nonnull = v.nonnull;
        size = v.size;
      }

      left-IsQueue : IsQueue popped t xs
      left-IsQueue = record {
        links = v.links;
        distinct = v.distinct;
        nonnull = v.nonnull;
        size = v.size;
      }
        where
          v : IsQueue (dequeued t (in_rq t k)) t xs
          v = (dequeued-IsQueue (IsQueue-in_rq q)).0

      empty-IsQueue : IsQueue popped cur []
      empty-IsQueue = record {
        links = v.links;
        distinct = v.distinct;
        nonnull = v.nonnull;
        size = v.size;
      }
        where
          v : IsQueue (dequeued t (in_rq t k)) cur []
          v =
              dequeued-frame (IsQueue-in_rq q) (IsQueue-in_rq e) (λ z. ne (sym z))
                (ground (arith), Apart-one (head cur) (x ∷ xs) xc)

      pub stolen-IsQueue : IsQueue stolen t xs × IsQueue stolen cur (x ∷ [])
      stolen-IsQueue = (
        record { links = v.links; distinct = v.distinct; nonnull = v.nonnull; size = v.size },
        record { links = w.links; distinct = w.distinct; nonnull = w.nonnull; size = w.size },
      )
        where
          v : IsQueue (link_last cur x popped) t xs
          v =
              link_last-frame x empty-IsQueue left-IsQueue ne ((ground arith, xc.1), tt)
                ((ground arith, q.distinct.1.0))

          w : IsQueue (link_last cur x popped) cur (x ∷ [])
          w = link_last-IsQueue empty-IsQueue x (ground arith, tt) (ground arith)

      IsMasked-pushed : IsMasked (link_last cur x popped).cpu
      unfolding link_last unlink_first pushcli
      IsMasked-pushed = record { off = λ h. ground arith }

      enqueue-popped :
          (fuel : ℕ)
          → 0 < fuel
          → enqueue fuel cur x (in_ptable me pcs popped)
            ≡ ok (tt, in_ptable me pcs (link_last cur x popped))
      unfolding link_last
      enqueue-popped fuel f = enqueue_lem empty x fuel f
        where
          empty : IsQueue (in_ptable me pcs popped) cur []
          empty = record {
            links = empty-IsQueue.links;
            distinct = empty-IsQueue.distinct;
            nonnull = empty-IsQueue.nonnull;
            size = empty-IsQueue.size;
          }

      release_pushed : IsMasked k.cpu → release_rq me pcs t pushed ≡ ok (tt, stolen)
      unfolding link_last unlink_first
      release_pushed v =
          release_rq-taken pushed t (k.rq_lock t) k.cpu
            (update_self k.rq_lock t (taken me pcs (k.rq_lock t)))
            (ap restored (restored_of_nested k.cpu) ∙ restored_of_nested k.cpu) v

      pub steal_from-stolen :
          (fuel : ℕ)
          → 0 < fuel
          → (k.rq_lock t).locked ≡ 0
          → k.ptable_lock.locked ≡ 0
          → IsMasked k.cpu
          → steal_from me pcs fuel cur t k ≡ ok (tt, stolen)
      unfolding steal_from
      steal_from-stolen fuel f free pfree v =
          rw
            (
              acquire_rq-free k t free,
              some_left,
              dequeue_lem me pcs (in_rq t k) t x xs (IsQueue-in_rq q) pfree
                  (pushcli-IsMasked k.cpu),
              nonnull,
              acquire_ptable-free me pcs popped refl,
              enqueue-popped fuel f,
              release_ptable-taken me pcs (link_last cur x popped) IsMasked-pushed,
            )
            (release_pushed v)
        where
          some_left : (k.size t == 0) ≡ false
          some_left = ground (arith, q.size)

          nonnull : (x == 0) ≡ false
          nonnull = ground (arith, q.nonnull.0)
