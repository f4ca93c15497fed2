-- ===== src/Runqueue/Tests.antt =====
-- Runs of the run queues of src/proc.c on a concrete memory: three queues, of which queue 1 holds the
-- processes 10 and 11, and queue 2 the process 12.
use waka_b4_research.Base.{
  ℕ, zero, suc, ◌≡◌, ◌⊎◌, ◌<◌, refl, arith, true, false, none, some, Returns, ◌≢◌, List, [], ◌∷◌,
  NotIn, Distinct-of_test, NotIn-of_has, ◌==◌, if◌then◌else◌,
}
use waka_b4_research.Spinlock.{Lock}
use waka_b4_research.Runqueue.{Kernel, head, dequeue}
use waka_b4_research.Runqueue.Queue.{IsQueue, Apart}
use waka_b4_research.Runqueue.Steal.{dequeue-IsQueue}
use waka_b4_research.Runqueue.Search.{IsIdle, Untouched, Stole, work_steal_lem}

abbrev a_lock : Lock
a_lock = record { locked = 0; name = "lock"; cpu = none; pcs = [] }

abbrev next_of : ℕ → ℕ
next_of a =
    if a == 1
    then 1
    else if a == 2
    then 10
    else if a == 10
    then 11
    else if a == 11
    then 2
    else if a == 3
    then 12
    else if a == 12
    then 3
    else if a == 4
    then 4
    else 0

abbrev prev_of : ℕ → ℕ
prev_of a =
    if a == 1
    then 1
    else if a == 2
    then 11
    else if a == 10
    then 2
    else if a == 11
    then 10
    else if a == 3
    then 12
    else if a == 12
    then 3
    else if a == 4
    then 4
    else 0

abbrev memory : Kernel
memory = record {
  next = next_of;
  prev = prev_of;
  pid = λ a. a;
  size = λ i. if i == 1 then 2 else if i == 2 then 1 else 0;
  rq_lock = λ i. if i == 3 then record a_lock { locked = 1; cpu = some 3 } else a_lock;
  ptable_lock = a_lock;
  bufsize = 0;
  bufsize_lock = a_lock;
  cpu = record { ncli = 1; intena = true; iflag = false };
}

abbrev queues : ℕ → List ℕ
queues zero = []
queues (suc zero) = 10 ∷ 11 ∷ []
queues (suc (suc zero)) = 12 ∷ []
queues (suc (suc (suc _))) = []

queue1 : IsQueue memory 1 (10 ∷ 11 ∷ [])
queue1 = record {
  links = (refl, refl, (refl, refl, (refl, refl)));
  distinct = Distinct-of_test (head 1 ∷ 10 ∷ 11 ∷ []) refl;
  nonnull = NotIn-of_has 0 (10 ∷ 11 ∷ []) refl;
  size = refl;
}

queue2 : IsQueue memory 2 (12 ∷ [])
queue2 = record {
  links = (refl, refl, (refl, refl));
  distinct = Distinct-of_test (head 2 ∷ 12 ∷ []) refl;
  nonnull = NotIn-of_has 0 (12 ∷ []) refl;
  size = refl;
}

empty-IsQueue :
    (i : ℕ)
    → next_of (head i) ≡ head i
    → prev_of (head i) ≡ head i
    → memory.size i ≡ 0
    → IsQueue memory i []
empty-IsQueue i n p z = record { links = (n, p); distinct = (tt, tt); nonnull = tt; size = z }

idle : IsIdle memory 4 3 queues
idle = record {
  queue = each;
  no_head = outside;
  here = omega arith;
  empty = refl;
  own_lock = refl;
  rq_free = λ i far. ground arith;
  ptable_free = refl;
  masked = record { off = λ h. refl };
}
  where
    each : (i : ℕ) → i < 4 → IsQueue memory i (queues i)
    each zero h = empty-IsQueue 0 refl refl refl
    each (suc zero) h = queue1
    each (suc (suc zero)) h = queue2
    each (suc (suc (suc zero))) h = empty-IsQueue 3 refl refl refl
    each (suc (suc (suc (suc i)))) h = absurd (omega arith)

    outside : (i : ℕ) → i < 4 → NotIn (head 3) (queues i)
    outside zero h = tt
    outside (suc zero) h = NotIn-of_has 4 (10 ∷ 11 ∷ []) refl
    outside (suc (suc zero)) h = NotIn-of_has 4 (12 ∷ []) refl
    outside (suc (suc (suc i))) h = tt

-- Processor 3 finds nothing to run, and the longest queue is that of processor 1.
work_steal_lem_example :
    Untouched 3 [] 9 4 3 memory queues
    ⊎ ((t : ℕ) × (x : ℕ) × (xs : List ℕ) × Stole 3 [] 9 4 3 memory queues t x xs)
work_steal_lem_example = work_steal_lem 3 [] 9 4 3 memory queues (omega arith) idle

dequeue-IsQueue_example :
    Returns
      (λ r k'.
        (r ≡ 10)
        × IsQueue k' 1 (11 ∷ [])
        × (k'.next 10 ≡ 0)
        × (k'.prev 10 ≡ 0)
        × (k'.ptable_lock.locked ≡ 0)
        × ((j : ℕ) (ys : List ℕ)
            → IsQueue memory j ys
            → 1 ≢ j
            → Apart (head 1 ∷ 10 ∷ 11 ∷ []) (head j ∷ ys)
            → IsQueue k' j ys))
      (dequeue 3 [] 1 memory)
dequeue-IsQueue_example =
    dequeue-IsQueue 3 [] memory 1 10 (11 ∷ []) queue1 refl (record { off = λ h. refl })
