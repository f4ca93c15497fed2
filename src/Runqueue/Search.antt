-- ===== src/Runqueue/Search.antt =====
-- The search of `work_steal` of src/proc.c for the longest queue, and the whole function.
use mathlib.Core.Path.{subst}
use waka_b4_research.Spinlock.Nesting.{IsMasked}
use waka_b4_research.Runqueue.{Kernel, head, seek, work_steal}
use waka_b4_research.Runqueue.Queue.{IsQueue}
use waka_b4_research.Runqueue.Steal.{stolen, steal_from-stolen, stolen-IsQueue}
use waka_b4_research.Base.{
  ℕ, zero, suc, ◌+◌, ◌≤◌, ◌<◌, ◌≡◌, refl, sym, ap, ◌≢◌, ◌⊎◌, inl, inr, false, ◌&&◌, not, Option,
  none, some, List, [], ◌∷◌, arith, ltb, ◌==◌, if◌then◌else◌, length, ok, NotIn,
}

module _ (size : ℕ → ℕ) (cur : ℕ) where
  -- What the search has found before round `i`: the first of the longest other queues.
  pub record Found (i most : ℕ) (target : Option ℕ) : Type 0 where
    pub bound : (j : ℕ) → j < i → j ≢ cur → size j ≤ most
    pub empty : target ≡ none → most ≡ 0
    pub best : (t : ℕ) → target ≡ some t → (t < i) × (t ≢ cur) × (size t ≡ most) × (0 < most)

  round_Found :
      (i most : ℕ) (target : Option ℕ)
      → Found i most target
      → let better = ltb most (size i) && not (i == cur) in
        Found (i + 1) (if better then size i else most) (if better then some i else target)
  round_Found i most target v = record {
    bound = λ j h n. ground (arith, v.bound j);
    empty = λ e. ground (arith, v.empty);
    best = λ t e. ground (arith, v.best t);
  }

  seek-Found :
      (n i most : ℕ) (target : Option ℕ)
      → Found i most target
      → (most' : ℕ) × Found (i + n) most' (seek size cur n i target most)
  unfolding seek
  seek-Found zero i most target v = let e : i ≡ i + 0 = omega arith in (most, rw (← e) v)
  seek-Found (suc n) i most target v =
      let e : i + 1 + n ≡ i + suc n = omega arith in
      rw (← e) (seek-Found n (i + 1) _ _ (round_Found i most target v))

  pub seek_lem : (n : ℕ) → (most : ℕ) × Found n most (seek size cur n 0 none 0)
  seek_lem n =
      let e : 0 + n ≡ n = omega arith in
      rw e at (
        seek-Found n 0 0 none
          (record { bound = λ j h ne. absurd (omega arith); empty = λ _. refl; best = λ t h. cc }))

-- Queue `t` is at least as long as each but `cur`.
abbrev pub IsLongest : Kernel → ℕ → ℕ → ℕ → Type 0
IsLongest k ncpu cur t = (j : ℕ) → j < ncpu → j ≢ cur → k.size j ≤ k.size t

-- The state in which `scheduler` calls `work_steal`: every queue is well formed, the caller's is
-- empty and its lock held, and the locks that the call takes are free.
pub record IsIdle (k : Kernel) (ncpu cur : ℕ) (queues : ℕ → List ℕ) : Type 0 where
  pub queue : (i : ℕ) → i < ncpu → IsQueue k i (queues i)
  pub no_head : (i : ℕ) → i < ncpu → NotIn (head cur) (queues i)
  pub here : cur < ncpu
  pub empty : queues cur ≡ []
  pub own_lock : (k.rq_lock cur).locked ≡ 1
  pub rq_free : (i : ℕ) → i ≢ cur → (k.rq_lock i).locked ≡ 0
  pub ptable_free : k.ptable_lock.locked ≡ 0
  pub masked : IsMasked k.cpu

module _ (me : ℕ) (pcs : List ℕ) (fuel ncpu cur : ℕ) (k : Kernel) (queues : ℕ → List ℕ) where
  -- The two outcomes of a search: nothing is taken, or a process goes from queue `t` to `cur`.
  pub record Untouched : Type 0 where
    pub run : work_steal me pcs fuel ncpu cur k ≡ ok (tt, k)
    pub reason : ((j : ℕ) → j < ncpu → j ≢ cur → k.size j ≡ 0) ⊎ IsLongest k ncpu cur 0

  pub record Stole (t x : ℕ) (xs : List ℕ) : Type 0 where
    pub from_longest : (t < ncpu) × (t ≢ cur) × (t ≢ 0) × IsLongest k ncpu cur t
    pub before : queues t ≡ x ∷ xs
    pub run : work_steal me pcs fuel ncpu cur k ≡ ok (tt, stolen me pcs cur t x k)
    pub left : IsQueue (stolen me pcs cur t x k) t xs
    pub got : IsQueue (stolen me pcs cur t x k) cur (x ∷ [])

  steal-Stole :
      (t x : ℕ) (xs : List ℕ)
      → 0 < fuel
      → IsIdle k ncpu cur queues
      → queues t ≡ x ∷ xs
      → (t < ncpu) × (t ≢ cur) × (t ≢ 0) × IsLongest k ncpu cur t
      → seek k.size cur ncpu 0 none 0 ≡ some t
      → Stole t x xs
  unfolding work_steal
  steal-Stole t x xs f v b from found = record {
    from_longest = from;
    before = b;
    run =
        let not_zero : (t == 0) ≡ false = ground (arith, from.2) in
        let not_self : (t == cur) ≡ false = ground (arith, from.1) in
        rw (found, not_zero, not_self)
          (steal_from-stolen me pcs cur t x k xs apart source target outside fuel f
            (v.rq_free t from.1) v.ptable_free v.masked);
    left = (stolen-IsQueue me pcs cur t x k xs apart source target outside).0;
    got = (stolen-IsQueue me pcs cur t x k xs apart source target outside).1;
  }
    where
      apart : cur ≢ t
      apart e = from.1 (sym e)

      source : IsQueue k t (x ∷ xs)
      source = subst (IsQueue k t) b (v.queue t from.0)

      target : IsQueue k cur []
      target = subst (IsQueue k cur) v.empty (v.queue cur v.here)

      outside : NotIn (head cur) (x ∷ xs)
      outside = subst (NotIn (head cur)) b (v.no_head t from.0)

  -- If every queue is well formed, the caller's is empty, its head is in no queue, its lock is held,
  -- the other locks are free and there is fuel, `work_steal` returns and does one of two things. If every other queue
  -- is empty, or queue 0 is as long as each other queue but the caller's, it may change nothing. Or
  -- it moves the first process of another queue, not queue 0, that is as long as each other queue,
  -- to the caller's, which then holds just that process; the locks are those after a critical
  -- section.
  pub work_steal_lem :
      0 < fuel
      → IsIdle k ncpu cur queues
      → Untouched ⊎ ((t : ℕ) × (x : ℕ) × (xs : List ℕ) × Stole t x xs)
  unfolding work_steal
  work_steal_lem f v = let (most, found) = seek_lem k.size cur ncpu in split most _ refl found
    where
      split :
          (most : ℕ) (target : Option ℕ)
          → seek k.size cur ncpu 0 none 0 ≡ target
          → Found k.size cur ncpu most target
          → Untouched ⊎ ((t : ℕ) × (x : ℕ) × (xs : List ℕ) × Stole t x xs)
      split most none e found = inl (record {
        run = rw e;
        reason = inl (λ j h n. omega (arith, found.bound j h n, found.empty refl));
      })
      split most (some zero) e found = inl (record {
        run = rw e;
        reason = inr (λ j h n. omega (arith, found.bound j h n, found.best 0 refl));
      })
      split most (some (suc t)) e found = pick (queues (suc t)) refl
        where
          best : (suc t < ncpu) × (suc t ≢ cur) × (k.size (suc t) ≡ most) × (0 < most)
          best = found.best (suc t) refl

          pick :
              (ys : List ℕ)
              → queues (suc t) ≡ ys
              → Untouched ⊎ ((t : ℕ) × (x : ℕ) × (xs : List ℕ) × Stole t x xs)
          pick [] p = absurd (omega (arith, best, (v.queue (suc t) best.0).size, ap length p))
          pick (x ∷ xs) p = inr (
            suc t,
            x,
            xs,
            steal-Stole (suc t) x xs f v p
                (best.0, best.1, omega arith, λ j h n. omega (arith, found.bound j h n, best)) e,
          )
