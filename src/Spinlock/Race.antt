-- ===== src/Spinlock/Race.antt =====
-- `acquire` and `release` of src/spinlock.c run by many processors at once. A step is one access to
-- the lock's memory by one processor; what is between two accesses is that processor's place.
use waka_b4_research.Base.{
  Bool-cases, inl, inr, ℕ, ◌≡◌, ◌≢◌, Bool, true, false, none, List, arith, ◌==◌, if◌then◌else◌,
}
use waka_b4_research.Spinlock.{Lock, held_by, is_cpu, xchg, set_owner, clear_owner, store_zero}

-- Where a processor stands: outside; in the loop on xchg; past it with lk->cpu not yet written;
-- in the critical section; in release after lk->cpu is cleared.
pub data Place : Type 0 where
  outside spinning entered inside leaving : Place

pub record System : Type 0 where
  pub lock : Lock
  pub place : ℕ → Place

abbrev pub update : (ℕ → Place) → ℕ → Place → ℕ → Place
update f i p j = if i == j then p else f j

-- The place after the loop's test of the word that xchg returned.
abbrev pub after_xchg : ℕ → Place
after_xchg old = if old == 0 then entered else spinning

-- One access by processor `i`.
pub data Step (s : System) : System → Type 0 where
  start : (i : ℕ) → s.place i ≡ outside → Step s (record s { place = update s.place i spinning })
  swap :
      (i : ℕ)
      → s.place i ≡ spinning
      → Step s
          (record { lock = (xchg s.lock).1; place = update s.place i (after_xchg (xchg s.lock).0) })
  own :
      (i : ℕ) (pcs : List ℕ)
      → s.place i ≡ entered
      → Step s (record { lock = set_owner i pcs s.lock; place = update s.place i inside })
  disown :
      (i : ℕ)
      → s.place i ≡ inside
      → Step s (record { lock = clear_owner s.lock; place = update s.place i leaving })
  unlock :
      (i : ℕ)
      → s.place i ≡ leaving
      → Step s (record { lock = store_zero s.lock; place = update s.place i outside })

pub data Reach (l : Lock) : System → Type 0 where
  first : Reach l (record { lock = l; place = λ _. outside })
  later : {s t : System} → Reach l s → Step s t → Reach l t

abbrev pub has_lock : Place → Bool
has_lock outside = false
has_lock spinning = false
has_lock _ = true

abbrev pub is_inside : Place → Bool
is_inside inside = true
is_inside _ = false

pub record Inv (s : System) : Type 0 where
  pub unique : (i j : ℕ) → has_lock (s.place i) ≡ true → has_lock (s.place j) ≡ true → i ≡ j
  pub word : (i : ℕ) → has_lock (s.place i) ≡ true → s.lock.locked ≢ 0
  pub owner : (i : ℕ) → is_inside (s.place i) ≡ is_cpu s.lock.cpu i

Step-Inv : {s t : System} → Step s t → Inv s → Inv t
unfolding xchg
Step-Inv {s} (start i at) v = record {
  unique = λ a b p q. ground (arith, v.unique a b);
  word = λ a p. ground (arith, v.word a);
  owner = λ a. ground (arith, v.owner a);
}
Step-Inv {s} (swap i at) v = record {
  unique = λ a b p q. ground (arith, v.unique a b, v.word a, v.word b);
  word = λ a p. ground (arith, v.word a);
  owner = λ a. ground (arith, v.owner a);
}
Step-Inv {s} (own i pcs at) v = record {
  unique = λ a b p q. ground (arith, v.unique a b);
  word = λ a p. ground (arith, v.word a, v.word i);
  owner = λ a. ground (arith, v.owner a, v.unique a i);
}
Step-Inv {s} (disown i at) v = record {
  unique = λ a b p q. ground (arith, v.unique a b);
  word = λ a p. ground (arith, v.word a, v.word i);
  owner = λ a. ground (arith, v.owner a, v.unique a i);
}
Step-Inv {s} (unlock i at) v = record {
  unique = λ a b p q. ground (arith, v.unique a b);
  word = λ a p. ground (arith, v.unique a i);
  owner = λ a. ground (arith, v.owner a);
}

Reach-Inv : {l : Lock} {s : System} → l.locked ≡ 0 → l.cpu ≡ none → Reach l s → Inv s
Reach-Inv {l} free unowned first = record {
  unique = λ a b p q. ground arith;
  word = λ a p. ground arith;
  owner = λ a. ground arith;
}
Reach-Inv free unowned (later r st) = Step-Inv st (Reach-Inv free unowned r)

-- From a free lock that no processor owns, however the accesses of the processors interleave: while
-- a processor is between the xchg that returned 0 and the store of 0, no other processor is.
pub mutual_exclusion :
    {l : Lock} {s : System}
    → l.locked ≡ 0
    → l.cpu ≡ none
    → Reach l s
    → (i j : ℕ) → i ≢ j
    → has_lock (s.place i) ≡ true
    → has_lock (s.place j) ≡ false
mutual_exclusion {l} {s} free unowned r i j ne mine = elim (Bool-cases (has_lock (s.place j))) [
  | inl both ↦ absurd (ne ((Reach-Inv free unowned r).unique i j mine both))
  | inr e ↦ e
]

-- From a free lock that no processor owns, however the accesses interleave, the test of `holding`
-- is true on a processor just while that processor is in the critical section, though it reads the
-- lock without owning it.
pub held_by-inside :
    {l : Lock} {s : System}
    → l.locked ≡ 0
    → l.cpu ≡ none
    → Reach l s
    → (i : ℕ) → held_by s.lock i ≡ is_inside (s.place i)
held_by-inside {s} free unowned r i = ground (arith, inv.owner i, inv.word i)
  where
    inv : Inv s
    inv = Reach-Inv free unowned r
