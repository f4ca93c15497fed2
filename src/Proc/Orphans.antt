-- ===== src/Proc/Orphans.antt =====
-- The loop of `exit` in src/proc.c that passes the children of the process to init.
use mathlib.Core.Path.{subst}
use waka_b4_research.Schedlog.{zombie}
use waka_b4_research.Proc.{Proc, Kernel, is, Machine, woken}
use waka_b4_research.Proc.Table.{load_lem, store_lem}
use waka_b4_research.Proc.Exit.{is_child, adopt, adopt_all}
use waka_b4_research.Proc.Wakeup.{wakeup1_lem}
use waka_b4_research.Base.{
  ℕ, zero, suc, ◌+◌, ◌≤◌, ◌<◌, ◌≡◌, refl, ◌∙◌, ◌≢◌, ◌⊎◌, inl, inr, true, false, ◌&&◌, some, List,
  [], ◌∷◌, map, arith, ltb, leb, ◌==◌, if◌then◌else◌, Bool-cases, length, get_elem?, set,
  length-set, length-map, Returns, Returns-map, Returns-and_then,
}

-- The parent of the process in slot `i`; 0 behind the table.
unfoldable pub parent_at : List Proc → ℕ → ℕ
parent_at [] i = 0
parent_at (p ∷ ps) zero = p.parent
parent_at (p ∷ ps) (suc i) = parent_at ps i

parent_at-woken :
    (m : Machine) (chan : ℕ) (ps : List Proc) (i : ℕ)
    → parent_at (map (woken m chan) ps) i ≡ parent_at ps i
unfolding parent_at
parent_at-woken m chan [] i = refl
parent_at-woken m chan (p ∷ ps) zero = ground arith
parent_at-woken m chan (p ∷ ps) (suc i) = parent_at-woken m chan ps i

parent_at-set :
    (ps : List Proc) (i j : ℕ) (p : Proc)
    → i < length ps
    → parent_at (set ps i p) j ≡ (if j == i then p.parent else parent_at ps j)
unfolding parent_at
parent_at-set [] i j p h = absurd (omega arith)
parent_at-set (q ∷ ps) zero zero p h = refl
parent_at-set (q ∷ ps) zero (suc j) p h = ground arith
parent_at-set (q ∷ ps) (suc i) zero p h = ground arith
parent_at-set (q ∷ ps) (suc i) (suc j) p h = ground (arith, parent_at-set ps i j p)

parent_at-get :
    (ps : List Proc) (i : ℕ) (p : Proc) → get_elem? ps i ≡ some p → parent_at ps i ≡ p.parent
unfolding parent_at
parent_at-get [] i p h = cc
parent_at-get (q ∷ ps) zero p h = ground arith
parent_at-get (q ∷ ps) (suc i) p h = parent_at-get ps i p h

pub some_of_lt :
    {A : Type 0} (xs : List A) (i : ℕ) → i < length xs → (x : A) × (get_elem? xs i ≡ some x)
some_of_lt [] i h = absurd (omega arith)
some_of_lt (x ∷ xs) zero h = (x, refl)
some_of_lt (x ∷ xs) (suc i) h = some_of_lt xs i (omega arith)

-- What the rounds from `i` up to `j` change of the parents, and what they keep.
pub record Adopted (cur i j : ℕ) (k k' : Kernel) : Type 0 where
  pub parents :
      (a : ℕ)
      → parent_at k'.procs a ≡ (
          if leb i a && (ltb a j && (parent_at k.procs a == cur))
          then k.initproc
          else parent_at k.procs a)
  pub size : length k'.procs ≡ length k.procs
  pub initproc : k'.initproc ≡ k.initproc

module _ (m : Machine) (cur i : ℕ) (k : Kernel) (h : i < length k.procs) (p : Proc)
    (at : get_elem? k.procs i ≡ some p) where
  moved : List Proc
  moved = set k.procs i (record p { parent = k.initproc })

  adopt_none : is_child cur p ≡ false → Adopted cur i (i + 1) k k
  adopt_none other' = record {
    parents = λ a. ground (arith, parent_at-get k.procs i p at);
    size = refl;
    initproc = refl;
  }

  moved-parents :
      is_child cur p ≡ true
      → (a : ℕ)
      → parent_at moved a ≡ (
          if leb i a && (ltb a (i + 1) && (parent_at k.procs a == cur))
          then k.initproc
          else parent_at k.procs a)
  unfolding moved
  moved-parents mine a = ground (
    arith,
    parent_at-get k.procs i p at,
    parent_at-set k.procs i a (record p { parent = k.initproc }) h,
  )

  adopt_move :
      (k' : Kernel)
      → is_child cur p ≡ true
      → (k'.procs ≡ moved) ⊎ (k'.procs ≡ map (woken m k.initproc) moved)
      → k'.initproc ≡ k.initproc
      → Adopted cur i (i + 1) k k'
  unfolding moved
  adopt_move k' mine (inl same) init = record {
    parents = λ a. rw same (moved-parents mine a);
    size = rw same (length-set k.procs i _);
    initproc = init;
  }
  adopt_move k' mine (inr woke) init = record {
    parents = λ a. rw (woke, parent_at-woken m k.initproc moved a) (moved-parents mine a);
    size = rw (woke, length-map moved (woken m k.initproc)) (length-set k.procs i _);
    initproc = init;
  }

  adopt_here : Returns (λ _ k'. Adopted cur i (i + 1) k k') (adopt m cur i k)
  unfolding adopt moved
  adopt_here = rw (load_lem i k p at) (elim (Bool-cases (is_child cur p)) [
    | inr other' ↦ rw other' (adopt_none other')
    | inl mine ↦
        rw (mine, store_lem i (record p { parent = k.initproc }) k)
          (elim (Bool-cases (is p.state zombie)) [
            | inl dead ↦
                rw (dead, wakeup1_lem m k.initproc (record k { procs = moved }))
                  (adopt_move _ mine (inr refl) refl)
            | inr live ↦ rw live (adopt_move _ mine (inl refl) refl)
          ])
  ])

-- A round at `i`, then the rounds from `i + 1` up to `j`.
Adopted-trans :
    (cur i j : ℕ) (k k1 k2 : Kernel)
    → i < j
    → k.initproc ≢ cur
    → Adopted cur i (i + 1) k k1
    → Adopted cur (i + 1) j k1 k2
    → Adopted cur i j k k2
Adopted-trans cur i j k k1 k2 lt ne one more = record {
  parents = λ a. ground (arith, one.parents a, more.parents a, one.initproc);
  size = more.size ∙ one.size;
  initproc = more.initproc ∙ one.initproc;
}

module _ (m : Machine) (cur : ℕ) where
  Adopted-more :
      (n i : ℕ) (k k1 : Kernel)
      → k.initproc ≢ cur
      → Adopted cur i (i + 1) k k1
      → Returns (λ _ k2. Adopted cur (i + 1) (i + 1 + n) k1 k2) (adopt_all m cur n (i + 1) k1)
      → Returns (λ _ k2. Adopted cur i (i + suc n) k k2) (adopt_all m cur n (i + 1) k1)
  Adopted-more n i k k1 ne one h = Returns-map _ _ (adopt_all m cur n (i + 1) k1) h (λ _ k2 more.
      Adopted-trans cur i (i + suc n) k k1 k2 (omega arith) ne one
        (subst (λ j. Adopted cur (i + 1) j k1 k2) (omega arith) more))

  adopt_all_rounds :
      (n i : ℕ) (k : Kernel)
      → i + n ≤ length k.procs
      → k.initproc ≢ cur
      → Returns (λ _ k'. Adopted cur i (i + n) k k') (adopt_all m cur n i k)
  unfolding adopt_all
  adopt_all_rounds zero i k h ne = record {
    parents = λ a. ground arith;
    size = refl;
    initproc = refl;
  }
  adopt_all_rounds (suc n) i k h ne =
      let (p, at) = some_of_lt k.procs i (omega arith) in
      Returns-and_then (λ _ k1. Adopted cur i (i + 1) k k1) (λ _ k2. Adopted cur i (i + suc n) k k2)
        (adopt m cur i k) (λ _. adopt_all m cur n (i + 1)) (adopt_here m cur i k (omega arith) p at)
        (λ _ k1 one.
          Adopted-more n i k k1 ne one
            (adopt_all_rounds n (i + 1) k1 (ground (arith, one.size)) (rw one.initproc ne)))

  -- If init is another process than `cur`, the loop of `exit` over the table returns; each process
  -- whose parent was `cur` then has init as its parent, and each other process the parent it had.
  -- The size of the table and `initproc` stay.
  pub adopt_all_lem :
      (k : Kernel)
      → k.initproc ≢ cur
      → Returns (λ _ k'. Adopted cur 0 (length k.procs) k k') (adopt_all m cur (length k.procs) 0 k)
  adopt_all_lem k ne =
      let start : 0 + length k.procs ≡ length k.procs = omega arith in
      subst (λ n. Returns (λ _ k'. Adopted cur 0 n k k') (adopt_all m cur (length k.procs) 0 k))
        start (adopt_all_rounds (length k.procs) 0 k (omega arith) ne)
