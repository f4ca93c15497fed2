-- ===== src/Proc/Pick.antt =====
-- The round of the scheduler of src/proc.c over the table.
-- No process from slot `i` up to slot `j` can run.
use mathlib.Core.Path.{subst}
use waka_b4_research.Schedlog.{runnable, running}
use waka_b4_research.Proc.{Proc, Kernel, is, ptr, Machine, event, stamp}
use waka_b4_research.Proc.Table.{load_lem, store_lem}
use waka_b4_research.Proc.Run.{dispatch, scan_from}
use waka_b4_research.Proc.Orphans.{some_of_lt}
use waka_b4_research.Base.{
  ℕ, zero, suc, ◌+◌, ◌≤◌, ◌<◌, ◌≡◌, refl, inl, inr, Bool, true, false, Option, none, some, List,
  arith, ℕ_discrete, ◌==◌, if◌then◌else◌, Bool-cases, length, get_elem?, set, Returns, Returns-map,
  Returns-and_then, ok, pure,
}

abbrev pub NoneRunnable : List Proc → ℕ → ℕ → Type 0
NoneRunnable ps i j =
    (a : ℕ) (p : Proc) → i ≤ a → a < j → get_elem? ps a ≡ some p → is p.state runnable ≡ false

-- A switch to the process in slot `a`, the first from `i` up to `j` that can run.
pub record Picked (k : Kernel) (i j a : ℕ) (k' : Kernel) : Type 0 where
  pub p : Proc
  pub here : get_elem? k.procs a ≡ some p
  pub can_run : is p.state runnable ≡ true
  pub inside : (i ≤ a) × (a < j)
  pub none_before : NoneRunnable k.procs i a
  pub current : k'.current ≡ ptr a
  pub procs : k'.procs ≡ set k.procs a (record p { state = running })

-- What the round did.
abbrev pub PickSpec : Kernel → ℕ → ℕ → Option ℕ → Kernel → Type 0
PickSpec k i j none k' = (k' ≡ k) × NoneRunnable k.procs i j
PickSpec k i j (some a) k' = Picked k i j a k'

module _ (m : Machine) where
  dispatch_other :
      (i : ℕ) (k : Kernel) (p : Proc)
      → get_elem? k.procs i ≡ some p
      → is p.state runnable ≡ false
      → dispatch m i k ≡ ok (false, k)
  unfolding dispatch
  dispatch_other i k p at idle = rw (load_lem i k p at, idle) refl

  dispatch_runnable :
      (i : ℕ) (k : Kernel) (p : Proc)
      → get_elem? k.procs i ≡ some p
      → is p.state runnable ≡ true
      → Returns
          (λ went k'.
            (went ≡ true)
            × (k'.current ≡ ptr i)
            × (k'.procs ≡ set k.procs i (record p { state = running })))
          (dispatch m i k)
  unfolding dispatch stamp event
  dispatch_runnable i k p at go =
      rw (load_lem i k p at, go)
        (elim (Bool-cases (k.isnot_first_running p.pid == 0)) [
          | inl new ↦ rw (new, store_lem i (record p { state = running })) (refl, refl, refl)
          | inr old ↦ rw (old, store_lem i (record p { state = running })) (refl, refl, refl)
        ])

  none_cons :
      (i j : ℕ) (ps : List Proc) (p : Proc)
      → get_elem? ps i ≡ some p
      → is p.state runnable ≡ false
      → NoneRunnable ps (i + 1) j
      → NoneRunnable ps i j
  none_cons i j ps p at idle more a q le below here = elim (ℕ_discrete a i) [
    | yes e ↦ ground (arith, e, at, here, idle)
    | no ne ↦ more a q (omega arith) below here
  ]

  pick_cons :
      (i j : ℕ) (k : Kernel) (p : Proc)
      → get_elem? k.procs i ≡ some p
      → is p.state runnable ≡ false
      → (a : Option ℕ) (k' : Kernel) → PickSpec k (i + 1) j a k'
      → PickSpec k i j a k'
  pick_cons i j k p at idle none k' (same, more) = (same, none_cons i j k.procs p at idle more)
  pick_cons i j k p at idle (some a) k' h = record {
    p = h.p;
    here = h.here;
    can_run = h.can_run;
    inside = (omega (arith, h.inside.0), h.inside.1);
    none_before = none_cons i a k.procs p at idle h.none_before;
    current = h.current;
    procs = h.procs;
  }

  pick_here :
      (i j n : ℕ) (k : Kernel) (p : Proc)
      → get_elem? k.procs i ≡ some p
      → is p.state runnable ≡ true
      → i < j
      → (went : Bool) (k' : Kernel)
      → (went ≡ true)
        × (k'.current ≡ ptr i)
        × (k'.procs ≡ set k.procs i (record p { state = running }))
      → Returns (PickSpec k i j) ((if went then pure (some i) else scan_from m n (i + 1)) k')
  pick_here i j n k p at can lt went k' (yes', cur, procs) = rw yes' (record {
    p = p;
    here = at;
    can_run = can;
    inside = (omega arith, lt);
    none_before = λ a q le below. absurd (omega arith);
    current = cur;
    procs = procs;
  })

  -- The round over `n` slots from slot `i` on, all of them in the table, returns. It switches to the
  -- first process there that can run, which becomes `current` and is running afterwards, while every
  -- other slot of the table stays; or, if none can run, it changes nothing.
  pub scan_from_lem :
      (n i : ℕ) (k : Kernel)
      → i + n ≤ length k.procs
      → Returns (PickSpec k i (i + n)) (scan_from m n i k)
  unfolding scan_from
  scan_from_lem zero i k h = (refl, λ a p le below. absurd (omega arith))
  scan_from_lem (suc n) i k h =
      let (p, at) = some_of_lt k.procs i (omega arith) in
      elim (Bool-cases (is p.state runnable)) [
        | inl can ↦
            Returns-and_then _ _ (dispatch m i k) _ (dispatch_runnable i k p at can)
              (pick_here i (i + suc n) n k p at can (omega arith))
        | inr idle ↦ rw (dispatch_other i k p at idle) (
            Returns-map _ _ (scan_from m n (i + 1) k)
              (subst (λ j. Returns (PickSpec k (i + 1) j) (scan_from m n (i + 1) k)) (omega arith)
                (scan_from_lem n (i + 1) k (omega arith)))
              (pick_cons i (i + suc n) k p at idle))
      ]
