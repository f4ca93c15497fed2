-- ===== src/Spinlock/Tests.antt =====
-- Runs of the locks of src/spinlock.c on concrete states.
use waka_b4_research.Base.{arith, false, ◌≡◌, refl, none, [], ◌∷◌}
use waka_b4_research.Spinlock.{Lock, xchg}
use waka_b4_research.Spinlock.Race.{
  System, Reach, first, later, start, swap, own, has_lock, mutual_exclusion,
}

abbrev free_lock : Lock
free_lock = record { locked = 0; name = "ptable"; cpu = none; pcs = 0 ∷ 0 ∷ [] }

-- Processor 3 takes the lock while processor 5 spins.
unfoldable contended : (s : System) × Reach free_lock s
unfolding xchg
contended = (
  _,
  later
      (later (later (later (later first (start 3 refl)) (start 5 refl)) (swap 3 refl))
        (swap 5 refl))
      (own 3 [] refl),
)

mutual_exclusion_example : has_lock (contended.0.place 5) ≡ false
unfolding xchg contended
mutual_exclusion_example = mutual_exclusion refl refl contended.1 3 5 (omega arith) refl
