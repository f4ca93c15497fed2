-- ===== src/Proc/Wait.antt =====
-- `wait` of src/proc.c: which child it reaps, when it gives up, and when it sleeps.
use mathlib.Core.Path.{subst}
use waka_b4_research.Spinlock.{pushcli}
use waka_b4_research.Spinlock.Nesting.{restored}
use waka_b4_research.Schedlog.{Event, unused, zombie, acquired, released, writelog}
use waka_b4_research.Proc.{
  Proc, Kernel, kfree, freevm, ptr, Machine, release_ptable, lock_event, event, is,
}
use waka_b4_research.Proc.Table.{
  is-zombie, lock_event_lem, myproc_lem, in_ptable, past_ptable, acquire_ptable-free,
  release_ptable-taken, IsReady, load_lem, store_lem, restored-IsMasked,
}
use waka_b4_research.Proc.Sched.{IsSwitching, asleep_kernel, sleep-table}
use waka_b4_research.Proc.Exit.{
  WaitStep, reaped, failed, slept, is_child, is_dead_child, havekids, freed, reap, wait_at,
  wait_pass, wait,
}
use waka_b4_research.Proc.Handoff.{IsAsleep, held_by-taken}
use waka_b4_research.Base.{
  ℕ, suc, ◌≡◌, refl, sym, ap, ◌≢◌, ◌⊎◌, inl, inr, true, false, none, some, List, [], ◌∷◌, arith,
  ◌==◌, Bool-cases, get_elem?, set, set-set, Returns, ok, pure, ◌>>◌, find_index, IsFirst, NonePass,
  IsFirstThat, NoneHave, IsFirst-IsFirstThat, NonePass-NoneHave, find_index-cases, NonePass-cons,
}

-- Some process has the parent `cur`, or none has.
pub havekids_lem :
    (cur : ℕ) (ps : List Proc)
    → ((havekids cur ps ≡ true)
        × ((i : ℕ) × (p : Proc) × (get_elem? ps i ≡ some p) × (p.parent ≡ cur)))
      ⊎ ((havekids cur ps ≡ false) × NonePass (is_child cur) ps)
unfolding havekids
havekids_lem cur [] = inr (refl, λ j y h. cc)
havekids_lem cur (p ∷ ps) = elim (Bool-cases (is_child cur p)) [
  | inl mine ↦ inl (rw mine, (0, p, refl, ground arith))
  | inr other' ↦ elim (havekids_lem cur ps) [
    | inl (e, (i, q, at, parent)) ↦ inl (rw (other', e), (suc i, q, at, parent))
    | inr (e, none') ↦ inr (rw (other', e), NonePass-cons (is_child cur) p ps other' none')
  ]
]

-- Process `q` is a child of the process at `cur`, and one that is a zombie.
abbrev pub IsChild : ℕ → Proc → Type 0
IsChild cur q = q.parent ≡ cur

abbrev pub IsDeadChild : ℕ → Proc → Type 0
IsDeadChild cur q = IsChild cur q × (q.state ≡ zombie)

is_child-true : (cur : ℕ) (q : Proc) → is_child cur q ≡ true → IsChild cur q
is_child-true cur q e = ground arith

is_child-false : (cur : ℕ) (q : Proc) → is_child cur q ≡ false → ¬ IsChild cur q
is_child-false cur q e = ground arith

is_dead_child-true : (cur : ℕ) (q : Proc) → is_dead_child cur q ≡ true → IsDeadChild cur q
is_dead_child-true cur q e = (ground arith, is-zombie q.state (ground arith))

is_dead_child-false : (cur : ℕ) (q : Proc) → is_dead_child cur q ≡ false → ¬ IsDeadChild cur q
is_dead_child-false cur q e (mine, dead) =
    let h : is q.state zombie ≡ true = rw dead in ground arith

-- Process `q` becomes `q'`, an unused slot: its pid, parent, stack and flag `killed` are 0 and its
-- name is empty, the other bytes of the name and all else are the same.
pub record IsReaped (q q' : Proc) : Type 0 where
  pub state : q'.state ≡ unused
  pub pid : q'.pid ≡ 0
  pub parent : q'.parent ≡ 0
  pub kstack : q'.kstack ≡ 0
  pub killed : q'.killed ≡ 0
  pub name : (b : ℕ) (s : List ℕ) → q.name ≡ b ∷ s → q'.name ≡ 0 ∷ s
  pub rest :
      q' ≡ record q { kstack = 0; pid = 0; parent = 0; name = q'.name; killed = 0; state = unused }

freed-IsReaped : (q : Proc) → IsReaped q (freed q)
freed-IsReaped q = record {
  state = refl;
  pid = refl;
  parent = refl;
  kstack = refl;
  killed = refl;
  name = λ b s e. rw e;
  rest = refl;
}

-- How `wait` may end for process `p` in slot `c`.
abbrev pub WaitSpec : Machine → ℕ → Proc → Kernel → WaitStep → Kernel → Type 0
WaitSpec m c p k (reaped pid) k' =
    (i : ℕ) × (q : Proc) × (q' : Proc) × IsFirstThat (IsDeadChild (ptr c)) k.procs i q
    × (pid ≡ q.pid)
    × IsReaped q q'
    × (k'.procs ≡ set k.procs i q')
    × (k'.calls ≡ freevm q.pgdir ∷ kfree q.kstack ∷ k.calls)
    × IsReady k'
WaitSpec m c p k failed k' =
    NoneHave (IsDeadChild (ptr c)) k.procs
    × (NoneHave (IsChild (ptr c)) k.procs ⊎ (p.killed ≢ 0))
    × (k'.procs ≡ k.procs)
    × IsReady k'
WaitSpec m c p k (slept _) k' =
    NoneHave (IsDeadChild (ptr c)) k.procs
    × ((i : ℕ) × (q : Proc) × (get_elem? k.procs i ≡ some q) × (q.parent ≡ ptr c))
    × (p.killed ≡ 0)
    × IsAsleep m c (ptr c) p k k'

module _ (m : Machine) (k : Kernel) (c : ℕ) (p : Proc) (v : IsReady k) (zero_deep : k.cpu.ncli ≡ 0)
    (current : k.current ≡ ptr c) (slot : get_elem? k.procs c ≡ some p) where
  unmasked : Kernel
  unmasked = record k { cpu = restored k.cpu }

  wait_enters : wait m k ≡ wait_pass m (ptr c) (in_ptable m unmasked)
  unfolding wait unmasked
  wait_enters =
      rw
        (
          myproc_lem k v.masked,
          lock_event_lem m released acquired unmasked,
          acquire_ptable-free m unmasked v.free,
        )
        (ap (λ (cur : ℕ). wait_pass m cur (in_ptable m unmasked)) current)

  -- The process as `sched` finds it.
  unmasked-IsSwitching : IsSwitching m (in_ptable m unmasked) c p
  unfolding unmasked pushcli
  unmasked-IsSwitching = record {
    current = current;
    slot = slot;
    held = held_by-taken m.me m.pcs k.ptable_lock;
    depth = ground (arith, zero_deep);
    off = refl;
  }

  reap_lem :
      (i : ℕ) (q : Proc)
      → get_elem? k.procs i ≡ some q
      → (k' : Kernel) × (reap m i (in_ptable m unmasked) ≡ ok (reaped q.pid, k'))
        × (k'.procs ≡ set k.procs i (freed q))
        × (k'.calls ≡ freevm q.pgdir ∷ kfree q.kstack ∷ k.calls)
        × IsReady k'
  unfolding reap unmasked event
  reap_lem i q at = (
    past_ptable m dead,
    run,
    refl,
    refl,
    record {
      free = refl;
      masked = restored-IsMasked (restored k.cpu) (restored-IsMasked k.cpu v.masked);
    },
  )
    where
      logged : Kernel
      logged = record (unmasked) {
        log = writelog m.tsc m.me q.pid q.name Event.wait q.state unused k.log;
        calls = freevm q.pgdir ∷ kfree q.kstack ∷ k.calls;
      }

      dead : Kernel
      dead = record logged { procs = set k.procs i (freed q) }

      run : reap m i (in_ptable m unmasked) ≡ ok (reaped q.pid, past_ptable m dead)
      run = rw (
        load_lem i (in_ptable m unmasked) q at,
        lock_event_lem m acquired released (in_ptable m logged),
        store_lem i (freed q) (in_ptable m logged),
        release_ptable-taken m dead (restored-IsMasked k.cpu v.masked),
      )

  -- What follows the pass in which no child is dead.
  wait_none :
      NonePass (is_dead_child (ptr c)) k.procs
      → Returns
          (WaitSpec m c p k)
          (wait_at m (ptr c) p.killed (havekids (ptr c) k.procs) none (in_ptable m unmasked))
  unfolding unmasked asleep_kernel
  wait_none alive = elim (havekids_lem (ptr c) k.procs) [
    | inr (e, childless) ↦
        rw (e, give_up)
          (
            NonePass-NoneHave _ _ (is_dead_child-true (ptr c)) (is_dead_child-false (ptr c)) k.procs
                alive,
            inl (
                NonePass-NoneHave _ _ (is_child-true (ptr c)) (is_child-false (ptr c)) k.procs
                  childless),
            refl,
            ready,
          )
    | inl (e, child) ↦ elim (Bool-cases (p.killed == 0)) [
      | inr dead ↦
          rw (e, dead, give_up)
            (
              NonePass-NoneHave _ _ (is_dead_child-true (ptr c)) (is_dead_child-false (ptr c))
                  k.procs alive,
              inr (ground arith),
              refl,
              ready,
            )
      | inl live ↦
          rw (e, live, sleep-table m (in_ptable m unmasked) c p (ptr c) unmasked-IsSwitching)
            (
              NonePass-NoneHave _ _ (is_dead_child-true (ptr c)) (is_dead_child-false (ptr c))
                  k.procs alive,
              child,
              ground arith,
              record {
                procs = set-set k.procs c _ _;
                held = held_by-taken m.me m.pcs k.ptable_lock;
              },
            )
    ]
  ]
    where
      ready : IsReady (past_ptable m unmasked)
      ready = record {
        free = refl;
        masked = restored-IsMasked (restored k.cpu) (restored-IsMasked k.cpu v.masked);
      }

      give_up :
          (do lock_event m acquired released; release_ptable m; pure failed) (in_ptable m unmasked)
          ≡ ok (failed, past_ptable m unmasked)
      give_up = rw (
        lock_event_lem m acquired released (in_ptable m unmasked),
        release_ptable-taken m unmasked (restored-IsMasked k.cpu v.masked),
      )

  -- `wait` of process `p` in slot `c`, the current one, called with no lock held by this processor
  -- and the lock of the table free, returns or goes to sleep. If a child is a zombie, the first
  -- such child is reaped: its pid is returned, its stack and page table are freed, its slot is
  -- unused with pid, parent, stack, flag `killed` and first byte of the name 0 and the rest as it
  -- was, and no other slot changes. If none is, `wait` returns -1 when `p` has no child or is
  -- killed, and otherwise goes to sleep on `p` itself. In the first two cases the lock of the table
  -- is free again; in the third it is held for the switch.
  pub wait_lem : Returns (WaitSpec m c p k) (wait m k)
  unfolding wait_pass unmasked
  wait_lem = subst (Returns (WaitSpec m c p k)) (sym wait_enters) (
      rw (load_lem c (in_ptable m unmasked) p slot)
        (pass (find_index-cases (is_dead_child (ptr c)) k.procs)))
    where
      pass :
          ((find_index (is_dead_child (ptr c)) k.procs ≡ none)
              × NonePass (is_dead_child (ptr c)) k.procs)
            ⊎ ((i : ℕ) × (q : Proc) × (find_index (is_dead_child (ptr c)) k.procs ≡ some i)
                × IsFirst (is_dead_child (ptr c)) k.procs i q)
          → Returns (WaitSpec m c p k) (
              wait_at m
                (ptr c)
                p.killed
                (havekids (ptr c) k.procs)
                (find_index (is_dead_child (ptr c)) k.procs)
                (in_ptable m unmasked))
      pass (inl (e, alive)) = rw e (wait_none alive)
      pass (inr (i, q, e, f)) =
          let (k', run, procs, calls, ready) = reap_lem i q f.at in
          rw (e, run)
            (
              i,
              q,
              freed q,
              IsFirst-IsFirstThat _ _ (is_dead_child-true (ptr c)) (is_dead_child-false (ptr c)) f,
              refl,
              freed-IsReaped q,
              procs,
              calls,
              ready,
            )
