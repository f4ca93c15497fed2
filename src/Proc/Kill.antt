-- ===== src/Proc/Kill.antt =====
-- `kill` of src/proc.c.
use waka_b4_research.Schedlog.{sleeping, runnable, acquired, released}
use waka_b4_research.Proc.{Proc, Kernel, Machine, is}
use waka_b4_research.Proc.Sleep.{kill, has_pid, slain}
use waka_b4_research.Proc.Table.{
  is-sleeping, lock_event_lem, in_ptable, past_ptable, acquire_ptable-free, release_ptable-taken,
  IsReady, load_lem, store_lem,
}
use waka_b4_research.Base.{
  ℕ, ◌≡◌, ◌≢◌, refl, ◌⊎◌, inl, inr, none, some, true, false, arith, get_elem?, set, ok, find_index,
  IsFirst, NonePass, IsFirstThat, NoneHave, IsFirst-IsFirstThat, NonePass-NoneHave, Bool-cases,
  Returns, find_index-cases, minus_one,
}

-- Process `p` has the pid.
abbrev pub Has : ℕ → Proc → Type 0
Has pid p = p.pid ≡ pid

-- Process `p` becomes `p'`: killed and no longer asleep, and the same in all else.
pub record IsSlain (p p' : Proc) : Type 0 where
  pub killed : p'.killed ≡ 1
  pub woken : p.state ≡ sleeping → p'.state ≡ runnable
  pub state_same : p.state ≢ sleeping → p'.state ≡ p.state
  pub rest : p' ≡ record p { killed = p'.killed; state = p'.state }

slain-IsSlain : (m : Machine) (p : Proc) → IsSlain p (slain m p)
slain-IsSlain m p = record {
  killed = refl;
  woken = λ e. rw e;
  state_same = λ ne. elim (Bool-cases (is p.state sleeping)) [
    | inl e ↦ absurd (ne (is-sleeping p.state e))
    | inr e ↦ rw e
  ];
  rest = refl;
}

module _ (m : Machine) (pid : ℕ) (k : Kernel) where
  pub kill-none :
      IsReady k
      → find_index (has_pid m pid) k.procs ≡ none
      → kill m pid k ≡ ok (minus_one, past_ptable m k)
  unfolding kill
  kill-none v e = rw (
    lock_event_lem m released acquired k,
    acquire_ptable-free m k v.free,
    e,
    lock_event_lem m acquired released (in_ptable m k),
    release_ptable-taken m k v.masked,
  )

  pub kill-some :
      (i : ℕ) (p : Proc)
      → IsReady k
      → find_index (has_pid m pid) k.procs ≡ some i
      → get_elem? k.procs i ≡ some p
      → kill m pid k ≡ ok (0, past_ptable m (record k { procs = set k.procs i (slain m p) }))
  unfolding kill
  kill-some i p v e at = rw (
    lock_event_lem m released acquired k,
    acquire_ptable-free m k v.free,
    e,
    load_lem i (in_ptable m k) p at,
    store_lem i (slain m p) (in_ptable m k),
    lock_event_lem m acquired released (in_ptable m killed),
    release_ptable-taken m killed v.masked,
  )
    where
      killed : Kernel
      killed = record k { procs = set k.procs i (slain m p) }

  pub kill-cases :
      IsReady k
      → ((kill m pid k ≡ ok (minus_one, past_ptable m k)) × NonePass (has_pid m pid) k.procs)
        ⊎ ((i : ℕ) × (p : Proc) × IsFirst (has_pid m pid) k.procs i p
            × (kill m pid k
                ≡ ok (0, past_ptable m (record k { procs = set k.procs i (slain m p) }))))
  kill-cases v = elim (find_index-cases (has_pid m pid) k.procs) [
    | inl (e, absent) ↦ inl (kill-none v e, absent)
    | inr (i, p, e, f) ↦ inr (i, p, f, kill-some i p v e f.at)
  ]

  -- How `kill` ends: with the value that it returns and the state after it.
  abbrev pub KillEnds : ℕ → Kernel → Type 0
  KillEnds r k' =
      ((r ≡ minus_one) × NoneHave (Has pid) k.procs × (k' ≡ past_ptable m k))
      ⊎ ((r ≡ 0)
          × ((i : ℕ) × (p : Proc) × (p' : Proc) × IsFirstThat (Has pid) k.procs i p
              × IsSlain p p'
              × (k' ≡ past_ptable m (record k { procs = set k.procs i p' }))))

  -- From a state with the lock of the table free, `kill` returns -1 and changes no process if none
  -- has the pid; otherwise it returns 0, and just the first process with the pid is marked as
  -- killed and, if it slept, made runnable; nothing else of it changes. The lock is free again.
  pub kill_lem : IsReady k → Returns KillEnds (kill m pid k)
  kill_lem v = elim (kill-cases v) [
    | inl (run, absent) ↦ rw run (
        inl (
          refl,
          NonePass-NoneHave (Has pid) (has_pid m pid) has_pid-true has_pid-false k.procs absent,
          refl,
        ))
    | inr (i, p, f, run) ↦ rw run (
        inr (
          refl,
          (
            i,
            p,
            slain m p,
            IsFirst-IsFirstThat (Has pid) (has_pid m pid) has_pid-true has_pid-false f,
            slain-IsSlain m p,
            refl,
          ),
        ))
  ]
    where
      has_pid-true : (p : Proc) → has_pid m pid p ≡ true → p.pid ≡ pid
      has_pid-true p e = ground arith

      has_pid-false : (p : Proc) → has_pid m pid p ≡ false → p.pid ≢ pid
      has_pid-false p e = ground arith
