-- ===== src/FsLog/Progress.antt =====
-- begin_op of src/log.c lets every process in, if the others end their operations.
use waka_b4_research.Base.{
  ℕ, zero, suc, ◌+◌, ◌*◌, ◌≤◌, ◌<◌, ◌≡◌, ◌⊎◌, inl, inr, refl, sym, ap, ◌∙◌, true, false, Bool-cases,
  Option, none, some, List, [], ◌∷◌, arith, get_elem?, set, get_elem?-set_ne, get_elem?-set_of_some,
  sub_word, ◌==◌, ltb,
}
use waka_b4_research.FsLog.{Journal, logsize, max_op_blocks, begin_op, end_op}
use waka_b4_research.FsLog.Room.{
  Place, idle, asleep, active, checked, committer, System, Step, wake_place, roused, begins, waits,
  checks, logs, ends, ends_last, commit_ends, Reach, first, later, ops_at, commits_at, total,
  total-set, total-le, total-roused, IsRoomy, IsInitial, Step-IsRoomy, Initial-IsRoomy,
  begin_op-some, end_op-wakes, end_op-commits, end_commit_lem, log_record_bounds,
}

-- How many steps a process has to go till it is outside.
abbrev rounds_at : Place → ℕ
rounds_at idle = 0
rounds_at asleep = 0
rounds_at (active _) = 2
rounds_at (checked _) = 3
rounds_at committer = 1

abbrev rounds_of : Option Place → ℕ
rounds_of none = 0
rounds_of (some p) = rounds_at p

busy :
    (ps : List Place)
    → 0 < total rounds_at ps
    → (i : ℕ) × (p : Place) × (get_elem? ps i ≡ some p) × (0 < rounds_at p)
busy [] lt = absurd (omega arith)
busy (p ∷ ps) lt = elim (Bool-cases (rounds_at p == 0)) [
  | inr e ↦ (0, p, refl, ground arith)
  | inl e ↦ let (i, q, at, pos) = busy ps (ground arith) in (suc i, q, at, pos)
]

-- How many processes sleep in begin_op.
abbrev pub sleeps_at : Place → ℕ
sleeps_at asleep = 1
sleeps_at idle = 0
sleeps_at (active _) = 0
sleeps_at (checked _) = 0
sleeps_at committer = 0

no_sleeper : (ps : List Place) → total sleeps_at (roused ps) ≡ 0
no_sleeper [] = refl
no_sleeper (p ∷ ps) = here p (no_sleeper ps)
  where
    here :
        (p : Place)
        → total sleeps_at (roused ps) ≡ 0
        → sleeps_at (wake_place p) + total sleeps_at (roused ps) ≡ 0
    here idle r = omega arith
    here asleep r = omega arith
    here (active w) r = omega arith
    here (checked w) r = omega arith
    here committer r = omega arith

-- With no operation under way and no commit, the log is empty and nobody sleeps.
abbrev IsClear : System → Type 0
IsClear s =
    s.journal.outstanding ≡ 0
    → s.journal.committing ≡ false
    → (s.journal.n ≡ 0) × (total sleeps_at s.places ≡ 0)

begin_op-none :
    (j : Journal)
    → begin_op j ≡ none
    → j.committing ≡ false
    → logsize < j.n + (j.outstanding + 1) * max_op_blocks
unfolding begin_op
begin_op-none j e quiet = ground arith

Step-IsClear : {s t : System} → Step s t → IsRoomy s → IsClear s → IsClear t
Step-IsClear (begins {s = s} i j at e) v h =
    λ o c. absurd (ground (arith, begin_op-some s.journal j e))
Step-IsClear (waits {s = s} i at e) v h =
    λ o c. absurd (let clear = h o c in ground (arith, begin_op-none s.journal e c, o, clear))
Step-IsClear (checks {s = s} i w at lt e) v h = λ o c.
    ((h o c).0, omega (arith, total-set sleeps_at s.places i (active w) (checked w) at, (h o c).1))
Step-IsClear (logs {s = s} i w b at) v h = λ o c. absurd (
    ground
      (arith, log_record_bounds b s.journal, v.counted, total-le ops_at s.places i (checked w) at))
Step-IsClear (ends {s = s} i w j at e) v h =
    λ o c. absurd (ground (arith, end_op-wakes s.journal j e))
Step-IsClear (ends_last {s = s} i w j at e) v h =
    λ o c. absurd (ground (arith, end_op-commits s.journal j e))
Step-IsClear (commit_ends {s = s} i at) v h =
    λ o c. ((end_commit_lem s.journal s.store).0, no_sleeper (set s.places i idle))

-- Process `k` is in no operation and in no commit: it is outside, or in begin_op.
abbrev IsOut : List Place → ℕ → Type 0
IsOut ps k = (p : Place) × (get_elem? ps k ≡ some p) × (rounds_at p ≡ 0)

-- Those that are outside or sleep do not get into an operation.
abbrev StayOut : System → System → Type 0
StayOut s t = (k : ℕ) → IsOut s.places k → IsOut t.places k

-- A step that brings a process nearer to the outside.
abbrev Nearer : System → Type 0
Nearer s =
    (t : System) × Step s t × (total rounds_at t.places < total rounds_at s.places) × StayOut s t

rounds_at-wake_place : (p : Place) → rounds_at (wake_place p) ≡ rounds_at p
rounds_at-wake_place idle = refl
rounds_at-wake_place asleep = refl
rounds_at-wake_place (active w) = refl
rounds_at-wake_place (checked w) = refl
rounds_at-wake_place committer = refl

get_elem?-roused :
    (ps : List Place) (k : ℕ) (p : Place)
    → get_elem? ps k ≡ some p
    → get_elem? (roused ps) k ≡ some (wake_place p)
get_elem?-roused [] k p h = cc
get_elem?-roused (x ∷ ps) zero p h = ground arith
get_elem?-roused (x ∷ ps) (suc k) p h = get_elem?-roused ps k p h

IsOut-roused : (ps : List Place) (k : ℕ) → IsOut ps k → IsOut (roused ps) k
IsOut-roused ps k (p, at, out) =
    (wake_place p, get_elem?-roused ps k p at, rounds_at-wake_place p ∙ out)

module _ (s : System) (i : ℕ) (p q : Place) (at : get_elem? s.places i ≡ some p)
    (less : rounds_at q < rounds_at p) where
  fewer : total rounds_at (set s.places i q) < total rounds_at s.places
  fewer = omega (arith, total-set rounds_at s.places i p q at, less)

  stay : (k : ℕ) → IsOut s.places k → IsOut (set s.places i q) k
  stay k (x, there, out) = elim (Bool-cases (k == i)) [
    | inl e ↦
        let here : k ≡ i = ground arith in
        let same : some p ≡ some x = sym at ∙ ap (get_elem? s.places) (sym here) ∙ there in
        let none_left = ap rounds_of same in absurd (omega (arith, none_left, less, out))
    | inr e ↦ (x, get_elem?-set_ne s.places q (λ z. ground arith) ∙ there, out)
  ]

  fewer_woken : total rounds_at (roused (set s.places i q)) < total rounds_at s.places
  fewer_woken = omega (arith, fewer, total-roused rounds_at (set s.places i q) refl)

  stay_woken : (k : ℕ) → IsOut s.places k → IsOut (roused (set s.places i q)) k
  stay_woken k out = IsOut-roused (set s.places i q) k (stay k out)

nearer :
    (s : System) (i : ℕ) (p : Place)
    → IsRoomy s
    → get_elem? s.places i ≡ some p
    → 0 < rounds_at p
    → Nearer s
unfolding end_op
nearer s i idle v at pos = absurd (omega arith)
nearer s i asleep v at pos = absurd (omega arith)
nearer s i (checked w) v at pos = (
  _,
  logs i w 0 at,
  fewer s i (checked w) (active (w + 1)) at (omega arith),
  stay s i (checked w) (active (w + 1)) at (omega arith),
)
nearer s i committer v at pos = (
  _,
  commit_ends i at,
  fewer_woken s i committer idle at (omega arith),
  stay_woken s i committer idle at (omega arith),
)
nearer s i (active w) v at pos =
    let one = total-le ops_at s.places i (active w) at in
    let open_log : s.journal.committing ≡ false = ground (arith, v.quiet, v.counted) in
    elim (Bool-cases (sub_word s.journal.outstanding 1 == 0)) [
      | inl e ↦ (
        _,
        ends_last i w
            (record s.journal { outstanding = sub_word s.journal.outstanding 1; committing = true })
            at (rw (open_log, e) refl),
        fewer s i (active w) committer at (omega arith),
        stay s i (active w) committer at (omega arith),
      )
      | inr e ↦ (
        _,
        ends i w (record s.journal { outstanding = sub_word s.journal.outstanding 1 }) at
            (rw (open_log, e) refl),
        fewer_woken s i (active w) idle at (omega arith),
        stay_woken s i (active w) idle at (omega arith),
      )
    ]

Reach-after : {s t u : System} → Step s t → Reach t u → Reach s u
Reach-after st first = later first st
Reach-after st (later r st') = later (Reach-after st r) st'

-- All processes end their operations, and no other gets into one.
drained :
    (n : ℕ) (s : System)
    → IsRoomy s
    → IsClear s
    → total rounds_at s.places ≤ n
    → (t : System) × Reach s t
      × IsRoomy t
      × IsClear t
      × (total rounds_at t.places ≡ 0)
      × StayOut s t
drained zero s v c le = (s, first, v, c, omega arith, λ k out. out)
drained (suc n) s v c le = elim (Bool-cases (total rounds_at s.places == 0)) [
  | inl e ↦ (s, first, v, c, ground arith, λ k out. out)
  | inr e ↦
      let (i, p, at, pos) = busy s.places (ground arith) in
      let (t, st, less, out) = nearer s i p v at pos in
      let (u, r, v', c', none_left, out') =
        drained n t (Step-IsRoomy st v) (Step-IsClear st v c) (omega arith) in
      (u, Reach-after st r, v', c', none_left, λ k out_k. out' k (out k out_k))
]

ops-le-rounds : (ps : List Place) → total ops_at ps + total commits_at ps ≤ total rounds_at ps
ops-le-rounds [] = omega arith
ops-le-rounds (idle ∷ ps) = omega (arith, ops-le-rounds ps)
ops-le-rounds (asleep ∷ ps) = omega (arith, ops-le-rounds ps)
ops-le-rounds (active w ∷ ps) = omega (arith, ops-le-rounds ps)
ops-le-rounds (checked w ∷ ps) = omega (arith, ops-le-rounds ps)
ops-le-rounds (committer ∷ ps) = omega (arith, ops-le-rounds ps)

-- With nobody inside, nobody sleeps, and begin_op lets a process in.
enters :
    (s : System) (i : ℕ)
    → IsRoomy s
    → IsClear s
    → total rounds_at s.places ≡ 0
    → IsOut s.places i
    → (t : System) × Step s t × (get_elem? t.places i ≡ some (active 0))
unfolding begin_op
enters s i v c none_left (p, at, out) =
    let quiet = ops-le-rounds s.places in
    let outstanding : s.journal.outstanding ≡ 0 = omega (arith, v.counted) in
    let open_log : s.journal.committing ≡ false = ground (arith, v.alone) in
    let empty = (c outstanding open_log).0 in
    let awake = (c outstanding open_log).1 in
    let here = is_idle p at out (omega (arith, awake, total-le sleeps_at s.places i p at)) in
    let room : ltb logsize (s.journal.n + (s.journal.outstanding + 1) * max_op_blocks) ≡ false =
      ground arith in
    (
      _,
      begins i (record s.journal { outstanding = s.journal.outstanding + 1 }) here
          (rw (open_log, room) refl),
      get_elem?-set_of_some s.places i idle (active 0) here,
    )
  where
    is_idle :
        (p : Place)
        → get_elem? s.places i ≡ some p
        → rounds_at p ≡ 0
        → sleeps_at p ≡ 0
        → get_elem? s.places i ≡ some idle
    is_idle idle at out awake = at
    is_idle asleep at out awake = absurd (omega arith)
    is_idle (active w) at out awake = absurd (omega arith)
    is_idle (checked w) at out awake = absurd (omega arith)
    is_idle committer at out awake = absurd (omega arith)

-- From an empty log with room and with nobody asleep, wherever the interleaving of the operations has
-- come to, and whatever it has logged: each process that is in no operation, or that `begin_op` has put
-- to sleep, has a run of steps of the system after which `begin_op` has let it in.
pub Reach-enters :
    {s t : System} (i : ℕ)
    → IsInitial s
    → total sleeps_at s.places ≡ 0
    → Reach s t
    → (get_elem? t.places i ≡ some idle) ⊎ (get_elem? t.places i ≡ some asleep)
    → (u : System) × Reach t u × (get_elem? u.places i ≡ some (active 0))
Reach-enters {s} {t} i init awake r place =
    let (v, c) = sound r in
    let (u, r', v', c', none_left, out') = drained (total rounds_at t.places) t v c (omega arith) in
    let (w, st, inside) = enters u i v' c' none_left (out' i (out place)) in
    (w, later r' st, inside)
  where
    sound : {t : System} → Reach s t → IsRoomy t × IsClear t
    sound first = (Initial-IsRoomy init, λ o c. (init.empty, awake))
    sound (later r st) = let (v, c) = sound r in (Step-IsRoomy st v, Step-IsClear st v c)

    out :
        (get_elem? t.places i ≡ some idle) ⊎ (get_elem? t.places i ≡ some asleep) → IsOut t.places i
    out (inl at) = (idle, at, refl)
    out (inr at) = (asleep, at, refl)
