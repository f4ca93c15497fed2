-- ===== src/FsLog/Room.antt =====
-- The room in the log of src/log.c, under every interleaving of the operations of many processes, with
-- their sleeps in begin_op and the wakeups at the end of end_op.
use waka_b4_research.Base.{
  ℕ, zero, suc, ◌+◌, ◌-◌, ◌*◌, ◌≢◌, ◌≤◌, ◌<◌, ◌≡◌, refl, String, Bool, true, false, none, some,
  List, [], ◌∷◌, arith, ok, panic, get_elem?, set, sub_word,
}
use waka_b4_research.FsLog.{
  Journal, Store, logsize, max_op_blocks, begin_op, commits, wakes, end_op, end_commit, log_check,
  log_record,
}

-- Where a process is: outside, or awake in the loop of begin_op; asleep in that loop; in an operation that has logged so many blocks; in log_write between
-- the checks and the lock; in the commit at the end of its operation.
pub data Place : Type 0 where
  idle : Place
  asleep : Place
  active : ℕ → Place
  checked : ℕ → Place
  committer : Place

pub record System : Type 0 where
  pub journal : Journal
  pub store : Store
  pub places : List Place

abbrev move : System → ℕ → Place → Journal → System
move s i p j = record s { places = set s.places i p; journal = j }

-- `wakeup(&log)`
abbrev pub wake_place : Place → Place
wake_place asleep = idle
wake_place idle = idle
wake_place (active w) = active w
wake_place (checked w) = checked w
wake_place committer = committer

abbrev pub roused : List Place → List Place
roused [] = []
roused (p ∷ ps) = wake_place p ∷ roused ps

abbrev pub rouse : System → System
rouse s = record s { places = roused s.places }

-- An operation logs at most `max_op_blocks` blocks, as the code assumes of its callers. A process that
-- sleeps has no step of its own.
pub data Step : System → System → Type 0 where
  begins :
      {s : System} (i : ℕ) (j : Journal)
      → get_elem? s.places i ≡ some idle
      → begin_op s.journal ≡ some j
      → Step s (move s i (active 0) j)
  waits :
      {s : System} (i : ℕ)
      → get_elem? s.places i ≡ some idle
      → begin_op s.journal ≡ none
      → Step s (move s i asleep s.journal)
  checks :
      {s : System} (i w : ℕ)
      → get_elem? s.places i ≡ some (active w)
      → w < max_op_blocks
      → log_check s.journal ≡ ok tt
      → Step s (move s i (checked w) s.journal)
  logs :
      {s : System} (i w b : ℕ)
      → get_elem? s.places i ≡ some (checked w)
      → Step s (move s i (active (w + 1)) (log_record b s.journal))
  ends :
      {s : System} (i w : ℕ) (j : Journal)
      → get_elem? s.places i ≡ some (active w)
      → end_op s.journal ≡ ok (wakes, j)
      → Step s (rouse (move s i idle j))
  ends_last :
      {s : System} (i w : ℕ) (j : Journal)
      → get_elem? s.places i ≡ some (active w)
      → end_op s.journal ≡ ok (commits, j)
      → Step s (move s i committer j)
  commit_ends :
      {s : System} (i : ℕ)
      → get_elem? s.places i ≡ some committer
      → Step s (record s {
        places = roused (set s.places i idle);
        journal = (end_commit s.journal s.store).0;
        store = (end_commit s.journal s.store).1;
      })

pub data Reach (s : System) : System → Type 0 where
  first : Reach s s
  later : {t u : System} → Reach s t → Step t u → Reach s u

-- How many operations a process is in, how many blocks it may still log, and whether it commits.
abbrev pub ops_at : Place → ℕ
ops_at idle = 0
ops_at asleep = 0
ops_at (active _) = 1
ops_at (checked _) = 1
ops_at committer = 0

abbrev pub left_at : Place → ℕ
left_at idle = 0
left_at asleep = 0
left_at (active w) = max_op_blocks - w
left_at (checked w) = max_op_blocks - (w + 1) + 1
left_at committer = 0

abbrev pub commits_at : Place → ℕ
commits_at idle = 0
commits_at asleep = 0
commits_at (active _) = 0
commits_at (checked _) = 0
commits_at committer = 1

abbrev pub total : (Place → ℕ) → List Place → ℕ
total f [] = 0
total f (p ∷ ps) = f p + total f ps

pub total-set :
    (f : Place → ℕ) (ps : List Place) (i : ℕ) (p q : Place)
    → get_elem? ps i ≡ some p
    → total f (set ps i q) + f p ≡ total f ps + f q
total-set f [] i p q h = cc
total-set f (x ∷ ps) zero p q h = ground arith
total-set f (x ∷ ps) (suc i) p q h = omega (arith, total-set f ps i p q h)

pub total-roused :
    (f : Place → ℕ) (ps : List Place) → f asleep ≡ f idle → total f (roused ps) ≡ total f ps
total-roused f [] h = refl
total-roused f (p ∷ ps) h = here p (total-roused f ps h)
  where
    here :
        (p : Place)
        → total f (roused ps) ≡ total f ps
        → f (wake_place p) + total f (roused ps) ≡ f p + total f ps
    here idle r = omega arith
    here asleep r = omega (arith, h)
    here (active w) r = omega arith
    here (checked w) r = omega arith
    here committer r = omega arith

abbrev pub number_of : Bool → ℕ
number_of true = 1
number_of false = 0

-- The operations are counted, one process commits while the flag says so and then no operation is
-- under way, and the log has room for what all of them may log.
pub record IsRoomy (s : System) : Type 0 where
  pub counted : s.journal.outstanding ≡ total ops_at s.places
  pub alone : total commits_at s.places ≡ number_of s.journal.committing
  pub quiet : s.journal.committing ≡ true → s.journal.outstanding ≡ 0
  pub few : s.journal.outstanding ≤ 3
  pub room : s.journal.n + total left_at s.places ≤ logsize
  pub space : logsize < s.journal.size

left-le-ops : (ps : List Place) → total left_at ps ≤ max_op_blocks * total ops_at ps
left-le-ops [] = omega arith
left-le-ops (p ∷ ps) = let r = left-le-ops ps in here p r
  where
    here :
        (p : Place)
        → total left_at ps ≤ max_op_blocks * total ops_at ps
        → left_at p + total left_at ps ≤ max_op_blocks * (ops_at p + total ops_at ps)
    here idle r = omega arith
    here asleep r = omega arith
    here (active w) r = omega arith
    here (checked w) r = omega arith
    here committer r = omega arith

pub begin_op-some :
    (j j' : Journal)
    → begin_op j ≡ some j'
    → (j.committing ≡ false)
      × (j.n + (j.outstanding + 1) * max_op_blocks ≤ logsize)
      × (j' ≡ record j { outstanding = j.outstanding + 1 })
unfolding begin_op
begin_op-some j j' e = (ground arith, ground arith, ground arith)

-- An end that is not the last, and the last.
pub end_op-wakes :
    (j j' : Journal)
    → end_op j ≡ ok (wakes, j')
    → (j.committing ≡ false)
      × (sub_word j.outstanding 1 ≢ 0)
      × (j' ≡ record j { outstanding = sub_word j.outstanding 1 })
unfolding end_op
end_op-wakes j j' e = (ground arith, ground arith, ground arith)

pub end_op-commits :
    (j j' : Journal)
    → end_op j ≡ ok (commits, j')
    → (j.committing ≡ false)
      × (sub_word j.outstanding 1 ≡ 0)
      × (j' ≡ record j { outstanding = sub_word j.outstanding 1; committing = true })
unfolding end_op
end_op-commits j j' e = (ground arith, ground arith, ground arith)

pub log_record_bounds :
    (b : ℕ) (j : Journal)
    → ((log_record b j).n ≤ j.n + 1)
      × ((log_record b j).outstanding ≡ j.outstanding)
      × ((log_record b j).committing ≡ j.committing)
      × ((log_record b j).size ≡ j.size)
unfolding log_record
log_record_bounds b j = (ground arith, refl, refl, refl)

pub end_commit_lem :
    (j : Journal) (s : Store)
    → ((end_commit j s).0.n ≡ 0)
      × ((end_commit j s).0.outstanding ≡ j.outstanding)
      × ((end_commit j s).0.committing ≡ false)
      × ((end_commit j s).0.size ≡ j.size)
unfolding end_commit
end_commit_lem j s = (ground arith, ground arith, ground arith, ground arith)

module _ (s : System) (i : ℕ) (p q : Place) (at : get_elem? s.places i ≡ some p) where
  moved :
      (j : Journal)
      → (total ops_at (move s i q j).places + ops_at p ≡ total ops_at s.places + ops_at q)
        × (total left_at (move s i q j).places + left_at p ≡ total left_at s.places + left_at q)
        × (total commits_at (move s i q j).places + commits_at p
            ≡ total commits_at s.places + commits_at q)
  moved j = (
    total-set ops_at s.places i p q at,
    total-set left_at s.places i p q at,
    total-set commits_at s.places i p q at,
  )

pub Step-IsRoomy : {s t : System} → Step s t → IsRoomy s → IsRoomy t
Step-IsRoomy (begins {s = s} i j at e) v =
    let m = moved s i idle (active 0) at j in
    ground (arith, begin_op-some s.journal j e, m, v.counted, left-le-ops s.places)
Step-IsRoomy (checks {s = s} i w at lt e) v =
    let m = moved s i (active w) (checked w) at s.journal in ground (arith, m, v.counted)
Step-IsRoomy (logs {s = s} i w b at) v =
    let m = moved s i (checked w) (active (w + 1)) at s.journal in
    ground (arith, log_record_bounds b s.journal, m, v.counted)
Step-IsRoomy (waits {s = s} i at e) v =
    let m = moved s i idle asleep at s.journal in ground (arith, m, v.counted)
Step-IsRoomy (ends {s = s} i w j at e) v =
    let m = moved s i (active w) idle at j in
    let ps = set s.places i idle in
    ground (
      arith,
      end_op-wakes s.journal j e,
      m,
      total-roused ops_at ps refl,
      total-roused left_at ps refl,
      total-roused commits_at ps refl,
      v.counted,
    )
Step-IsRoomy (ends_last {s = s} i w j at e) v =
    let m = moved s i (active w) committer at j in
    ground (arith, end_op-commits s.journal j e, m, v.counted)
Step-IsRoomy (commit_ends {s = s} i at) v =
    let m = moved s i committer idle at s.journal in
    let ps = set s.places i idle in
    ground (
      arith,
      end_commit_lem s.journal s.store,
      m,
      total-roused ops_at ps refl,
      total-roused left_at ps refl,
      total-roused commits_at ps refl,
      v.counted,
    )

Reach-IsRoomy : {s t : System} → IsRoomy s → Reach s t → IsRoomy t
Reach-IsRoomy v first = v
Reach-IsRoomy v (later r st) = Step-IsRoomy st (Reach-IsRoomy v r)

-- No process is in an operation, and the log is empty and has room for `logsize` blocks and the
-- header.
pub record IsInitial (s : System) : Type 0 where
  pub no_ops : total ops_at s.places ≡ 0
  pub no_commits : total commits_at s.places ≡ 0
  pub outstanding : s.journal.outstanding ≡ 0
  pub committing : s.journal.committing ≡ false
  pub empty : s.journal.n ≡ 0
  pub space : logsize < s.journal.size

pub Initial-IsRoomy : {s : System} → IsInitial s → IsRoomy s
Initial-IsRoomy {s} v = ground (arith, v.outstanding, v.committing, left-le-ops s.places)

pub total-le :
    (f : Place → ℕ) (ps : List Place) (i : ℕ) (p : Place)
    → get_elem? ps i ≡ some p
    → f p ≤ total f ps
total-le f [] i p h = cc
total-le f (x ∷ ps) zero p h = ground arith
total-le f (x ∷ ps) (suc i) p h = omega (arith, total-le f ps i p h)

-- From an empty log with room for `logsize` blocks beside the header, however the operations of the
-- processes interleave: a `log_write` of an operation that has logged fewer than `max_op_blocks`
-- blocks passes its checks; once they are passed, the write to the array is within it; an `end_op`
-- does not panic; and while a process commits, no operation is under way.
pub Reach-safe :
    {s t : System}
    → IsInitial s
    → Reach s t
    → ((i w : ℕ)
        → get_elem? t.places i ≡ some (active w)
        → w < max_op_blocks
        → log_check t.journal ≡ ok tt)
      × ((i w : ℕ) → get_elem? t.places i ≡ some (checked w) → t.journal.n < logsize)
      × ((i w : ℕ) (m : String)
          → get_elem? t.places i ≡ some (active w)
          → end_op t.journal ≢ panic m)
      × ((i : ℕ) → get_elem? t.places i ≡ some committer → t.journal.outstanding ≡ 0)
unfolding log_check end_op
Reach-safe {t = t} v r =
    let u = Reach-IsRoomy (Initial-IsRoomy v) r in
    (
      λ i w at lt. ground (
        arith,
        u,
        total-le left_at t.places i (active w) at,
        total-le ops_at t.places i (active w) at,
      ),
      λ i w at. ground (arith, u, total-le left_at t.places i (checked w) at),
      λ i w m at e. ground (arith, u, total-le ops_at t.places i (active w) at),
      λ i at. ground (arith, u, total-le commits_at t.places i committer at),
    )
