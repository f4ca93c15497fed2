-- ===== src/Schedlog/Order.antt =====
-- What one `writelog` of src/proc.c keeps of the log, and where it writes.
use mathlib.Core.Path.{ap₂, subst}
use mathlib.Core.List.{append-nil, append_assoc}
use waka_b4_research.Schedlog.{
  Clock, Event, ProcState, Entry, Log, bufsize, copy_name, is_logged, writelog,
}
use waka_b4_research.Base.{
  ℕ, zero, suc, ◌+◌, ◌-◌, ◌≤◌, ◌<◌, ◌≡◌, refl, ap, ◌∙◌, inl, inr, Bool, true, false, ◌&&◌, not,
  List, [], ◌∷◌, ◌++◌, arith, leb, if◌then◌else◌, Bool-cases, get_or, take, minus_one,
}

-- A call of `writelog`, with the processor that makes it.
pub record Request : Type 0 where
  pub pid : ℕ
  pub name : List ℕ
  pub event : Event
  pub prev : ProcState
  pub next : ProcState
  pub cpu : ℕ

-- What an entry says beside its time.
abbrev pub Line : Type 0
Line = ℕ × List ℕ × Event × ProcState × ProcState × ℕ

abbrev pub line : Entry → Line
line e = (e.pid, e.name, e.event_name, e.prev_pstate, e.next_pstate, e.cpu)

-- The first `n` bytes of a name, with zeros where it has ended.
abbrev pub padded : ℕ → List ℕ → List ℕ
padded zero name = []
padded (suc n) [] = 0 ∷ padded n []
padded (suc n) (x ∷ name) = x ∷ padded n name

abbrev pub line_of : Request → Line
line_of r = (r.pid, padded 16 r.name, r.event, r.prev, r.next, r.cpu)

copy_name-nil : (n i : ℕ) → copy_name n i [] ≡ padded n []
unfolding copy_name
copy_name-nil zero i = refl
copy_name-nil (suc n) i = ap (λ bs. 0 ∷ bs) (copy_name-nil n (i + 1))

get_or-cons : (i x : ℕ) (name : List ℕ) → get_or (x ∷ name) (i + 1) 0 ≡ get_or name i 0
get_or-cons i x name = ap (λ (j : ℕ). get_or (x ∷ name) j 0) (add_one i)
  where
    add_one : (i : ℕ) → i + 1 ≡ suc i
    add_one i = omega arith

copy_name-cons : (n i x : ℕ) (name : List ℕ) → copy_name n (i + 1) (x ∷ name) ≡ copy_name n i name
unfolding copy_name
copy_name-cons zero i x name = refl
copy_name-cons (suc n) i x name =
    let e : get_or (x ∷ name) (i + 1) 0 ≡ get_or name i 0 = get_or-cons i x name in
    rw (e, copy_name-cons n (i + 1) x name) refl

copy_name_lem : (n : ℕ) (name : List ℕ) → copy_name n 0 name ≡ padded n name
unfolding copy_name
copy_name_lem zero name = refl
copy_name_lem (suc n) [] = ap (λ bs. 0 ∷ bs) (copy_name-nil n 1)
copy_name_lem (suc n) (x ∷ name) =
    ap (λ bs. x ∷ bs) (copy_name-cons n 0 x name ∙ copy_name_lem n name)

-- The lines of the `n` entries from index `i` on.
abbrev pub lines : (ℕ → Entry) → ℕ → ℕ → List Line
lines entries i zero = []
lines entries i (suc n) = line (entries i) ∷ lines entries (i + 1) n

take-nil : (n : ℕ) → take {A = Line} n [] ≡ []
take-nil zero = refl
take-nil (suc n) = refl

-- One more line, where the event is recorded and there is room for it.
take_room :
    (b : Bool) (v : ℕ) (xs ys : List Line) (y : Line)
    → (if b && not (leb bufsize v) then xs ++ y ∷ [] else xs)
        ++ take (bufsize - (if b && not (leb bufsize v) then v + 1 else v)) ys
      ≡ xs ++ take (bufsize - v) (if b then y ∷ ys else ys)
take_room false v xs ys y = refl
take_room true v xs ys y = elim (Bool-cases (leb bufsize v)) [
  | inl full ↦ let none_left : bufsize - v ≡ 0 = ground arith in rw (full, none_left)
  | inr room ↦
      let more : bufsize - v ≡ suc (bufsize - (v + 1)) = ground arith in
      rw (room, more) (append_assoc xs (y ∷ []) (take (bufsize - (v + 1)) ys))
]

lines-snoc :
    (entries : ℕ → Entry) (i n : ℕ)
    → lines entries i (suc n) ≡ lines entries i n ++ line (entries (i + n)) ∷ []
lines-snoc entries i zero = let e : i + 0 ≡ i = omega arith in rw e
lines-snoc entries i (suc n) =
    let e : i + suc n ≡ i + 1 + n = omega arith in
    rw e (ap (λ ls. line (entries i) ∷ ls) (lines-snoc entries (i + 1) n))

lines_congr :
    (f g : ℕ → Entry) (i n : ℕ) → ((j : ℕ) → j < i + n → f j ≡ g j) → lines f i n ≡ lines g i n
lines_congr f g i zero h = refl
lines_congr f g i (suc n) h =
    ap₂ (λ e ls. line e ∷ ls) (h i (omega arith))
      (lines_congr f g (i + 1) n (λ j lt. h j (omega arith)))

-- The lines of the log, oldest first. Index 0 is never used.
pub recorded : Log → List Line
recorded l = lines l.entries 1 l.value

-- The events that `writelog` does not turn away, while `finished_fork` stays as it is.
unfoldable pub logged : Log → List Request → List Line
logged l [] = []
logged l (r ∷ rs) = if is_logged l r.pid r.name then line_of r ∷ logged l rs else logged l rs

module _ (tsc : ℕ → Clock) where
  pub write : Request → Log → Log
  write r = writelog tsc r.cpu r.pid r.name r.event r.prev r.next

  pub run : List Request → Log → Log
  run [] l = l
  run (r ∷ rs) l = run rs (write r l)

  finished_fork-write : (r : Request) (l : Log) → (write r l).finished_fork ≡ l.finished_fork
  unfolding write writelog
  finished_fork-write r l = ground arith

  value-write :
      (r : Request) (l : Log)
      → (write r l).value
        ≡ (if is_logged l r.pid r.name && not (leb bufsize l.value) then l.value + 1 else l.value)
  unfolding write writelog
  value-write r l = ground arith

  -- `writelog` keeps every entry up to the counter.
  pub entries-write :
      (r : Request) (l : Log) (j : ℕ) → j ≤ l.value → (write r l).entries j ≡ l.entries j
  unfolding write writelog
  entries-write r l j h = ground arith

  entry-copied :
      (r : Request) (l : Log)
      → (is_logged l r.pid r.name && not (leb bufsize l.value)) ≡ true
      → line ((write r l).entries (1 + l.value))
        ≡ (r.pid, copy_name 16 0 r.name, r.event, r.prev, r.next, r.cpu)
  unfolding write writelog
  entry-copied r l new = let e : 1 + l.value ≡ l.value + 1 = omega arith in rw e (ground arith)

  -- The new entry stands behind the old counter.
  pub entry-write :
      (r : Request) (l : Log)
      → (is_logged l r.pid r.name && not (leb bufsize l.value)) ≡ true
      → line ((write r l).entries (1 + l.value)) ≡ line_of r
  entry-write r l new =
      entry-copied r l new
      ∙ ap (λ (name : List ℕ). (r.pid, name, r.event, r.prev, r.next, r.cpu))
          (copy_name_lem 16 r.name)

  kept : (r : Request) (l : Log) → lines (write r l).entries 1 l.value ≡ lines l.entries 1 l.value
  kept r l =
      lines_congr (write r l).entries l.entries 1 l.value (λ j h. entries-write r l j (omega arith))

  recorded-write :
      (r : Request) (l : Log)
      → recorded (write r l) ≡ (
          if is_logged l r.pid r.name && not (leb bufsize l.value)
          then recorded l ++ line_of r ∷ []
          else recorded l)
  unfolding recorded
  recorded-write r l = elim (Bool-cases (is_logged l r.pid r.name && not (leb bufsize l.value))) [
    | inl new ↦
        let more : (write r l).value ≡ suc l.value = ground (arith, value-write r l) in
        rw (new, more, lines-snoc (write r l).entries 1 l.value, kept r l, entry-write r l new)
    | inr old ↦
        let same : (write r l).value ≡ l.value = ground (arith, value-write r l) in
        rw (old, same) (kept r l)
  ]

  logged_congr :
      (l m : Log) (rs : List Request)
      → l.finished_fork ≡ m.finished_fork
      → logged l rs ≡ logged m rs
  unfolding logged
  logged_congr l m [] e = refl
  logged_congr l m (r ∷ rs) e = rw (e, logged_congr l m rs e)

  -- After any sequence of calls the entries from index 1 up to the counter are those from before, then
  -- those of the events that were not turned away, in order, each with its 16 bytes of the name and its
  -- other values, until the counter is `bufsize`. The entry with that index is past the array.
  pub recorded-run :
      (rs : List Request) (l : Log)
      → recorded (run rs l) ≡ recorded l ++ take (bufsize - l.value) (logged l rs)
  unfolding run logged
  recorded-run [] l = rw (take-nil (bufsize - l.value), append-nil)
  recorded-run (r ∷ rs) l =
      recorded-run rs (write r l)
      ∙ rw
          (
            recorded-write r l,
            logged_congr (write r l) l rs (finished_fork-write r l),
            value-write r l,
          )
          (take_room (is_logged l r.pid r.name) l.value (recorded l) (logged l rs) (line_of r))

  -- From a counter of at most `bufsize`, no sequence of calls takes the counter past it.
  pub value-run : (rs : List Request) (l : Log) → l.value ≤ bufsize → (run rs l).value ≤ bufsize
  unfolding run
  value-run [] l h = h
  value-run (r ∷ rs) l h = value-run rs (write r l) (ground (arith, value-write r l))

  -- An event that is not turned away and that finds the counter at `bufsize` less one is stored at
  -- index `bufsize`, one past the end of the array `buf_log`.
  pub write-overrun :
      (r : Request) (l : Log)
      → is_logged l r.pid r.name ≡ true
      → l.value + 1 ≡ bufsize
      → (line ((write r l).entries bufsize) ≡ line_of r) × ((write r l).value ≡ bufsize)
  write-overrun r l new last = (
    subst (λ i. line ((write r l).entries i) ≡ line_of r) at (entry-write r l (ground arith)),
    ground (arith, value-write r l),
  )
    where
      at : 1 + l.value ≡ bufsize
      at = omega arith

-- An event that is turned away, as every event with pid -1 is, leaves the log as it is.
pub writelog_turned_away :
    (tsc : ℕ → Clock) (cpu pid : ℕ) (name : List ℕ) (e : Event) (a b : ProcState) (l : Log)
    → is_logged l pid name ≡ false
    → writelog tsc cpu pid name e a b l ≡ l
unfolding writelog
writelog_turned_away tsc cpu pid name e a b l h = rw h

pub is_logged-minus_one : (l : Log) (name : List ℕ) → is_logged l minus_one name ≡ false
is_logged-minus_one l name = ground arith
