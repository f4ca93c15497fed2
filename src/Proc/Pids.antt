-- ===== src/Proc/Pids.antt =====
-- The pids of src/proc.c: no two processes share one, and `nextpid` is free.
use mathlib.Core.Path.{subst}
use waka_b4_research.Proc.{Proc, Kernel, Machine, woken}
use waka_b4_research.Proc.Sleep.{wakeup, kill, slain}
use waka_b4_research.Proc.Table.{IsReady}
use waka_b4_research.Proc.Alloc.{allocproc}
use waka_b4_research.Proc.Born.{claimant, allocproc_lem}
use waka_b4_research.Proc.Kill.{kill-cases}
use waka_b4_research.Proc.Wakeup.{wakeup-awake}
use waka_b4_research.Base.{
  ℕ, zero, suc, ◌+◌, ◌<◌, ◌≡◌, refl, sym, ◌≢◌, ◌⊎◌, inl, inr, some, List, [], ◌∷◌, map, arith, ◌==◌,
  if◌then◌else◌, length, get_elem?, set, lt-length_of_some, Returns, word_mod, add_word,
}

-- The pid in slot `i`; 0 behind the table.
unfoldable pub pid_at : List Proc → ℕ → ℕ
pid_at [] i = 0
pid_at (p ∷ ps) zero = p.pid
pid_at (p ∷ ps) (suc i) = pid_at ps i

-- Two slots have the same pid only if it is 0, which no process has; the pids to come are larger.
pub record ArePids (ps : List Proc) (next : ℕ) : Type 0 where
  pub unique : (i j : ℕ) → i ≢ j → pid_at ps i ≡ pid_at ps j → pid_at ps i ≡ 0
  pub below : (i : ℕ) → pid_at ps i < next

pub pid_at-set :
    (ps : List Proc) (i j : ℕ) (p : Proc)
    → i < length ps
    → pid_at (set ps i p) j ≡ (if j == i then p.pid else pid_at ps j)
unfolding pid_at
pid_at-set [] i j p h = absurd (omega arith)
pid_at-set (q ∷ ps) zero zero p h = refl
pid_at-set (q ∷ ps) zero (suc j) p h = ground arith
pid_at-set (q ∷ ps) (suc i) zero p h = ground arith
pid_at-set (q ∷ ps) (suc i) (suc j) p h = ground (arith, pid_at-set ps i j p)

pub pid_at-get : (ps : List Proc) (i : ℕ) (p : Proc) → get_elem? ps i ≡ some p → pid_at ps i ≡ p.pid
unfolding pid_at
pid_at-get [] i p h = cc
pid_at-get (q ∷ ps) zero p h = ground arith
pid_at-get (q ∷ ps) (suc i) p h = pid_at-get ps i p h

-- A slot that gets the next pid.
pub fresh-ArePids :
    (ps : List Proc) (next i : ℕ) (p : Proc)
    → i < length ps
    → p.pid ≡ next
    → ArePids ps next
    → ArePids (set ps i p) (next + 1)
fresh-ArePids ps next i p h e v = record {
  unique = λ a b ne same.
      ground
        (arith, pid_at-set ps i a p h, pid_at-set ps i b p h, v.unique a b, v.below a, v.below b);
  below = λ a. ground (arith, pid_at-set ps i a p h, v.below a);
}

-- A slot whose pid is kept or cleared.
pub kept-ArePids :
    (ps : List Proc) (next i : ℕ) (p : Proc)
    → i < length ps
    → 0 < next
    → (p.pid ≡ pid_at ps i) ⊎ (p.pid ≡ 0)
    → ArePids ps next
    → ArePids (set ps i p) next
kept-ArePids ps next i p h pos e v = record {
  unique =
      λ a b ne same. ground (arith, e, pid_at-set ps i a p h, pid_at-set ps i b p h, v.unique a b);
  below = λ a. ground (arith, e, pid_at-set ps i a p h, v.below a);
}

-- From a state with the lock of the table free, whose pids are distinct and below `nextpid`,
-- `allocproc` returns, found a slot or not, and leaves such pids, as long as the counter does not
-- wrap.
pub allocproc-ArePids :
    (m : Machine) (stack : ℕ) (k : Kernel)
    → IsReady k
    → k.nextpid + 1 < word_mod
    → ArePids k.procs k.nextpid
    → Returns (λ _ k'. ArePids k'.procs k'.nextpid) (allocproc m stack k)
allocproc-ArePids m stack k v small pids = elim (allocproc_lem m stack k v) [
  | inl (e, full) ↦ subst (Returns λ _ k'. ArePids k'.procs k'.nextpid) (sym e) pids
  | inr (i, p, k', f, e, c) ↦
      let more : add_word k.nextpid 1 ≡ k.nextpid + 1 = omega arith in
      subst (Returns λ _ k''. ArePids k''.procs k''.nextpid) (sym e) (
        rw (c.procs, c.nextpid, more)
          (fresh-ArePids k.procs k.nextpid i (claimant m stack k.nextpid p)
            (lt-length_of_some k.procs i p f.at) (ground arith) pids))
]

-- `kill`, from a state with the lock of the table free and a positive `nextpid`, returns and keeps
-- the pids distinct and below `nextpid`.
pub kill-ArePids :
    (m : Machine) (pid : ℕ) (k : Kernel)
    → IsReady k
    → 0 < k.nextpid
    → ArePids k.procs k.nextpid
    → Returns (λ _ k'. ArePids k'.procs k'.nextpid) (kill m pid k)
kill-ArePids m pid k v pos pids = elim (kill-cases m pid k v) [
  | inl (e, absent) ↦ subst (Returns λ _ k'. ArePids k'.procs k'.nextpid) (sym e) pids
  | inr (i, p, f, e) ↦ subst (Returns λ _ k'. ArePids k'.procs k'.nextpid) (sym e) (
      kept-ArePids k.procs k.nextpid i (slain m p) (lt-length_of_some k.procs i p f.at) pos
        (inl (sym (pid_at-get k.procs i p f.at))) pids)
]

pid_at-woken :
    (m : Machine) (chan : ℕ) (ps : List Proc) (i : ℕ)
    → pid_at (map (woken m chan) ps) i ≡ pid_at ps i
unfolding pid_at
pid_at-woken m chan [] i = refl
pid_at-woken m chan (p ∷ ps) zero = ground arith
pid_at-woken m chan (p ∷ ps) (suc i) = pid_at-woken m chan ps i

-- `wakeup`, from a state with the lock of the table free, returns and keeps the pids distinct and
-- below `nextpid`.
pub wakeup-ArePids :
    (m : Machine) (chan : ℕ) (k : Kernel)
    → IsReady k
    → ArePids k.procs k.nextpid
    → Returns (λ _ k'. ArePids k'.procs k'.nextpid) (wakeup m chan k)
wakeup-ArePids m chan k v pids =
    subst (Returns λ _ k'. ArePids k'.procs k'.nextpid) (sym (wakeup-awake m chan k v)) (record {
      unique = λ i j ne same.
          ground
            (arith, pid_at-woken m chan k.procs i, pid_at-woken m chan k.procs j, pids.unique i j);
      below = λ i. ground (arith, pid_at-woken m chan k.procs i, pids.below i);
    })
