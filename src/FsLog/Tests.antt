-- ===== src/FsLog/Tests.antt =====
-- Runs of the log of src/log.c where the log has blocks 2 to 32 and block 40 is changed.
use waka_b4_research.Base.{
  ℕ, ◌≡◌, refl, none, some, List, [], ◌∷◌, ◌++◌, arith, ok, panic, replicate, take, update, sym,
  inr, get_elem?, String, ◌<◌, ◌≢◌,
}
use waka_b4_research.FsLog.{
  Block, Store, Journal, logsize, max_op_blocks, at_boot, commit, initlog, begin_op, log_check,
  first_word, recover_from_log, end_op, copy_words, install_from,
}
use waka_b4_research.FsLog.Install.{apply_writes, Contents, update_ne, IsOutside}
use waka_b4_research.FsLog.Crash.{rebooted, recovered}
use waka_b4_research.FsLog.Recovery.{Fits, recovered-crash}
use waka_b4_research.FsLog.Header.{listed_in}
use waka_b4_research.FsLog.Commit.{IsComplete, commit-crash, commit-installed}
use waka_b4_research.FsLog.Progress.{Reach-enters}
use waka_b4_research.FsLog.Room.{
  idle, asleep, active, checked, committer, System, Reach, waits, IsInitial, first, later, begins,
  checks, Reach-safe,
}

-- A block of 128 words that begins with `ws`.
abbrev filled : List ℕ → Block
filled ws = ws ++ replicate 120 0

abbrev old_disk : Contents
old_disk b = filled (0 ∷ b ∷ [])

abbrev transaction : Journal
transaction = record (at_boot 2 31) { outstanding = 1; n = 1; block = 40 ∷ replicate 29 0 }

abbrev cache : Store
cache = record { buf = update old_disk 40 (filled (0 ∷ 77 ∷ [])); disk = old_disk; writes = [] }

transaction-IsComplete : IsComplete transaction cache
transaction-IsComplete = record {
  some_block = omega arith;
  room = omega arith;
  fits = omega arith;
  array = refl;
  header_size = omega arith;
  outside = (inr (omega arith), tt);
  clean = λ c out off. sym (update_ne old_disk 40 c (filled (0 ∷ 77 ∷ [])) off.0);
  empty = refl;
  fresh = refl;
}

commit-crash_example :
    recovered 2 31 (apply_writes (take 2 (commit transaction cache).1.writes) old_disk) 40
    ≡ filled (0 ∷ 77 ∷ [])
commit-crash_example =
    commit-crash transaction cache transaction-IsComplete 2 40 (inr (omega arith))

commit-installed_example :
    ((commit transaction cache).0.n ≡ 0)
    × (first_word ((commit transaction cache).1.disk 2) ≡ 0)
    × ((c : ℕ) → IsOutside 2 33 c → (commit transaction cache).1.disk c ≡ cache.buf c)
commit-installed_example = commit-installed transaction cache transaction-IsComplete

-- A disk whose log has block 40.
abbrev torn : Contents
torn = update (update old_disk 2 (filled (1 ∷ 40 ∷ []))) 3 (filled (0 ∷ 77 ∷ []))

recovered-torn : recovered 2 31 torn 40 ≡ filled (0 ∷ 77 ∷ [])
unfolding initlog recover_from_log install_from copy_words
recovered-torn = refl

torn-Fits : Fits 2 31 (listed_in (torn 2))
unfolding copy_words
torn-Fits = record { room = omega arith; outside = (inr (omega arith), tt) }

recovered-crash_example :
    recovered 2 31 (apply_writes (take 1 (initlog 2 31 (rebooted torn)).1.writes) torn) 40
    ≡ recovered 2 31 torn 40
recovered-crash_example = recovered-crash 2 31 torn torn-Fits 1 40 (inr (omega arith))

abbrev two_idle : System
two_idle = record { journal = at_boot 2 31; store = cache; places = idle ∷ idle ∷ [] }

two_idle-IsInitial : IsInitial two_idle
two_idle-IsInitial = record {
  no_ops = refl;
  no_commits = refl;
  outstanding = refl;
  committing = refl;
  empty = refl;
  space = omega arith;
}

-- Two operations begin, and the second passes the checks of log_write.
one_checked : (t : System) × Reach two_idle t
unfolding begin_op log_check
one_checked = (
  _,
  later (later (later first (begins 0 _ refl refl)) (begins 1 _ refl refl))
      (checks 1 0 refl (omega arith) refl),
)

Reach-safe_example :
    ((i w : ℕ)
      → get_elem? one_checked.0.places i ≡ some (active w)
      → w < max_op_blocks
      → log_check one_checked.0.journal ≡ ok tt)
    × ((i w : ℕ)
        → get_elem? one_checked.0.places i ≡ some (checked w)
        → one_checked.0.journal.n < logsize)
    × ((i w : ℕ) (m : String)
        → get_elem? one_checked.0.places i ≡ some (active w)
        → end_op one_checked.0.journal ≢ panic m)
    × ((i : ℕ)
        → get_elem? one_checked.0.places i ≡ some committer
        → one_checked.0.journal.outstanding ≡ 0)
Reach-safe_example = Reach-safe two_idle-IsInitial one_checked.1

-- Four processes, of which three are let in and the fourth goes to sleep.
abbrev four_idle : System
four_idle = record two_idle { places = idle ∷ idle ∷ idle ∷ idle ∷ [] }

four_idle-IsInitial : IsInitial four_idle
four_idle-IsInitial = record {
  no_ops = refl;
  no_commits = refl;
  outstanding = refl;
  committing = refl;
  empty = refl;
  space = omega arith;
}

one_asleep : (t : System) × Reach four_idle t
unfolding begin_op
one_asleep = (
  _,
  later
      (later (later (later first (begins 0 _ refl refl)) (begins 1 _ refl refl))
        (begins 2 _ refl refl))
      (waits 3 refl refl),
)

one_asleep-asleep : get_elem? one_asleep.0.places 3 ≡ some asleep
unfolding one_asleep
one_asleep-asleep = refl

Reach-enters_example :
    (u : System) × Reach one_asleep.0 u × (get_elem? u.places 3 ≡ some (active 0))
Reach-enters_example = Reach-enters 3 four_idle-IsInitial refl one_asleep.1 (inr one_asleep-asleep)

-- An operation that would not leave room waits.
full_log : begin_op (record transaction { n = 15; outstanding = 1 }) ≡ none
unfolding begin_op
full_log = refl

-- A log of `logsize` blocks in all, as mkfs lays it out, turns the thirtieth block away.
mkfs_log :
    log_check (record (at_boot 2 30) { outstanding = 3; n = 29 }) ≡ panic "too big a transaction"
unfolding log_check
mkfs_log = refl
