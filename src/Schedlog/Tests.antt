-- ===== src/Schedlog/Tests.antt =====
-- Runs of `writelog` and `mystrcmp` of src/proc.c on concrete logs and strings.
use waka_b4_research.Schedlog.{
  Clock, Event, running, runnable, Entry, Log, bufsize, bufwrite_name, mystrcmp,
}
use waka_b4_research.Schedlog.Order.{
  Request, line, line_of, recorded, logged, run, write, recorded-run, write-overrun,
}
use waka_b4_research.Base.{ℕ, ◌-◌, ◌+◌, ◌≡◌, refl, arith, [], ◌∷◌, ◌++◌, take, minus_one}

abbrev tsc : ℕ → Clock
tsc n = record { hi = 0; lo = 100 + n }

abbrev no_entry : Entry
no_entry = record {
  clock = tsc 0;
  pid = 0;
  name = [];
  event_name = Event.allocproc;
  prev_pstate = running;
  next_pstate = running;
  cpu = 0;
}

-- A log with `n` events, of a system that records.
abbrev log_of : ℕ → Log
log_of n = record {
  finished_fork = 1;
  value = n;
  entries = λ _. no_entry;
  end_clock = tsc 0;
  reads = 0;
}

abbrev yields : Request
yields = record {
  pid = 4;
  name = bufwrite_name;
  event = Event.yield;
  prev = running;
  next = runnable;
  cpu = 1;
}

abbrev other_name : Request
other_name = record yields { name = b's' ∷ b'h' ∷ 0 ∷ [] }

abbrev no_pid : Request
no_pid = record yields { pid = minus_one }

-- Of three calls the first is recorded.
recorded-run_example :
    recorded (run tsc (yields ∷ other_name ∷ no_pid ∷ []) (log_of 2))
    ≡ recorded (log_of 2) ++ take (bufsize - 2) (line_of yields ∷ [])
unfolding logged mystrcmp
recorded-run_example = recorded-run tsc (yields ∷ other_name ∷ no_pid ∷ []) (log_of 2)

write-overrun_example :
    (line ((write tsc yields (log_of 499)).entries bufsize) ≡ line_of yields)
    × ((write tsc yields (log_of 499)).value ≡ bufsize)
unfolding mystrcmp
write-overrun_example = write-overrun tsc yields (log_of 499) refl (omega arith)
