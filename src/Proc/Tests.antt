-- ===== src/Proc/Tests.antt =====
-- Runs of the process table of src/proc.c on concrete tables.
use waka_b4_research.Spinlock.{Lock}
use waka_b4_research.Schedlog.{Event, unused, sleeping, runnable, running, zombie}
use waka_b4_research.Proc.{Proc, Kernel, ptr, Machine}
use waka_b4_research.Proc.Sleep.{sleep, other, kill, has_pid, slain}
use waka_b4_research.Proc.Table.{IsReady}
use waka_b4_research.Proc.Alloc.{is_unused, allocproc}
use waka_b4_research.Proc.Born.{born}
use waka_b4_research.Proc.Exit.{wait, adopt_all}
use waka_b4_research.Spinlock.Section.{taken}
use waka_b4_research.Proc.Run.{scan_from}
use waka_b4_research.Proc.Handoff.{IsAsleep, sleep-other}
use waka_b4_research.Proc.Wait.{WaitSpec, wait_lem}
use waka_b4_research.Proc.Pids.{ArePids, pid_at, allocproc-ArePids}
use waka_b4_research.Proc.Kill.{KillEnds, kill_lem}
use waka_b4_research.Proc.Poison.{kill_then_alloc, kill_zero-killed}
use waka_b4_research.Proc.Orphans.{Adopted, adopt_all_lem}
use waka_b4_research.Proc.Pick.{PickSpec, scan_from_lem}
use waka_b4_research.Base.{
  ℕ, zero, suc, ◌<◌, ◌≡◌, refl, ◌≢◌, true, false, none, some, [], ◌∷◌, arith, get_elem?, set,
  Returns, IsFirst,
}

abbrev machine : Machine
machine = record {
  tsc = λ n. record { hi = 0; lo = n };
  me = 0;
  pcs = [];
  forkret = 4096;
  trapret = 8192;
}

abbrev free_slot : Proc
free_slot = record {
  sz = 0;
  pgdir = 0;
  kstack = 0;
  state = unused;
  pid = 0;
  parent = 0;
  tf_at = 0;
  tf = [];
  context_at = 0;
  context = [];
  chan = 0;
  killed = 0;
  ofile = [];
  cwd = 0;
  name = 0 ∷ [];
}

abbrev init : Proc
init = record free_slot { pid = 1; state = sleeping; chan = ptr 0 }

abbrev parent : Proc
parent = record free_slot { pid = 2; state = running; parent = ptr 0 }

abbrev ready_child : Proc
ready_child = record free_slot { pid = 3; state = runnable; parent = ptr 1 }

abbrev dead_child : Proc
dead_child = record free_slot { pid = 4; state = zombie; parent = ptr 1; kstack = 77; pgdir = 88 }

abbrev free_lock : Lock
free_lock = record { locked = 0; name = "ptable"; cpu = none; pcs = [] }

-- The parent of the two children runs.
abbrev kernel : Kernel
kernel = record {
  procs = init ∷ parent ∷ ready_child ∷ dead_child ∷ free_slot ∷ [];
  nextpid = 5;
  initproc = ptr 0;
  ptable_lock = free_lock;
  locks = λ _. free_lock;
  cpu = record { ncli = 0; intena = true; iflag = true };
  current = ptr 1;
  log = record {
    finished_fork = 0;
    value = 0;
    entries = λ _. record {
      clock = machine.tsc 0;
      pid = 0;
      name = [];
      event_name = Event.tick;
      prev_pstate = unused;
      next_pstate = unused;
      cpu = 0;
    };
    end_clock = machine.tsc 0;
    reads = 0;
  };
  clock_log = λ _ n. machine.tsc n;
  isnot_first_running = λ _. 0;
  calls = [];
}

kernel-IsReady : IsReady kernel
kernel-IsReady = record { free = refl; masked = record { off = λ h. absurd (omega arith) } }

-- The table after boot.
abbrev boot : Kernel
boot = record kernel { procs = init ∷ free_slot ∷ []; nextpid = 2; current = 0 }

boot-IsReady : IsReady boot
boot-IsReady = record { free = refl; masked = record { off = λ h. absurd (omega arith) } }

boot-ArePids : ArePids boot.procs 2
unfolding pid_at
boot-ArePids = record { unique = apart; below = small }
  where
    apart : (i j : ℕ) → i ≢ j → pid_at boot.procs i ≡ pid_at boot.procs j → pid_at boot.procs i ≡ 0
    apart zero zero ne e = absurd (ne refl)
    apart zero (suc zero) ne e = absurd (omega arith)
    apart zero (suc (suc j)) ne e = absurd (omega arith)
    apart (suc zero) j ne e = refl
    apart (suc (suc i)) j ne e = refl

    small : (i : ℕ) → pid_at boot.procs i < 2
    small zero = omega arith
    small (suc zero) = omega arith
    small (suc (suc i)) = omega arith

wait_lem_example : Returns (WaitSpec machine 1 parent kernel) (wait machine kernel)
wait_lem_example = wait_lem machine kernel 1 parent kernel-IsReady refl refl refl

allocproc-ArePids_example :
    Returns (λ _ k'. ArePids k'.procs k'.nextpid) (allocproc machine 9000 boot)
allocproc-ArePids_example =
    allocproc-ArePids machine 9000 boot boot-IsReady (omega arith) boot-ArePids

adopt_all_lem_example :
    Returns (λ _ k'. Adopted (ptr 1) 0 5 kernel k') (adopt_all machine (ptr 1) 5 0 kernel)
adopt_all_lem_example = adopt_all_lem machine (ptr 1) kernel (omega arith)

scan_from_lem_example : Returns (PickSpec kernel 0 5) (scan_from machine 5 0 kernel)
scan_from_lem_example = scan_from_lem machine 5 0 kernel (omega arith)

kill_lem_example : Returns (KillEnds machine 1 kernel) (kill machine 1 kernel)
kill_lem_example = kill_lem machine 1 kernel kernel-IsReady

kill_zero-killed_example :
    Returns
      (λ r k'.
        (r ≡ ptr 1)
        × (k'.procs ≡ set boot.procs 1 (born machine 9000 2 (slain machine free_slot)))
        × ((slain machine free_slot).killed ≡ 1))
      (kill_then_alloc machine 9000 boot)
kill_zero-killed_example =
    kill_zero-killed machine 9000 1 free_slot boot boot-IsReady named unclaimed refl
  where
    named : IsFirst (has_pid machine 0) boot.procs 1 free_slot
    named = record { at = refl; passes = refl; earlier = before }
      where
        before :
            (j : ℕ) (y : Proc)
            → j < 1
            → get_elem? boot.procs j ≡ some y
            → has_pid machine 0 y ≡ false
        before zero y h e = ground (arith)
        before (suc j) y h e = absurd (omega arith)

    unclaimed : IsFirst is_unused boot.procs 1 free_slot
    unclaimed = record { at = refl; passes = refl; earlier = before }
      where
        before : (j : ℕ) (y : Proc) → j < 1 → get_elem? boot.procs j ≡ some y → is_unused y ≡ false
        before zero y h e = ground (arith)
        before (suc j) y h e = absurd (omega arith)

-- The kernel in which the parent holds just the lock 99.
abbrev holding_one : Kernel
holding_one = record kernel {
  locks = λ _. taken 0 [] free_lock;
  cpu = record { ncli = 1; intena = true; iflag = false };
}

sleep-other_example :
    Returns
      (λ _ k'. IsAsleep machine 1 7 parent holding_one k' × ((k'.locks 99).locked ≡ 0))
      (sleep machine 7 (other 99) holding_one)
sleep-other_example =
    sleep-other machine holding_one 1 parent 99 7
      (record { current = refl; slot = refl; held = refl; free = refl; depth = refl; off = refl })

-- The kernel in which it holds just the lock of the table.
abbrev holding_table : Kernel
holding_table = record kernel {
  ptable_lock = taken 0 [] free_lock;
  cpu = record { ncli = 1; intena = true; iflag = false };
}
