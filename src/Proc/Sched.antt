-- ===== src/Proc/Sched.antt =====
-- `sched`, `sleep` and `yield` of src/proc.c up to the switch to the scheduler: none of the checks of
-- `sched` fails.
use waka_b4_research.Spinlock.{Cpu, held_by}
use waka_b4_research.Spinlock.Nesting.{restored, holding_nested}
use waka_b4_research.Schedlog.{Event, sleeping, running, writelog}
use waka_b4_research.Proc.{Proc, Kernel, is, ptr, Machine, event, myproc}
use waka_b4_research.Proc.Sleep.{doze, holding_ptable, sleep, sched, table}
use waka_b4_research.Proc.Table.{myproc_lem, load_lem, store_lem}
use waka_b4_research.Base.{
  ℕ, ◌≡◌, refl, ap, ◌∙◌, Bool, true, false, some, arith, ◌==◌, get_elem?, set,
  get_elem?-set_of_some, ok,
}

-- Process `p` in slot `i` runs on this processor, with the lock of the table held and no other.
pub record IsSwitching (m : Machine) (k : Kernel) (i : ℕ) (p : Proc) : Type 0 where
  pub current : k.current ≡ ptr i
  pub slot : get_elem? k.procs i ≡ some p
  pub held : held_by k.ptable_lock m.me ≡ true
  pub depth : k.cpu.ncli ≡ 1
  pub off : k.cpu.iflag ≡ false

pub not_null : (i : ℕ) → (ptr i == 0) ≡ false
not_null i = ground arith

pub restored_of_one : (c : Cpu) → c.ncli ≡ 1 → restored c ≡ c
restored_of_one c e = ground arith

module _ (m : Machine) (k : Kernel) (i : ℕ) (p : Proc) (v : IsSwitching m k i p) where
  pub myproc-switching : myproc k ≡ ok (ptr i, k)
  myproc-switching =
      myproc_lem k (record { off = λ _. v.off })
      ∙ ap (λ (c : Cpu). ok (k.current, record k { cpu = c })) (restored_of_one k.cpu v.depth)
      ∙ ap (λ (a : ℕ). ok (a, k)) v.current

  holding_ptable-switching : holding_ptable m k ≡ ok (true, k)
  unfolding holding_ptable
  holding_ptable-switching =
      rw (holding_nested m.me k.ptable_lock k.cpu (omega arith) (record { off = λ _. v.off }))
        (ap (λ (b : Bool). ok (b, k)) v.held)

  -- With the lock of the table and no other held, and the process not marked as running, `sched`
  -- reaches the switch.
  pub sched_lem : is p.state running ≡ false → sched m k ≡ ok (k.cpu.intena, k)
  unfolding sched
  sched_lem stopped =
      let one : (k.cpu.ncli == 1) ≡ true = ground (arith, v.depth) in
      rw (myproc-switching, holding_ptable-switching, one, load_lem i k p v.slot, stopped, v.off)

  -- `sleep` on the lock of the table itself, as `wait` calls it.
  module _ (chan : ℕ) where
    abbrev listening : Proc
    listening = record p { chan = chan }

    abbrev asleep : Proc
    asleep = record p { chan = chan; state = sleeping }

    listening_kernel : Kernel
    listening_kernel = record k { procs = set k.procs i listening }

    -- The kernel at the switch: the process sleeps on `chan`.
    unfoldable pub asleep_kernel : Kernel
    asleep_kernel = record k {
      procs = set (set k.procs i listening) i asleep;
      log = writelog m.tsc m.me p.pid p.name Event.sleep p.state sleeping k.log;
    }

    asleep-IsSwitching : IsSwitching m asleep_kernel i asleep
    unfolding asleep_kernel
    asleep-IsSwitching = record {
      current = v.current;
      slot =
          get_elem?-set_of_some (set k.procs i listening) i listening asleep
            (get_elem?-set_of_some k.procs i p listening v.slot);
      held = v.held;
      depth = v.depth;
      off = v.off;
    }

module _ (m : Machine) (k : Kernel) (i : ℕ) (p : Proc) (chan : ℕ) where
  pub doze_lem :
      (v : IsSwitching m k i p)
      → doze m (ptr i) chan k ≡ ok (k.cpu.intena, asleep_kernel m k i p v chan)
  unfolding doze asleep_kernel listening_kernel event
  doze_lem v =
      rw
        (
          load_lem i k p v.slot,
          store_lem i (listening m k i p v chan) k,
          load_lem i (listening_kernel m k i p v chan) (listening m k i p v chan)
              (get_elem?-set_of_some k.procs i p (listening m k i p v chan) v.slot),
          store_lem i (asleep m k i p v chan) (record (listening_kernel m k i p v chan) {
            log = (asleep_kernel m k i p v chan).log;
          }),
        )
        (sched_lem m (asleep_kernel m k i p v chan) i (asleep m k i p v chan)
          (asleep-IsSwitching m k i p v chan) refl)

  -- If process `p` in slot `i` runs here and holds the lock of the table and no other, `sleep` on
  -- that lock, as `wait` calls it, passes every check of `sched`, marks the process as sleeping on
  -- `chan`, and reaches the switch with the lock still held.
  pub sleep-table :
      (v : IsSwitching m k i p)
      → sleep m chan table k ≡ ok (k.cpu.intena, asleep_kernel m k i p v chan)
  unfolding sleep
  sleep-table v = rw (myproc-switching m k i p v, not_null i) (doze_lem v)
