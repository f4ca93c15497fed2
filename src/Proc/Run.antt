-- ===== src/Proc/Run.antt =====
-- The scheduler of src/proc.c (the round robin loop, which IS_ROUNDROBIN selects).
use waka_b4_research.Schedlog.{Event, runnable, running, acquired, released}
use waka_b4_research.Proc.{
  Kernel, switchuvm, switchkvm, sti, is, ptr, call, load, store, Machine, acquire_ptable,
  release_ptable, lock_event, event, stamp,
}
use waka_b4_research.Base.{
  ℕ, zero, suc, ◌+◌, Bool, true, false, not, Option, none, some, ◌∷◌, ◌==◌, if◌then◌else◌, M, pure,
  get, modify, ◌>>=◌, ◌>>◌, update,
}

module _ (m : Machine) where
  open m use {tsc}

  -- What the loop does with slot `i`, up to `swtch`: whether it switches to the process there.
  unfoldable pub dispatch : ℕ → M Kernel Bool
  dispatch i = do
    p ← load (ptr i)
    if not (is p.state runnable) then pure false else do
      modify (λ k. record k { current = ptr i })
      call (switchuvm (ptr i))
      k ← get
      (if k.isnot_first_running p.pid == 0
          then (do
            stamp m p.pid 1
            modify (λ k. record k { isnot_first_running = update k.isnot_first_running p.pid 1 }))
          else pure tt)
      event m p Event.tick running
      store (ptr i) (record p { state = running })
      pure true

  -- After `swtch` back to the scheduler.
  abbrev pub undispatch : M Kernel (Unit {0})
  undispatch = do call switchkvm; modify (λ k. record k { current = 0 })

  -- The slots from `i` on, `n` of them, up to the first that is switched to.
  unfoldable pub scan_from : ℕ → ℕ → M Kernel (Option ℕ)
  scan_from zero i = pure none
  scan_from (suc n) i = do went ← dispatch i; if went then pure (some i) else scan_from n (i + 1)

  -- The two ends of a pass over the table.
  unfoldable pub begin_pass : M Kernel (Unit {0})
  begin_pass = do
    modify (λ k. record k { cpu = record (k.cpu) { iflag = true }; calls = sti ∷ k.calls })
    lock_event m released acquired
    acquire_ptable m

  unfoldable pub end_pass : M Kernel (Unit {0})
  end_pass = do lock_event m acquired released; release_ptable m
