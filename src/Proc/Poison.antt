-- ===== src/Proc/Poison.antt =====
-- `kill` of src/proc.c does not look at the state of the slot that it finds, and `allocproc` does not
-- clear the flag `killed`.
use waka_b4_research.Proc.{Proc, Kernel, ptr, Machine}
use waka_b4_research.Proc.Sleep.{kill, has_pid, slain}
use waka_b4_research.Proc.Table.{past_ptable, IsReady, restored-IsMasked}
use waka_b4_research.Proc.Alloc.{is_unused, allocproc}
use waka_b4_research.Proc.Born.{born}
use waka_b4_research.Proc.Kill.{kill-some}
use waka_b4_research.Proc.Born.{allocproc-some}
use waka_b4_research.Base.{
  ℕ, ◌≡◌, refl, ◌∙◌, true, false, arith, ◌==◌, set, set-set, get_elem?-set_of_some, Returns, M,
  ◌>>=◌, IsFirst, find_index-set, find_index-IsFirst,
}

abbrev pub kill_then_alloc : Machine → ℕ → M Kernel ℕ
kill_then_alloc m stack = do done ← kill m 0; allocproc m stack

-- Where the first slot with pid 0 is also the first unused slot, as after boot, and the lock of the
-- table is free, `kill(0)` finds that slot, and an `allocproc` with a stack after it returns that
-- slot with a process that is killed from the start.
pub kill_zero-killed :
    (m : Machine) (stack i : ℕ) (p : Proc) (k : Kernel)
    → IsReady k
    → IsFirst (has_pid m 0) k.procs i p
    → IsFirst is_unused k.procs i p
    → (stack == 0) ≡ false
    → Returns
        (λ r k'.
          (r ≡ ptr i)
          × (k'.procs ≡ set k.procs i (born m stack k.nextpid (slain m p)))
          × ((slain m p).killed ≡ 1))
        (kill_then_alloc m stack k)
kill_zero-killed m stack i p k v named free ne =
    rw (kill-some m 0 k i p v (find_index-IsFirst (has_pid m 0) k.procs i p named) free.at) (
      let (k'', run, c) =
        allocproc-some m k' (record { free = refl; masked = restored-IsMasked k.cpu v.masked }) i
          (slain m p)
          (find_index-set is_unused k.procs i p (slain m p)
            (find_index-IsFirst is_unused k.procs i p free) still)
          (get_elem?-set_of_some k.procs i p (slain m p) free.at) stack ne in
      rw run
        (refl, c.procs ∙ set-set k.procs i (slain m p) (born m stack k.nextpid (slain m p)), refl))
  where
    k' : Kernel
    k' = past_ptable m (record k { procs = set k.procs i (slain m p) })

    still : is_unused (slain m p) ≡ true
    still = ground (arith, free.passes)
