-- ===== src/Spinlock/Nesting.antt =====
-- pushcli and popcli of src/spinlock.c: they nest, and restore the interrupt flag.
use waka_b4_research.Base.{
  ◌∙◌, ap, ℕ, zero, suc, ◌-◌, ◌<◌, ◌≡◌, refl, false, arith, ok, on_ok, Outcome, ◌==◌, if◌then◌else◌,
  length, length-replicate,
}
use waka_b4_research.Spinlock.{Cpu, Lock, held_by, pushcli, popcli, holding, getcallerpcs, walk_pcs}

-- The state of a processor between two calls: while the count is not 0, interrupts are off.
pub record IsMasked (c : Cpu) : Type 0 where
  pub off : 0 < c.ncli → c.iflag ≡ false

pub pushcli-IsMasked : (c : Cpu) → IsMasked (pushcli c)
unfolding pushcli
pushcli-IsMasked c = record { off = λ _. refl }

-- The processor after a matched pair: only the saved flag may differ.
abbrev pub restored : Cpu → Cpu
restored c = record c { intena = if c.ncli == 0 then c.iflag else c.intena }

-- A popcli undoes the pushcli before it.
pub popcli-pushcli : (c : Cpu) → IsMasked c → popcli (pushcli c) ≡ ok (restored c)
unfolding pushcli popcli
popcli-pushcli c v = ground (arith, v.off)

-- `n` calls of pushcli, and of popcli.
pub push_times : ℕ → Cpu → Cpu
push_times zero c = c
push_times (suc n) c = pushcli (push_times n c)

pub pop_times : ℕ → Cpu → Outcome Cpu
pop_times zero c = ok c
pop_times (suc n) c = on_ok (popcli c) (pop_times n)

pub restored_of_nested : (c : Cpu) → restored (pushcli c) ≡ pushcli c
unfolding pushcli
restored_of_nested c = ground arith

-- From a processor whose interrupts are off if it counts them as masked, `n + 1` calls of pushcli
-- are undone by as many popcli calls, none of which panics: the count and the interrupt flag are
-- what they were before the first.
pub pop_times-push_times :
    (n : ℕ) (c : Cpu) → IsMasked c → pop_times (suc n) (push_times (suc n) c) ≡ ok (restored c)
unfolding pop_times push_times
pop_times-push_times zero c v = rw (popcli-pushcli c v)
pop_times-push_times (suc n) c v =
    rw
      (
        popcli-pushcli (push_times (suc n) c) (pushcli-IsMasked (push_times n c)),
        restored_of_nested (push_times n c),
      )
      (pop_times-push_times n c v)

pub holding_lem :
    (me : ℕ) (l : Lock) (c : Cpu) → IsMasked c → holding me l c ≡ ok (held_by l me, restored c)
unfolding holding
holding_lem me l c v = rw (popcli-pushcli c v)

-- Where interrupts are masked already, `holding` leaves the processor as it is.
pub holding_nested :
    (me : ℕ) (l : Lock) (c : Cpu) → 0 < c.ncli → IsMasked c → holding me l c ≡ ok (held_by l me, c)
holding_nested me l c deep v =
    let same : restored c ≡ c = ground arith in
    holding_lem me l c v ∙ ap (λ (c' : Cpu). ok (held_by l me, c')) same

pub pushcli-deep : (c : Cpu) → 0 < (pushcli c).ncli
unfolding pushcli
pushcli-deep c = omega arith

length-walk_pcs : (mem : ℕ → ℕ) (n ebp : ℕ) → length (walk_pcs mem n ebp) ≡ n
unfolding walk_pcs
length-walk_pcs mem zero ebp = refl
length-walk_pcs mem (suc n) ebp =
    ground (arith, length-walk_pcs mem n (mem ebp), length-replicate {A = ℕ} n 0)

pub length-getcallerpcs : (mem : ℕ → ℕ) (v : ℕ) → length (getcallerpcs mem v) ≡ 10
unfolding getcallerpcs
length-getcallerpcs mem v = length-walk_pcs mem 10 (v - 8)
