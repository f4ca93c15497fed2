-- ===== src/Spinlock.antt =====
-- src/spinlock.c and src/spinlock.h: the lock word, the nesting of cli on one processor, and the
-- functions `acquire`, `release` and `holding` as one processor runs them. `Spinlock.Race` has the
-- same steps interleaved over many processors.
pub mod Nesting
pub mod Section
pub mod Race
mod Tests
use waka_b4_research.Base.{
  ℕ, zero, suc, ◌+◌, ◌-◌, String, Bool, true, false, ◌&&◌, ◌||◌, not, Option, none, some, List, [],
  ◌∷◌, ◌==◌, ltb, if◌then◌else◌, Outcome, ok, panic, spins, on_ok, replicate,
}

-- `struct cpu`, its members that the locks use; `iflag` is the bit FL_IF of the flags register.
pub record Cpu : Type 0 where
  pub ncli : ℕ
  pub intena : Bool
  pub iflag : Bool

-- `struct spinlock`; `cpu` is the processor's index, or `none` for the null pointer.
pub record Lock : Type 0 where
  pub locked : ℕ
  pub name : String
  pub cpu : Option ℕ
  pub pcs : List ℕ

unfoldable pub init_lock : String → List ℕ → Lock
init_lock name pcs = record { locked = 0; name = name; cpu = none; pcs = pcs }

abbrev pub cli : Cpu → Cpu
cli c = record c { iflag = false }

abbrev pub sti : Cpu → Cpu
sti c = record c { iflag = true }

unfoldable pub pushcli : Cpu → Cpu
pushcli c = record c {
  ncli = c.ncli + 1;
  intena = if c.ncli == 0 then c.iflag else c.intena;
  iflag = false;
}

-- `--ncli < 0` is the count 0 before the decrement.
unfoldable pub popcli : Cpu → Outcome Cpu
popcli c =
    if c.iflag
    then panic "popcli - interruptible"
    else if c.ncli == 0
    then panic "popcli"
    else let left = record c { ncli = c.ncli - 1 } in
      ok (if (c.ncli - 1 == 0) && c.intena then sti left else left)

-- Whether two processor pointers are equal.
abbrev pub is_cpu : Option ℕ → ℕ → Bool
is_cpu none me = false
is_cpu (some i) me = i == me

-- The value that `holding` returns, without its pushcli and popcli.
abbrev pub held_by : Lock → ℕ → Bool
held_by l me = not (l.locked == 0) && is_cpu l.cpu me

unfoldable pub holding : ℕ → Lock → Cpu → Outcome (Bool × Cpu)
unfolding pushcli popcli
holding me l c = on_ok (popcli (pushcli c)) λ c'. ok (held_by l me, c')

-- `xchg(&lk->locked, 1)`: the old word, and the lock with the word 1.
unfoldable pub xchg : Lock → ℕ × Lock
xchg l = (l.locked, record l { locked = 1 })

abbrev pub set_owner : ℕ → List ℕ → Lock → Lock
set_owner me pcs l = record l { cpu = some me; pcs = pcs }

abbrev clear_head : List ℕ → List ℕ
clear_head [] = []
clear_head (_ ∷ pcs) = 0 ∷ pcs

abbrev pub clear_owner : Lock → Lock
clear_owner l = record l { pcs = clear_head l.pcs; cpu = none }

abbrev pub store_zero : Lock → Lock
store_zero l = record l { locked = 0 }

-- The walk over at most `n` saved frames of `getcallerpcs`: it stops at a null, a user or an
-- all-ones frame pointer, and fills the rest with zeros.
walk_pcs : (ℕ → ℕ) → ℕ → ℕ → List ℕ
walk_pcs mem zero ebp = []
walk_pcs mem (suc n) ebp =
    let rest = walk_pcs mem n (mem ebp) in
    if (ebp == 0) || ltb ebp 0x8000_0000 || (ebp == 0xffff_ffff)
    then replicate (suc n) 0
    else mem (ebp + 4) ∷ rest

-- `v` is the address of the caller's first argument, two words above its frame pointer.
unfoldable pub getcallerpcs : (ℕ → ℕ) → ℕ → List ℕ
unfolding walk_pcs
getcallerpcs mem v = walk_pcs mem 10 (v - 8)

-- `pcs` is what getcallerpcs finds. A lock word that is not 0 is another processor's here, and the
-- loop on xchg goes on until that processor stores 0.
unfoldable pub acquire : ℕ → List ℕ → Lock → Cpu → Outcome (Lock × Cpu)
unfolding holding xchg
acquire me pcs l c = on_ok (holding me l (pushcli c)) λ (held, c').
    if held
    then panic "acquire"
    else let (old, l') = xchg l in if old == 0 then ok (set_owner me pcs l', c') else spins

unfoldable pub release : ℕ → Lock → Cpu → Outcome (Lock × Cpu)
unfolding holding
release me l c = on_ok (holding me l c) λ (held, c').
    if not held
    then panic "release"
    else on_ok (popcli c') λ c''. ok (store_zero (clear_owner l), c'')
