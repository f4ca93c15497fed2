-- ===== src/Kmem.antt =====
-- src/kalloc.c: the free list of physical pages. Memory is words by address; the first word of a
-- free page is the pointer `next` of `struct run`.
pub mod FreeList
pub mod Range
mod Tests
use waka_b4_research.Base.{
  ℕ, zero, suc, ◌+◌, ◌-◌, ◌*◌, ◌/◌, ◌%◌, Bool, true, false, ◌&&◌, ◌||◌, not, List, ◌==◌, ltb, leb,
  if◌then◌else◌, M, ok, on_ok, pure, fail, get, modify, ◌>>=◌, ◌>>◌, and_then, update, sub_word,
}
use waka_b4_research.Spinlock.{Cpu, Lock, acquire, release}

-- `kmem`, the processor and the memory.
pub record Kmem : Type 0 where
  pub lock : Lock
  pub use_lock : Bool
  pub freelist : ℕ
  pub cpu : Cpu
  pub mem : ℕ → ℕ

abbrev pub page_size : ℕ
page_size = 4096

-- `PHYSTOP` and `KERNBASE`
abbrev pub phys_stop : ℕ
phys_stop = 0xE00_0000

abbrev pub kern_base : ℕ
kern_base = 0x8000_0000

-- `PGROUNDUP`, where the sum is below 2 ^ 32.
abbrev pub page_round_up : ℕ → ℕ
page_round_up a = (a + page_size - 1) / page_size * page_size

-- `memset(v, 1, PGSIZE)`, word by word.
abbrev pub fill_page : ℕ → (ℕ → ℕ) → ℕ → ℕ
fill_page v mem a = if leb v a && ltb a (v + page_size) then 0x0101_0101 else mem a

-- What a run depends on: the processor, its stack for getcallerpcs, and the address `end` of the
-- linker script.
pub record Site : Type 0 where
  pub me : ℕ
  pub pcs : List ℕ
  pub kernel_end : ℕ

module _ (m : Site) where
  open m use {me, pcs, kernel_end}

  unfoldable pub lock_kmem : M Kmem (Unit {0})
  lock_kmem k =
      if k.use_lock
      then on_ok (acquire me pcs k.lock k.cpu) (λ (l, c). ok (tt, record k { lock = l; cpu = c }))
      else ok (tt, k)

  unfoldable pub unlock_kmem : M Kmem (Unit {0})
  unlock_kmem k =
      if k.use_lock
      then on_ok (release me k.lock k.cpu) (λ (l, c). ok (tt, record k { lock = l; cpu = c }))
      else ok (tt, k)

  -- Not a page that `kfree` takes.
  abbrev pub is_bad_page : ℕ → Bool
  is_bad_page v =
      not (v % page_size == 0) || ltb v kernel_end || leb phys_stop (sub_word v kern_base)

  unfoldable pub kfree : ℕ → M Kmem (Unit {0})
  kfree v = if is_bad_page v then fail "kfree" else do
    modify (λ k. record k { mem = fill_page v k.mem })
    lock_kmem
    modify (λ k. record k { mem = update k.mem v k.freelist; freelist = v })
    unlock_kmem

  unfoldable pub kalloc : M Kmem ℕ
  kalloc = do
    lock_kmem
    k ← get
    let r = k.freelist
    (if r == 0 then pure tt else modify (λ k. record k { freelist = k.mem r }))
    unlock_kmem
    pure r

  -- The loop of `freerange` from page `p` on, on fuel.
  unfoldable pub free_from : ℕ → ℕ → ℕ → M Kmem (Unit {0})
  free_from zero p vend = fail "out of fuel"
  free_from (suc fuel) p vend =
      let later = free_from fuel (p + page_size) vend in
      if leb (p + page_size) vend then (do kfree p; later) else pure tt

  unfoldable pub freerange : ℕ → ℕ → M Kmem (Unit {0})
  unfolding free_from
  freerange vstart vend = free_from (vend / page_size + 1) (page_round_up vstart) vend

  -- `kinit1`, after initlock, and `kinit2`.
  unfoldable pub kinit1 : Lock → ℕ → ℕ → M Kmem (Unit {0})
  kinit1 free_lock vstart vend = do
    modify (λ k. record k { lock = free_lock; use_lock = false })
    freerange vstart vend

  unfoldable pub kinit2 : ℕ → ℕ → M Kmem (Unit {0})
  kinit2 vstart vend = do freerange vstart vend; modify (λ k. record k { use_lock = true })
