-- ===== src/Kmem/FreeList.antt =====
-- `kfree` and `kalloc` of src/kalloc.c on a well formed free list.
use waka_b4_research.Base.{
  ℕ, ◌+◌, ◌%◌, ◌≤◌, ◌<◌, ◌≡◌, refl, ◌≢◌, ◌⊎◌, inl, inr, true, false, List, [], ◌∷◌, arith, ◌==◌,
  if◌then◌else◌, Bool-cases, Returns, ok, panic, update, NotIn, Distinct, update_self,
}
use waka_b4_research.Spinlock.{Cpu, Lock, pushcli}
use waka_b4_research.Spinlock.Nesting.{IsMasked, restored}
use waka_b4_research.Spinlock.Section.{taken, given_back, acquire-free, release-taken}
use waka_b4_research.Kmem.{
  Kmem, Site, page_size, fill_page, is_bad_page, lock_kmem, unlock_kmem, kfree, kalloc,
}

-- The words at `r`, at what it holds, and so on are the pages `xs`, up to a null.
abbrev pub Chain : (ℕ → ℕ) → ℕ → List ℕ → Type 0
Chain mem r [] = r ≡ 0
Chain mem r (x ∷ xs) = (r ≡ x) × (x ≢ 0) × Chain mem (mem x) xs

abbrev pub AreAligned : List ℕ → Type 0
AreAligned [] = Unit
AreAligned (x ∷ xs) = (x % page_size ≡ 0) × AreAligned xs

-- The free pages are `xs`, each once; the lock is free, and interrupts are masked if they are
-- counted as such.
pub record IsFree (k : Kmem) (xs : List ℕ) : Type 0 where
  pub chain : Chain k.mem k.freelist xs
  pub aligned : AreAligned xs
  pub distinct : Distinct xs
  pub unlocked : k.lock.locked ≡ 0
  pub masked : IsMasked k.cpu

-- Writes within page `v` leave a chain of other pages.
Chain-other_page :
    (v : ℕ) (mem mem' : ℕ → ℕ)
    → v % page_size ≡ 0
    → ((a : ℕ) → (a < v) ⊎ (v + page_size ≤ a) → mem' a ≡ mem a)
    → (xs : List ℕ) (r : ℕ) → NotIn v xs
    → AreAligned xs
    → Chain mem r xs
    → Chain mem' r xs
Chain-other_page v mem mem' av same [] r off al c = c
Chain-other_page v mem mem' av same (x ∷ xs) r off al c =
    let e : mem' x ≡ mem x = same x (omega (arith, off.0, al.0)) in
    (c.0, c.1, rw e (Chain-other_page v mem mem' av same xs (mem x) off.1 al.1 c.2))

-- Writes within a page that is not free.
pub IsFree-other_page :
    (k : Kmem) (xs : List ℕ) (v : ℕ) (mem : ℕ → ℕ)
    → IsFree k xs
    → v % page_size ≡ 0
    → NotIn v xs
    → ((a : ℕ) → (a < v) ⊎ (v + page_size ≤ a) → mem a ≡ k.mem a)
    → IsFree (record k { mem = mem }) xs
IsFree-other_page k xs v mem f aligned off same = record {
  chain = Chain-other_page v k.mem mem aligned same xs k.freelist off f.aligned f.chain;
  aligned = f.aligned;
  distinct = f.distinct;
  unlocked = f.unlocked;
  masked = f.masked;
}

-- The lock and the processor after a critical section.
abbrev lock_after : Site → Kmem → Lock
lock_after m k = if k.use_lock then given_back (taken m.me m.pcs k.lock) else k.lock

abbrev cpu_after : Kmem → Cpu
cpu_after k = if k.use_lock then restored k.cpu else k.cpu

module _ (m : Site) (k : Kmem) (free : k.lock.locked ≡ 0) (masked : IsMasked k.cpu) where
  abbrev locked : Kmem
  locked = record k {
    lock = if k.use_lock then taken m.me m.pcs k.lock else k.lock;
    cpu = if k.use_lock then pushcli k.cpu else k.cpu;
  }

  lock_kmem_lem : lock_kmem m k ≡ ok (tt, locked)
  unfolding lock_kmem
  lock_kmem_lem = elim (Bool-cases k.use_lock) [
    | inl e ↦ rw (e, acquire-free m.me m.pcs k.lock k.cpu free)
    | inr e ↦ rw e
  ]

  unlock_kmem_lem :
      (r : ℕ) (mem : ℕ → ℕ)
      → unlock_kmem m (record locked { freelist = r; mem = mem })
        ≡ ok (tt, record k { lock = lock_after m k; cpu = cpu_after k; freelist = r; mem = mem })
  unfolding unlock_kmem
  unlock_kmem_lem r mem = elim (Bool-cases k.use_lock) [
    | inl e ↦ rw (e, release-taken m.me m.pcs k.lock k.cpu masked)
    | inr e ↦ rw e
  ]

  lock_after-free : (lock_after m k).locked ≡ 0
  lock_after-free = elim (Bool-cases k.use_lock) [ inl e ↦ rw e | inr e ↦ rw e free ]

  cpu_after-IsMasked : IsMasked (cpu_after k)
  cpu_after-IsMasked = elim (Bool-cases k.use_lock) [
    | inl e ↦ rw e (record { off = masked.off })
    | inr e ↦ rw e masked
  ]

-- On a free list of pages `xs`, `kfree` of a page that it takes and that is not free puts the page
-- in front of them, and writes to no other page; `kfree` of any other address panics.
pub kfree_lem :
    (m : Site) (k : Kmem) (xs : List ℕ) (v : ℕ)
    → IsFree k xs
    → NotIn v xs
    → ((is_bad_page m v ≡ true) × (kfree m v k ≡ panic "kfree"))
      ⊎ ((is_bad_page m v ≡ false)
          × Returns
              (λ _ k'.
                IsFree k' (v ∷ xs)
                × (k'.use_lock ≡ k.use_lock)
                × ((a : ℕ) → (a < v) ⊎ (v + page_size ≤ a) → k'.mem a ≡ k.mem a))
              (kfree m v k))
unfolding kfree
kfree_lem m k xs v f off = elim (Bool-cases (is_bad_page m v)) [
  | inl bad ↦ inl (bad, rw bad)
  | inr good ↦
      let aligned : v % page_size ≡ 0 = ground arith in
      let filled = record k { mem = fill_page v k.mem } in
      let linked = update (fill_page v k.mem) v k.freelist in
      let same : (a : ℕ) → (a < v) ⊎ (v + page_size ≤ a) → linked a ≡ k.mem a =
        λ a out. ground arith in
      inr (
        good,
        rw
            (
              good,
              lock_kmem_lem m filled f.unlocked f.masked,
              unlock_kmem_lem m filled f.unlocked f.masked v linked,
            )
            (
              record {
                chain = (
                  refl,
                  λ zero_page. ground (arith, zero_page),
                  rw (update_self (fill_page v k.mem) v k.freelist) (
                      Chain-other_page v k.mem linked aligned same xs k.freelist off f.aligned
                        f.chain),
                );
                aligned = (aligned, f.aligned);
                distinct = (off, f.distinct);
                unlocked = lock_after-free m filled f.unlocked f.masked;
                masked = cpu_after-IsMasked m filled f.unlocked f.masked;
              },
              refl,
              same,
            ),
      )
]

abbrev pub Taken : List ℕ → ℕ → Kmem → Type 0
Taken [] r k = (r ≡ 0) × IsFree k []
Taken (x ∷ xs) r k = (r ≡ x) × IsFree k xs

-- `kalloc` returns the first page of the list, which is free no longer, or null where there is none;
-- it writes to no page.
pub kalloc_lem :
    (m : Site) (k : Kmem) (xs : List ℕ)
    → IsFree k xs
    → Returns (λ r k'. Taken xs r k' × (k'.mem ≡ k.mem) × (k'.use_lock ≡ k.use_lock)) (kalloc m k)
unfolding kalloc
kalloc_lem m k [] f =
    let empty : (k.freelist == 0) ≡ true = ground (arith, f.chain) in
    rw
      (
        lock_kmem_lem m k f.unlocked f.masked,
        empty,
        unlock_kmem_lem m k f.unlocked f.masked k.freelist k.mem,
      )
      (
        (
          f.chain,
          record {
            chain = f.chain;
            aligned = tt;
            distinct = tt;
            unlocked = lock_after-free m k f.unlocked f.masked;
            masked = cpu_after-IsMasked m k f.unlocked f.masked;
          },
        ),
        refl,
        refl,
      )
kalloc_lem m k (x ∷ xs) f =
    let some_page : (k.freelist == 0) ≡ false = ground (arith, f.chain) in
    rw
      (
        lock_kmem_lem m k f.unlocked f.masked,
        some_page,
        unlock_kmem_lem m k f.unlocked f.masked (k.mem k.freelist) k.mem,
      )
      (
        (
          f.chain.0,
          record {
            chain = rw (f.chain.0) f.chain.2;
            aligned = f.aligned.1;
            distinct = f.distinct.1;
            unlocked = lock_after-free m k f.unlocked f.masked;
            masked = cpu_after-IsMasked m k f.unlocked f.masked;
          },
        ),
        refl,
        refl,
      )
