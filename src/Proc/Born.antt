-- ===== src/Proc/Born.antt =====
-- `allocproc` of src/proc.c: the process that it makes.
use waka_b4_research.Schedlog.{Event, unused, embryo, acquired, released, writelog}
use waka_b4_research.Proc.{Proc, Kernel, poke, ptr, Machine, event}
use waka_b4_research.Proc.Table.{
  lock_event_lem, in_ptable, past_ptable, acquire_ptable-free, release_ptable-taken, IsReady,
  load_lem, store_lem, restored-IsMasked,
}
use waka_b4_research.Proc.Alloc.{is_unused, set_stack, allocproc}
use waka_b4_research.Base.{
  ℕ, ◌+◌, ◌-◌, ◌≡◌, refl, ◌∙◌, ◌⊎◌, inl, inr, false, none, some, [], ◌∷◌, arith, ◌==◌,
  if◌then◌else◌, Bool-cases, get_elem?, set, set-set, get_elem?-set_of_some, ok, find_index,
  IsFirst, NonePass, find_index-cases, add_word,
}

-- The two writes with the lock held: a fresh pid and the state EMBRYO.
abbrev pub claimed : ℕ → Proc → Proc
claimed pid p = record p { pid = pid; state = embryo }

-- The process with its kernel stack.
abbrev pub born : Machine → ℕ → ℕ → Proc → Proc
born m stack pid p = record (claimed pid p) {
  kstack = stack;
  tf_at = stack + 4096 - 76;
  context_at = stack + 4096 - 76 - 4 - 20;
  context = 0 ∷ 0 ∷ 0 ∷ 0 ∷ m.forkret ∷ [];
}

-- Kernel `k'` differs from `k` in slot `i`, which holds `p`, and in the next pid.
pub record Claims (k k' : Kernel) (i : ℕ) (p : Proc) : Type 0 where
  pub procs : k'.procs ≡ set k.procs i p
  pub nextpid : k'.nextpid ≡ add_word k.nextpid 1
  pub current : k'.current ≡ k.current
  pub initproc : k'.initproc ≡ k.initproc
  pub ready : IsReady k'

-- A process with its stack pointer written, and with the layout of the stack.
abbrev based : ℕ → Proc → Proc
based stack q = record q { kstack = stack }

abbrev stacked : Machine → ℕ → Proc → Proc
stacked m stack q = record q {
  kstack = stack;
  tf_at = stack + 4096 - 76;
  context_at = stack + 4096 - 76 - 4 - 20;
  context = 0 ∷ 0 ∷ 0 ∷ 0 ∷ m.forkret ∷ [];
}

module _ (m : Machine) (k : Kernel) (i : ℕ) (q : Proc) where
  with_based : ℕ → Kernel
  with_based stack = record k { procs = set k.procs i (based stack q) }

  -- The kernel after `set_stack` without and with a stack.
  unstacked_kernel : Kernel
  unstacked_kernel = record k {
    procs = set (set k.procs i (based 0 q)) i (record q { kstack = 0; state = unused });
  }

  stacked_kernel : ℕ → Kernel
  stacked_kernel stack = record k {
    procs = set (set k.procs i (based stack q)) i (stacked m stack q);
    calls = poke (stack + 4096 - 76 - 4) m.trapret ∷ k.calls;
  }

  module _ (at : get_elem? k.procs i ≡ some q) where
    set_stack-zero : set_stack m (ptr i) 0 k ≡ ok (0, unstacked_kernel)
    unfolding set_stack with_based unstacked_kernel
    set_stack-zero = rw (
      load_lem i k q at,
      store_lem i (based 0 q) k,
      load_lem i (with_based 0) (based 0 q) (get_elem?-set_of_some k.procs i q (based 0 q) at),
      store_lem i (record q { kstack = 0; state = unused }) (with_based 0),
    )

    set_stack-some :
        (stack : ℕ)
        → (stack == 0) ≡ false
        → set_stack m (ptr i) stack k ≡ ok (ptr i, stacked_kernel stack)
    unfolding set_stack with_based stacked_kernel
    set_stack-some stack ne = rw (
      load_lem i k q at,
      store_lem i (based stack q) k,
      ne,
      load_lem i (with_based stack) (based stack q)
          (get_elem?-set_of_some k.procs i q (based stack q) at),
      store_lem i (stacked m stack q)
          (record (with_based stack) { calls = poke (stack + 4096 - 76 - 4) m.trapret ∷ k.calls }),
    )

module _ (m : Machine) (k : Kernel) (v : IsReady k) where
  pub allocproc-none :
      (stack : ℕ)
      → find_index is_unused k.procs ≡ none
      → allocproc m stack k ≡ ok (0, past_ptable m k)
  unfolding allocproc
  allocproc-none stack e = rw (
    acquire_ptable-free m k v.free,
    lock_event_lem m released acquired (in_ptable m k),
    e,
    lock_event_lem m acquired released (in_ptable m k),
    release_ptable-taken m k v.masked,
  )

  module _ (i : ℕ) (p : Proc) (e : find_index is_unused k.procs ≡ some i)
      (at : get_elem? k.procs i ≡ some p) where
    numbered : Proc
    numbered = record p { pid = k.nextpid }

    -- The kernel when the lock is given back, without the lock.
    claim : Kernel
    unfolding numbered
    claim = record k {
      procs = set (set k.procs i numbered) i (claimed k.nextpid p);
      nextpid = add_word k.nextpid 1;
      log = writelog m.tsc m.me k.nextpid p.name Event.allocproc p.state embryo k.log;
    }

    numbered_kernel : Kernel
    unfolding numbered
    numbered_kernel = record (in_ptable m k) {
      procs = set k.procs i numbered;
      nextpid = add_word k.nextpid 1;
    }

    allocproc_claims :
        (stack : ℕ) → allocproc m stack k ≡ set_stack m (ptr i) stack (past_ptable m claim)
    unfolding allocproc numbered claim event numbered_kernel
    allocproc_claims stack = rw (
      acquire_ptable-free m k v.free,
      lock_event_lem m released acquired (in_ptable m k),
      e,
      load_lem i (in_ptable m k) p at,
      store_lem i numbered (in_ptable m k),
      load_lem i numbered_kernel numbered (get_elem?-set_of_some k.procs i p numbered at),
      store_lem i (claimed k.nextpid p) (record numbered_kernel { log = claim.log }),
      lock_event_lem m acquired released (in_ptable m claim),
      release_ptable-taken m claim v.masked,
    )

    claim_at : get_elem? (past_ptable m claim).procs i ≡ some (claimed k.nextpid p)
    unfolding claim
    claim_at =
        get_elem?-set_of_some (set k.procs i numbered) i numbered (claimed k.nextpid p)
          (get_elem?-set_of_some k.procs i p numbered at)

    claim_procs :
        (a b : Proc)
        → set (set (set (set k.procs i numbered) i (claimed k.nextpid p)) i a) i b ≡ set k.procs i b
    claim_procs a b = simp set-set

    -- `allocproc` with a kernel stack: it returns the first unused slot, which holds the new process
    -- with the next pid, in the state EMBRYO; no other slot changes and the lock is free again.
    pub allocproc-some :
        (stack : ℕ)
        → (stack == 0) ≡ false
        → (k' : Kernel) × (allocproc m stack k ≡ ok (ptr i, k'))
          × Claims k k' i (born m stack k.nextpid p)
    unfolding claim stacked_kernel
    allocproc-some stack ne = (
      stacked_kernel m (past_ptable m claim) i (claimed k.nextpid p) stack,
      allocproc_claims stack
          ∙ set_stack-some m (past_ptable m claim) i (claimed k.nextpid p) claim_at stack ne,
      record {
        procs = claim_procs _ _;
        nextpid = refl;
        current = refl;
        initproc = refl;
        ready = record { free = refl; masked = restored-IsMasked k.cpu v.masked };
      },
    )

    -- Without one (kalloc failed) it returns null, and the slot is unused again; it keeps the pid.
    pub allocproc-no_stack :
        (k' : Kernel) × (allocproc m 0 k ≡ ok (0, k'))
        × Claims k k' i (record p { pid = k.nextpid; kstack = 0; state = unused })
    unfolding claim unstacked_kernel
    allocproc-no_stack = (
      unstacked_kernel m (past_ptable m claim) i (claimed k.nextpid p),
      allocproc_claims 0 ∙ set_stack-zero m (past_ptable m claim) i (claimed k.nextpid p) claim_at,
      record {
        procs = claim_procs _ _;
        nextpid = refl;
        current = refl;
        initproc = refl;
        ready = record { free = refl; masked = restored-IsMasked k.cpu v.masked };
      },
    )

-- The process that a call of `allocproc` leaves in the slot it claims.
abbrev pub claimant : Machine → ℕ → ℕ → Proc → Proc
claimant m stack pid p =
    if stack == 0 then record p { pid = pid; kstack = 0; state = unused } else born m stack pid p

pub allocproc_lem :
    (m : Machine) (stack : ℕ) (k : Kernel)
    → IsReady k
    → ((allocproc m stack k ≡ ok (0, past_ptable m k)) × NonePass is_unused k.procs)
      ⊎ ((i : ℕ) × (p : Proc) × (k' : Kernel) × IsFirst is_unused k.procs i p
          × (allocproc m stack k ≡ ok (if stack == 0 then 0 else ptr i, k'))
          × Claims k k' i (claimant m stack k.nextpid p))
allocproc_lem m stack k v = elim (find_index-cases is_unused k.procs) [
  | inl (e, full) ↦ inl (allocproc-none m k v stack e, full)
  | inr (i, p, e, f) ↦ elim (Bool-cases (stack == 0)) [
    | inr ne ↦
        let (k', run, c) = allocproc-some m k v i p e f.at stack ne in
        inr (i, p, k', f, rw ne run, rw ne c)
    | inl zero' ↦
        let (k', run, c) = allocproc-no_stack m k v i p e f.at in
        let nothing : stack ≡ 0 = ground arith in inr (i, p, k', f, rw nothing run, rw nothing c)
  ]
]
