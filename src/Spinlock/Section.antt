-- ===== src/Spinlock/Section.antt =====
-- `acquire` and `release` of src/spinlock.c on one processor: a critical section, and its misuses.
use waka_b4_research.Base.{ℕ, ◌<◌, ◌≡◌, List, arith, ok, panic, spins, on_ok, ◌==◌, if◌then◌else◌}
use waka_b4_research.Spinlock.{
  Cpu, Lock, held_by, is_cpu, pushcli, popcli, xchg, set_owner, clear_owner, store_zero, acquire,
  release,
}
use waka_b4_research.Spinlock.Nesting.{
  IsMasked, restored, pushcli-IsMasked, holding_nested, pushcli-deep, popcli-pushcli,
}

-- A lock that is taken by `me`, and one that is given back.
abbrev pub taken : ℕ → List ℕ → Lock → Lock
taken me pcs l = set_owner me pcs (record l { locked = 1 })

abbrev pub given_back : Lock → Lock
given_back l = store_zero (clear_owner l)

module _ (me : ℕ) (pcs : List ℕ) (l : Lock) (c : Cpu) where
  pub acquire-free : l.locked ≡ 0 → acquire me pcs l c ≡ ok (taken me pcs l, pushcli c)
  unfolding acquire xchg
  acquire-free free =
      rw (holding_nested me l (pushcli c) (pushcli-deep c) (pushcli-IsMasked c)) (ground arith)

  -- What `acquire` does in every state: on a free lock it returns with the lock taken and one more
  -- level of masking; on the caller's own lock it panics; on another's it spins.
  pub acquire_lem : acquire me pcs l c ≡ (
      if l.locked == 0
      then ok (taken me pcs l, pushcli c)
      else if is_cpu l.cpu me
      then panic "acquire"
      else spins)
  unfolding acquire xchg
  acquire_lem =
      rw (holding_nested me l (pushcli c) (pushcli-deep c) (pushcli-IsMasked c)) (ground arith)

  -- What release does after a masked call: it panics unless the caller holds the lock.
  pub release_lem :
      0 < c.ncli
      → IsMasked c
      → release me l c
        ≡ (if held_by l me then on_ok (popcli c) (λ c'. ok (given_back l, c')) else panic "release")
  unfolding release
  release_lem deep v = rw (holding_nested me l c deep v) (ground arith)

  -- Release by the holder, whose acquire was the latest.
  pub release-taken :
      IsMasked c
      → release me (taken me pcs l) (pushcli c) ≡ ok (given_back (taken me pcs l), restored c)
  unfolding release
  release-taken v =
      rw
        (
          holding_nested me (taken me pcs l) (pushcli c) (pushcli-deep c) (pushcli-IsMasked c),
          popcli-pushcli c v,
        )
        (ground arith)

  -- A critical section around nothing: from a free lock and a masked processor, acquire returns,
  -- and release then returns with the lock free and unowned and the processor as before.
  pub release-acquire :
      l.locked ≡ 0
      → IsMasked c
      → on_ok (acquire me pcs l c) (λ (l', c'). release me l' c')
        ≡ ok (given_back (taken me pcs l), restored c)
  release-acquire free v = rw (acquire-free free) (release-taken v)
