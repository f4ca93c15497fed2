-- ===== src/Bcache/Reading.antt =====
-- `bread` of src/bio.c: the buffer that it returns has the contents of the disk.
use mathlib.Core.Path.{subst}
use waka_b4_research.Base.{
  ℕ, ◌<◌, ◌≡◌, refl, ap, ◌∙◌, ◌≢◌, Bool, true, false, none, some, List, arith, if◌then◌else◌,
  Bool-cases, Option-cases, inl, inr, update_self, has, Outcome, ok, panic, spins, on_ok,
}
use waka_b4_research.Bcache.{
  Buf, Cache, with_buf, is_idle, used, recycled, iderw, Got, got, waits, lock_with, lock_and_read,
  bread,
}
use waka_b4_research.Bcache.Recency.{
  has_of_split, used-IsCache, recycled-IsCache, NoneOf, IsCache, bget_lem,
}
use waka_b4_research.Bcache.Coherence.{
  IsCoherent, with_buf-IsCoherent, with_buf-IsCache, fetched, iderw-invalid,
}

-- What `bread` of block `blockno` of disk 1 may end with, where the disk is `disk`, and it may panic
-- only if `P`.
abbrev pub BreadSpec : ℕ → ℕ → (ℕ → List ℕ) → List ℕ → Type 0 → Outcome (Got × Cache) → Type 0
BreadSpec me blockno disk xs P (ok (got b, c')) =
    IsCache c' xs
    × IsCoherent c' xs
    × (c'.disk ≡ disk)
    × ((c'.buf b).holder ≡ some me)
    × ((c'.buf b).blockno ≡ blockno)
    × ((c'.buf b).valid ≡ true)
    × ((c'.buf b).dirty ≡ false → (c'.buf b).contents ≡ disk blockno)
BreadSpec me blockno disk xs P (ok (waits b, c')) =
    IsCache c' xs × IsCoherent c' xs × (c'.disk ≡ disk) × ((c'.buf b).holder ≢ none)
BreadSpec me blockno disk xs P (panic m) = P
BreadSpec me blockno disk xs P spins = ⊥

never-panics :
    (P : Type 0) (me blockno : ℕ) (disk : ℕ → List ℕ) (xs : List ℕ) (r : Outcome (Got × Cache))
    → BreadSpec me blockno disk xs ⊥ r
    → BreadSpec me blockno disk xs P r
never-panics P me blockno disk xs (ok (got b, c')) h = h
never-panics P me blockno disk xs (ok (waits b, c')) h = h
never-panics P me blockno disk xs (panic m) h = absurd h
never-panics P me blockno disk xs spins h = h

module _ (me b : ℕ) (c : Cache) (xs : List ℕ) (v : IsCache c xs) (u : IsCoherent c xs)
    (there : has b xs ≡ true) (one : (c.buf b).dev ≡ 1)
    (small : (c.buf b).blockno < c.disk_size) where
  -- The cache when the caller has the lock of the buffer.
  abbrev mine : Buf
  mine = record (c.buf b) { holder = some me }

  abbrev locked : Cache
  locked = with_buf b mine c

  lock_with-valid : (c.buf b).valid ≡ true → lock_with me b none c ≡ ok (got b, locked)
  lock_with-valid h =
      ap
        (λ (valid : Bool).
          if valid then ok (got b, locked) else on_ok (iderw me b locked) (λ c'. ok (got b, c')))
        h

  locked-buf : locked.buf b ≡ mine
  locked-buf = update_self c.buf b mine

  lock_with-empty :
      (c.buf b).valid ≡ false
      → (c.buf b).dirty ≡ false
      → lock_with me b none c ≡ ok (got b, fetched b locked)
  lock_with-empty h d =
      ap
        (λ (valid : Bool).
          if valid then ok (got b, locked) else on_ok (iderw me b locked) (λ c'. ok (got b, c')))
        h
      ∙ ap (λ (o : Outcome Cache). on_ok o (λ c'. ok (got b, c')))
          (iderw-invalid me b locked (rw locked-buf (ground arith)) (rw locked-buf one)
            (rw locked-buf small) (rw locked-buf h) (rw locked-buf d))

  locked-IsCache : IsCache locked xs
  locked-IsCache = with_buf-IsCache b mine c xs v refl refl

  locked-IsCoherent : IsCoherent locked xs
  locked-IsCoherent =
      with_buf-IsCoherent b mine c xs u (u.one_disk b there) (u.clean b there) (u.filled b there)

  fetched-IsCache : IsCache (fetched b locked) xs
  fetched-IsCache = with_buf-IsCache b _ locked xs locked-IsCache refl refl

  fetched-IsCoherent : IsCoherent (fetched b locked) xs
  fetched-IsCoherent =
      with_buf-IsCoherent b _ locked xs locked-IsCoherent (λ _. rw locked-buf one) (λ _ _. refl)
        (λ _. refl)

  fetched-buf :
      (fetched b locked).buf b
      ≡ record (c.buf b) { holder = some me; contents = c.disk (c.buf b).blockno; valid = true }
  fetched-buf = update_self locked.buf b _ ∙ rw locked-buf

  pub lock_and_read_lem : BreadSpec me (c.buf b).blockno c.disk xs ⊥ (lock_and_read me b c)
  unfolding lock_and_read
  lock_and_read_lem = elim (Option-cases (c.buf b).holder) [
    | inr (pid, held) ↦ rw held (v, u, refl, λ e. cc (held, e))
    | inl free ↦ rw free (elim (Bool-cases (c.buf b).valid) [
      | inl valid ↦ rw (lock_with-valid valid) (
        locked-IsCache,
        locked-IsCoherent,
        refl,
        rw locked-buf,
        rw locked-buf,
        rw locked-buf valid,
        rw locked-buf (u.clean b there valid),
      )
      | inr empty ↦ rw (lock_with-empty empty (ground (arith, u.filled b there, empty))) (
        fetched-IsCache,
        fetched-IsCoherent,
        refl,
        rw fetched-buf,
        rw fetched-buf,
        rw fetched-buf,
        rw fetched-buf (λ _. refl),
      )
    ])
  ]

module _ (me blockno : ℕ) (c : Cache) (xs : List ℕ) (v : IsCache c xs) (u : IsCoherent c xs)
    (small : blockno < c.disk_size) where
  -- `bread` once the search has changed one buffer of the list, which has the block now.
  bread_at :
      (P : Type 0) (b : ℕ) (x : Buf)
      → IsCache (with_buf b x c) xs
      → IsCoherent (with_buf b x c) xs
      → has b xs ≡ true
      → x.dev ≡ 1
      → x.blockno ≡ blockno
      → BreadSpec me blockno c.disk xs P (lock_and_read me b (with_buf b x c))
  bread_at P b x v' u' there one same =
      never-panics P me blockno c.disk xs (lock_and_read me b c') (
        subst (λ n. BreadSpec me n c.disk xs ⊥ (lock_and_read me b c')) at_block
          (lock_and_read_lem me b c' xs v' u' there (ap (λ (y : Buf). y.dev) now ∙ one)
            (rw at_block small)))
    where
      c' : Cache
      c' = with_buf b x c

      now : c'.buf b ≡ x
      now = update_self c.buf b x

      at_block : (c'.buf b).blockno ≡ blockno
      at_block = ap (λ (y : Buf). y.blockno) now ∙ same

  -- On a well formed cache whose buffers agree with the disk, `bread` of a block that disk 1 has ends
  -- in one of three ways. It returns a buffer of that block, with the lock and with contents, which
  -- are the disk's unless the buffer is marked as changed; or it sleeps on the lock of the buffer; or
  -- it panics, and no buffer is idle. The disk stays, and cache and agreement stay well formed.
  pub bread_lem :
      BreadSpec me blockno c.disk xs (NoneOf (λ b. is_idle (c.buf b)) xs) (bread me 1 blockno c)
  unfolding bread
  bread_lem = elim (bget_lem 1 blockno c xs v) [
    | inl (b, (ys, zs, at, hit, _), e) ↦
        let there = has_of_split b xs ys zs at in
        rw e (
          bread_at _ b (used (c.buf b)) (used-IsCache b c xs v)
            (with_buf-IsCoherent b (used (c.buf b)) c xs u (u.one_disk b there) (u.clean b there)
              (u.filled b there))
            there (ground (arith, hit)) (ground (arith, hit)))
    | inr (inl (none', (b, (ys, zs, at, hit, _), e))) ↦ rw e (
        bread_at _ b (recycled 1 blockno (c.buf b)) (recycled-IsCache 1 blockno b c xs v none')
          (with_buf-IsCoherent b (recycled 1 blockno (c.buf b)) c xs u (λ h. cc) (λ h. cc)
            (λ h. cc))
          (has_of_split b xs ys zs at) refl refl)
    | inr (inr (_, none', e)) ↦ rw e none'
  ]
