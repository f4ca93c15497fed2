-- ===== src/Bcache/Coherence.antt =====
-- `bread` and `bwrite` of src/bio.c with the disk of src/memide.c: buffers and disk agree.
use waka_b4_research.Base.{
  ℕ, ◌<◌, ◌≡◌, refl, sym, ap, ◌∙◌, ◌≢◌, true, false, List, arith, ◌==◌, Bool-cases, inl, inr,
  update, update_self, update_again, update_else, has, ok,
}
use waka_b4_research.Bcache.{Buf, Cache, with_buf, holdingsleep, iderw, bwrite}
use waka_b4_research.Bcache.Recency.{IsCache, same_blocks_unique}

-- A buffer that holds a block holds one of disk 1; it has the disk's contents unless it is marked as
-- changed; and a changed buffer holds a block.
pub record IsCoherent (c : Cache) (xs : List ℕ) : Type 0 where
  pub one_disk : (i : ℕ) → has i xs ≡ true → (c.buf i).valid ≡ true → (c.buf i).dev ≡ 1
  pub clean :
      (i : ℕ)
      → has i xs ≡ true
      → (c.buf i).valid ≡ true
      → (c.buf i).dirty ≡ false
      → (c.buf i).contents ≡ c.disk (c.buf i).blockno
  pub filled : (i : ℕ) → has i xs ≡ true → (c.buf i).dirty ≡ true → (c.buf i).valid ≡ true

-- A change of one buffer, on the same disk.
pub with_buf-IsCoherent :
    (b : ℕ) (x : Buf) (c : Cache) (xs : List ℕ)
    → IsCoherent c xs
    → (x.valid ≡ true → x.dev ≡ 1)
    → (x.valid ≡ true → x.dirty ≡ false → x.contents ≡ c.disk x.blockno)
    → (x.dirty ≡ true → x.valid ≡ true)
    → IsCoherent (with_buf b x c) xs
with_buf-IsCoherent b x c xs v one_disk clean filled = record {
  one_disk =
      λ i h. elim (Bool-cases (i == b)) [ inl e ↦ rw e one_disk | inr e ↦ rw e (v.one_disk i h) ];
  clean = λ i h. elim (Bool-cases (i == b)) [ inl e ↦ rw e clean | inr e ↦ rw e (v.clean i h) ];
  filled = λ i h. elim (Bool-cases (i == b)) [ inl e ↦ rw e filled | inr e ↦ rw e (v.filled i h) ];
}

pub with_buf-IsCache :
    (b : ℕ) (x : Buf) (c : Cache) (xs : List ℕ)
    → IsCache c xs
    → x.dev ≡ (c.buf b).dev
    → x.blockno ≡ (c.buf b).blockno
    → IsCache (with_buf b x c) xs
with_buf-IsCache b x c xs v dev blockno = record {
  list = record { links = v.list.links; distinct = v.list.distinct; no_head = v.list.no_head };
  size = v.size;
  unique =
      same_blocks_unique c (with_buf b x c) xs xs v (λ i. ground (arith, dev))
        (λ i. ground (arith, blockno)) (λ i. refl);
}

-- The two things that the disk of src/memide.c does for a locked buffer of disk 1.
abbrev flushed : ℕ → Cache → Cache
flushed b c = record (with_buf b (record (c.buf b) { dirty = false; valid = true }) c) {
  disk = update c.disk (c.buf b).blockno (c.buf b).contents;
}

abbrev pub fetched : ℕ → Cache → Cache
fetched b c = with_buf b (record (c.buf b) { contents = c.disk (c.buf b).blockno; valid = true }) c

module _ (me b : ℕ) (c : Cache) (mine : holdingsleep me (c.buf b) ≡ true) (one : (c.buf b).dev ≡ 1)
    (small : (c.buf b).blockno < c.disk_size) where
  iderw-dirty : (c.buf b).dirty ≡ true → iderw me b c ≡ ok (flushed b c)
  unfolding iderw
  iderw-dirty d = ground (arith, mine, one, small, d)

  pub iderw-invalid :
      (c.buf b).valid ≡ false → (c.buf b).dirty ≡ false → iderw me b c ≡ ok (fetched b c)
  unfolding iderw
  iderw-invalid i d = ground (arith, mine, one, small, i, d)

abbrev pub marked : ℕ → Cache → Cache
marked b c = with_buf b (record (c.buf b) { dirty = true }) c

flushed-marked : (b : ℕ) (c : Cache) → flushed b (marked b c) ≡ flushed b c
flushed-marked b c =
    let x = record (c.buf b) { dirty = true } in
    rw (update_self c.buf b x, update_again c.buf b x _)

bwrite-flushed :
    (me b : ℕ) (c : Cache)
    → holdingsleep me (c.buf b) ≡ true
    → (c.buf b).dev ≡ 1
    → (c.buf b).blockno < c.disk_size
    → bwrite me b c ≡ ok (flushed b c)
unfolding bwrite
bwrite-flushed me b c mine one small = rw mine (
    iderw-dirty me b (marked b c) (rw (update_self c.buf b x) mine) (rw (update_self c.buf b x) one)
      (rw (update_self c.buf b x) small) (rw (update_self c.buf b x))
    ∙ ap ok (flushed-marked b c))
  where
    x : Buf
    x = record (c.buf b) { dirty = true }

module _ (b : ℕ) (c : Cache) (xs : List ℕ) (v : IsCache c xs) (u : IsCoherent c xs)
    (there : has b xs ≡ true) (one : (c.buf b).dev ≡ 1) where
  -- Another buffer with contents has another block.
  other_block :
      (i : ℕ)
      → has i xs ≡ true
      → (c.buf i).valid ≡ true
      → (i == b) ≡ false
      → (c.buf i).blockno ≢ (c.buf b).blockno
  other_block i h valid ne e = ground (
    arith,
    v.unique i b h there (λ z. absurd (omega (arith, u.one_disk i h valid, z)))
        (u.one_disk i h valid ∙ sym one) e,
    ne,
  )

  flushed-IsCoherent : IsCoherent (flushed b c) xs
  flushed-IsCoherent = record {
    one_disk = λ i h. elim (Bool-cases (i == b)) [
      | inl e ↦ rw e (λ _. one)
      | inr e ↦ rw e (u.one_disk i h)
    ];
    clean = λ i h. elim (Bool-cases (i == b)) [
      | inl e ↦ rw e (λ _ _. sym (update_self c.disk (c.buf b).blockno (c.buf b).contents))
      | inr e ↦ rw e (λ valid d.
          u.clean i h valid d
          ∙ sym (
              update_else c.disk (c.buf b).blockno (c.buf i).blockno (c.buf b).contents
                (other_block i h valid e)))
    ];
    filled = λ i h. elim (Bool-cases (i == b)) [
      | inl e ↦ rw e (λ _. refl)
      | inr e ↦ rw e (u.filled i h)
    ];
  }

  flushed-IsCache : IsCache (flushed b c) xs
  flushed-IsCache =
      let w =
        with_buf-IsCache b (record (c.buf b) { dirty = false; valid = true }) c xs v refl refl in
      record {
        list = record {
          links = w.list.links;
          distinct = w.list.distinct;
          no_head = w.list.no_head;
        };
        size = w.size;
        unique = w.unique;
      }

-- On a well formed cache whose buffers agree with the disk, `bwrite` of a buffer of disk 1, whose lock
-- the caller holds and whose block the disk has, returns; the disk has the buffer's contents in that
-- block and is as before elsewhere; the buffers still agree with the disk, and no list changes.
pub bwrite_lem :
    (me b : ℕ) (c : Cache) (xs : List ℕ)
    → IsCache c xs
    → IsCoherent c xs
    → has b xs ≡ true
    → holdingsleep me (c.buf b) ≡ true
    → (c.buf b).dev ≡ 1
    → (c.buf b).blockno < c.disk_size
    → (c' : Cache) × (bwrite me b c ≡ ok c')
      × IsCache c' xs
      × IsCoherent c' xs
      × (c'.disk ≡ update c.disk (c.buf b).blockno (c.buf b).contents)
bwrite_lem me b c xs v u there mine one small = (
  flushed b c,
  bwrite-flushed me b c mine one small,
  flushed-IsCache b c xs v u there one,
  flushed-IsCoherent b c xs v u there one,
  refl,
)
