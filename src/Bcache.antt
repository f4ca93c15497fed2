-- ===== src/Bcache.antt =====
-- src/bio.c and src/buf.h: the cache of disk blocks, with the disk of src/memide.c. Buffers are
-- numbered from 1, in the order of the array; 0 is the head of the list through `next` and `prev`.
-- The list lock is held for a whole search or update; the calls of acquire and release are left out.
pub mod Lists
pub mod Recency
pub mod Coherence
pub mod Reading
pub mod Release
mod Tests
use waka_b4_research.Base.{
  ℕ, zero, suc, ◌+◌, Bool, true, false, ◌&&◌, ◌||◌, not, Option, none, some, List, [], ◌∷◌, ◌==◌,
  leb, if◌then◌else◌, update, Outcome, ok, panic, on_ok, sub_word, add_word,
}

-- `struct buf`; `holder` is the pid in its sleep lock, `none` where the lock is free.
pub record Buf : Type 0 where
  pub valid : Bool
  pub dirty : Bool
  pub dev : ℕ
  pub blockno : ℕ
  pub holder : Option ℕ
  pub refcnt : ℕ
  pub contents : List ℕ

-- `bcache`, and the disk by block number.
pub record Cache : Type 0 where
  pub next : ℕ → ℕ
  pub prev : ℕ → ℕ
  pub buf : ℕ → Buf
  pub disk : ℕ → List ℕ
  pub disk_size : ℕ

abbrev pub nbuf : ℕ
nbuf = 30

abbrev pub with_buf : ℕ → Buf → Cache → Cache
with_buf b x c = record c { buf = update c.buf b x }

-- The four writes that put buffer `b` behind the head.
unfoldable pub push_front : ℕ → Cache → Cache
push_front b c = record c {
  next = update (update c.next b (c.next 0)) 0 b;
  prev = update (update c.prev b 0) (c.next 0) b;
}

-- The two writes of `brelse` that take buffer `b` off the list.
unfoldable pub unlink : ℕ → Cache → Cache
unlink b c = record c {
  next = update c.next (c.prev b) (c.next b);
  prev = update c.prev (c.next b) (c.prev b);
}

-- The loop of `binit` over `n` buffers from `b` on.
unfoldable pub link_from : ℕ → ℕ → Cache → Cache
unfolding push_front
link_from zero b c = c
link_from (suc n) b c = link_from n (b + 1) (push_front b c)

unfoldable pub binit : Cache → Cache
unfolding link_from
binit c = link_from nbuf 1 (record c {
  next = update c.next 0 0;
  prev = update c.prev 0 0;
  buf = λ b. record (c.buf b) { holder = none };
})

abbrev pub is_block : ℕ → ℕ → Buf → Bool
is_block dev blockno x = (x.dev == dev) && (x.blockno == blockno)

abbrev pub is_idle : Buf → Bool
is_idle x = (x.refcnt == 0) && not x.dirty

-- A loop over the list along `link`, from buffer `b` on, up to the first that passes the test.
unfoldable pub walk : (ℕ → ℕ) → (ℕ → Bool) → ℕ → ℕ → Option ℕ
walk link test zero b = none
walk link test (suc fuel) b =
    let later = walk link test fuel (link b) in
    if b == 0 then none else if test b then some b else later

-- A cached block has one more user; an idle buffer is given to the block.
abbrev pub used : Buf → Buf
used x = record x { refcnt = add_word x.refcnt 1 }

abbrev pub recycled : ℕ → ℕ → Buf → Buf
recycled dev blockno x = record x {
  dev = dev;
  blockno = blockno;
  valid = false;
  dirty = false;
  refcnt = 1;
}

-- `bget` up to acquiresleep, once the two searches are made.
abbrev pub pick : ℕ → ℕ → Option ℕ → Option ℕ → Cache → Outcome (ℕ × Cache)
pick dev blockno (some b) _ c = ok (b, with_buf b (used (c.buf b)) c)
pick dev blockno none (some b) c = ok (b, with_buf b (recycled dev blockno (c.buf b)) c)
pick dev blockno none none c = panic "bget: no buffers"

unfoldable pub bget_unlocked : ℕ → ℕ → Cache → Outcome (ℕ × Cache)
unfolding walk
bget_unlocked dev blockno c =
    pick dev blockno (walk c.next (λ b. is_block dev blockno (c.buf b)) (suc nbuf) (c.next 0))
      (walk c.prev (λ b. is_idle (c.buf b)) (suc nbuf) (c.prev 0)) c

abbrev pub holdingsleep : ℕ → Buf → Bool
holdingsleep me x = elim x.holder [ none ↦ false | some pid ↦ pid == me ]

-- `iderw` of src/memide.c, for process `me`.
unfoldable pub iderw : ℕ → ℕ → Cache → Outcome Cache
iderw me b c =
    let x = c.buf b in
    if not (holdingsleep me x)
    then panic "iderw: buf not locked"
    else if x.valid && not x.dirty
    then panic "iderw: nothing to do"
    else if not (x.dev == 1)
    then panic "iderw: request not for disk 1"
    else if leb c.disk_size x.blockno
    then panic "iderw: block out of range"
    else if x.dirty
    then ok (record (with_buf b (record x { dirty = false; valid = true }) c) {
      disk = update c.disk x.blockno x.contents;
    })
    else ok (with_buf b (record x { contents = c.disk x.blockno; valid = true }) c)

-- How `bread` ends: with a locked buffer, or asleep on the buffer's lock.
pub data Got : Type 0 where
  got : ℕ → Got
  waits : ℕ → Got

-- `acquiresleep` by process `me` on a lock with this holder, and what `bread` does with the lock: the
-- caller sleeps, or it has the lock and the contents.
abbrev pub lock_with : ℕ → ℕ → Option ℕ → Cache → Outcome (Got × Cache)
lock_with me b (some _) c = ok (waits b, c)
lock_with me b none c =
    let mine = with_buf b (record (c.buf b) { holder = some me }) c in
    if (c.buf b).valid then ok (got b, mine) else on_ok (iderw me b mine) (λ c'. ok (got b, c'))

unfoldable pub lock_and_read : ℕ → ℕ → Cache → Outcome (Got × Cache)
unfolding iderw
lock_and_read me b c = lock_with me b (c.buf b).holder c

unfoldable pub bread : ℕ → ℕ → ℕ → Cache → Outcome (Got × Cache)
bread me dev blockno c = on_ok (bget_unlocked dev blockno c) λ (b, c'). lock_and_read me b c'

unfoldable pub bwrite : ℕ → ℕ → Cache → Outcome Cache
bwrite me b c =
    if not (holdingsleep me (c.buf b))
    then panic "bwrite"
    else iderw me b (with_buf b (record (c.buf b) { dirty = true }) c)

-- `brelse`: the lock is given back, and a buffer that nobody uses becomes the most recent.
unfoldable pub brelse : ℕ → ℕ → Cache → Outcome Cache
unfolding unlink push_front
brelse me b c =
    if not (holdingsleep me (c.buf b))
    then panic "brelse"
    else let left = sub_word (c.buf b).refcnt 1 in
      let c' = with_buf b (record (c.buf b) { holder = none; refcnt = left }) c in
      ok (if left == 0 then push_front b (unlink b c') else c')
