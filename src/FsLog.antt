-- ===== src/FsLog.antt =====
-- src/log.c: the redo log of the file system. A block is its 128 words of 4 bytes; the header block
-- has the count in word 0 and the block numbers after it. `buf b` is what bread gives for block `b`:
-- the flag B_DIRTY, set by log_write, keeps a block in the cache until it is written.
pub mod Install
pub mod Copies
pub mod Trace
pub mod Header
pub mod Crash
pub mod Recovery
pub mod Commit
pub mod Room
pub mod Progress
pub mod Absorb
mod Tests
use waka_b4_research.Base.{
  ℕ, zero, suc, ◌+◌, ◌-◌, ◌*◌, Bool, true, false, ◌||◌, List, [], ◌∷◌, ◌++◌, ◌==◌, ltb, leb,
  if◌then◌else◌, update, take, replicate, Option, none, some, Outcome, ok, panic, on_ok, sub_word,
  set, find_index,
}

abbrev pub Block : Type 0
Block = List ℕ

-- The disk, the contents that bread gives, and the writes that went to the disk, oldest first.
pub record Store : Type 0 where
  pub buf : ℕ → Block
  pub disk : ℕ → Block
  pub writes : List (ℕ × Block)

-- `struct log` with its `struct logheader`, less the lock and the device; `block` is the array.
pub record Journal : Type 0 where
  pub start : ℕ
  pub size : ℕ
  pub outstanding : ℕ
  pub committing : Bool
  pub n : ℕ
  pub block : List ℕ

abbrev pub logsize : ℕ
logsize = 30

abbrev pub max_op_blocks : ℕ
max_op_blocks = 10

-- `bwrite` on a locked buffer.
abbrev pub bwrite : ℕ → Store → Store
bwrite b s = record s { disk = update s.disk b (s.buf b); writes = s.writes ++ (b, s.buf b) ∷ [] }

-- `memmove(to->data, from->data, BSIZE)`
abbrev pub memmove_block : ℕ → ℕ → Store → Store
memmove_block to from s = record s { buf = update s.buf to (s.buf from) }

abbrev pub first_word : Block → ℕ
first_word [] = 0
first_word (w ∷ _) = w

abbrev pub words_after : Block → List ℕ
words_after [] = []
words_after (_ ∷ ws) = ws

-- `for (i = 0; i < n; i++) dst[i] = src[i];` within both arrays.
unfoldable pub copy_words : ℕ → List ℕ → List ℕ → List ℕ
copy_words zero src dst = dst
copy_words (suc n) [] dst = dst
copy_words (suc n) (x ∷ src) [] = []
copy_words (suc n) (x ∷ src) (y ∷ dst) = x ∷ copy_words n src dst

abbrev pub set_header : ℕ → List ℕ → Block → Block
set_header n block [] = []
set_header n block (_ ∷ ws) = n ∷ copy_words n block ws

-- The blocks that the header lists.
abbrev pub listed : Journal → List ℕ
listed j = take j.n j.block

-- `install_trans` from the log block at `at` on.
unfoldable pub install_from : ℕ → List ℕ → Store → Store
install_from at [] s = s
install_from at (b ∷ bs) s = install_from (at + 1) bs (bwrite b (memmove_block b at s))

abbrev pub install_trans : Journal → Store → Store
install_trans j s = install_from (j.start + 1) (listed j) s

abbrev pub read_head : Journal → Store → Journal
read_head j s =
    let header = s.buf j.start in
    record j {
      n = first_word header;
      block = copy_words (first_word header) (words_after header) j.block;
    }

abbrev pub write_head : Journal → Store → Store
write_head j s =
    bwrite j.start
      (record s { buf = update s.buf j.start (set_header j.n j.block (s.buf j.start)) })

abbrev pub cleared : Journal → Journal
cleared j = record j { n = 0 }

unfoldable pub recover_from_log : Journal → Store → Journal × Store
recover_from_log j s =
    let j' = read_head j s in (cleared j', write_head (cleared j') (install_trans j' s))

-- `write_log` from the log block at `at` on.
unfoldable pub write_from : ℕ → List ℕ → Store → Store
write_from at [] s = s
write_from at (b ∷ bs) s = write_from (at + 1) bs (bwrite at (memmove_block at b s))

abbrev pub write_log : Journal → Store → Store
write_log j s = write_from (j.start + 1) (listed j) s

unfoldable pub commit : Journal → Store → Journal × Store
commit j s =
    if ltb 0 j.n
    then (cleared j, write_head (cleared j) (install_trans j (write_head j (write_log j s))))
    else (j, s)

-- `log` as the kernel's image has it, with the two numbers that `initlog` takes from the superblock.
abbrev pub at_boot : ℕ → ℕ → Journal
at_boot logstart nlog = record {
  start = logstart;
  size = nlog;
  outstanding = 0;
  committing = false;
  n = 0;
  block = replicate logsize 0;
}

unfoldable pub initlog : ℕ → ℕ → Store → Journal × Store
initlog logstart nlog s = recover_from_log (at_boot logstart nlog) s

-- One round of the loop of `begin_op`, under the lock of the log: `none` is the call of sleep, after
-- which the loop goes round again.
unfoldable pub begin_op : Journal → Option Journal
begin_op j =
    if j.committing
    then none
    else if ltb logsize (j.n + (j.outstanding + 1) * max_op_blocks)
    then none
    else some (record j { outstanding = j.outstanding + 1 })

-- What `end_op` does next: it commits, or it has called wakeup and returns.
pub data Ending : Type 0 where
  commits wakes : Ending

unfoldable pub end_op : Journal → Outcome (Ending × Journal)
end_op j =
    let left = sub_word j.outstanding 1 in
    if j.committing
    then panic "log.committing"
    else if left == 0
    then ok (commits, record j { outstanding = left; committing = true })
    else ok (wakes, record j { outstanding = left })

-- `end_op` from the call of `commit` on; its `wakeup` is in the steps of FsLog.Room.
unfoldable pub end_commit : Journal → Store → Journal × Store
unfolding commit
end_commit j s = let (j', s') = commit j s in (record j' { committing = false }, s')

-- The checks of `log_write`, which are made without the lock.
unfoldable pub log_check : Journal → Outcome (Unit {0})
log_check j =
    if leb logsize j.n || leb (j.size - 1) j.n
    then panic "too big a transaction"
    else if ltb j.outstanding 1
    then panic "log_write outside of trans"
    else ok tt

abbrev pub index_or : Option ℕ → ℕ → ℕ
index_or none n = n
index_or (some i) n = i

-- The index of block `b` in the array, or the count.
unfoldable pub slot_of : ℕ → Journal → ℕ
slot_of b j = index_or (find_index (λ c. c == b) (listed j)) j.n

-- `log_write` under the lock.
unfoldable pub log_record : ℕ → Journal → Journal
log_record b j =
    let i = slot_of b j in
    record j { block = set j.block i b; n = if i == j.n then j.n + 1 else j.n }

unfoldable pub log_write : ℕ → Journal → Outcome Journal
unfolding log_check log_record
log_write b j = on_ok (log_check j) λ _. ok (log_record b j)
