-- ===== src/Bcache/Tests.antt =====
-- Runs of the buffer cache of src/bio.c after binit.
use waka_b4_research.Base.{
  ℕ, ◌≡◌, refl, sym, ap, true, false, none, some, List, [], ◌∷◌, arith, update,
}
use waka_b4_research.Bcache.{
  Buf, Cache, nbuf, with_buf, binit, link_from, push_front, is_block, is_idle, recycled,
  bget_unlocked, bread,
}
use waka_b4_research.Bcache.Lists.{counted_onto, link_from-buf}
use waka_b4_research.Bcache.Recency.{
  NoneOf, IsCache, binit-IsCache, BgetKeeps, bget-IsCache, recycled-IsCache,
}
use waka_b4_research.Bcache.Coherence.{IsCoherent, with_buf-IsCache, with_buf-IsCoherent}
use waka_b4_research.Bcache.Reading.{BreadSpec, bread_lem}

abbrev blank : Buf
blank = record {
  valid = false;
  dirty = false;
  dev = 0;
  blockno = 0;
  holder = none;
  refcnt = 0;
  contents = [];
}

abbrev at_power_on : Cache
at_power_on = record {
  next = λ _. 0;
  prev = λ _. 0;
  buf = λ _. blank;
  disk = λ b. b ∷ [];
  disk_size = 1000;
}

ready : Cache
ready = binit at_power_on

abbrev all_bufs : List ℕ
all_bufs = counted_onto nbuf 1 []

ready-IsCache : IsCache ready all_bufs
unfolding ready
ready-IsCache = binit-IsCache at_power_on (λ i. refl)

ready-buf : (i : ℕ) → ready.buf i ≡ blank
unfolding ready binit
ready-buf i =
    link_from-buf nbuf 1
      (record at_power_on { next = update (λ _. 0) 0 0; prev = update (λ _. 0) 0 0 }) i

not_valid : (i : ℕ) → (ready.buf i).valid ≡ false
not_valid i = ap (λ (x : Buf). x.valid) (ready-buf i)

not_dirty : (i : ℕ) → (ready.buf i).dirty ≡ false
not_dirty i = ap (λ (x : Buf). x.dirty) (ready-buf i)

ready-IsCoherent : IsCoherent ready all_bufs
ready-IsCoherent = record {
  one_disk = λ i h e. cc (e, not_valid i);
  clean = λ i h e d. cc (e, not_valid i);
  filled = λ i h e. cc (e, not_dirty i);
}

ready-disk : ready.disk ≡ at_power_on.disk
unfolding ready binit link_from push_front
ready-disk = refl

ready-disk_size : ready.disk_size ≡ 1000
unfolding ready binit link_from push_front
ready-disk_size = refl

bget-IsCache_example : BgetKeeps 1 7 ready all_bufs (bget_unlocked 1 7 ready)
bget-IsCache_example = bget-IsCache 1 7 ready all_bufs ready-IsCache

bread_lem_example :
    BreadSpec 4 7 ready.disk all_bufs
      (NoneOf (λ b. is_idle (ready.buf b)) all_bufs)
      (bread 4 1 7 ready)
bread_lem_example =
    bread_lem 4 7 ready all_bufs ready-IsCache ready-IsCoherent (omega (arith, ready-disk_size))

-- Process 4 has locked buffer 30 for block 7.
abbrev locked_buf : Buf
locked_buf = record {
  valid = true;
  dirty = false;
  dev = 1;
  blockno = 7;
  holder = some 4;
  refcnt = 1;
  contents = 7 ∷ [];
}

abbrev claimed : Cache
claimed = with_buf 30 (recycled 1 7 (ready.buf 30)) ready

abbrev in_hand : Cache
in_hand = with_buf 30 locked_buf claimed

none_cached : (xs : List ℕ) → NoneOf (λ b. is_block 1 7 (ready.buf b)) xs
none_cached [] = tt
none_cached (x ∷ xs) = (rw (ready-buf x), none_cached xs)

in_hand-IsCache : IsCache in_hand all_bufs
in_hand-IsCache =
    with_buf-IsCache 30 locked_buf claimed all_bufs
      (recycled-IsCache 1 7 30 ready all_bufs ready-IsCache (none_cached all_bufs)) refl refl

in_hand-IsCoherent : IsCoherent in_hand all_bufs
in_hand-IsCoherent =
    with_buf-IsCoherent 30 locked_buf claimed all_bufs
      (with_buf-IsCoherent 30 (recycled 1 7 (ready.buf 30)) ready all_bufs ready-IsCoherent
        (λ h. cc) (λ h. cc) (λ h. cc))
      (λ _. refl) (λ _ _. ap (λ (d : ℕ → List ℕ). d 7) (sym ready-disk)) (λ h. cc)
