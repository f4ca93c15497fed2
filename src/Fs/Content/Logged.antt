-- ===== src/Fs/Content/Logged.antt =====
-- writei of src/fs.c with the calls of log_write of src/log.c that it makes.
use waka_b4_research.Base.{
  ℕ, suc, ◌+◌, ◌-◌, ◌<◌, ◌≤◌, ◌^◌, ◌≡◌, ◌≢◌, ◌⊎◌, refl, ◌∙◌, arith, false, ◌||◌, leb, Option, List,
  [], ◌∷◌, ltb, take, length, length-take, Bool-cases, inl, inr, Outcome, ok, panic, spins, on_ok,
}
use waka_b4_research.FsLog.{Journal, logsize, log_check, log_write}
use waka_b4_research.FsLog.Room.{log_record_bounds}
use waka_b4_research.Fs.{Super, Volume}
use waka_b4_research.Fs.Inode.{Inode, t_dev, max_bytes_of_file}
use waka_b4_research.Fs.Bits.{AreBytes}
use waka_b4_research.Fs.Inode.Slots.{IsFile}
use waka_b4_research.Fs.Content.Bytes.{block_of, IsDense}
use waka_b4_research.Fs.Content.Grown.{WriteiEnds, writei_lem, ReadBack, readi-writei}
use waka_b4_research.Fs.Content.Calls.{Logs, calls_of, writei-Logs}
use waka_b4_research.Fs.Content.{writei}

-- The calls of log_write that brought `v` to `v'`, the latest first.
abbrev pub added : Volume → Volume → List ℕ
added v v' = take (length v'.logged - length v.logged) v'.logged

-- These calls, one after the other.
unfoldable pub log_all : List ℕ → Journal → Outcome Journal
log_all [] j = ok j
log_all (b ∷ bs) j = on_ok (log_all bs j) (λ j'. log_write b j')

-- `writei` in an operation that the log admitted: its calls of log_write meet that function's checks.
unfoldable pub logged_writei :
    Super
    → Option ℕ
    → (src off n : ℕ) → Inode
    → Volume
    → (ℕ → ℕ)
    → Journal
    → Outcome ((ℕ × Inode × Volume) × Journal)
logged_writei sb device src off n ip v mem j =
    on_ok (writei sb device src off n ip v mem)
      (λ (r, ip', v'). on_ok (log_all (added v v') j) (λ j'. ok ((r, ip', v'), j')))

-- The log may lack a slot for one of `k` more blocks.
abbrev pub IsTight : Journal → ℕ → Type 0
IsTight j k = (logsize < j.n + k) ⊎ (j.size ≤ j.n + k)

-- How `k` calls of log_write end.
abbrev CallsEnd : Journal → ℕ → Outcome Journal → Type 0
CallsEnd j k (ok j') = (j'.n ≤ j.n + k) × (j'.outstanding ≡ j.outstanding) × (j'.size ≡ j.size)
CallsEnd j k (panic _) = IsTight j k
CallsEnd j k spins = ⊥

log_write-CallsEnd :
    (b k : ℕ) (j : Journal) (r : Outcome Journal)
    → 0 < j.outstanding
    → CallsEnd j k r
    → CallsEnd j (suc k) (on_ok r (λ j'. log_write b j'))
unfolding log_write log_check
log_write-CallsEnd b k j (ok j') inside (n, outstanding, size) =
    let (n', outstanding', _, size') = log_record_bounds b j' in
    let begun : ltb j'.outstanding 1 ≡ false = ground arith in
    elim (Bool-cases (leb logsize j'.n || leb (j'.size - 1) j'.n)) [
      | inl full ↦ rw full (elim (Bool-cases (leb logsize j'.n)) [
        | inl most ↦ inl (ground arith)
        | inr less ↦ inr (ground arith)
      ])
      | inr room ↦ rw (room, begun) (omega arith, outstanding' ∙ outstanding, size' ∙ size)
    ]
log_write-CallsEnd b k j (panic _) inside (inl h) = inl (omega arith)
log_write-CallsEnd b k j (panic _) inside (inr h) = inr (omega arith)
log_write-CallsEnd b k j spins inside h = h

log_all-CallsEnd :
    (bs : List ℕ) (j : Journal) → 0 < j.outstanding → CallsEnd j (length bs) (log_all bs j)
unfolding log_all
log_all-CallsEnd [] j inside = (omega arith, refl, refl)
log_all-CallsEnd (b ∷ bs) j inside =
    log_write-CallsEnd b (length bs) j (log_all bs j) inside (log_all-CallsEnd bs j inside)

CallsEnd-le :
    (j : Journal) (k l : ℕ) (r : Outcome Journal) → k ≤ l → CallsEnd j k r → CallsEnd j l r
CallsEnd-le j k l (ok j') le (n, outstanding, size) = (omega arith, outstanding, size)
CallsEnd-le j k l (panic _) le (inl h) = inl (omega arith)
CallsEnd-le j k l (panic _) le (inr h) = inr (omega arith)
CallsEnd-le j k l spins le h = h

module _ (sb : Super) where
  module _ (off n src : ℕ) (mem : ℕ → ℕ) (ip : Inode) (v : Volume) (j : Journal)
      (inside : 0 < j.outstanding) where
    -- The calls of a `writei`, and what follows them.
    abbrev followed : Outcome (ℕ × Inode × Volume) → Outcome ((ℕ × Inode × Volume) × Journal)
    followed r =
        on_ok r (λ (a, ip', v'). on_ok (log_all (added v v') j) (λ j'. ok ((a, ip', v'), j')))

    calls_end :
        (v' : Volume)
        → length v'.logged ≤ length v.logged + calls_of off n
        → CallsEnd j (calls_of off n) (log_all (added v v') j)
    calls_end v' le =
        CallsEnd-le j (length (added v v')) (calls_of off n) (log_all (added v v') j)
          (ground (arith, le, length-take (length v'.logged - length v.logged) v'.logged))
          (log_all-CallsEnd (added v v') j inside)

    -- How `writei` ends, with the log after it.
    abbrev pub LoggedEnds : Outcome ((ℕ × Inode × Volume) × Journal) → Type 0
    LoggedEnds (ok (r, j')) =
        WriteiEnds sb off n src mem ip v (ok r)
        × (j'.n ≤ j.n + calls_of off n)
        × (j'.outstanding ≡ j.outstanding)
    LoggedEnds (panic _) =
        ((x : ℕ) × (off ≤ x) × (x < off + n) × (block_of ip v x ≡ 0)) ⊎ IsTight j (calls_of off n)
    LoggedEnds spins = ⊥

    logged_ends :
        (r : Outcome (ℕ × Inode × Volume))
        → WriteiEnds sb off n src mem ip v r
        → Logs (λ r. r.2) (calls_of off n) v r
        → LoggedEnds (followed r)
    logged_ends (ok (a, ip', v')) ends le = called (log_all (added v v') j) (calls_end v' le)
      where
        called :
            (c : Outcome Journal)
            → CallsEnd j (calls_of off n) c
            → LoggedEnds (on_ok c (λ j'. ok ((a, ip', v'), j')))
        called (ok j') (few, same, _) = (ends, few, same)
        called (panic _) tight = inr tight
        called spins h = h
    logged_ends (panic _) missing le = inl missing
    logged_ends spins h le = h

    -- `writei` in an operation that the log admitted, of an inode of the disk that is no device, whose
    -- blocks are its own and hold all its bytes, with `off` and `n` being 32-bit words and the buffer
    -- bytes. It returns -1 and changes nothing where the offset is past the size, `off + n` wraps, or
    -- the file would be too large. It panics only if a byte of the range is in no block yet, or if the
    -- log may lack a slot for six blocks for each block of the range and one more. Otherwise it returns
    -- `n`: the bytes from `off` on are those of the buffer and no others change, the size covers them,
    -- the blocks are the inode's own and hold all its bytes again, and the log has grown by at most
    -- that many blocks.
    pub logged_writei_lem :
        (device : Option ℕ)
        → ip.type ≢ t_dev
        → IsFile sb ip v
        → IsDense ip v
        → ip.inum < sb.ninodes
        → AreBytes mem
        → off < 2 ^ 32
        → n < 2 ^ 32
        → LoggedEnds (logged_writei sb device src off n ip v mem j)
    unfolding logged_writei
    logged_writei_lem device plain f dense known bytes word word' =
        logged_ends (writei sb device src off n ip v mem)
          (writei_lem sb device src off n ip v mem plain f dense known bytes word word')
          (writei-Logs sb device src off n ip v mem)

    module _ (device : Option (ℕ × (ℕ → ℕ))) (dst : ℕ) (mem' : ℕ → ℕ) where
      -- A readi of the bytes that were written, into the memory `mem'`.
      abbrev pub LoggedBack : Outcome ((ℕ × Inode × Volume) × Journal) → Type 0
      LoggedBack (ok (r, j')) = ReadBack sb device src dst off n mem mem' ip v (ok r)
      LoggedBack (panic _) =
          ((x : ℕ) × (off ≤ x) × (x < off + n) × (block_of ip v x ≡ 0)) ⊎ IsTight j (calls_of off n)
      LoggedBack spins = ⊥

      logged_back :
          (r : Outcome (ℕ × Inode × Volume))
          → ReadBack sb device src dst off n mem mem' ip v r
          → Logs (λ r. r.2) (calls_of off n) v r
          → LoggedBack (followed r)
      logged_back (ok (a, ip', v')) back le = called (log_all (added v v') j) (calls_end v' le)
        where
          called :
              (c : Outcome Journal)
              → CallsEnd j (calls_of off n) c
              → LoggedBack (on_ok c (λ j'. ok ((a, ip', v'), j')))
          called (ok j') few = back
          called (panic _) tight = inr tight
          called spins h = h
      logged_back (panic _) missing le = inl missing
      logged_back spins h le = h

      -- `writei` in an operation that the log admitted, of an inode that is no device, whose blocks are
      -- its own and hold all its bytes, from an offset that is at most its size, with the bytes written
      -- within the largest file: it panics only if a byte of the range is in no block yet, or if the log
      -- may lack a slot for six blocks for each block of the range and one more. Otherwise it returns
      -- `n`, and a `readi` of `n` bytes from the same offset after it returns `n`, changes neither the
      -- inode nor the disk, and brings to the buffer `dst` the bytes that were at `src`.
      pub readi-logged_writei :
          (writer : Option ℕ)
          → ip.type ≢ t_dev
          → IsFile sb ip v
          → IsDense ip v
          → ip.inum < sb.ninodes
          → AreBytes mem
          → off ≤ ip.size
          → off + n ≤ max_bytes_of_file
          → LoggedBack (logged_writei sb writer src off n ip v mem j)
      unfolding logged_writei
      readi-logged_writei writer plain f dense known bytes le small =
          logged_back (writei sb writer src off n ip v mem)
            (readi-writei sb device src dst off n mem mem' ip v writer plain f dense known bytes le
              small)
            (writei-Logs sb writer src off n ip v mem)
