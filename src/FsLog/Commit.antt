-- ===== src/FsLog/Commit.antt =====
-- `commit` of src/log.c is atomic: a crash between any two of its disk writes, and recovery.
use waka_b4_research.Base.{
  ℕ, suc, ◌+◌, ◌-◌, ◌≤◌, ◌<◌, ◌≡◌, refl, ap, ◌∙◌, ◌⊎◌, inl, inr, false, List, [], ◌∷◌, ◌++◌, arith,
  leb, leb→le, if◌then◌else◌, Bool-cases, length, length-append, length-take, take, take-append_le,
  take-append_gt, take-all, update, update_self, NotIn,
}
use waka_b4_research.FsLog.{Block, Store, Journal, logsize, listed, commit, first_word}
use waka_b4_research.FsLog.Install.{
  Contents, apply_writes, apply_writes-append, take-Avoids, update_ne, apply_writes-Avoids,
  install_writes, log_writes, IsOutside, AreOutside, NotIn-outside, install_writes-Avoids,
  log_writes-Avoids, length-log_writes, installed,
}
use waka_b4_research.FsLog.Copies.{
  Copied, Copied-agree, logged_else, logged-Copied, log_writes-Copied, install_writes-Copied,
  installed-Copied,
}
use waka_b4_research.FsLog.Trace.{
  header, prepared, copied, finish_writes, commit_writes, commit_lem,
}
use waka_b4_research.FsLog.Header.{listed_in, listed_in-set_header}
use waka_b4_research.FsLog.Crash.{
  recovered, last_header, recovered_lem, recovered-empty, finish_writes-first_word,
  finish_writes-else,
}
use waka_b4_research.FsLog.Recovery.{not_start}

-- A transaction that is complete: the log has room for it, no block of it is the log's, and no other
-- block differs from the disk, where the log is empty.
pub record IsComplete (j : Journal) (s : Store) : Type 0 where
  pub some_block : 0 < j.n
  pub room : j.n < j.size
  pub fits : j.n ≤ logsize
  pub array : length j.block ≡ logsize
  pub header_size : logsize < length (s.buf j.start)
  pub outside : AreOutside j.start (j.start + j.size) (listed j)
  pub clean :
      (c : ℕ) → IsOutside j.start (j.start + j.size) c → NotIn c (listed j) → s.disk c ≡ s.buf c
  pub empty : first_word (s.disk j.start) ≡ 0
  pub fresh : s.writes ≡ []

module _ (j : Journal) (s : Store) (v : IsComplete j s) where
  abbrev hi : ℕ
  hi = j.start + j.size

  length-listed : length (listed j) ≡ j.n
  length-listed = omega (arith, length-take {0} j.n j.block, v.array, v.fits)

  to_log : List (ℕ × Block)
  to_log = log_writes (j.start + 1) (listed j) s.buf

  commit-writes : (commit j s).1.writes ≡ commit_writes j s.buf
  commit-writes =
      ap (λ (r : Journal × Store). r.1.writes) (commit_lem j s v.some_block)
      ∙ ap (λ (ws : List (ℕ × Block)). ws ++ commit_writes j s.buf) v.fresh

  to_log-else :
      (i c : ℕ)
      → (c < j.start + 1) ⊎ (j.start + 1 + length (listed j) ≤ c)
      → apply_writes (take i to_log) s.disk c ≡ s.disk c
  unfolding to_log
  to_log-else i c h =
      apply_writes-Avoids (take i to_log) s.disk c
        (take-Avoids i to_log c (log_writes-Avoids (listed j) (j.start + 1) c s.buf h))

  -- A crash before the header is written.
  before_header :
      (i c : ℕ)
      → IsOutside j.start hi c
      → recovered j.start j.size (apply_writes (take i to_log) s.disk) c ≡ s.disk c
  before_header i c out =
      recovered-empty j.start j.size (apply_writes (take i to_log) s.disk) c
        (not_start j.start j.size c (omega (arith, v.room)) out)
        (ap first_word (to_log-else i j.start (inl (omega arith))) ∙ v.empty)
      ∙ to_log-else i c (omega (arith, length-listed, v.room))

  abbrev head_block : Block
  head_block = header j (copied j s.buf)

  -- The disk when the header has been written.
  marked : Contents
  marked = update (apply_writes to_log s.disk) j.start head_block

  marked_else : (c : ℕ) → IsOutside j.start hi c → marked c ≡ s.disk c
  unfolding marked to_log
  marked_else c out =
      update_ne (apply_writes to_log s.disk) j.start c head_block
        (not_start j.start j.size c (omega (arith, v.room)) out)
      ∙ apply_writes-Avoids to_log s.disk c (
          log_writes-Avoids (listed j) (j.start + 1) c s.buf (omega (arith, length-listed, v.room)))

  marked-Copied : Copied (j.start + 1) (listed j) marked s.buf
  unfolding marked to_log
  marked-Copied =
      Copied-agree (listed j) (j.start + 1) (apply_writes to_log s.disk) marked s.buf
        (λ c p q. update_ne (apply_writes to_log s.disk) j.start c head_block (omega arith))
        (log_writes-Copied j.start hi s.buf (listed j) (j.start + 1) s.buf s.disk (omega arith)
          (omega (arith, length-listed, v.room)) v.outside (λ c out. refl))

  listed_in-head_block : listed_in head_block ≡ listed j
  listed_in-head_block =
      ap (λ (h : Block). listed_in (header j (λ _. h)))
        (logged_else (listed j) (j.start + 1) j.start s.buf (inl (omega arith)))
      ∙ listed_in-set_header j.n j.block (s.buf j.start) v.fits (omega (arith, v.array, v.fits))
          (omega (arith, v.header_size, v.fits))

  installs : List (ℕ × Block)
  installs = install_writes (j.start + 1) (listed j) (prepared j s.buf)

  -- The blocks that the install does not write.
  installs-else :
      (k c : ℕ) → NotIn c (listed j) → apply_writes (take k installs) marked c ≡ marked c
  unfolding installs
  installs-else k c h = apply_writes-Avoids (take k installs) marked c (
      take-Avoids k installs c
        (install_writes-Avoids (listed j) (j.start + 1) c (prepared j s.buf) h))

  in_log : (c : ℕ) → j.start ≤ c → c < hi → NotIn c (listed j)
  in_log c p q = NotIn-outside j.start hi (listed j) c v.outside p q

  -- A crash while the blocks are installed.
  while_installing :
      (k c : ℕ)
      → IsOutside j.start hi c
      → recovered j.start j.size (apply_writes (take k installs) marked) c ≡ s.buf c
  while_installing k c out =
      recovered_lem j.start j.size d c (not_start j.start j.size c (omega (arith, v.room)) out)
      ∙ ap (λ (h : Block). installed (j.start + 1) (listed_in h) d c) at_start
      ∙ ap (λ (bs : List ℕ). installed (j.start + 1) bs d c) listed_in-head_block
      ∙ installed-Copied j.start hi s.buf (listed j) (j.start + 1) d (omega arith)
          (omega (arith, length-listed, v.room)) v.outside
          (Copied-agree (listed j) (j.start + 1) marked d s.buf
            (λ b p q.
              installs-else k b (in_log b (omega arith) (omega (arith, length-listed, v.room))))
            marked-Copied)
          (λ b off none'. installs-else k b none' ∙ marked_else b off ∙ v.clean b off none') c out
    where
      d : Contents
      d = apply_writes (take k installs) marked

      at_start : d j.start ≡ head_block
      at_start =
          installs-else k j.start (in_log j.start (omega arith) (omega (arith, v.room)))
          ∙ unfold marked in update_self (apply_writes to_log s.disk) j.start head_block

  -- The disk when every block is installed.
  installed_all :
      (c : ℕ)
      → IsOutside j.start hi c
      → apply_writes (finish_writes j (prepared j s.buf)) marked c ≡ s.buf c
  installed_all c out =
      finish_writes-else j (prepared j s.buf) marked c
        (not_start j.start j.size c (omega (arith, v.room)) out)
      ∙ install_writes-Copied j.start hi s.buf (listed j) (j.start + 1) (prepared j s.buf) marked
          (omega arith) (omega (arith, length-listed, v.room)) v.outside
          (Copied-agree (listed j) (j.start + 1) (copied j s.buf) (prepared j s.buf) s.buf
            (λ b p q. update_ne (copied j s.buf) j.start b head_block (omega arith))
            (logged-Copied j.start hi s.buf (listed j) (j.start + 1) s.buf (omega arith)
              (omega (arith, length-listed, v.room)) v.outside (λ b off. refl)))
          (λ b off none'. marked_else b off ∙ v.clean b off none') c out

  -- A crash after the last write.
  when_done :
      (c : ℕ)
      → IsOutside j.start hi c
      → recovered j.start j.size (apply_writes (finish_writes j (prepared j s.buf)) marked) c
        ≡ s.buf c
  when_done c out =
      recovered-empty j.start j.size (apply_writes (finish_writes j (prepared j s.buf)) marked) c
        (not_start j.start j.size c (omega (arith, v.room)) out)
        (finish_writes-first_word j (prepared j s.buf) marked)
      ∙ installed_all c out

  after_header :
      (k c : ℕ)
      → IsOutside j.start hi c
      → recovered j.start j.size
          (apply_writes (take k (finish_writes j (prepared j s.buf))) marked)
          c
        ≡ s.buf c
  unfolding installs
  after_header k c out = elim (Bool-cases (leb k (length installs))) [
    | inl early ↦
        rw (take-append_le k installs (last ∷ []) (leb→le k (length installs) early))
          (while_installing k c out)
    | inr late ↦
        rw
          (take-all k (installs ++ last ∷ [])
            (omega (arith, length-append {0} installs (last ∷ []), late_lem late)))
          (when_done c out)
  ]
    where
      last : ℕ × Block
      last = (j.start, last_header j (prepared j s.buf) marked)

      late_lem : leb k (length installs) ≡ false → length installs < k
      late_lem h = ground arith

  -- If the machine stops during `commit` of a complete transaction, after any number `i` of its
  -- disk writes, and recovers, every block outside the log is as before the transaction where `i`
  -- is at most the number of its blocks, and as the transaction left it otherwise.
  pub commit-crash :
      (i c : ℕ)
      → IsOutside j.start hi c
      → recovered j.start j.size (apply_writes (take i (commit j s).1.writes) s.disk) c
        ≡ (if leb i j.n then s.disk c else s.buf c)
  unfolding to_log
  commit-crash i c out = rw commit-writes (elim (Bool-cases (leb i j.n)) [
    | inl early ↦
        rw
          (
            early,
            take-append_le i to_log (head_write ∷ finish)
                (omega (arith, leb→le i j.n early, length-to_log)),
          )
          (before_header i c out)
    | inr late ↦
        rw
          (
            late,
            take-append_gt i (suc (i - j.n - 1)) to_log (head_write ∷ finish)
                (omega (arith, late_lem late, length-to_log)),
            apply_writes-append to_log (head_write ∷ take (i - j.n - 1) finish) s.disk,
          )
          (unfold apply_writes marked in after_header (i - j.n - 1) c out)
  ])
    where
      head_write : ℕ × Block
      head_write = (j.start, head_block)

      finish : List (ℕ × Block)
      finish = finish_writes j (prepared j s.buf)

      length-to_log : length to_log ≡ j.n
      length-to_log = length-log_writes (listed j) (j.start + 1) s.buf ∙ length-listed

      late_lem : leb i j.n ≡ false → j.n < i
      late_lem h = ground arith

  commit_disk : (commit j s).1.disk ≡ apply_writes (finish_writes j (prepared j s.buf)) marked
  unfolding marked to_log apply_writes
  commit_disk =
      ap (λ (r : Journal × Store). r.1.disk) (commit_lem j s v.some_block)
      ∙ apply_writes-append to_log ((j.start, head_block) ∷ finish_writes j (prepared j s.buf))
          s.disk

  -- `commit` of a complete transaction makes every block outside the log on the disk what the
  -- transaction left, and empties the log in memory and on the disk.
  pub commit-installed :
      ((commit j s).0.n ≡ 0)
      × (first_word ((commit j s).1.disk j.start) ≡ 0)
      × ((c : ℕ) → IsOutside j.start hi c → (commit j s).1.disk c ≡ s.buf c)
  commit-installed = (
    ap (λ (r : Journal × Store). r.0.n) (commit_lem j s v.some_block),
    rw commit_disk (finish_writes-first_word j (prepared j s.buf) marked),
    λ c out. rw commit_disk (installed_all c out),
  )
