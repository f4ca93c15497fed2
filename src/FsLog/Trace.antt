-- ===== src/FsLog/Trace.antt =====
-- The writes to the disk of the functions of src/log.c, in order.
use mathlib.Core.List.{append_assoc, append-nil}
use waka_b4_research.Base.{
  ℕ, ◌+◌, ◌<◌, ◌≡◌, ap, ◌∙◌, List, [], ◌∷◌, ◌++◌, update, update_self, lt→ltb,
}
use waka_b4_research.FsLog.{
  Block, Store, Journal, bwrite, install_from, write_from, listed, cleared, write_head, set_header,
  commit, recover_from_log, read_head,
}
use waka_b4_research.FsLog.Install.{
  Contents, apply_writes, apply_writes-append, installed, install_writes, logged, log_writes,
}

-- The store after writes that leave the contents `v`.
abbrev pub after : Contents → List (ℕ × Block) → Store → Store
after v ws s = record { buf = v; disk = apply_writes ws s.disk; writes = s.writes ++ ws }

pub after-after :
    (v w : Contents) (us ws : List (ℕ × Block)) (s : Store)
    → after v ws (after w us s) ≡ after v (us ++ ws) s
after-after v w us ws s = rw (apply_writes-append, append_assoc)

-- to_log change of a buffer and the write of it.
pub bwrite_lem :
    (b : ℕ) (v : Block) (s : Store)
    → bwrite b (record s { buf = update s.buf b v }) ≡ after (update s.buf b v) ((b, v) ∷ []) s
unfolding apply_writes
bwrite_lem b v s = rw (update_self s.buf b v)

pub install_from_lem :
    (bs : List ℕ) (at : ℕ) (s : Store)
    → install_from at bs s ≡ after (installed at bs s.buf) (install_writes at bs s.buf) s
unfolding install_from apply_writes installed install_writes
install_from_lem [] at s = rw append-nil
install_from_lem (b ∷ bs) at s =
    ap (install_from (at + 1) bs) (bwrite_lem b (s.buf at) s)
    ∙ install_from_lem bs (at + 1) (after (update s.buf b (s.buf at)) ((b, s.buf at) ∷ []) s)
    ∙ after-after _ (update s.buf b (s.buf at)) ((b, s.buf at) ∷ []) _ s

pub write_from_lem :
    (bs : List ℕ) (at : ℕ) (s : Store)
    → write_from at bs s ≡ after (logged at bs s.buf) (log_writes at bs s.buf) s
unfolding write_from apply_writes logged log_writes
write_from_lem [] at s = rw append-nil
write_from_lem (b ∷ bs) at s =
    ap (write_from (at + 1) bs) (bwrite_lem at (s.buf b) s)
    ∙ write_from_lem bs (at + 1) (after (update s.buf at (s.buf b)) ((at, s.buf b) ∷ []) s)
    ∙ after-after _ (update s.buf at (s.buf b)) ((at, s.buf b) ∷ []) _ s

module _ (j : Journal) (v : Contents) where
  -- The header that `write_head` writes.
  abbrev pub header : Block
  header = set_header j.n j.block (v j.start)

  abbrev pub with_header : Contents
  with_header = update v j.start header

  -- The writes of `install_trans` and of the `write_head` after it.
  abbrev pub finish_writes : List (ℕ × Block)
  finish_writes =
      install_writes (j.start + 1) (listed j) v
      ++ (j.start, set_header 0 j.block (installed (j.start + 1) (listed j) v j.start)) ∷ []

  abbrev pub finished : Contents
  finished =
      update (installed (j.start + 1) (listed j) v) j.start
        (set_header 0 j.block (installed (j.start + 1) (listed j) v j.start))

pub finish_lem :
    (j : Journal) (s : Store)
    → write_head (cleared j) (install_from (j.start + 1) (listed j) s)
      ≡ after (finished j s.buf) (finish_writes j s.buf) s
finish_lem j s =
    ap (write_head (cleared j)) (install_from_lem (listed j) (j.start + 1) s)
    ∙ bwrite_lem j.start _ _
    ∙ after-after _ (installed (j.start + 1) (listed j) s.buf)
        (install_writes (j.start + 1) (listed j) s.buf) _ s

-- The contents and the writes once the header is on the disk.
module _ (j : Journal) (v : Contents) where
  abbrev pub copied : Contents
  copied = logged (j.start + 1) (listed j) v

  abbrev pub prepared : Contents
  prepared = with_header j copied

  abbrev pub commit_writes : List (ℕ × Block)
  commit_writes =
      log_writes (j.start + 1) (listed j) v ++ (j.start, header j copied) ∷ finish_writes j prepared

pub commit_lem :
    (j : Journal) (s : Store)
    → 0 < j.n
    → commit j s ≡ (cleared j, after (finished j (prepared j s.buf)) (commit_writes j s.buf) s)
unfolding commit
commit_lem j s some' = rw (lt→ltb 0 j.n some') (ap (λ (t : Store). (cleared j, t)) run)
  where
    to_log : List (ℕ × Block)
    to_log = log_writes (j.start + 1) (listed j) s.buf

    head_write : List (ℕ × Block)
    head_write = (j.start, header j (copied j s.buf)) ∷ []

    head_written :
        write_head j (write_from (j.start + 1) (listed j) s)
        ≡ after (prepared j s.buf) (to_log ++ head_write) s
    head_written =
        ap (write_head j) (write_from_lem (listed j) (j.start + 1) s)
        ∙ bwrite_lem j.start _ _
        ∙ after-after _ (copied j s.buf) to_log head_write s

    run :
        write_head (cleared j) (
          install_from
            (j.start + 1)
            (listed j)
            (write_head j (write_from (j.start + 1) (listed j) s)))
        ≡ after (finished j (prepared j s.buf)) (commit_writes j s.buf) s
    run =
        ap (λ (t : Store). write_head (cleared j) (install_from (j.start + 1) (listed j) t))
          head_written
        ∙ finish_lem j (after (prepared j s.buf) (to_log ++ head_write) s)
        ∙ after-after _ (prepared j s.buf) (to_log ++ head_write)
            (finish_writes j (prepared j s.buf)) s
        ∙ ap (λ (ws : List (ℕ × Block)). after (finished j (prepared j s.buf)) ws s)
            (append_assoc to_log head_write _)

pub recover_from_log_lem :
    (j : Journal) (s : Store)
    → recover_from_log j s ≡ (
      cleared (read_head j s),
      after (finished (read_head j s) s.buf) (finish_writes (read_head j s) s.buf) s,
    )
unfolding recover_from_log
recover_from_log_lem j s =
    ap (λ (t : Store). (cleared (read_head j s), t)) (finish_lem (read_head j s) s)
