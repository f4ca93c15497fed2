-- ===== src/FsLog/Recovery.antt =====
-- A second crash, during the recovery of src/log.c.
use waka_b4_research.Base.{
  ℕ, ◌+◌, ◌<◌, ◌≡◌, sym, ap, ◌∙◌, ◌≢◌, inl, inr, false, List, [], ◌∷◌, ◌++◌, arith, leb, leb→le,
  Bool-cases, length, length-append, take, take-append_le, take-all, NotIn,
}
use waka_b4_research.FsLog.{Block, Store, Journal, at_boot, initlog}
use waka_b4_research.FsLog.Install.{
  Contents, apply_writes, take-Avoids, apply_writes-Avoids, installed, install_writes, IsOutside,
  AreOutside, NotIn-outside, install_writes-Avoids,
}
use waka_b4_research.FsLog.Copies.{installed_agree}
use waka_b4_research.FsLog.Trace.{finish_writes, recover_from_log_lem}
use waka_b4_research.FsLog.Header.{listed_in}
use waka_b4_research.FsLog.Crash.{
  rebooted, recovered, found, last_header, recovered_writes, recovered_lem, recovered-empty,
  finish_writes-first_word,
}

-- The listed blocks are none of the log's, and the log has room for them.
pub record Fits (start size : ℕ) (bs : List ℕ) : Type 0 where
  pub room : length bs < size
  pub outside : AreOutside start (start + size) bs

pub not_start : (start size c : ℕ) → 0 < size → IsOutside start (start + size) c → c ≢ start
not_start start size c room out = omega arith

pub initlog-writes :
    (start size : ℕ) (d : Contents)
    → (initlog start size (rebooted d)).1.writes ≡ finish_writes (found start size d) d
unfolding initlog
initlog-writes start size d =
    ap (λ (r : Journal × Store). r.1.writes)
      (recover_from_log_lem (at_boot start size) (rebooted d))

module _ (start size : ℕ) (d : Contents) (v : Fits start size (listed_in (d start))) where
  -- Disks that differ only in the blocks that the log will overwrite recover alike.
  recovered_agree :
      (d' : Contents) (c : ℕ)
      → IsOutside start (start + size) c
      → ((b : ℕ) → NotIn b (listed_in (d start)) → d' b ≡ d b)
      → recovered start size d' c ≡ recovered start size d c
  recovered_agree d' c out same =
      let off : c ≢ start = not_start start size c (omega (arith, v.room)) out in
      let header : d' start ≡ d start = same start (
        NotIn-outside start (start + size) (listed_in (d start)) start v.outside (omega arith)
          (omega (arith, v.room))) in
      recovered_lem start size d' c off
      ∙ ap (λ (h : Block). installed (start + 1) (listed_in h) d' c) header
      ∙ installed_agree start (start + size) (listed_in (d start)) (start + 1) d' d (omega arith)
          (omega (arith, v.room)) v.outside same c
      ∙ sym (recovered_lem start size d c off)

  partial : ℕ → List (ℕ × Block)
  partial i = take i (install_writes (start + 1) (listed_in (d start)) d)

  recovered-partial :
      (i c : ℕ)
      → IsOutside start (start + size) c
      → recovered start size (apply_writes (partial i) d) c ≡ recovered start size d c
  unfolding partial
  recovered-partial i c out = recovered_agree (apply_writes (partial i) d) c out λ b off.
      apply_writes-Avoids (partial i) d b (
        take-Avoids i (install_writes (start + 1) (listed_in (d start)) d) b
          (install_writes-Avoids (listed_in (d start)) (start + 1) b d off))

  -- If the machine stops during recovery, after any number `i` of its disk writes, and recovers
  -- again, every block outside the log is as if the first recovery had finished.
  pub recovered-crash :
      (i c : ℕ)
      → IsOutside start (start + size) c
      → recovered start size (apply_writes (take i (initlog start size (rebooted d)).1.writes) d) c
        ≡ recovered start size d c
  unfolding partial
  recovered-crash i c out =
      rw (initlog-writes start size d) (elim (Bool-cases (leb i (length writes))) [
        | inl early ↦
            rw (take-append_le i writes (last ∷ []) (leb→le i (length writes) early))
              (recovered-partial i c out)
        | inr late ↦
            rw
              (
                take-all i (writes ++ last ∷ [])
                    (omega (arith, length-append {0} writes (last ∷ []), late_lem late)),
                ← recovered_writes start size d,
              )
              (recovered-empty start size (recovered start size d) c
                (not_start start size c (omega (arith, v.room)) out)
                (rw (recovered_writes start size d)
                  (finish_writes-first_word (found start size d) d d)))
      ])
    where
      writes : List (ℕ × Block)
      writes = install_writes (start + 1) (listed_in (d start)) d

      last : ℕ × Block
      last = (start, last_header (found start size d) d d)

      late_lem : leb i (length writes) ≡ false → length writes < i
      late_lem h = ground arith
