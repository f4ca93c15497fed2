-- ===== src/FsLog/Crash.antt =====
-- Crashes between the disk writes of src/log.c, and the recovery after them.
use waka_b4_research.Base.{ℕ, ◌+◌, ◌≡◌, refl, ap, ◌∙◌, ◌≢◌, List, [], ◌∷◌, update, update_self}
use waka_b4_research.FsLog.{
  Block, Store, Journal, listed, at_boot, initlog, read_head, set_header, first_word,
}
use waka_b4_research.FsLog.Install.{
  Contents, apply_writes, apply_writes-append, update_ne, installed, install_writes,
  installed-apply,
}
use waka_b4_research.FsLog.Trace.{finish_writes, recover_from_log_lem}
use waka_b4_research.FsLog.Header.{listed_in, first_word-set_header, listed_in-empty}

-- The header that is written last changes no other block, and makes the log empty.
module _ (j : Journal) (v d : Contents) where
  abbrev pub last_header : Block
  last_header = set_header 0 j.block (installed (j.start + 1) (listed j) v j.start)

  pub finish_writes-split :
      apply_writes (finish_writes j v) d
      ≡ update (apply_writes (install_writes (j.start + 1) (listed j) v) d) j.start last_header
  finish_writes-split =
      apply_writes-append (install_writes (j.start + 1) (listed j) v) ((j.start, last_header) ∷ [])
        d
      ∙ unfold apply_writes in refl

  pub finish_writes-else :
      (c : ℕ)
      → c ≢ j.start
      → apply_writes (finish_writes j v) d c
        ≡ apply_writes (install_writes (j.start + 1) (listed j) v) d c
  finish_writes-else c h = rw finish_writes-split (
      update_ne (apply_writes (install_writes (j.start + 1) (listed j) v) d) j.start c last_header
        h)

  pub finish_writes-first_word : first_word (apply_writes (finish_writes j v) d j.start) ≡ 0
  finish_writes-first_word =
      rw
        (
          finish_writes-split,
          update_self (apply_writes (install_writes (j.start + 1) (listed j) v) d) j.start
              last_header,
        )
        (first_word-set_header j.block (installed (j.start + 1) (listed j) v j.start))

-- The machine after a reboot: nothing is cached.
abbrev pub rebooted : Contents → Store
rebooted d = record { buf = d; disk = d; writes = [] }

-- The disk that recovery leaves.
abbrev pub recovered : ℕ → ℕ → Contents → Contents
recovered start size d = (initlog start size (rebooted d)).1.disk

module _ (start size : ℕ) (d : Contents) where
  -- The log as recovery reads it.
  abbrev pub found : Journal
  found = read_head (at_boot start size) (rebooted d)

  pub recovered_writes : recovered start size d ≡ apply_writes (finish_writes found d) d
  unfolding initlog
  recovered_writes =
      ap (λ (r : Journal × Store). r.1.disk)
        (recover_from_log_lem (at_boot start size) (rebooted d))

  pub recovered_lem :
      (c : ℕ)
      → c ≢ start
      → recovered start size d c ≡ installed (start + 1) (listed_in (d start)) d c
  recovered_lem c h =
      ap (λ (f : Contents). f c) recovered_writes
      ∙ finish_writes-else found d d c h
      ∙ ap (λ (f : Contents). f c) (installed-apply (listed_in (d start)) (start + 1) d)

  -- A disk whose log is empty is left as it is.
  pub recovered-empty :
      (c : ℕ) → c ≢ start → first_word (d start) ≡ 0 → recovered start size d c ≡ d c
  unfolding installed
  recovered-empty c h e =
      recovered_lem c h
      ∙ ap (λ (bs : List ℕ). installed (start + 1) bs d c) (listed_in-empty (d start) e)
