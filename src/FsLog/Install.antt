-- ===== src/FsLog/Install.antt =====
-- The copies that `install_trans` and `write_log` of src/log.c make, as functions on contents.
use waka_b4_research.Base.{
  ℕ, zero, suc, ap, ◌+◌, ◌≤◌, ◌<◌, ◌≡◌, refl, ◌≢◌, ◌⊎◌, List, [], ◌∷◌, ◌++◌, arith, length, take,
  update, NotIn,
}
use waka_b4_research.FsLog.{Block}

abbrev pub Contents : Type 0
Contents = ℕ → Block

-- The disk after a list of writes.
unfoldable pub apply_writes : List (ℕ × Block) → Contents → Contents
apply_writes [] d = d
apply_writes ((b, v) ∷ ws) d = apply_writes ws (update d b v)

-- None of the writes goes to block `b`.
abbrev pub Avoids : ℕ → List (ℕ × Block) → Type 0
Avoids b [] = Unit
Avoids b ((c, _) ∷ ws) = (b ≢ c) × Avoids b ws

pub update_ne : (d : Contents) (b c : ℕ) (v : Block) → c ≢ b → update d b v c ≡ d c
update_ne d b c v h = ground arith

pub apply_writes-Avoids :
    (ws : List (ℕ × Block)) (d : Contents) (b : ℕ) → Avoids b ws → apply_writes ws d b ≡ d b
unfolding apply_writes
apply_writes-Avoids [] d b h = refl
apply_writes-Avoids ((c, v) ∷ ws) d b h =
    rw (apply_writes-Avoids ws (update d c v) b h.1) (update_ne d c b v h.0)

pub take-Avoids : (i : ℕ) (ws : List (ℕ × Block)) (b : ℕ) → Avoids b ws → Avoids b (take i ws)
take-Avoids zero ws b h = tt
take-Avoids (suc i) [] b h = tt
take-Avoids (suc i) ((c, v) ∷ ws) b h = (h.0, take-Avoids i ws b h.1)

pub apply_writes-append :
    (us ws : List (ℕ × Block)) (d : Contents)
    → apply_writes (us ++ ws) d ≡ apply_writes ws (apply_writes us d)
unfolding apply_writes
apply_writes-append [] ws d = refl
apply_writes-append ((b, v) ∷ us) ws d = apply_writes-append us ws (update d b v)

-- The contents after the log blocks from `at` on are copied to the blocks `bs`, and the writes.
unfoldable pub installed : ℕ → List ℕ → Contents → Contents
installed at [] d = d
installed at (b ∷ bs) d = installed (at + 1) bs (update d b (d at))

unfoldable pub install_writes : ℕ → List ℕ → Contents → List (ℕ × Block)
install_writes at [] d = []
install_writes at (b ∷ bs) d = (b, d at) ∷ install_writes (at + 1) bs (update d b (d at))

-- The same for the copies of the blocks `bs` to the log.
unfoldable pub logged : ℕ → List ℕ → Contents → Contents
logged at [] d = d
logged at (b ∷ bs) d = logged (at + 1) bs (update d at (d b))

unfoldable pub log_writes : ℕ → List ℕ → Contents → List (ℕ × Block)
log_writes at [] d = []
log_writes at (b ∷ bs) d = (at, d b) ∷ log_writes (at + 1) bs (update d at (d b))

-- Block `c` is not one of the log's blocks from `lo` up to `hi`.
abbrev pub IsOutside : ℕ → ℕ → ℕ → Type 0
IsOutside lo hi c = (c < lo) ⊎ (hi ≤ c)

abbrev pub AreOutside : ℕ → ℕ → List ℕ → Type 0
AreOutside lo hi [] = Unit
AreOutside lo hi (b ∷ bs) = IsOutside lo hi b × AreOutside lo hi bs

pub outside_ne : (lo hi b c : ℕ) → IsOutside lo hi b → lo ≤ c → c < hi → c ≢ b
outside_ne lo hi b c h p q = omega arith

module _ (lo hi : ℕ) where
  pub NotIn-outside : (bs : List ℕ) (c : ℕ) → AreOutside lo hi bs → lo ≤ c → c < hi → NotIn c bs
  NotIn-outside [] c o p q = tt
  NotIn-outside (b ∷ bs) c o p q = (outside_ne lo hi b c o.0 p q, NotIn-outside bs c o.1 p q)

-- The writes of an install go to the blocks of the list.
pub install_writes-Avoids :
    (bs : List ℕ) (at c : ℕ) (d : Contents) → NotIn c bs → Avoids c (install_writes at bs d)
unfolding install_writes
install_writes-Avoids [] at c d h = tt
install_writes-Avoids (b ∷ bs) at c d h =
    (h.0, install_writes-Avoids bs (at + 1) c (update d b (d at)) h.1)

-- The writes of a copy to the log go to the log.
pub log_writes-Avoids :
    (bs : List ℕ) (at c : ℕ) (d : Contents)
    → (c < at) ⊎ (at + length bs ≤ c)
    → Avoids c (log_writes at bs d)
unfolding log_writes
log_writes-Avoids [] at c d h = tt
log_writes-Avoids (b ∷ bs) at c d h =
    (omega arith, log_writes-Avoids bs (at + 1) c (update d at (d b)) (omega arith))

-- The writes are what the copies do.
pub installed-apply :
    (bs : List ℕ) (at : ℕ) (d : Contents)
    → apply_writes (install_writes at bs d) d ≡ installed at bs d
unfolding apply_writes install_writes installed
installed-apply [] at d = refl
installed-apply (b ∷ bs) at d = installed-apply bs (at + 1) (update d b (d at))

pub logged-apply :
    (bs : List ℕ) (at : ℕ) (d : Contents) → apply_writes (log_writes at bs d) d ≡ logged at bs d
unfolding apply_writes log_writes logged
logged-apply [] at d = refl
logged-apply (b ∷ bs) at d = logged-apply bs (at + 1) (update d at (d b))

pub length-log_writes :
    (bs : List ℕ) (at : ℕ) (d : Contents) → length (log_writes at bs d) ≡ length bs
unfolding log_writes
length-log_writes [] at d = refl
length-log_writes (b ∷ bs) at d = ap suc (length-log_writes bs (at + 1) (update d at (d b)))
