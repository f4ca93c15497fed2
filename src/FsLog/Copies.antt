-- ===== src/FsLog/Copies.antt =====
-- What the copies between the log and the blocks of src/log.c leave, on contents.
use waka_b4_research.Base.{
  ℕ, ◌+◌, ◌≤◌, ◌<◌, ◌≡◌, ◌∙◌, ◌⊎◌, inl, inr, List, [], ◌∷◌, arith, ◌==◌, Bool-cases, length, update,
  update_self, NotIn, ==_iff,
}
use waka_b4_research.FsLog.Install.{
  Contents, apply_writes, update_ne, apply_writes-Avoids, installed, install_writes, logged,
  log_writes, IsOutside, AreOutside, outside_ne, NotIn-outside, install_writes-Avoids,
  log_writes-Avoids, installed-apply, logged-apply,
}

-- The log blocks from `at` on of `d` hold what `v` has in the blocks `bs`.
abbrev pub Copied : ℕ → List ℕ → Contents → Contents → Type 0
Copied at [] d v = Unit
Copied at (b ∷ bs) d v = (d at ≡ v b) × Copied (at + 1) bs d v

pub Copied-agree :
    (bs : List ℕ) (at : ℕ) (d d' v : Contents)
    → ((c : ℕ) → at ≤ c → c < at + length bs → d' c ≡ d c)
    → Copied at bs d v
    → Copied at bs d' v
Copied-agree [] at d d' v same h = tt
Copied-agree (b ∷ bs) at d d' v same h = (
  same at (omega arith) (omega arith) ∙ h.0,
  Copied-agree bs (at + 1) d d' v (λ c p q. same c (omega arith) (omega arith)) h.1,
)

pub logged_else :
    (bs : List ℕ) (at c : ℕ) (d : Contents)
    → (c < at) ⊎ (at + length bs ≤ c)
    → logged at bs d c ≡ d c
logged_else bs at c d h =
    rw (← logged-apply bs at d)
      (apply_writes-Avoids (log_writes at bs d) d c (log_writes-Avoids bs at c d h))

pub installed_else :
    (bs : List ℕ) (at c : ℕ) (d : Contents) → NotIn c bs → installed at bs d c ≡ d c
installed_else bs at c d h =
    rw (← installed-apply bs at d)
      (apply_writes-Avoids (install_writes at bs d) d c (install_writes-Avoids bs at c d h))

module _ (lo hi : ℕ) (v : Contents) where
  -- Copies of contents that agree with `v` outside the log are copies of `v`.
  pub logged-Copied :
      (bs : List ℕ) (at : ℕ) (w : Contents)
      → lo ≤ at
      → at + length bs ≤ hi
      → AreOutside lo hi bs
      → ((c : ℕ) → IsOutside lo hi c → w c ≡ v c)
      → Copied at bs (logged at bs w) v
  unfolding logged
  logged-Copied [] at w p q o same = tt
  logged-Copied (b ∷ bs) at w p q o same = (
    logged_else bs (at + 1) at (update w at (w b)) (inl (omega arith))
        ∙ update_self w at (w b)
        ∙ same b o.0,
    logged-Copied bs (at + 1) (update w at (w b)) (omega arith) (omega arith) o.1
        (λ c out. update_ne w at c (w b) (omega arith) ∙ same c out),
  )

  -- The same for the disk after the writes.
  pub log_writes-Copied :
      (bs : List ℕ) (at : ℕ) (w d : Contents)
      → lo ≤ at
      → at + length bs ≤ hi
      → AreOutside lo hi bs
      → ((c : ℕ) → IsOutside lo hi c → w c ≡ v c)
      → Copied at bs (apply_writes (log_writes at bs w) d) v
  unfolding log_writes apply_writes
  log_writes-Copied [] at w d p q o same = tt
  log_writes-Copied (b ∷ bs) at w d p q o same = (
    apply_writes-Avoids (log_writes (at + 1) bs (update w at (w b))) (update d at (w b)) at
          (log_writes-Avoids bs (at + 1) at (update w at (w b)) (inl (omega arith)))
        ∙ update_self d at (w b)
        ∙ same b o.0,
    log_writes-Copied bs (at + 1) (update w at (w b)) (update d at (w b)) (omega arith)
        (omega arith) o.1 (λ c out. update_ne w at c (w b) (omega arith) ∙ same c out),
  )

  -- Where the log of `w` holds copies of `v`, and every block of `d` but the listed ones is as in
  -- `v`, the writes of the install make all of them as in `v`.
  pub install_writes-Copied :
      (bs : List ℕ) (at : ℕ) (w d : Contents)
      → lo ≤ at
      → at + length bs ≤ hi
      → AreOutside lo hi bs
      → Copied at bs w v
      → ((c : ℕ) → IsOutside lo hi c → NotIn c bs → d c ≡ v c)
      → (c : ℕ) → IsOutside lo hi c
      → apply_writes (install_writes at bs w) d c ≡ v c
  unfolding apply_writes install_writes
  install_writes-Copied [] at w d p q o k same c out = same c out tt
  install_writes-Copied (b ∷ bs) at w d p q o k same c out =
      install_writes-Copied bs (at + 1) (update w b (w at)) (update d b (w at)) (omega arith)
        (omega arith) o.1
        (Copied-agree bs (at + 1) w (update w b (w at)) v
          (λ c lt gt. update_ne w b c (w at) (outside_ne lo hi b c o.0 (omega arith) (omega arith)))
          k.1)
        step c out
    where
      step : (c : ℕ) → IsOutside lo hi c → NotIn c bs → update d b (w at) c ≡ v c
      step c out none' = elim (Bool-cases (c == b)) [
        | inl e ↦ rw (e, (==_iff c b).0 e) k.0
        | inr e ↦ rw e (same c out (ground arith, none'))
      ]

  pub installed-Copied :
      (bs : List ℕ) (at : ℕ) (d : Contents)
      → lo ≤ at
      → at + length bs ≤ hi
      → AreOutside lo hi bs
      → Copied at bs d v
      → ((c : ℕ) → IsOutside lo hi c → NotIn c bs → d c ≡ v c)
      → (c : ℕ) → IsOutside lo hi c
      → installed at bs d c ≡ v c
  installed-Copied bs at d p q o k same c out =
      rw (← installed-apply bs at d) (install_writes-Copied bs at d d p q o k same c out)

module _ (lo hi : ℕ) where
  -- Contents that agree but in the listed blocks have the same install.
  pub installed_agree :
      (bs : List ℕ) (at : ℕ) (d d' : Contents)
      → lo ≤ at
      → at + length bs ≤ hi
      → AreOutside lo hi bs
      → ((c : ℕ) → NotIn c bs → d c ≡ d' c)
      → (c : ℕ) → installed at bs d c ≡ installed at bs d' c
  unfolding installed
  installed_agree [] at d d' p q o same c = same c tt
  installed_agree (b ∷ bs) at d d' p q o same c =
      installed_agree bs (at + 1) (update d b (d at)) (update d' b (d' at)) (omega arith)
        (omega arith) o.1 step c
    where
      step : (c : ℕ) → NotIn c bs → update d b (d at) c ≡ update d' b (d' at) c
      step c none' = elim (Bool-cases (c == b)) [
        | inl e ↦ rw e (same at (NotIn-outside lo hi (b ∷ bs) at o (omega arith) (omega arith)))
        | inr e ↦ rw e (same c (ground arith, none'))
      ]
