-- ===== src/Vm/Page.antt =====
-- One round of mappages of src/vm.c: the entry of a page.
use waka_b4_research.Base.{
  ℕ, ◌/◌, ◌^◌, ◌<◌, ◌≡◌, inl, inr, refl, sym, ap, ◌∙◌, arith, Bool, true, false, ◌&&◌, List, ◌==◌,
  if◌then◌else◌, Bool-cases, Outcome, ok, panic, spins,
}
use waka_b4_research.Kmem.{Kmem, Site, page_size}
use waka_b4_research.Vm.{pdx, ptx, is_present, page_entry, walkpgdir, put_page, map_page}
use waka_b4_research.Vm.Tables.{entry_of, IsTables, set_entry-IsTables, entry_of-set_entry}
use waka_b4_research.Vm.Walk.{WalkEnds, walkpgdir_lem, returns-then}

-- The number of a page.
abbrev pub page_of : ℕ → ℕ
page_of va = va / page_size

module _ (m : Site) (pgdir perm : ℕ) where
  -- How the mapping of the page of `a` ends.
  abbrev pub PageEnds : (a pa : ℕ) → Kmem → Outcome (Bool × Kmem) → Type 0
  PageEnds a pa k (ok (true, k')) =
      (is_present (entry_of pgdir k.mem a) ≡ false)
      × ((xs : List ℕ) × IsTables pgdir k' xs)
      × ((va : ℕ)
          → va < 2 ^ 32
          → entry_of pgdir k'.mem va
            ≡ (if page_of va == page_of a then page_entry pa perm else entry_of pgdir k.mem va))
  PageEnds a pa k (ok (false, k')) = k'.mem ≡ k.mem
  PageEnds a pa k (panic _) = is_present (entry_of pgdir k.mem a) ≡ true
  PageEnds a pa k spins = ⊥

  put_page-ends :
      (a pa : ℕ) (k : Kmem) (xs : List ℕ) (pte : ℕ) (k' : Kmem)
      → a < 2 ^ 32
      → WalkEnds m pgdir a k xs pte k'
      → PageEnds a pa k (put_page m pte pa perm k')
  put_page-ends a pa k xs pte k' lt (inl (e, _, same)) = rw e same
  put_page-ends a pa k xs pte k' lt (inr (xs', t, there, e, pos, same)) =
      let some_entry : (pte == 0) ≡ false = ground (arith, pos) in
      let at : entry_of pgdir k.mem a ≡ k'.mem pte =
        sym (same a) ∙ rw there (ap (λ (x : ℕ). k'.mem x) (sym e)) in
      rw some_entry (elim (Bool-cases (is_present (k'.mem pte))) [
        | inl taken ↦ rw taken (ap (λ w. is_present w) at ∙ taken)
        | inr open_entry ↦ rw open_entry (
          ap (λ w. is_present w) at ∙ open_entry,
          (xs', rw e (set_entry-IsTables pgdir k' xs' t a there (page_entry pa perm))),
          λ va small.
              let page : (pdx va == pdx a && ptx va == ptx a) ≡ (page_of va == page_of a) =
                ground arith in
              rw e (
                entry_of-set_entry pgdir k' xs' t a there (page_entry pa perm) va
                ∙ rw (page, same va) refl),
        )
      ])

  pub map_page_lem :
      (a pa : ℕ) (k : Kmem) (xs : List ℕ)
      → a < 2 ^ 32
      → IsTables pgdir k xs
      → PageEnds a pa k (map_page m pgdir a pa perm k)
  unfolding map_page
  map_page_lem a pa k xs lt t =
      returns-then (WalkEnds m pgdir a k xs) (PageEnds a pa k) (walkpgdir m pgdir a true k)
        (λ pte. put_page m pte pa perm) (walkpgdir_lem m pgdir a k xs t)
        (λ pte k' w. put_page-ends a pa k xs pte k' lt w)
