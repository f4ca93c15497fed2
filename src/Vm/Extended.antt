-- ===== src/Vm/Extended.antt =====
-- The page tables of src/vm.c with one more table.
use mathlib.Core.Path.{subst}
use waka_b4_research.Base.{
  ℕ, ◌+◌, ◌*◌, ◌/◌, ◌%◌, ◌^◌, ◌<◌, ◌≤◌, ◌≡◌, ◌≢◌, ◌⊎◌, inl, inr, refl, sym, ap, ◌∙◌, arith, true,
  false, List, ◌∷◌, ◌==◌, Bool-cases, update_self, update_else, NotIn,
}
use waka_b4_research.Kmem.{Kmem, page_size}
use waka_b4_research.Kmem.FreeList.{IsFree, IsFree-other_page}
use waka_b4_research.Vm.{pdx, ptx, pte_addr, p2v, is_present, zero_page, set_entry, table_entry}
use waka_b4_research.Vm.Tables.{
  table_at, has_table, entry_of, IsTables, table_at-aligned, table_entry_lem, table_entry-present,
  entry_of-there, entry_of-none,
}

-- A page `x` that was taken from the free list becomes the table of the entry `d`.
module _ (pgdir : ℕ) (k : Kmem) (x : ℕ) (xs : List ℕ) (t : IsTables pgdir k (x ∷ xs)) (pos : x ≢ 0)
    (k1 : Kmem) (free : IsFree k1 xs) (same : k1.mem ≡ k.mem) (d : ℕ) (small : d < 1024)
    (absent : has_table pgdir k.mem d ≡ false) where
  abbrev pub extended : Kmem
  extended = set_entry (pgdir + 4 * d) (table_entry x) (zero_page x k1)

  x_page : x % page_size ≡ 0
  x_page = t.free.aligned.0

  -- Outside the new page and the entry, nothing changes.
  other_word :
      (a : ℕ) → ((a < x) ⊎ (x + page_size ≤ a)) → a ≢ pgdir + 4 * d → extended.mem a ≡ k.mem a
  other_word a out far = let old = ap (λ (f : ℕ → ℕ). f a) same in ground arith

  dir_word : (e : ℕ) → e < 1024 → e ≢ d → extended.mem (pgdir + 4 * e) ≡ k.mem (pgdir + 4 * e)
  dir_word e lt far =
      let apart = t.in_use.0 in
      other_word (pgdir + 4 * e) (ground (arith, t.aligned, x_page)) (λ z. far (omega arith))

  new_word : extended.mem (pgdir + 4 * d) ≡ table_entry x
  new_word = update_self (zero_page x k1).mem (pgdir + 4 * d) (table_entry x)

  new_table : table_at pgdir extended.mem d ≡ x
  new_table = ap (λ w. p2v (pte_addr w)) new_word ∙ table_entry_lem x t.below.0 x_page

  new_off : NotIn x xs
  new_off = t.free.distinct.0

  extended-IsFree : IsFree extended xs
  extended-IsFree =
      let zeroed =
        IsFree-other_page k1 xs x (zero_page x k1).mem free x_page new_off
          (λ a out. ground arith) in
      IsFree-other_page (zero_page x k1) xs pgdir extended.mem zeroed t.aligned t.in_use.1 (λ a out.
        update_else (zero_page x k1).mem (pgdir + 4 * d) a (table_entry x) (λ e. omega arith))

  -- What the entry `e` leads to now.
  abbrev New : ℕ → Type 0
  New e =
      ((e ≡ d) × (table_at pgdir extended.mem e ≡ x))
      ⊎ ((e ≢ d) × (extended.mem (pgdir + 4 * e) ≡ k.mem (pgdir + 4 * e)))

  table_is : (e : ℕ) → e < 1024 → New e
  table_is e lt = elim (Bool-cases (e == d)) [
    | inl h ↦ let here : e ≡ d = ground arith in inl (here, rw here new_table)
    | inr h ↦ let far : e ≢ d = λ z. ground arith in inr (far, dir_word e lt far)
  ]

  old_table :
      (e : ℕ)
      → e < 1024
      → extended.mem (pgdir + 4 * e) ≡ k.mem (pgdir + 4 * e)
      → has_table pgdir extended.mem e ≡ true
      → (table_at pgdir extended.mem e ≢ 0)
        × (table_at pgdir extended.mem e ≢ pgdir)
        × NotIn (table_at pgdir extended.mem e) (x ∷ xs)
  old_table e lt kept h =
      subst
        (λ w.
          (p2v (pte_addr w) ≢ 0) × (p2v (pte_addr w) ≢ pgdir) × NotIn (p2v (pte_addr w)) (x ∷ xs))
        (sym kept) (t.tables e lt (ap (λ w. is_present w) (sym kept) ∙ h))

  pub extended-IsTables : IsTables pgdir extended xs
  extended-IsTables = record {
    free = extended-IsFree;
    below = t.below.1;
    aligned = t.aligned;
    in_use = t.in_use.1;
    tables = λ e lt h. elim (table_is e lt) [
      | inl (here, new) ↦ rw new (pos, λ z. t.in_use.0 (sym z), new_off)
      | inr (far, kept) ↦ let (p, apart, off) = old_table e lt kept h in (p, apart, off.1)
    ];
    distinct = λ e f lt lt' h h' same_table. elim (table_is e lt) [
      | inl (here, new) ↦ elim (table_is f lt') [
        | inl (here', new') ↦ here ∙ sym here'
        | inr (far, kept) ↦ absurd ((old_table f lt' kept h').2.0 (sym same_table ∙ new))
      ]
      | inr (far, kept) ↦ elim (table_is f lt') [
        | inl (here', new') ↦ absurd ((old_table e lt kept h).2.0 (same_table ∙ new'))
        | inr (far', kept') ↦
            t.distinct e f lt lt' (ap (λ w. is_present w) (sym kept) ∙ h)
              (ap (λ w. is_present w) (sym kept') ∙ h')
              (ap (λ w. p2v (pte_addr w)) (sym kept)
                ∙ same_table
                ∙ ap (λ w. p2v (pte_addr w)) kept')
      ]
    ];
  }

  outside :
      (y i : ℕ)
      → y % page_size ≡ 0
      → y ≢ x
      → (y + 4 * (i / 2 ^ 12 % 1024) < x) ⊎ (x + page_size ≤ y + 4 * (i / 2 ^ 12 % 1024))
  outside y i page far = ground (arith, x_page)

  -- The new table has no entries, so that no address gets one.
  pub entry_of-extended : (va : ℕ) → entry_of pgdir extended.mem va ≡ entry_of pgdir k.mem va
  entry_of-extended va = elim (Bool-cases (pdx va == d)) [
    | inl h ↦
        let here : pdx va ≡ d = ground arith in
        let apart = t.in_use.0 in
        let none_there : extended.mem (x + 4 * ptx va) ≡ 0 = ground (arith, t.aligned, x_page) in
        let blank : has_table pgdir k.mem (pdx va) ≡ false =
          ap (has_table pgdir k.mem) here ∙ absent in
        let there : has_table pgdir extended.mem (pdx va) ≡ true =
          ap (has_table pgdir extended.mem) here
          ∙ ap (λ w. is_present w) new_word
          ∙ table_entry-present x in
        let table : table_at pgdir extended.mem (pdx va) ≡ x =
          ap (table_at pgdir extended.mem) here ∙ new_table in
        entry_of-there pgdir extended.mem va x there table
        ∙ none_there
        ∙ sym (entry_of-none pgdir k.mem va blank)
    | inr h ↦
        let far : pdx va ≢ d = λ z. ground arith in
        let kept = dir_word (pdx va) (omega arith) far in
        elim (Bool-cases (has_table pgdir k.mem (pdx va))) [
          | inr e ↦
              entry_of-none pgdir extended.mem va (ap (λ w. is_present w) kept ∙ e)
              ∙ sym (entry_of-none pgdir k.mem va e)
          | inl e ↦
              let (p, apart, off) = t.tables (pdx va) (omega arith) e in
              let page = table_at-aligned pgdir k.mem (pdx va) in
              let new = off.0 in
              entry_of-there pgdir extended.mem va (table_at pgdir k.mem (pdx va))
                (ap (λ w. is_present w) kept ∙ e) (ap (λ w. p2v (pte_addr w)) kept)
              ∙ other_word (table_at pgdir k.mem (pdx va) + 4 * ptx va)
                  (outside (table_at pgdir k.mem (pdx va)) va page new)
                  (λ z. apart (omega (arith, t.aligned)))
              ∙ sym (entry_of-there pgdir k.mem va (table_at pgdir k.mem (pdx va)) e refl)
        ]
  ]

  -- The address's entry is in the new table.
  pub extended-has_table :
      (has_table pgdir extended.mem d ≡ true) × (table_at pgdir extended.mem d ≡ x)
  extended-has_table = (ap (λ w. is_present w) new_word ∙ table_entry-present x, new_table)
