-- ===== src/Vm/Tables.antt =====
-- The page tables of src/vm.c in memory: what one new table and one new entry leave.
use waka_b4_research.Base.{
  ℕ, ◌+◌, ◌*◌, ◌%◌, ◌^◌, ◌<◌, ◌≡◌, ◌≢◌, inl, inr, refl, ap, arith, Bool, true, false, ◌&&◌, List,
  [], ◌∷◌, ◌==◌, if◌then◌else◌, Bool-cases, update, update_self, update_else, NotIn,
}
use waka_b4_research.Kmem.{Kmem, page_size}
use waka_b4_research.Kmem.FreeList.{IsFree, IsFree-other_page}
use waka_b4_research.Vm.{pdx, ptx, pte_addr, p2v, is_present, set_entry, table_entry}

-- The table that the entry `d` of the directory leads to.
abbrev pub table_at : ℕ → (ℕ → ℕ) → ℕ → ℕ
table_at pgdir mem d = p2v (pte_addr (mem (pgdir + 4 * d)))

abbrev pub has_table : ℕ → (ℕ → ℕ) → ℕ → Bool
has_table pgdir mem d = is_present (mem (pgdir + 4 * d))

-- The entry for an address; 0 where there is no table.
abbrev pub entry_of : ℕ → (ℕ → ℕ) → ℕ → ℕ
entry_of pgdir mem va =
    if has_table pgdir mem (pdx va) then mem (table_at pgdir mem (pdx va) + 4 * ptx va) else 0

abbrev pub AreBelow : List ℕ → Type 0
AreBelow [] = Unit
AreBelow (x ∷ xs) = (x < 2 ^ 32) × AreBelow xs

-- The directory and its tables are pages, no two the same and none of them free.
pub record IsTables (pgdir : ℕ) (k : Kmem) (xs : List ℕ) : Type 0 where
  pub free : IsFree k xs
  pub below : AreBelow xs
  pub aligned : pgdir % page_size ≡ 0
  pub in_use : NotIn pgdir xs
  pub tables :
      (d : ℕ)
      → d < 1024
      → has_table pgdir k.mem d ≡ true
      → (table_at pgdir k.mem d ≢ 0)
        × (table_at pgdir k.mem d ≢ pgdir)
        × NotIn (table_at pgdir k.mem d) xs
  pub distinct :
      (d e : ℕ)
      → d < 1024
      → e < 1024
      → has_table pgdir k.mem d ≡ true
      → has_table pgdir k.mem e ≡ true
      → table_at pgdir k.mem d ≡ table_at pgdir k.mem e
      → d ≡ e

pub table_at-aligned : (pgdir : ℕ) (mem : ℕ → ℕ) (d : ℕ) → table_at pgdir mem d % page_size ≡ 0
table_at-aligned pgdir mem d = omega arith

pub entry_of-there :
    (pgdir : ℕ) (mem : ℕ → ℕ) (va t : ℕ)
    → has_table pgdir mem (pdx va) ≡ true
    → table_at pgdir mem (pdx va) ≡ t
    → entry_of pgdir mem va ≡ mem (t + 4 * ptx va)
entry_of-there pgdir mem va t there e = rw there (ap (λ (t : ℕ). mem (t + 4 * ptx va)) e)

pub entry_of-none :
    (pgdir : ℕ) (mem : ℕ → ℕ) (va : ℕ)
    → has_table pgdir mem (pdx va) ≡ false
    → entry_of pgdir mem va ≡ 0
entry_of-none pgdir mem va absent = rw absent refl

pub table_entry_lem : (x : ℕ) → x < 2 ^ 32 → x % page_size ≡ 0 → p2v (pte_addr (table_entry x)) ≡ x
table_entry_lem x lt aligned = omega arith

pub table_entry-present : (x : ℕ) → is_present (table_entry x) ≡ true
table_entry-present x = ground arith

-- A word of a table is written.
module _ (pgdir : ℕ) (k : Kmem) (xs : List ℕ) (t : IsTables pgdir k xs) (va : ℕ)
    (present : has_table pgdir k.mem (pdx va) ≡ true) (w : ℕ) where
  abbrev place : ℕ
  place = table_at pgdir k.mem (pdx va) + 4 * ptx va

  abbrev written : ℕ → ℕ
  written = update k.mem place w

  dir_kept : (d : ℕ) → d < 1024 → written (pgdir + 4 * d) ≡ k.mem (pgdir + 4 * d)
  dir_kept d lt =
      let apart = (t.tables (pdx va) (omega arith) present).1 in
      let page = table_at-aligned pgdir k.mem (pdx va) in
      update_else k.mem place (pgdir + 4 * d) w (λ e. apart (omega (arith, t.aligned)))

  pub set_entry-IsTables : IsTables pgdir (set_entry place w k) xs
  set_entry-IsTables =
      let page = table_at-aligned pgdir k.mem (pdx va) in
      let (pos, apart, off) = t.tables (pdx va) (omega arith) present in
      record {
        free =
            IsFree-other_page k xs (table_at pgdir k.mem (pdx va)) written t.free page off
              (λ a out. update_else k.mem place a w (λ e. omega arith));
        below = t.below;
        aligned = t.aligned;
        in_use = t.in_use;
        tables = λ d lt. rw (dir_kept d lt) (t.tables d lt);
        distinct = λ d e lt lt'. rw (dir_kept d lt, dir_kept e lt') (t.distinct d e lt lt');
      }

  pub entry_of-set_entry :
      (va' : ℕ)
      → entry_of pgdir written va'
        ≡ (if pdx va' == pdx va && ptx va' == ptx va then w else entry_of pgdir k.mem va')
  entry_of-set_entry va' =
      rw (dir_kept (pdx va') (omega arith)) (elim (Bool-cases (pdx va' == pdx va)) [
        | inl e ↦
            let same : pdx va' ≡ pdx va = ground arith in
            elim (Bool-cases (ptx va' == ptx va)) [
              | inl q ↦
                  let same' : ptx va' ≡ ptx va = ground arith in
                  rw (same, same', present, update_self k.mem place w) (ground arith)
              | inr q ↦
                  let far : table_at pgdir k.mem (pdx va) + 4 * ptx va' ≢ place =
                    λ z. ground arith in
                  rw (e, q, same, present, update_else k.mem place _ w far) refl
            ]
        | inr e ↦ elim (Bool-cases (has_table pgdir k.mem (pdx va'))) [
          | inr absent ↦ rw (e, absent) refl
          | inl there ↦
              let page = table_at-aligned pgdir k.mem (pdx va) in
              let page' = table_at-aligned pgdir k.mem (pdx va') in
              let apart : table_at pgdir k.mem (pdx va') ≢ table_at pgdir k.mem (pdx va) = λ z.
                ground (
                  arith,
                  e,
                  t.distinct (pdx va') (pdx va) (omega arith) (omega arith) there present z,
                ) in
              let far : table_at pgdir k.mem (pdx va') + 4 * ptx va' ≢ place =
                λ z. apart (omega arith) in
              rw (e, there, update_else k.mem place _ w far) refl
        ]
      ])
