-- ===== src/Vm/Walk.antt =====
-- walkpgdir and mappages of src/vm.c on the entries of a page directory.
use waka_b4_research.Base.{
  ℕ, ◌+◌, ◌*◌, ◌<◌, ◌≡◌, ◌≢◌, ◌⊎◌, inl, inr, refl, sym, ap, arith, true, false, List, [], ◌∷◌, ◌==◌,
  Bool-cases, Outcome, ok, panic, spins, M, Returns, and_then,
}
use waka_b4_research.Kmem.{Kmem, Site, kalloc}
use waka_b4_research.Kmem.FreeList.{Taken, kalloc_lem}
use waka_b4_research.Vm.{pdx, ptx, add_table, walkpgdir}
use waka_b4_research.Vm.Tables.{table_at, has_table, entry_of, IsTables}
use waka_b4_research.Vm.Extended.{extended-IsTables, entry_of-extended, extended-has_table}

-- A call that returns, with what is made of its result.
pub returns-then :
    {S A B : Type 0} (P : A → S → Type 0) (Q : Outcome (B × S) → Type 0) (r : Outcome (A × S))
    (f : A → M S B)
    → Returns P r
    → ((a : A) (s : S) → P a s → Q (f a s))
    → Q (and_then r f)
returns-then P Q (ok (a, s)) f h step = step a s h
returns-then P Q (panic _) f h step = absurd h
returns-then P Q spins f h step = absurd h

module _ (m : Site) (pgdir : ℕ) where
  -- The address of the entry, every address having the entry that it had; or null, with nothing changed.
  abbrev pub WalkEnds : ℕ → Kmem → List ℕ → ℕ → Kmem → Type 0
  WalkEnds va k xs pte k' =
      ((pte ≡ 0) × (xs ≡ []) × (k'.mem ≡ k.mem))
      ⊎ ((xs' : List ℕ) × IsTables pgdir k' xs'
          × (has_table pgdir k'.mem (pdx va) ≡ true)
          × (pte ≡ table_at pgdir k'.mem (pdx va) + 4 * ptx va)
          × (pte ≢ 0)
          × ((va' : ℕ) → entry_of pgdir k'.mem va' ≡ entry_of pgdir k.mem va'))

  there_WalkEnds :
      (va : ℕ) (k k' : Kmem) (xs xs' : List ℕ)
      → IsTables pgdir k' xs'
      → has_table pgdir k'.mem (pdx va) ≡ true
      → ((va' : ℕ) → entry_of pgdir k'.mem va' ≡ entry_of pgdir k.mem va')
      → WalkEnds va k xs (table_at pgdir k'.mem (pdx va) + 4 * ptx va) k'
  there_WalkEnds va k k' xs xs' t there same =
      inr (xs', t, there, refl, λ z. (t.tables (pdx va) (omega arith) there).0 (omega arith), same)

  Taken-WalkEnds :
      (va : ℕ) (k : Kmem) (xs : List ℕ) (r : ℕ) (k' : Kmem)
      → IsTables pgdir k xs
      → has_table pgdir k.mem (pdx va) ≡ false
      → Taken xs r k'
      → k'.mem ≡ k.mem
      → Returns (WalkEnds va k xs) (add_table m (pgdir + 4 * pdx va) r va k')
  Taken-WalkEnds va k [] r k' t absent (e, free) same = rw e (inl (refl, refl, same))
  Taken-WalkEnds va k (x ∷ xs) r k' t absent (e, free) same =
      let pos = t.free.chain.1 in
      let some_page : (x == 0) ≡ false = ground (arith, pos) in
      let small : pdx va < 1024 = omega arith in
      let (there, at) = extended-has_table pgdir k x xs t pos k' free same (pdx va) small absent in
      rw (e, some_page)
        (inr (
          xs,
          extended-IsTables pgdir k x xs t pos k' free same (pdx va) small absent,
          there,
          ap (λ (y : ℕ). y + 4 * ptx va) (sym at),
          λ z. pos (omega arith),
          entry_of-extended pgdir k x xs t pos k' free same (pdx va) small absent,
        ))

  pub walkpgdir_lem :
      (va : ℕ) (k : Kmem) (xs : List ℕ)
      → IsTables pgdir k xs
      → Returns (WalkEnds va k xs) (walkpgdir m pgdir va true k)
  unfolding walkpgdir
  walkpgdir_lem va k xs t = elim (Bool-cases (has_table pgdir k.mem (pdx va))) [
    | inl e ↦ rw e (there_WalkEnds va k k xs xs t e (λ va'. refl))
    | inr e ↦ rw e (
        returns-then (λ r k'. Taken xs r k' × (k'.mem ≡ k.mem) × (k'.use_lock ≡ k.use_lock))
          (Returns (WalkEnds va k xs)) (kalloc m k) (λ r. add_table m (pgdir + 4 * pdx va) r va)
          (kalloc_lem m k xs t.free)
          (λ r k' (taken, same, _). Taken-WalkEnds va k xs r k' t e taken same))
  ]
