-- ===== src/Kmem/Range.antt =====
-- `freerange` of src/kalloc.c: every whole page of the range is freed, and the loop ends.
use waka_b4_research.Base.{
  ℕ, zero, suc, ◌+◌, ◌-◌, ◌*◌, ◌/◌, ◌%◌, ◌≤◌, ◌<◌, ◌≡◌, ◌⊎◌, inl, inr, true, false, List, [], ◌∷◌,
  arith, leb, Returns, Returns-and_then, Returns-map, NotIn,
}
use waka_b4_research.Kmem.{
  Kmem, Site, page_size, phys_stop, kern_base, page_round_up, is_bad_page, kfree, free_from,
  freerange,
}
use waka_b4_research.Kmem.FreeList.{IsFree, kfree_lem}

-- The list after the pages `p`, `p + page_size` and so on, `n` of them, are put in front of `xs`,
-- one after the other.
abbrev pub pages_onto : ℕ → ℕ → List ℕ → List ℕ
pages_onto zero p xs = xs
pages_onto (suc n) p xs = pages_onto n (p + page_size) (p ∷ xs)

-- None of the pages lies between `p` and `q`.
abbrev pub NoneBetween : ℕ → ℕ → List ℕ → Type 0
NoneBetween p q [] = Unit
NoneBetween p q (x ∷ xs) = ((x < p) ⊎ (q ≤ x)) × NoneBetween p q xs

NotIn-between : (p q : ℕ) (xs : List ℕ) → p < q → NoneBetween p q xs → NotIn p xs
NotIn-between p q [] lt h = tt
NotIn-between p q (x ∷ xs) lt h = (omega arith, NotIn-between p q xs lt h.1)

NoneBetween-later : (p p' q : ℕ) (xs : List ℕ) → p ≤ p' → NoneBetween p q xs → NoneBetween p' q xs
NoneBetween-later p p' q [] le h = tt
NoneBetween-later p p' q (x ∷ xs) le h = (omega arith, NoneBetween-later p p' q xs le h.1)

-- The range lies above the kernel's image and below the end of physical memory.
pub record IsRange (m : Site) (p vend : ℕ) : Type 0 where
  pub aligned : p % page_size ≡ 0
  pub above : m.kernel_end ≤ p
  pub in_kernel : kern_base ≤ p
  pub below : vend ≤ kern_base + phys_stop

good_page :
    (m : Site) (p vend : ℕ) → IsRange m p vend → p + page_size ≤ vend → is_bad_page m p ≡ false
good_page m p vend v h = ground arith

kfree-range :
    (m : Site) (p vend : ℕ) (xs : List ℕ) (k : Kmem)
    → IsRange m p vend
    → p + page_size ≤ vend
    → NoneBetween p vend xs
    → IsFree k xs
    → Returns (λ _ k'. IsFree k' (p ∷ xs)) (kfree m p k)
kfree-range m p vend xs k v fits none' f =
    elim (kfree_lem m k xs p f (NotIn-between p vend xs (omega arith) none')) [
      | inl bad ↦
          let good : is_bad_page m p ≡ false = good_page m p vend v fits in let bad' = bad.0 in cc
      | inr good ↦ Returns-map _ _ (kfree m p k) good.1 (λ _ k' h. h.0)
    ]

IsRange-next : (m : Site) (p vend : ℕ) → IsRange m p vend → IsRange m (p + page_size) vend
IsRange-next m p vend v = record {
  aligned = omega (arith, v.aligned);
  above = omega (arith, v.above);
  in_kernel = omega (arith, v.in_kernel);
  below = v.below;
}

free_from_lem :
    (m : Site) (n fuel p vend : ℕ) (xs : List ℕ) (k : Kmem)
    → IsRange m p vend
    → n < fuel
    → p + n * page_size ≤ vend
    → vend < p + (n + 1) * page_size
    → NoneBetween p vend xs
    → IsFree k xs
    → Returns (λ _ k'. IsFree k' (pages_onto n p xs)) (free_from m fuel p vend k)
unfolding free_from
free_from_lem m n zero p vend xs k v lt a b none' f = elim lt [ ]
free_from_lem m zero (suc fuel) p vend xs k v lt a b none' f =
    let done : leb (p + page_size) vend ≡ false = ground (arith, b) in rw done f
free_from_lem m (suc n) (suc fuel) p vend xs k v lt a b none' f =
    let more : leb (p + page_size) vend ≡ true = ground (arith, a) in
    rw more (
      Returns-and_then (λ _ k'. IsFree k' (p ∷ xs)) (λ _ k'. IsFree k' (pages_onto (suc n) p xs))
        (kfree m p k) (λ _. free_from m fuel (p + page_size) vend)
        (kfree-range m p vend xs k v (omega arith) none' f)
        (λ _ k' f'.
          free_from_lem m n fuel (p + page_size) vend (p ∷ xs) k' (IsRange-next m p vend v)
            (omega arith) (omega arith) (omega arith)
            (inl (omega arith), NoneBetween-later p (p + page_size) vend xs (omega arith) none')
            f'))

-- Where the range lies above the kernel's image and below the end of physical memory and none of
-- the free pages is in it, `freerange` returns, and frees every whole page between the rounded start
-- and the end, and no other; a page that is freed later stands before the others.
pub freerange_lem :
    (m : Site) (vstart vend : ℕ) (xs : List ℕ) (k : Kmem)
    → IsRange m (page_round_up vstart) vend
    → page_round_up vstart ≤ vend
    → NoneBetween (page_round_up vstart) vend xs
    → IsFree k xs
    → Returns
        (λ _ k'.
          IsFree k'
            (pages_onto ((vend - page_round_up vstart) / page_size) (page_round_up vstart) xs))
        (freerange m vstart vend k)
unfolding freerange
freerange_lem m vstart vend xs k v le none' f =
    free_from_lem m ((vend - page_round_up vstart) / page_size) (vend / page_size + 1)
      (page_round_up vstart) vend xs k v (omega arith) (omega arith) (omega arith) none' f
