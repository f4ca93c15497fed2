-- ===== src/Vm/Flags.antt =====
-- The entries that mappages of src/vm.c makes, `pa | perm | PTE_P`, digit by digit.
use Prim.Native.Nat.{bit_or, max, digits, bit_or-bitwise}
use waka_b4_research.Base.{
  ℕ, zero, suc, ◌+◌, ◌*◌, ◌-◌, ◌/◌, ◌%◌, ◌^◌, ◌<◌, ◌≤◌, ◌≡◌, ◌⊎◌, inl, inr, refl, ◌∙◌, arith, true,
  false, List, ◌==◌, if◌then◌else◌, Bool-cases, Outcome, ok, panic, spins, minus_one,
}
use waka_b4_research.Kmem.{Kmem, Site}
use waka_b4_research.Vm.{page_entry, round_down, mappages}
use waka_b4_research.Vm.Tables.{entry_of, IsTables}
use waka_b4_research.Vm.Mapped.{frame_of, in_range, MapEnds, mappages_lem}

-- The binary digit `j` of a number.
abbrev pub digit : ℕ → ℕ → ℕ
digit zero x = x % 2
digit (suc j) x = digit j (x / 2)

digit_zero : (j : ℕ) → digit j 0 ≡ 0
digit_zero zero = refl
digit_zero (suc j) = digit_zero j

digit_one : (j : ℕ) → digit (suc j) 1 ≡ 0
digit_one j = digit_zero j

digit_bit : (j x : ℕ) → (if digit j x == 1 then 1 else 0) ≡ digit j x
digit_bit zero x = ground arith
digit_bit (suc j) x = digit_bit j (x / 2)

max_digit : (x y : ℕ) → x < 2 → y < 2 → max x y ≡ (if x == 1 then 1 else y)
max_digit zero zero hx hy = refl
max_digit zero (suc zero) hx hy = refl
max_digit zero (suc (suc y)) hx hy = absurd (omega arith)
max_digit (suc zero) zero hx hy = refl
max_digit (suc zero) (suc zero) hx hy = refl
max_digit (suc zero) (suc (suc y)) hx hy = absurd (omega arith)
max_digit (suc (suc x)) y hx hy = absurd (omega arith)

digit-digits :
    (n a b j : ℕ)
    → a ≤ n
    → digit j (digits (λ b. b) max n a b) ≡ (if digit j a == 1 then 1 else digit j b)
digit-digits zero zero b j le = rw (digit_zero j) refl
digit-digits zero (suc a) b j le = absurd (omega arith)
digit-digits (suc n) zero b j le = rw (digit_zero j) refl
digit-digits (suc n) (suc a) b zero le =
    let low = max_digit (suc a % 2) (b % 2) (omega arith) (omega arith) in ground (arith, low)
digit-digits (suc n) (suc a) b (suc j) le =
    let low = max_digit (suc a % 2) (b % 2) (omega arith) (omega arith) in
    let later = digit-digits n (suc a / 2) (b / 2) j (omega arith) in
    let half : (digits (λ b. b) max n (suc a / 2) (b / 2) * 2 + max (suc a % 2) (b % 2)) / 2
        ≡ digits (λ b. b) max n (suc a / 2) (b / 2) =
      elim (Bool-cases (suc a % 2 == 1)) [
        | inl e ↦ ground (arith, low, e)
        | inr e ↦ ground (arith, low, e)
      ] in
    rw half later

digit-or : (a b j : ℕ) → digit j (bit_or a b) ≡ (if digit j a == 1 then 1 else digit j b)
digit-or a b j = rw (bit_or-bitwise a b) (digit-digits a a b j (omega arith))

-- Entry `e` leads to the frame with the permissions, and is present.
abbrev pub IsEntry : (frame perm e : ℕ) → Type 0
IsEntry frame perm e =
    (digit 0 e ≡ 1)
    × ((j : ℕ) → digit (suc j) e ≡ (if digit (suc j) frame == 1 then 1 else digit (suc j) perm))

page_entry-IsEntry : (frame perm : ℕ) → IsEntry frame perm (page_entry frame perm)
page_entry-IsEntry frame perm = (
  digit-or (bit_or frame perm) 1 0 ∙ ground arith,
  λ j.
      let upper = digit-or (bit_or frame perm) 1 (suc j) in
      upper
      ∙ rw (digit_one j) (digit_bit (suc j) (bit_or frame perm))
      ∙ digit-or frame perm (suc j),
)

module _ (m : Site) (pgdir perm : ℕ) where
  -- How the mapping of the pages from that of `a` to that of `last` ends.
  abbrev pub FlagEnds : (a last pa : ℕ) → Kmem → Outcome (ℕ × Kmem) → Type 0
  FlagEnds a last pa k (ok (r, k')) =
      ((r ≡ 0)
        × ((xs : List ℕ) × IsTables pgdir k' xs)
        × ((va : ℕ)
            → va < 2 ^ 32
            → in_range m pgdir perm a last va ≡ true
            → IsEntry (frame_of m pgdir perm a pa va) perm (entry_of pgdir k'.mem va))
        × ((va : ℕ)
            → va < 2 ^ 32
            → in_range m pgdir perm a last va ≡ false
            → entry_of pgdir k'.mem va ≡ entry_of pgdir k.mem va))
      ⊎ ((r ≡ minus_one)
          × ((va : ℕ)
              → va < 2 ^ 32
              → in_range m pgdir perm a last va ≡ false
              → entry_of pgdir k'.mem va ≡ entry_of pgdir k.mem va))
  FlagEnds a last pa k (panic _) =
      (va : ℕ) × (va < 2 ^ 32)
      × (in_range m pgdir perm a last va ≡ true)
      × (digit 0 (entry_of pgdir k.mem va) ≡ 1)
  FlagEnds a last pa k spins = ⊥

  MapEnds-FlagEnds :
      (a last pa : ℕ) (k : Kmem) (r : Outcome (ℕ × Kmem))
      → MapEnds m pgdir perm a last pa k r
      → FlagEnds a last pa k r
  MapEnds-FlagEnds a last pa k (ok (r, k')) (inl (e, t, all)) = inl (
    e,
    t,
    λ va below h.
        let here = all va below in
        let entry : entry_of pgdir k'.mem va ≡ page_entry (frame_of m pgdir perm a pa va) perm =
          here ∙ rw h refl in
        rw entry (page_entry-IsEntry (frame_of m pgdir perm a pa va) perm),
    λ va below h. all va below ∙ rw h refl,
  )
  MapEnds-FlagEnds a last pa k (ok (r, k')) (inr (e, others)) = inr (e, others)
  MapEnds-FlagEnds a last pa k (panic _) (va, below, h, there) = (va, below, h, ground arith)
  MapEnds-FlagEnds a last pa k spins h = h

  -- `mappages` of a range that is not empty and does not wrap, in a directory whose tables are pages,
  -- no two the same and none free, panics only if a page of the range already has a present entry. It
  -- returns 0 or -1. With 0, each page of the range has an entry whose lowest binary digit, the flag
  -- for present, is 1 and whose other digits are 1 just where its frame or the permissions have a 1;
  -- every other address has the entry that it had, and the tables are still pages of their own. With
  -- -1, every address outside the range has the entry that it had.
  pub mappages-IsEntry :
      (va size pa : ℕ) (k : Kmem) (xs : List ℕ)
      → 0 < size
      → va + size ≤ 2 ^ 32
      → pa < 2 ^ 32
      → IsTables pgdir k xs
      → FlagEnds
          (round_down va)
          (round_down (va + size - 1))
          pa
          k
          (mappages m pgdir va size pa perm k)
  mappages-IsEntry va size pa k xs pos fits word t =
      MapEnds-FlagEnds (round_down va) (round_down (va + size - 1)) pa k
        (mappages m pgdir va size pa perm k)
        (mappages_lem m pgdir perm va size pa k xs pos fits word t)
