-- ===== src/Base/Find.antt =====
-- The loop over an array that stops at the first element which passes a test.
use Prim.Native.Nat.{ℕ, zero, suc, ◌<◌}
use mathlib.Core.Path.{◌≡◌, refl}
use mathlib.Core.Logic.{◌⊎◌, inl, inr}
use mathlib.Core.Bool.{Bool, true, false}
use mathlib.Core.Option.{Option, none, some}
use mathlib.Core.List.{List, [], ◌∷◌}
use native.Mathlib.Omega.{arith}
use waka_b4_research.Base.Tests.{if◌then◌else◌}
use waka_b4_research.Base.Lists.{get_elem?, set, lt-length_of_some}

abbrev pub shift : Option ℕ → Option ℕ
shift none = none
shift (some i) = some (suc i)

module _ {A : Type 0} (test : A → Bool) where
  unfoldable pub find_index : List A → Option ℕ
  find_index [] = none
  find_index (x ∷ xs) = let later = find_index xs in if test x then some 0 else shift later

  -- Element `i` is `x`, and the first that passes.
  pub record IsFirst (xs : List A) (i : ℕ) (x : A) : Type 0 where
    pub at : get_elem? xs i ≡ some x
    pub passes : test x ≡ true
    pub earlier : (j : ℕ) (y : A) → j < i → get_elem? xs j ≡ some y → test y ≡ false

  -- No element passes.
  abbrev pub NonePass : List A → Type 0
  NonePass xs = (j : ℕ) (y : A) → get_elem? xs j ≡ some y → test y ≡ false

  pub find_index-none : (xs : List A) → find_index xs ≡ none → NonePass xs
  unfolding find_index
  find_index-none [] e j y h = cc
  find_index-none (x ∷ xs) e zero y h = ground arith
  find_index-none (x ∷ xs) e (suc j) y h = find_index-none xs (ground arith) j y h

  pub find_index-some : (xs : List A) (i : ℕ) → find_index xs ≡ some i → (x : A) × IsFirst xs i x
  unfolding find_index
  find_index-some [] i e = cc
  find_index-some (x ∷ xs) zero e =
      (x, record { at = refl; passes = ground arith; earlier = λ j y lt h. absurd (omega arith) })
  find_index-some (x ∷ xs) (suc i) e =
      let (y, f) = find_index-some xs i (ground arith) in
      (y, record { at = f.at; passes = f.passes; earlier = before f })
    where
      miss : test x ≡ false
      miss = ground arith

      before :
          {z : A}
          → IsFirst xs i z
          → (j : ℕ) (y : A) → j < suc i
          → get_elem? (x ∷ xs) j ≡ some y
          → test y ≡ false
      before f zero y lt h = ground arith
      before f (suc j) y lt h = f.earlier j y (omega arith) h

  -- The two ways in which the loop ends.
  pub find_index-cases :
      (xs : List A)
      → ((find_index xs ≡ none) × NonePass xs)
        ⊎ ((i : ℕ) × (x : A) × (find_index xs ≡ some i) × IsFirst xs i x)
  find_index-cases xs = split (find_index xs) refl
    where
      split :
          (o : Option ℕ)
          → find_index xs ≡ o
          → ((find_index xs ≡ none) × NonePass xs)
            ⊎ ((i : ℕ) × (x : A) × (find_index xs ≡ some i) × IsFirst xs i x)
      split none e = inl (e, find_index-none xs e)
      split (some i) e = let (x, f) = find_index-some xs i e in inr (i, x, e, f)

module _ {A : Type 0} (test : A → Bool) where
  -- A first element that is replaced by another one that passes stays the first.
  pub find_index-set :
      (xs : List A) (i : ℕ) (x y : A)
      → find_index test xs ≡ some i
      → test y ≡ true
      → find_index test (set xs i y) ≡ some i
  unfolding find_index
  find_index-set [] i x y e h = cc
  find_index-set (z ∷ xs) zero x y e h = ground arith
  find_index-set (z ∷ xs) (suc i) x y e h = ground (arith, find_index-set xs i x y)

  pub find_index-IsFirst :
      (xs : List A) (i : ℕ) (x : A) → IsFirst test xs i x → find_index test xs ≡ some i
  unfolding find_index
  find_index-IsFirst [] i x f = absurd (omega (arith, lt-length_of_some [] i x f.at))
  find_index-IsFirst (z ∷ xs) zero x f =
      let hit : test z ≡ true = ground (arith, f.at, f.passes) in rw hit
  find_index-IsFirst (z ∷ xs) (suc i) x f =
      let miss : test z ≡ false = f.earlier 0 z (omega arith) refl in
      let later : find_index test xs ≡ some i = find_index-IsFirst xs i x (record {
        at = f.at;
        passes = f.passes;
        earlier = λ j y lt h. f.earlier (suc j) y (omega arith) h;
      }) in
      rw (miss, later)

  pub NonePass-cons :
      (x : A) (xs : List A) → test x ≡ false → NonePass test xs → NonePass test (x ∷ xs)
  NonePass-cons x xs h n zero y e = ground arith
  NonePass-cons x xs h n (suc j) y e = n j y e

-- Element `i` is `x`, and the first that has the property `P`.
pub record IsFirstThat {A : Type 0} (P : A → Type 0) (xs : List A) (i : ℕ) (x : A) : Type 0 where
  pub at : get_elem? xs i ≡ some x
  pub has : P x
  pub earlier : (j : ℕ) (y : A) → j < i → get_elem? xs j ≡ some y → ¬ P y

-- No element has the property `P`.
abbrev pub NoneHave : {A : Type 0} → (A → Type 0) → List A → Type 0
NoneHave P xs = (j : ℕ) (y : _) → get_elem? xs j ≡ some y → ¬ P y

-- A test that decides the property `P` finds the first element that has it.
module _ {A : Type 0} (P : A → Type 0) (test : A → Bool) (yes : (x : A) → test x ≡ true → P x)
    (no : (x : A) → test x ≡ false → ¬ P x) where
  pub IsFirst-IsFirstThat :
      {xs : List A} {i : ℕ} {x : A} → IsFirst test xs i x → IsFirstThat P xs i x
  IsFirst-IsFirstThat f = record {
    at = f.at;
    has = yes _ f.passes;
    earlier = λ j y lt h. no y (f.earlier j y lt h);
  }

  pub NonePass-NoneHave : (xs : List A) → NonePass test xs → NoneHave P xs
  NonePass-NoneHave xs n j y h = no y (n j y h)
