-- ===== src/Base/Maps.antt =====
-- Memory as a function of the address or index: one write, and membership in a list of numbers.
use Prim.Native.Nat.{ℕ}
use mathlib.Core.Path.{◌≡◌, refl, sym, fun_ext}
use mathlib.Core.Logic.{◌≢◌}
use mathlib.Core.Bool.{Bool, true, false, ◌&&◌, not, ◌||◌}
use mathlib.Core.List.{List, [], ◌∷◌, ◌++◌}
use native.Mathlib.Omega.{arith}
use waka_b4_research.Base.Tests.{◌==◌, if◌then◌else◌}

abbrev pub update {ℓ} : {A : Type ℓ} → (ℕ → A) → ℕ → A → ℕ → A
update f i a j = if j == i then a else f j

-- `a` is none of the list; no two of the list are equal.
abbrev pub NotIn : ℕ → List ℕ → Type 0
NotIn a [] = Unit
NotIn a (x ∷ xs) = (a ≢ x) × NotIn a xs

abbrev pub Distinct : List ℕ → Type 0
Distinct [] = Unit
Distinct (x ∷ xs) = NotIn x xs × Distinct xs

abbrev pub has : ℕ → List ℕ → Bool
has a [] = false
has a (x ∷ xs) = (a == x) || has a xs

pub NotIn-of_has : (a : ℕ) (xs : List ℕ) → has a xs ≡ false → NotIn a xs
NotIn-of_has a [] h = tt
NotIn-of_has a (x ∷ xs) h = (ground arith, NotIn-of_has a xs (ground arith))

pub NotIn-append : (a : ℕ) (xs ys : List ℕ) → NotIn a xs → NotIn a ys → NotIn a (xs ++ ys)
NotIn-append a [] ys h k = k
NotIn-append a (x ∷ xs) ys h k = (h.0, NotIn-append a xs ys h.1 k)

pub NotIn-left : (a : ℕ) (xs ys : List ℕ) → NotIn a (xs ++ ys) → NotIn a xs
NotIn-left a [] ys h = tt
NotIn-left a (x ∷ xs) ys h = (h.0, NotIn-left a xs ys h.1)

pub NotIn-right : (a : ℕ) (xs ys : List ℕ) → NotIn a (xs ++ ys) → NotIn a ys
NotIn-right a [] ys h = h
NotIn-right a (x ∷ xs) ys h = NotIn-right a xs ys h.1

-- A list without one of its members.
pub NotIn-without :
    (a b : ℕ) (ys zs : List ℕ) → NotIn a (ys ++ b ∷ zs) → NotIn a (ys ++ zs) × (a ≢ b)
NotIn-without a b [] zs h = (h.1, h.0)
NotIn-without a b (y ∷ ys) zs h =
    let (rest, other) = NotIn-without a b ys zs h.1 in ((h.0, rest), other)

pub Distinct-without :
    (b : ℕ) (ys zs : List ℕ) → Distinct (ys ++ b ∷ zs) → Distinct (ys ++ zs) × NotIn b (ys ++ zs)
Distinct-without b [] zs h = (h.1, h.0)
Distinct-without b (y ∷ ys) zs h =
    let (rest, other) = Distinct-without b ys zs h.1 in
    let (apart, y_ne) = NotIn-without y b ys zs h.0 in ((apart, rest), (λ e. y_ne (sym e), other))

pub has-middle : (a b : ℕ) (ys zs : List ℕ) → has a (b ∷ ys ++ zs) ≡ has a (ys ++ b ∷ zs)
has-middle a b [] zs = refl
has-middle a b (y ∷ ys) zs = ground (arith, has-middle a b ys zs)

pub Distinct-append_one : (xs : List ℕ) (a : ℕ) → Distinct xs → NotIn a xs → Distinct (xs ++ a ∷ [])
Distinct-append_one [] a d n = (tt, tt)
Distinct-append_one (x ∷ xs) a d n =
    (NotIn-append x xs (a ∷ []) d.0 (ground arith, tt), Distinct-append_one xs a d.1 n.1)

pub update_self {ℓ} : {A : Type ℓ} (f : ℕ → A) (i : ℕ) (a : A) → update f i a i ≡ a
update_self f i a = ground arith

pub update_else {ℓ} : {A : Type ℓ} (f : ℕ → A) (i j : ℕ) (a : A) → j ≢ i → update f i a j ≡ f j
update_else f i j a h = ground arith

pub update_again {ℓ} :
    {A : Type ℓ} (f : ℕ → A) (i : ℕ) (a b : A) → update (update f i a) i b ≡ update f i b
update_again f i a b = fun_ext λ j. ground arith

abbrev pub are_distinct : List ℕ → Bool
are_distinct [] = true
are_distinct (x ∷ xs) = not (has x xs) && are_distinct xs

pub Distinct-of_test : (xs : List ℕ) → are_distinct xs ≡ true → Distinct xs
Distinct-of_test [] h = tt
Distinct-of_test (x ∷ xs) h = (NotIn-of_has x xs (ground arith), Distinct-of_test xs (ground arith))
