-- ===== src/Base/Run.antt =====
-- What a kernel function does when it is called: it returns, it calls `panic` with a message, or it
-- spins for ever on a lock word that this processor alone cannot change. `M S A` is a function on
-- the state `S` that returns an `A`.
use Prim.Native.String.{String}
use mathlib.Core.Path.{◌≡◌, refl}

pub data Outcome {ℓ} (A : Type ℓ) : Type ℓ where
  ok : A → Outcome A
  panic : String → Outcome A
  spins : Outcome A

-- The rest of a call, run on what a first part returned.
abbrev pub on_ok {ℓ κ} : {A : Type ℓ} {B : Type κ} → Outcome A → (A → Outcome B) → Outcome B
on_ok (ok a) k = k a
on_ok (panic m) k = panic m
on_ok spins k = spins

pub on_ok-on_ok {ℓ κ μ} :
    {A : Type ℓ} {B : Type κ} {C : Type μ} (r : Outcome A) (f : A → Outcome B) (g : B → Outcome C)
    → on_ok (on_ok r f) g ≡ on_ok r (λ x. on_ok (f x) g)
on_ok-on_ok (ok x) f g = refl
on_ok-on_ok (panic _) f g = refl
on_ok-on_ok spins f g = refl

abbrev pub M : Type 0 → Type 0 → Type 0
M S A = S → Outcome (A × S)

module _ {S : Type 0} where
  abbrev pub pure : {A : Type 0} → A → M S A
  pure a s = ok (a, s)

  abbrev pub fail : {A : Type 0} → String → M S A
  fail message s = panic message

  abbrev pub get : M S S
  get s = ok (s, s)

  abbrev pub modify : (S → S) → M S (Unit {0})
  modify f s = ok (tt, f s)

  abbrev pub and_then : {A B : Type 0} → Outcome (A × S) → (A → M S B) → Outcome (B × S)
  and_then (ok (a, s)) k = k a s
  and_then (panic m) k = panic m
  and_then spins k = spins

  infixl 5 ◌>>=◌ ◌>>◌
  abbrev pub ◌>>=◌ : {A B : Type 0} → M S A → (A → M S B) → M S B
  ◌>>=◌ m k s = and_then (m s) k

  abbrev pub ◌>>◌ : {B : Type 0} → M S (Unit {0}) → M S B → M S B
  m >> k = m >>= λ _. k

-- The call returns, and its result and the state that it leaves satisfy `P`.
abbrev pub Returns : {S A : Type 0} → (A → S → Type 0) → Outcome (A × S) → Type 0
Returns P (ok (a, s)) = P a s
Returns P (panic m) = ⊥
Returns P spins = ⊥

-- A run that returns with `P`, followed by one that returns with `Q` from each such state.
pub Returns-and_then :
    {S A B : Type 0} (P : A → S → Type 0) (Q : B → S → Type 0) (r : Outcome (A × S)) (k : A → M S B)
    → Returns P r
    → ((a : A) (s : S) → P a s → Returns Q (k a s))
    → Returns Q (and_then r k)
Returns-and_then P Q (ok (a, s)) k h step = step a s h
Returns-and_then P Q (panic _) k h step = absurd h
Returns-and_then P Q spins k h step = absurd h

pub Returns-map :
    {S A : Type 0} (P Q : A → S → Type 0) (r : Outcome (A × S))
    → Returns P r
    → ((a : A) (s : S) → P a s → Q a s)
    → Returns Q r
Returns-map P Q (ok (a, s)) h f = f a s h
Returns-map P Q (panic _) h f = absurd h
Returns-map P Q spins h f = absurd h
