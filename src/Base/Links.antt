-- ===== src/Base/Links.antt =====
-- Doubly linked paths through memory, and what one write leaves of them.
use mathlib.Core.Path.{subst}
use waka_b4_research.Base.{
  ℕ, ◌≡◌, ◌≢◌, sym, List, [], ◌∷◌, ◌++◌, arith, update, NotIn, NotIn-left, NotIn-right, Distinct,
}

-- From `a`, `next` leads through `xs` to `b`, and `prev` leads back.
abbrev pub Links : (next prev : ℕ → ℕ) → ℕ → List ℕ → ℕ → Type 0
Links next prev a [] b = (next a ≡ b) × (prev b ≡ a)
Links next prev a (x ∷ xs) b = (next a ≡ x) × (prev x ≡ a) × Links next prev x xs b

module _ (next prev : ℕ → ℕ) (b : ℕ) where
  pub Links-update_next :
      (a : ℕ) (xs : List ℕ) (k v : ℕ)
      → NotIn k (a ∷ xs)
      → Links next prev a xs b
      → Links (update next k v) prev a xs b
  Links-update_next a [] k v n l = ground arith
  Links-update_next a (x ∷ xs) k v n l = (ground arith, l.1, Links-update_next x xs k v n.1 l.2)

  pub Links-update_prev :
      (a : ℕ) (xs : List ℕ) (k v : ℕ)
      → NotIn k xs
      → k ≢ b
      → Links next prev a xs b
      → Links next (update prev k v) a xs b
  Links-update_prev a [] k v n m l = ground arith
  Links-update_prev a (x ∷ xs) k v n m l = (l.0, ground arith, Links-update_prev x xs k v n.1 m l.2)

  -- The end's `prev` is on the path.
  pub prev-ne_of_NotIn :
      (a : ℕ) (xs : List ℕ) (k : ℕ) → NotIn k (a ∷ xs) → Links next prev a xs b → k ≢ prev b
  prev-ne_of_NotIn a [] k n l = ground arith
  prev-ne_of_NotIn a (x ∷ xs) k n l = prev-ne_of_NotIn x xs k n.1 l.2

  -- The writes of `enqueue` put `p` at the end of the path.
  pub Links-snoc :
      (a : ℕ) (xs : List ℕ) (p : ℕ)
      → Distinct (a ∷ xs)
      → NotIn b xs
      → NotIn p (a ∷ xs)
      → p ≢ b
      → Links next prev a xs b
      → Links
          (update (update next p b) (prev b) p)
          (update (update prev p (prev b)) b p)
          a
          (xs ++ p ∷ [])
          b
  Links-snoc a [] p d nb np pb l = ground arith
  Links-snoc a (x ∷ xs) p d nb np pb l = (
    ground (arith, prev-ne_of_NotIn x xs a d.0 l.2),
    ground arith,
    Links-snoc x xs p d.1 nb.1 np.1 pb l.2,
  )

-- The first link of a path is none of what is not on it.
pub next-ne_of_NotIn :
    (next prev : ℕ → ℕ) (b e : ℕ) (xs : List ℕ) (k : ℕ)
    → NotIn k xs
    → k ≢ e
    → Links next prev b xs e
    → k ≢ next b
next-ne_of_NotIn next prev b e [] k n m l = ground arith
next-ne_of_NotIn next prev b e (x ∷ xs) k n m l = ground arith

-- A path through `b` is a path to it and a path from it.
pub Links-split :
    (next prev : ℕ → ℕ) (a b e : ℕ) (ys zs : List ℕ)
    → Links next prev a (ys ++ b ∷ zs) e
    → Links next prev a ys b × Links next prev b zs e
Links-split next prev a b e [] zs l = ((l.0, l.1), l.2)
Links-split next prev a b e (y ∷ ys) zs l =
    let (to_b, from_b) = Links-split next prev y b e ys zs l.2 in ((l.0, l.1, to_b), from_b)

-- The two writes that take `b` off a path.
pub Links-unlink :
    (next prev : ℕ → ℕ) (a b e : ℕ) (ys zs : List ℕ)
    → Distinct (ys ++ zs)
    → NotIn a (ys ++ zs)
    → NotIn e (ys ++ zs)
    → Links next prev a ys b
    → Links next prev b zs e
    → Links (update next (prev b) (next b)) (update prev (next b) (prev b)) a (ys ++ zs) e
Links-unlink next prev a b e [] [] d na ne l k = ground arith
Links-unlink next prev a b e [] (z ∷ zs) d na ne l k =
    let at_a : prev b ≡ a = l.1 in
    let at_z : next b ≡ z = k.0 in
    (
      ground (arith, at_a, at_z),
      ground (arith, at_a, at_z),
      Links-update_next next (update prev (next b) (prev b)) e z zs (prev b) (next b)
          (subst (λ c. NotIn c (z ∷ zs)) (sym at_a) na)
          (Links-update_prev next prev e z zs (next b) (prev b)
            (subst (λ c. NotIn c zs) (sym at_z) d.0)
            (subst (λ c. c ≢ e) (sym at_z) (λ h. ne.0 (sym h))) k.2),
    )
Links-unlink next prev a b e (y ∷ ys) zs d na ne l k = (
  ground (arith, prev-ne_of_NotIn next prev b y ys a (NotIn-left a (y ∷ ys) zs na) l.2, l.0),
  ground (
    arith,
    next-ne_of_NotIn next prev b e zs y (NotIn-right y ys zs d.0) (λ h. ne.0 (sym h)) k,
    l.1,
  ),
  Links-unlink next prev y b e ys zs d.1 d.0 ne.1 l.2 k,
)

-- The four writes that put `b` behind the head `a` of a path.
pub Links-push :
    (next prev : ℕ → ℕ) (a b e : ℕ) (xs : List ℕ)
    → Distinct xs
    → NotIn a xs
    → NotIn e xs
    → NotIn b xs
    → b ≢ a
    → b ≢ e
    → Links next prev a xs e
    → Links (update (update next b (next a)) a b) (update (update prev b a) (next a) b) a (b ∷ xs) e
Links-push next prev a b e [] d na ne nb ba be l =
    (ground arith, ground arith, (ground arith, ground arith))
Links-push next prev a b e (x ∷ xs) d na ne nb ba be l =
    let at_x : next a ≡ x = l.0 in
    (
      ground arith,
      ground (arith, at_x),
      (
        ground (arith, at_x),
        ground (arith, at_x),
        Links-update_next (update next b (next a)) (update (update prev b a) (next a) b) e x xs a b
            na
            (Links-update_next next (update (update prev b a) (next a) b) e x xs b (next a) nb (
              Links-update_prev next (update prev b a) e x xs (next a) b
                (subst (λ c. NotIn c xs) (sym at_x) d.0)
                (subst (λ c. c ≢ e) (sym at_x) (λ h. ne.0 (sym h)))
                (Links-update_prev next prev e x xs b a nb.1 be l.2))),
      ),
    )
