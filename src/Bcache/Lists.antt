-- ===== src/Bcache/Lists.antt =====
-- The list of buffers of src/bio.c: the two searches, and the moves.
use waka_b4_research.Base.{
  ℕ, zero, suc, ◌+◌, ◌<◌, ◌≡◌, refl, sym, ap, ◌∙◌, ◌≢◌, Bool, true, false, Option, none, some, List,
  [], ◌∷◌, ◌++◌, arith, ◌==◌, if◌then◌else◌, length, NotIn, Distinct,
}
use waka_b4_research.Base.Links.{Links, Links-split, Links-unlink, Links-push}
use waka_b4_research.Bcache.{Cache, push_front, unlink, link_from, walk}

-- The first and the last of a list that pass a test.
unfoldable pub first_of : (ℕ → Bool) → List ℕ → Option ℕ
first_of test [] = none
first_of test (x ∷ xs) = if test x then some x else first_of test xs

abbrev pub or_else : Option ℕ → Option ℕ → Option ℕ
or_else (some y) z = some y
or_else none z = z

unfoldable pub last_of : (ℕ → Bool) → List ℕ → Option ℕ
last_of test [] = none
last_of test (x ∷ xs) = or_else (last_of test xs) (if test x then some x else none)

or_else_assoc : (a b c : Option ℕ) → or_else (or_else a b) c ≡ or_else a (or_else b c)
or_else_assoc (some y) b c = refl
or_else_assoc none b c = refl

or_else-none : (a : Option ℕ) → or_else a none ≡ a
or_else-none (some y) = refl
or_else-none none = refl

or_else-if :
    (b : Bool) (x : ℕ) (o : Option ℕ)
    → (if b then some x else o) ≡ or_else (if b then some x else none) o
or_else-if true x o = refl
or_else-if false x o = refl

module _ (next prev : ℕ → ℕ) (test : ℕ → Bool) where
  -- The search from the head on finds the first, and the search backwards the last.
  pub walk-next :
      (fuel a : ℕ) (xs : List ℕ)
      → length xs < fuel
      → NotIn 0 xs
      → Links next prev a xs 0
      → walk next test fuel (next a) ≡ first_of test xs
  unfolding walk first_of
  walk-next zero a xs lt n l = elim lt [ ]
  walk-next (suc fuel) a [] lt n l = let e : next a ≡ 0 = l.0 in rw e
  walk-next (suc fuel) a (x ∷ xs) lt n l =
      let e : next a ≡ x = l.0 in
      let some' : (x == 0) ≡ false = ground (arith, n.0) in
      rw (e, some', walk-next fuel x xs (omega arith) n.1 l.2)

  -- The walk backwards over `xs`, and on from `a` with the fuel that is left.
  walk-prev_from :
      (k a b : ℕ) (xs : List ℕ)
      → NotIn 0 xs
      → Links next prev a xs b
      → walk prev test (length xs + k) (prev b) ≡ or_else (last_of test xs) (walk prev test k a)
  unfolding walk last_of
  walk-prev_from k a b [] n l =
      let e : prev b ≡ a = l.1 in let same : 0 + k ≡ k = omega arith in rw (e, same)
  walk-prev_from k a b (x ∷ xs) n l =
      let fuel : suc (length xs) + k ≡ length xs + suc k = omega arith in
      let some' : (x == 0) ≡ false = ground (arith, n.0) in
      let e : prev x ≡ a = l.1 in
      ap (λ (f : ℕ). walk prev test f (prev b)) fuel
      ∙ walk-prev_from (suc k) x b xs n.1 l.2
      ∙ ap (or_else (last_of test xs)) (rw (some', e) (or_else-if (test x) x (walk prev test k a)))
      ∙ sym (or_else_assoc (last_of test xs) (if test x then some x else none) (walk prev test k a))

  pub walk-prev :
      (k b : ℕ) (xs : List ℕ)
      → NotIn 0 xs
      → Links next prev 0 xs b
      → walk prev test (length xs + suc k) (prev b) ≡ last_of test xs
  unfolding walk
  walk-prev k b xs n l = walk-prev_from (suc k) 0 b xs n l ∙ or_else-none (last_of test xs)

-- The buffers of the list, in order of their last use: the most recent first.
pub record IsList (c : Cache) (xs : List ℕ) : Type 0 where
  pub links : Links c.next c.prev 0 xs 0
  pub distinct : Distinct xs
  pub no_head : NotIn 0 xs

pub push_front-IsList :
    (b : ℕ) (c : Cache) (xs : List ℕ)
    → b ≢ 0
    → NotIn b xs
    → IsList c xs
    → IsList (push_front b c) (b ∷ xs)
unfolding push_front
push_front-IsList b c xs nz n v = record {
  links = Links-push c.next c.prev 0 b 0 xs v.distinct v.no_head v.no_head n nz nz v.links;
  distinct = (n, v.distinct);
  no_head = (λ h. nz (sym h), v.no_head);
}

pub unlink-IsList :
    (b : ℕ) (c : Cache) (ys zs : List ℕ)
    → Distinct (ys ++ zs)
    → NotIn 0 (ys ++ zs)
    → Links c.next c.prev 0 (ys ++ b ∷ zs) 0
    → IsList (unlink b c) (ys ++ zs)
unfolding unlink
unlink-IsList b c ys zs d n l =
    let (to_b, from_b) = Links-split c.next c.prev 0 b 0 ys zs l in
    record {
      links = Links-unlink c.next c.prev 0 b 0 ys zs d n n to_b from_b;
      distinct = d;
      no_head = n;
    }

-- The list after the buffers `b`, `b + 1` and so on, `n` of them, are put in front of `xs`.
abbrev pub counted_onto : ℕ → ℕ → List ℕ → List ℕ
counted_onto zero b xs = xs
counted_onto (suc n) b xs = counted_onto n (b + 1) (b ∷ xs)

-- Every number of the list is below `b`.
abbrev AllBelow : ℕ → List ℕ → Type 0
AllBelow b [] = Unit
AllBelow b (x ∷ xs) = (x < b) × AllBelow b xs

NotIn-below : (b : ℕ) (xs : List ℕ) → AllBelow b xs → NotIn b xs
NotIn-below b [] h = tt
NotIn-below b (x ∷ xs) h = (omega arith, NotIn-below b xs h.1)

AllBelow-next : (b : ℕ) (xs : List ℕ) → AllBelow b xs → AllBelow (b + 1) xs
AllBelow-next b [] h = tt
AllBelow-next b (x ∷ xs) h = (omega arith, AllBelow-next b xs h.1)

pub link_from-IsList :
    (n b : ℕ) (c : Cache) (xs : List ℕ)
    → 0 < b
    → AllBelow b xs
    → IsList c xs
    → IsList (link_from n b c) (counted_onto n b xs)
unfolding link_from
link_from-IsList zero b c xs pos below v = v
link_from-IsList (suc n) b c xs pos below v =
    link_from-IsList n (b + 1) (push_front b c) (b ∷ xs) (omega arith)
      (omega arith, AllBelow-next b xs below)
      (push_front-IsList b c xs (omega arith) (NotIn-below b xs below) v)

pub link_from-buf : (n b : ℕ) (c : Cache) (i : ℕ) → (link_from n b c).buf i ≡ c.buf i
unfolding link_from push_front
link_from-buf zero b c i = refl
link_from-buf (suc n) b c i = link_from-buf n (b + 1) (push_front b c) i
