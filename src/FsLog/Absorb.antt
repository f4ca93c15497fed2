-- ===== src/FsLog/Absorb.antt =====
-- `log_write` of src/log.c on the list of blocks: a block that is logged again takes no room.
use waka_b4_research.Base.{
  ℕ, zero, suc, ◌<◌, ◌≡◌, refl, ap, ◌∙◌, inl, inr, true, false, none, some, List, [], ◌∷◌, ◌++◌,
  arith, ◌==◌, if◌then◌else◌, length, length-take, take, get_elem?, set, has, find_index,
  find_index-cases, lt-length_of_some, NonePass,
}
use waka_b4_research.FsLog.{Journal, listed, slot_of, log_record}

-- A write of what is there.
set_same : (xs : List ℕ) (i a : ℕ) → get_elem? xs i ≡ some a → set xs i a ≡ xs
set_same [] i a h = refl
set_same (x ∷ xs) zero a h = ground arith
set_same (x ∷ xs) (suc i) a h = ap (λ ys. x ∷ ys) (set_same xs i a h)

get_elem?-of_take :
    (n : ℕ) (xs : List ℕ) (i a : ℕ) → get_elem? (take n xs) i ≡ some a → get_elem? xs i ≡ some a
get_elem?-of_take zero xs i a h = cc
get_elem?-of_take (suc n) [] i a h = cc
get_elem?-of_take (suc n) (x ∷ xs) zero a h = h
get_elem?-of_take (suc n) (x ∷ xs) (suc i) a h = get_elem?-of_take n xs i a h

take-set_next :
    (n : ℕ) (xs : List ℕ) (a : ℕ) → n < length xs → take (suc n) (set xs n a) ≡ take n xs ++ a ∷ []
take-set_next n [] a h = absurd (omega arith)
take-set_next zero (x ∷ xs) a h = refl
take-set_next (suc n) (x ∷ xs) a h = ap (λ ys. x ∷ ys) (take-set_next n xs a (omega arith))

has-NonePass : (b : ℕ) (xs : List ℕ) → NonePass (λ c. c == b) xs → has b xs ≡ false
has-NonePass b [] h = refl
has-NonePass b (x ∷ xs) h = ground (arith, h 0 x refl, has-NonePass b xs (λ j y e. h (suc j) y e))

has_of_some : (b : ℕ) (xs : List ℕ) (i : ℕ) → get_elem? xs i ≡ some b → has b xs ≡ true
has_of_some b [] i h = cc
has_of_some b (x ∷ xs) zero h = ground arith
has_of_some b (x ∷ xs) (suc i) h = ground (arith, has_of_some b xs i h)

slot_of-none :
    (b : ℕ) (j : Journal) → find_index (λ c. c == b) (listed j) ≡ none → slot_of b j ≡ j.n
unfolding slot_of
slot_of-none b j e = rw e

slot_of-some :
    (b : ℕ) (j : Journal) (i : ℕ) → find_index (λ c. c == b) (listed j) ≡ some i → slot_of b j ≡ i
unfolding slot_of
slot_of-some b j i e = rw e

-- Where the array has room for one more, the blocks of the transaction after `log_write` of `b` are
-- those before, and `b` behind them if it was none of them.
pub listed-log_record :
    (b : ℕ) (j : Journal)
    → j.n < length j.block
    → listed (log_record b j) ≡ (if has b (listed j) then listed j else listed j ++ b ∷ [])
unfolding log_record
listed-log_record b j room = elim (find_index-cases (λ c. c == b) (listed j)) [
  | inl (e, none') ↦
      let equal : (j.n == j.n) ≡ true = ground arith in
      rw (slot_of-none b j e, equal, has-NonePass b (listed j) none')
        (ap (λ (n : ℕ). take n (set j.block j.n b)) {y = suc j.n} (omega arith)
          ∙ take-set_next j.n j.block b room)
  | inr (i, c, e, f) ↦
      let there : get_elem? (listed j) i ≡ some b = ground (arith, f.at, f.passes) in
      let below : (i == j.n) ≡ false =
        ground (arith, lt-length_of_some (listed j) i b there, length-take {0} j.n j.block) in
      rw (slot_of-some b j i e, below, has_of_some b (listed j) i there)
        (ap (take j.n) (set_same j.block i b (get_elem?-of_take j.n j.block i b there)))
]
