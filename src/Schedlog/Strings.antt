-- ===== src/Schedlog/Strings.antt =====
-- `mystrcmp` of src/proc.c decides whether two strings are equal.
use waka_b4_research.Base.{
  Bool, true, ltb, ◌&&◌, ℕ, ◌<◌, ◌≡◌, ◌↔◌, List, [], ◌∷◌, arith, ◌==◌, if◌then◌else◌,
}
use waka_b4_research.Schedlog.{mystrcmp}

-- The bytes of a string before the terminating 0.
abbrev pub text : List ℕ → List ℕ
text [] = []
text (x ∷ xs) = if x == 0 then [] else x ∷ text xs

abbrev pub AreBytes : List ℕ → Type 0
AreBytes [] = Unit
AreBytes (x ∷ xs) = (x < 256) × AreBytes xs

-- Two strings of bytes compare as 0 exactly when they have the same text, whatever follows it in
-- memory.
pub mystrcmp-text :
    (p q : List ℕ) → AreBytes p → AreBytes q → (mystrcmp p q ≡ 0) ↔ (text p ≡ text q)
unfolding mystrcmp
mystrcmp-text [] [] hp hq = ground arith
mystrcmp-text [] (y ∷ q) hp hq = ground arith
mystrcmp-text (x ∷ p) [] hp hq = ground (arith, mystrcmp-text p [] hp.1 hq)
mystrcmp-text (x ∷ p) (y ∷ q) hp hq = ground (arith, mystrcmp-text p q hp.1 hq.1)

abbrev pub are_bytes : List ℕ → Bool
are_bytes [] = true
are_bytes (x ∷ xs) = ltb x 256 && are_bytes xs

pub AreBytes-of_test : (xs : List ℕ) → are_bytes xs ≡ true → AreBytes xs
AreBytes-of_test [] h = tt
AreBytes-of_test (x ∷ xs) h = (ground arith, AreBytes-of_test xs (ground arith))
