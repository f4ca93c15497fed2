-- ===== src/CString/Copy.antt =====
-- What the functions of src/string.c compute, on the text that a string stands for.
use waka_b4_research.Base.{
  ℕ, zero, suc, ◌-◌, ◌≤◌, ◌<◌, ◌≡◌, refl, ap, ◌↔◌, inl, inr, false, List, [], ◌∷◌, arith, ◌==◌,
  Bool-cases, length, take,
}
use waka_b4_research.Schedlog.{rest}
use waka_b4_research.Schedlog.Strings.{text, AreBytes}
use waka_b4_research.CString.{end_here, copy_to_end, safestrcpy, pad, strncpy, strncmp, strlen}

text-end_here : (s : List ℕ) → text (end_here s) ≡ []
text-end_here [] = refl
text-end_here (_ ∷ s) = refl

text-copy_to_end :
    (n : ℕ) (s t : List ℕ) → n < length s → text (copy_to_end n s t) ≡ take n (text t)
unfolding copy_to_end
text-copy_to_end zero s t h = text-end_here s
text-copy_to_end (suc n) [] t h = absurd (omega arith)
text-copy_to_end (suc n) (_ ∷ s) [] h = refl
text-copy_to_end (suc n) (_ ∷ s) (y ∷ t) h = ground (arith, text-copy_to_end n s t (omega arith))

-- `safestrcpy` of at least one byte into a buffer that has the `n` bytes leaves the source's text
-- cut to `n - 1` bytes, ended by a 0 within the buffer.
pub text-safestrcpy :
    (s t : List ℕ) (n : ℕ) → 0 < n → n ≤ length s → text (safestrcpy s t n) ≡ take (n - 1) (text t)
unfolding safestrcpy
text-safestrcpy s t n pos h =
    let some_room : (n == 0) ≡ false = ground arith in
    rw some_room (text-copy_to_end (n - 1) s t (omega arith))

length-end_here : (s : List ℕ) → length (end_here s) ≡ length s
length-end_here [] = refl
length-end_here (_ ∷ s) = refl

length-copy_to_end : (n : ℕ) (s t : List ℕ) → length (copy_to_end n s t) ≡ length s
unfolding copy_to_end
length-copy_to_end zero s t = length-end_here s
length-copy_to_end (suc n) [] t = refl
length-copy_to_end (suc n) (_ ∷ s) t =
    ground (arith, length-end_here s, length-copy_to_end n s (rest t))

length-pad : (n : ℕ) (s : List ℕ) → length (pad n s) ≡ length s
unfolding pad
length-pad zero s = refl
length-pad (suc n) [] = refl
length-pad (suc n) (_ ∷ s) = ap suc (length-pad n s)

-- Two strings of bytes compare as 0 in their first `n` bytes exactly when their texts agree as far
-- as that.
pub strncmp-text :
    (p q : List ℕ) (n : ℕ)
    → AreBytes p
    → AreBytes q
    → (strncmp p q n ≡ 0) ↔ (take n (text p) ≡ take n (text q))
unfolding strncmp
strncmp-text p q zero hp hq = ground arith
strncmp-text [] [] (suc n) hp hq = ground arith
strncmp-text [] (y ∷ q) (suc n) hp hq = ground arith
strncmp-text (x ∷ p) [] (suc n) hp hq = ground (arith, strncmp-text p [] n hp.1 hq)
strncmp-text (x ∷ p) (y ∷ q) (suc n) hp hq = ground (arith, strncmp-text p q n hp.1 hq.1)

-- `strlen` is the length of the text.
pub strlen-text : (s : List ℕ) → strlen s ≡ length (text s)
unfolding strlen
strlen-text [] = refl
strlen-text (x ∷ s) = ground (arith, strlen-text s)

-- `strncpy` of a text shorter than `n` into a buffer that has the `n` bytes leaves that text in the
-- buffer.
pub text-strncpy :
    (s t : List ℕ) (n : ℕ) → n ≤ length s → length (text t) < n → text (strncpy s t n) ≡ text t
unfolding strncpy
text-strncpy s t zero h short = absurd (omega arith)
text-strncpy [] t (suc n) h short = absurd (omega arith)
text-strncpy (_ ∷ s) [] (suc n) h short = refl
text-strncpy (_ ∷ s) (y ∷ t) (suc n) h short = elim (Bool-cases (y == 0)) [
  | inl e ↦ rw e
  | inr ne ↦ ground (arith, text-strncpy s t n)
]
