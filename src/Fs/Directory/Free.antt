-- ===== src/Fs/Directory/Free.antt =====
-- The free entry that dirlink of src/fs.c takes, and the bytes that it writes there.
use waka_b4_research.Base.{
  ℕ, zero, suc, ◌+◌, ◌-◌, ◌^◌, ◌<◌, ◌≤◌, ◌≡◌, ◌≢◌, refl, sym, ap, ◌∙◌, arith, true, false, ◌&&◌,
  List, [], ◌∷◌, ◌==◌, ltb, leb, Bool-cases, inl, inr, length, get_or,
}
use waka_b4_research.Schedlog.{first, rest}
use waka_b4_research.CString.{pad, strncmp, strncpy}
use waka_b4_research.Paths.{dir_size}
use waka_b4_research.Fs.{Super}
use waka_b4_research.Fs.Bits.{AreBytes}
use waka_b4_research.Fs.Directory.{
  entry_size, load_bytes, entry_inum, entry_name, namecmp, put_entry, is_entry,
}

-- A string of bytes, with zeros behind it.
abbrev pub IsText : List ℕ → Type 0
IsText s = (i : ℕ) → get_or s i 0 < 256

rest-IsText : (s : List ℕ) → IsText s → IsText (rest s)
rest-IsText [] h i = omega arith
rest-IsText (x ∷ s) h i = h (suc i)

first-IsText : (s : List ℕ) → IsText s → first s < 256
first-IsText [] h = omega arith
first-IsText (x ∷ s) h = h 0

cons-IsText : (x : ℕ) (s : List ℕ) → x < 256 → IsText s → IsText (x ∷ s)
cons-IsText x s lt h zero = lt
cons-IsText x s lt h (suc i) = h i

pad-IsText : (n : ℕ) (s : List ℕ) → IsText s → IsText (pad n s)
unfolding pad
pad-IsText zero s h = h
pad-IsText (suc n) [] h = h
pad-IsText (suc n) (x ∷ s) h =
    cons-IsText 0 (pad n s) (omega arith) (pad-IsText n s (λ i. h (suc i)))

strncpy-IsText : (s t : List ℕ) (n : ℕ) → IsText s → IsText t → IsText (strncpy s t n)
unfolding strncpy
strncpy-IsText s t zero hs ht = hs
strncpy-IsText [] t (suc n) hs ht = hs
strncpy-IsText (x ∷ s) t (suc n) hs ht = elim (Bool-cases (first t == 0)) [
  | inl e ↦ rw e (cons-IsText 0 (pad n s) (omega arith) (pad-IsText n s (λ i. hs (suc i))))
  | inr e ↦ rw e (
      cons-IsText (first t) (strncpy s (rest t) n) (first-IsText t ht)
        (strncpy-IsText s (rest t) n (λ i. hs (suc i)) (rest-IsText t ht)))
]

-- A string compares as equal with its copy.
strncmp-strncpy : (s t : List ℕ) (n : ℕ) → n ≤ length s → strncmp t (strncpy s t n) n ≡ 0
unfolding strncmp strncpy
strncmp-strncpy s t zero le = refl
strncmp-strncpy [] t (suc n) le = absurd (omega arith)
strncmp-strncpy (x ∷ s) t (suc n) le = elim (Bool-cases (first t == 0)) [
  | inl e ↦ let zero : first t ≡ 0 = ground arith in rw (e, zero) refl
  | inr e ↦
      let again : (first t == first t) ≡ true = ground arith in
      rw (e, again) (strncmp-strncpy s (rest t) n (omega arith))
]

length-pad : (n : ℕ) (s : List ℕ) → length (pad n s) ≡ length s
unfolding pad
length-pad zero s = refl
length-pad (suc n) [] = refl
length-pad (suc n) (x ∷ s) = ap suc (length-pad n s)

length-strncpy : (s t : List ℕ) (n : ℕ) → length (strncpy s t n) ≡ length s
unfolding strncpy
length-strncpy s t zero = refl
length-strncpy [] t (suc n) = refl
length-strncpy (x ∷ s) t (suc n) = elim (Bool-cases (first t == 0)) [
  | inl e ↦ rw e (ap suc (length-pad n s))
  | inr e ↦ rw e (ap suc (length-strncpy s (rest t) n))
]

load_bytes-of :
    (x : ℕ → ℕ) (a : ℕ) (s : List ℕ)
    → ((i : ℕ) → i < length s → x (a + i) ≡ get_or s i 0)
    → load_bytes x a (length s) ≡ s
load_bytes-of x a [] h = refl
load_bytes-of x a (c ∷ s) h =
    let here : x a ≡ c = ap x (omega arith) ∙ h 0 (omega arith) in
    rw (here, load_bytes-of x (a + 1) s (λ i lt. ap x (omega arith) ∙ h (suc i) (omega arith))) refl

module _ (name : List ℕ) (inum : ℕ) (de : ℕ → ℕ) where
  abbrev copied : List ℕ
  copied = strncpy (entry_name de) name dir_size

  length-copied : length copied ≡ dir_size
  length-copied = length-strncpy (entry_name de) name dir_size

  pub entry_inum-put_entry : inum < 2 ^ 16 → entry_inum (put_entry name inum de) ≡ inum
  entry_inum-put_entry half = omega arith

  entry_name-put_entry : entry_name (put_entry name inum de) ≡ copied
  entry_name-put_entry =
      ap (load_bytes (put_entry name inum de) 2) (sym length-copied)
      ∙ load_bytes-of (put_entry name inum de) 2 copied (λ i lt.
        let within : (leb 2 (2 + i) && ltb (2 + i) entry_size) ≡ true =
          ground (arith, length-copied) in
        let index : 2 + i - 2 ≡ i = omega arith in
        let far : (2 + i == 0) ≡ false = ground arith in
        let far' : (2 + i == 1) ≡ false = ground arith in rw (far, far', within, index) refl)

  -- The written entry is in use and has the name.
  pub is_entry-put_entry :
      (sb : Super) → inum < 2 ^ 16 → inum ≢ 0 → is_entry sb name (put_entry name inum de) ≡ true
  unfolding namecmp
  is_entry-put_entry sb half pos =
      let used : (inum == 0) ≡ false = ground arith in
      let equal = strncmp-strncpy (entry_name de) name dir_size (omega arith) in
      rw (entry_inum-put_entry half, used, entry_name-put_entry, equal) refl

  pub put_entry-AreBytes : IsText name → AreBytes de → AreBytes (put_entry name inum de)
  put_entry-AreBytes text bytes i =
      let small =
        strncpy-IsText (entry_name de) name dir_size (entry_name-IsText 2 dir_size) text (i - 2) in
      let kept = bytes i in ground arith
    where
      entry_name-IsText : (a n : ℕ) → IsText (load_bytes de a n)
      entry_name-IsText a zero = λ i. omega arith
      entry_name-IsText a (suc n) =
          cons-IsText (de a) (load_bytes de (a + 1) n) (bytes a) (entry_name-IsText (a + 1) n)
