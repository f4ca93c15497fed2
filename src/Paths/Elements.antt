-- ===== src/Paths/Elements.antt =====
-- skipelem of src/fs.c against the path split at its slashes.
use waka_b4_research.Base.{
  ℕ, suc, ◌+◌, ◌-◌, ◌<◌, arith, leb, length, length-append, length-take, length-drop, take, drop,
  get_or, get_or-append_left, get_or-append_right, get_or-take, get_or-drop, ◌≡◌, refl, sym, ap,
  ◌∙◌, Bool, false, Option, none, some, List, [], ◌∷◌, ◌++◌, ◌==◌, if◌then◌else◌, Bool-cases, inl,
  inr,
}
use waka_b4_research.Paths.{
  dir_size, skip_slashes, element, skip_element, named, elem_from, skipelem,
}

abbrev pub flush : List ℕ → List (List ℕ) → List (List ℕ)
flush [] es = es
flush (c ∷ cs) es = (c ∷ cs) ∷ es

-- The parts of the path between the slashes that are not empty; `cur` is the part before the path.
abbrev pub parts_after : List ℕ → List ℕ → List (List ℕ)
parts_after cur [] = flush cur []
parts_after cur (c ∷ cs) =
    if c == b'/' then flush cur (parts_after [] cs) else parts_after (cur ++ c ∷ []) cs

abbrev pub parts : List ℕ → List (List ℕ)
parts path = parts_after [] path

parts-skip_slashes : (path : List ℕ) → parts (skip_slashes path) ≡ parts path
unfolding skip_slashes
parts-skip_slashes [] = refl
parts-skip_slashes (c ∷ cs) = elim (Bool-cases (c == b'/')) [
  | inl e ↦ rw e (parts-skip_slashes cs)
  | inr e ↦ rw (e, e) refl
]

append_assoc : (xs ys zs : List ℕ) → (xs ++ ys) ++ zs ≡ xs ++ (ys ++ zs)
append_assoc [] ys zs = refl
append_assoc (x ∷ xs) ys zs = ap (λ ws. x ∷ ws) (append_assoc xs ys zs)

append_nil : (xs : List ℕ) → xs ++ [] ≡ xs
append_nil [] = refl
append_nil (x ∷ xs) = ap (λ ws. x ∷ ws) (append_nil xs)

pub parts_after-element :
    (cur path : List ℕ)
    → parts_after cur path ≡ flush (cur ++ element path) (parts (skip_element path))
unfolding element skip_element
parts_after-element cur [] = rw (append_nil cur) refl
parts_after-element cur (c ∷ cs) = elim (Bool-cases (c == b'/')) [
  | inl e ↦ rw (e, append_nil cur, e) refl
  | inr e ↦ rw e (
      parts_after-element (cur ++ c ∷ []) cs
      ∙ ap (λ (ws : List ℕ). flush ws (parts (skip_element cs)))
          (append_assoc cur (c ∷ []) (element cs)))
]

-- What the first loop stops at.
abbrev pub starts_with_slash : List ℕ → Bool
starts_with_slash [] = false
starts_with_slash (c ∷ cs) = c == b'/'

starts_with_slash-skip_slashes : (path : List ℕ) → starts_with_slash (skip_slashes path) ≡ false
unfolding skip_slashes
starts_with_slash-skip_slashes [] = refl
starts_with_slash-skip_slashes (c ∷ cs) = elim (Bool-cases (c == b'/')) [
  | inl e ↦ rw e (starts_with_slash-skip_slashes cs)
  | inr e ↦ rw (e, e) refl
]

-- `name'` is `named` of the first part of the path, and `rest` has the other parts and starts with none
-- of the slashes.
abbrev pub Split : List ℕ → List ℕ → Option (List ℕ × List ℕ) → Type 0
Split path name none = parts path ≡ []
Split path name (some (rest, name')) =
    (e : List ℕ) × (parts path ≡ e ∷ parts rest)
    × (name' ≡ named e name)
    × (starts_with_slash rest ≡ false)

elem_from-Split :
    (path name s : List ℕ)
    → parts s ≡ parts path
    → starts_with_slash s ≡ false
    → Split path name (elem_from s name)
unfolding element
elem_from-Split path name [] same clear = sym same
elem_from-Split path name (c ∷ cs) same clear = (
  element (c ∷ cs),
  sym same
      ∙ parts_after-element [] (c ∷ cs)
      ∙ first_part
      ∙ ap (λ (es : List (List ℕ)). element (c ∷ cs) ∷ es)
          (sym (parts-skip_slashes (skip_element (c ∷ cs)))),
  refl,
  starts_with_slash-skip_slashes (skip_element (c ∷ cs)),
)
  where
    first_part :
        flush (element (c ∷ cs)) (parts (skip_element (c ∷ cs)))
        ≡ element (c ∷ cs) ∷ parts (skip_element (c ∷ cs))
    first_part = rw clear refl

pub skipelem-Split : (path name : List ℕ) → Split path name (skipelem path name)
unfolding skipelem
skipelem-Split path name =
    elem_from-Split path name (skip_slashes path) (parts-skip_slashes path)
      (starts_with_slash-skip_slashes path)

-- The array `name'` of 14 bytes has the first 14 bytes of `e`, or all of `e`, then a 0, then what `name`
-- had there.
pub record IsNamed (e name name' : List ℕ) : Type 0 where
  pub size : length name' ≡ 14
  pub bytes : (i : ℕ) → i < 14 → i < length e → get_or name' i 0 ≡ get_or e i 0
  pub ended : length e < 14 → get_or name' (length e) 0 ≡ 0
  pub others : (i : ℕ) → length e < i → get_or name' i 0 ≡ get_or name i 0

named-IsNamed : (e name : List ℕ) → length name ≡ 14 → IsNamed e name (named e name)
named-IsNamed e name full = elim (Bool-cases (leb dir_size (length e))) [
  | inl long ↦
      let cut : length (take dir_size e) ≡ 14 = ground (arith, length-take dir_size e) in
      rw long (record {
        size = ground (
          arith,
          cut,
          full,
          length-append (take dir_size e) (drop dir_size name),
          length-drop dir_size name,
        );
        bytes = λ i lt inside.
            get_or-append_left (take dir_size e) (drop dir_size name) i 0 (omega (arith, cut))
            ∙ get_or-take dir_size e i 0 lt;
        ended = λ short. absurd (ground arith);
        others = λ i past.
            let back : i ≡ dir_size + (i - length (take dir_size e)) = ground (arith, cut) in
            get_or-append_right (take dir_size e) (drop dir_size name) i 0 (ground (arith, cut))
            ∙ get_or-drop dir_size name (i - length (take dir_size e)) i 0 back;
      })
  | inr short ↦
      let fits : length e < 14 = ground arith in
      let tail = drop (suc (length e)) name in
      rw short (record {
        size =
            ground
              (arith, full, fits, length-append e (0 ∷ tail), length-drop (suc (length e)) name);
        bytes = λ i lt inside. get_or-append_left e (0 ∷ tail) i 0 inside;
        ended = λ lt.
            let none_left : length e - length e ≡ 0 = omega arith in
            get_or-append_right e (0 ∷ tail) (length e) 0 (omega arith) ∙ rw none_left refl;
        others = λ i past.
            let one : i - length e ≡ suc (i - suc (length e)) = omega arith in
            get_or-append_right e (0 ∷ tail) i 0 (omega arith)
            ∙ rw one (get_or-drop (suc (length e)) name (i - suc (length e)) i 0 (omega arith));
      })
]

abbrev pub Skipped : List ℕ → List ℕ → Option (List ℕ × List ℕ) → Type 0
Skipped path name none = parts path ≡ []
Skipped path name (some (rest, name')) =
    (e : List ℕ) × (parts path ≡ e ∷ parts rest)
    × IsNamed e name name'
    × (starts_with_slash rest ≡ false)

Split-Skipped :
    (path name : List ℕ) (r : Option (List ℕ × List ℕ))
    → length name ≡ 14
    → Split path name r
    → Skipped path name r
Split-Skipped path name none full h = h
Split-Skipped path name (some (rest, name')) full (e, split, same, clear) =
    (e, split, rw same (named-IsNamed e name full), clear)

-- `skipelem`, with an array of 14 bytes for the name, fails just on a path with no part between its
-- slashes that is not empty. Otherwise it takes the first such part: the array then has its first 14
-- bytes, or all of it and a 0, with the bytes behind that 0 unchanged. It returns a path that has the
-- other parts and starts with no slash.
pub skipelem_lem : (path name : List ℕ) → length name ≡ 14 → Skipped path name (skipelem path name)
skipelem_lem path name full =
    Split-Skipped path name (skipelem path name) full (skipelem-Split path name)
