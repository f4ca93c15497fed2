-- ===== src/CString.antt =====
-- src/string.c: the string functions, on lists of the bytes from the pointer on. A read past the
-- list reads 0, and a write past it is lost.
pub mod Copy
pub mod Moves
mod Tests
use waka_b4_research.Base.{
  ℕ, zero, suc, ◌+◌, ◌-◌, ◌*◌, ◌/◌, ◌%◌, ◌^◌, ◌≤◌, ◌<◌, String, ◌≡◌, refl, sym, ap, ◌∙◌, ◌≢◌, ◌↔◌,
  ◌⊎◌, inl, inr, Bool, true, false, ◌&&◌, ◌||◌, not, Option, none, some, List, [], ◌∷◌, ◌++◌, map,
  arith, dec_lt, ℕ_discrete, ltb, leb, ◌==◌, if◌then◌else◌, ltb→lt, lt→ltb, leb→le, ==_iff, tests,
  Bool-cases, Option-cases, length, get_elem?, set, length-append, length-set, get_elem?-set_self,
  get_elem?-set_ne, get_or, take, drop, replicate, take-append-drop, length-take, length-drop,
  length-replicate, length-map, Outcome, ok, panic, spins, on_ok, M, pure, fail, get, modify,
  and_then, ◌>>=◌, ◌>>◌, update, update_self, NotIn, Distinct, has, NotIn-of_has, NotIn-append,
  Distinct-append_one, word_mod, minus_one, add_word, sub_word,
}
use waka_b4_research.Schedlog.{first, rest}

-- `*s = 0`
abbrev pub end_here : List ℕ → List ℕ
end_here [] = []
end_here (_ ∷ s) = 0 ∷ s

-- `while (--n > 0 && (*s++ = *t++) != 0); *s = 0;` with `n` the value after the first `--n`. The
-- byte behind a copied 0 is cleared as well.
unfoldable pub copy_to_end : ℕ → List ℕ → List ℕ → List ℕ
copy_to_end zero s t = end_here s
copy_to_end (suc n) [] t = []
copy_to_end (suc n) (_ ∷ s) t =
    let later = copy_to_end n s (rest t) in if first t == 0 then 0 ∷ end_here s else first t ∷ later

unfoldable pub safestrcpy : List ℕ → List ℕ → ℕ → List ℕ
unfolding copy_to_end
safestrcpy s t n = if n == 0 then s else copy_to_end (n - 1) s t

-- `strncpy`: the second loop pads with zeros.
unfoldable pub pad : ℕ → List ℕ → List ℕ
pad zero s = s
pad (suc n) [] = []
pad (suc n) (_ ∷ s) = 0 ∷ pad n s

unfoldable pub strncpy : List ℕ → List ℕ → ℕ → List ℕ
unfolding pad
strncpy s t zero = s
strncpy [] t (suc n) = []
strncpy (_ ∷ s) t (suc n) =
    let later = strncpy s (rest t) n in if first t == 0 then 0 ∷ pad n s else first t ∷ later

unfoldable pub strncmp : List ℕ → List ℕ → ℕ → ℕ
strncmp p q zero = 0
strncmp p q (suc n) =
    let later = strncmp (rest p) (rest q) n in
    if not (first p == 0) && (first p == first q) then later else sub_word (first p) (first q)

-- `strlen` of a string whose 0 is in the list.
unfoldable pub strlen : List ℕ → ℕ
strlen [] = 0
strlen (x ∷ s) = let later = strlen s in if x == 0 then 0 else suc later

unfoldable pub memcmp : List ℕ → List ℕ → ℕ → ℕ
memcmp p q zero = 0
memcmp p q (suc n) =
    let later = memcmp (rest p) (rest q) n in
    if first p == first q then later else sub_word (first p) (first q)
