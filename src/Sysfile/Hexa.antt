-- ===== src/Sysfile/Hexa.antt =====
-- src/sysfile.c: the hexadecimal digits that bufread prints.
use waka_b4_research.Base.{
  ℕ, zero, suc, ◌+◌, ◌-◌, ◌*◌, ◌/◌, ◌%◌, ◌^◌, ◌<◌, ◌≡◌, refl, arith, List, [], ◌∷◌, ltb, leb,
  if◌then◌else◌, set,
}

abbrev pub digit_char : ℕ → ℕ
digit_char digit = if ltb digit 10 then b'0' + digit else b'A' + digit - 10

-- The loop of `convert_to_hexa`, with `left` rounds to go: the next place is `left` less 1.
unfoldable pub hexa_loop : ℕ → ℕ → List ℕ → List ℕ
hexa_loop zero n hex = hex
hexa_loop (suc left) n hex = hexa_loop left (n / 16) (set hex left (digit_char (n % 16)))

unfoldable pub convert_to_hexa : ℕ → List ℕ → List ℕ
unfolding hexa_loop
convert_to_hexa n hex = set (hexa_loop 8 n hex) 8 0

-- A reader of such digits.
abbrev pub char_digit : ℕ → ℕ
char_digit c = if leb b'A' c then c - b'A' + 10 else c - b'0'

abbrev pub read_hexa : ℕ → List ℕ → ℕ
read_hexa v [] = v
read_hexa v (zero ∷ cs) = v
read_hexa v (suc c ∷ cs) = read_hexa (v * 16 + char_digit (suc c)) cs

char_digit-digit_char : (d : ℕ) → d < 16 → char_digit (digit_char d) ≡ d
char_digit-digit_char d h = ground arith

read_hexa-cons :
    (v d : ℕ) (cs : List ℕ) → d < 16 → read_hexa v (digit_char d ∷ cs) ≡ read_hexa (v * 16 + d) cs
read_hexa-cons v d cs h = split (digit_char d) (char_digit-digit_char d h) (ground arith)
  where
    split : (c : ℕ) → char_digit c ≡ d → 0 < c → read_hexa v (c ∷ cs) ≡ read_hexa (v * 16 + d) cs
    split zero e pos = absurd (omega arith)
    split (suc c) e pos = rw e refl

-- The digits of a 32-bit word read as that word: the eight characters that `convert_to_hexa` leaves
-- in an array of nine, before its 0.
pub read_hexa-convert_to_hexa :
    (n h0 h1 h2 h3 h4 h5 h6 h7 h8 : ℕ)
    → n < 2 ^ 32
    → read_hexa 0 (convert_to_hexa n (h0 ∷ h1 ∷ h2 ∷ h3 ∷ h4 ∷ h5 ∷ h6 ∷ h7 ∷ h8 ∷ [])) ≡ n
unfolding convert_to_hexa hexa_loop
read_hexa-convert_to_hexa n h0 h1 h2 h3 h4 h5 h6 h7 h8 word =
    let n1 = n / 16 in
    let n2 = n1 / 16 in
    let n3 = n2 / 16 in
    let n4 = n3 / 16 in
    let n5 = n4 / 16 in
    let n6 = n5 / 16 in
    let n7 = n6 / 16 in
    rw
      (
        λ (v : ℕ) (cs : List ℕ). read_hexa-cons v (n7 % 16) cs (omega arith),
        λ (v : ℕ) (cs : List ℕ). read_hexa-cons v (n6 % 16) cs (omega arith),
        λ (v : ℕ) (cs : List ℕ). read_hexa-cons v (n5 % 16) cs (omega arith),
        λ (v : ℕ) (cs : List ℕ). read_hexa-cons v (n4 % 16) cs (omega arith),
        λ (v : ℕ) (cs : List ℕ). read_hexa-cons v (n3 % 16) cs (omega arith),
        λ (v : ℕ) (cs : List ℕ). read_hexa-cons v (n2 % 16) cs (omega arith),
        λ (v : ℕ) (cs : List ℕ). read_hexa-cons v (n1 % 16) cs (omega arith),
        λ (v : ℕ) (cs : List ℕ). read_hexa-cons v (n % 16) cs (omega arith),
      )
      (omega arith)
