-- ===== src/Fs/Bits.antt =====
-- The bits of the free map of src/fs.c: setting and clearing one bit leaves the others.
use Prim.Native.Nat.{bit_and, bit_or}
use waka_b4_research.Base.{
  ℕ, zero, suc, ◌-◌, ◌/◌, ◌%◌, ◌^◌, ◌+◌, ◌<◌, ◌≤◌, ◌≡◌, inl, inr, Bool-cases, refl, arith, Bool,
  true, false, ◌&&◌, not, ◌==◌, ltb, if◌then◌else◌,
}
use waka_b4_research.Fs.{is_clear, set_bit, clear_bit}

-- The test holds of the `count` numbers from `start` on; a test of it evaluates.
holds_from : (ℕ → Bool) → (start count : ℕ) → Bool
holds_from test start zero = true
holds_from test start (suc count) = if test start then holds_from test (start + 1) count else false

holds_from_lem :
    (test : ℕ → Bool) (start count i : ℕ)
    → holds_from test start count ≡ true
    → start ≤ i
    → i < start + count
    → test i ≡ true
unfolding holds_from
holds_from_lem test start zero i run low high = absurd (omega arith)
holds_from_lem test start (suc count) i run low high = elim (Bool-cases (test start)) [
  | inr fails ↦ ground (arith, run, fails)
  | inl passes ↦ elim (Bool-cases (i == start)) [
    | inl here ↦ let e : i ≡ start = ground arith in rw e passes
    | inr later ↦
        holds_from_lem test (start + 1) count i (rw passes at run) (ground (arith, later))
          (omega arith)
  ]
]

abbrev same : Bool → Bool → Bool
same true b = b
same false b = not b

same_eq : (a b : Bool) → same a b ≡ true → a ≡ b
same_eq true b h = ground arith
same_eq false b h = ground arith

abbrev clear_at : ℕ → ℕ → Bool
clear_at x k = bit_and x (2 ^ k) == 0

abbrev set_fact : ℕ → ℕ → ℕ → Bool
set_fact x k j = same (clear_at (bit_or x (2 ^ k)) j) (if j == k then false else clear_at x j)

abbrev clear_fact : ℕ → ℕ → ℕ → Bool
clear_fact x k j =
    same (clear_at (bit_and x (255 - 2 ^ k)) j) (if j == k then true else clear_at x j)

abbrev byte_fact : ℕ → ℕ → Bool
byte_fact x k = ltb (bit_or x (2 ^ k)) 256 && ltb (bit_and x (255 - 2 ^ k)) 256

abbrev bit_facts : ℕ → ℕ → ℕ → Bool
bit_facts x k j = set_fact x k j && clear_fact x k j

bits_table :
    holds_from (λ x. holds_from (λ k. byte_fact x k && holds_from (bit_facts x k) 0 8) 0 8) 0 256
    ≡ true
unfolding holds_from
bits_table = refl

module _ (x k j : ℕ) (byte : x < 256) (hk : k < 8) (hj : j < 8) where
  at_k : (byte_fact x k && holds_from (bit_facts x k) 0 8) ≡ true
  at_k =
      holds_from_lem (λ k. byte_fact x k && holds_from (bit_facts x k) 0 8) 0 8 k
        (holds_from_lem _ 0 256 x bits_table (omega arith) byte) (omega arith) hk

  at_j : bit_facts x k j ≡ true
  at_j = holds_from_lem (bit_facts x k) 0 8 j (ground (arith, at_k)) (omega arith) hj

  clear_at-set : clear_at (bit_or x (2 ^ k)) j ≡ (if j == k then false else clear_at x j)
  clear_at-set = same_eq _ _ (ground (arith, at_j))

  clear_at-clear : clear_at (bit_and x (255 - 2 ^ k)) j ≡ (if j == k then true else clear_at x j)
  clear_at-clear = same_eq _ _ (ground (arith, at_j))

  set-byte : (bit_or x (2 ^ k) < 256) × (bit_and x (255 - 2 ^ k) < 256)
  set-byte = ground (arith, at_k)

-- The contents of a block are bytes.
abbrev pub AreBytes : (ℕ → ℕ) → Type 0
AreBytes x = (i : ℕ) → x i < 256

module _ (x : ℕ → ℕ) (bi bj : ℕ) (bytes : AreBytes x) where
  pub is_clear-set_bit : is_clear (set_bit bi x) bj ≡ (if bj == bi then false else is_clear x bj)
  unfolding is_clear set_bit
  is_clear-set_bit = ground (
    arith,
    clear_at-set (x (bi / 8)) (bi % 8) (bj % 8) (bytes (bi / 8)) (omega arith) (omega arith),
  )

  pub is_clear-clear_bit : is_clear (clear_bit bi x) bj ≡ (if bj == bi then true else is_clear x bj)
  unfolding is_clear clear_bit
  is_clear-clear_bit = ground (
    arith,
    clear_at-clear (x (bi / 8)) (bi % 8) (bj % 8) (bytes (bi / 8)) (omega arith) (omega arith),
  )

  pub set_bit-AreBytes : AreBytes (set_bit bi x)
  unfolding set_bit
  set_bit-AreBytes i =
      let small = set-byte (x (bi / 8)) (bi % 8) 0 (bytes (bi / 8)) (omega arith) (omega arith) in
      let kept = bytes i in ground arith

  pub clear_bit-AreBytes : AreBytes (clear_bit bi x)
  unfolding clear_bit
  clear_bit-AreBytes i =
      let small = set-byte (x (bi / 8)) (bi % 8) 0 (bytes (bi / 8)) (omega arith) (omega arith) in
      let kept = bytes i in ground arith
