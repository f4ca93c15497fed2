-- ===== src/Base/Words.antt =====
-- `uint` and `int` as 32-bit patterns: a number below 2 ^ 32, the arithmetic taken modulo 2 ^ 32.
use Prim.Native.Nat.{ℕ, ◌+◌, ◌-◌, ◌%◌, ◌^◌}

abbrev pub word_mod : ℕ
word_mod = 2 ^ 32

-- the pattern of the `int` -1
abbrev pub minus_one : ℕ
minus_one = 2 ^ 32 - 1

abbrev pub add_word : ℕ → ℕ → ℕ
add_word a b = (a + b) % 2 ^ 32

abbrev pub sub_word : ℕ → ℕ → ℕ
sub_word a b = (a + 2 ^ 32 - b) % 2 ^ 32
