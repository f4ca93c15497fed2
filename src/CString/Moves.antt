-- ===== src/CString/Moves.antt =====
-- src/string.c: memset and memmove, on memory by address. A block does not go past the last address.
use waka_b4_research.Base.{
  ℕ, zero, suc, ◌+◌, ◌*◌, ◌/◌, ◌%◌, ◌^◌, ◌≤◌, ◌<◌, ◌≡◌, ◌⊎◌, inl, inr, refl, ap, ◌∙◌, arith, ◌&&◌,
  ◌==◌, ltb, if◌then◌else◌, Bool-cases, update,
}

-- `while(n-- > 0) *--d = *--s;` from the ends of the blocks.
unfoldable pub copy_down : ℕ → ℕ → ℕ → (ℕ → ℕ) → ℕ → ℕ
copy_down dst src zero mem = mem
copy_down dst src (suc n) mem = copy_down dst src n (update mem (dst + n) (mem (src + n)))

-- `while(n-- > 0) *d++ = *s++;`
unfoldable pub copy_up : ℕ → ℕ → ℕ → (ℕ → ℕ) → ℕ → ℕ
copy_up dst src zero mem = mem
copy_up dst src (suc n) mem = copy_up (dst + 1) (src + 1) n (update mem dst (mem src))

unfoldable pub memmove : ℕ → ℕ → ℕ → (ℕ → ℕ) → ℕ → ℕ
unfolding copy_down copy_up
memmove dst src n mem =
    if ltb src dst && ltb dst (src + n) then copy_down dst src n mem else copy_up dst src n mem

-- The block is the old one at `src`, and nothing else changes.
pub record IsMoved (dst src n : ℕ) (mem mem' : ℕ → ℕ) : Type 0 where
  pub moved : (k : ℕ) → k < n → mem' (dst + k) ≡ mem (src + k)
  pub other : (a : ℕ) → (a < dst) ⊎ (dst + n ≤ a) → mem' a ≡ mem a

copy_down_lem :
    (dst src n : ℕ) (mem : ℕ → ℕ) → src ≤ dst → IsMoved dst src n mem (copy_down dst src n mem)
unfolding copy_down
copy_down_lem dst src zero mem le = record {
  moved = λ k lt. absurd (omega arith);
  other = λ a out. refl;
}
copy_down_lem dst src (suc n) mem le =
    let written = update mem (dst + n) (mem (src + n)) in
    let later = copy_down_lem dst src n written le in
    record {
      moved = λ k lt. elim (Bool-cases (k == n)) [
        | inl e ↦
            let last : k ≡ n = ground arith in
            rw last (later.other (dst + n) (inr (omega arith)) ∙ ground arith)
        | inr e ↦ later.moved k (ground arith) ∙ ground arith
      ];
      other = λ a out. later.other a (ground arith) ∙ ground arith;
    }

copy_up_lem :
    (dst src n : ℕ) (mem : ℕ → ℕ)
    → (dst ≤ src) ⊎ (src + n ≤ dst)
    → IsMoved dst src n mem (copy_up dst src n mem)
unfolding copy_up
copy_up_lem dst src zero mem apart = record {
  moved = λ k lt. absurd (omega arith);
  other = λ a out. refl;
}
copy_up_lem dst src (suc n) mem apart =
    let written = update mem dst (mem src) in
    let later = copy_up_lem (dst + 1) (src + 1) n written (ground arith) in
    record {
      moved = λ k lt. copied later k lt;
      other = λ a out. later.other a (ground arith) ∙ ground arith;
    }
  where
    copied :
        IsMoved
          (dst + 1)
          (src + 1)
          n
          (update mem dst (mem src))
          (copy_up (dst + 1) (src + 1) n (update mem dst (mem src)))
        → (k : ℕ) → k < suc n
        → copy_up (dst + 1) (src + 1) n (update mem dst (mem src)) (dst + k) ≡ mem (src + k)
    copied later zero lt =
        let here : update mem dst (mem src) (dst + 0) ≡ mem src = ground arith in
        later.other (dst + 0) (inl (omega arith)) ∙ here ∙ ap mem (omega arith)
    copied later (suc k) lt =
        let kept : update mem dst (mem src) (src + 1 + k) ≡ mem (src + 1 + k) = ground arith in
        ap (copy_up (dst + 1) (src + 1) n (update mem dst (mem src))) (omega arith)
        ∙ later.moved k (omega arith)
        ∙ kept
        ∙ ap mem (omega arith)

-- `memmove` leaves at `dst` the `n` bytes that were at `src`, however the two blocks overlap, and
-- changes no other byte.
pub memmove_lem : (dst src n : ℕ) (mem : ℕ → ℕ) → IsMoved dst src n mem (memmove dst src n mem)
unfolding memmove
memmove_lem dst src n mem = elim (Bool-cases (ltb src dst && ltb dst (src + n))) [
  | inl over ↦ rw over (copy_down_lem dst src n mem (ground arith))
  | inr clear ↦ rw clear (copy_up_lem dst src n mem (ground arith))
]

-- `stosb`: the byte `c` in `n` places.
unfoldable pub stosb : ℕ → ℕ → ℕ → (ℕ → ℕ) → ℕ → ℕ
stosb dst c zero mem = mem
stosb dst c (suc n) mem = stosb (dst + 1) c n (update mem dst (c % 2 ^ 8))

-- One word, its low byte first.
abbrev pub store_word : ℕ → ℕ → (ℕ → ℕ) → ℕ → ℕ
store_word a w mem =
    update
      (update (update (update mem a (w % 2 ^ 8)) (a + 1) (w / 2 ^ 8 % 2 ^ 8)) (a + 2)
        (w / 2 ^ 16 % 2 ^ 8))
      (a + 3) (w / 2 ^ 24 % 2 ^ 8)

-- `stosl`: the word `w` in `n` places.
unfoldable pub stosl : ℕ → ℕ → ℕ → (ℕ → ℕ) → ℕ → ℕ
stosl dst w zero mem = mem
stosl dst w (suc n) mem = stosl (dst + 4) w n (store_word dst w mem)

-- `c` is the pattern of an `int`; the or of the shifted bytes is their sum.
unfoldable pub memset : ℕ → ℕ → ℕ → (ℕ → ℕ) → ℕ → ℕ
unfolding stosb stosl
memset dst c n mem =
    let b = c % 2 ^ 8 in
    if (dst % 4 == 0) && (n % 4 == 0)
    then stosl dst (b * 2 ^ 24 + b * 2 ^ 16 + b * 2 ^ 8 + b) (n / 4) mem
    else stosb dst c n mem

-- The block is filled with the byte, and nothing else changes.
pub record IsFilled (dst b n : ℕ) (mem mem' : ℕ → ℕ) : Type 0 where
  pub filled : (a : ℕ) → dst ≤ a → a < dst + n → mem' a ≡ b
  pub other : (a : ℕ) → (a < dst) ⊎ (dst + n ≤ a) → mem' a ≡ mem a

-- A first part of `k` bytes, then the rest.
IsFilled-more :
    (dst b k n : ℕ) (mem mem' mem'' : ℕ → ℕ)
    → IsFilled dst b k mem mem'
    → IsFilled (dst + k) b n mem' mem''
    → IsFilled dst b (k + n) mem mem''
IsFilled-more dst b k n mem mem' mem'' p q = record {
  filled = λ a low high. elim (Bool-cases (ltb a (dst + k))) [
    | inl e ↦ q.other a (ground arith) ∙ p.filled a low (ground arith)
    | inr e ↦ q.filled a (ground arith) (omega arith)
  ];
  other = λ a out. q.other a (ground arith) ∙ p.other a (ground arith);
}

IsFilled-none : (dst b : ℕ) (mem : ℕ → ℕ) → IsFilled dst b 0 mem mem
IsFilled-none dst b mem = record {
  filled = λ a low high. absurd (omega arith);
  other = λ a out. refl;
}

stosb_lem : (dst c n : ℕ) (mem : ℕ → ℕ) → IsFilled dst (c % 2 ^ 8) n mem (stosb dst c n mem)
unfolding stosb
stosb_lem dst c zero mem = IsFilled-none dst (c % 2 ^ 8) mem
stosb_lem dst c (suc n) mem =
    let written = update mem dst (c % 2 ^ 8) in
    let first : IsFilled dst (c % 2 ^ 8) 1 mem written = record {
      filled = λ a low high. ground arith;
      other = λ a out. ground arith;
    } in
    let all =
      IsFilled-more dst (c % 2 ^ 8) 1 n mem written (stosb (dst + 1) c n written) first
        (stosb_lem (dst + 1) c n written) in
    record {
      filled = λ a low high. all.filled a low (omega arith);
      other = λ a out. all.other a (ground arith);
    }

abbrev four_times : ℕ → ℕ
four_times b = b * 2 ^ 24 + b * 2 ^ 16 + b * 2 ^ 8 + b

store_word-IsFilled :
    (dst b : ℕ) (mem : ℕ → ℕ) → b < 2 ^ 8 → IsFilled dst b 4 mem (store_word dst (four_times b) mem)
store_word-IsFilled dst b mem h =
    let b0 : four_times b % 2 ^ 8 ≡ b = omega arith in
    let b1 : four_times b / 2 ^ 8 % 2 ^ 8 ≡ b = omega arith in
    let b2 : four_times b / 2 ^ 16 % 2 ^ 8 ≡ b = omega arith in
    let b3 : four_times b / 2 ^ 24 % 2 ^ 8 ≡ b = omega arith in
    rw (b0, b1, b2, b3)
      (record { filled = λ a low high. ground arith; other = λ a out. ground arith })

stosl_lem :
    (dst b n : ℕ) (mem : ℕ → ℕ)
    → b < 2 ^ 8
    → IsFilled dst b (4 * n) mem (stosl dst (four_times b) n mem)
unfolding stosl
stosl_lem dst b zero mem h = IsFilled-none dst b mem
stosl_lem dst b (suc n) mem h =
    let written = store_word dst (four_times b) mem in
    let all =
      IsFilled-more dst b 4 (4 * n) mem written (stosl (dst + 4) (four_times b) n written)
        (store_word-IsFilled dst b mem h) (stosl_lem (dst + 4) b n written h) in
    record {
      filled = λ a low high. all.filled a low (omega arith);
      other = λ a out. all.other a (ground arith);
    }

-- `memset` fills the `n` bytes at `dst` with the low byte of `c`, by words where the block is aligned
-- and by bytes where it is not, and changes no other byte.
pub memset_lem : (dst c n : ℕ) (mem : ℕ → ℕ) → IsFilled dst (c % 2 ^ 8) n mem (memset dst c n mem)
unfolding memset
memset_lem dst c n mem = elim (Bool-cases ((dst % 4 == 0) && (n % 4 == 0))) [
  | inl words ↦
      let all = stosl_lem dst (c % 2 ^ 8) (n / 4) mem (omega arith) in
      let exact : 4 * (n / 4) ≡ n = ground (arith, words) in
      rw words (record {
        filled = λ a low high. all.filled a low (omega arith);
        other = λ a out. all.other a (ground (arith, exact));
      })
  | inr bytes ↦ rw bytes (stosb_lem dst c n mem)
]
