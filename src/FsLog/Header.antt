-- ===== src/FsLog/Header.antt =====
-- The header block of the log of src/log.c: what `write_head` writes, `read_head` reads back.
use waka_b4_research.Base.{
  ℕ, zero, suc, ◌≤◌, ◌<◌, ◌≡◌, refl, ap, List, [], ◌∷◌, arith, length, take, replicate, ◌∙◌,
}
use waka_b4_research.FsLog.{Block, logsize, first_word, words_after, copy_words, set_header}

pub take-copy_words :
    (n : ℕ) (src dst : List ℕ)
    → n ≤ length src
    → n ≤ length dst
    → take n (copy_words n src dst) ≡ take n src
unfolding copy_words
take-copy_words zero src dst h k = refl
take-copy_words (suc n) [] dst h k = elim h [ ]
take-copy_words (suc n) (x ∷ src) [] h k = elim k [ ]
take-copy_words (suc n) (x ∷ src) (y ∷ dst) h k =
    ap (λ ws. x ∷ ws) (take-copy_words n src dst (omega arith) (omega arith))

pub length-copy_words : (n : ℕ) (src dst : List ℕ) → length (copy_words n src dst) ≡ length dst
unfolding copy_words
length-copy_words zero src dst = refl
length-copy_words (suc n) [] dst = refl
length-copy_words (suc n) (x ∷ src) [] = refl
length-copy_words (suc n) (x ∷ src) (y ∷ dst) = ap suc (length-copy_words n src dst)

-- The blocks that a kernel reads from a header after a reboot.
abbrev pub listed_in : Block → List ℕ
listed_in h = take (first_word h) (copy_words (first_word h) (words_after h) (replicate logsize 0))

pub first_word-set_header : (block : List ℕ) (h : Block) → first_word (set_header 0 block h) ≡ 0
first_word-set_header block [] = refl
first_word-set_header block (w ∷ ws) = refl

pub listed_in-empty : (h : Block) → first_word h ≡ 0 → listed_in h ≡ []
listed_in-empty h e = ap (λ (n : ℕ). take n (copy_words n (words_after h) (replicate logsize 0))) e

pub listed_in-set_header :
    (n : ℕ) (block : List ℕ) (h : Block)
    → n ≤ logsize
    → n ≤ length block
    → n < length h
    → listed_in (set_header n block h) ≡ take n block
listed_in-set_header n block [] p q r = absurd (omega arith)
listed_in-set_header n block (w ∷ ws) p q r =
    take-copy_words n (copy_words n block ws) (replicate logsize 0)
      (omega (arith, length-copy_words n block ws)) (omega arith)
    ∙ take-copy_words n block ws q (omega arith)
