-- ===== src/CString/Tests.antt =====
-- Runs of the functions of src/string.c on concrete strings and memory.
use waka_b4_research.Base.{◌*◌, ◌≡◌, refl, [], ◌∷◌}
use waka_b4_research.CString.{safestrcpy, copy_to_end}
use waka_b4_research.CString.Moves.{IsMoved, memmove, memmove_lem, memset, stosl, stosb}

-- "initcode" into six bytes.
cut_copy :
    safestrcpy
      (9 ∷ 9 ∷ 9 ∷ 9 ∷ 9 ∷ 9 ∷ [])
      (b'i' ∷ b'n' ∷ b'i' ∷ b't' ∷ b'c' ∷ b'o' ∷ b'd' ∷ b'e' ∷ 0 ∷ [])
      6
    ≡ b'i' ∷ b'n' ∷ b'i' ∷ b't' ∷ b'c' ∷ 0 ∷ []
unfolding safestrcpy copy_to_end
cut_copy = refl

-- By words, the last byte of the block.
set_words : memset 4 257 8 (λ _. 9) 11 ≡ 1
unfolding memset stosl stosb
set_words = refl

-- Two blocks that overlap.
memmove_lem_example : IsMoved 3 1 4 (λ a. a * 10) (memmove 3 1 4 (λ a. a * 10))
memmove_lem_example = memmove_lem 3 1 4 (λ a. a * 10)
