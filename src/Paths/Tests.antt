-- ===== src/Paths/Tests.antt =====
-- skipelem of src/fs.c on the examples of its comment.
use waka_b4_research.Base.{◌≡◌, refl, none, some, [], ◌∷◌, replicate}
use waka_b4_research.Paths.Elements.{Skipped, skipelem_lem}
use waka_b4_research.Paths.{skipelem, skip_slashes, element, skip_element, dir_size}

-- "///a//bb" gives "bb", and "a" in the name.
slashes :
    skipelem (b'/' ∷ b'/' ∷ b'/' ∷ b'a' ∷ b'/' ∷ b'/' ∷ b'b' ∷ b'b' ∷ []) (replicate dir_size 9)
    ≡ some (b'b' ∷ b'b' ∷ [], b'a' ∷ 0 ∷ replicate 12 9)
unfolding skipelem skip_slashes element skip_element
slashes = refl

only_slashes : skipelem (b'/' ∷ b'/' ∷ []) (replicate dir_size 9) ≡ none
unfolding skipelem skip_slashes
only_slashes = refl

skipelem_lem_example :
    Skipped
      (b'/' ∷ b'a' ∷ [])
      (replicate dir_size 9)
      (skipelem (b'/' ∷ b'a' ∷ []) (replicate dir_size 9))
skipelem_lem_example = skipelem_lem (b'/' ∷ b'a' ∷ []) (replicate dir_size 9) refl
