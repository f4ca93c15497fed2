-- ===== src/Paths.antt =====
-- src/fs.c: the elements of a path. A path is its bytes before the 0; a name is an array of DIRSIZ
-- bytes.
pub mod Elements
mod Tests
use waka_b4_research.Base.{
  ℕ, suc, Option, none, some, List, [], ◌∷◌, ◌++◌, ◌==◌, leb, if◌then◌else◌, length, take, drop,
}

abbrev pub dir_size : ℕ
dir_size = 14

-- `while (*path == '/') path++;`
unfoldable pub skip_slashes : List ℕ → List ℕ
skip_slashes [] = []
skip_slashes (c ∷ cs) = let later = skip_slashes cs in if c == b'/' then later else c ∷ cs

-- `while (*path != '/' && *path != 0) path++;`: what is passed, and what is left.
unfoldable pub element : List ℕ → List ℕ
element [] = []
element (c ∷ cs) = let later = element cs in if c == b'/' then [] else c ∷ later

unfoldable pub skip_element : List ℕ → List ℕ
skip_element [] = []
skip_element (c ∷ cs) = let later = skip_element cs in if c == b'/' then c ∷ cs else later

-- The copy of the element to `name`, which has no 0 where the element fills it.
abbrev pub named : List ℕ → List ℕ → List ℕ
named s name =
    if leb dir_size (length s)
    then take dir_size s ++ drop dir_size name
    else s ++ 0 ∷ drop (suc (length s)) name

abbrev pub elem_from : List ℕ → List ℕ → Option (List ℕ × List ℕ)
elem_from [] name = none
elem_from (c ∷ cs) name = some (skip_slashes (skip_element (c ∷ cs)), named (element (c ∷ cs)) name)

-- The rest of the path, and the name.
unfoldable pub skipelem : List ℕ → List ℕ → Option (List ℕ × List ℕ)
unfolding skip_slashes element skip_element
skipelem path name = elem_from (skip_slashes path) name
