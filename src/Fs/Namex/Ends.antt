-- ===== src/Fs/Namex/Ends.antt =====
-- namex of src/fs.c against a walk over the parts of the path; each round shortens the path.
use waka_b4_research.Base.{
  ℕ, zero, suc, ◌<◌, ◌≤◌, ◌≡◌, ◌≢◌, inl, inr, refl, ◌∙◌, ap, arith, Bool, true, false, not, ◌&&◌,
  Option, none, some, List, [], ◌∷◌, ◌==◌, Bool-cases, if◌then◌else◌, length, Outcome, ok, on_ok,
  on_ok-on_ok,
}
use waka_b4_research.Schedlog.{first}
use waka_b4_research.Paths.{skip_slashes, skip_element, element, named, elem_from, skipelem}
use waka_b4_research.Paths.Elements.{
  parts, parts_after-element, starts_with_slash, Split, skipelem-Split,
}
use waka_b4_research.Fs.{Super}
use waka_b4_research.Fs.Inode.{t_dir}
use waka_b4_research.Fs.Icache.{Icache, inode_at, iget, idup, ilock, iunlock, iput, iunlockput}
use waka_b4_research.Fs.Directory.{dirlookup}
use waka_b4_research.Fs.Namex.{Walked, walk_path, walked, descend, visit, namex, root_dev, root_ino}

length-skip_slashes : (path : List ℕ) → length (skip_slashes path) ≤ length path
unfolding skip_slashes
length-skip_slashes [] = omega arith
length-skip_slashes (c ∷ cs) = ground (arith, length-skip_slashes cs)

length-skip_element : (path : List ℕ) → length (skip_element path) ≤ length path
unfolding skip_element
length-skip_element [] = omega arith
length-skip_element (c ∷ cs) = ground (arith, length-skip_element cs)

starts : List ℕ → Bool
starts [] = false
starts (c ∷ cs) = c == b'/'

starts-skip_slashes : (path : List ℕ) → starts (skip_slashes path) ≡ false
unfolding skip_slashes starts
starts-skip_slashes [] = refl
starts-skip_slashes (c ∷ cs) = ground (arith, starts-skip_slashes cs)

-- The path is shorter after an element.
abbrev Shorter : List ℕ → Option (List ℕ × List ℕ) → Type 0
Shorter path none = Unit
Shorter path (some (path', name')) = length path' < length path

shorter : (path name : List ℕ) → starts path ≡ false → Shorter path (elem_from path name)
unfolding starts skip_element
shorter [] name h = tt
shorter (c ∷ cs) name h =
    rw h (omega (arith, length-skip_slashes (skip_element cs), length-skip_element cs))

Shorter-le :
    (path path' : List ℕ) (r : Option (List ℕ × List ℕ))
    → length path ≤ length path'
    → Shorter path r
    → Shorter path' r
Shorter-le path path' none le h = tt
Shorter-le path path' (some (rest, name)) le h = omega (arith, le, h)

skipelem-Shorter : (path name : List ℕ) → Shorter path (skipelem path name)
unfolding skipelem
skipelem-Shorter path name =
    Shorter-le (skip_slashes path) path (elem_from (skip_slashes path) name)
      (length-skip_slashes path) (shorter (skip_slashes path) name (starts-skip_slashes path))

-- A path without the 0 at its end.
abbrev pub IsPath : List ℕ → Type 0
IsPath [] = Unit
IsPath (c ∷ cs) = (c ≢ 0) × IsPath cs

IsPath-skip_slashes : (path : List ℕ) → IsPath path → IsPath (skip_slashes path)
unfolding skip_slashes
IsPath-skip_slashes [] h = tt
IsPath-skip_slashes (c ∷ cs) h = elim (Bool-cases (c == b'/')) [
  | inl e ↦ rw e (IsPath-skip_slashes cs h.1)
  | inr e ↦ rw e h
]

IsPath-skip_element : (path : List ℕ) → IsPath path → IsPath (skip_element path)
unfolding skip_element
IsPath-skip_element [] h = tt
IsPath-skip_element (c ∷ cs) h = elim (Bool-cases (c == b'/')) [
  | inl e ↦ rw e h
  | inr e ↦ rw e (IsPath-skip_element cs h.1)
]

abbrev LeavesPath : Option (List ℕ × List ℕ) → Type 0
LeavesPath none = Unit
LeavesPath (some (path', name')) = IsPath path'

elem_from-LeavesPath : (s name : List ℕ) → IsPath s → LeavesPath (elem_from s name)
elem_from-LeavesPath [] name h = tt
elem_from-LeavesPath (c ∷ cs) name h =
    IsPath-skip_slashes (skip_element (c ∷ cs)) (IsPath-skip_element (c ∷ cs) h)

skipelem-LeavesPath : (path name : List ℕ) → IsPath path → LeavesPath (skipelem path name)
unfolding skipelem
skipelem-LeavesPath path name h =
    elem_from-LeavesPath (skip_slashes path) name (IsPath-skip_slashes path h)

abbrev pub has_no_parts : List (List ℕ) → Bool
has_no_parts [] = true
has_no_parts (e ∷ es) = false

-- Behind an element, the path is at its end just where it has no more parts.
at_end :
    (path : List ℕ)
    → IsPath path
    → starts_with_slash path ≡ false
    → (first path == 0) ≡ has_no_parts (parts path)
unfolding element
at_end [] h clear = refl
at_end (c ∷ cs) h clear =
    let more : (c == 0) ≡ false = ground (arith, h.0) in
    more ∙ rw (parts_after-element [] (c ∷ cs)) (rw clear refl)

first-slash : (path : List ℕ) → (first path == b'/') ≡ starts_with_slash path
first-slash [] = refl
first-slash (c ∷ cs) = refl

module _ (sb : Super) (me : ℕ) (de : ℕ → ℕ) (parent : Bool) where
  -- The inode that the parts of a path lead to from inode `i`, by recursion on the parts.
  abbrev pub resolve : List (List ℕ) → List ℕ → ℕ → Icache → Outcome Walked
  resolve [] name i c =
      if parent then on_ok (iput sb me i c) (λ c'. ok (none, name, c')) else ok (some i, name, c)
  resolve (e ∷ es) name i c = on_ok (ilock sb me i c) (λ c'.
      if not ((inode_at c'.inodes i).type == t_dir)
      then on_ok (iunlockput sb me i c') (λ c''. ok (none, named e name, c''))
      else if parent && has_no_parts es
      then on_ok (iunlock sb me i c') (λ c''. ok (some i, named e name, c''))
      else on_ok (dirlookup sb de (named e name) i c') (λ (found, c''). elim found [
        | none ↦ on_ok (iunlockput sb me i c'') (λ c3. ok (none, named e name, c3))
        | some (next, off) ↦
            on_ok (iunlockput sb me i c'') (λ c3. resolve es (named e name) next c3)
      ]))

  abbrev after : List ℕ → ℕ → Icache → ℕ → Option (List ℕ × List ℕ) → Outcome Walked
  after name i c fuel none = walked sb me de parent i name c
  after name i c fuel (some (path', name')) =
      visit sb me de parent i path' name'
        (λ next c'. walk_path sb me de parent fuel path' name' next c') c

  visit-resolve :
      (path e name : List ℕ) (i : ℕ) (c : Icache)
      → (first path == 0) ≡ has_no_parts (parts path)
      → visit sb me de parent i path (named e name) (resolve (parts path) (named e name)) c
        ≡ resolve (e ∷ parts path) name i c
  unfolding visit
  visit-resolve path e name i c end = rw end (λ t. on_ok {B = Walked} (ilock sb me i c) (λ c'.
      if not ((inode_at c'.inodes i).type == t_dir)
      then on_ok (iunlockput sb me i c') (λ c''. ok (none, named e name, c''))
      else if parent && has_no_parts (parts path)
      then on_ok (iunlock sb me i c') (λ c''. ok (some i, named e name, c''))
      else on_ok (dirlookup sb de (named e name) i c')
          (λ (found, c''). descend-cases (resolve (parts path) (named e name)) found c'' t)))
    where
      descend-cases :
          (later : ℕ → Icache → Outcome Walked) (found : Option (ℕ × ℕ)) (c2 : Icache)
          → descend sb me de parent i (named e name) later found c2 ≡ (elim found [
            | none ↦ on_ok (iunlockput sb me i c2) (λ c3. ok (none, named e name, c3))
            | some (next, off) ↦ on_ok (iunlockput sb me i c2) (λ c3. later next c3)
          ])
      descend-cases later none c2 = refl
      descend-cases later (some (next, off)) c2 = refl

  after-resolve :
      (fuel : ℕ) (path name : List ℕ) (i : ℕ) (c : Icache) (r : Option (List ℕ × List ℕ))
      → Split path name r
      → Shorter path r
      → LeavesPath r
      → ((path' name' : List ℕ) (next : ℕ) (c' : Icache)
          → length path' < length path
          → IsPath path'
          → walk_path sb me de parent fuel path' name' next c'
            ≡ resolve (parts path') name' next c')
      → after name i c fuel r ≡ resolve (parts path) name i c
  after-resolve fuel path name i c none split lt left later = rw split refl
  after-resolve fuel path name i c (some (path', name')) (e, split, same, clear) lt left later =
      (λ t. visit sb me de parent i path' name' (λ next c'. later path' name' next c' lt left t) c)
      ∙ rw (split, same) (visit-resolve path' e name i c (at_end path' left clear))

  walk_path-resolve :
      (fuel : ℕ) (path name : List ℕ) (i : ℕ) (c : Icache)
      → length path < fuel
      → IsPath path
      → walk_path sb me de parent fuel path name i c ≡ resolve (parts path) name i c
  unfolding walk_path
  walk_path-resolve zero path name i c enough h = absurd (omega arith)
  walk_path-resolve (suc fuel) path name i c enough h =
      after-resolve fuel path name i c (skipelem path name) (skipelem-Split path name)
        (skipelem-Shorter path name) (skipelem-LeavesPath path name h)
        (λ path' name' next c' lt h'. walk_path-resolve fuel path' name' next c' (omega arith) h')

  -- Where `namex` starts: at the root, or at the current directory.
  abbrev pub resolve_path : ℕ → List ℕ → List ℕ → Icache → Outcome Walked
  resolve_path cwd path name c =
      if starts_with_slash path
      then on_ok (iget 1 1 c.inodes)
          (λ (i, ips). resolve (parts path) name i (record c { inodes = ips }))
      else resolve (parts path) name cwd (record c { inodes = idup cwd c.inodes })

  -- `namex` of a path is the walk over the parts of the path between its slashes, by recursion on
  -- these parts and without fuel, from inode 1 of device 1 if the path starts with a slash and from
  -- the current directory otherwise. Each part is looked up in the locked inode reached so far, which
  -- is released behind it; the walk gives none at an inode that is no directory or a part that is
  -- not there, stops with the inode unlocked at the last part when asked for the parent, and gives
  -- none for the parent of a path without parts.
  pub namex-resolve :
      (cwd : ℕ) (path name : List ℕ) (c : Icache)
      → IsPath path
      → namex sb me de parent cwd path name c ≡ resolve_path cwd path name c
  unfolding namex
  namex-resolve cwd path name c h =
      ap (λ slash. start slash) (first-slash path) ∙ started (starts_with_slash path)
    where
      start : Bool → Outcome Walked
      start slash =
          on_ok {B = Walked}
            (if slash
              then on_ok {B = ℕ × Icache} (iget root_dev root_ino c.inodes)
                  (λ (i, ips). ok (i, record c { inodes = ips }))
              else ok (cwd, record c { inodes = idup cwd c.inodes }))
            (λ (i, c'). walk_path sb me de parent (suc (length path)) path name i c')

      walk :
          (i : ℕ) (c' : Icache)
          → walk_path sb me de parent (suc (length path)) path name i c'
            ≡ resolve (parts path) name i c'
      walk i c' = walk_path-resolve (suc (length path)) path name i c' (omega arith) h

      started :
          (slash : Bool)
          → start slash ≡ (
              if slash
              then on_ok {B = Walked}
                  (iget 1 1 c.inodes)
                  (λ (i, ips). resolve (parts path) name i (record c { inodes = ips }))
              else resolve (parts path) name cwd (record c { inodes = idup cwd c.inodes }))
      started false = walk cwd (record c { inodes = idup cwd c.inodes })
      started true =
          on_ok-on_ok {B = ℕ × Icache} (iget 1 1 c.inodes)
            (λ (i, ips). ok (i, record c { inodes = ips }))
            (λ (i, c'). walk_path sb me de parent (suc (length path)) path name i c')
          ∙ (λ t.
              on_ok {B = Walked} (iget 1 1 c.inodes)
                (λ (i, ips). walk i (record c { inodes = ips }) t))
