-- ===== src/Fs/Namex.antt =====
-- namex, namei and nameiparent of src/fs.c. The current directory of the process is a cached inode; the
-- array `name` is a list of its bytes.
pub mod Ends
use waka_b4_research.Base.{
  ℕ, zero, suc, ◌+◌, Bool, true, false, ◌&&◌, not, Option, none, some, List, [], ◌∷◌, ◌==◌,
  if◌then◌else◌, Outcome, ok, panic, spins, on_ok, length,
}
use waka_b4_research.Schedlog.{first}
use waka_b4_research.Paths.{skipelem}
use waka_b4_research.Fs.{Super}
use waka_b4_research.Fs.Inode.{t_dir}
use waka_b4_research.Fs.Icache.{Icache, inode_at, iget, idup, ilock, iunlock, iput, iunlockput}
use waka_b4_research.Fs.Directory.{dirlookup}

-- `ROOTDEV` and `ROOTINO`
abbrev pub root_dev : ℕ
root_dev = 1

abbrev pub root_ino : ℕ
root_ino = 1

-- The inode that the path leads to, the name, and the cache.
abbrev pub Walked : Type 0
Walked = Option ℕ × List ℕ × Icache

abbrev pub dropped : List ℕ → Outcome Icache → Outcome Walked
dropped name r = on_ok r (λ c. ok (none, name, c))

module _ (sb : Super) (me : ℕ) (de : ℕ → ℕ) (parent : Bool) where
  -- The end of the path.
  abbrev pub walked : ℕ → List ℕ → Icache → Outcome Walked
  walked i name c = if parent then dropped name (iput sb me i c) else ok (some i, name, c)

  -- The step to the inode `next`, which `later` goes on from.
  abbrev pub descend :
      ℕ → List ℕ → (ℕ → Icache → Outcome Walked) → Option (ℕ × ℕ) → Icache → Outcome Walked
  descend i name later none c = dropped name (iunlockput sb me i c)
  descend i name later (some (next, off)) c = on_ok (iunlockput sb me i c) (λ c'. later next c')

  -- The body of the loop, with the element in `name` and `path` behind it.
  unfoldable pub visit :
      ℕ → List ℕ → List ℕ → (ℕ → Icache → Outcome Walked) → Icache → Outcome Walked
  visit i path name later c = on_ok (ilock sb me i c) (λ c'.
      if not ((inode_at c'.inodes i).type == t_dir)
      then dropped name (iunlockput sb me i c')
      else if parent && first path == 0
      then on_ok (iunlock sb me i c') (λ c''. ok (some i, name, c''))
      else on_ok (dirlookup sb de name i c') (λ (found, c''). descend i name later found c''))

  -- The loop, on fuel.
  unfoldable pub walk_path : ℕ → List ℕ → List ℕ → ℕ → Icache → Outcome Walked
  unfolding visit
  walk_path zero path name i c = panic "out of fuel"
  walk_path (suc fuel) path name i c = elim (skipelem path name) [
    | none ↦ walked i name c
    | some (path', name') ↦ visit i path' name' (λ next c'. walk_path fuel path' name' next c') c
  ]

  abbrev pub walk_start : ℕ → List ℕ → Icache → Outcome (ℕ × Icache)
  walk_start cwd path c =
      if first path == b'/'
      then on_ok (iget root_dev root_ino c.inodes) (λ (i, ips). ok (i, record c { inodes = ips }))
      else ok (cwd, record c { inodes = idup cwd c.inodes })

  unfoldable pub namex : ℕ → List ℕ → List ℕ → Icache → Outcome Walked
  unfolding walk_path
  namex cwd path name c =
      on_ok (walk_start cwd path c) (λ (i, c'). walk_path (suc (length path)) path name i c')

abbrev pub namei : Super → ℕ → (ℕ → ℕ) → ℕ → List ℕ → List ℕ → Icache → Outcome Walked
namei sb me de cwd path name c = namex sb me de false cwd path name c

abbrev pub nameiparent : Super → ℕ → (ℕ → ℕ) → ℕ → List ℕ → List ℕ → Icache → Outcome Walked
nameiparent sb me de cwd path name c = namex sb me de true cwd path name c
