-- ===== src/Fs/Directory/Named.antt =====
-- dirlookup of src/fs.c with the test of an entry written out: its number and the text of its name.
use waka_b4_research.Base.{
  ℕ, ◌+◌, ◌*◌, ◌<◌, ◌^◌, ◌≡◌, ◌≢◌, ◌⊎◌, inl, inr, arith, true, false, Option, none, some, List, [],
  ◌∷◌, take, ◌==◌, Bool-cases, ◌%◌, Outcome, ok, on_ok,
}
use waka_b4_research.CString.Copy.{strncmp-text}
use waka_b4_research.Schedlog.Strings.{text}
use waka_b4_research.Schedlog.Strings
use waka_b4_research.Fs.{Super, Volume, block_size}
use waka_b4_research.Fs.Inode.{Inode}
use waka_b4_research.Fs.Bits.{AreBytes}
use waka_b4_research.Fs.Icache.{Icache, inode_at, iget}
use waka_b4_research.Fs.Content.Bytes.{block_of, byte_at}
use waka_b4_research.Fs.Directory.{is_entry, namecmp, dirlookup}
use waka_b4_research.Fs.Directory.Entries.{entry_at, IsDirectory, dirlookup_lem}

-- The number of an entry, low byte first.
abbrev pub entry_number : (ℕ → ℕ) → ℕ
entry_number e = e 0 + 2 ^ 8 * e 1

-- The 14 bytes of its name.
abbrev pub name_bytes : (ℕ → ℕ) → List ℕ
name_bytes e =
    e 2 ∷ e 3 ∷ e 4 ∷ e 5 ∷ e 6 ∷ e 7 ∷ e 8 ∷ e 9 ∷ e 10 ∷ e 11 ∷ e 12 ∷ e 13 ∷ e 14 ∷ e 15 ∷ []

-- The entry is in use and its name and `name` agree up to their ends or up to 14 bytes.
abbrev pub IsNamed : List ℕ → (ℕ → ℕ) → Type 0
IsNamed name e = (entry_number e ≢ 0) × (take 14 (text name) ≡ take 14 (text (name_bytes e)))

AreBytes-name_bytes : (e : ℕ → ℕ) → AreBytes e → Strings.AreBytes (name_bytes e)
AreBytes-name_bytes e h = (
  h 2,
  (
    h 3,
    (h 4, (h 5, (h 6, (h 7, (h 8, (h 9, (h 10, (h 11, (h 12, (h 13, (h 14, (h 15, tt)))))))))))),
  ),
)

byte_at-byte :
    (ip : Inode) (v : Volume) → ((b : ℕ) → AreBytes (v.block b)) → (x : ℕ) → byte_at ip v x < 256
byte_at-byte ip v h x = elim (Bool-cases (block_of ip v x == 0)) [
  | inl e ↦ rw e (omega arith)
  | inr e ↦ rw e (h (block_of ip v x) (x % block_size))
]

module _ (sb : Super) (name : List ℕ) (bytes : Strings.AreBytes name) where
  is_entry-true : (e : ℕ → ℕ) → AreBytes e → is_entry sb name e ≡ true → IsNamed name e
  unfolding namecmp
  is_entry-true e h is =
      let test = strncmp-text name (name_bytes e) 14 bytes (AreBytes-name_bytes e h) in
      (ground (arith, is), test.0 (ground (arith, is)))

  is_entry-false : (e : ℕ → ℕ) → AreBytes e → is_entry sb name e ≡ false → ¬ IsNamed name e
  unfolding namecmp
  is_entry-false e h isnt (used, same) =
      let test = strncmp-text name (name_bytes e) 14 bytes (AreBytes-name_bytes e h) in
      let zero = test.1 same in ground (arith, isnt, used, zero)

  -- How `dirlookup` in the directory `d` of `n` entries ends.
  abbrev pub NamedEnds : (d n : ℕ) → Icache → Outcome (Option (ℕ × ℕ) × Icache) → Type 0
  NamedEnds d n c r =
      let dp = inode_at c.inodes d in
      (((j : ℕ) → j < n → ¬ IsNamed name (entry_at dp c.volume j)) × (r ≡ ok (none, c)))
      ⊎ ((m : ℕ) × (m < n)
          × IsNamed name (entry_at dp c.volume m)
          × ((j : ℕ) → j < m → ¬ IsNamed name (entry_at dp c.volume j))
          × (r
              ≡ on_ok (iget dp.dev (entry_number (entry_at dp c.volume m)) c.inodes)
                  (λ (i, ips). ok (some (i, 16 * m), record c { inodes = ips }))))

  -- `dirlookup` of a string of bytes in a directory whose contents are whole entries, all in blocks of
  -- bytes: where no entry in use has the name it returns none and changes nothing. Otherwise it returns
  -- what iget gives for the number of the first entry in use that has it, with the offset of the entry.
  -- An entry is in use where the number in its first two bytes is not 0; it has the name where the
  -- texts of both, cut to 14 bytes, are the same.
  pub dirlookup-IsNamed :
      (de : ℕ → ℕ) (d : ℕ) (c : Icache)
      → ((b : ℕ) → AreBytes (c.volume.block b))
      → (dir : IsDirectory sb (inode_at c.inodes d) c.volume)
      → NamedEnds d dir.count c (dirlookup sb de name d c)
  dirlookup-IsNamed de d c blocks dir = elim (dirlookup_lem sb de name d c dir) [
    | inl (absent, run) ↦ inl (λ j lt. is_entry-false (entry j) (small j) (absent j lt), run)
    | inr (m, lt, is, before, run) ↦ inr (
      m,
      lt,
      is_entry-true (entry m) (small m) is,
      λ j below. is_entry-false (entry j) (small j) (before j below),
      run,
    )
  ]
    where
      entry : ℕ → ℕ → ℕ
      entry j = entry_at (inode_at c.inodes d) c.volume j

      small : (j : ℕ) → AreBytes (entry j)
      small j i = byte_at-byte (inode_at c.inodes d) c.volume blocks (16 * j + i)
