-- ===== src/Fs/Directory.antt =====
-- dirlookup and dirlink of src/fs.c. A directory is a file of entries of 16 bytes; the local entry `de`
-- is memory from address 0 on, with what the stack had before. The directory is a cached inode that the
-- caller has locked.
pub mod Entries
pub mod Named
pub mod Free
pub mod Link
pub mod Linked
use waka_b4_research.Base.{
  ℕ, zero, suc, ◌+◌, ◌-◌, ◌*◌, Bool, true, false, ◌&&◌, not, Option, none, some, List, [], ◌∷◌,
  ◌==◌, ltb, leb, if◌then◌else◌, Outcome, ok, panic, spins, on_ok, add_word, minus_one, get_or,
}
use waka_b4_research.CString.{strncmp, strncpy}
use waka_b4_research.Paths.{dir_size}
use waka_b4_research.Fs.{Super, Volume}
use waka_b4_research.Fs.Inode.{Inode, t_dir, load_half, store_half}
use waka_b4_research.Fs.Content.{readi, writei}
use waka_b4_research.Fs.Icache.{Icache, inode_at, put_inode, iget, iput}

-- `sizeof(struct dirent)`
abbrev pub entry_size : ℕ
entry_size = 16

abbrev pub load_bytes : (ℕ → ℕ) → ℕ → ℕ → List ℕ
load_bytes x a zero = []
load_bytes x a (suc n) = x a ∷ load_bytes x (a + 1) n

-- `de.inum` and `de.name`
abbrev pub entry_inum : (ℕ → ℕ) → ℕ
entry_inum de = load_half de 0

abbrev pub entry_name : (ℕ → ℕ) → List ℕ
entry_name de = load_bytes de 2 dir_size

unfoldable pub namecmp : List ℕ → List ℕ → ℕ
namecmp s t = strncmp s t dir_size

-- `de` with the name and the number.
abbrev pub put_entry : List ℕ → ℕ → (ℕ → ℕ) → ℕ → ℕ
put_entry name inum de =
    let copied = strncpy (entry_name de) name dir_size in
    store_half 0 inum (λ i. if leb 2 i && ltb i entry_size then get_or copied (i - 2) 0 else de i)

module _ (sb : Super) where
  -- The entry is in use and has the name.
  abbrev pub is_entry : List ℕ → (ℕ → ℕ) → Bool
  is_entry name de = not (entry_inum de == 0) && namecmp name (entry_name de) == 0

  -- The loop of `dirlookup` from offset `off` on, on fuel: the offset and the number of an inode.
  unfoldable pub find_entry :
      ℕ → List ℕ → ℕ → Inode → Volume → (ℕ → ℕ) → Outcome (Option (ℕ × ℕ) × Inode × Volume)
  find_entry zero name off dp v de = panic "out of fuel"
  find_entry (suc fuel) name off dp v de =
      let round = on_ok (readi sb none 0 off entry_size dp v de) (λ (r, dp', v', de').
        let later = find_entry fuel name (add_word off entry_size) dp' v' de' in
        if not (r == entry_size)
        then panic "dirlookup read"
        else if is_entry name de'
        then ok (some (off, entry_inum de'), dp', v')
        else later) in
      if ltb off dp.size then round else ok (none, dp, v)

  abbrev pub get_entry : ℕ → Option (ℕ × ℕ) → Icache → Outcome (Option (ℕ × ℕ) × Icache)
  get_entry dev none c = ok (none, c)
  get_entry dev (some (off, inum)) c =
      on_ok (iget dev inum c.inodes) (λ (i, ips). ok (some (i, off), record c { inodes = ips }))

  -- The inode and the offset of its entry.
  unfoldable pub dirlookup : (ℕ → ℕ) → List ℕ → ℕ → Icache → Outcome (Option (ℕ × ℕ) × Icache)
  unfolding find_entry
  dirlookup de name d c =
      let dp = inode_at c.inodes d in
      if not (dp.type == t_dir)
      then panic "dirlookup not DIR"
      else on_ok (find_entry (suc dp.size) name 0 dp c.volume de)
          (λ (found, dp', v'). get_entry dp.dev found (put_inode d dp' (record c { volume = v' })))

  -- The loop of `dirlink`: the offset of the first free entry, or the size.
  unfoldable pub find_free_entry :
      ℕ → ℕ → Inode → Volume → (ℕ → ℕ) → Outcome (ℕ × Inode × Volume × (ℕ → ℕ))
  find_free_entry zero off dp v de = panic "out of fuel"
  find_free_entry (suc fuel) off dp v de =
      let round = on_ok (readi sb none 0 off entry_size dp v de) (λ (r, dp', v', de').
        let later = find_free_entry fuel (add_word off entry_size) dp' v' de' in
        if not (r == entry_size)
        then panic "dirlink read"
        else if entry_inum de' == 0
        then ok (off, dp', v', de')
        else later) in
      if ltb off dp.size then round else ok (off, dp, v, de)

  abbrev pub write_entry : List ℕ → ℕ → ℕ → Inode → Volume → (ℕ → ℕ) → Outcome (Inode × Volume)
  write_entry name inum off dp v de =
      on_ok (writei sb none 0 off entry_size dp v (put_entry name inum de))
        (λ (r, dp', v'). if not (r == entry_size) then panic "dirlink" else ok (dp', v'))

  abbrev pub add_entry : List ℕ → ℕ → Inode → Volume → (ℕ → ℕ) → Outcome (Inode × Volume)
  add_entry name inum dp v de =
      on_ok (find_free_entry (suc dp.size) 0 dp v de)
        (λ (off, dp', v', de'). write_entry name inum off dp' v' de')

  module _ (me : ℕ) (de : ℕ → ℕ) (name : List ℕ) (inum d : ℕ) where
    abbrev pub link_unless : Option (ℕ × ℕ) → Icache → Outcome (ℕ × Icache)
    link_unless (some (i, off)) c = on_ok (iput sb me i c) (λ c'. ok (minus_one, c'))
    link_unless none c =
        on_ok (add_entry name inum (inode_at c.inodes d) c.volume de)
          (λ (dp', v'). ok (0, put_inode d dp' (record c { volume = v' })))

    unfoldable pub dirlink : Icache → Outcome (ℕ × Icache)
    unfolding dirlookup find_free_entry
    dirlink c = on_ok (dirlookup de name d c) (λ (found, c'). link_unless found c')
