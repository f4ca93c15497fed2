-- ===== src/Fs/Directory/Linked.antt =====
-- dirlink of src/fs.c as a whole, and dirlookup after it.
use waka_b4_research.Base.{
  ℕ, suc, ◌+◌, ◌*◌, ◌^◌, ◌<◌, ◌≤◌, ◌≡◌, ◌≢◌, ◌⊎◌, refl, ap, ◌∙◌, arith, true, false, none, some,
  List, ◌==◌, Bool-cases, inl, inr, Outcome, ok, panic, spins, on_ok, on_ok-on_ok, minus_one,
  length, set, get_or-set_self,
}
use waka_b4_research.Fs.{Super, Volume}
use waka_b4_research.Fs.Bits.{AreBytes}
use waka_b4_research.Fs.Inode.{Inode, t_dev, max_bytes_of_file}
use waka_b4_research.Fs.Inode.Slots.{IsFile}
use waka_b4_research.Fs.Content.{writei}
use waka_b4_research.Fs.Content.Bytes.{block_of}
use waka_b4_research.Fs.Content.Grown.{writei_lem}
use waka_b4_research.Fs.Icache.{Icache, inode_at, put_inode, no_inode, iget, iput}
use waka_b4_research.Fs.Directory.{
  entry_size, entry_inum, put_entry, is_entry, find_free_entry, write_entry, add_entry, link_unless,
  dirlookup, dirlink,
}
use waka_b4_research.Fs.Directory.Entries.{entry_at, is_entry-same, IsDirectory, dirlookup_lem}
use waka_b4_research.Fs.Directory.Free.{IsText, put_entry-AreBytes}
use waka_b4_research.Fs.Directory.Link.{
  IsFirstFree, FreeEnds, find_free_entry_lem, IsLinked, AddEnds, written_ends,
}

module _ (sb : Super) (name : List ℕ) (inum : ℕ) (text : IsText name) (half : inum < 2 ^ 16)
    (pos : inum ≢ 0) where
  module _ (dp : Inode) (v : Volume) (dir : IsDirectory sb dp v) (file : IsFile sb dp v)
      (known : dp.inum < sb.ninodes) where
    abbrev AddedFirst : Outcome (Inode × Volume) → Type 0
    AddedFirst r =
        (m : ℕ) × IsFirstFree sb dp v dir m
        × AddEnds sb name inum text half pos dp v dir file known m r

    write_entry_lem :
        (m : ℕ) (de : ℕ → ℕ)
        → m ≤ dir.count
        → AreBytes de
        → AddEnds sb name inum text half pos dp v dir file known m
            (write_entry sb name inum (entry_size * m) dp v de)
    write_entry_lem m de le bytes =
        let plain : dp.type ≢ t_dev = λ e. omega (arith, dir.type) in
        written_ends sb name inum text half pos dp v dir file known m de
          (writei sb none 0 (entry_size * m) entry_size dp v (put_entry name inum de)) le
          (writei_lem sb none 0 (entry_size * m) entry_size dp v (put_entry name inum de) plain file
            dir.dense known (put_entry-AreBytes name inum de text bytes)
            (omega (arith, dir.whole, dir.dense.small)) (omega arith))

    added :
        (r : Outcome (ℕ × Inode × Volume × (ℕ → ℕ)))
        → FreeEnds sb dp v dir r
        → AddedFirst (on_ok r (λ (off, dp', v', de'). write_entry sb name inum off dp' v' de'))
    added r (m, de', first, bytes, run) = rw run (m, first, write_entry_lem m de' first.0 bytes)

    add_entry_lem : (de : ℕ → ℕ) → AreBytes de → AddedFirst (add_entry sb name inum dp v de)
    add_entry_lem de bytes = added (find_free_entry sb (suc dp.size) 0 dp v de) (
        find_free_entry_lem sb dp v dir file (suc dp.size) 0 de (omega (arith, dir.whole))
          (omega arith) (λ j lt. absurd (omega arith)) bytes)

  module _ (me : ℕ) (d : ℕ) (c : Icache) (inside : d < length c.inodes)
      (dir : IsDirectory sb (inode_at c.inodes d) c.volume)
      (file : IsFile sb (inode_at c.inodes d) c.volume)
      (known : (inode_at c.inodes d).inum < sb.ninodes) where
    -- How `dirlink` of a name that is not there ends.
    abbrev pub LinkEnds : Outcome (ℕ × Icache) → Type 0
    LinkEnds (ok (r, c')) =
        (r ≡ 0)
        × ((m : ℕ) × IsFirstFree sb (inode_at c.inodes d) c.volume dir m
            × IsLinked sb name inum m (inode_at c.inodes d) c.volume (inode_at c'.inodes d)
                c'.volume
            × (c' ≡ put_inode d (inode_at c'.inodes d) (record c { volume = c'.volume })))
    LinkEnds (panic _) =
        (m : ℕ) × IsFirstFree sb (inode_at c.inodes d) c.volume dir m
        × ((max_bytes_of_file < entry_size * m + entry_size)
            ⊎ ((x : ℕ) × (entry_size * m ≤ x)
                × (x < entry_size * m + entry_size)
                × (block_of (inode_at c.inodes d) c.volume x ≡ 0)))
    LinkEnds spins = ⊥

    link_ends :
        (r : Outcome (Inode × Volume))
        → AddedFirst (inode_at c.inodes d) c.volume dir file known r
        → LinkEnds (on_ok r (λ (dp', v'). ok (0, put_inode d dp' (record c { volume = v' }))))
    link_ends (ok (dp', w)) (m, first, linked) =
        let back : inode_at (set c.inodes d dp') d ≡ dp' =
          get_or-set_self c.inodes d dp' no_inode inside in
        (refl, (m, first, rw back linked, rw back refl))
    link_ends (panic _) (m, first, h) = (m, first, h)
    link_ends spins (m, first, h) = h

    -- `dirlink` into a directory whose contents are whole entries, all in blocks that are its own, of a
    -- name and an inode number that is not 0 and fits an entry. Where an entry in use has the name, it
    -- takes and drops a reference to such an entry's inode, and then returns -1. Otherwise it takes the first
    -- free entry, or the one behind the last, and panics only if this is past the largest file or in no
    -- block yet; else it returns 0, the entry has the number and the name, no other entry changes, the
    -- directory is whole again, and of the cache only the directory's size and addresses change.
    pub dirlink_lem :
        (de : ℕ → ℕ)
        → AreBytes de
        → (((j : ℕ)
              → j < dir.count
              → is_entry sb name (entry_at (inode_at c.inodes d) c.volume j) ≡ false)
            × LinkEnds (dirlink sb me de name inum d c))
          ⊎ ((m : ℕ) × (m < dir.count)
              × (is_entry sb name (entry_at (inode_at c.inodes d) c.volume m) ≡ true)
              × (dirlink sb me de name inum d c
                  ≡ on_ok
                      (iget
                        (inode_at c.inodes d).dev
                        (entry_inum (entry_at (inode_at c.inodes d) c.volume m))
                        c.inodes)
                      (λ (i, ips).
                        on_ok
                          (iput sb me i (record c { inodes = ips }))
                          (λ c'. ok (minus_one, c')))))
    unfolding dirlink
    dirlink_lem de bytes = elim (dirlookup_lem sb de name d c dir) [
      | inl (absent, run) ↦ inl (
        absent,
        rw run (
            link_ends (add_entry sb name inum (inode_at c.inodes d) c.volume de)
              (add_entry_lem (inode_at c.inodes d) c.volume dir file known de bytes)),
      )
      | inr (m, lt, is, before, run) ↦ inr (
        m,
        lt,
        is,
        rw run (
            on_ok-on_ok
              (iget (inode_at c.inodes d).dev
                (entry_inum (entry_at (inode_at c.inodes d) c.volume m)) c.inodes)
              (λ (i, ips). ok (some (i, entry_size * m), record c { inodes = ips }))
              (λ (found, c'). link_unless sb me de name inum d found c')),
      )
    ]

    -- What `dirlookup` of the name gives after `dirlink`.
    abbrev pub FoundAfter : Outcome (ℕ × Icache) → Type 0
    FoundAfter (ok (r, c')) =
        (r ≡ 0)
        × ((m : ℕ) × ((de : ℕ → ℕ)
              → dirlookup sb de name d c'
                ≡ on_ok (iget (inode_at c.inodes d).dev inum c'.inodes)
                    (λ (i, ips). ok (some (i, entry_size * m), record c' { inodes = ips }))))
    FoundAfter (panic _) =
        (m : ℕ) × IsFirstFree sb (inode_at c.inodes d) c.volume dir m
        × ((max_bytes_of_file < entry_size * m + entry_size)
            ⊎ ((x : ℕ) × (entry_size * m ≤ x)
                × (x < entry_size * m + entry_size)
                × (block_of (inode_at c.inodes d) c.volume x ≡ 0)))
    FoundAfter spins = ⊥

    module _
        (absent : (j : ℕ)
          → j < dir.count
          → is_entry sb name (entry_at (inode_at c.inodes d) c.volume j) ≡ false) where
      only_linked :
          (m k : ℕ) (c' : Icache)
          → (linked : IsLinked sb name inum m
              (inode_at c.inodes d)
              c.volume
              (inode_at c'.inodes d)
              c'.volume)
          → k < linked.directory.count
          → is_entry sb name (entry_at (inode_at c'.inodes d) c'.volume k) ≡ true
          → k ≡ m
      only_linked m k c' linked lt is = elim (Bool-cases (k == m)) [
        | inl e ↦ ground arith
        | inr e ↦
            let (old, same) = linked.others k lt (λ z. ground arith) in
            let no = absent k (omega (arith, dir.whole)) in
            let yes' =
              is_entry-same sb name (entry_at (inode_at c'.inodes d) c'.volume k)
                (entry_at (inode_at c.inodes d) c.volume k) same in
            absurd (cc)
      ]

      found_linked :
          (m : ℕ) (c' : Icache) (de : ℕ → ℕ)
          → IsLinked sb name inum m (inode_at c.inodes d) c.volume (inode_at c'.inodes d) c'.volume
          → dirlookup sb de name d c'
            ≡ on_ok
                (iget (inode_at c.inodes d).dev inum c'.inodes)
                (λ (i, ips). ok (some (i, entry_size * m), record c' { inodes = ips }))
      found_linked m c' de linked = elim (dirlookup_lem sb de name d c' linked.directory) [
        | inl (none_is, run) ↦ absurd (ground (arith, none_is m linked.inside, linked.named))
        | inr (k, lt, is, before, run) ↦
            let here = only_linked m k c' linked lt is in
            let dev = ap (λ (i : Inode). i.dev) linked.same in
            let number =
              ap (λ j. entry_inum (entry_at (inode_at c'.inodes d) c'.volume j)) here
              ∙ linked.number in
            run ∙ rw (number, dev, here) refl
      ]

      found_after : (r : Outcome (ℕ × Icache)) → LinkEnds r → FoundAfter r
      found_after (ok (r, c')) (e, (m, first, linked, cache)) =
          (e, (m, λ de. found_linked m c' de linked))
      found_after (panic _) h = h
      found_after spins h = h

      -- `dirlink` of a name that no entry in use has, with an inode number that is not 0 and fits an entry,
      -- into a directory whose contents are whole entries, all in blocks that are its own, with the log taking its
      -- blocks, panics only if
      -- the first free entry is past the largest file or in no block yet. Otherwise it returns 0, and `dirlookup`
      -- of the name in that directory then returns the inode with the number, as iget gives it.
      pub dirlookup-dirlink :
          (de : ℕ → ℕ) → AreBytes de → FoundAfter (dirlink sb me de name inum d c)
      dirlookup-dirlink de bytes = elim (dirlink_lem de bytes) [
        | inl (_, ends) ↦ found_after (dirlink sb me de name inum d c) ends
        | inr (m, lt, is, run) ↦ absurd (ground (arith, absent m lt, is))
      ]
