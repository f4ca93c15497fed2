-- ===== src/Fs/Directory/Link.antt =====
-- dirlink of src/fs.c: the new entry, and what dirlookup gives after it.
use Prim.Native.Nat.{max}
use waka_b4_research.Base.{
  ℕ, zero, suc, ◌+◌, ◌-◌, ◌*◌, ◌%◌, ◌^◌, ◌<◌, ◌≤◌, ◌≡◌, ◌≢◌, ◌⊎◌, refl, ap, ◌∙◌, arith, true, false,
  ◌&&◌, not, List, ◌==◌, ltb, leb, if◌then◌else◌, Bool-cases, inl, inr, Outcome, ok, panic, spins,
  on_ok, add_word,
}
use waka_b4_research.Fs.{Super, Volume}
use waka_b4_research.Fs.Bits.{AreBytes}
use waka_b4_research.Fs.Inode.{Inode, max_bytes_of_file}
use waka_b4_research.Fs.Inode.Slots.{IsFile}
use waka_b4_research.Fs.Content.Bytes.{block_of}
use waka_b4_research.Fs.Content.Grown.{IsUpdated, WriteiEnds}
use waka_b4_research.Fs.Content.Read.{IsRead}
use waka_b4_research.Fs.Directory.{entry_size, entry_inum, put_entry, is_entry, find_free_entry}
use waka_b4_research.Fs.Directory.Entries.{
  entry_at, AreSame, entry_inum-same, is_entry-same, IsDirectory, readi-entry,
}
use waka_b4_research.Fs.Directory.Free.{IsText, entry_inum-put_entry, is_entry-put_entry}

module _ (sb : Super) where
  module _ (dp : Inode) (v : Volume) (dir : IsDirectory sb dp v) where
    -- No entry before `m` is free, and `m` is free or behind the last.
    abbrev pub IsFirstFree : ℕ → Type 0
    IsFirstFree m =
        (m ≤ dir.count)
        × ((j : ℕ) → j < m → entry_inum (entry_at dp v j) ≢ 0)
        × ((m ≡ dir.count) ⊎ (entry_inum (entry_at dp v m) ≡ 0))

    read-AreBytes :
        IsFile sb dp v
        → (k : ℕ) (de de' : ℕ → ℕ) → IsRead dp v (entry_size * k) entry_size 0 de de'
        → AreBytes de
        → AreBytes de'
    read-AreBytes file k de de' read bytes x =
        let here =
          file.volume.bytes (block_of dp v (entry_size * k + (x - 0)))
            ((entry_size * k + (x - 0)) % 512) in
        let kept = bytes x in let at = read x in ground arith

    abbrev pub FreeEnds : Outcome (ℕ × Inode × Volume × (ℕ → ℕ)) → Type 0
    FreeEnds r =
        (m : ℕ) × (de' : ℕ → ℕ) × IsFirstFree m
        × AreBytes de'
        × (r ≡ ok (entry_size * m, dp, v, de'))

    pub find_free_entry_lem :
        IsFile sb dp v
        → (fuel k : ℕ) (de : ℕ → ℕ) → dir.count < fuel + k
        → k ≤ dir.count
        → ((j : ℕ) → j < k → entry_inum (entry_at dp v j) ≢ 0)
        → AreBytes de
        → FreeEnds (find_free_entry sb fuel (entry_size * k) dp v de)
    unfolding find_free_entry
    find_free_entry_lem file zero k de enough le used bytes = absurd (omega arith)
    find_free_entry_lem file (suc fuel) k de enough le used bytes =
        elim (Bool-cases (ltb (entry_size * k) dp.size)) [
          | inr e ↦ (k, de, (le, used, inl (ground (arith, dir.whole))), bytes, rw e refl)
          | inl e ↦
              let inside : entry_size * k < dp.size = ground arith in
              let (de', run, same, read) = readi-entry sb dp v dir k de inside in
              let next : add_word (entry_size * k) entry_size ≡ entry_size * (k + 1) =
                omega (arith, dir.dense.small, dir.whole) in
              let number = entry_inum-same de' (entry_at dp v k) same in
              let bytes' = read-AreBytes file k de de' read bytes in
              elim (Bool-cases (entry_inum (entry_at dp v k) == 0)) [
                | inl free ↦ (
                  k,
                  de',
                  (le, used, inr (ground (arith, free))),
                  bytes',
                  rw (e, run, number, free) refl,
                )
                | inr other ↦
                    rw (e, run, number, other, next)
                      (find_free_entry_lem file fuel (k + 1) de' (omega arith)
                        (ground (arith, dir.whole))
                        (λ j lt. elim (Bool-cases (j == k)) [
                          | inl here ↦
                              let e : j ≡ k = ground arith in rw e (λ z. ground (arith, other))
                          | inr far ↦ used j (ground (arith, far))
                        ])
                        bytes')
              ]
        ]

  -- The directory with the entry `m` written.
  pub record IsLinked (name : List ℕ) (inum m : ℕ) (dp : Inode) (v : Volume) (dp' : Inode)
      (v' : Volume) : Type 0 where
    pub same : dp' ≡ record dp { addrs = dp'.addrs; size = dp'.size }
    pub file : IsFile sb dp' v'
    pub directory : IsDirectory sb dp' v'
    pub inside : m < directory.count
    pub number : entry_inum (entry_at dp' v' m) ≡ inum
    pub named : is_entry sb name (entry_at dp' v' m) ≡ true
    pub others :
        (j : ℕ)
        → j < directory.count
        → j ≢ m
        → (entry_size * j < dp.size) × AreSame (entry_at dp' v' j) (entry_at dp v j)

  module _ (name : List ℕ) (inum : ℕ) (text : IsText name) (half : inum < 2 ^ 16) (pos : inum ≢ 0)
      (dp : Inode) (v : Volume) (dir : IsDirectory sb dp v) (file : IsFile sb dp v)
      (known : dp.inum < sb.ninodes) where
    updated-IsLinked :
        (m : ℕ) (de : ℕ → ℕ) (dp' : Inode) (v' : Volume)
        → m ≤ dir.count
        → entry_size * m + entry_size ≤ max_bytes_of_file
        → IsUpdated sb (entry_size * m) entry_size 0 (put_entry name inum de) dp v dp' v'
        → IsLinked name inum m dp v dp' v'
    updated-IsLinked m de dp' v' le fits u =
        let count = max dir.count (m + 1) in
        let whole : dp'.size ≡ entry_size * count = omega (arith, u.size, dir.whole) in
        let written : AreSame (entry_at dp' v' m) (put_entry name inum de) = λ i lt.
          let within : (leb (entry_size * m) (entry_size * m + i)
                && ltb (entry_size * m + i) (entry_size * m + entry_size))
              ≡ true =
            ground arith in
          let index : 0 + (entry_size * m + i - entry_size * m) ≡ i = omega arith in
          u.bytes (entry_size * m + i) (omega arith)
          ∙ rw within (ap (put_entry name inum de) index) in
        record {
          same = u.same;
          file = u.file;
          directory = record {
            type = ap (λ (i : Inode). i.type) u.same ∙ dir.type;
            dense = u.dense;
            count = count;
            whole = whole;
          };
          inside = omega arith;
          number =
              entry_inum-same (entry_at dp' v' m) (put_entry name inum de) written
              ∙ entry_inum-put_entry name inum de half;
          named =
              is_entry-same sb name (entry_at dp' v' m) (put_entry name inum de) written
              ∙ is_entry-put_entry name inum de sb half pos;
          others = λ j lt far. (
            omega (arith, dir.whole),
            λ i small.
                let without : (leb (entry_size * m) (entry_size * j + i)
                      && ltb (entry_size * j + i) (entry_size * m + entry_size))
                    ≡ false =
                  ground (arith, far) in
                u.bytes (entry_size * j + i) (omega (arith, u.dense.small)) ∙ rw without refl,
          );
        }

    -- How the writing of the entry `m` ends.
    abbrev pub AddEnds : ℕ → Outcome (Inode × Volume) → Type 0
    AddEnds m (ok (dp', v')) = IsLinked name inum m dp v dp' v'
    AddEnds m (panic _) =
        (max_bytes_of_file < entry_size * m + entry_size)
        ⊎ ((x : ℕ) × (entry_size * m ≤ x)
            × (x < entry_size * m + entry_size)
            × (block_of dp v x ≡ 0))
    AddEnds m spins = ⊥

    pub written_ends :
        (m : ℕ) (de : ℕ → ℕ) (r : Outcome (ℕ × Inode × Volume))
        → m ≤ dir.count
        → WriteiEnds sb (entry_size * m) entry_size 0 (put_entry name inum de) dp v r
        → AddEnds m (
            on_ok r
              (λ (r, dp', v'). if not (r == entry_size) then panic "dirlink" else ok (dp', v')))
    written_ends m de (ok (r, dp', w)) le (inl (inl past, e, _, _)) =
        absurd (omega (arith, dir.whole))
    written_ends m de (ok (r, dp', w)) le (inl (inr (inl wraps), e, _, _)) =
        absurd (omega (arith, dir.whole, dir.dense.small))
    written_ends m de (ok (r, dp', w)) le (inl (inr (inr large), e, _, _)) = rw e (inl large)
    written_ends m de (ok (r, dp', w)) le (inr (_, e, u)) =
        rw e (updated-IsLinked m de dp' w le (omega (arith, u.size, u.dense.small)) u)
    written_ends m de (panic _) le h = inr h
    written_ends m de spins le h = h
