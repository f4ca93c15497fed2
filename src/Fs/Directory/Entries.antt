-- ===== src/Fs/Directory/Entries.antt =====
-- dirlookup of src/fs.c against the entries of the directory.
use waka_b4_research.Base.{
  ℕ, zero, suc, ◌+◌, ◌-◌, ◌*◌, ◌<◌, ◌≤◌, ◌≡◌, ◌≢◌, ◌⊎◌, refl, ap, ◌∙◌, arith, true, false, ◌&&◌,
  Option, none, some, List, ◌==◌, ltb, leb, if◌then◌else◌, Bool-cases, inl, inr, Outcome, ok, on_ok,
  add_word, set-get_or,
}
use waka_b4_research.Paths.{dir_size}
use waka_b4_research.Fs.{Super, Volume}
use waka_b4_research.Fs.Inode.{Inode, t_dir, t_dev}
use waka_b4_research.Fs.Content.{readi}
use waka_b4_research.Fs.Content.Bytes.{byte_at, IsDense}
use waka_b4_research.Fs.Content.Read.{IsRead, readi_lem}
use waka_b4_research.Fs.Icache.{Icache, inode_at, put_inode, no_inode, iget}
use waka_b4_research.Fs.Directory.{
  entry_size, load_bytes, entry_inum, entry_name, is_entry, find_entry, get_entry, dirlookup,
}

-- The entry `k` of a directory.
abbrev pub entry_at : Inode → Volume → ℕ → ℕ → ℕ
entry_at dp v k i = byte_at dp v (entry_size * k + i)

-- Two entries with the same bytes.
abbrev pub AreSame : (ℕ → ℕ) → (ℕ → ℕ) → Type 0
AreSame x y = (i : ℕ) → i < entry_size → x i ≡ y i

load_bytes-same :
    (x y : ℕ → ℕ) (a n : ℕ)
    → ((i : ℕ) → a ≤ i → i < a + n → x i ≡ y i)
    → load_bytes x a n ≡ load_bytes y a n
load_bytes-same x y a zero h = refl
load_bytes-same x y a (suc n) h =
    rw
      (
        h a (omega arith) (omega arith),
        load_bytes-same x y (a + 1) n (λ i low high. h i (omega arith) (omega arith)),
      )
      refl

pub entry_inum-same : (x y : ℕ → ℕ) → AreSame x y → entry_inum x ≡ entry_inum y
entry_inum-same x y h = rw (h 0 (omega arith), h 1 (omega arith)) refl

pub entry_name-same : (x y : ℕ → ℕ) → AreSame x y → entry_name x ≡ entry_name y
entry_name-same x y h = load_bytes-same x y 2 dir_size (λ i low high. h i (omega arith))

module _ (sb : Super) where
  pub is_entry-same :
      (name : List ℕ) (x y : ℕ → ℕ) → AreSame x y → is_entry sb name x ≡ is_entry sb name y
  is_entry-same name x y h = rw (entry_inum-same x y h, entry_name-same x y h) refl

  -- The contents are whole entries.
  pub record IsDirectory (dp : Inode) (v : Volume) : Type 0 where
    pub type : dp.type ≡ t_dir
    pub dense : IsDense dp v
    pub count : ℕ
    pub whole : dp.size ≡ entry_size * count

  module _ (dp : Inode) (v : Volume) (dir : IsDirectory dp v) where
    pub readi-entry :
        (k : ℕ) (de : ℕ → ℕ)
        → entry_size * k < dp.size
        → (de' : ℕ → ℕ) × (readi sb none 0 (entry_size * k) entry_size dp v de
            ≡ ok (entry_size, dp, v, de'))
          × AreSame de' (entry_at dp v k)
          × IsRead dp v (entry_size * k) entry_size 0 de de'
    readi-entry k de lt =
        let small = dir.dense.small in
        let inside : entry_size * k + entry_size ≤ dp.size = omega (arith, dir.whole) in
        let plain : dp.type ≢ t_dev = λ e. omega (arith, dir.type) in
        elim (readi_lem sb dp v none 0 (entry_size * k) entry_size de plain dir.dense (omega arith)
          (omega arith)) [
            | inl (bad, _) ↦ absurd (ground arith)
            | inr (_, _, (de', run, bytes)) ↦
                let all : (if ltb dp.size (entry_size * k + entry_size)
                      then dp.size - entry_size * k
                      else entry_size)
                    ≡ entry_size =
                  ground arith in
                (
                  de',
                  run ∙ ap (λ (n : ℕ). ok (n, dp, v, de')) all,
                  λ i below.
                      let within : (leb 0 i && ltb i (0 + entry_size)) ≡ true = ground arith in
                      let index : i - 0 ≡ i = omega arith in bytes i ∙ rw (all, within, index) refl,
                  λ x. bytes x ∙ rw all refl,
                )
          ]

    -- How the search from entry `k` on ends: at the first entry with the name, or with none.
    abbrev pub SearchEnds : List ℕ → ℕ → Outcome (Option (ℕ × ℕ) × Inode × Volume) → Type 0
    SearchEnds name k r =
        (((j : ℕ) → k ≤ j → j < dir.count → is_entry sb name (entry_at dp v j) ≡ false)
          × (r ≡ ok (none, dp, v)))
        ⊎ ((m : ℕ) × (k ≤ m)
            × (m < dir.count)
            × (is_entry sb name (entry_at dp v m) ≡ true)
            × ((j : ℕ) → k ≤ j → j < m → is_entry sb name (entry_at dp v j) ≡ false)
            × (r ≡ ok (some (entry_size * m, entry_inum (entry_at dp v m)), dp, v)))

    SearchEnds-later :
        (name : List ℕ) (k : ℕ) (r : Outcome (Option (ℕ × ℕ) × Inode × Volume))
        → is_entry sb name (entry_at dp v k) ≡ false
        → SearchEnds name (k + 1) r
        → SearchEnds name k r
    SearchEnds-later name k r other (inl (absent, run)) = inl (
      λ j low high. elim (Bool-cases (j == k)) [
        | inl e ↦ let here : j ≡ k = ground arith in rw here other
        | inr e ↦ absent j (ground arith) high
      ],
      run,
    )
    SearchEnds-later name k r other (inr (m, low, high, is, before, run)) = inr (
      m,
      omega arith,
      high,
      is,
      λ j from below. elim (Bool-cases (j == k)) [
        | inl e ↦ let here : j ≡ k = ground arith in rw here other
        | inr e ↦ before j (ground arith) below
      ],
      run,
    )

    find_entry_lem :
        (fuel : ℕ) (name : List ℕ) (k : ℕ) (de : ℕ → ℕ)
        → dir.count < fuel + k
        → k ≤ dir.count
        → SearchEnds name k (find_entry sb fuel name (entry_size * k) dp v de)
    unfolding find_entry
    find_entry_lem zero name k de enough le = absurd (omega arith)
    find_entry_lem (suc fuel) name k de enough le =
        elim (Bool-cases (ltb (entry_size * k) dp.size)) [
          | inr e ↦ rw e (inl (λ j low high. absurd (ground (arith, dir.whole)), refl))
          | inl e ↦
              let inside : entry_size * k < dp.size = ground arith in
              let (de', run, same, _) = readi-entry k de inside in
              let next : add_word (entry_size * k) entry_size ≡ entry_size * (k + 1) =
                omega (arith, dir.dense.small) in
              let found = is_entry-same name de' (entry_at dp v k) same in
              elim (Bool-cases (is_entry sb name (entry_at dp v k))) [
                | inl is ↦
                    rw (e, run, found, is, entry_inum-same de' (entry_at dp v k) same)
                      (inr (
                        k,
                        omega arith,
                        ground (arith, dir.whole),
                        is,
                        λ j low high. absurd (omega arith),
                        refl,
                      ))
                | inr other ↦
                    rw (e, run, found, other, next)
                      (SearchEnds-later name k
                        (find_entry sb fuel name (entry_size * (k + 1)) dp v de') other
                        (find_entry_lem fuel name (k + 1) de' (omega arith)
                          (omega (arith, dir.whole))))
              ]
        ]

  -- How `dirlookup` in the directory `d` of the cache ends.
  abbrev pub LookupEnds :
      (name : List ℕ) (d n : ℕ) → Icache → Outcome (Option (ℕ × ℕ) × Icache) → Type 0
  LookupEnds name d n c r =
      let dp = inode_at c.inodes d in
      (((j : ℕ) → j < n → is_entry sb name (entry_at dp c.volume j) ≡ false) × (r ≡ ok (none, c)))
      ⊎ ((m : ℕ) × (m < n)
          × (is_entry sb name (entry_at dp c.volume m) ≡ true)
          × ((j : ℕ) → j < m → is_entry sb name (entry_at dp c.volume j) ≡ false)
          × (r
              ≡ on_ok (iget dp.dev (entry_inum (entry_at dp c.volume m)) c.inodes)
                  (λ (i, ips). ok (some (i, entry_size * m), record c { inodes = ips }))))

  -- `dirlookup` in a directory whose contents are whole entries, all in blocks: where no entry in use
  -- has the name it returns none and changes nothing. Otherwise it returns what iget gives for the
  -- inode of the first entry in use with that name, with the offset of the entry.
  pub dirlookup_lem :
      (de : ℕ → ℕ) (name : List ℕ) (d : ℕ) (c : Icache)
      → (dir : IsDirectory (inode_at c.inodes d) c.volume)
      → LookupEnds name d dir.count c (dirlookup sb de name d c)
  unfolding dirlookup
  dirlookup_lem de name d c dir =
      let dp = inode_at c.inodes d in
      let typed : (dp.type == t_dir) ≡ true = ground (arith, dir.type) in
      let back : put_inode d dp c ≡ c =
        ap (λ ips. record c { inodes = ips }) (set-get_or c.inodes d no_inode) in
      elim (find_entry_lem dp c.volume dir (suc dp.size) name 0 de (omega (arith, dir.whole))
        (omega arith)) [
          | inl (absent, run) ↦ inl (λ j lt. absent j (omega arith) lt, rw (typed, run, back) refl)
          | inr (m, _, lt, is, before, run) ↦ inr (
            m,
            lt,
            is,
            λ j below. before j (omega arith) below,
            rw (typed, run)
                (ap
                  (get_entry sb dp.dev (some (entry_size * m, entry_inum (entry_at dp c.volume m))))
                  back),
          )
        ]
