-- ===== src/Vm/Mapped.antt =====
-- mappages of src/vm.c: the pages of the range, and no others, get their entries.
use waka_b4_research.Base.{
  ℕ, zero, suc, ◌+◌, ◌-◌, ◌*◌, ◌/◌, ◌%◌, ◌^◌, ◌<◌, ◌≤◌, ◌≡◌, ◌⊎◌, inl, inr, refl, ◌∙◌, arith, Bool,
  true, false, ◌&&◌, List, ◌==◌, leb, if◌then◌else◌, Bool-cases, Outcome, ok, panic, spins,
  and_then, add_word, sub_word, minus_one,
}
use waka_b4_research.Kmem.{Kmem, Site, page_size}
use waka_b4_research.Vm.{is_present, page_entry, round_down, go_on, map_page, map_from, mappages}
use waka_b4_research.Vm.Tables.{entry_of, IsTables}
use waka_b4_research.Vm.Page.{page_of, PageEnds, map_page_lem}

module _ (m : Site) (pgdir perm : ℕ) where
  -- The frame of the page of `va`, where `pa` is the frame of the page of `a`.
  abbrev pub frame_of : (a pa va : ℕ) → ℕ
  frame_of a pa va = (pa + page_size * (page_of va - page_of a)) % 2 ^ 32

  abbrev pub in_range : (a last va : ℕ) → Bool
  in_range a last va = leb (page_of a) (page_of va) && leb (page_of va) (page_of last)

  -- How the mapping of the pages from that of `a` to that of `last` ends.
  abbrev pub MapEnds : (a last pa : ℕ) → Kmem → Outcome (ℕ × Kmem) → Type 0
  MapEnds a last pa k (ok (r, k')) =
      ((r ≡ 0)
        × ((xs : List ℕ) × IsTables pgdir k' xs)
        × ((va : ℕ)
            → va < 2 ^ 32
            → entry_of pgdir k'.mem va ≡ (
                if in_range a last va
                then page_entry (frame_of a pa va) perm
                else entry_of pgdir k.mem va)))
      ⊎ ((r ≡ minus_one)
          × ((va : ℕ)
              → va < 2 ^ 32
              → in_range a last va ≡ false
              → entry_of pgdir k'.mem va ≡ entry_of pgdir k.mem va))
  MapEnds a last pa k (panic _) =
      (va : ℕ) × (va < 2 ^ 32)
      × (in_range a last va ≡ true)
      × (is_present (entry_of pgdir k.mem va) ≡ true)
  MapEnds a last pa k spins = ⊥

  abbrev Mapped : (a pa : ℕ) → Kmem → Kmem → Type 0
  Mapped a pa k k' =
      (va : ℕ)
      → va < 2 ^ 32
      → entry_of pgdir k'.mem va
        ≡ (if page_of va == page_of a then page_entry pa perm else entry_of pgdir k.mem va)

  module _ (a last pa : ℕ) (k k' : Kmem) (aligned : a % page_size ≡ 0) (lt : a < last)
      (small : last < 2 ^ 32) (word : pa < 2 ^ 32) (one : Mapped a pa k k') where
    entries_later :
        (va : ℕ)
        → va < 2 ^ 32
        → last % page_size ≡ 0
        → (if in_range (a + page_size) last va
            then page_entry (frame_of (a + page_size) (add_word pa page_size) va) perm
            else entry_of pgdir k'.mem va)
          ≡ (if in_range a last va
              then page_entry (frame_of a pa va) perm
              else entry_of pgdir k.mem va)
    entries_later va below aligned' = elim (Bool-cases (page_of va == page_of a)) [
      | inl e ↦
          let same : page_of va ≡ page_of a = ground arith in
          let out : in_range (a + page_size) last va ≡ false = ground (arith, e, aligned) in
          let within : in_range a last va ≡ true = ground (arith, e, aligned, aligned', lt) in
          let frame : frame_of a pa va ≡ pa = omega (arith, same, word) in
          let here = one va below in rw (out, within, frame) (here ∙ rw e refl)
      | inr e ↦
          let here = one va below in
          let kept : entry_of pgdir k'.mem va ≡ entry_of pgdir k.mem va = here ∙ rw e refl in
          let range : in_range (a + page_size) last va ≡ in_range a last va =
            ground (arith, e, aligned) in
          rw range (elim (Bool-cases (in_range a last va)) [
            | inl within ↦
                let frame : frame_of (a + page_size) (add_word pa page_size) va ≡ frame_of a pa va =
                  ground (arith, e, within, aligned) in
                rw (within, frame) refl
            | inr out ↦ rw out kept
          ])
    ]

    MapEnds-later :
        (r : Outcome (ℕ × Kmem))
        → last % page_size ≡ 0
        → MapEnds (a + page_size) last (add_word pa page_size) k' r
        → MapEnds a last pa k r
    MapEnds-later (ok (r, k2)) aligned' (inl (e, t, all)) =
        inl (e, t, λ va below. all va below ∙ entries_later va below aligned')
    MapEnds-later (ok (r, k2)) aligned' (inr (e, others)) = inr (
      e,
      λ va below out.
          others va below (ground (arith, out, aligned)) ∙ one va below ∙ ground (arith, out),
    )
    MapEnds-later (panic _) aligned' (va, below, range, taken) =
        let before = one va below in
        (va, below, ground (arith, range, aligned), ground (arith, range, aligned, before, taken))
    MapEnds-later spins aligned' h = h

  -- The bounds of the range, in whole pages.
  pub record IsRange (a last pa : ℕ) : Type 0 where
    pub from_page : a % page_size ≡ 0
    pub to_page : last % page_size ≡ 0
    pub ordered : a ≤ last
    pub small : last < 2 ^ 32
    pub word : pa < 2 ^ 32

  one_page :
      (a last pa : ℕ) (k : Kmem)
      → IsRange a last pa
      → a ≡ last
      → (va : ℕ)
      → (if page_of va == page_of a then page_entry pa perm else entry_of pgdir k.mem va) ≡ (
          if in_range a last va
          then page_entry (frame_of a pa va) perm
          else entry_of pgdir k.mem va)
  one_page a last pa k b e va = elim (Bool-cases (page_of va == page_of a)) [
    | inl h ↦
        let within : in_range a last va ≡ true = ground (arith, h, e) in
        let frame : frame_of a pa va ≡ pa = ground (arith, h, b.word) in rw (h, within, frame) refl
    | inr h ↦ let out : in_range a last va ≡ false = ground (arith, h, e) in rw (h, out) refl
  ]

  map_from_lem :
      (fuel a last pa : ℕ) (k : Kmem) (xs : List ℕ)
      → last < a + page_size * fuel
      → IsRange a last pa
      → IsTables pgdir k xs
      → MapEnds a last pa k (map_from m fuel pgdir a last pa perm k)
  unfolding map_from
  map_from_lem zero a last pa k xs enough b t = absurd (omega (arith, b.ordered))
  map_from_lem (suc fuel) a last pa k xs enough b t =
      rounds (map_page m pgdir a pa perm k)
        (map_page_lem m pgdir perm a pa k xs (omega (arith, b.ordered, b.small)) t)
        (λ k' xs' t' lt.
          map_from_lem fuel (a + page_size) last (add_word pa page_size) k' xs' (omega arith)
            (record {
              from_page = omega (arith, b.from_page);
              to_page = b.to_page;
              ordered = omega (arith, b.from_page, b.to_page);
              small = b.small;
              word = omega arith;
            })
            t')
    where
      rounds :
          (r : Outcome (Bool × Kmem))
          → PageEnds m pgdir perm a pa k r
          → ((k' : Kmem) (xs' : List ℕ)
              → IsTables pgdir k' xs'
              → a < last
              → MapEnds
                  (a + page_size)
                  last
                  (add_word pa page_size)
                  k'
                  (map_from m fuel pgdir (a + page_size) last (add_word pa page_size) perm k'))
          → MapEnds a last pa k (
              and_then r (
                go_on m
                  (map_from m fuel pgdir (add_word a page_size) last (add_word pa page_size) perm)
                  (a == last)))
      rounds (ok (true, k')) (absent, (xs', t'), one) later = elim (Bool-cases (a == last)) [
        | inl e ↦ rw e (
            inl (
              refl,
              (xs', t'),
              λ va below. one va below ∙ one_page a last pa k b (ground arith) va,
            ))
        | inr e ↦
            let lt : a < last = ground (arith, b.ordered) in
            let next : add_word a page_size ≡ a + page_size =
              omega (arith, b.from_page, b.to_page, b.small) in
            rw (e, next)
              (MapEnds-later a last pa k k' b.from_page lt b.small b.word one
                (map_from m fuel pgdir (a + page_size) last (add_word pa page_size) perm k')
                b.to_page (later k' xs' t' lt))
      ]
      rounds (ok (false, k')) same later = inr (refl, λ va below out. rw same refl)
      rounds (panic _) taken later =
          (a, omega (arith, b.ordered, b.small), ground (arith, b.ordered), taken)
      rounds spins h later = h

  -- `mappages` of a range that is not empty and does not wrap, in a directory whose tables are pages, no
  -- two the same and none free, panics only if a page of the range already has a present entry. It
  -- returns 0 or -1. With 0, each page of the range has the entry for its frame with the permissions,
  -- every other address has the entry that it had, and the tables are still pages of their own; with -1,
  -- every address outside the range has the entry that it had.
  pub mappages_lem :
      (va size pa : ℕ) (k : Kmem) (xs : List ℕ)
      → 0 < size
      → va + size ≤ 2 ^ 32
      → pa < 2 ^ 32
      → IsTables pgdir k xs
      → MapEnds
          (round_down va)
          (round_down (va + size - 1))
          pa
          k
          (mappages m pgdir va size pa perm k)
  unfolding mappages
  mappages_lem va size pa k xs pos fits word t =
      let last : sub_word (add_word va size) 1 ≡ va + size - 1 = omega arith in
      let rounds : sub_word (round_down (va + size - 1)) (round_down va)
          ≡ round_down (va + size - 1) - round_down va =
        omega arith in
      rw (last, rounds)
        (map_from_lem ((round_down (va + size - 1) - round_down va) / page_size + 1) (round_down va)
          (round_down (va + size - 1)) pa k xs (omega arith)
          (record {
            from_page = omega arith;
            to_page = omega arith;
            ordered = omega arith;
            small = omega arith;
            word = word;
          })
          t)
