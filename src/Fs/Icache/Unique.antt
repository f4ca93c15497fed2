-- ===== src/Fs/Icache/Unique.antt =====
-- iget of src/fs.c: an inode has one entry in the cache.
use waka_b4_research.Base.{
  ℕ, zero, suc, ◌+◌, ◌^◌, ◌<◌, ◌≡◌, ◌≢◌, ◌⊎◌, refl, sym, ap, ◌∙◌, arith, true, false, Option, none,
  some, List, [], ◌∷◌, ◌==◌, Bool-cases, inl, inr, Outcome, ok, panic, spins, add_word, length, set,
  get_or-set_self, get_or-set_ne,
}
use waka_b4_research.Fs.Inode.{Inode}
use waka_b4_research.Fs.Icache.{
  no_inode, inode_at, is_in_use, is_inode, Slot, cached, empty, note_empty, scan_cache, take_inode,
  iget,
}

-- An entry that is referred to is the only one of its inode.
pub record AreUnique (ips : List Inode) : Type 0 where
  pub one :
      (i j : ℕ)
      → is_in_use (inode_at ips i).ref ≡ true
      → is_in_use (inode_at ips j).ref ≡ true
      → (inode_at ips i).dev ≡ (inode_at ips j).dev
      → (inode_at ips i).inum ≡ (inode_at ips j).inum
      → i ≡ j

-- No entry of the list is the inode.
abbrev pub NoneIs : ℕ → ℕ → List Inode → Type 0
NoneIs dev inum ips = (i : ℕ) → is_inode dev inum (inode_at ips i) ≡ false

-- Every entry of the list is referred to.
abbrev pub AllReferred : List Inode → Type 0
AllReferred ips = (i : ℕ) → i < length ips → (inode_at ips i).ref ≢ 0

-- What the loop finds from entry `start` on, where the entries before have the free one `e`.
abbrev Scanned : ℕ → ℕ → List Inode → ℕ → Option ℕ → Slot → Type 0
Scanned dev inum ips start e (cached i) =
    (k : ℕ) × (i ≡ start + k) × (k < length ips) × (is_inode dev inum (inode_at ips k) ≡ true)
Scanned dev inum ips start e (empty (some i)) =
    NoneIs dev inum ips
    × ((e ≡ some i) ⊎ ((k : ℕ) × (i ≡ start + k) × (k < length ips) × ((inode_at ips k).ref ≡ 0)))
Scanned dev inum ips start e (empty none) = NoneIs dev inum ips × (e ≡ none) × AllReferred ips

none_from :
    (dev inum : ℕ) (ip : Inode) (ips : List Inode)
    → is_inode dev inum ip ≡ false
    → NoneIs dev inum ips
    → NoneIs dev inum (ip ∷ ips)
none_from dev inum ip ips here h zero = here
none_from dev inum ip ips here h (suc i) = h i

referred_from :
    (ip : Inode) (ips : List Inode) → ip.ref ≢ 0 → AllReferred ips → AllReferred (ip ∷ ips)
referred_from ip ips here h zero lt = here
referred_from ip ips here h (suc i) lt = h i (omega arith)

Scanned-later :
    (dev inum : ℕ) (ip : Inode) (ips : List Inode) (start : ℕ) (e : Option ℕ) (s : Slot)
    → is_inode dev inum ip ≡ false
    → Scanned dev inum ips (start + 1) (note_empty e ip start) s
    → Scanned dev inum (ip ∷ ips) start e s
Scanned-later dev inum ip ips start e (cached i) other (k, at, lt, is) =
    (suc k, omega arith, omega arith, is)
Scanned-later dev inum ip ips start none (empty (some i)) other (absent, inl kept) = (
  none_from dev inum ip ips other absent,
  elim (Bool-cases (ip.ref == 0)) [
    | inl free ↦ inr (0, ground (arith, kept, free), omega arith, ground (arith, free))
    | inr used ↦ absurd (ground (arith, kept, used))
  ],
)
Scanned-later dev inum ip ips start (some f) (empty (some i)) other (absent, inl kept) =
    (none_from dev inum ip ips other absent, inl kept)
Scanned-later dev inum ip ips start e (empty (some i)) other (absent, inr (k, at, lt, free)) =
    (none_from dev inum ip ips other absent, inr (suc k, omega arith, omega arith, free))
Scanned-later dev inum ip ips start none (empty none) other (absent, kept, all) = (
  none_from dev inum ip ips other absent,
  refl,
  referred_from ip ips (λ z. ground (arith, kept, z)) all,
)
Scanned-later dev inum ip ips start (some f) (empty none) other (absent, kept, all) = absurd (cc)

scan_cache_lem :
    (dev inum : ℕ) (ips : List Inode) (start : ℕ) (e : Option ℕ)
    → Scanned dev inum ips start e (scan_cache dev inum ips start e)
unfolding scan_cache
scan_cache_lem dev inum [] start none = ((λ i. refl), refl, λ i lt. absurd (omega arith))
scan_cache_lem dev inum [] start (some f) = ((λ i. refl), inl refl)
scan_cache_lem dev inum (ip ∷ ips) start e = elim (Bool-cases (is_inode dev inum ip)) [
  | inl here ↦ rw here (0, omega arith, omega arith, here)
  | inr other ↦ rw other (
      Scanned-later dev inum ip ips start e
        (scan_cache dev inum ips (start + 1) (note_empty e ip start)) other
        (scan_cache_lem dev inum ips (start + 1) (note_empty e ip start)))
]

-- The entry that `iget` returns: one more reference to the inode's entry, or a free one for the inode.
pub record IsGot (dev inum i : ℕ) (ips ips' : List Inode) : Type 0 where
  pub inside : i < length ips
  pub dev_of : (inode_at ips' i).dev ≡ dev
  pub inum_of : (inode_at ips' i).inum ≡ inum
  pub how :
      ((is_inode dev inum (inode_at ips i) ≡ true)
        × (inode_at ips' i ≡ record (inode_at ips i) { ref = (inode_at ips i).ref + 1 }))
      ⊎ (NoneIs dev inum ips
          × ((inode_at ips i).ref ≡ 0)
          × ((inode_at ips' i).ref ≡ 1)
          × ((inode_at ips' i).valid ≡ false))
  pub others : (j : ℕ) → j ≢ i → inode_at ips' j ≡ inode_at ips j
  pub unique : AreUnique ips'

abbrev pub IgetEnds : ℕ → ℕ → List Inode → Outcome (ℕ × List Inode) → Type 0
IgetEnds dev inum ips (ok (i, ips')) = IsGot dev inum i ips ips'
IgetEnds dev inum ips (panic _) = NoneIs dev inum ips × AllReferred ips
IgetEnds dev inum ips spins = ⊥

-- One entry is replaced by one that no other is the same inode as.
AreUnique-set :
    (ips : List Inode) (k : ℕ) (ip : Inode)
    → AreUnique ips
    → k < length ips
    → ((j : ℕ)
        → j ≢ k
        → is_in_use (inode_at ips j).ref ≡ true
        → (inode_at ips j).dev ≡ ip.dev
        → (inode_at ips j).inum ≡ ip.inum
        → ⊥)
    → AreUnique (set ips k ip)
AreUnique-set ips k ip u lt apart = record {
  one = λ i j p q d n. elim (Bool-cases (i == k)) [
    | inl a ↦ elim (Bool-cases (j == k)) [
      | inl b ↦ ground arith
      | inr b ↦
          let same : i ≡ k = ground arith in
          let far : j ≢ k = λ z. ground arith in
          let at : inode_at (set ips k ip) i ≡ ip =
            rw same (get_or-set_self ips k ip no_inode lt) in
          let other : inode_at (set ips k ip) j ≡ inode_at ips j =
            get_or-set_ne ips k j ip no_inode far in
          absurd
            (apart j far (rw other at q) (sym (rw (at, other) at d)) (sym (rw (at, other) at n)))
    ]
    | inr a ↦ elim (Bool-cases (j == k)) [
      | inl b ↦
          let same : j ≡ k = ground arith in
          let far : i ≢ k = λ z. ground arith in
          let at : inode_at (set ips k ip) j ≡ ip =
            rw same (get_or-set_self ips k ip no_inode lt) in
          let other : inode_at (set ips k ip) i ≡ inode_at ips i =
            get_or-set_ne ips k i ip no_inode far in
          absurd (apart i far (rw other at p) (rw (at, other) at d) (rw (at, other) at n))
      | inr b ↦
          let far : i ≢ k = λ z. ground arith in
          let far' : j ≢ k = λ z. ground arith in
          let one : inode_at (set ips k ip) i ≡ inode_at ips i =
            get_or-set_ne ips k i ip no_inode far in
          let two : inode_at (set ips k ip) j ≡ inode_at ips j =
            get_or-set_ne ips k j ip no_inode far' in
          u.one i j (rw one at p) (rw two at q) (rw (one, two) at d) (rw (one, two) at n)
    ]
  ];
}

take_ends :
    (dev inum : ℕ) (ips : List Inode) (s : Slot)
    → AreUnique ips
    → ((i : ℕ) → (inode_at ips i).ref + 1 < 2 ^ 31)
    → Scanned dev inum ips 0 none s
    → IgetEnds dev inum ips (take_inode dev inum s ips)
take_ends dev inum ips (cached i) u few (k, at, lt, is) =
    let same : k ≡ i = omega arith in
    let here : is_inode dev inum (inode_at ips i) ≡ true = rw (← same) is in
    let inside : i < length ips = omega arith in
    let old = inode_at ips i in
    let ip = record old { ref = add_word old.ref 1 } in
    let count : add_word old.ref 1 ≡ old.ref + 1 = omega (arith, few i) in
    let new : inode_at (set ips i ip) i ≡ ip = get_or-set_self ips i ip no_inode inside in
    record {
      inside = inside;
      dev_of = rw new (ground (arith, here));
      inum_of = rw new (ground (arith, here));
      how = inl (here, new ∙ ap (λ (r : ℕ). record old { ref = r }) count);
      others = λ j far. get_or-set_ne ips i j ip no_inode far;
      unique =
          AreUnique-set ips i ip u inside
            (λ j far used d n. far (u.one j i used (ground (arith, here)) d n));
    }
take_ends dev inum ips (empty none) u few (absent, _, all) = (absent, all)
take_ends dev inum ips (empty (some i)) u few (absent, inl z) = absurd (cc)
take_ends dev inum ips (empty (some i)) u few (absent, inr (k, at, lt, free)) =
    let same : k ≡ i = omega arith in
    let inside : i < length ips = omega arith in
    let ip = record (inode_at ips i) { dev = dev; inum = inum; ref = 1; valid = false } in
    let new : inode_at (set ips i ip) i ≡ ip = get_or-set_self ips i ip no_inode inside in
    record {
      inside = inside;
      dev_of = rw new refl;
      inum_of = rw new refl;
      how = inr (absent, rw (← same) free, rw new refl, rw new refl);
      others = λ j far. get_or-set_ne ips i j ip no_inode far;
      unique =
          AreUnique-set ips i ip u inside (λ j far used d n. ground (arith, absent j, used, d, n));
    }

-- `iget`, where no inode has two entries that are referred to and the counts are small. It panics just
-- if the inode has no such entry and every entry is referred to. Otherwise it returns the inode's entry
-- with one more reference; or, if there is none, an entry that nothing referred to, which now is the
-- inode's, not valid, with one reference. No other entry changes, and still no inode has two.
pub iget_lem :
    (dev inum : ℕ) (ips : List Inode)
    → AreUnique ips
    → ((i : ℕ) → (inode_at ips i).ref + 1 < 2 ^ 31)
    → IgetEnds dev inum ips (iget dev inum ips)
unfolding iget
iget_lem dev inum ips u few =
    take_ends dev inum ips (scan_cache dev inum ips 0 none) u few
      (scan_cache_lem dev inum ips 0 none)
