-- ===== src/FileTable/Refs.antt =====
-- src/file.c: the reference counts against the descriptors that hold them.
use waka_b4_research.Base.{
  ℕ, zero, suc, ◌+◌, ◌-◌, ◌^◌, ◌≤◌, ◌<◌, ◌≡◌, ◌≢◌, ◌⊎◌, inl, inr, refl, sym, ap, ◌∙◌, arith, true,
  false, none, some, List, [], ◌∷◌, ◌==◌, if◌then◌else◌, Returns, Bool-cases, length, get_elem?,
  set, find_index-cases, add_word, sub_word, lt-length_of_some,
}
use waka_b4_research.FileTable.{
  File, file_at, filealloc, filedup, fileclose, is_below_one, fd_none, keeps, closing_of,
}

-- How often file `i` is held.
abbrev pub holds : ℕ → List ℕ → ℕ
holds i [] = 0
holds i (x ∷ xs) = if i == x then suc (holds i xs) else holds i xs

-- The descriptors less one that holds file `i`.
abbrev pub without : ℕ → List ℕ → List ℕ
without i [] = []
without i (x ∷ xs) = if i == x then xs else x ∷ without i xs

-- Every reference count is the number of the descriptors that hold the file; they are less than 2 ^ 31.
pub record AreCounted (fs : List File) (hs : List ℕ) : Type 0 where
  pub exact : (i : ℕ) → (file_at fs i).ref ≡ holds i hs
  pub few : length hs < 2 ^ 31

holds-le : (i : ℕ) (hs : List ℕ) → holds i hs ≤ length hs
holds-le i [] = omega arith
holds-le i (x ∷ hs) = ground (arith, holds-le i hs)

pub holds-without : (i : ℕ) (hs : List ℕ) → holds i (without i hs) ≡ holds i hs - 1
holds-without i [] = omega arith
holds-without i (x ∷ hs) = elim (Bool-cases (i == x)) [
  | inl e ↦ rw e (omega arith)
  | inr e ↦ rw (e, e) (holds-without i hs)
]

pub holds-without_ne : (i j : ℕ) (hs : List ℕ) → j ≢ i → holds j (without i hs) ≡ holds j hs
holds-without_ne i j [] ne = refl
holds-without_ne i j (x ∷ hs) ne = elim (Bool-cases (i == x)) [
  | inl e ↦ let far : (j == x) ≡ false = ground arith in rw (e, far) refl
  | inr e ↦ elim (Bool-cases (j == x)) [
    | inl h ↦ rw (e, h) (ground (arith, holds-without_ne i j hs ne))
    | inr h ↦ rw (e, h) (holds-without_ne i j hs ne)
  ]
]

length-without_le : (i : ℕ) (hs : List ℕ) → length (without i hs) ≤ length hs
length-without_le i [] = omega arith
length-without_le i (x ∷ hs) = ground (arith, length-without_le i hs)

file_at-set_self : (fs : List File) (i : ℕ) (f : File) → i < length fs → file_at (set fs i f) i ≡ f
file_at-set_self [] i f h = absurd (omega arith)
file_at-set_self (x ∷ fs) zero f h = refl
file_at-set_self (x ∷ fs) (suc i) f h = file_at-set_self fs i f (omega arith)

file_at-set_ne :
    (fs : List File) (i j : ℕ) (f : File) → j ≢ i → file_at (set fs i f) j ≡ file_at fs j
file_at-set_ne [] i j f h = refl
file_at-set_ne (x ∷ fs) zero zero f h = absurd (h refl)
file_at-set_ne (x ∷ fs) zero (suc j) f h = refl
file_at-set_ne (x ∷ fs) (suc i) zero f h = refl
file_at-set_ne (x ∷ fs) (suc i) (suc j) f h = file_at-set_ne fs i j f (λ e. h (ground (arith, e)))

-- A file that is referred to is in the table.
inside_of_ref : (fs : List File) (i : ℕ) → 0 < (file_at fs i).ref → i < length fs
inside_of_ref [] i h = absurd (omega arith)
inside_of_ref (x ∷ fs) zero h = omega arith
inside_of_ref (x ∷ fs) (suc i) h = omega (arith, inside_of_ref fs i)

file_at-some : (fs : List File) (i : ℕ) (f : File) → get_elem? fs i ≡ some f → file_at fs i ≡ f
file_at-some [] i f h = cc
file_at-some (x ∷ fs) zero f h = ground arith
file_at-some (x ∷ fs) (suc i) f h = file_at-some fs i f h

-- The counts after one write: file `i` has a new count, the others are held as often as before.
counted_write :
    (fs : List File) (hs hs' : List ℕ) (i : ℕ) (f : File)
    → AreCounted fs hs
    → i < length fs
    → f.ref ≡ holds i hs'
    → ((j : ℕ) → j ≢ i → holds j hs' ≡ holds j hs)
    → length hs' < 2 ^ 31
    → AreCounted (set fs i f) hs'
counted_write fs hs hs' i f c inside at others few = record {
  exact = λ j. elim (Bool-cases (j == i)) [
    | inl e ↦ let same : j ≡ i = ground arith in rw (same, file_at-set_self fs i f inside) at
    | inr e ↦
        let far : j ≢ i = λ p. ground arith in
        rw (file_at-set_ne fs i j f far, others j far) (c.exact j)
  ];
  few = few;
}

pub holds-cons_self : (i : ℕ) (hs : List ℕ) → holds i (i ∷ hs) ≡ suc (holds i hs)
holds-cons_self i hs = let e : (i == i) ≡ true = ground arith in rw e refl

pub holds-cons_ne : (i j : ℕ) (hs : List ℕ) → j ≢ i → holds j (i ∷ hs) ≡ holds j hs
holds-cons_ne i j hs h = let e : (j == i) ≡ false = ground (arith, h) in rw e refl

-- `filealloc`, where the counts are those of the descriptors and there is room for one more. It
-- fails, changing nothing, just when every file of the table is held; else it returns the first file
-- that nobody holds, which the caller then holds alone, and no other file changes.
pub filealloc_lem :
    (fs : List File) (hs : List ℕ)
    → AreCounted fs hs
    → length hs + 1 < 2 ^ 31
    → ((filealloc fs ≡ (none, fs))
        × ((i : ℕ) (f : File) → get_elem? fs i ≡ some f → 0 < holds i hs))
      ⊎ ((i : ℕ) × (fs' : List File) × (filealloc fs ≡ (some i, fs'))
          × (holds i hs ≡ 0)
          × AreCounted fs' (i ∷ hs)
          × ((j : ℕ) → j ≢ i → file_at fs' j ≡ file_at fs j))
unfolding filealloc
filealloc_lem fs hs c room = elim (find_index-cases (λ f. f.ref == 0) fs) [
  | inl (e, none_free) ↦ inl (
    rw e refl,
    λ i f at.
        let counted : f.ref ≡ holds i hs =
          ap (λ (g : File). g.ref) (sym (file_at-some fs i f at)) ∙ c.exact i in
        ground (arith, none_free i f at),
  )
  | inr (i, f, e, first) ↦
      let at : file_at fs i ≡ f = file_at-some fs i f first.at in
      let unheld : holds i hs ≡ 0 =
        sym (c.exact i) ∙ ap (λ (g : File). g.ref) at ∙ ground (arith, first.passes) in
      inr (
        i,
        set fs i (record (file_at fs i) { ref = 1 }),
        rw e refl,
        unheld,
        counted_write fs hs (i ∷ hs) i (record (file_at fs i) { ref = 1 }) c
            (lt-length_of_some fs i f first.at) (omega (arith, holds-cons_self i hs))
            (λ j far. holds-cons_ne i j hs far) (omega arith),
        λ j far. file_at-set_ne fs i j (record (file_at fs i) { ref = 1 }) far,
      )
]

-- `filedup` of a file that is held, with room for one more: it returns with one more descriptor for
-- the file, and no other file changes.
pub filedup_lem :
    (fs : List File) (hs : List ℕ) (i : ℕ)
    → AreCounted fs hs
    → 0 < holds i hs
    → length hs + 1 < 2 ^ 31
    → Returns
        (λ r fs'.
          (r ≡ i) × AreCounted fs' (i ∷ hs) × ((j : ℕ) → j ≢ i → file_at fs' j ≡ file_at fs j))
        (filedup i fs)
unfolding filedup
filedup_lem fs hs i c held room =
    let counted = c.exact i in
    let below : is_below_one (file_at fs i).ref ≡ false = ground (arith, counted, holds-le i hs) in
    let f = record (file_at fs i) { ref = add_word (file_at fs i).ref 1 } in
    rw below (
      refl,
      counted_write fs hs (i ∷ hs) i f c (inside_of_ref fs i (omega (arith, counted)))
          (omega (arith, counted, holds-cons_self i hs, holds-le i hs))
          (λ j far. holds-cons_ne i j hs far) (omega arith),
      λ j far. file_at-set_ne fs i j f far,
    )

-- `fileclose` of a file that is held: it returns, the file is held once less, and no other file
-- changes. If the descriptor was the file's last, the file's pipe or inode is given back; otherwise
-- nothing is.
pub fileclose_lem :
    (fs : List File) (hs : List ℕ) (i : ℕ)
    → AreCounted fs hs
    → 0 < holds i hs
    → Returns
        (λ r fs'.
          (r ≡ (if holds i hs == 1 then closing_of (file_at fs i).type (file_at fs i) else keeps))
          × AreCounted fs' (without i hs)
          × ((j : ℕ) → j ≢ i → file_at fs' j ≡ file_at fs j))
        (fileclose i fs)
unfolding fileclose
fileclose_lem fs hs i c held =
    let counted = c.exact i in
    let below : is_below_one (file_at fs i).ref ≡ false =
      ground (arith, counted, holds-le i hs, c.few) in
    let inside : i < length fs = inside_of_ref fs i (omega (arith, counted)) in
    let less : sub_word (file_at fs i).ref 1 ≡ holds i hs - 1 =
      omega (arith, counted, holds-le i hs, c.few) in
    elim (Bool-cases (holds i hs == 1)) [
      | inl e ↦
          let last : is_below_one (sub_word (file_at fs i).ref 1) ≡ true = rw less (ground arith) in
          let f = record (file_at fs i) { ref = 0; type = fd_none } in
          rw (below, last, e)
            (
              refl,
              counted_write fs hs (without i hs) i f c inside (ground (arith, holds-without i hs))
                  (λ j far. holds-without_ne i j hs far)
                  (omega (arith, c.few, length-without_le i hs)),
              λ j far. file_at-set_ne fs i j f far,
            )
      | inr e ↦
          let more : is_below_one (sub_word (file_at fs i).ref 1) ≡ false =
            rw less (ground (arith, holds-le i hs, c.few)) in
          let f = record (file_at fs i) { ref = sub_word (file_at fs i).ref 1 } in
          rw (below, more, e)
            (
              refl,
              counted_write fs hs (without i hs) i f c inside (less ∙ sym (holds-without i hs))
                  (λ j far. holds-without_ne i j hs far)
                  (omega (arith, c.few, length-without_le i hs)),
              λ j far. file_at-set_ne fs i j f far,
            )
    ]
