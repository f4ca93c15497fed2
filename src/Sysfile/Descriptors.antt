-- ===== src/Sysfile/Descriptors.antt =====
-- src/sysfile.c: dup and close keep the reference counts equal to the descriptors.
use waka_b4_research.Base.{
  ℕ, zero, suc, ◌+◌, ◌-◌, ◌^◌, ◌≤◌, ◌<◌, ◌≡◌, ◌≢◌, ◌⊎◌, inl, inr, refl, sym, ap, ◌∙◌, arith, ◌||◌,
  Option, none, some, List, [], ◌∷◌, ◌++◌, ◌==◌, leb, if◌then◌else◌, Outcome, ok, on_ok, panic,
  spins, Returns, Bool-cases, Option-cases, length, get_elem?, get_or, set, find_index-cases,
  minus_one,
}
use waka_b4_research.Syscall.{argint}
use waka_b4_research.FileTable.{
  File, file_at, filedup, fileclose, Closing, keeps, closing_of, FileType, fd_none, fd_pipe,
  fd_inode, closes_pipe, puts_inode,
}
use waka_b4_research.FileTable.Refs.{
  AreCounted, holds, without, filedup_lem, fileclose_lem, holds-without, holds-without_ne,
  holds-cons_self, holds-cons_ne,
}
use waka_b4_research.Sysfile.{Desc, nofile, open_file, argfd, fdalloc, sys_dup, sys_close}

-- The files that the descriptors hold, one entry for each descriptor.
abbrev pub opened : List ℕ → List ℕ
opened [] = []
opened (zero ∷ fs) = opened fs
opened (suc i ∷ fs) = i ∷ opened fs

-- The counts are those of this process's descriptors and of `others`.
abbrev pub IsOpen : Desc → List ℕ → Type 0
IsOpen s others = AreCounted s.files (opened s.ofile ++ others)

holds-opened-set :
    (j i : ℕ) (ofile others : List ℕ) (fd : ℕ)
    → get_elem? ofile fd ≡ some 0
    → holds j (opened (set ofile fd (suc i)) ++ others) ≡ holds j (i ∷ (opened ofile ++ others))
holds-opened-set j i [] others fd e = cc
holds-opened-set j i (zero ∷ fs) others zero e = refl
holds-opened-set j i (suc k ∷ fs) others zero e = cc
holds-opened-set j i (zero ∷ fs) others (suc fd) e = holds-opened-set j i fs others fd e
holds-opened-set j i (suc k ∷ fs) others (suc fd) e =
    let later = holds-opened-set j i fs others fd e in ground (arith, later)

length-opened-set :
    (i : ℕ) (ofile others : List ℕ) (fd : ℕ)
    → get_elem? ofile fd ≡ some 0
    → length (opened (set ofile fd (suc i)) ++ others) ≡ suc (length (opened ofile ++ others))
length-opened-set i [] others fd e = cc
length-opened-set i (zero ∷ fs) others zero e = refl
length-opened-set i (suc k ∷ fs) others zero e = cc
length-opened-set i (zero ∷ fs) others (suc fd) e = length-opened-set i fs others fd e
length-opened-set i (suc k ∷ fs) others (suc fd) e = ap suc (length-opened-set i fs others fd e)

holds-opened_clear :
    (j i : ℕ) (ofile others : List ℕ) (fd : ℕ)
    → get_or ofile fd 0 ≡ suc i
    → holds j (opened ofile ++ others) ≡ holds j (i ∷ (opened (set ofile fd 0) ++ others))
holds-opened_clear j i [] others fd e = absurd (omega arith)
holds-opened_clear j i (zero ∷ fs) others zero e = absurd (omega arith)
holds-opened_clear j i (suc k ∷ fs) others zero e =
    let same : k ≡ i = omega arith in ap (λ (x : ℕ). holds j (x ∷ (opened fs ++ others))) same
holds-opened_clear j i (zero ∷ fs) others (suc fd) e = holds-opened_clear j i fs others fd e
holds-opened_clear j i (suc k ∷ fs) others (suc fd) e =
    let later = holds-opened_clear j i fs others fd e in ground (arith, later)

length-opened_clear :
    (ofile others : List ℕ) (fd : ℕ)
    → length (opened (set ofile fd 0) ++ others) ≤ length (opened ofile ++ others)
length-opened_clear [] others fd = omega arith
length-opened_clear (zero ∷ fs) others zero = omega arith
length-opened_clear (suc k ∷ fs) others zero = omega arith
length-opened_clear (zero ∷ fs) others (suc fd) = length-opened_clear fs others fd
length-opened_clear (suc k ∷ fs) others (suc fd) = omega (arith, length-opened_clear fs others fd)

holds-cleared :
    (j i : ℕ) (ofile others : List ℕ) (fd : ℕ)
    → get_or ofile fd 0 ≡ suc i
    → holds j (opened (set ofile fd 0) ++ others) ≡ holds j (without i (opened ofile ++ others))
holds-cleared j i ofile others fd e =
    let kept = opened (set ofile fd 0) ++ others in
    elim (Bool-cases (j == i)) [
      | inl h ↦
          let same : j ≡ i = ground arith in
          rw same (
            omega (
              arith,
              holds-without i (opened ofile ++ others),
              holds-cons_self i kept,
              holds-opened_clear i i ofile others fd e,
            ))
      | inr h ↦
          let far : j ≢ i = λ p. ground arith in
          sym (holds-cons_ne i j kept far)
          ∙ sym (holds-opened_clear j i ofile others fd e)
          ∙ sym (holds-without_ne i j (opened ofile ++ others) far)
    ]

AreCounted-same :
    (fs : List File) (hs hs' : List ℕ)
    → AreCounted fs hs
    → ((j : ℕ) → holds j hs' ≡ holds j hs)
    → length hs' < 2 ^ 31
    → AreCounted fs hs'
AreCounted-same fs hs hs' c same few = record { exact = λ j. c.exact j ∙ sym (same j); few = few }

-- `argfd` fails, or what it lets through is a descriptor that is open.
abbrev pub IsArgfd : List ℕ → Option (ℕ × ℕ) → Type 0
IsArgfd ofile r =
    (r ≡ none)
    ⊎ ((fd : ℕ) × (i : ℕ) × (r ≡ some (fd, suc i)) × (fd < nofile) × (get_or ofile fd 0 ≡ suc i))

open_file-cases : (ofile : List ℕ) (fd : ℕ) → IsArgfd ofile (open_file ofile fd)
open_file-cases ofile fd = split (get_or ofile fd 0) refl
  where
    split : (f : ℕ) → get_or ofile fd 0 ≡ f → IsArgfd ofile (open_file ofile fd)
    split zero e = inl (ground (arith, e))
    split (suc i) e = elim (Bool-cases (leb (2 ^ 31) fd || leb nofile fd)) [
      | inl bad ↦ inl (ground (arith, bad))
      | inr good ↦ inr (fd, i, ground (arith, e, good), ground arith, e)
    ]

pub argfd-cases : (n : ℕ) (s : Desc) → IsArgfd s.ofile (argfd n s)
unfolding argfd
argfd-cases n s = elim (Option-cases (argint n s.user)) [
  | inl missing ↦ inl (rw missing refl)
  | inr (fd, found) ↦ rw found (open_file-cases s.ofile fd)
]

holds-opened :
    (i : ℕ) (ofile others : List ℕ) (fd : ℕ)
    → get_or ofile fd 0 ≡ suc i
    → 0 < holds i (opened ofile ++ others)
holds-opened i ofile others fd e = omega (
  arith,
  holds-opened_clear i i ofile others fd e,
  holds-cons_self i (opened (set ofile fd 0) ++ others),
)

-- What `sys_dup` did: nothing, or a descriptor that was closed now holds the argument's file.
pub data Dup (s s' : Desc) (r : ℕ) : Type 0 where
  dup_failed : r ≡ minus_one → s' ≡ s → Dup s s' r
  dup_done :
      (fd i : ℕ)
      → argfd 0 s ≡ some (fd, suc i)
      → get_elem? s.ofile r ≡ some 0
      → s'.ofile ≡ set s.ofile r (suc i)
      → Dup s s' r

-- `dup`, where the counts are those of the descriptors and there is room for one more: it does not
-- panic, the counts are those of the descriptors again, and it has either failed and changed
-- nothing, or made a closed descriptor hold the file of the argument.
pub sys_dup_lem :
    (s : Desc) (others : List ℕ)
    → IsOpen s others
    → length (opened s.ofile ++ others) + 1 < 2 ^ 31
    → Returns (λ r s'. IsOpen s' others × Dup s s' r) (sys_dup s)
unfolding sys_dup fdalloc
sys_dup_lem s others c room = elim (argfd-cases 0 s) [
  | inl e ↦ rw e (c, dup_failed refl refl)
  | inr (fd, i, e, _, at) ↦ elim (find_index-cases (λ f. f == 0) s.ofile) [
    | inl (full, _) ↦ rw (e, full) (c, dup_failed refl refl)
    | inr (k, x, free, first) ↦
        let closed : get_elem? s.ofile k ≡ some 0 =
          first.at ∙ ap some (ground (arith, first.passes)) in
        let index : suc i - 1 ≡ i = omega arith in
        rw (e, free, index)
          (duplicated s others k i fd e closed room (filedup i s.files) (
            filedup_lem s.files (opened s.ofile ++ others) i c (holds-opened i s.ofile others fd at)
              room))
  ]
]
  where
    duplicated :
        (s : Desc) (others : List ℕ) (k i fd : ℕ)
        → argfd 0 s ≡ some (fd, suc i)
        → get_elem? s.ofile k ≡ some 0
        → length (opened s.ofile ++ others) + 1 < 2 ^ 31
        → (r : Outcome (ℕ × List File))
        → Returns
            (λ r fs'.
              (r ≡ i)
              × AreCounted fs' (i ∷ (opened s.ofile ++ others))
              × ((j : ℕ) → j ≢ i → file_at fs' j ≡ file_at s.files j))
            r
        → Returns
            (λ r s'. IsOpen s' others × Dup s s' r)
            (on_ok r (λ (_, fs). ok (k, record s { ofile = set s.ofile k (suc i); files = fs })))
    duplicated s others k i fd e closed room (ok (_, fs)) (_, counts, _) = (
      AreCounted-same fs (i ∷ (opened s.ofile ++ others)) (opened (set s.ofile k (suc i)) ++ others)
          counts (λ j. holds-opened-set j i s.ofile others k closed)
          (omega (arith, length-opened-set i s.ofile others k closed)),
      dup_done fd i e closed refl,
    )
    duplicated s others k i fd e closed room (panic _) h = absurd h
    duplicated s others k i fd e closed room spins h = absurd h

-- The argument is no descriptor that is open.
abbrev pub IsNotOpen : Desc → Type 0
IsNotOpen s =
    (argint 0 s.user ≡ none)
    ⊎ ((fd : ℕ) × (argint 0 s.user ≡ some fd) × ((16 ≤ fd) ⊎ (get_or s.ofile fd 0 ≡ 0)))

-- The argument is the open descriptor `fd` of file `i`.
abbrev pub IsOpenAt : Desc → ℕ → ℕ → Type 0
IsOpenAt s fd i = (argint 0 s.user ≡ some fd) × (fd < 16) × (get_or s.ofile fd 0 ≡ suc i)

argfd-open :
    (s : Desc)
    → ((argfd 0 s ≡ none) × IsNotOpen s)
      ⊎ ((fd : ℕ) × (i : ℕ) × (argfd 0 s ≡ some (fd, suc i)) × IsOpenAt s fd i)
unfolding argfd
argfd-open s = elim (Option-cases (argint 0 s.user)) [
  | inl missing ↦ inl (rw missing refl, inl missing)
  | inr (fd, found) ↦
      elim (Bool-cases (leb (2 ^ 31) fd || leb nofile fd || (get_or s.ofile fd 0 == 0))) [
        | inl bad ↦ inl (rw (found, bad) refl, inr (fd, found, ground arith))
        | inr good ↦
            let back : suc (get_or s.ofile fd 0 - 1) ≡ get_or s.ofile fd 0 = ground arith in
            inr (
              fd,
              get_or s.ofile fd 0 - 1,
              rw (found, good) (ap (λ (f : ℕ). some (fd, f)) (sym back)),
              (found, ground arith, sym back),
            )
      ]
]

-- What becomes of what the file leads to.
abbrev pub GivesBack : File → Closing → Type 0
GivesBack f c =
    ((f.type ≡ fd_pipe) × (c ≡ closes_pipe f.pipe f.writable))
    ⊎ ((f.type ≡ fd_inode) × (c ≡ puts_inode f.ip))
    ⊎ ((f.type ≡ fd_none) × (c ≡ keeps))

closing_of-GivesBack : (t : FileType) (f : File) → f.type ≡ t → GivesBack f (closing_of t f)
closing_of-GivesBack fd_pipe f e = inl (e, refl)
closing_of-GivesBack fd_inode f e = inr (inl (e, refl))
closing_of-GivesBack fd_none f e = inr (inr (e, refl))

-- Where `n` descriptors hold the file.
abbrev pub LastGivesBack : ℕ → File → Closing → Type 0
LastGivesBack n f c = ((n ≡ 1) × GivesBack f c) ⊎ ((n ≢ 1) × (c ≡ keeps))

closed-LastGivesBack :
    (n : ℕ) (f : File) → LastGivesBack n f (if n == 1 then closing_of f.type f else keeps)
closed-LastGivesBack n f = elim (Bool-cases (n == 1)) [
  | inl e ↦ rw e (inl (ground arith, closing_of-GivesBack f.type f refl))
  | inr e ↦ rw e (inr (λ z. ground arith, refl))
]

-- What `sys_close` did: nothing, or the descriptor is closed, and what the file leads to is given back
-- if nothing else holds the file.
pub data Close (s s' : Desc) (others : List ℕ) : ℕ × Closing → Type 0 where
  close_failed : IsNotOpen s → s' ≡ s → Close s s' others (minus_one, keeps)
  close_done :
      (fd i : ℕ) (c : Closing)
      → IsOpenAt s fd i
      → s'.ofile ≡ set s.ofile fd 0
      → LastGivesBack (holds i (opened s.ofile ++ others)) (file_at s.files i) c
      → Close s s' others (0, c)

-- `close`, where the counts are those of the descriptors: it does not panic, the counts are those of
-- the descriptors again, and it does one of two things. If its argument is missing or no open
-- descriptor, it fails and changes nothing. Otherwise the descriptor is closed; if no other
-- descriptor holds the file, its pipe is closed at the file's end or its inode is put, by the file's
-- type, and if another does, neither.
pub sys_close_lem :
    (s : Desc) (others : List ℕ)
    → IsOpen s others
    → Returns (λ r s'. IsOpen s' others × Close s s' others r) (sys_close s)
unfolding sys_close
sys_close_lem s others c = elim (argfd-open s) [
  | inl (e, why) ↦ rw e (c, close_failed why refl)
  | inr (fd, i, e, open_at) ↦
      let index : suc i - 1 ≡ i = omega arith in
      rw (e, index)
        (closed s others i fd open_at c.few (fileclose i s.files) (
          fileclose_lem s.files (opened s.ofile ++ others) i c
            (holds-opened i s.ofile others fd open_at.2)))
]
  where
    closed :
        (s : Desc) (others : List ℕ) (i fd : ℕ)
        → IsOpenAt s fd i
        → length (opened s.ofile ++ others) < 2 ^ 31
        → (r : Outcome (Closing × List File))
        → Returns
            (λ r fs'.
              (r ≡ (
                if holds i (opened s.ofile ++ others) == 1
                then closing_of (file_at s.files i).type (file_at s.files i)
                else keeps))
              × AreCounted fs' (without i (opened s.ofile ++ others))
              × ((j : ℕ) → j ≢ i → file_at fs' j ≡ file_at s.files j))
            r
        → Returns
            (λ r s'. IsOpen s' others × Close s s' others r)
            (on_ok r (λ (c, fs). ok ((0, c), record s { ofile = set s.ofile fd 0; files = fs })))
    closed s others i fd open_at small (ok (c, fs)) (same, counts, _) = (
      AreCounted-same fs (without i (opened s.ofile ++ others))
          (opened (set s.ofile fd 0) ++ others) counts
          (λ j. holds-cleared j i s.ofile others fd open_at.2)
          (omega (arith, length-opened_clear s.ofile others fd)),
      close_done fd i c open_at refl
          (rw same (closed-LastGivesBack (holds i (opened s.ofile ++ others)) (file_at s.files i))),
    )
    closed s others i fd open_at small (panic _) h = absurd h
    closed s others i fd open_at small spins h = absurd h
