-- ===== src/Syscall/Args.antt =====
-- src/syscall.c: what the checks of an argument let through.
use waka_b4_research.Base.{
  ℕ, zero, suc, ◌+◌, ◌-◌, ◌*◌, ◌^◌, ◌%◌, ◌≤◌, ◌<◌, ◌≡◌, ◌≢◌, ◌⊎◌, inl, inr, refl, ap, ◌∙◌, arith,
  Option, none, some, ◌||◌, ◌==◌, ltb, leb, Bool-cases, add_word,
}
use waka_b4_research.Syscall.{
  User, on_some, load_word, fetchint, scan_string, fetchstr, argint, argptr, argstr,
}

-- The top of user memory, KERNBASE.
abbrev pub user_top : ℕ
user_top = 2 ^ 31

-- The address of argument `n`.
abbrev pub arg_at : ℕ → User → ℕ
arg_at n u = (u.esp + 4 + 4 * n) % 2 ^ 32

-- The word is within the process.
abbrev pub HasWord : ℕ → User → Type 0
HasWord a u = a + 4 ≤ u.sz

-- A word is fetched just where all its four bytes are within the process.
fetchint_lem :
    (addr : ℕ) (u : User)
    → addr < 2 ^ 32
    → u.sz ≤ user_top
    → (HasWord addr u × (fetchint addr u ≡ some (load_word u.mem addr)))
      ⊎ ((u.sz < addr + 4) × (fetchint addr u ≡ none))
unfolding fetchint
fetchint_lem addr u word top = elim (Bool-cases (leb u.sz addr || ltb u.sz (add_word addr 4))) [
  | inl bad ↦ inr (ground arith, rw bad refl)
  | inr good ↦ inl (ground arith, rw good refl)
]

abbrev pub IsBlock : ℕ → ℕ → User → Type 0
IsBlock p size u = (size < 2 ^ 31) × (p < u.sz) × (p + size ≤ u.sz)

-- `argptr` on a process within user memory. Either it returns the argument, and the argument's word
-- and the whole block of `size` bytes behind the pointer are within the process, `size` not being
-- negative; or it fails, and the word is not within the process, or the block is not.
pub argptr_lem :
    (n size : ℕ) (u : User)
    → u.sz ≤ user_top
    → ((p : ℕ) × (argptr n size u ≡ some p)
        × HasWord (arg_at n u) u
        × (p ≡ load_word u.mem (arg_at n u))
        × IsBlock p size u)
      ⊎ ((argptr n size u ≡ none)
          × (HasWord (arg_at n u) u → IsBlock (load_word u.mem (arg_at n u)) size u → ⊥))
unfolding argptr argint
argptr_lem n size u top =
    let a = arg_at n u in
    let p = load_word u.mem a in
    elim (fetchint_lem a u (omega arith) top) [
      | inr (far, e) ↦ inr (rw e refl, λ word block. omega arith)
      | inl (word, e) ↦
          elim (Bool-cases (leb (2 ^ 31) size || leb u.sz p || ltb u.sz (add_word p size))) [
            | inl bad ↦
                inr (rw (e, bad) refl, λ word' block. ground (arith, block.0, block.1, block.2))
            | inr good ↦
                inl (p, rw (e, good) refl, word, refl, (ground arith, ground arith, ground arith))
          ]
    ]

-- A string of `len` bytes at `p`, with its 0 within the process.
pub record IsString (p len : ℕ) (u : User) : Type 0 where
  pub inside : p + len < u.sz
  pub ended : u.mem (p + len) ≡ 0
  pub first : (k : ℕ) → k < len → u.mem (p + k) ≢ 0

-- How the scan of `left` bytes from `s` on ends.
abbrev Scanned : (ℕ → ℕ) → ℕ → ℕ → ℕ → Option ℕ → Type 0
Scanned mem left s len none = (k : ℕ) → k < left → mem (s + k) ≢ 0
Scanned mem left s len (some l) =
    (k : ℕ) × (l ≡ len + k) × (k < left) × (mem (s + k) ≡ 0) × ((j : ℕ) → j < k → mem (s + j) ≢ 0)

nonzero_from :
    (mem : ℕ → ℕ) (s n : ℕ)
    → mem s ≢ 0
    → ((k : ℕ) → k < n → mem (s + 1 + k) ≢ 0)
    → (k : ℕ) → k < suc n
    → mem (s + k) ≢ 0
nonzero_from mem s n here h zero lt e = here (ap mem (omega arith) ∙ e)
nonzero_from mem s n here h (suc k) lt e = h k (omega arith) (ap mem (omega arith) ∙ e)

Scanned-later :
    (mem : ℕ → ℕ) (left s len : ℕ) (r : Option ℕ)
    → mem s ≢ 0
    → Scanned mem left (s + 1) (len + 1) r
    → Scanned mem (suc left) s len r
Scanned-later mem left s len none here h = nonzero_from mem s left here h
Scanned-later mem left s len (some l) here (k, e, lt, zero_byte, before) = (
  suc k,
  omega arith,
  omega arith,
  ap mem (omega arith) ∙ zero_byte,
  nonzero_from mem s k here before,
)

scan_string_lem :
    (mem : ℕ → ℕ) (left s len : ℕ) → Scanned mem left s len (scan_string mem left s len)
unfolding scan_string
scan_string_lem mem zero s len = λ k lt. absurd (omega arith)
scan_string_lem mem (suc left) s len = elim (Bool-cases (mem s == 0)) [
  | inl e ↦
      let end : mem s ≡ 0 = ground arith in
      rw e (0, omega arith, omega arith, ap mem (omega arith) ∙ end, λ j lt. absurd (omega arith))
  | inr e ↦
      let here : mem s ≢ 0 = λ p. ground arith in
      rw e (
        Scanned-later mem left s len (scan_string mem left (s + 1) (len + 1)) here
          (scan_string_lem mem left (s + 1) (len + 1)))
]

-- How `argstr` ends: with the argument and the length of the string behind it, or with -1.
abbrev pub ArgString : ℕ → User → Option (ℕ × ℕ) → Type 0
ArgString n u (some (p, len)) =
    HasWord (arg_at n u) u × (p ≡ load_word u.mem (arg_at n u)) × IsString p len u
ArgString n u none =
    HasWord (arg_at n u) u → (len : ℕ) → IsString (load_word u.mem (arg_at n u)) len u → ⊥

fetched :
    (n p : ℕ) (u : User) (r : Option ℕ)
    → HasWord (arg_at n u) u
    → p ≡ load_word u.mem (arg_at n u)
    → p < u.sz
    → Scanned u.mem (u.sz - p) p 0 r
    → ArgString n u (on_some r (λ len. some (p, len)))
fetched n p u none word at inside none_zero = λ word' len s.
    none_zero len (omega (arith, at, s.inside)) (ap (λ (a : ℕ). u.mem (a + len)) at ∙ s.ended)
fetched n p u (some l) word at inside (k, e, lt, zero_byte, before) =
    let same : l ≡ k = omega arith in
    (
      word,
      at,
      record {
        inside = omega arith;
        ended = rw same zero_byte;
        first = λ j lt'. before j (omega arith);
      },
    )

-- `argstr` on a process within user memory. It returns the argument and a length just where the
-- argument's word is within the process and a string of that length with its 0 is, the pointer being
-- the argument; it fails only where the word is not, or no string that ends within the process is
-- behind the pointer.
pub argstr_lem : (n : ℕ) (u : User) → u.sz ≤ user_top → ArgString n u (argstr n u)
unfolding argstr argint fetchstr
argstr_lem n u top =
    let a = arg_at n u in
    let p = load_word u.mem a in
    elim (fetchint_lem a u (omega arith) top) [
      | inr (far, e) ↦ rw e (λ word len s. omega arith)
      | inl (word, e) ↦ elim (Bool-cases (leb u.sz p)) [
        | inl out ↦
            let past : u.sz ≤ p = ground arith in
            rw (e, out) (λ word' len s. omega (arith, s.inside))
        | inr inside ↦
            rw (e, inside)
              (fetched n p u (scan_string u.mem (u.sz - p) p 0) word refl (ground arith)
                (scan_string_lem u.mem (u.sz - p) p 0))
      ]
    ]
