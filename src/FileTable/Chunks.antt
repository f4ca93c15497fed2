-- ===== src/FileTable/Chunks.antt =====
-- src/file.c: filewrite to an inode, a transaction at a time.
use waka_b4_research.Base.{
  ℕ, zero, suc, ◌+◌, ◌-◌, ◌*◌, ◌/◌, ◌^◌, ◌%◌, ◌≤◌, ◌<◌, ◌≡◌, ◌≢◌, ◌⊎◌, inl, inr, refl, sym, ap, ◌∙◌,
  arith, true, false, Option, none, some, List, [], ◌∷◌, ◌++◌, ◌==◌, ltb, leb, if◌then◌else◌,
  Outcome, ok, panic, spins, Bool-cases, Option-cases, minus_one, on_ok,
}
use waka_b4_research.FsLog.{max_op_blocks}
use waka_b4_research.FileTable.{
  File, fd_inode, max_bytes, Chunk, chunk_size, Progress, next_chunk, chunk_loop, filewrite, moved,
  is_below_one,
}

-- Wherever they go in a file, so many bytes touch few enough blocks for one operation of the log: a block
-- of the free map may go with each block of the file, and the blocks of the inode and the indirect
-- block are written too.
abbrev pub FitsOp : ℕ → Type 0
FitsOp size = (at : ℕ) → 2 + 2 * ((at + size - 1) / 512 - at / 512 + 1) ≤ max_op_blocks

max_bytes-FitsOp : (size : ℕ) → 0 < size → size ≤ max_bytes → FitsOp size
max_bytes-FitsOp size pos le at = omega arith

-- The chunks are one behind the other, cover the bytes from `i` up to `m` of the buffer, and stand as
-- far behind `off` in the file; each has a byte and fits an operation of the log.
abbrev pub Covers : ℕ → ℕ → ℕ → List Chunk → Type 0
Covers off i m [] = i ≡ m
Covers off i m (c ∷ cs) =
    (c.from ≡ i)
    × (c.at ≡ (off + i) % 2 ^ 32)
    × (0 < c.size)
    × FitsOp c.size
    × Covers off (i + c.size) m cs

Covers-append :
    (off i m : ℕ) (cs : List Chunk) (c : Chunk)
    → Covers off i m cs
    → c.from ≡ m
    → c.at ≡ (off + m) % 2 ^ 32
    → 0 < c.size
    → FitsOp c.size
    → Covers off i (m + c.size) (cs ++ c ∷ [])
Covers-append off i m [] c h from at pos small = (
  from ∙ sym h,
  at ∙ ap (λ (k : ℕ). (off + k) % 2 ^ 32) (sym h),
  pos,
  small,
  ap (λ (k : ℕ). k + c.size) h,
)
Covers-append off i m (d ∷ cs) c h from at pos small =
    (h.0, h.1, h.2, h.3, Covers-append off (i + d.size) m cs c h.4 from at pos small)

module _ (writei : Chunk → Option ℕ) (off n : ℕ) where
  -- What is written: all of it, or the bytes before a chunk that fails.
  pub record IsWritten (p : Progress) : Type 0 where
    pub done : List Chunk
    pub covers : Covers off 0 p.done done
    pub at : p.file.off ≡ (off + p.done) % 2 ^ 32
    pub ends :
        ((p.done ≡ n) × (p.chunks ≡ done))
        ⊎ ((c : Chunk) × (p.done < n) × (p.chunks ≡ done ++ c ∷ []) × (writei c ≡ none))

  -- A chunk of which only some bytes are written.
  abbrev pub IsShort : Type 0
  IsShort = (c : Chunk) × (r : ℕ) × (writei c ≡ some r) × (r ≢ c.size)

  abbrev Ends : Outcome Progress → Type 0
  Ends (ok p) = IsWritten p
  Ends (panic _) = IsShort
  Ends spins = ⊥

  chunk_size-bounds :
      (rest : ℕ)
      → 0 < rest
      → (0 < chunk_size rest) × (chunk_size rest ≤ max_bytes) × (chunk_size rest ≤ rest)
  chunk_size-bounds rest h = (ground arith, ground arith, ground arith)

  off-moved :
      (f : File) (i r : ℕ)
      → f.off ≡ (off + i) % 2 ^ 32
      → 0 < r
      → r < 2 ^ 31
      → (moved r f).off ≡ (off + (i + r)) % 2 ^ 32
  off-moved f i r at pos small =
      let sign : is_below_one r ≡ false = ground arith in rw sign (omega arith)

  chunk_loop_lem :
      (fuel i : ℕ) (f : File) (cs : List Chunk)
      → n - i < fuel
      → i ≤ n
      → f.off ≡ (off + i) % 2 ^ 32
      → Covers off 0 i cs
      → Ends (chunk_loop writei fuel n i f cs)
  unfolding chunk_loop
  chunk_loop_lem zero i f cs enough le at h = absurd (omega arith)
  chunk_loop_lem (suc fuel) i f cs enough le at h = elim (Bool-cases (ltb i n)) [
    | inr e ↦
        let all : i ≡ n = ground arith in
        rw e (record { done = cs; covers = h; at = at; ends = inl (all, refl) })
    | inl e ↦
        let lt : i < n = ground arith in
        let c = next_chunk writei n i f in
        let size = chunk_size-bounds (n - i) (omega arith) in
        elim (Option-cases (writei c)) [
          | inl broken ↦
              rw (e, broken)
                (record { done = cs; covers = h; at = at; ends = inr (c, lt, refl, broken) })
          | inr (r, answer) ↦ elim (Bool-cases (r == c.size)) [
            | inr short ↦ rw (e, answer, short) (c, r, answer, λ p. ground arith)
            | inl full ↦
                let whole : r ≡ c.size = ground arith in
                rw (e, answer, full)
                  (chunk_loop_lem fuel (i + r) (moved r f) (cs ++ c ∷ [])
                    (omega (arith, size, whole)) (omega (arith, size, whole))
                    (off-moved f i r at (omega (arith, size, whole)) (omega (arith, size, whole)))
                    (rw whole (
                      Covers-append off 0 i cs c h refl at size.0
                        (max_bytes-FitsOp c.size size.0 size.1))))
          ]
        ]
  ]

  abbrev pub WriteEnds : Outcome (ℕ × Progress) → Type 0
  WriteEnds (ok (r, p)) =
      IsWritten p × (((r ≡ n) × (p.done ≡ n)) ⊎ ((r ≡ minus_one) × (p.done < n)))
  WriteEnds (panic _) = IsShort
  WriteEnds spins = ⊥

  write_ends :
      (r : Outcome Progress)
      → Ends r
      → WriteEnds (on_ok r (λ p. ok (if p.done == n then n else minus_one, p)))
  write_ends (ok p) h = elim (Bool-cases (p.done == n)) [
    | inl e ↦ rw e (h, inl (refl, ground arith))
    | inr e ↦
        let lt : p.done < n = elim h.ends [ inl a ↦ absurd (ground (arith, a.0)) | inr b ↦ b.1 ] in
        rw e (h, inr (refl, lt))
  ]
  write_ends (panic _) h = h
  write_ends spins h = h

-- `filewrite` of `n` bytes, fewer than 2 ^ 31, to a writable inode whose offset is `off`, whatever the calls of writei
-- answer. It panics only where one of them writes a part of its chunk. Otherwise it returns: `n`, and
-- the chunks cover the `n` bytes in order, in the file from `off` on, each such that, wherever it lies, the
-- blocks that it touches, as many of the free map, the inode and the indirect block are at most those of
-- one operation; or -1, and such chunks cover the bytes before one that fails. The offset moves by the bytes
-- that are covered.
pub filewrite_lem :
    (writei : Chunk → Option ℕ) (to_pipe n : ℕ) (f : File)
    → f.writable ≡ true
    → f.type ≡ fd_inode
    → f.off < 2 ^ 32
    → n < 2 ^ 31
    → WriteEnds writei f.off n (filewrite writei to_pipe n f)
unfolding filewrite
filewrite_lem writei to_pipe n f writable inode word small =
    let sign : leb (2 ^ 31) n ≡ false = ground arith in
    simp (writable, inode, sign)
      (write_ends writei f.off n (chunk_loop writei (suc n) n 0 f []) (
        chunk_loop_lem writei f.off n (suc n) 0 f [] (omega arith) (omega arith) (omega arith)
          refl))
