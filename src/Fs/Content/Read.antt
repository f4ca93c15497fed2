-- ===== src/Fs/Content/Read.antt =====
-- readi of src/fs.c: the bytes of the file come to the buffer.
use waka_b4_research.Base.{
  ℕ, zero, suc, ◌+◌, ◌-◌, ◌/◌, ◌%◌, ◌^◌, ◌<◌, ◌≤◌, ◌≡◌, ◌≢◌, ◌⊎◌, refl, ◌∙◌, arith, true, false,
  ◌&&◌, Option, ◌==◌, leb, ltb, if◌then◌else◌, Bool-cases, inl, inr, Outcome, ok, minus_one,
}
use waka_b4_research.Fs.{Super, Volume, block_size}
use waka_b4_research.Fs.Inode.{Inode, t_dev, max_bytes_of_file}
use waka_b4_research.Fs.Content.{copy_out, step_size, is_bad_range, read_from, read_size, readi}
use waka_b4_research.Fs.Content.Bytes.{block_of, byte_at, IsDense, bmap_there}

-- The `n` bytes at `dst` are those of the file from `off` on, and no others change.
abbrev pub IsRead : Inode → Volume → (off n dst : ℕ) → (ℕ → ℕ) → (ℕ → ℕ) → Type 0
IsRead ip v off n dst mem mem' =
    (x : ℕ)
    → mem' x ≡ (if leb dst x && ltb x (dst + n) then byte_at ip v (off + (x - dst)) else mem x)

module _ (sb : Super) (ip : Inode) (v : Volume) where
  -- The first `m` bytes are those of one block.
  first-IsRead :
      (off m left dst : ℕ) (mem mem' : ℕ → ℕ)
      → (block_of ip v off == 0) ≡ false
      → m ≡ step_size left off
      → IsRead ip v
          (off + m)
          (left - m)
          (dst + m)
          (copy_out (off % block_size) m dst (v.block (block_of ip v off)) mem)
          mem'
      → IsRead ip v off left dst mem mem'
  first-IsRead off m left dst mem mem' there e h x =
      elim (Bool-cases (leb dst x && ltb x (dst + m))) [
        | inl here ↦
            let out : (leb (dst + m) x && ltb x (dst + m + (left - m))) ≡ false = ground arith in
            let within : (leb dst x && ltb x (dst + left)) ≡ true = ground arith in
            let block : (off + (x - dst)) / block_size ≡ off / block_size = ground arith in
            let place : (off + (x - dst)) % block_size ≡ off % block_size + (x - dst) =
              ground arith in
            h x ∙ rw (out, here, within, block, place, there) refl
        | inr miss ↦ elim (Bool-cases (leb (dst + m) x && ltb x (dst + m + (left - m)))) [
          | inl more ↦
              let within : (leb dst x && ltb x (dst + left)) ≡ true = ground arith in
              let shift : off + m + (x - (dst + m)) ≡ off + (x - dst) = ground arith in
              h x ∙ rw (more, within, shift) refl
          | inr out ↦
              let without : (leb dst x && ltb x (dst + left)) ≡ false = ground arith in
              h x ∙ rw (out, miss, without) refl
        ]
      ]

  read_from_lem :
      (fuel left off dst : ℕ) (mem : ℕ → ℕ)
      → left < fuel
      → off + left ≤ max_bytes_of_file
      → ((x : ℕ) → off ≤ x → x < off + left → block_of ip v x ≢ 0)
      → (mem' : ℕ → ℕ) × (read_from sb fuel left off dst ip v mem ≡ ok (ip, v, mem'))
        × IsRead ip v off left dst mem mem'
  unfolding read_from
  read_from_lem zero left off dst mem enough small there = absurd (omega arith)
  read_from_lem (suc fuel) left off dst mem enough small there = elim (Bool-cases (left == 0)) [
    | inl e ↦ (
      mem,
      rw e refl,
      λ x. let out : (leb dst x && ltb x (dst + left)) ≡ false = ground arith in rw out refl,
    )
    | inr e ↦
        let m = step_size left off in
        let pos : 0 < m = ground arith in
        let le : m ≤ left = ground arith in
        let block : (block_of ip v off == 0) ≡ false =
          ground (arith, there off (omega arith) (ground arith)) in
        let (mem', run, read) =
          read_from_lem fuel (left - m) (off + m) (dst + m)
            (copy_out (off % block_size) m dst (v.block (block_of ip v off)) mem) (omega arith)
            (omega arith) (λ x low high. there x (omega arith) (omega arith)) in
        (
          mem',
          rw (e, bmap_there sb ip v (off / block_size) (ground arith) block) run,
          first-IsRead off m left dst mem mem' block refl read,
        )
  ]

  abbrev pub ReadEnds : (dst off n : ℕ) → (ℕ → ℕ) → Outcome (ℕ × Inode × Volume × (ℕ → ℕ)) → Type 0
  ReadEnds dst off n mem r =
      (((ip.size < off) ⊎ (2 ^ 32 ≤ off + n)) × (r ≡ ok (minus_one, ip, v, mem)))
      ⊎ ((off ≤ ip.size)
          × (off + n < 2 ^ 32)
          × ((mem' : ℕ → ℕ) × (r ≡ ok (read_size sb off n ip.size, ip, v, mem'))
              × IsRead ip v off (read_size sb off n ip.size) dst mem mem'))

  pub readi_lem :
      (device : Option (ℕ × (ℕ → ℕ))) (dst off n : ℕ) (mem : ℕ → ℕ)
      → ip.type ≢ t_dev
      → IsDense ip v
      → off < 2 ^ 32
      → n < 2 ^ 32
      → ReadEnds dst off n mem (readi sb device dst off n ip v mem)
  unfolding readi
  readi_lem device dst off n mem file dense word word' =
      let plain : (ip.type == t_dev) ≡ false = ground arith in
      elim (Bool-cases (is_bad_range off n ip.size)) [
        | inl bad ↦ inl (ground arith, rw (plain, bad) refl)
        | inr good ↦
            let k = read_size sb off n ip.size in
            let inside : off + k ≤ ip.size = ground arith in
            let (mem', run, read) =
              read_from_lem (suc k) k off dst mem (omega arith) (omega (arith, dense.small))
                (λ x low high. dense.blocks x (omega arith)) in
            inr (ground arith, ground arith, (mem', rw (plain, good, run) refl, read))
      ]
