-- ===== src/Fs/Alloc.antt =====
-- balloc and bfree of src/fs.c: which block is taken, and what it gives back.
use waka_b4_research.Base.{
  ℕ, zero, suc, ◌+◌, ◌-◌, ◌*◌, ◌%◌, ◌≤◌, ◌<◌, ◌≡◌, ◌≢◌, refl, ap, ◌∙◌, arith, true, false, Option,
  none, some, Outcome, ok, panic, Bool-cases, inl, inr, ltb, spins,
}
use waka_b4_research.Fs.{
  block_bits, Super, Volume, put_block, bzero, is_clear, set_bit, clear_bit, find_clear, bits_from,
  map_block, claim_block, or_later, balloc_from, map_blocks, balloc, bfree,
}
use waka_b4_research.Fs.Bits.{clear_bit-AreBytes, is_clear-clear_bit}
use waka_b4_research.Fs.Bitmap.{
  Found, find_clear_lem, is_free, IsMapBlock, IsInodeBlock, IsVolume, IsMarked, marked_lem,
  IsAllocated, BallocEnds, claimed-IsAllocated,
}

module _ (sb : Super) (v : Volume) (u : IsVolume sb v) where
  -- Every block of the file system below `b` is in use.
  abbrev UsedBelow : ℕ → Type 0
  UsedBelow b = (c : ℕ) → c < b → c < sb.size → is_free sb v c ≡ false

  abbrev bits_at : ℕ → ℕ → ℕ
  bits_at b = v.block (map_block sb b)

  used_up_to :
      (b q k : ℕ)
      → b ≡ q * block_bits
      → b < sb.size
      → UsedBelow b
      → ((j : ℕ) → j < k → is_clear (bits_at b) (0 + j) ≡ false)
      → k ≤ bits_from sb.size b
      → (c : ℕ) → c < b + k
      → is_free sb v c ≡ false
  used_up_to b q k e inside used none_clear fits c lt = elim (Bool-cases (ltb c b)) [
    | inl below ↦ used c (ground arith) (ground arith)
    | inr here ↦
        let bit : c % block_bits ≡ 0 + (c - b) = ground arith in
        let at : map_block sb c ≡ map_block sb b = ground arith in
        ap (λ (m : ℕ). is_clear (v.block m) (c % block_bits)) at
        ∙ ap (is_clear (bits_at b)) bit
        ∙ none_clear (c - b) (ground arith)
  ]

  -- The same with the block of the map and the bit as the loop has them.
  claimed_at :
      (a m bi : ℕ)
      → map_block sb a ≡ m
      → a % block_bits ≡ bi
      → a < sb.size
      → is_free sb v a ≡ true
      → ((c : ℕ) → c < a → is_free sb v c ≡ false)
      → IsAllocated sb v a (bzero a (put_block m (set_bit bi (v.block m)) v))
  claimed_at a m bi at bit small free before =
      rw⁻¹ (at, bit) (claimed-IsAllocated sb v u a small free before)

  claim_lem :
      (b q : ℕ) (r : Option ℕ) (later : Outcome (ℕ × Volume))
      → b ≡ q * block_bits
      → b < sb.size
      → UsedBelow b
      → Found (bits_from sb.size b) (bits_at b) 0 r
      → (UsedBelow (b + block_bits) → BallocEnds sb v later)
      → BallocEnds sb v (or_later sb (claim_block sb b r v) later)
  unfolding bzero
  claim_lem b q none later e small used none_clear go = go (λ c lt inside.
      used_up_to b q (bits_from sb.size b) e small used none_clear (omega arith) c (ground arith))
  claim_lem b q (some bi) later e small used (k, same, lt, clear, before) go =
      let bit : bi ≡ k = omega arith in
      let at : map_block sb (b + bi) ≡ map_block sb b = ground arith in
      let place : (b + bi) % block_bits ≡ bi = ground arith in
      let free : is_free sb v (b + bi) ≡ true = rw (at, place) clear in
      claimed_at (b + bi) (map_block sb b) bi at place (ground arith) free
        (λ c below. used_up_to b q k e small used before (ground arith) c (ground arith))

  balloc_from_lem :
      (left q b : ℕ)
      → b ≡ q * block_bits
      → left + q ≡ map_blocks sb
      → UsedBelow b
      → BallocEnds sb v (balloc_from sb left b v)
  unfolding balloc_from
  balloc_from_lem zero q b e rounds used = λ c lt. used c (omega arith) lt
  balloc_from_lem (suc left) q b e rounds used =
      claim_lem b q (find_clear (bits_from sb.size b) (bits_at b) 0)
        (balloc_from sb left (b + block_bits) v) e (omega arith) used
        (find_clear_lem (bits_from sb.size b) (bits_at b) 0)
        (λ more. balloc_from_lem left (q + 1) (b + block_bits) (omega arith) (omega arith) more)

  -- On a volume whose blocks are bytes and whose map has the boot block, itself and the inodes in
  -- use: `balloc` panics just where every block is in use. Otherwise it returns the first block that is
  -- free, which is then marked and all zeros; no other block is marked or freed, and no block but that
  -- one and those of the map changes.
  pub balloc_lem : BallocEnds sb v (balloc sb v)
  unfolding balloc
  balloc_lem = balloc_from_lem (map_blocks sb) 0 0 refl (omega arith) (λ c lt. absurd (omega arith))

  abbrev pub BfreeEnds : ℕ → Outcome Volume → Type 0
  BfreeEnds b (ok v') = (is_free sb v b ≡ false) × IsMarked sb true b v v'
  BfreeEnds b (panic _) = is_free sb v b ≡ true
  BfreeEnds b spins = ⊥

  -- On a volume whose blocks are bytes and whose map has the boot block, itself and the inodes in use,
  -- `bfree` of a block of the file system that is none of the boot block, the map and the
  -- inodes panics just if the block is free. Otherwise the block is free, no other block is marked or freed, and no block
  -- but those of the map changes.
  pub bfree_lem :
      (b : ℕ)
      → b < sb.size
      → b ≢ 0
      → (IsMapBlock sb b → ⊥)
      → (IsInodeBlock sb b → ⊥)
      → BfreeEnds b (bfree sb b v)
  unfolding bfree
  bfree_lem b small pos apart away = elim (Bool-cases (is_free sb v b)) [
    | inl e ↦ rw e e
    | inr e ↦ rw e (
      e,
      marked_lem sb v u b small (clear_bit (b % block_bits) (bits_at b)) true
          (clear_bit-AreBytes (bits_at b) (b % block_bits) 0 (u.bytes (map_block sb b))) pos apart
          away
          (λ bj. is_clear-clear_bit (bits_at b) (b % block_bits) bj (u.bytes (map_block sb b))),
    )
  ]
