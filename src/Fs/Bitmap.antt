-- ===== src/Fs/Bitmap.antt =====
-- balloc and bfree of src/fs.c on the free map.
use waka_b4_research.Base.{
  ℕ, zero, suc, ◌+◌, ◌%◌, ◌^◌, ◌≤◌, ◌<◌, ◌≡◌, ◌≢◌, inl, inr, refl, ap, ◌∙◌, arith, Bool, true,
  false, Option, none, some, ◌==◌, if◌then◌else◌, Outcome, ok, panic, spins, Bool-cases,
  update_self, update_else,
}
use waka_b4_research.Fs.{
  block_bits, Super, Volume, put_block, zero_block, bzero, is_clear, set_bit, find_clear, map_block,
  inode_block, map_blocks,
}
use waka_b4_research.Fs.Bits.{AreBytes, is_clear-set_bit, set_bit-AreBytes}

-- How the inner loop ends: at the first clear bit of the `left` from `bi` on, or with none.
abbrev pub Found : ℕ → (ℕ → ℕ) → ℕ → Option ℕ → Type 0
Found left x bi none = (k : ℕ) → k < left → is_clear x (bi + k) ≡ false
Found left x bi (some r) =
    (k : ℕ) × (r ≡ bi + k)
    × (k < left)
    × (is_clear x r ≡ true)
    × ((j : ℕ) → j < k → is_clear x (bi + j) ≡ false)

set_from :
    (x : ℕ → ℕ) (bi n : ℕ)
    → is_clear x bi ≡ false
    → ((k : ℕ) → k < n → is_clear x (bi + 1 + k) ≡ false)
    → (k : ℕ) → k < suc n
    → is_clear x (bi + k) ≡ false
set_from x bi n here h zero lt = ap (is_clear x) (omega arith) ∙ here
set_from x bi n here h (suc k) lt = ap (is_clear x) (omega arith) ∙ h k (omega arith)

Found-later :
    (left : ℕ) (x : ℕ → ℕ) (bi : ℕ) (r : Option ℕ)
    → is_clear x bi ≡ false
    → Found left x (bi + 1) r
    → Found (suc left) x bi r
Found-later left x bi none here h = set_from x bi left here h
Found-later left x bi (some r) here (k, e, lt, clear, before) =
    (suc k, omega arith, omega arith, clear, set_from x bi k here before)

pub find_clear_lem : (left : ℕ) (x : ℕ → ℕ) (bi : ℕ) → Found left x bi (find_clear left x bi)
unfolding find_clear
find_clear_lem zero x bi = λ k lt. absurd (omega arith)
find_clear_lem (suc left) x bi = elim (Bool-cases (is_clear x bi)) [
  | inl e ↦ rw e (0, omega arith, omega arith, e, λ j lt. absurd (omega arith))
  | inr e ↦
      rw e (Found-later left x bi (find_clear left x (bi + 1)) e (find_clear_lem left x (bi + 1)))
]

module _ (sb : Super) where
  -- Block `b` is free in the map.
  abbrev pub is_free : Volume → ℕ → Bool
  is_free v b = is_clear (v.block (map_block sb b)) (b % block_bits)

  abbrev pub IsMapBlock : ℕ → Type 0
  IsMapBlock m = (sb.bmapstart ≤ m) × (m < sb.bmapstart + map_blocks sb)

  -- One of the blocks that hold the inodes.
  abbrev pub IsInodeBlock : ℕ → Type 0
  IsInodeBlock b = (i : ℕ) × (i < sb.ninodes) × (b ≡ inode_block sb i)

  -- The number of blocks is a `uint`; blocks are bytes; the boot block, the blocks of the map and those of the inodes, which are others,
  -- are in use.
  pub record IsVolume (v : Volume) : Type 0 where
    pub word : sb.size < 2 ^ 32
    pub bytes : (b : ℕ) → AreBytes (v.block b)
    pub boot : is_free v 0 ≡ false
    pub mapped : (m : ℕ) → IsMapBlock m → (m < sb.size) × (is_free v m ≡ false)
    pub inodes :
        (b : ℕ) → IsInodeBlock b → (b < sb.size) × (is_free v b ≡ false) × (IsMapBlock b → ⊥)

  -- The map marks `a` and otherwise the same blocks; no block but `a` and those of the map changes.
  pub record IsMarked (free : Bool) (a : ℕ) (v v' : Volume) : Type 0 where
    pub marks : (c : ℕ) → c < sb.size → is_free v' c ≡ (if c == a then free else is_free v c)
    pub others : (b : ℕ) → b ≢ a → (IsMapBlock b → ⊥) → v'.block b ≡ v.block b
    pub volume : IsVolume v'

  map_block-IsMapBlock : (c : ℕ) → c < sb.size → IsMapBlock (map_block sb c)
  map_block-IsMapBlock c lt = (omega arith, omega arith)

  -- One bit of the map is rewritten.
  marks-put :
      (v : Volume) (a : ℕ) (x : ℕ → ℕ) (free : Bool)
      → ((bj : ℕ)
          → is_clear x bj
            ≡ (if bj == a % block_bits then free else is_clear (v.block (map_block sb a)) bj))
      → (c : ℕ)
      → is_free (put_block (map_block sb a) x v) c ≡ (if c == a then free else is_free v c)
  marks-put v a x free h c = elim (Bool-cases (map_block sb c == map_block sb a)) [
    | inl e ↦
        let same : map_block sb c ≡ map_block sb a = ground arith in
        rw (same, update_self v.block (map_block sb a) x) (h (c % block_bits) ∙ ground arith)
    | inr e ↦
        let far : map_block sb c ≢ map_block sb a = λ p. ground arith in
        let other : (c == a) ≡ false = ground arith in
        rw (update_else v.block (map_block sb a) (map_block sb c) x far, other) refl
  ]

  module _ (v : Volume) (u : IsVolume v) (a : ℕ) (lt : a < sb.size) where
    abbrev pub marked : (ℕ → ℕ) → Volume
    marked x = put_block (map_block sb a) x v

    map_in_use : IsMapBlock (map_block sb a)
    map_in_use = map_block-IsMapBlock a lt

    marked-bytes : (x : ℕ → ℕ) → AreBytes x → (b : ℕ) → AreBytes ((marked x).block b)
    marked-bytes x h b i = elim (Bool-cases (b == map_block sb a)) [
      | inl e ↦ rw e (h i)
      | inr e ↦ rw e (u.bytes b i)
    ]

    -- `a` is no block that must stay in use, and its bit of the map is set to `free`.
    pub marked_lem :
        (x : ℕ → ℕ) (free : Bool)
        → AreBytes x
        → a ≢ 0
        → (IsMapBlock a → ⊥)
        → (IsInodeBlock a → ⊥)
        → ((bj : ℕ)
            → is_clear x bj
              ≡ (if bj == a % block_bits then free else is_clear (v.block (map_block sb a)) bj))
        → IsMarked free a v (marked x)
    marked_lem x free h pos apart away bits = record {
      marks = λ c small. marks-put v a x free bits c;
      others =
          λ b far other. update_else v.block (map_block sb a) b x (λ e. other (rw e map_in_use));
      volume = record {
        word = u.word;
        bytes = marked-bytes x h;
        boot =
            let far : (0 == a) ≡ false = ground arith in
            marks-put v a x free bits 0 ∙ rw far u.boot;
        mapped = λ m in_map.
            let far : (m == a) ≡ false = elim (Bool-cases (m == a)) [
              | inl e ↦ let same : m ≡ a = ground arith in absurd (apart (rw (← same) in_map))
              | inr e ↦ e
            ] in
            ((u.mapped m in_map).0, marks-put v a x free bits m ∙ rw far (u.mapped m in_map).1);
        inodes = λ b is_inode.
            let far : (b == a) ≡ false = elim (Bool-cases (b == a)) [
              | inl e ↦ let same : b ≡ a = ground arith in absurd (away (rw (← same) is_inode))
              | inr e ↦ e
            ] in
            let (small, in_use, not_map) = u.inodes b is_inode in
            (small, marks-put v a x free bits b ∙ rw far in_use, not_map);
      };
    }

    -- A block that need not stay in use is written.
    pub put_data-IsVolume :
        (x : ℕ → ℕ)
        → AreBytes x
        → (IsMapBlock a → ⊥)
        → IsVolume (put_block a x v)
          × ((c : ℕ) → c < sb.size → is_free (put_block a x v) c ≡ is_free v c)
    put_data-IsVolume x h apart = (
      record {
        word = u.word;
        bytes =
            λ b i. elim (Bool-cases (b == a)) [ inl e ↦ rw e (h i) | inr e ↦ rw e (u.bytes b i) ];
        boot = kept 0 (omega arith) ∙ u.boot;
        mapped = λ m in_map.
            ((u.mapped m in_map).0, kept m (u.mapped m in_map).0 ∙ (u.mapped m in_map).1);
        inodes = λ b is_inode.
            let (small, in_use, not_map) = u.inodes b is_inode in
            (small, kept b small ∙ in_use, not_map);
      },
      kept,
    )
      where
        kept : (c : ℕ) → c < sb.size → is_free (put_block a x v) c ≡ is_free v c
        kept c small =
            let far : map_block sb c ≢ a = λ e. apart (rw (← e) (map_block-IsMapBlock c small)) in
            rw (update_else v.block a (map_block sb c) x far) refl

  -- How `balloc` ends.
  pub record IsAllocated (v : Volume) (a : ℕ) (v' : Volume) : Type 0 where
    pub small : a < sb.size
    pub fresh : is_free v a ≡ true
    pub first : (c : ℕ) → c < a → is_free v c ≡ false
    pub marked : IsMarked false a v v'
    pub zeroed : v'.block a ≡ zero_block

  abbrev pub BallocEnds : Volume → Outcome (ℕ × Volume) → Type 0
  BallocEnds v (ok (a, v')) = IsAllocated v a v'
  BallocEnds v (panic _) = (c : ℕ) → c < sb.size → is_free v c ≡ false
  BallocEnds v spins = ⊥

  module _ (v : Volume) (u : IsVolume v) where
    pub claimed-IsAllocated :
        (a : ℕ)
        → a < sb.size
        → is_free v a ≡ true
        → ((c : ℕ) → c < a → is_free v c ≡ false)
        → IsAllocated v a (
            bzero a
              (put_block (map_block sb a) (set_bit (a % block_bits) (v.block (map_block sb a))) v))
    unfolding bzero
    claimed-IsAllocated a small fresh first =
        let data_block = v.block (map_block sb a) in
        let pos : a ≢ 0 = λ e. ground (arith, u.boot, fresh) in
        let apart : IsMapBlock a → ⊥ = λ in_map. ground (arith, (u.mapped a in_map).1, fresh) in
        let away : IsInodeBlock a → ⊥ =
          λ is_inode. ground (arith, (u.inodes a is_inode).1, fresh) in
        let m =
          marked_lem v u a small (set_bit (a % block_bits) data_block) false
            (set_bit-AreBytes data_block (a % block_bits) 0 (u.bytes (map_block sb a))) pos apart
            away
            (λ bj. is_clear-set_bit data_block (a % block_bits) bj (u.bytes (map_block sb a))) in
        let v1 = marked v u a small (set_bit (a % block_bits) data_block) in
        let (volume, kept) =
          put_data-IsVolume v1 m.volume a small zero_block (λ i. omega arith) apart in
        record {
          small = small;
          fresh = fresh;
          first = first;
          marked = record {
            marks = λ c lt. kept c lt ∙ m.marks c lt;
            others = λ b far other. update_else v1.block a b zero_block far ∙ m.others b far other;
            volume = volume;
          };
          zeroed = update_self v1.block a zero_block;
        }
