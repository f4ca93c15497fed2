-- ===== src/Fs/Inode/Owned.antt =====
-- The blocks that an inode of src/fs.c owns, by position: the direct blocks, the indirect block at
-- position 12, then its entries.
use waka_b4_research.Base.{
  ℕ, ◌+◌, ◌-◌, ◌*◌, ◌<◌, ◌≡◌, ◌≢◌, refl, sym, ap, ◌∙◌, arith, true, false, List, ◌==◌, leb, ltb,
  if◌then◌else◌, Bool-cases, inl, inr, update, update_else, get_or,
}
use waka_b4_research.Syscall.{load_word}
use waka_b4_research.Fs.{Super, Volume, zero_block}
use waka_b4_research.Fs.Bitmap.{is_free, IsMapBlock, IsInodeBlock, IsVolume, IsAllocated}
use waka_b4_research.Fs.Inode.{ndirect}

-- NDIRECT, the indirect block, NINDIRECT.
abbrev pub positions : ℕ
positions = 141

abbrev pub entry_of : ℕ → Volume → ℕ → ℕ
entry_of b v j = if b == 0 then 0 else load_word (v.block b) (4 * j)

-- Only the contents of the indirect block matter.
pub entry_of-same :
    (b j : ℕ) (v v' : Volume) → (b ≢ 0 → v'.block b ≡ v.block b) → entry_of b v' j ≡ entry_of b v j
entry_of-same b j v v' h = elim (Bool-cases (b == 0)) [
  | inl e ↦ rw e refl
  | inr e ↦ rw (e, h (λ z. ground arith)) refl
]

abbrev pub owned : List ℕ → Volume → ℕ → ℕ
owned addrs v k =
    if leb k ndirect then get_or addrs k 0 else entry_of (get_or addrs ndirect 0) v (k - 13)

-- The position of block `bn` of the contents.
abbrev pub position : ℕ → ℕ
position bn = if ltb bn ndirect then bn else bn + 1

module _ (sb : Super) where
  -- A block in use, with a place of its own.
  abbrev pub IsOwned : Volume → ℕ → Type 0
  IsOwned v a =
      (a < sb.size) × (is_free sb v a ≡ false) × (IsMapBlock sb a → ⊥) × (IsInodeBlock sb a → ⊥)

  -- No block is owned at two positions.
  pub record Owns (v : Volume) (o : ℕ → ℕ) : Type 0 where
    pub owner : (k : ℕ) → k < positions → o k ≢ 0 → IsOwned v (o k)
    pub distinct : (j k : ℕ) → j < positions → k < positions → o j ≢ 0 → o j ≡ o k → j ≡ k

  pub Owns-same :
      (v : Volume) (o o' : ℕ → ℕ) → Owns v o → ((k : ℕ) → k < positions → o' k ≡ o k) → Owns v o'
  Owns-same v o o' h same = record {
    owner = λ k lt pos. rw (same k lt) (h.owner k lt (λ e. pos (same k lt ∙ e)));
    distinct = λ j k lt lt' pos e.
        h.distinct j k lt lt' (λ p. pos (same j lt ∙ p)) (sym (same j lt) ∙ e ∙ same k lt');
  }

  -- What an operation that may give the position `k` a block leaves: the contents of the others, but
  -- of the indirect block.
  pub record Extends (k : ℕ) (v : Volume) (o : ℕ → ℕ) (v' : Volume) (o' : ℕ → ℕ) : Type 0 where
    pub volume : IsVolume sb v'
    pub owns : Owns v' o'
    pub kept : (j : ℕ) → j < positions → o j ≢ 0 → o' j ≡ o j
    pub only : (j : ℕ) → j < positions → j ≢ ndirect → j ≢ k → o' j ≡ o j
    pub contents : (j : ℕ) → j < positions → j ≢ ndirect → o j ≢ 0 → v'.block (o j) ≡ v.block (o j)
    pub fresh :
        (j : ℕ) → j < positions → j ≢ ndirect → o j ≡ 0 → o' j ≢ 0 → v'.block (o' j) ≡ zero_block

  pub Extends-none : (k : ℕ) (v : Volume) (o : ℕ → ℕ) → IsVolume sb v → Owns v o → Extends k v o v o
  Extends-none k v o u h = record {
    volume = u;
    owns = h;
    kept = λ j lt pos. refl;
    only = λ j lt direct far. refl;
    contents = λ j lt direct pos. refl;
    fresh = λ j lt direct e pos. absurd (pos e);
  }

  pub Extends-trans :
      (k : ℕ) (v : Volume) (o : ℕ → ℕ) (v' : Volume) (o' : ℕ → ℕ) (v'' : Volume) (o'' : ℕ → ℕ)
      → Extends k v o v' o'
      → Extends k v' o' v'' o''
      → Extends k v o v'' o''
  Extends-trans k v o v' o' v'' o'' p q = record {
    volume = q.volume;
    owns = q.owns;
    kept =
        λ j lt pos. let first = p.kept j lt pos in q.kept j lt (λ e. pos (sym first ∙ e)) ∙ first;
    only = λ j lt direct far. q.only j lt direct far ∙ p.only j lt direct far;
    contents = λ j lt direct pos.
        let first = p.kept j lt pos in
        ap v''.block (sym first)
        ∙ q.contents j lt direct (λ e. pos (sym first ∙ e))
        ∙ ap v'.block first
        ∙ p.contents j lt direct pos;
    fresh = λ j lt direct e pos. elim (Bool-cases (o' j == 0)) [
      | inl none ↦ q.fresh j lt direct (ground arith) pos
      | inr some ↦
          let there : o' j ≢ 0 = λ z. ground arith in
          ap v''.block (q.kept j lt there)
          ∙ q.contents j lt direct there
          ∙ p.fresh j lt direct e there
    ];
  }

  -- A block from balloc at a position that had none.
  module _ (v : Volume) (o : ℕ → ℕ) (u : IsVolume sb v) (h : Owns v o) (k : ℕ) (lt : k < positions)
      (empty : o k ≡ 0) (a : ℕ) (v' : Volume) (new : IsAllocated sb v a v') where
    pub allocated-ne_zero : a ≢ 0
    allocated-ne_zero e = ground (arith, u.boot, new.fresh)

    pub owned-ne_allocated : (j : ℕ) → j < positions → o j ≢ 0 → o j ≢ a
    owned-ne_allocated j small pos e =
        let in_use = (h.owner j small pos).1 in ground (arith, in_use, new.fresh)

    pub owned-block : (j : ℕ) → j < positions → o j ≢ 0 → v'.block (o j) ≡ v.block (o j)
    owned-block j small pos =
        new.marked.others (o j) (owned-ne_allocated j small pos) (h.owner j small pos).2

    allocated-IsOwned : IsOwned v' a
    allocated-IsOwned = (
      new.small,
      (let same : (a == a) ≡ true = ground arith in new.marked.marks a new.small ∙ rw same refl),
      λ in_map. ground (arith, (u.mapped a in_map).1, new.fresh),
      λ is_inode. ground (arith, (u.inodes a is_inode).1, new.fresh),
    )

    still-IsOwned : (j : ℕ) → j < positions → o j ≢ 0 → IsOwned v' (o j)
    still-IsOwned j small pos =
        let (inside, in_use, not_map, not_inode) = h.owner j small pos in
        let far : (o j == a) ≡ false = ground (arith, owned-ne_allocated j small pos) in
        (inside, new.marked.marks (o j) inside ∙ rw far in_use, not_map, not_inode)

    pub allocated-Extends : Extends k v o v' (update o k a)
    allocated-Extends = record {
      volume = new.marked.volume;
      owns = record {
        owner = λ j small pos. elim (Bool-cases (j == k)) [
          | inl e ↦ rw e allocated-IsOwned
          | inr e ↦ rw e (still-IsOwned j small (λ z. pos (rw e z)))
        ];
        distinct = λ i j small small' pos e. elim (Bool-cases (i == k)) [
          | inl p ↦ elim (Bool-cases (j == k)) [
            | inl q ↦ ground arith
            | inr q ↦
                let same : a ≡ o j = ground arith in
                absurd (owned-ne_allocated j small' (λ z. allocated-ne_zero (same ∙ z)) (sym same))
          ]
          | inr p ↦ elim (Bool-cases (j == k)) [
            | inl q ↦
                let same : o i ≡ a = ground arith in
                absurd (owned-ne_allocated i small (λ z. allocated-ne_zero (sym same ∙ z)) same)
            | inr q ↦
                let same : o i ≡ o j = ground arith in
                let there : o i ≢ 0 = λ z. pos (rw p z) in h.distinct i j small small' there same
          ]
        ];
      };
      kept = λ j small pos. let far : (j == k) ≡ false = ground (arith, pos, empty) in rw far refl;
      only = λ j small direct far. update_else o k j a far;
      contents = λ j small direct pos. owned-block j small pos;
      fresh = λ j small direct e pos. elim (Bool-cases (j == k)) [
        | inl p ↦ rw p new.zeroed
        | inr p ↦ absurd (pos (rw p e))
      ];
    }
