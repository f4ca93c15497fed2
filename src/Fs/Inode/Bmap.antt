-- ===== src/Fs/Inode/Bmap.antt =====
-- bmap of src/fs.c: a block of the contents, from balloc where there is none.
use waka_b4_research.Base.{
  ℕ, ◌+◌, ◌-◌, ◌*◌, ◌/◌, ◌%◌, ◌^◌, ◌<◌, ◌≤◌, ◌≡◌, ◌≢◌, refl, sym, ap, ◌∙◌, arith, true, false, ◌==◌,
  leb, ltb, Bool-cases, inl, inr, ◌⊎◌, update, update_self, update_else, get_or, Outcome, ok, panic,
  spins, on_ok,
}
use waka_b4_research.Syscall.{load_word}
use waka_b4_research.CString.Moves.{store_word}
use waka_b4_research.Fs.{Super, Volume, put_block, balloc}
use waka_b4_research.Fs.Bits.{AreBytes}
use waka_b4_research.Fs.Bitmap.{is_free, IsVolume, IsAllocated, BallocEnds, put_data-IsVolume}
use waka_b4_research.Fs.Alloc.{balloc_lem}
use waka_b4_research.Fs.Inode.{Inode, ndirect, nindirect, slot_addr, entry_addr, bmap}
use waka_b4_research.Fs.Inode.Owned.{
  positions, position, owned, IsOwned, Owns, Extends, Extends-none, Extends-trans,
  allocated-ne_zero, owned-block, allocated-Extends,
}
use waka_b4_research.Fs.Inode.Slots.{
  IsFile, IsExtended, IsExtended-IsFile, Extends-same, Extends-indirect, SlotEnds, slot_addr_lem,
}

pub store_word-AreBytes : (a w : ℕ) (x : ℕ → ℕ) → AreBytes x → AreBytes (store_word a w x)
store_word-AreBytes a w x h i = let small = h i in ground arith

pub load_word-store_word : (a w : ℕ) (x : ℕ → ℕ) → w < 2 ^ 32 → load_word (store_word a w x) a ≡ w
load_word-store_word a w x h =
    let b0 : store_word a w x a ≡ w % 2 ^ 8 = ground arith in
    let b1 : store_word a w x (a + 1) ≡ w / 2 ^ 8 % 2 ^ 8 = ground arith in
    let b2 : store_word a w x (a + 2) ≡ w / 2 ^ 16 % 2 ^ 8 = ground arith in
    let b3 : store_word a w x (a + 3) ≡ w / 2 ^ 24 % 2 ^ 8 = ground arith in omega arith

pub load_word-store_word_ne :
    (a b w : ℕ) (x : ℕ → ℕ)
    → (b + 4 ≤ a) ⊎ (a + 4 ≤ b)
    → load_word (store_word a w x) b ≡ load_word x b
load_word-store_word_ne a b w x h =
    let b0 : store_word a w x b ≡ x b = ground arith in
    let b1 : store_word a w x (b + 1) ≡ x (b + 1) = ground arith in
    let b2 : store_word a w x (b + 2) ≡ x (b + 2) = ground arith in
    let b3 : store_word a w x (b + 3) ≡ x (b + 3) = ground arith in omega arith

module _ (sb : Super) where
  -- Writing an owned block changes no use of a block.
  pub Owns-put :
      (v : Volume) (o : ℕ → ℕ) (b : ℕ) (x : ℕ → ℕ)
      → IsVolume sb v
      → Owns sb v o
      → IsOwned sb v b
      → AreBytes x
      → IsVolume sb (put_block b x v) × Owns sb (put_block b x v) o
  Owns-put v o b x u h (inside, _, not_map, _) bytes =
      let (volume, kept) = put_data-IsVolume sb v u b inside x bytes not_map in
      (
        volume,
        record {
          owner = λ k lt pos.
              let (small, in_use, apart, away) = h.owner k lt pos in
              (small, kept (o k) small ∙ in_use, apart, away);
          distinct = h.distinct;
        },
      )

  -- The indirect block is written.
  put_indirect :
      (k : ℕ) (v : Volume) (o : ℕ → ℕ) (v' : Volume) (o' : ℕ → ℕ) (x : ℕ → ℕ)
      → Extends sb k v o v' o'
      → o ndirect ≢ 0
      → AreBytes x
      → Extends sb k v o (put_block (o ndirect) x v') o'
  put_indirect k v o v' o' x e pos bytes =
      let b = o ndirect in
      let same : o' ndirect ≡ b = e.kept ndirect (omega arith) pos in
      let there : o' ndirect ≢ 0 = λ z. pos (sym same ∙ z) in
      let (volume, owns) =
        Owns-put v' o' b x e.volume e.owns (rw (← same) (e.owns.owner ndirect (omega arith) there))
          bytes in
      let other : (j : ℕ) → j < positions → j ≢ ndirect → o' j ≢ 0 → o' j ≢ b =
        λ j lt direct nonzero z.
          direct (e.owns.distinct j ndirect lt (omega arith) nonzero (z ∙ sym same)) in
      record {
        volume = volume;
        owns = owns;
        kept = e.kept;
        only = e.only;
        contents = λ j lt direct nonzero.
            let kept = e.kept j lt nonzero in
            let far : o j ≢ b = λ z. other j lt direct (λ p. nonzero (sym kept ∙ p)) (kept ∙ z) in
            update_else v'.block b (o j) x far ∙ e.contents j lt direct nonzero;
        fresh = λ j lt direct none nonzero.
            update_else v'.block b (o' j) x (other j lt direct nonzero)
            ∙ e.fresh j lt direct none nonzero;
      }

  module _ (ip : Inode) (v : Volume) (f : IsFile sb ip v) (j : ℕ) (entry : j < nindirect) (b : ℕ)
      (at : get_or ip.addrs ndirect 0 ≡ b) (pos : b ≢ 0) where
    entry-owned : owned ip.addrs v (13 + j) ≡ load_word (v.block b) (4 * j)
    entry-owned =
        let high : leb (13 + j) ndirect ≡ false = ground arith in
        let there : (b == 0) ≡ false = ground arith in
        let index : 13 + j - 13 ≡ j = omega arith in rw (high, at, there, index) refl

    owned-put :
        (a : ℕ) (v' : Volume)
        → IsAllocated sb v a v'
        → v'.block b ≡ v.block b
        → (k : ℕ) → k < positions
        → owned ip.addrs (put_block b (store_word (4 * j) a (v'.block b)) v') k
          ≡ update (owned ip.addrs v) (13 + j) a k
    owned-put a v' new same k lt = elim (Bool-cases (leb k ndirect)) [
      | inl low ↦ let far : (k == 13 + j) ≡ false = ground arith in rw (low, far) refl
      | inr high ↦
          let there : (b == 0) ≡ false = ground arith in
          let here : (b == b) ≡ true = ground arith in
          elim (Bool-cases (k == 13 + j)) [
            | inl e ↦
                let index : k - 13 ≡ j = ground arith in
                rw (high, at, there, e, index, here)
                  (load_word-store_word (4 * j) a (v'.block b)
                    (omega (arith, new.small, f.volume.word)))
            | inr e ↦
                rw (high, at, there, e, here)
                  (load_word-store_word_ne (4 * j) (4 * (k - 13)) a (v'.block b) (ground arith)
                    ∙ ap (λ (x : ℕ → ℕ). load_word x (4 * (k - 13))) same)
          ]
    ]

    abbrev EntryEnds : Outcome (ℕ × Inode × Volume) → Type 0
    EntryEnds (ok (a, ip', v')) =
        (a ≢ 0) × (owned ip'.addrs v' (13 + j) ≡ a) × IsExtended sb (13 + j) ip v ip' v'
    EntryEnds (panic _) = (c : ℕ) → c < sb.size → is_free sb v c ≡ false
    EntryEnds spins = ⊥

    entry_filled :
        (r : Outcome (ℕ × Volume))
        → load_word (v.block b) (4 * j) ≡ 0
        → BallocEnds sb v r
        → EntryEnds
            (on_ok r (λ (a, v'). ok (a, ip, put_block b (store_word (4 * j) a (v'.block b)) v')))
    entry_filled (ok (a, v')) none new =
        let o = owned ip.addrs v in
        let k_lt : 13 + j < positions = omega arith in
        let empty : o (13 + j) ≡ 0 = entry-owned ∙ none in
        let there : o ndirect ≢ 0 = λ z. pos (sym at ∙ z) in
        let same : v'.block b ≡ v.block b = rw (← at) (
          owned-block sb v o f.volume f.owns (13 + j) k_lt empty a v' new ndirect (omega arith)
            there) in
        let extended = allocated-Extends sb v o f.volume f.owns (13 + j) k_lt empty a v' new in
        let far : (ndirect == 13 + j) ≡ false = ground arith in
        let put = rw at at (
          put_indirect (13 + j) v o v' (update o (13 + j) a) (store_word (4 * j) a (v'.block b))
            extended there
            (store_word-AreBytes (4 * j) a (v'.block b) (extended.volume.bytes b))) in
        (
          allocated-ne_zero sb v o f.volume f.owns (13 + j) k_lt empty a v' new,
          owned-put a v' new same (13 + j) k_lt ∙ update_self o (13 + j) a,
          record {
            same = refl;
            slots = f.slots;
            extends =
                Extends-same sb (13 + j) v o (put_block b (store_word (4 * j) a (v'.block b)) v')
                  (update o (13 + j) a)
                  (owned ip.addrs (put_block b (store_word (4 * j) a (v'.block b)) v')) put
                  (owned-put a v' new same);
          },
        )
    entry_filled (panic _) none full = full
    entry_filled spins none h = h

    entry_addr_lem : EntryEnds (entry_addr sb j b ip v)
    unfolding entry_addr
    entry_addr_lem = elim (Bool-cases (load_word (v.block b) (4 * j) == 0)) [
      | inl e ↦ rw e (entry_filled (balloc sb v) (ground arith) (balloc_lem sb v f.volume))
      | inr e ↦ rw e (
        (λ z. ground arith),
        entry-owned,
        record {
          same = refl;
          slots = f.slots;
          extends = Extends-none sb (13 + j) v (owned ip.addrs v) f.volume f.owns;
        },
      )
    ]

  -- How `bmap` ends; it panics only where at most one block is free.
  abbrev pub BmapEnds : ℕ → Inode → Volume → Outcome (ℕ × Inode × Volume) → Type 0
  BmapEnds bn ip v (ok (a, ip', v')) =
      (a ≢ 0) × (owned ip'.addrs v' (position bn) ≡ a) × IsExtended sb (position bn) ip v ip' v'
  BmapEnds bn ip v (panic _) =
      (c d : ℕ) → c < sb.size → d < sb.size → is_free sb v c ≡ true → is_free sb v d ≡ true → c ≡ d
  BmapEnds bn ip v spins = ⊥

  module _ (bn : ℕ) (ip : Inode) (v : Volume) (f : IsFile sb ip v) where
    direct_ends :
        (r : Outcome (ℕ × Inode × Volume))
        → (low : bn ≤ ndirect) → ltb bn ndirect ≡ true
        → SlotEnds sb ip v f bn low r
        → BmapEnds bn ip v r
    direct_ends (ok (a, ip', v')) low e (pos, at, x, _) =
        let place : leb bn ndirect ≡ true = ground arith in rw e (pos, rw place at, x)
    direct_ends (panic _) low e full = λ c d small small' free. ground (arith, full c, free)
    direct_ends spins low e h = h

    indirect_ends :
        (r : Outcome (ℕ × Inode × Volume))
        → ltb bn ndirect ≡ false
        → bn - ndirect < nindirect
        → SlotEnds sb ip v f ndirect (omega arith) r
        → BmapEnds bn ip v (on_ok r (λ (b, ip', v'). entry_addr sb (bn - ndirect) b ip' v'))
    indirect_ends (ok (b, ip', v')) e lt (pos, at, x, how) =
        entry_ends (entry_addr sb (bn - ndirect) b ip' v') (
          entry_addr_lem ip' v' (IsExtended-IsFile sb ndirect ip v ip' v' x) (bn - ndirect) lt b at
            pos)
      where
        place : 13 + (bn - ndirect) ≡ bn + 1
        place = ground arith

        only_one :
            ((ip' ≡ ip) × (v' ≡ v)) ⊎ IsAllocated sb v b v'
            → ((c : ℕ) → c < sb.size → is_free sb v' c ≡ false)
            → (c d : ℕ) → c < sb.size
            → d < sb.size
            → is_free sb v c ≡ true
            → is_free sb v d ≡ true
            → c ≡ d
        only_one (inl h) full c d small small' free free' =
            let kept : is_free sb v c ≡ false = rw (← h.1) (full c small) in
            ground (arith, kept, free)
        only_one (inr new) full c d small small' free free' = ground (
          arith,
          full c small,
          full d small',
          new.marked.marks c small,
          new.marked.marks d small',
        )

        entry_ends :
            (r : Outcome (ℕ × Inode × Volume))
            → EntryEnds ip' v'
                (IsExtended-IsFile sb ndirect ip v ip' v' x)
                (bn - ndirect)
                lt
                b
                at
                pos
                r
            → BmapEnds bn ip v r
        entry_ends (ok (a, ip'', v'')) (nonzero, here, y) = rw e (
          nonzero,
          rw⁻¹ place here,
          record {
            same = y.same ∙ ap (λ (i : Inode). record i { addrs = ip''.addrs }) x.same;
            slots = y.slots;
            extends = rw⁻¹ place (
                Extends-trans sb (13 + (bn - ndirect)) v (owned ip.addrs v) v' (owned ip'.addrs v')
                  v'' (owned ip''.addrs v'')
                  (Extends-indirect sb (13 + (bn - ndirect)) v (owned ip.addrs v) v'
                    (owned ip'.addrs v') x.extends)
                  y.extends);
          },
        )
        entry_ends (panic _) full = only_one how full
        entry_ends spins h = h
    indirect_ends (panic _) e lt full = λ c d small small' free. ground (arith, full c, free)
    indirect_ends spins e lt h = h

    -- `bmap` of an inode whose blocks are its own, for a block below MAXFILE, panics only where at most one block is free. Otherwise it returns
    -- the block of the contents at `bn`, which the inode then owns; the blocks that it owned stay where
    -- they are, a block that is new is all zeros, and no contents change.
    pub bmap_lem : bn < ndirect + nindirect → BmapEnds bn ip v (bmap sb bn ip v)
    unfolding bmap
    bmap_lem lt = elim (Bool-cases (ltb bn ndirect)) [
      | inl e ↦
          let low : bn ≤ ndirect = ground arith in
          rw e (direct_ends (slot_addr sb bn ip v) low e (slot_addr_lem sb ip v f bn low))
      | inr e ↦
          let inside : ltb (bn - ndirect) nindirect ≡ true = ground arith in
          rw (e, inside)
            (indirect_ends (slot_addr sb ndirect ip v) e (ground arith)
              (slot_addr_lem sb ip v f ndirect (omega arith)))
    ]
