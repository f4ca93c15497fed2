-- ===== src/Fs/Inode/Slots.antt =====
-- The slots of an inode of src/fs.c: a block from balloc at a direct slot or as the indirect block.
use waka_b4_research.Base.{
  ℕ, ◌-◌, ◌<◌, ◌≤◌, ◌≡◌, ◌≢◌, refl, ap, ◌∙◌, arith, true, false, ◌==◌, leb, Bool-cases, inl, inr,
  ◌⊎◌, update, get_or, set, length, length-set, get_or-set_self, get_or-set_ne, Outcome, ok, panic,
  spins, on_ok,
}
use waka_b4_research.Fs.{Super, Volume, balloc}
use waka_b4_research.Fs.Bitmap.{is_free, IsVolume, IsAllocated, BallocEnds}
use waka_b4_research.Fs.Alloc.{balloc_lem}
use waka_b4_research.Fs.Inode.{Inode, ndirect, slot_addr}
use waka_b4_research.Fs.Inode.Owned.{
  positions, entry_of, owned, Owns, Owns-same, Extends, Extends-none, allocated-ne_zero,
  owned-block, allocated-Extends,
}

module _ (sb : Super) where
  -- The inode's blocks are its own, and no others change their use.
  pub record IsFile (ip : Inode) (v : Volume) : Type 0 where
    pub slots : length ip.addrs ≡ 13
    pub volume : IsVolume sb v
    pub owns : Owns sb v (owned ip.addrs v)

  -- The inode with its position `k` given a block, and the volume behind it.
  pub record IsExtended (k : ℕ) (ip : Inode) (v : Volume) (ip' : Inode) (v' : Volume) : Type 0 where
    pub same : ip' ≡ record ip { addrs = ip'.addrs }
    pub slots : length ip'.addrs ≡ 13
    pub extends : Extends sb k v (owned ip.addrs v) v' (owned ip'.addrs v')

  pub IsExtended-IsFile :
      (k : ℕ) (ip : Inode) (v : Volume) (ip' : Inode) (v' : Volume)
      → IsExtended k ip v ip' v'
      → IsFile ip' v'
  IsExtended-IsFile k ip v ip' v' e = record {
    slots = e.slots;
    volume = e.extends.volume;
    owns = e.extends.owns;
  }

  -- An extension read at a function that is the same at the positions.
  pub Extends-same :
      (k : ℕ) (v : Volume) (o : ℕ → ℕ) (v' : Volume) (o' o'' : ℕ → ℕ)
      → Extends sb k v o v' o'
      → ((j : ℕ) → j < positions → o'' j ≡ o' j)
      → Extends sb k v o v' o''
  Extends-same k v o v' o' o'' e same = record {
    volume = e.volume;
    owns = Owns-same sb v' o' o'' e.owns same;
    kept = λ j lt pos. same j lt ∙ e.kept j lt pos;
    only = λ j lt direct far. same j lt ∙ e.only j lt direct far;
    contents = e.contents;
    fresh = λ j lt direct none pos.
        ap v'.block (same j lt) ∙ e.fresh j lt direct none (λ z. pos (same j lt ∙ z));
  }

  -- Giving the inode its indirect block changes no position of the contents.
  pub Extends-indirect :
      (k : ℕ) (v : Volume) (o : ℕ → ℕ) (v' : Volume) (o' : ℕ → ℕ)
      → Extends sb ndirect v o v' o'
      → Extends sb k v o v' o'
  Extends-indirect k v o v' o' e = record {
    volume = e.volume;
    owns = e.owns;
    kept = e.kept;
    only = λ j lt direct far. e.only j lt direct direct;
    contents = e.contents;
    fresh = e.fresh;
  }

  module _ (ip : Inode) (v : Volume) (f : IsFile ip v) (i : ℕ) (slot : i ≤ ndirect) where
    slot-owned : owned ip.addrs v i ≡ get_or ip.addrs i 0
    slot-owned = let e : leb i ndirect ≡ true = ground arith in rw e refl

    owned-set :
        (a : ℕ) (v' : Volume)
        → IsAllocated sb v a v'
        → get_or ip.addrs i 0 ≡ 0
        → (j : ℕ) → j < positions
        → owned (set ip.addrs i a) v' j ≡ update (owned ip.addrs v) i a j
    owned-set a v' new none j lt = elim (Bool-cases (leb j ndirect)) [
      | inl low ↦ elim (Bool-cases (j == i)) [
        | inl e ↦
            let same : j ≡ i = ground arith in
            rw (low, e) (rw same (get_or-set_self ip.addrs i a 0 (omega (arith, f.slots))))
        | inr e ↦
            let far : j ≢ i = λ z. ground arith in rw (low, e) (get_or-set_ne ip.addrs i j a 0 far)
      ]
      | inr high ↦
          let far : (j == i) ≡ false = ground arith in
          rw (high, far) (entries (Bool-cases (i == ndirect)) j)
    ]
      where
        entries :
            ((i == ndirect) ≡ true) ⊎ ((i == ndirect) ≡ false)
            → (j : ℕ)
            → entry_of (get_or (set ip.addrs i a) ndirect 0) v' (j - 13)
              ≡ entry_of (get_or ip.addrs ndirect 0) v (j - 13)
        entries (inl e) j =
            let same : i ≡ ndirect = ground arith in
            let none' : get_or ip.addrs ndirect 0 ≡ 0 = rw (← same) none in
            let new' : get_or (set ip.addrs i a) ndirect 0 ≡ a =
              rw (← same) (get_or-set_self ip.addrs i a 0 (omega (arith, f.slots))) in
            let pos : (a == 0) ≡ false = ground (
              arith,
              allocated-ne_zero sb v (owned ip.addrs v) f.volume f.owns i (omega arith)
                  (slot-owned ∙ none) a v' new,
            ) in
            rw (new', none', pos, new.zeroed) refl
        entries (inr e) j =
            let far : ndirect ≢ i = λ z. ground arith in
            let kept : get_or (set ip.addrs i a) ndirect 0 ≡ get_or ip.addrs ndirect 0 =
              get_or-set_ne ip.addrs i ndirect a 0 far in
            rw kept (elim (Bool-cases (get_or ip.addrs ndirect 0 == 0)) [
              | inl z ↦ rw z refl
              | inr z ↦
                  let there : get_or ip.addrs ndirect 0 ≢ 0 = λ p. ground arith in
                  let block : v'.block (get_or ip.addrs ndirect 0)
                      ≡ v.block (get_or ip.addrs ndirect 0) =
                    owned-block sb v (owned ip.addrs v) f.volume f.owns i (omega arith)
                      (slot-owned ∙ none) a v' new ndirect (omega arith) there in
                  rw (z, block) refl
            ])

    -- How a slot is filled.
    abbrev pub SlotEnds : Outcome (ℕ × Inode × Volume) → Type 0
    SlotEnds (ok (a, ip', v')) =
        (a ≢ 0)
        × (get_or ip'.addrs i 0 ≡ a)
        × IsExtended i ip v ip' v'
        × (((ip' ≡ ip) × (v' ≡ v)) ⊎ IsAllocated sb v a v')
    SlotEnds (panic _) = (c : ℕ) → c < sb.size → is_free sb v c ≡ false
    SlotEnds spins = ⊥

    slot_filled :
        (r : Outcome (ℕ × Volume))
        → get_or ip.addrs i 0 ≡ 0
        → BallocEnds sb v r
        → SlotEnds (on_ok r (λ (a, v'). ok (a, record ip { addrs = set ip.addrs i a }, v')))
    slot_filled (ok (a, v')) none new = (
      allocated-ne_zero sb v (owned ip.addrs v) f.volume f.owns i (omega arith) (slot-owned ∙ none)
          a v' new,
      get_or-set_self ip.addrs i a 0 (omega (arith, f.slots)),
      record {
        same = refl;
        slots = length-set ip.addrs i a ∙ f.slots;
        extends =
            Extends-same i v (owned ip.addrs v) v' (update (owned ip.addrs v) i a)
              (owned (set ip.addrs i a) v')
              (allocated-Extends sb v (owned ip.addrs v) f.volume f.owns i (omega arith)
                (slot-owned ∙ none) a v' new)
              (owned-set a v' new none);
      },
      inr new,
    )
    slot_filled (panic _) none full = full
    slot_filled spins none h = h

    pub slot_addr_lem : SlotEnds (slot_addr sb i ip v)
    unfolding slot_addr
    slot_addr_lem = elim (Bool-cases (get_or ip.addrs i 0 == 0)) [
      | inl e ↦ rw e (slot_filled (balloc sb v) (ground arith) (balloc_lem sb v f.volume))
      | inr e ↦ rw e (
        (λ z. ground arith),
        refl,
        record {
          same = refl;
          slots = f.slots;
          extends = Extends-none sb i v (owned ip.addrs v) f.volume f.owns;
        },
        inl (refl, refl),
      )
    ]
