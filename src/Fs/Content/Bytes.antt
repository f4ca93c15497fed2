-- ===== src/Fs/Content/Bytes.antt =====
-- The contents of a file of src/fs.c as bytes by offset; bmap does not change them.
use waka_b4_research.Base.{
  ℕ, ◌+◌, ◌-◌, ◌*◌, ◌/◌, ◌%◌, ◌<◌, ◌≤◌, ◌≡◌, ◌≢◌, refl, arith, true, false, ◌==◌, leb, ltb,
  if◌then◌else◌, Bool-cases, inl, inr, get_or, ok,
}
use waka_b4_research.Syscall.{load_word}
use waka_b4_research.Fs.{Super, Volume, block_size}
use waka_b4_research.Fs.Inode.{
  Inode, ndirect, nindirect, max_bytes_of_file, bmap, slot_addr, entry_addr,
}
use waka_b4_research.Fs.Inode.Owned.{positions, position, owned, entry_of}
use waka_b4_research.Fs.Inode.Slots.{IsExtended}

-- The block of the contents that byte `x` is in; 0 where there is none.
abbrev pub block_of : Inode → Volume → ℕ → ℕ
block_of ip v x = owned ip.addrs v (position (x / block_size))

abbrev pub byte_at : Inode → Volume → ℕ → ℕ
byte_at ip v x = if block_of ip v x == 0 then 0 else v.block (block_of ip v x) (x % block_size)

-- Every byte below the size is in a block.
pub record IsDense (ip : Inode) (v : Volume) : Type 0 where
  pub small : ip.size ≤ max_bytes_of_file
  pub blocks : (x : ℕ) → x < ip.size → block_of ip v x ≢ 0

pub position-lt : (x : ℕ) → x < max_bytes_of_file → position (x / block_size) < positions
position-lt x lt = ground arith

pub position-ne : (bn : ℕ) → position bn ≢ ndirect
position-ne bn e = ground arith

pub position-inj : (a b : ℕ) → position a ≡ position b → a ≡ b
position-inj a b e = ground arith

module _ (sb : Super) (ip : Inode) (v : Volume) where
  slot_there :
      (i : ℕ)
      → (get_or ip.addrs i 0 == 0) ≡ false
      → slot_addr sb i ip v ≡ ok (get_or ip.addrs i 0, ip, v)
  unfolding slot_addr
  slot_there i e = rw e refl

  entry_there :
      (j b : ℕ)
      → (load_word (v.block b) (4 * j) == 0) ≡ false
      → entry_addr sb j b ip v ≡ ok (load_word (v.block b) (4 * j), ip, v)
  unfolding entry_addr
  entry_there j b e = rw e refl

  -- A block that is there is returned as it is.
  pub bmap_there :
      (bn : ℕ)
      → bn < ndirect + nindirect
      → (owned ip.addrs v (position bn) == 0) ≡ false
      → bmap sb bn ip v ≡ ok (owned ip.addrs v (position bn), ip, v)
  unfolding bmap
  bmap_there bn lt there = elim (Bool-cases (ltb bn ndirect)) [
    | inl e ↦
        let place : leb bn ndirect ≡ true = ground arith in
        let at : (get_or ip.addrs bn 0 == 0) ≡ false = rw (e, place) at there in
        rw (e, place, slot_there bn at) refl
    | inr e ↦
        let place : leb (bn + 1) ndirect ≡ false = ground arith in
        let inside : ltb (bn - ndirect) nindirect ≡ true = ground arith in
        let index : bn + 1 - 13 ≡ bn - ndirect = ground arith in
        let at : (entry_of (get_or ip.addrs ndirect 0) v (bn - ndirect) == 0) ≡ false =
          rw (e, place, index) at there in
        let pos : (get_or ip.addrs ndirect 0 == 0) ≡ false = ground arith in
        let entry : (load_word (v.block (get_or ip.addrs ndirect 0)) (4 * (bn - ndirect)) == 0)
            ≡ false =
          rw pos at at in
        rw
          (
            e,
            place,
            inside,
            slot_there ndirect pos,
            index,
            pos,
            entry_there (bn - ndirect) (get_or ip.addrs ndirect 0) entry,
          )
          refl
  ]

module _ (sb : Super) (k : ℕ) (ip : Inode) (v : Volume) (ip' : Inode) (v' : Volume)
    (e : IsExtended sb k ip v ip' v') where
  pub byte_at-extended : (x : ℕ) → x < max_bytes_of_file → byte_at ip' v' x ≡ byte_at ip v x
  byte_at-extended x lt =
      let p = position (x / block_size) in
      let small = position-lt x lt in
      let direct = position-ne (x / block_size) in
      elim (Bool-cases (owned ip.addrs v p == 0)) [
        | inr there ↦
            let pos : owned ip.addrs v p ≢ 0 = λ z. ground arith in
            rw (e.extends.kept p small pos, there, e.extends.contents p small direct pos) refl
        | inl none ↦ elim (Bool-cases (owned ip'.addrs v' p == 0)) [
          | inl still ↦ rw (none, still) refl
          | inr new ↦
              let pos : owned ip'.addrs v' p ≢ 0 = λ z. ground arith in
              let zero : owned ip.addrs v p ≡ 0 = ground arith in
              rw (none, new, e.extends.fresh p small direct zero pos) refl
        ]
      ]
