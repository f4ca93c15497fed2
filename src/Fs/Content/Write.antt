-- ===== src/Fs/Content/Write.antt =====
-- writei of src/fs.c: the bytes of the buffer come to the file, and no others change.
use waka_b4_research.Base.{
  ℕ, ◌+◌, ◌-◌, ◌/◌, ◌%◌, ◌<◌, ◌≤◌, ◌≡◌, ◌≢◌, refl, sym, arith, true, false, ◌==◌, leb,
  if◌then◌else◌, Bool-cases, inl, inr, get_or, update_self, update_else,
}
use waka_b4_research.Fs.{Super, Volume, block_size, put_block}
use waka_b4_research.Fs.Bits.{AreBytes}
use waka_b4_research.Fs.Inode.{Inode, ndirect, max_bytes_of_file}
use waka_b4_research.Fs.Inode.Owned.{position, entry_of, entry_of-same, owned, Owns-same}
use waka_b4_research.Fs.Inode.Slots.{IsFile}
use waka_b4_research.Fs.Inode.Bmap.{Owns-put}
use waka_b4_research.Fs.Content.{copy_in}
use waka_b4_research.Fs.Content.Bytes.{block_of, byte_at, position-lt, position-ne, position-inj}

-- A byte of the file after `n` bytes of the buffer at `src` are written from `off` on.
abbrev pub rewritten : (off n src : ℕ) → (ℕ → ℕ) → (ℕ → ℕ) → ℕ → ℕ
rewritten off n src mem old x = copy_in off n src mem old x

module _ (sb : Super) where
  -- What a write of `n` bytes leaves.
  pub record IsWritten (off n src : ℕ) (mem : ℕ → ℕ) (ip : Inode) (v : Volume) (ip' : Inode)
      (v' : Volume) : Type 0 where
    pub same : ip' ≡ record ip { addrs = ip'.addrs }
    pub file : IsFile sb ip' v'
    pub bytes :
        (x : ℕ)
        → x < max_bytes_of_file
        → byte_at ip' v' x ≡ rewritten off n src mem (byte_at ip v) x
    pub kept : (x : ℕ) → x < max_bytes_of_file → block_of ip v x ≢ 0 → block_of ip' v' x ≢ 0
    pub filled : (x : ℕ) → off ≤ x → x < off + n → block_of ip' v' x ≢ 0

  -- The block of the contents at byte `off` is written.
  module _ (ip : Inode) (v : Volume) (f : IsFile sb ip v) (off : ℕ) (lt : off < max_bytes_of_file)
      (there : block_of ip v off ≢ 0) (x : ℕ → ℕ) (bytes : AreBytes x) where
    abbrev a : ℕ
    a = block_of ip v off

    abbrev v' : Volume
    v' = put_block a x v

    entry_kept :
        (j : ℕ)
        → entry_of (get_or ip.addrs ndirect 0) v' j ≡ entry_of (get_or ip.addrs ndirect 0) v j
    entry_kept j =
        let b = get_or ip.addrs ndirect 0 in
        entry_of-same b j v v' (λ pos. update_else v.block a b x (λ z.
          position-ne (off / block_size) (
            f.owns.distinct (position (off / block_size)) ndirect (position-lt off lt) (omega arith)
              there (sym z))))

    pub owned-put_data : (k : ℕ) → owned ip.addrs v' k ≡ owned ip.addrs v k
    owned-put_data k = elim (Bool-cases (leb k ndirect)) [
      | inl low ↦ rw low refl
      | inr high ↦ rw high (entry_kept (k - 13))
    ]

    pub put_data-IsFile : IsFile sb ip v'
    put_data-IsFile =
        let (volume, owns) =
          Owns-put sb v (owned ip.addrs v) a x f.volume f.owns
            (f.owns.owner (position (off / block_size)) (position-lt off lt) there) bytes in
        record {
          slots = f.slots;
          volume = volume;
          owns =
              Owns-same sb v' (owned ip.addrs v) (owned ip.addrs v') owns
                (λ k small. owned-put_data k);
        }

    pub byte_at-put_data :
        (y : ℕ)
        → y < max_bytes_of_file
        → byte_at ip v' y
          ≡ (if y / block_size == off / block_size then x (y % block_size) else byte_at ip v y)
    byte_at-put_data y small =
        rw (owned-put_data (position (y / block_size))) (elim (Bool-cases (block_of ip v y == 0)) [
          | inl e ↦
              let other : (y / block_size == off / block_size) ≡ false =
                elim (Bool-cases (y / block_size == off / block_size)) [
                  | inl p ↦
                      let same : y / block_size ≡ off / block_size = ground arith in
                      absurd (there (rw (← same) (ground (arith, e))))
                  | inr p ↦ p
                ] in
              rw (e, other) refl
          | inr e ↦ elim (Bool-cases (y / block_size == off / block_size)) [
            | inl p ↦
                let same : y / block_size ≡ off / block_size = ground arith in
                let here : (a == 0) ≡ false = ground arith in
                rw (same, here, update_self v.block a x)
                  (let q : (off / block_size == off / block_size) ≡ true = ground arith in
                    rw q refl)
            | inr p ↦
                let pos : block_of ip v y ≢ 0 = λ z. ground arith in
                let far : block_of ip v y ≢ a = λ z.
                  let q = position-inj (y / block_size) (off / block_size) (
                    f.owns.distinct (position (y / block_size)) (position (off / block_size))
                      (position-lt y small) (position-lt off lt) pos z) in
                  ground arith in
                rw (e, p, update_else v.block a (block_of ip v y) x far) refl
          ]
        ])
