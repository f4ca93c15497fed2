-- ===== src/Fs/Content/Grown.antt =====
-- writei of src/fs.c with the inode's new size, and what readi gives after it.
use Prim.Native.Nat.{max}
use waka_b4_research.Base.{
  ℕ, suc, ◌+◌, ◌-◌, ◌/◌, ◌^◌, ◌<◌, ◌≤◌, ◌≡◌, ◌≢◌, ◌⊎◌, refl, sym, ap, ◌∙◌, arith, true, false, ◌&&◌,
  Option, List, [], ◌∷◌, ◌==◌, leb, ltb, if◌then◌else◌, Bool-cases, inl, inr, Outcome, ok, panic,
  spins, on_ok, minus_one, get_or, update_else,
}
use waka_b4_research.CString.Moves.{store_word}
use waka_b4_research.Fs.{Super, Volume, block_size, put_block, inode_block}
use waka_b4_research.Fs.Bits.{AreBytes}
use waka_b4_research.Fs.Bitmap.{IsInodeBlock, put_data-IsVolume}
use waka_b4_research.Fs.Inode.{
  Inode, ndirect, t_dev, max_bytes_of_file, iupdate, store_half, store_words, store_dinode,
  dinode_at,
}
use waka_b4_research.Fs.Inode.Owned.{positions, position, entry_of-same, owned, Owns-same}
use waka_b4_research.Fs.Inode.Slots.{IsFile}
use waka_b4_research.Fs.Inode.Bmap.{store_word-AreBytes}
use waka_b4_research.Fs.Content.{copy_in, is_bad_range, write_from, grown, writei, readi}
use waka_b4_research.Fs.Content.Bytes.{block_of, byte_at, IsDense, position-lt}
use waka_b4_research.Fs.Content.Read.{readi_lem}
use waka_b4_research.Fs.Content.Write.{IsWritten}
use waka_b4_research.Fs.Content.Writei.{WriteEnds, write_from_lem}

store_half-AreBytes : (a h : ℕ) (x : ℕ → ℕ) → AreBytes x → AreBytes (store_half a h x)
store_half-AreBytes a h x b i = let small = b i in ground arith

store_words-AreBytes :
    (a : ℕ) (ws : List ℕ) (x : ℕ → ℕ) → AreBytes x → AreBytes (store_words a ws x)
unfolding store_words
store_words-AreBytes a [] x b = b
store_words-AreBytes a (w ∷ ws) x b =
    store_words-AreBytes (a + 4) ws (store_word a w x) (store_word-AreBytes a w x b)

store_dinode-AreBytes :
    (a : ℕ) (ip : Inode) (x : ℕ → ℕ) → AreBytes x → AreBytes (store_dinode a ip x)
store_dinode-AreBytes a ip x b = store_words-AreBytes (a + 12) ip.addrs _ (
    store_word-AreBytes (a + 8) ip.size _ (
      store_half-AreBytes (a + 6) ip.nlink _ (
        store_half-AreBytes (a + 4) ip.minor _
          (store_half-AreBytes (a + 2) ip.major _ (store_half-AreBytes a ip.type x b)))))

module _ (sb : Super) where
  -- Writing a block of inodes changes no contents.
  module _ (ip : Inode) (v : Volume) (f : IsFile sb ip v) (b : ℕ) (at : IsInodeBlock sb b)
      (x : ℕ → ℕ) (bytes : AreBytes x) where
    abbrev v' : Volume
    v' = put_block b x v

    inode_apart : (k : ℕ) → k < positions → owned ip.addrs v k ≢ 0 → owned ip.addrs v k ≢ b
    inode_apart k lt pos e = (f.owns.owner k lt pos).3 (rw e at)

    pub owned-put_inode : (k : ℕ) → owned ip.addrs v' k ≡ owned ip.addrs v k
    owned-put_inode k = elim (Bool-cases (leb k ndirect)) [
      | inl low ↦ rw low refl
      | inr high ↦ rw high (
          entry_of-same (get_or ip.addrs ndirect 0) (k - 13) v v' (λ pos.
            update_else v.block b (get_or ip.addrs ndirect 0) x
              (inode_apart ndirect (omega arith) pos)))
    ]

    pub put_inode-IsFile : IsFile sb ip v'
    put_inode-IsFile =
        let (small, in_use, not_map) = f.volume.inodes b at in
        let (volume, kept) = put_data-IsVolume sb v f.volume b small x bytes not_map in
        record {
          slots = f.slots;
          volume = volume;
          owns =
              Owns-same sb v' (owned ip.addrs v) (owned ip.addrs v')
                (record {
                  owner = λ k lt pos.
                      let (inside, used, apart, away) = f.owns.owner k lt pos in
                      (inside, kept (owned ip.addrs v k) inside ∙ used, apart, away);
                  distinct = f.owns.distinct;
                })
                (λ k lt. owned-put_inode k);
        }

    pub byte_at-put_inode : (y : ℕ) → y < max_bytes_of_file → byte_at ip v' y ≡ byte_at ip v y
    byte_at-put_inode y lt =
        rw (owned-put_inode (position (y / block_size))) (elim (Bool-cases (block_of ip v y == 0)) [
          | inl e ↦ rw e refl
          | inr e ↦
              let pos : block_of ip v y ≢ 0 = λ z. ground arith in
              rw
                (
                  e,
                  update_else v.block b (block_of ip v y) x
                      (inode_apart (position (y / block_size)) (position-lt y lt) pos),
                )
                refl
        ])

  -- The file after `n` bytes of the buffer at `src` were written from `off` on.
  pub record IsUpdated (off n src : ℕ) (mem : ℕ → ℕ) (ip : Inode) (v : Volume) (ip' : Inode)
      (v' : Volume) : Type 0 where
    pub same : ip' ≡ record ip { addrs = ip'.addrs; size = ip'.size }
    pub size : ip'.size ≡ max ip.size (off + n)
    pub file : IsFile sb ip' v'
    pub dense : IsDense ip' v'
    pub bytes :
        (x : ℕ) → x < max_bytes_of_file → byte_at ip' v' x ≡ copy_in off n src mem (byte_at ip v) x

  module _ (off n src : ℕ) (mem : ℕ → ℕ) (ip : Inode) (v : Volume) (ip' : Inode) (v' : Volume)
      (w : IsWritten sb off n src mem ip v ip' v') (dense : IsDense ip v) (le : off ≤ ip.size)
      (small : off + n ≤ max_bytes_of_file) where
    there : (x : ℕ) → x < max ip.size (off + n) → block_of ip' v' x ≢ 0
    there x lt = elim (Bool-cases (ltb x ip.size)) [
      | inl old ↦
          let inside : x < ip.size = ground arith in
          w.kept x (omega (arith, dense.small)) (dense.blocks x inside)
      | inr new ↦ w.filled x (ground arith) (ground arith)
    ]

    kept_size : ip'.size ≡ ip.size
    kept_size = ap (λ (i : Inode). i.size) w.same

    kept_inum : ip'.inum ≡ ip.inum
    kept_inum = ap (λ (i : Inode). i.inum) w.same

    pub grown-IsUpdated :
        ip.inum < sb.ninodes
        → IsUpdated off n src mem ip v
            (grown sb n (off + n) ip' v').0
            (grown sb n (off + n) ip' v').1
    grown-IsUpdated known = elim (Bool-cases (ltb 0 n && ltb ip'.size (off + n))) [
      | inr e ↦
          let size : ip'.size ≡ max ip.size (off + n) = ground (arith, kept_size) in
          rw e (record {
            same =
                w.same ∙ ap (λ (k : ℕ). record ip { size = k; addrs = ip'.addrs }) (sym kept_size);
            size = size;
            file = w.file;
            dense = record {
              small = omega (arith, size, dense.small);
              blocks = λ x lt. there x (omega (arith, size));
            };
            bytes = w.bytes;
          })
      | inl e ↦
          let size : off + n ≡ max ip.size (off + n) = ground (arith, kept_size) in
          let longer = record ip' { size = off + n } in
          let b = inode_block sb ip'.inum in
          let at : IsInodeBlock sb b = (ip'.inum, omega (arith, kept_inum), refl) in
          let f : IsFile sb longer v' = record {
            slots = w.file.slots;
            volume = w.file.volume;
            owns = w.file.owns;
          } in
          let x = store_dinode (dinode_at ip'.inum) longer (v'.block b) in
          let x_bytes =
            store_dinode-AreBytes (dinode_at ip'.inum) longer (v'.block b)
              (w.file.volume.bytes b) in
          let put : iupdate sb longer v' ≡ put_block b x v' = unfold iupdate in refl in
          rw (e, put)
            (record {
              same = ap (λ (i : Inode). record i { addrs = ip'.addrs; size = off + n }) w.same;
              size = size;
              file = put_inode-IsFile longer v' f b at x x_bytes;
              dense = record {
                small = small;
                blocks = λ y lt z. there y (omega (arith, size)) (
                    sym (owned-put_inode longer v' f b at x x_bytes (position (y / block_size)))
                    ∙ z);
              };
              bytes = λ y lt. byte_at-put_inode longer v' f b at x x_bytes y lt ∙ w.bytes y lt;
            })
    ]

  -- How `writei` ends.
  abbrev pub WriteiEnds :
      (off n src : ℕ) → (ℕ → ℕ) → Inode → Volume → Outcome (ℕ × Inode × Volume) → Type 0
  WriteiEnds off n src mem ip v (ok (r, ip', v')) =
      (((ip.size < off) ⊎ (2 ^ 32 ≤ off + n) ⊎ (max_bytes_of_file < off + n))
        × (r ≡ minus_one)
        × (ip' ≡ ip)
        × (v' ≡ v))
      ⊎ ((off ≤ ip.size) × (r ≡ n) × IsUpdated off n src mem ip v ip' v')
  WriteiEnds off n src mem ip v (panic _) =
      (x : ℕ) × (off ≤ x) × (x < off + n) × (block_of ip v x ≡ 0)
  WriteiEnds off n src mem ip v spins = ⊥

  written_ends :
      (off n src : ℕ) (mem : ℕ → ℕ) (ip : Inode) (v : Volume) (bytes : AreBytes mem)
      → ip.inum < sb.ninodes
      → IsDense ip v
      → off ≤ ip.size
      → off + n ≤ max_bytes_of_file
      → (r : Outcome (Inode × Volume)) → WriteEnds sb mem bytes off n src ip v r
      → WriteiEnds off n src mem ip v (
          on_ok r (λ (ip', v'). let (ip'', v'') = grown sb n (off + n) ip' v' in ok (n, ip'', v'')))
  written_ends off n src mem ip v bytes known dense le small (ok (ip', v')) w =
      inr (le, refl, grown-IsUpdated off n src mem ip v ip' v' w dense le small known)
  written_ends off n src mem ip v bytes known dense le small (panic _) h = h
  written_ends off n src mem ip v bytes known dense le small spins h = h

  -- `writei` of an inode of the disk that is no device, whose blocks are its own and hold all its
  -- bytes, with `off` and `n` being 32-bit words and the buffer bytes. It returns -1 and changes
  -- nothing where the offset is past the size, `off + n` wraps, or the file would be too large. It
  -- panics only if a byte of the range is in no block yet. Otherwise it returns `n`: the bytes from
  -- `off` on are those of the buffer and no others change, the size covers them, and the blocks are the
  -- inode's own and hold all its bytes again.
  pub writei_lem :
      (device : Option ℕ) (src off n : ℕ) (ip : Inode) (v : Volume) (mem : ℕ → ℕ)
      → ip.type ≢ t_dev
      → IsFile sb ip v
      → IsDense ip v
      → ip.inum < sb.ninodes
      → AreBytes mem
      → off < 2 ^ 32
      → n < 2 ^ 32
      → WriteiEnds off n src mem ip v (writei sb device src off n ip v mem)
  unfolding writei
  writei_lem device src off n ip v mem plain f dense known bytes word word' =
      let file : (ip.type == t_dev) ≡ false = ground arith in
      elim (Bool-cases (is_bad_range off n ip.size)) [
        | inl bad ↦ rw (file, bad) (inl (ground arith, refl, refl, refl))
        | inr good ↦ elim (Bool-cases (ltb max_bytes_of_file (off + n))) [
          | inl large ↦ rw (file, good, large) (inl (inr (inr (ground arith)), refl, refl, refl))
          | inr fits ↦
              let small : off + n ≤ max_bytes_of_file = ground arith in
              rw (file, good, fits)
                (written_ends off n src mem ip v bytes known dense (ground arith) small
                  (write_from sb (suc n) n off src ip v mem)
                  (write_from_lem sb mem bytes (suc n) n off src ip v (omega arith) small f))
        ]
      ]

  module _ (device : Option (ℕ × (ℕ → ℕ))) (src dst off n : ℕ) (mem mem' : ℕ → ℕ) (ip : Inode)
      (v : Volume) where
    -- A readi of the bytes that were written, into the memory `mem'`.
    abbrev pub ReadBack : Outcome (ℕ × Inode × Volume) → Type 0
    ReadBack (ok (r, ip', v')) =
        (r ≡ n)
        × ((read : ℕ → ℕ) × (readi sb device dst off n ip' v' mem' ≡ ok (n, ip', v', read))
            × ((i : ℕ) → i < n → read (dst + i) ≡ mem (src + i)))
    ReadBack (panic _) = (x : ℕ) × (off ≤ x) × (x < off + n) × (block_of ip v x ≡ 0)
    ReadBack spins = ⊥

    read_back :
        (ip' : Inode) (v' : Volume)
        → ip.type ≢ t_dev
        → IsUpdated off n src mem ip v ip' v'
        → off + n ≤ max_bytes_of_file
        → (read : ℕ → ℕ) × (readi sb device dst off n ip' v' mem' ≡ ok (n, ip', v', read))
          × ((i : ℕ) → i < n → read (dst + i) ≡ mem (src + i))
    read_back ip' v' plain u small =
        let size : off + n ≤ ip'.size = omega (arith, u.size) in
        let type : ip'.type ≢ t_dev = λ z. plain (sym (ap (λ (i : Inode). i.type) u.same) ∙ z) in
        elim (readi_lem sb ip' v' device dst off n mem' type u.dense (omega arith) (omega arith)) [
          | inl (bad, _) ↦ absurd (ground arith)
          | inr (_, _, (read, run, bytes)) ↦
              let all : (if ltb ip'.size (off + n) then ip'.size - off else n) ≡ n = ground arith in
              (
                read,
                run ∙ ap (λ (k : ℕ). ok (k, ip', v', read)) all,
                λ i lt.
                    let within : (leb dst (dst + i) && ltb (dst + i) (dst + n)) ≡ true =
                      ground arith in
                    let index : dst + i - dst ≡ i = omega arith in
                    let window : (leb off (off + i) && ltb (off + i) (off + n)) ≡ true =
                      ground arith in
                    let index' : off + i - off ≡ i = omega arith in
                    bytes (dst + i)
                    ∙ rw (all, within, index)
                        (u.bytes (off + i) (omega arith) ∙ rw (window, index') refl),
              )
        ]

    ReadBack-ends :
        (r : Outcome (ℕ × Inode × Volume))
        → ip.type ≢ t_dev
        → off ≤ ip.size
        → off + n ≤ max_bytes_of_file
        → WriteiEnds off n src mem ip v r
        → ReadBack r
    ReadBack-ends (ok (r, ip', w)) plain le small (inl (bad, _, _, _)) = absurd (ground arith)
    ReadBack-ends (ok (r, ip', w)) plain le small (inr (_, e, u)) =
        (e, read_back ip' w plain u small)
    ReadBack-ends (panic _) plain le small h = h
    ReadBack-ends spins plain le small h = h

    -- `writei` of an inode that is no device, whose blocks are its own and hold all its
    -- bytes, from an offset that is at most its size, with the bytes written
    -- within the largest file: it panics only if a byte of the range is in no block yet. Otherwise it
    -- returns `n`, and a `readi` of `n` bytes from the same offset after it returns `n`, changes neither
    -- the inode nor the disk, and brings to the buffer `dst` the bytes that were at `src`.
    pub readi-writei :
        (writer : Option ℕ)
        → ip.type ≢ t_dev
        → IsFile sb ip v
        → IsDense ip v
        → ip.inum < sb.ninodes
        → AreBytes mem
        → off ≤ ip.size
        → off + n ≤ max_bytes_of_file
        → ReadBack (writei sb writer src off n ip v mem)
    readi-writei writer plain f dense known bytes le small =
        ReadBack-ends (writei sb writer src off n ip v mem) plain le small (
          writei_lem writer src off n ip v mem plain f dense known bytes (omega arith)
            (omega arith))
