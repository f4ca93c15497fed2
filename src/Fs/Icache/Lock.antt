-- ===== src/Fs/Icache/Lock.antt =====
-- ilock and iupdate of src/fs.c: what iupdate writes to the disk is what ilock reads.
use waka_b4_research.Base.{
  ℕ, zero, suc, ◌+◌, ◌/◌, ◌%◌, ◌^◌, ◌<◌, ◌≡◌, ◌≢◌, refl, ap, ◌∙◌, arith, true, false, none, some,
  List, [], ◌∷◌, ◌==◌, if◌then◌else◌, ok, panic, length, update_self,
}
use waka_b4_research.CString.Moves.{store_word}
use waka_b4_research.Syscall.{load_word}
use waka_b4_research.Fs.{Super, inode_block}
use waka_b4_research.Fs.Inode.{
  Inode, ndirect, load_half, store_half, load_words, store_words, load_dinode, store_dinode,
  dinode_at, iupdate,
}
use waka_b4_research.Fs.Inode.Bmap.{load_word-store_word}
use waka_b4_research.Fs.Icache.{Icache, inode_at, put_inode, is_in_use, load_inode, ilock}

abbrev pub AreWords : List ℕ → Type 0
AreWords [] = Unit
AreWords (w ∷ ws) = (w < 2 ^ 32) × AreWords ws

store_words-below : (a : ℕ) (ws : List ℕ) (x : ℕ → ℕ) (b : ℕ) → b < a → store_words a ws x b ≡ x b
unfolding store_words
store_words-below a [] x b lt = refl
store_words-below a (w ∷ ws) x b lt =
    store_words-below (a + 4) ws (store_word a w x) b (omega arith) ∙ ground arith

load_words-store_words :
    (a n : ℕ) (ws : List ℕ) (x : ℕ → ℕ)
    → length ws ≡ n
    → AreWords ws
    → load_words (store_words a ws x) a n ≡ ws
unfolding store_words load_words
load_words-store_words a zero [] x e h = refl
load_words-store_words a zero (w ∷ ws) x e h = absurd (omega arith)
load_words-store_words a (suc n) [] x e h = absurd (omega arith)
load_words-store_words a (suc n) (w ∷ ws) x e h =
    let y = store_words (a + 4) ws (store_word a w x) in
    let first : load_word y a ≡ w =
      rw
        (
          store_words-below (a + 4) ws (store_word a w x) a (omega arith),
          store_words-below (a + 4) ws (store_word a w x) (a + 1) (omega arith),
          store_words-below (a + 4) ws (store_word a w x) (a + 2) (omega arith),
          store_words-below (a + 4) ws (store_word a w x) (a + 3) (omega arith),
        )
        (load_word-store_word a w x h.0) in
    rw (first, load_words-store_words (a + 4) n ws (store_word a w x) (omega arith) h.1) refl

-- The fields are what the types of the source hold.
pub record IsStorable (ip : Inode) : Type 0 where
  pub type_half : ip.type < 2 ^ 16
  pub major_half : ip.major < 2 ^ 16
  pub minor_half : ip.minor < 2 ^ 16
  pub nlink_half : ip.nlink < 2 ^ 16
  pub size_word : ip.size < 2 ^ 32
  pub slots : length ip.addrs ≡ ndirect + 1
  pub addr_words : AreWords ip.addrs

module _ (a : ℕ) (ip : Inode) (x : ℕ → ℕ) (s : IsStorable ip) where
  -- The fields before the addresses.
  abbrev fields : ℕ → ℕ
  fields = store_word (a + 8) ip.size (
      store_half (a + 6) ip.nlink
        (store_half (a + 4) ip.minor (store_half (a + 2) ip.major (store_half a ip.type x))))

  abbrev stored : ℕ → ℕ
  stored = store_words (a + 12) ip.addrs fields

  below : (b : ℕ) → b < a + 12 → stored b ≡ fields b
  below b lt = store_words-below (a + 12) ip.addrs fields b lt

  type_read : load_half stored a ≡ ip.type
  type_read =
      let b0 : fields a ≡ ip.type % 2 ^ 8 = ground arith in
      let b1 : fields (a + 1) ≡ ip.type / 2 ^ 8 % 2 ^ 8 = ground arith in
      omega (arith, below a, below (a + 1), s.type_half)

  major_read : load_half stored (a + 2) ≡ ip.major
  major_read =
      let b0 : fields (a + 2) ≡ ip.major % 2 ^ 8 = ground arith in
      let b1 : fields (a + 2 + 1) ≡ ip.major / 2 ^ 8 % 2 ^ 8 = ground arith in
      omega (arith, below (a + 2), below (a + 2 + 1), s.major_half)

  minor_read : load_half stored (a + 4) ≡ ip.minor
  minor_read =
      let b0 : fields (a + 4) ≡ ip.minor % 2 ^ 8 = ground arith in
      let b1 : fields (a + 4 + 1) ≡ ip.minor / 2 ^ 8 % 2 ^ 8 = ground arith in
      omega (arith, below (a + 4), below (a + 4 + 1), s.minor_half)

  nlink_read : load_half stored (a + 6) ≡ ip.nlink
  nlink_read =
      let b0 : fields (a + 6) ≡ ip.nlink % 2 ^ 8 = ground arith in
      let b1 : fields (a + 6 + 1) ≡ ip.nlink / 2 ^ 8 % 2 ^ 8 = ground arith in
      omega (arith, below (a + 6), below (a + 6 + 1), s.nlink_half)

  size_read : load_word stored (a + 8) ≡ ip.size
  size_read =
      rw
        (
          below (a + 8) (omega arith),
          below (a + 8 + 1) (omega arith),
          below (a + 8 + 2) (omega arith),
          below (a + 8 + 3) (omega arith),
        )
        (load_word-store_word (a + 8) ip.size
          (store_half (a + 6) ip.nlink
            (store_half (a + 4) ip.minor (store_half (a + 2) ip.major (store_half a ip.type x))))
          s.size_word)

  pub load_dinode-store_dinode :
      (old : Inode)
      → load_dinode (store_dinode a ip x) a old ≡ record old {
        type = ip.type;
        major = ip.major;
        minor = ip.minor;
        nlink = ip.nlink;
        size = ip.size;
        addrs = ip.addrs;
      }
  load_dinode-store_dinode old =
      rw
        (
          type_read,
          major_read,
          minor_read,
          nlink_read,
          size_read,
          load_words-store_words (a + 12) (ndirect + 1) ip.addrs fields s.slots s.addr_words,
        )
        refl

module _ (sb : Super) (me i : ℕ) where
  load_inode-read :
      (e f : Inode) (c : Icache)
      → e.valid ≡ false
      → load_dinode (c.volume.block (inode_block sb e.inum)) (dinode_at e.inum) e ≡ f
      → (f.type == 0) ≡ false
      → load_inode sb me i e c ≡ ok (put_inode i (record f { valid = true }) c)
  load_inode-read e f c invalid read typed = rw invalid (
      ap
        (λ l.
          if l.type == 0
          then panic "ilock: no type"
          else ok (put_inode i (record l { valid = true }) c))
        read
      ∙ rw typed refl)

-- After `iupdate` of an inode with a type, whose fields fit their places, `ilock` of a free entry for
-- that inode which is not valid gives the entry the fields that were written, and marks it as valid and
-- held by the caller.
pub ilock-iupdate :
    (sb : Super) (me i : ℕ) (ip : Inode) (c : Icache)
    → IsStorable ip
    → ip.type ≢ 0
    → is_in_use (inode_at c.inodes i).ref ≡ true
    → (inode_at c.inodes i).holder ≡ none
    → (inode_at c.inodes i).valid ≡ false
    → (inode_at c.inodes i).inum ≡ ip.inum
    → let c' = record c { volume = iupdate sb ip c.volume } in
      ilock sb me i c'
      ≡ ok (
          put_inode i
            (record (inode_at c.inodes i) {
              holder = some me;
              valid = true;
              type = ip.type;
              major = ip.major;
              minor = ip.minor;
              nlink = ip.nlink;
              size = ip.size;
              addrs = ip.addrs;
            })
            c')
unfolding ilock
ilock-iupdate sb me i ip c s pos used free invalid same =
    let e = record (inode_at c.inodes i) { holder = some me } in
    let a = dinode_at ip.inum in
    let x = c.volume.block (inode_block sb ip.inum) in
    let written : (iupdate sb ip c.volume).block (inode_block sb ip.inum) ≡ store_dinode a ip x =
      unfold iupdate in update_self c.volume.block (inode_block sb ip.inum) (store_dinode a ip x) in
    let block : (iupdate sb ip c.volume).block (inode_block sb e.inum) ≡ store_dinode a ip x =
      ap (λ n. (iupdate sb ip c.volume).block (inode_block sb n)) same ∙ written in
    let read =
      ap (λ b. load_dinode b (dinode_at e.inum) e) block
      ∙ ap (λ n. load_dinode (store_dinode a ip x) (dinode_at n) e) same
      ∙ load_dinode-store_dinode a ip x s e in
    let c' = record c { volume = iupdate sb ip c.volume } in
    let typed : (ip.type == 0) ≡ false = ground arith in
    rw (used, free) (load_inode-read sb me i e _ c' invalid read typed)
