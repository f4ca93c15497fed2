-- ===== src/Fs/Inode.antt =====
-- src/fs.c: an inode on disk and in memory, and the blocks of its contents. The functions return the
-- inode that the caller holds locked along with the volume.
pub mod Owned
pub mod Slots
pub mod Bmap
use waka_b4_research.Base.{
  ℕ, zero, suc, ◌+◌, ◌-◌, ◌*◌, ◌/◌, ◌%◌, ◌^◌, Bool, true, false, ◌||◌, ◌&&◌, Option, none, some,
  List, [], ◌∷◌, ◌==◌, ltb, leb, if◌then◌else◌, Outcome, ok, panic, on_ok, update, get_or, set,
  minus_one, add_word,
}
use waka_b4_research.Syscall.{load_word}
use waka_b4_research.CString.Moves.{store_word}
use waka_b4_research.Fs.{Super, Volume, block_size, put_block, inode_block, balloc, bfree}

-- `struct inode`; `holder` is the pid in its sleep lock. `addrs` has NDIRECT + 1 elements.
pub record Inode : Type 0 where
  pub dev : ℕ
  pub inum : ℕ
  pub ref : ℕ
  pub holder : Option ℕ
  pub valid : Bool
  pub type : ℕ
  pub major : ℕ
  pub minor : ℕ
  pub nlink : ℕ
  pub size : ℕ
  pub addrs : List ℕ

-- `NDIRECT` and `NINDIRECT`
abbrev pub ndirect : ℕ
ndirect = 12

abbrev pub nindirect : ℕ
nindirect = 128

-- `MAXFILE * BSIZE`
abbrev pub max_bytes_of_file : ℕ
max_bytes_of_file = (ndirect + nindirect) * block_size

-- `T_DIR` and `T_DEV`
abbrev pub t_dir : ℕ
t_dir = 1

abbrev pub t_dev : ℕ
t_dev = 3

abbrev pub load_half : (ℕ → ℕ) → ℕ → ℕ
load_half x a = x a + 2 ^ 8 * x (a + 1)

abbrev pub store_half : ℕ → ℕ → (ℕ → ℕ) → ℕ → ℕ
store_half a h x = update (update x a (h % 2 ^ 8)) (a + 1) (h / 2 ^ 8 % 2 ^ 8)

unfoldable pub store_words : ℕ → List ℕ → (ℕ → ℕ) → ℕ → ℕ
store_words a [] x = x
store_words a (w ∷ ws) x = store_words (a + 4) ws (store_word a w x)

unfoldable pub load_words : (ℕ → ℕ) → ℕ → ℕ → List ℕ
load_words x a zero = []
load_words x a (suc n) = load_word x a ∷ load_words x (a + 4) n

-- The place of `struct dinode` in its block.
abbrev pub dinode_at : ℕ → ℕ
dinode_at inum = 64 * (inum % 8)

abbrev pub store_dinode : ℕ → Inode → (ℕ → ℕ) → ℕ → ℕ
store_dinode a ip x = store_words (a + 12) ip.addrs (
    store_word (a + 8) ip.size (
      store_half (a + 6) ip.nlink
        (store_half (a + 4) ip.minor (store_half (a + 2) ip.major (store_half a ip.type x)))))

abbrev pub load_dinode : (ℕ → ℕ) → ℕ → Inode → Inode
load_dinode x a ip = record ip {
  type = load_half x a;
  major = load_half x (a + 2);
  minor = load_half x (a + 4);
  nlink = load_half x (a + 6);
  size = load_word x (a + 8);
  addrs = load_words x (a + 12) (ndirect + 1);
}

module _ (sb : Super) where
  unfoldable pub iupdate : Inode → Volume → Volume
  unfolding store_words
  iupdate ip v =
      let b = inode_block sb ip.inum in
      put_block b (store_dinode (dinode_at ip.inum) ip (v.block b)) v

  -- `if ((addr = ip->addrs[i]) == 0) ip->addrs[i] = addr = balloc(ip->dev);`
  unfoldable pub slot_addr : ℕ → Inode → Volume → Outcome (ℕ × Inode × Volume)
  slot_addr i ip v =
      if get_or ip.addrs i 0 == 0
      then on_ok (balloc sb v) (λ (a, v'). ok (a, record ip { addrs = set ip.addrs i a }, v'))
      else ok (get_or ip.addrs i 0, ip, v)

  -- The entry `j` of the indirect block `b`.
  unfoldable pub entry_addr : ℕ → ℕ → Inode → Volume → Outcome (ℕ × Inode × Volume)
  entry_addr j b ip v =
      if load_word (v.block b) (4 * j) == 0
      then on_ok (balloc sb v)
          (λ (a, v'). ok (a, ip, put_block b (store_word (4 * j) a (v'.block b)) v'))
      else ok (load_word (v.block b) (4 * j), ip, v)

  unfoldable pub bmap : ℕ → Inode → Volume → Outcome (ℕ × Inode × Volume)
  bmap bn ip v =
      if ltb bn ndirect
      then slot_addr bn ip v
      else if ltb (bn - ndirect) nindirect
      then on_ok (slot_addr ndirect ip v) (λ (b, ip', v'). entry_addr (bn - ndirect) b ip' v')
      else panic "bmap: out of range"

  -- The two loops of `itrunc`, with so many rounds to go.
  unfoldable pub free_slots : ℕ → ℕ → Inode → Volume → Outcome (Inode × Volume)
  free_slots zero i ip v = ok (ip, v)
  free_slots (suc left) i ip v =
      let a = get_or ip.addrs i 0 in
      let skipped = free_slots left (i + 1) ip v in
      let freed =
        on_ok (bfree sb a v)
          (λ v'. free_slots left (i + 1) (record ip { addrs = set ip.addrs i 0 }) v') in
      if a == 0 then skipped else freed

  unfoldable pub free_entries : ℕ → ℕ → ℕ → Volume → Outcome Volume
  free_entries zero j b v = ok v
  free_entries (suc left) j b v =
      let a = load_word (v.block b) (4 * j) in
      let skipped = free_entries left (j + 1) b v in
      let freed = on_ok (bfree sb a v) (λ v'. free_entries left (j + 1) b v') in
      if a == 0 then skipped else freed

  -- The indirect block and its entries.
  unfoldable pub free_indirect : Inode → Volume → Outcome (Inode × Volume)
  unfolding free_entries
  free_indirect ip v =
      let b = get_or ip.addrs ndirect 0 in
      if b == 0
      then ok (ip, v)
      else on_ok (free_entries nindirect 0 b v) (λ v'.
        on_ok (bfree sb b v') (λ v''. ok (record ip { addrs = set ip.addrs ndirect 0 }, v'')))

  unfoldable pub itrunc : Inode → Volume → Outcome (Inode × Volume)
  unfolding free_slots
  itrunc ip v = on_ok (free_slots ndirect 0 ip v) (λ (ip', v').
      on_ok (free_indirect ip' v')
        (λ (ip'', v''). let empty = record ip'' { size = 0 } in ok (empty, iupdate empty v'')))
