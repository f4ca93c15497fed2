-- ===== src/Fs/Icache.antt =====
-- src/fs.c: the cache of inodes in memory. A pointer to an inode is its index. The lock of the cache,
-- which is held for each search or update, is left out; the wait for an inode's sleep lock that another
-- process holds is `spins`. Nothing of other processes runs within a call.
pub mod Unique
pub mod Lock
use waka_b4_research.Base.{
  ℕ, zero, suc, ◌+◌, ◌-◌, ◌*◌, ◌%◌, ◌^◌, Bool, true, false, ◌&&◌, ◌||◌, not, Option, none, some,
  List, [], ◌∷◌, ◌==◌, ltb, leb, if◌then◌else◌, Outcome, ok, panic, spins, on_ok, add_word,
  sub_word, get_or, set,
}
use waka_b4_research.Fs.{Super, Volume, put_block, inode_block}
use waka_b4_research.Fs.Inode.{
  Inode, load_half, store_half, load_dinode, dinode_at, iupdate, itrunc,
}

-- `icache`, with the volume.
pub record Icache : Type 0 where
  pub inodes : List Inode
  pub volume : Volume

abbrev pub no_inode : Inode
no_inode = record {
  dev = 0;
  inum = 0;
  ref = 0;
  holder = none;
  valid = false;
  type = 0;
  major = 0;
  minor = 0;
  nlink = 0;
  size = 0;
  addrs = [];
}

abbrev pub inode_at : List Inode → ℕ → Inode
inode_at ips i = get_or ips i no_inode

abbrev pub put_inode : ℕ → Inode → Icache → Icache
put_inode i ip c = record c { inodes = set c.inodes i ip }

-- `ref > 0` on the pattern of an `int`.
abbrev pub is_in_use : ℕ → Bool
is_in_use r = ltb 0 r && ltb r (2 ^ 31)

abbrev pub is_inode : ℕ → ℕ → Inode → Bool
is_inode dev inum ip = is_in_use ip.ref && (ip.dev == dev && ip.inum == inum)

-- What the loop of `iget` finds: the inode, else the first free slot.
pub data Slot : Type 0 where
  cached : ℕ → Slot
  empty : Option ℕ → Slot

abbrev pub note_empty : Option ℕ → Inode → ℕ → Option ℕ
note_empty (some e) ip i = some e
note_empty none ip i = if ip.ref == 0 then some i else none

unfoldable pub scan_cache : ℕ → ℕ → List Inode → ℕ → Option ℕ → Slot
scan_cache dev inum [] i e = empty e
scan_cache dev inum (ip ∷ ips) i e =
    let later = scan_cache dev inum ips (i + 1) (note_empty e ip i) in
    if is_inode dev inum ip then cached i else later

-- The search is over.
abbrev pub take_inode : ℕ → ℕ → Slot → List Inode → Outcome (ℕ × List Inode)
take_inode dev inum (cached i) ips =
    let ip = inode_at ips i in ok (i, set ips i (record ip { ref = add_word ip.ref 1 }))
take_inode dev inum (empty none) ips = panic "iget: no inodes"
take_inode dev inum (empty (some i)) ips =
    ok (i, set ips i (record (inode_at ips i) { dev = dev; inum = inum; ref = 1; valid = false }))

unfoldable pub iget : ℕ → ℕ → List Inode → Outcome (ℕ × List Inode)
unfolding scan_cache
iget dev inum ips = take_inode dev inum (scan_cache dev inum ips 0 none) ips

unfoldable pub idup : ℕ → List Inode → List Inode
idup i ips = let ip = inode_at ips i in set ips i (record ip { ref = add_word ip.ref 1 })

abbrev pub holds : ℕ → Option ℕ → Bool
holds me none = false
holds me (some pid) = pid == me

module _ (sb : Super) (me : ℕ) where
  -- `ilock` once the sleep lock is held.
  abbrev pub load_inode : ℕ → Inode → Icache → Outcome Icache
  load_inode i ip c =
      let x = c.volume.block (inode_block sb ip.inum) in
      let loaded = record (load_dinode x (dinode_at ip.inum) ip) { valid = true } in
      if ip.valid
      then ok (put_inode i ip c)
      else if loaded.type == 0
      then panic "ilock: no type"
      else ok (put_inode i loaded c)

  abbrev pub lock_inode : ℕ → Option ℕ → Inode → Icache → Outcome Icache
  lock_inode i (some _) ip c = spins
  lock_inode i none ip c = load_inode i (record ip { holder = some me }) c

  unfoldable pub ilock : ℕ → Icache → Outcome Icache
  ilock i c =
      let ip = inode_at c.inodes i in
      if not (is_in_use ip.ref) then panic "ilock" else lock_inode i ip.holder ip c

  unfoldable pub iunlock : ℕ → Icache → Outcome Icache
  iunlock i c =
      let ip = inode_at c.inodes i in
      if not (holds me ip.holder) || not (is_in_use ip.ref)
      then panic "iunlock"
      else ok (put_inode i (record ip { holder = none }) c)

  -- `iput` once the sleep lock is held: an inode that nothing refers to is freed on the disk.
  abbrev pub free_inode : Inode → Volume → Outcome (Inode × Volume)
  free_inode ip v =
      if ip.valid && (ip.nlink == 0) && (ip.ref == 1)
      then on_ok (itrunc sb ip v) (λ (ip', v').
        let free = record ip' { type = 0 } in
        ok (record free { valid = false }, iupdate sb free v'))
      else ok (ip, v)

  abbrev pub drop_inode : ℕ → Option ℕ → Inode → Icache → Outcome Icache
  drop_inode i (some _) ip c = spins
  drop_inode i none ip c = on_ok (free_inode ip c.volume) (λ (ip', v').
      ok (record c {
        inodes = set c.inodes i (record ip' { ref = sub_word ip'.ref 1 });
        volume = v';
      }))

  unfoldable pub iput : ℕ → Icache → Outcome Icache
  iput i c = let ip = inode_at c.inodes i in drop_inode i ip.holder ip c

  unfoldable pub iunlockput : ℕ → Icache → Outcome Icache
  unfolding iunlock iput
  iunlockput i c = on_ok (iunlock i c) (λ c'. iput i c')

-- `memset(dip, 0, sizeof(*dip)); dip->type = type;`
abbrev pub new_dinode : ℕ → ℕ → (ℕ → ℕ) → ℕ → ℕ
new_dinode a type x = store_half a type (λ i. if leb a i && ltb i (a + 64) then 0 else x i)

module _ (sb : Super) (dev type : ℕ) where
  abbrev pub is_free_dinode : ℕ → Volume → Bool
  is_free_dinode inum v = load_half (v.block (inode_block sb inum)) (dinode_at inum) == 0

  abbrev pub claim_inode : ℕ → Icache → Outcome (ℕ × Icache)
  claim_inode inum c =
      let b = inode_block sb inum in
      let v = put_block b (new_dinode (dinode_at inum) type (c.volume.block b)) c.volume in
      on_ok (iget dev inum c.inodes) (λ (i, ips). ok (i, record { inodes = ips; volume = v }))

  -- The loop of `ialloc` from inode `inum` on, with so many rounds to go.
  unfoldable pub ialloc_from : ℕ → ℕ → Icache → Outcome (ℕ × Icache)
  ialloc_from zero inum c = panic "ialloc: no inodes"
  ialloc_from (suc left) inum c =
      let later = ialloc_from left (inum + 1) c in
      let here = claim_inode inum c in if is_free_dinode inum c.volume then here else later

  unfoldable pub ialloc : Icache → Outcome (ℕ × Icache)
  unfolding ialloc_from
  ialloc c = ialloc_from (sb.ninodes - 1) 1 c
