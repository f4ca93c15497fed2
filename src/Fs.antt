-- ===== src/Fs.antt =====
-- src/fs.c and src/fs.h: the file system, from the blocks up. A block is its bytes by offset, as bread
-- gives it; log_write is recorded, and brelse, which changes no contents, is left out. The numbers of
-- blocks and inodes stay below 2 ^ 31, as the `int` variables of the loops need.
pub mod Bits
pub mod Bitmap
pub mod Alloc
pub mod Inode
pub mod Content
pub mod Icache
pub mod Directory
pub mod Namex
mod Example
mod Tests
use Prim.Native.Nat.{bit_and, bit_or}
use waka_b4_research.Base.{
  ℕ, zero, suc, ◌+◌, ◌-◌, ◌*◌, ◌/◌, ◌%◌, ◌^◌, Bool, true, false, not, Option, none, some, List, [],
  ◌∷◌, ◌==◌, ltb, if◌then◌else◌, Outcome, ok, panic, update,
}

abbrev pub block_size : ℕ
block_size = 512

-- `BPB`, the bits of a block.
abbrev pub block_bits : ℕ
block_bits = 4096

-- What the functions read of `struct superblock`.
pub record Super : Type 0 where
  pub size : ℕ
  pub ninodes : ℕ
  pub inodestart : ℕ
  pub bmapstart : ℕ

-- The blocks, and those that log_write was called on, the latest first.
pub record Volume : Type 0 where
  pub block : ℕ → ℕ → ℕ
  pub logged : List ℕ

-- New contents of block `b`, with a call of log_write, which Fs.Content.Logged makes on the log.
abbrev pub put_block : ℕ → (ℕ → ℕ) → Volume → Volume
put_block b x v = record v { block = update v.block b x; logged = b ∷ v.logged }

-- The contents after `memset(bp->data, 0, BSIZE)`.
abbrev pub zero_block : ℕ → ℕ
zero_block i = 0

unfoldable pub bzero : ℕ → Volume → Volume
bzero b v = put_block b zero_block v

-- `(data[bi / 8] & m) == 0` with `m = 1 << (bi % 8)`.
unfoldable pub is_clear : (ℕ → ℕ) → ℕ → Bool
is_clear x bi = bit_and (x (bi / 8)) (2 ^ (bi % 8)) == 0

-- `data[bi / 8] |= m`
unfoldable pub set_bit : ℕ → (ℕ → ℕ) → ℕ → ℕ
set_bit bi x = update x (bi / 8) (bit_or (x (bi / 8)) (2 ^ (bi % 8)))

-- `data[bi / 8] &= ~m`, on a byte.
unfoldable pub clear_bit : ℕ → (ℕ → ℕ) → ℕ → ℕ
clear_bit bi x = update x (bi / 8) (bit_and (x (bi / 8)) (255 - 2 ^ (bi % 8)))

-- The inner loop of `balloc`, from bit `bi` on, with `left` rounds to go.
unfoldable pub find_clear : ℕ → (ℕ → ℕ) → ℕ → Option ℕ
find_clear zero x bi = none
find_clear (suc left) x bi =
    let later = find_clear left x (bi + 1) in if is_clear x bi then some bi else later

-- The rounds of the inner loop: `bi < BPB && b + bi < sb.size`.
abbrev pub bits_from : ℕ → ℕ → ℕ
bits_from size b = if ltb (size - b) block_bits then size - b else block_bits

module _ (sb : Super) where
  -- `BBLOCK`
  abbrev pub map_block : ℕ → ℕ
  map_block b = b / block_bits + sb.bmapstart

  -- `IBLOCK`: an inode on disk has 64 bytes.
  abbrev pub inode_block : ℕ → ℕ
  inode_block i = i / 8 + sb.inodestart

  -- The block that bit `bi` stands for is marked and zeroed.
  abbrev pub claim_block : ℕ → Option ℕ → Volume → Option (ℕ × Volume)
  claim_block b none v = none
  claim_block b (some bi) v =
      some (b + bi, bzero (b + bi) (put_block (map_block b) (set_bit bi (v.block (map_block b))) v))

  abbrev pub or_later : Option (ℕ × Volume) → Outcome (ℕ × Volume) → Outcome (ℕ × Volume)
  or_later none later = later
  or_later (some r) later = ok r

  -- The outer loop, from block `b` on, with so many blocks of the map to go.
  unfoldable pub balloc_from : ℕ → ℕ → Volume → Outcome (ℕ × Volume)
  unfolding find_clear bzero set_bit
  balloc_from zero b v = panic "balloc: out of blocks"
  balloc_from (suc left) b v =
      let later = balloc_from left (b + block_bits) v in
      let found = find_clear (bits_from sb.size b) (v.block (map_block b)) 0 in
      or_later (claim_block b found v) later

  -- The rounds of `for (b = 0; b < sb.size; b += BPB)`.
  abbrev pub map_blocks : ℕ
  map_blocks = (sb.size + block_bits - 1) / block_bits

  unfoldable pub balloc : Volume → Outcome (ℕ × Volume)
  unfolding balloc_from
  balloc v = balloc_from map_blocks 0 v

  unfoldable pub bfree : ℕ → Volume → Outcome Volume
  unfolding is_clear clear_bit
  bfree b v =
      let x = v.block (map_block b) in
      let bi = b % block_bits in
      if is_clear x bi
      then panic "freeing free block"
      else ok (put_block (map_block b) (clear_bit bi x) v)
