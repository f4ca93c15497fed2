-- ===== src/Fs/Content.antt =====
-- readi and writei of src/fs.c. The caller's buffer is memory by address; memmove between it and a
-- block, which do not overlap, is the copy of the bytes. What a device's function does is an argument:
-- `none` where the table has no function.
pub mod Bytes
pub mod Read
pub mod Write
pub mod Writei
pub mod Grown
pub mod Calls
pub mod Logged
use waka_b4_research.Base.{
  ℕ, zero, suc, ◌+◌, ◌-◌, ◌/◌, ◌%◌, ◌^◌, Bool, true, false, ◌&&◌, ◌||◌, Option, none, some, ◌==◌,
  ltb, leb, if◌then◌else◌, Outcome, ok, panic, on_ok, add_word, minus_one,
}
use waka_b4_research.Fs.{Super, Volume, block_size, put_block}
use waka_b4_research.Fs.Inode.{Inode, max_bytes_of_file, t_dev, iupdate, bmap}

-- `m` bytes of a block, from byte `o` on, to the buffer at `dst`.
abbrev pub copy_out : ℕ → ℕ → ℕ → (ℕ → ℕ) → (ℕ → ℕ) → ℕ → ℕ
copy_out o m dst block mem x = if leb dst x && ltb x (dst + m) then block (o + (x - dst)) else mem x

-- `m` bytes of the buffer at `src` to a block, from byte `o` on.
abbrev pub copy_in : ℕ → ℕ → ℕ → (ℕ → ℕ) → (ℕ → ℕ) → ℕ → ℕ
copy_in o m src mem block i = if leb o i && ltb i (o + m) then mem (src + (i - o)) else block i

-- `min(n - tot, BSIZE - off % BSIZE)`, where `left` is `n - tot`.
abbrev pub step_size : ℕ → ℕ → ℕ
step_size left off =
    if ltb left (block_size - off % block_size) then left else block_size - off % block_size

-- `NDEV`, and the test of the device's number, which is a `short`.
abbrev pub is_bad_major : ℕ → Bool
is_bad_major major = leb (2 ^ 15) major || leb 10 major

-- `off > ip->size || off + n < off`
abbrev pub is_bad_range : ℕ → ℕ → ℕ → Bool
is_bad_range off n size = ltb size off || ltb (add_word off n) off

module _ (sb : Super) where
  -- The loop of `readi` with `left` bytes to go, on fuel.
  unfoldable pub read_from :
      ℕ → (left off dst : ℕ) → Inode → Volume → (ℕ → ℕ) → Outcome (Inode × Volume × (ℕ → ℕ))
  read_from zero left off dst ip v mem = panic "out of fuel"
  read_from (suc fuel) left off dst ip v mem =
      let m = step_size left off in
      let round = on_ok (bmap sb (off / block_size) ip v) (λ (a, ip', v').
        read_from fuel (left - m) (off + m) (dst + m) ip' v'
          (copy_out (off % block_size) m dst (v'.block a) mem)) in
      if left == 0 then ok (ip, v, mem) else round

  abbrev pub read_device : Option (ℕ × (ℕ → ℕ)) → (ℕ → ℕ) → ℕ × (ℕ → ℕ)
  read_device none mem = (minus_one, mem)
  read_device (some (r, mem')) mem = (r, mem')

  -- The bytes that there are to read.
  abbrev pub read_size : ℕ → ℕ → ℕ → ℕ
  read_size off n size = if ltb size (off + n) then size - off else n

  unfoldable pub readi :
      Option (ℕ × (ℕ → ℕ))
      → (dst off n : ℕ) → Inode
      → Volume
      → (ℕ → ℕ)
      → Outcome (ℕ × Inode × Volume × (ℕ → ℕ))
  readi device dst off n ip v mem =
      let (r, mem') = read_device (if is_bad_major ip.major then none else device) mem in
      let k = read_size off n ip.size in
      if ip.type == t_dev
      then ok (r, ip, v, mem')
      else if is_bad_range off n ip.size
      then ok (minus_one, ip, v, mem)
      else on_ok (read_from (suc k) k off dst ip v mem) (λ (ip', v', read). ok (k, ip', v', read))

  unfoldable pub write_from :
      ℕ → (left off src : ℕ) → Inode → Volume → (ℕ → ℕ) → Outcome (Inode × Volume)
  write_from zero left off src ip v mem = panic "out of fuel"
  write_from (suc fuel) left off src ip v mem =
      let m = step_size left off in
      let round = on_ok (bmap sb (off / block_size) ip v) (λ (a, ip', v').
        write_from fuel (left - m) (off + m) (src + m) ip'
          (put_block a (copy_in (off % block_size) m src mem (v'.block a)) v') mem) in
      if left == 0 then ok (ip, v) else round

  -- The end of `writei`: the file has grown to `off`.
  abbrev pub grown : ℕ → ℕ → Inode → Volume → Inode × Volume
  grown n off ip v =
      if ltb 0 n && ltb ip.size off
      then (record ip { size = off }, iupdate sb (record ip { size = off }) v)
      else (ip, v)

  unfoldable pub writei :
      Option ℕ → (src off n : ℕ) → Inode → Volume → (ℕ → ℕ) → Outcome (ℕ × Inode × Volume)
  writei device src off n ip v mem =
      if ip.type == t_dev
      then ok (
        elim (if is_bad_major ip.major then none else device) [ none ↦ minus_one | some r ↦ r ],
        ip,
        v,
      )
      else if is_bad_range off n ip.size
      then ok (minus_one, ip, v)
      else if ltb max_bytes_of_file (off + n)
      then ok (minus_one, ip, v)
      else on_ok (write_from (suc n) n off src ip v mem)
          (λ (ip', v'). let (ip'', v'') = grown n (off + n) ip' v' in ok (n, ip'', v''))
