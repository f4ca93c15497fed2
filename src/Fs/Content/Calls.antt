-- ===== src/Fs/Content/Calls.antt =====
-- How many blocks writei of src/fs.c gives to log_write.
use waka_b4_research.Base.{
  ℕ, zero, suc, ◌+◌, ◌-◌, ◌*◌, ◌/◌, ◌%◌, ◌≤◌, ◌≡◌, refl, arith, ◌&&◌, get_or, set, Option, none,
  some, ◌==◌, ltb, length, if◌then◌else◌, Bool-cases, inl, inr, Outcome, ok, panic, spins, on_ok,
}
use waka_b4_research.CString.Moves.{store_word}
use waka_b4_research.Syscall.{load_word}
use waka_b4_research.Fs.{
  Super, Volume, block_size, put_block, balloc, balloc_from, claim_block, or_later, bits_from,
  find_clear, map_blocks, map_block, block_bits,
}
use waka_b4_research.Fs.Inode.{
  Inode, t_dev, max_bytes_of_file, ndirect, nindirect, slot_addr, entry_addr, bmap, iupdate,
}
use waka_b4_research.Fs.Content.{copy_in, is_bad_range, step_size, write_from, grown, writei}

-- A result whose volume has at most `k` more calls than `v`.
abbrev pub Logs : {A : Type 0} → (A → Volume) → ℕ → Volume → Outcome A → Type 0
Logs f k v (ok a) = length (f a).logged ≤ length v.logged + k
Logs f k v (panic _) = Unit
Logs f k v spins = Unit

Logs-le :
    {A : Type 0} (f : A → Volume) (k l : ℕ) (v : Volume) (r : Outcome A)
    → k ≤ l
    → Logs f k v r
    → Logs f l v r
Logs-le f k l v (ok a) le h = omega (arith, h)
Logs-le f k l v (panic _) le h = tt
Logs-le f k l v spins le h = tt

Logs-from :
    {A : Type 0} (f : A → Volume) (k l : ℕ) (v w : Volume) (r : Outcome A)
    → length w.logged ≤ length v.logged + k
    → Logs f l w r
    → Logs f (k + l) v r
Logs-from f k l v w (ok a) le h = omega (arith, le, h)
Logs-from f k l v w (panic _) le h = tt
Logs-from f k l v w spins le h = tt

Logs-on_ok :
    {A B : Type 0} (f : A → Volume) (g : B → Volume) (k l : ℕ) (v : Volume) (r : Outcome A)
    (next : A → Outcome B)
    → Logs f k v r
    → ((a : A) → Logs g l (f a) (next a))
    → Logs g (k + l) v (on_ok r next)
Logs-on_ok f g k l v (ok a) next h later = Logs-from g k l v (f a) (next a) h (later a)
Logs-on_ok f g k l v (panic _) next h later = tt
Logs-on_ok f g k l v spins next h later = tt

-- The blocks that the `n` bytes from `off` on are in.
abbrev pub blocks_of : (off n : ℕ) → ℕ
blocks_of off n = if n == 0 then 0 else (off + n - 1) / block_size - off / block_size + 1

-- What a `writei` of `n` bytes at `off` takes of the log at most: for each block of the range the
-- block, a new block for it and one for the indirect block, both with the block of the map, and the
-- indirect block; and the inode.
abbrev pub calls_of : (off n : ℕ) → ℕ
calls_of off n = 6 * blocks_of off n + 1

module _ (sb : Super) where
  balloc_from-Logs : (left b : ℕ) (v : Volume) → Logs (λ r. r.1) 2 v (balloc_from sb left b v)
  unfolding balloc_from
  balloc_from-Logs zero b v = tt
  balloc_from-Logs (suc left) b v =
      found (find_clear (bits_from sb.size b) (v.block (map_block sb b)) 0)
        (balloc_from-Logs left (b + block_bits) v)
    where
      found :
          (o : Option ℕ)
          → Logs (λ r. r.1) 2 v (balloc_from sb left (b + block_bits) v)
          → Logs
              (λ r. r.1)
              2
              v
              (or_later sb (claim_block sb b o v) (balloc_from sb left (b + block_bits) v))
      found none later = later
      found (some bi) later = omega arith

  slot_addr-Logs : (i : ℕ) (ip : Inode) (v : Volume) → Logs (λ r. r.2) 2 v (slot_addr sb i ip v)
  unfolding slot_addr balloc
  slot_addr-Logs i ip v = elim (Bool-cases (get_or ip.addrs i 0 == 0)) [
    | inr there ↦ rw there (omega arith)
    | inl new ↦ rw new (
        Logs-on_ok (λ r. r.1) (λ r. r.2) 2 0 v (balloc_from sb (map_blocks sb) 0 v)
          (λ (a, v'). ok (a, record ip { addrs = set ip.addrs i a }, v'))
          (balloc_from-Logs (map_blocks sb) 0 v) (λ r. omega arith))
  ]

  entry_addr-Logs :
      (j b : ℕ) (ip : Inode) (v : Volume) → Logs (λ r. r.2) 3 v (entry_addr sb j b ip v)
  unfolding entry_addr balloc
  entry_addr-Logs j b ip v = elim (Bool-cases (load_word (v.block b) (4 * j) == 0)) [
    | inr there ↦ rw there (omega arith)
    | inl new ↦ rw new (
        Logs-on_ok (λ r. r.1) (λ r. r.2) 2 1 v (balloc_from sb (map_blocks sb) 0 v)
          (λ (a, v'). ok (a, ip, put_block b (store_word (4 * j) a (v'.block b)) v'))
          (balloc_from-Logs (map_blocks sb) 0 v) (λ r. omega arith))
  ]

  bmap-Logs : (bn : ℕ) (ip : Inode) (v : Volume) → Logs (λ r. r.2) 5 v (bmap sb bn ip v)
  unfolding bmap
  bmap-Logs bn ip v = elim (Bool-cases (ltb bn ndirect)) [
    | inl low ↦
        rw low
          (Logs-le (λ r. r.2) 2 5 v (slot_addr sb bn ip v) (omega arith) (slot_addr-Logs bn ip v))
    | inr high ↦ elim (Bool-cases (ltb (bn - ndirect) nindirect)) [
      | inr out ↦ rw (high, out) tt
      | inl inside ↦
          rw (high, inside)
            (Logs-on_ok (λ r. r.2) (λ r. r.2) 2 3 v (slot_addr sb ndirect ip v)
              (λ (b, ip', v'). entry_addr sb (bn - ndirect) b ip' v') (slot_addr-Logs ndirect ip v)
              (λ (b, ip', v'). entry_addr-Logs (bn - ndirect) b ip' v'))
    ]
  ]

  write_from-Logs :
      (fuel left off src : ℕ) (ip : Inode) (v : Volume) (mem : ℕ → ℕ)
      → Logs (λ r. r.1) (6 * blocks_of off left) v (write_from sb fuel left off src ip v mem)
  unfolding write_from
  write_from-Logs zero left off src ip v mem = tt
  write_from-Logs (suc fuel) left off src ip v mem = elim (Bool-cases (left == 0)) [
    | inl e ↦ rw e (omega arith)
    | inr e ↦
        let m = step_size left off in
        let fewer : 6 + 6 * blocks_of (off + m) (left - m) ≤ 6 * blocks_of off left =
          ground (arith, e) in
        let next = λ (x : ℕ × Inode × Volume).
          write_from sb fuel (left - m) (off + m) (src + m) x.1
            (put_block x.0 (copy_in (off % block_size) m src mem (x.2.block x.0)) x.2) mem in
        let run = on_ok (bmap sb (off / block_size) ip v) next in
        let all : Logs (λ r. r.1) (5 + (1 + 6 * blocks_of (off + m) (left - m))) v run =
          Logs-on_ok (λ r. r.2) (λ r. r.1) 5 (1 + 6 * blocks_of (off + m) (left - m)) v
            (bmap sb (off / block_size) ip v) next (bmap-Logs (off / block_size) ip v)
            (λ (a, ip', v').
              let block = copy_in (off % block_size) m src mem (v'.block a) in
              Logs-from (λ r. r.1) 1 (6 * blocks_of (off + m) (left - m)) v' (put_block a block v')
                (next (a, ip', v')) (omega arith)
                (write_from-Logs fuel (left - m) (off + m) (src + m) ip' (put_block a block v')
                  mem)) in
        let whole : Logs (λ r. r.1) (6 * blocks_of off left) v run =
          Logs-le (λ r. r.1) (5 + (1 + 6 * blocks_of (off + m) (left - m))) (6 * blocks_of off left)
            v run (omega (arith, fewer)) all in
        rw e (rw e at whole)
  ]

  grown-Logs :
      (n off k : ℕ) (ip : Inode) (v w : Volume)
      → length w.logged ≤ length v.logged + k
      → length (grown sb n off ip w).1.logged ≤ length v.logged + (k + 1)
  grown-Logs n off k ip v w le = elim (Bool-cases (ltb 0 n && ltb ip.size off)) [
    | inl e ↦
        let put : length (iupdate sb (record ip { size = off }) w).logged ≡ suc (length w.logged) =
          unfold iupdate in refl in
        rw e (omega (arith, put, le))
    | inr e ↦ rw e (omega (arith, le))
  ]

  pub writei-Logs :
      (device : Option ℕ) (src off n : ℕ) (ip : Inode) (v : Volume) (mem : ℕ → ℕ)
      → Logs (λ r. r.2) (calls_of off n) v (writei sb device src off n ip v mem)
  unfolding writei
  writei-Logs device src off n ip v mem = elim (Bool-cases (ip.type == t_dev)) [
    | inl e ↦ rw e (omega arith)
    | inr e ↦ elim (Bool-cases (is_bad_range off n ip.size)) [
      | inl bad ↦ rw (e, bad) (omega arith)
      | inr good ↦ elim (Bool-cases (ltb max_bytes_of_file (off + n))) [
        | inl large ↦ rw (e, good, large) (omega arith)
        | inr fits ↦
            rw (e, good, fits)
              (written (write_from sb (suc n) n off src ip v mem)
                (write_from-Logs (suc n) n off src ip v mem))
      ]
    ]
  ]
    where
      written :
          (r : Outcome (Inode × Volume))
          → Logs (λ r. r.1) (6 * blocks_of off n) v r
          → Logs {A = ℕ × Inode × Volume}
              (λ r. r.2)
              (calls_of off n)
              v
              (on_ok r
                (λ (ip', v'). let (ip'', v'') = grown sb n (off + n) ip' v' in ok (n, ip'', v'')))
      written (ok (ip', v')) h = grown-Logs n (off + n) (6 * blocks_of off n) ip' v v' h
      written (panic _) h = tt
      written spins h = tt
