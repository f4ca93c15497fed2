-- ===== src/Fs/Content/Writei.antt =====
-- The loop of writei of src/fs.c over the blocks, and writei.
use waka_b4_research.Base.{
  ℕ, zero, suc, ◌+◌, ◌-◌, ◌/◌, ◌%◌, ◌<◌, ◌≤◌, ◌≡◌, ◌≢◌, refl, sym, ap, ◌∙◌, arith, true, false,
  ◌&&◌, ◌==◌, leb, ltb, Bool-cases, inl, inr, Outcome, ok, panic, spins, on_ok, String,
}
use waka_b4_research.Fs.{Super, Volume, block_size, put_block}
use waka_b4_research.Fs.Bits.{AreBytes}
use waka_b4_research.Fs.Inode.{Inode, max_bytes_of_file, bmap}
use waka_b4_research.Fs.Inode.Owned.{position}
use waka_b4_research.Fs.Inode.Slots.{IsFile, IsExtended, IsExtended-IsFile}
use waka_b4_research.Fs.Inode.Bmap.{BmapEnds, bmap_lem}
use waka_b4_research.Fs.Content.{copy_in, step_size, write_from}
use waka_b4_research.Fs.Content.Bytes.{block_of, byte_at, bmap_there, position-lt, byte_at-extended}
use waka_b4_research.Fs.Content.Write.{IsWritten, owned-put_data, put_data-IsFile, byte_at-put_data}

module _ (sb : Super) (mem : ℕ → ℕ) (mem_bytes : AreBytes mem) where
  -- How the loop ends: it panics only if a block of the range is missing.
  abbrev pub WriteEnds : (off n src : ℕ) → Inode → Volume → Outcome (Inode × Volume) → Type 0
  WriteEnds off n src ip v (ok (ip', v')) = IsWritten sb off n src mem ip v ip' v'
  WriteEnds off n src ip v (panic _) = (x : ℕ) × (off ≤ x) × (x < off + n) × (block_of ip v x ≡ 0)
  WriteEnds off n src ip v spins = ⊥

  copy_in-AreBytes : (o m src : ℕ) (x : ℕ → ℕ) → AreBytes x → AreBytes (copy_in o m src mem x)
  copy_in-AreBytes o m src x h i =
      let old = h i in let new = mem_bytes (src + (i - o)) in ground arith

  IsWritten-none :
      (off src : ℕ) (ip : Inode) (v : Volume)
      → IsFile sb ip v
      → IsWritten sb off 0 src mem ip v ip v
  IsWritten-none off src ip v f = record {
    same = refl;
    file = f;
    bytes = λ x lt. let out : (leb off x && ltb x (off + 0)) ≡ false = ground arith in rw out refl;
    kept = λ x lt there. there;
    filled = λ x low high. absurd (omega arith);
  }

  -- One round, once bmap has given the block.
  module _ (off left src m : ℕ) (ip : Inode) (v : Volume) (is_step : m ≡ step_size left off)
      (more : 0 < left) (small : off + left ≤ max_bytes_of_file) (a : ℕ) (ip' : Inode) (v' : Volume)
      (pos : a ≢ 0) (at : block_of ip' v' off ≡ a)
      (e : IsExtended sb (position (off / block_size)) ip v ip' v') where
    abbrev block : ℕ → ℕ
    block = copy_in (off % block_size) m src mem (v'.block a)

    abbrev written : Volume
    written = put_block a block v'

    f' : IsFile sb ip' v'
    f' = IsExtended-IsFile sb (position (off / block_size)) ip v ip' v' e

    there : block_of ip' v' off ≢ 0
    there z = pos (sym at ∙ z)

    in_range : off < max_bytes_of_file
    in_range = omega arith

    block-AreBytes : AreBytes block
    block-AreBytes = copy_in-AreBytes (off % block_size) m src (v'.block a) (f'.volume.bytes a)

    pub round-IsFile : IsFile sb ip' written
    round-IsFile = rw at at (put_data-IsFile sb ip' v' f' off in_range there block block-AreBytes)

    round-block_of : (x : ℕ) → block_of ip' written x ≡ block_of ip' v' x
    round-block_of x = rw at at (
        owned-put_data sb ip' v' f' off in_range there block block-AreBytes
          (position (x / block_size)))

    round-kept : (x : ℕ) → x < max_bytes_of_file → block_of ip v x ≢ 0 → block_of ip' written x ≢ 0
    round-kept x lt old z = old (
        sym (e.extends.kept (position (x / block_size)) (position-lt x lt) old)
        ∙ sym (round-block_of x)
        ∙ z)

    round-byte_at :
        (x : ℕ)
        → x < max_bytes_of_file
        → byte_at ip' written x ≡ copy_in off m src mem (byte_at ip v) x
    round-byte_at x lt =
        let put =
          rw at at (byte_at-put_data sb ip' v' f' off in_range there block block-AreBytes x lt) in
        let old = byte_at-extended sb (position (off / block_size)) ip v ip' v' e x lt in
        elim (Bool-cases (x / block_size == off / block_size)) [
          | inl here ↦
              let same : x / block_size ≡ off / block_size = ground arith in
              let nonzero : (a == 0) ≡ false = ground arith in
              let was : v'.block a (x % block_size) ≡ byte_at ip v x =
                rw⁻¹ old (rw (same, at, nonzero) refl) in
              elim (Bool-cases (leb off x && ltb x (off + m))) [
                | inl within ↦
                    let window : (leb (off % block_size) (x % block_size)
                          && ltb (x % block_size) (off % block_size + m))
                        ≡ true =
                      ground arith in
                    let index : x % block_size - off % block_size ≡ x - off = ground arith in
                    put ∙ rw (here, within, window, index) refl
                | inr without ↦
                    let window : (leb (off % block_size) (x % block_size)
                          && ltb (x % block_size) (off % block_size + m))
                        ≡ false =
                      ground arith in
                    put ∙ rw (here, without, window) was
              ]
          | inr far ↦
              let without : (leb off x && ltb x (off + m)) ≡ false = ground arith in
              put ∙ rw (far, without) old
        ]

    pub round-IsWritten :
        (ip'' : Inode) (v'' : Volume)
        → IsWritten sb (off + m) (left - m) (src + m) mem ip' written ip'' v''
        → IsWritten sb off left src mem ip v ip'' v''
    round-IsWritten ip'' v'' w = record {
      same = w.same ∙ ap (λ (i : Inode). record i { addrs = ip''.addrs }) e.same;
      file = w.file;
      bytes = λ x lt. w.bytes x lt ∙ merged x (byte_at ip v x) (round-byte_at x lt);
      kept = λ x lt old. w.kept x lt (round-kept x lt old);
      filled = λ x low high. elim (Bool-cases (ltb x (off + m))) [
        | inl here ↦
            let same : x / block_size ≡ off / block_size = ground arith in
            w.kept x (omega arith) (λ z. there (rw (← same) (sym (round-block_of x) ∙ z)))
        | inr later ↦ w.filled x (ground arith) (ground arith)
      ];
    }
      where
        merged :
            (x old : ℕ)
            → byte_at ip' written x ≡ copy_in off m src mem (λ _. old) x
            → copy_in (off + m) (left - m) (src + m) mem (byte_at ip' written) x
              ≡ copy_in off left src mem (λ _. old) x
        merged x old h = ground (arith, h, ap mem)

  module _ (off left src : ℕ) (ip : Inode) (v : Volume) (more : 0 < left)
      (small : off + left ≤ max_bytes_of_file) where
    abbrev m : ℕ
    m = step_size left off

    -- A missing block of the rest was missing before.
    later_ends :
        (a : ℕ) (ip' : Inode) (v' : Volume) (pos : a ≢ 0) (at : block_of ip' v' off ≡ a)
        (e : IsExtended sb (position (off / block_size)) ip v ip' v') (r : Outcome (Inode × Volume))
        → WriteEnds
            (off + m)
            (left - m)
            (src + m)
            ip'
            (put_block a (copy_in (off % block_size) m src mem (v'.block a)) v')
            r
        → WriteEnds off left src ip v r
    later_ends a ip' v' pos at e (ok (ip'', v'')) w =
        round-IsWritten off left src m ip v refl more small a ip' v' pos at e ip'' v'' w
    later_ends a ip' v' pos at e (panic _) (x, low, high, missing) = (
      x,
      omega arith,
      ground arith,
      elim (Bool-cases (block_of ip v x == 0)) [
        | inl z ↦ ground arith
        | inr z ↦ absurd (
            round-kept off left src m ip v refl more small a ip' v' pos at e x (ground arith)
              (λ p. ground arith) missing)
      ],
    )
    later_ends a ip' v' pos at e spins h = h

    round_ends :
        (r : Outcome (ℕ × Inode × Volume)) (k : ℕ × Inode × Volume → Outcome (Inode × Volume))
        → BmapEnds sb (off / block_size) ip v r
        → ((s : String) → r ≡ panic s → block_of ip v off ≡ 0)
        → ((a : ℕ) (ip' : Inode) (v' : Volume)
            → a ≢ 0
            → block_of ip' v' off ≡ a
            → IsExtended sb (position (off / block_size)) ip v ip' v'
            → WriteEnds off left src ip v (k (a, ip', v')))
        → WriteEnds off left src ip v (on_ok r k)
    round_ends (ok (a, ip', v')) k (pos, at, e) hole go = go a ip' v' pos at e
    round_ends (panic s) k _ hole go = (off, omega arith, omega arith, hole s refl)
    round_ends spins k h hole go = absurd h

  pub write_from_lem :
      (fuel left off src : ℕ) (ip : Inode) (v : Volume)
      → left < fuel
      → off + left ≤ max_bytes_of_file
      → IsFile sb ip v
      → WriteEnds off left src ip v (write_from sb fuel left off src ip v mem)
  unfolding write_from
  write_from_lem zero left off src ip v enough small f = absurd (omega arith)
  write_from_lem (suc fuel) left off src ip v enough small f = elim (Bool-cases (left == 0)) [
    | inl e ↦
        let zero_left : left ≡ 0 = ground arith in rw (e, zero_left) (IsWritten-none off src ip v f)
    | inr e ↦
        let more : 0 < left = ground arith in
        let lt : off / block_size < 140 = omega arith in
        rw e (
          round_ends off left src ip v more small (bmap sb (off / block_size) ip v)
            (λ (a, ip', v').
              write_from sb fuel (left - step_size left off) (off + step_size left off)
                (src + step_size left off) ip'
                (put_block a (copy_in (off % block_size) (step_size left off) src mem (v'.block a))
                  v')
                mem)
            (bmap_lem sb (off / block_size) ip v f lt)
            (λ s p. elim (Bool-cases (block_of ip v off == 0)) [
              | inl z ↦ ground arith
              | inr z ↦ let run = bmap_there sb ip v (off / block_size) lt z in cc
            ])
            (λ a ip' v' pos at x.
              later_ends off left src ip v more small a ip' v' pos at x
                (write_from sb fuel (left - step_size left off) (off + step_size left off)
                  (src + step_size left off) ip'
                  (put_block a
                    (copy_in (off % block_size) (step_size left off) src mem (v'.block a)) v')
                  mem)
                (write_from_lem fuel (left - step_size left off) (off + step_size left off)
                  (src + step_size left off) ip'
                  (put_block a
                    (copy_in (off % block_size) (step_size left off) src mem (v'.block a)) v')
                  (ground arith) (ground arith)
                  (round-IsFile off left src (step_size left off) ip v refl more small a ip' v' pos
                    at x))))
  ]
