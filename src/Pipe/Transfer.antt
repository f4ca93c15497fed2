-- ===== src/Pipe/Transfer.antt =====
-- `pipewrite` and `piperead` of src/pipe.c against the queue of bytes.
use mathlib.Core.List.{append-nil, append_assoc}
use waka_b4_research.Base.{
  ℕ, zero, suc, ◌-◌, ◌<◌, ◌≡◌, refl, ap, ◌∙◌, Bool, true, false, ◌&&◌, ◌||◌, not, List, [], ◌∷◌,
  ◌++◌, arith, leb, if◌then◌else◌, Bool-cases, inl, inr, length, take, drop,
}
use waka_b4_research.Pipe.{
  Pipe, pipe_size, is_full, is_empty, put, front, skip, called, Call, acquires, releases,
  wakes_reader, wakes_writer, sleeps_reader, sleeps_writer, Written, wrote, refused, waits,
  write_loop, pipewrite, Received, got, failed, sleeps, read_loop, piperead_return, piperead,
}
use waka_b4_research.Pipe.Ring.{
  queue_from, count, queue, IsPipe, length-queue_from, is_full_iff, is_empty_iff, put-IsPipe,
  count-put, queue-put, skip-IsPipe, queue-skip,
}

-- How a write of `bs`, `n` bytes in all, ends where there is room for `room` more.
abbrev pub write_end : Bool → Bool → ℕ → ℕ → List ℕ → Written
write_end readopen killed n room bs =
    if leb (length bs) room
    then wrote n
    else if not readopen || killed
    then refused
    else waits (drop room bs)

pub take-nil : {A : Type 0} (n : ℕ) → take {A = A} n [] ≡ []
take-nil zero = refl
take-nil (suc n) = refl

pub kept : {p : Pipe} {cs : List Call} → IsPipe p → IsPipe (record p { calls = cs })
kept v = record {
  array = v.array;
  read_word = v.read_word;
  write_word = v.write_word;
  fits = v.fits;
}

write_end-cons :
    (readopen killed : Bool) (n room b : ℕ) (bs : List ℕ)
    → write_end readopen killed n room bs ≡ write_end readopen killed n (suc room) (b ∷ bs)
write_end-cons readopen killed n room b bs = ground arith

put-readopen : (b : ℕ) (p : Pipe) → (put b p).readopen ≡ p.readopen
unfolding put
put-readopen b p = refl

put-nread : (b : ℕ) (p : Pipe) → (put b p).nread ≡ p.nread
unfolding put
put-nread b p = refl

put-calls : (b : ℕ) (p : Pipe) → (put b p).calls ≡ p.calls
unfolding put
put-calls b p = refl

skip-nwrite : (p : Pipe) → (skip p).nwrite ≡ p.nwrite
unfolding skip
skip-nwrite p = refl

skip-calls : (p : Pipe) → (skip p).calls ≡ p.calls
unfolding skip
skip-calls p = refl

-- The last calls of a write: on its return the lock is given back, and before it sleeps the reader is
-- woken.
abbrev pub write_calls : Written → List Call → List Call
write_calls (wrote _) cs = releases ∷ wakes_reader ∷ cs
write_calls refused cs = releases ∷ cs
write_calls (waits _) cs = sleeps_writer ∷ wakes_reader ∷ cs

-- What a write leaves of pipe `p`.
pub record IsWritten (killed : Bool) (n : ℕ) (bs : List ℕ) (p : Pipe) (r : Written) (p' : Pipe)
    : Type 0 where
  pub valid : IsPipe p'
  pub bytes : queue p' ≡ queue p ++ take (pipe_size - count p) bs
  pub reader : p'.nread ≡ p.nread
  pub calls : p'.calls ≡ write_calls r p.calls
  pub ends : r ≡ write_end p.readopen killed n (pipe_size - count p) bs

pub write_loop_lem :
    (killed : Bool) (n : ℕ) (bs : List ℕ) (p : Pipe)
    → IsPipe p
    → IsWritten killed n bs p (write_loop killed n bs p).0 (write_loop killed n bs p).1
unfolding write_loop
write_loop_lem killed n [] p v = record {
  valid = record {
    array = v.array;
    read_word = v.read_word;
    write_word = v.write_word;
    fits = v.fits;
  };
  bytes = rw (take-nil (pipe_size - count p), append-nil);
  reader = refl;
  calls = refl;
  ends = ground arith;
}
write_loop_lem killed n (b ∷ bs) p v = elim (Bool-cases (is_full p)) [
  | inl full ↦
      let none_left : pipe_size - count p ≡ 0 = ground (arith, is_full_iff p v, full) in
      rw full (elim (Bool-cases (not p.readopen || killed)) [
        | inl closed ↦ rw closed (record {
          valid = kept v;
          bytes = rw (none_left, append-nil);
          reader = refl;
          calls = refl;
          ends = ground (arith, none_left);
        })
        | inr open' ↦ rw open' (record {
          valid = kept v;
          bytes = rw (none_left, append-nil);
          reader = refl;
          calls = refl;
          ends = ground (arith, none_left);
        })
      ])
  | inr space ↦
      let below : count p < pipe_size = ground (arith, is_full_iff p v, space, v.fits) in
      let w = write_loop_lem killed n bs (put b p) (put-IsPipe p v b below) in
      let one_less : pipe_size - count p ≡ suc (pipe_size - count (put b p)) =
        omega (arith, count-put p v b below) in
      rw space (record {
        valid = w.valid;
        bytes = w.bytes ∙ rw (one_less, queue-put p v b below, append_assoc);
        reader = w.reader ∙ put-nread b p;
        calls = w.calls ∙ ap (write_calls (write_loop killed n bs (put b p)).0) (put-calls b p);
        ends =
            w.ends
            ∙ rw (put-readopen b p, one_less)
                (write_end-cons p.readopen killed n (pipe_size - count (put b p)) b bs);
      })
]

-- The bytes that a read of `n` takes, and what it leaves.
pub record IsRead (n : ℕ) (p : Pipe) (bs : List ℕ) (p' : Pipe) : Type 0 where
  pub valid : IsPipe p'
  pub bytes : bs ≡ take n (queue p)
  pub rest : queue p' ≡ drop n (queue p)
  pub writer : p'.nwrite ≡ p.nwrite
  pub calls : p'.calls ≡ p.calls

pub read_loop_lem : (n : ℕ) (p : Pipe) → IsPipe p → IsRead n p (read_loop n p).0 (read_loop n p).1
unfolding read_loop
read_loop_lem zero p v = record {
  valid = v;
  bytes = refl;
  rest = refl;
  writer = refl;
  calls = refl;
}
read_loop_lem (suc n) p v = elim (Bool-cases (is_empty p)) [
  | inl none' ↦
      let empty : queue p ≡ [] =
        ap (queue_from p.bytes p.nread) {y = 0} (ground (arith, is_empty_iff p v, none')) in
      rw none'
        (record { valid = v; bytes = rw empty; rest = rw empty; writer = refl; calls = refl })
  | inr some' ↦
      let bytes : 0 < count p = ground (arith, is_empty_iff p v, some') in
      let r = read_loop_lem n (skip p) (skip-IsPipe p v bytes) in
      rw some' (record {
        valid = r.valid;
        bytes = rw (queue-skip p v bytes) (ap (λ bs. front p ∷ bs) r.bytes);
        rest = rw (queue-skip p v bytes) r.rest;
        writer = r.writer ∙ skip-nwrite p;
        calls = r.calls ∙ skip-calls p;
      })
]

-- `pipewrite` of `bs` puts as many of the bytes behind the queue as there is room for, takes none
-- away, and returns the number of bytes if all of them had room; otherwise it returns -1 if the
-- reading end is closed or the caller is killed, and else sleeps before the bytes that are left,
-- with the reader woken.
pub pipewrite_lem :
    (killed : Bool) (bs : List ℕ) (p : Pipe)
    → IsPipe p
    → IsWritten killed
        (length bs)
        bs
        (called acquires p)
        (pipewrite killed bs p).0
        (pipewrite killed bs p).1
unfolding pipewrite
pipewrite_lem killed bs p v = write_loop_lem killed (length bs) bs (called acquires p) (kept v)

-- How a read of `n` bytes from `p` may end.
abbrev pub ReadSpec : Bool → ℕ → Pipe → Received → Pipe → Type 0
ReadSpec killed n p failed p' =
    (queue p ≡ []) × (p.writeopen ≡ true) × (killed ≡ true) × (p' ≡ called releases p)
ReadSpec killed n p sleeps p' =
    (queue p ≡ []) × (p.writeopen ≡ true) × (killed ≡ false) × (p' ≡ called sleeps_reader p)
ReadSpec killed n p (got bs) p' =
    ((queue p ≡ []) → p.writeopen ≡ false)
    × (bs ≡ take n (queue p))
    × (queue p' ≡ drop n (queue p))
    × IsPipe p'
    × (p'.nwrite ≡ p.nwrite)
    × (p'.calls ≡ releases ∷ wakes_writer ∷ p.calls)

queue-empty : (p : Pipe) → IsPipe p → queue p ≡ [] → is_empty p ≡ true
queue-empty p v e = ground (
  arith,
  is_empty_iff p v,
  ap (λ (bs : List ℕ). length bs) e,
  length-queue_from p.bytes p.nread (count p),
)

-- `piperead`, from its loop on the empty pipe on.
pub piperead_return_lem :
    (killed : Bool) (n : ℕ) (p : Pipe)
    → IsPipe p
    → ReadSpec killed n p (piperead_return killed n p).0 (piperead_return killed n p).1
unfolding piperead_return
piperead_return_lem killed n p v = elim (Bool-cases (is_empty p && p.writeopen)) [
  | inl nothing ↦
      let empty : queue p ≡ [] =
        ap (queue_from p.bytes p.nread) {y = 0} (ground (arith, is_empty_iff p v, nothing)) in
      let open' : p.writeopen ≡ true = ground (arith, nothing) in
      elim (Bool-cases killed) [
        | inl k ↦ rw (nothing, k) (empty, open', refl, refl)
        | inr k ↦ rw (nothing, k) (empty, open', refl, refl)
      ]
  | inr something ↦
      let r = read_loop_lem n p v in
      rw something (
        λ e. ground (arith, queue-empty p v e, something),
        r.bytes,
        r.rest,
        kept r.valid,
        r.writer,
        ap (λ cs. releases ∷ wakes_writer ∷ cs) r.calls,
      )
]

-- `piperead` of `n` bytes returns the first `n` bytes of the queue, or all if they are fewer, and
-- leaves the rest, if there is a byte or the writing end is closed; otherwise it returns -1 if the
-- caller is killed, and else sleeps. On a return the lock is given back, and the writer is woken
-- first unless the result is -1.
pub piperead_lem :
    (killed : Bool) (n : ℕ) (p : Pipe)
    → IsPipe p
    → ReadSpec killed n (called acquires p) (piperead killed n p).0 (piperead killed n p).1
unfolding piperead
piperead_lem killed n p v = piperead_return_lem killed n (called acquires p) (kept v)
