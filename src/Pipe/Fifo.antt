-- ===== src/Pipe/Fifo.antt =====
-- The bytes that go through a pipe of src/pipe.c keep their order, whatever the calls are.
use mathlib.Core.Path.{◌≡⟨◌⟩◌, ◌∎}
use mathlib.Core.List.{append-nil, append_assoc}
use waka_b4_research.Base.{
  ℕ, zero, suc, ◌+◌, ◌-◌, ◌≡◌, refl, sym, ap, ◌∙◌, Bool, List, [], ◌∷◌, ◌++◌, arith, length,
  length-append, take, take-append-drop, sub_word,
}
use waka_b4_research.Pipe.{
  Pipe, pipe_size, called, acquires, Received, got, failed, sleeps, write_loop, pipewrite,
  piperead_return, piperead, pipeclose,
}
use waka_b4_research.Pipe.Ring.{queue_from, count, queue, IsPipe, length-queue_from}
use waka_b4_research.Pipe.Transfer.{kept, write_loop_lem, ReadSpec, piperead_return_lem}

-- A call of a process, or what it does when it is woken.
pub data Op : Type 0 where
  writes : Bool → List ℕ → Op
  writes_on : Bool → ℕ → List ℕ → Op
  reads : Bool → ℕ → Op
  reads_on : Bool → ℕ → Op
  closes : Bool → Op

-- The bytes that the counter of a pipe has gone past.
abbrev pub accepted : List ℕ → Pipe → Pipe → List ℕ
accepted bs p p' = take (sub_word p'.nwrite p.nwrite) bs

abbrev pub delivered : Received → List ℕ
delivered (got bs) = bs
delivered failed = []
delivered sleeps = []

-- The bytes that go in, the bytes that come out, and the pipe after a call.
pub record Effect : Type 0 where
  pub sent : List ℕ
  pub received : List ℕ
  pub pipe : Pipe

abbrev pub effect : Op → Pipe → Effect
effect (writes killed bs) p =
    let p' = (pipewrite killed bs p).1 in
    record { sent = accepted bs p p'; received = []; pipe = p' }
effect (writes_on killed n bs) p =
    let p' = (write_loop killed n bs p).1 in
    record { sent = accepted bs p p'; received = []; pipe = p' }
effect (reads killed n) p =
    let (r, p') = piperead killed n p in record { sent = []; received = delivered r; pipe = p' }
effect (reads_on killed n) p =
    let (r, p') = piperead_return killed n p in
    record { sent = []; received = delivered r; pipe = p' }
effect (closes writable) p = record { sent = []; received = []; pipe = pipeclose writable p }

unfoldable pub effects : List Op → Pipe → Effect
effects [] p = record { sent = []; received = []; pipe = p }
effects (o ∷ os) p =
    let e = effect o p in
    let rest = effects os e.pipe in
    record { sent = e.sent ++ rest.sent; received = e.received ++ rest.received; pipe = rest.pipe }

-- What comes out, followed by what is in the pipe, is what was in the pipe, followed by what goes in.
pub record KeepsOrder (p : Pipe) (e : Effect) : Type 0 where
  pub valid : IsPipe e.pipe
  pub order : e.received ++ queue e.pipe ≡ queue p ++ e.sent

take-length-take : (n : ℕ) (xs : List ℕ) → take (length (take n xs)) xs ≡ take n xs
take-length-take zero xs = refl
take-length-take (suc n) [] = refl
take-length-take (suc n) (x ∷ xs) = ap (λ ys. x ∷ ys) (take-length-take n xs)

accepted_lem :
    (bs : List ℕ) (room : ℕ) (p p' : Pipe)
    → IsPipe p
    → IsPipe p'
    → p'.nread ≡ p.nread
    → queue p' ≡ queue p ++ take room bs
    → queue p' ≡ queue p ++ accepted bs p p'
accepted_lem bs room p p' v v' same e =
    e
    ∙ ap (λ (xs : List ℕ). queue p ++ xs)
        (sym (take-length-take room bs) ∙ ap (λ (n : ℕ). take n bs) (sym length-accepted))
  where
    counted : count p' ≡ count p + length (take room bs)
    counted =
        sym (length-queue_from p'.bytes p'.nread (count p'))
        ∙ ap (λ (xs : List ℕ). length xs) e
        ∙ length-append (queue p) (take room bs)
        ∙ ap (λ (n : ℕ). n + length (take room bs)) (length-queue_from p.bytes p.nread (count p))

    length-accepted : sub_word p'.nwrite p.nwrite ≡ length (take room bs)
    length-accepted =
        omega (arith, counted, v.write_word, v'.write_word, v.read_word, v.fits, v'.fits, same)

write-KeepsOrder :
    (killed : Bool) (n : ℕ) (bs : List ℕ) (p : Pipe)
    → IsPipe p
    → KeepsOrder p (effect (writes_on killed n bs) p)
write-KeepsOrder killed n bs p v =
    let w = write_loop_lem killed n bs p v in
    record {
      valid = w.valid;
      order =
          accepted_lem bs (pipe_size - count p) p (write_loop killed n bs p).1 v w.valid w.reader
            w.bytes;
    }

read-KeepsOrder :
    (killed : Bool) (n : ℕ) (p : Pipe) (r : Received) (p' : Pipe)
    → IsPipe p
    → ReadSpec killed n p r p'
    → KeepsOrder p (record { sent = []; received = delivered r; pipe = p' })
read-KeepsOrder killed n p (got bs) p' v s = record {
  valid = s.3;
  order = rw (s.1, s.2, append-nil) (take-append-drop n (queue p));
}
read-KeepsOrder killed n p failed p' v s = record {
  valid = rw s.3 (kept v);
  order = rw (s.3, append-nil);
}
read-KeepsOrder killed n p sleeps p' v s = record {
  valid = rw s.3 (kept v);
  order = rw (s.3, append-nil);
}

-- A call that leaves the bytes and the counters alone.
same-KeepsOrder :
    (p p' : Pipe)
    → p'.bytes ≡ p.bytes
    → p'.nread ≡ p.nread
    → p'.nwrite ≡ p.nwrite
    → IsPipe p
    → KeepsOrder p (record { sent = []; received = []; pipe = p' })
same-KeepsOrder p p' bytes nread nwrite v = record {
  valid = record {
    array = ap (λ (bs : List ℕ). length bs) bytes ∙ v.array;
    read_word = omega (arith, v.read_word);
    write_word = omega (arith, v.write_word);
    fits = omega (arith, v.fits, v.read_word, v.write_word);
  };
  order =
      (λ i. queue_from (bytes i) (nread i) (sub_word (nwrite i) (nread i)))
      ∙ sym (append-nil (queue p));
}

close-KeepsOrder :
    (writable : Bool) (p : Pipe) → IsPipe p → KeepsOrder p (effect (closes writable) p)
unfolding pipeclose
close-KeepsOrder writable p v =
    same-KeepsOrder p (pipeclose writable p) (ground arith) (ground arith) (ground arith) v

effect-KeepsOrder : (o : Op) (p : Pipe) → IsPipe p → KeepsOrder p (effect o p)
unfolding pipewrite piperead
effect-KeepsOrder (writes killed bs) p v =
    let w = write-KeepsOrder killed (length bs) bs (called acquires p) (kept v) in
    record { valid = w.valid; order = w.order }
effect-KeepsOrder (writes_on killed n bs) p v = write-KeepsOrder killed n bs p v
effect-KeepsOrder (reads killed n) p v =
    let r =
      read-KeepsOrder killed n (called acquires p) _ _ (kept v)
        (piperead_return_lem killed n (called acquires p) (kept v)) in
    record { valid = r.valid; order = r.order }
effect-KeepsOrder (reads_on killed n) p v =
    read-KeepsOrder killed n p _ _ v (piperead_return_lem killed n p v)
effect-KeepsOrder (closes writable) p v = close-KeepsOrder writable p v

order_chain :
    (a b c d q q' q'' : List ℕ)
    → a ++ q' ≡ q ++ c
    → b ++ q'' ≡ q' ++ d
    → (a ++ b) ++ q'' ≡ q ++ (c ++ d)
order_chain a b c d q q' q'' h k =
    (a ++ b) ++ q''
    ≡⟨ append_assoc a b q'' ⟩ a ++ (b ++ q'')
    ≡⟨ ap (λ xs. a ++ xs) k ⟩ a ++ (q' ++ d)
    ≡⟨ sym (append_assoc a q' d) ⟩ (a ++ q') ++ d
    ≡⟨ ap (λ xs. xs ++ d) h ⟩ (q ++ c) ++ d
    ≡⟨ append_assoc q c d ⟩ q ++ (c ++ d) ∎

-- After any calls of writers and readers, in any order, sleeping and woken, the bytes that came out
-- followed by those in the pipe are those that were in the pipe followed by those that went in, and
-- the pipe is well formed.
pub effects-KeepsOrder : (os : List Op) (p : Pipe) → IsPipe p → KeepsOrder p (effects os p)
unfolding effects
effects-KeepsOrder [] p v = record { valid = v; order = rw append-nil }
effects-KeepsOrder (o ∷ os) p v =
    let e = effect-KeepsOrder o p v in
    let rest = effects-KeepsOrder os (effect o p).pipe e.valid in
    record {
      valid = rest.valid;
      order =
          order_chain (effect o p).received (effects os (effect o p).pipe).received
            (effect o p).sent (effects os (effect o p).pipe).sent (queue p)
            (queue (effect o p).pipe) (queue (effects os (effect o p).pipe).pipe) e.order
            rest.order;
    }
