-- ===== src/Pipe/Ring.antt =====
-- The bytes in a pipe of src/pipe.c as a queue, and one byte in and out.
use waka_b4_research.Base.{
  ℕ, zero, suc, ◌%◌, ◌^◌, ◌≤◌, ◌<◌, ◌≡◌, refl, ap, ◌∙◌, ◌≢◌, List, [], ◌∷◌, ◌++◌, arith, ◌==◌,
  length, length-set, get_or, set, add_word, sub_word,
}
use waka_b4_research.Pipe.{Pipe, pipe_size, is_full, is_empty, put, front, skip}

-- `n` bytes from counter `r` on.
abbrev pub queue_from : List ℕ → ℕ → ℕ → List ℕ
queue_from bytes r zero = []
queue_from bytes r (suc n) = get_or bytes (r % pipe_size) 0 ∷ queue_from bytes (add_word r 1) n

abbrev pub count : Pipe → ℕ
count p = sub_word p.nwrite p.nread

abbrev pub queue : Pipe → List ℕ
queue p = queue_from p.bytes p.nread (count p)

pub record IsPipe (p : Pipe) : Type 0 where
  pub array : length p.bytes ≡ pipe_size
  pub read_word : p.nread < 2 ^ 32
  pub write_word : p.nwrite < 2 ^ 32
  pub fits : count p ≤ pipe_size

pub length-queue_from : (bytes : List ℕ) (r n : ℕ) → length (queue_from bytes r n) ≡ n
length-queue_from bytes r zero = refl
length-queue_from bytes r (suc n) = ap suc (length-queue_from bytes (add_word r 1) n)

get_or-set_self : (xs : List ℕ) (i v : ℕ) → i < length xs → get_or (set xs i v) i 0 ≡ v
get_or-set_self [] i v h = absurd (omega arith)
get_or-set_self (x ∷ xs) zero v h = refl
get_or-set_self (x ∷ xs) (suc i) v h = get_or-set_self xs i v (omega arith)

get_or-set_ne : (xs : List ℕ) (i j v : ℕ) → i ≢ j → get_or (set xs i v) j 0 ≡ get_or xs j 0
get_or-set_ne [] i j v h = refl
get_or-set_ne (x ∷ xs) zero zero v h = absurd (h refl)
get_or-set_ne (x ∷ xs) zero (suc j) v h = refl
get_or-set_ne (x ∷ xs) (suc i) zero v h = refl
get_or-set_ne (x ∷ xs) (suc i) (suc j) v h = get_or-set_ne xs i j v (λ e. h (ap suc e))

-- A byte behind the queue.
queue_from-put :
    (bytes : List ℕ) (n r w b : ℕ)
    → length bytes ≡ pipe_size
    → n < pipe_size
    → w ≡ add_word r n
    → queue_from (set bytes (w % pipe_size) b) r (suc n) ≡ queue_from bytes r n ++ b ∷ []
queue_from-put bytes zero r w b len lt e =
    let same : w % pipe_size ≡ r % pipe_size = omega arith in
    rw (same, get_or-set_self bytes (r % pipe_size) b (omega arith))
queue_from-put bytes (suc n) r w b len lt e = rw (
  get_or-set_ne bytes (w % pipe_size) (r % pipe_size) b (omega arith),
  queue_from-put bytes n (add_word r 1) w b len (omega arith) (omega arith),
)

module _ (p : Pipe) (v : IsPipe p) where
  pub is_full_iff : is_full p ≡ (count p == pipe_size)
  is_full_iff = ground (arith, v.read_word, v.write_word)

  pub is_empty_iff : is_empty p ≡ (count p == 0)
  is_empty_iff = ground (arith, v.read_word, v.write_word)

  pub put-IsPipe : (b : ℕ) → count p < pipe_size → IsPipe (put b p)
  unfolding put
  put-IsPipe b room = record {
    array = length-set p.bytes (p.nwrite % pipe_size) b ∙ v.array;
    read_word = v.read_word;
    write_word = omega arith;
    fits = omega (arith, v.read_word, v.write_word);
  }

  pub count-put : (b : ℕ) → count p < pipe_size → count (put b p) ≡ suc (count p)
  unfolding put
  count-put b room = omega (arith, v.read_word, v.write_word)

  pub queue-put : (b : ℕ) → count p < pipe_size → queue (put b p) ≡ queue p ++ b ∷ []
  unfolding put
  queue-put b room =
      ap (queue_from (put b p).bytes p.nread) (count-put b room)
      ∙ queue_from-put p.bytes (count p) p.nread p.nwrite b v.array room
          (omega (arith, v.read_word, v.write_word))

  pub skip-IsPipe : 0 < count p → IsPipe (skip p)
  unfolding skip
  skip-IsPipe some_byte = record {
    array = v.array;
    read_word = omega arith;
    write_word = v.write_word;
    fits = omega (arith, v.read_word, v.write_word, v.fits);
  }

  pub queue-skip : 0 < count p → queue p ≡ front p ∷ queue (skip p)
  unfolding skip
  queue-skip some_byte =
      let e : count p ≡ suc (sub_word p.nwrite (add_word p.nread 1)) =
        omega (arith, v.read_word, v.write_word) in
      ap (queue_from p.bytes p.nread) e
