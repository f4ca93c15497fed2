-- ===== src/Runqueue/Queue.antt =====
-- What `enqueue` and `dequeue` of src/proc.c do to a well-formed queue, and to the others.
use mathlib.Core.Path.{subst, sym}
use waka_b4_research.Base.{
  ℕ, zero, suc, ◌-◌, ◌<◌, ◌≡◌, ap, ◌≢◌, List, [], ◌∷◌, ◌++◌, map, arith, if◌then◌else◌, length,
  length-append, ok, panic, update, NotIn, Distinct, has, NotIn-append, Distinct-append_one,
}
use waka_b4_research.Runqueue.{Kernel, head, scan, link_last, enqueue, unlink_first}
use waka_b4_research.Base.Links.{Links, Links-update_next, Links-update_prev, Links-snoc}

-- Queue `i` is the list `xs`: linked both ways round its head, with the right length.
pub record IsQueue (k : Kernel) (i : ℕ) (xs : List ℕ) : Type 0 where
  pub links : Links k.next k.prev (head i) xs (head i)
  pub distinct : Distinct (head i ∷ xs)
  pub nonnull : NotIn 0 xs
  pub size : k.size i ≡ length xs

module _ (next prev pid : ℕ → ℕ) (h wanted : ℕ) where
  scan_lem :
      (fuel a : ℕ) (xs : List ℕ)
      → length xs < fuel
      → NotIn h xs
      → Links next prev a xs h
      → scan next pid fuel h wanted (next a)
        ≡ (if has wanted (map pid xs) then panic "enqueue: push same pid" else ok tt)
  unfolding scan
  scan_lem zero a xs f n l = absurd (omega arith)
  scan_lem (suc fuel) a [] f n l = ground arith
  scan_lem (suc fuel) a (x ∷ xs) f n l = ground (arith, scan_lem fuel x xs (omega arith) n.1 l.2)

module _ {k : Kernel} {i : ℕ} {xs : List ℕ} (q : IsQueue k i xs) (p : ℕ) where
  -- On a well formed queue, with more fuel than the queue has processes, `enqueue` returns with the
  -- links and the length written, unless a process of the queue has the pid of the new one: then it
  -- panics.
  pub enqueue_lem :
      (fuel : ℕ)
      → length xs < fuel
      → enqueue fuel i p k ≡ (
          if has (k.pid p) (map k.pid xs)
          then panic "enqueue: push same pid"
          else ok (tt, link_last i p k))
  unfolding enqueue
  enqueue_lem fuel f = ground (
    arith,
    scan_lem k.next k.prev k.pid (head i) (k.pid p) fuel (head i) xs f q.distinct.0 q.links,
  )

  -- The writes of `enqueue` make a well formed queue again, with the new process as its last, if
  -- that process is not null, is not in the queue already and is not its head.
  pub link_last-IsQueue : NotIn p (head i ∷ xs) → p ≢ 0 → IsQueue (link_last i p k) i (xs ++ p ∷ [])
  unfolding link_last
  link_last-IsQueue n nz = record {
    links = Links-snoc k.next k.prev (head i) (head i) xs p q.distinct q.distinct.0 n n.0 q.links;
    distinct = Distinct-append_one (head i ∷ xs) p q.distinct n;
    nonnull = NotIn-append 0 xs (p ∷ []) q.nonnull (ground arith, tt);
    size = ground (arith, q.size, length-append xs (p ∷ []));
  }

-- No process is in both lists, and neither has the other's head.
abbrev pub Apart : List ℕ → List ℕ → Type 0
Apart [] ys = Unit
Apart (x ∷ xs) ys = NotIn x ys × Apart xs ys

prev-NotIn :
    (next prev : ℕ → ℕ) (b a : ℕ) (xs ys : List ℕ)
    → Apart (a ∷ xs) ys
    → Links next prev a xs b
    → NotIn (prev b) ys
prev-NotIn next prev b a [] ys ap l = rw (l.1) (ap.0)
prev-NotIn next prev b a (x ∷ xs) ys ap l = prev-NotIn next prev b x xs ys ap.1 l.2

module _ {k : Kernel} {i j : ℕ} {xs ys : List ℕ} (p : ℕ) where
  -- The writes of `enqueue` to queue `i` leave another well formed queue as it is, if the two share
  -- no process or head and the new process is not in the other.
  pub link_last-frame :
      IsQueue k i xs
      → IsQueue k j ys
      → i ≢ j
      → Apart (head i ∷ xs) (head j ∷ ys)
      → NotIn p (head j ∷ ys)
      → IsQueue (link_last i p k) j ys
  unfolding link_last
  link_last-frame q r ij apart n = record {
    links =
        Links-update_next (update k.next p (head i)) prev' (head j) (head j) ys (k.prev (head i)) p
          (prev-NotIn k.next k.prev (head i) (head i) xs (head j ∷ ys) apart q.links)
          (Links-update_next k.next prev' (head j) (head j) ys p (head i) n (
            Links-update_prev k.next (update k.prev p (k.prev (head i))) (head j) (head j) ys
              (head i) p apart.0.1 apart.0.0
              (Links-update_prev k.next k.prev (head j) (head j) ys p (k.prev (head i)) n.1 n.0
                r.links)));
    distinct = r.distinct;
    nonnull = r.nonnull;
    size = ground (arith, r.size);
  }
    where
      prev' : ℕ → ℕ
      prev' = update (update k.prev p (k.prev (head i))) (head i) p

module _ (next prev : ℕ → ℕ) (h x : ℕ) where
  unlink-Links :
      (xs : List ℕ)
      → Distinct (h ∷ x ∷ xs)
      → Links next prev h (x ∷ xs) h
      → let next' = update next h (next x) in
        Links (update next' x 0) (update (update prev (next' x) h) x 0) h xs h
  unlink-Links [] d l = ground arith
  unlink-Links (y ∷ ys) d l = (
    ground arith,
    ground arith,
    Links-update_next next' (update (update prev (next' x) h) x 0) h y ys x 0 d.1.0 (
        Links-update_next next (update (update prev (next' x) h) x 0) h y ys h (next x) d.0.1 (
          Links-update_prev next (update prev (next' x) h) h y ys x 0 d.1.0.1 (ground arith)
            (Links-update_prev next prev h y ys (next' x) h (rw e d.1.1.0) (ground arith) l.2.2))),
  )
    where
      next' : ℕ → ℕ
      next' = update next h (next x)

      e : next' x ≡ y
      e = ground arith

-- The four writes of `dequeue` and the decrement, on their own.
abbrev pub dequeued : ℕ → Kernel → Kernel
dequeued i k = let k' = unlink_first i k in record k' { size = update k'.size i (k'.size i - 1) }

module _ {k : Kernel} {i x : ℕ} {xs : List ℕ} (q : IsQueue k i (x ∷ xs)) where
  -- The process that `dequeue` returns is the first of the queue.
  pub next-head : k.next (head i) ≡ x
  next-head = q.links.0

  -- The writes of `dequeue` to a well formed queue that is not empty leave a well formed queue
  -- without its first process, both links of which are null.
  pub dequeued-IsQueue :
      IsQueue (dequeued i k) i xs × ((dequeued i k).next x ≡ 0) × ((dequeued i k).prev x ≡ 0)
  unfolding unlink_first
  dequeued-IsQueue = (
    record {
      links = rw next-head (unlink-Links k.next k.prev (head i) x xs q.distinct q.links);
      distinct = (q.distinct.0.1, q.distinct.1.1);
      nonnull = q.nonnull.1;
      size = ground (arith, q.size);
    },
    ground (arith, next-head),
    ground (arith, next-head),
  )

-- The process behind the first, or the head of the queue.
second-NotIn :
    (next prev : ℕ → ℕ) (h x : ℕ) (xs zs : List ℕ)
    → Links next prev x xs h
    → Apart (h ∷ x ∷ xs) zs
    → NotIn (next x) zs
second-NotIn next prev h x [] zs l apart = subst (λ z. NotIn z zs) (sym l.0) apart.0
second-NotIn next prev h x (y ∷ ys) zs l apart = subst (λ z. NotIn z zs) (sym l.0) apart.1.1.0

module _ {k : Kernel} {i j x : ℕ} {xs ys : List ℕ} where
  -- The writes of `dequeue` to queue `i`, which is not empty, leave another well formed queue as it
  -- is, if the two share no process or head.
  pub dequeued-frame :
      IsQueue k i (x ∷ xs)
      → IsQueue k j ys
      → i ≢ j
      → Apart (head i ∷ x ∷ xs) (head j ∷ ys)
      → IsQueue (dequeued i k) j ys
  unfolding unlink_first
  dequeued-frame q r ij apart = record {
    links = rw (next-head q) (
        Links-update_next next' prev'' (head j) (head j) ys x 0 apart.1.0 (
          Links-update_next k.next prev'' (head j) (head j) ys (head i) (k.next x) apart.0 (
            Links-update_prev k.next (update k.prev (next' x) (head i)) (head j) (head j) ys x 0
              apart.1.0.1 apart.1.0.0
              (Links-update_prev k.next k.prev (head j) (head j) ys (next' x) (head i) out.1 out.0
                r.links))));
    distinct = r.distinct;
    nonnull = r.nonnull;
    size = ground (arith, r.size);
  }
    where
      next' : ℕ → ℕ
      next' = update k.next (head i) (k.next x)

      prev'' : ℕ → ℕ
      prev'' = update (update k.prev (next' x) (head i)) x 0

      same : k.next x ≡ next' x
      same = ground arith

      out : NotIn (next' x) (head j ∷ ys)
      out =
          subst (λ z. NotIn z (head j ∷ ys)) same
            (second-NotIn k.next k.prev (head i) x xs (head j ∷ ys) q.links.2 apart)
