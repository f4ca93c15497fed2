-- ===== src/Bcache/Recency.antt =====
-- `bget` and `brelse` of src/bio.c: which buffer is taken, and the order of last use.
use waka_b4_research.Base.{
  ℕ, suc, ◌≡◌, refl, sym, ap, ◌∙◌, ◌≢◌, ◌⊎◌, Bool, true, false, Option, none, some, List, [], ◌∷◌,
  ◌++◌, arith, ◌==◌, Bool-cases, inl, inr, length, update, has, has-middle, update_self, Outcome,
  spins, ok, panic,
}
use waka_b4_research.Bcache.{
  Buf, Cache, nbuf, with_buf, binit, is_block, is_idle, used, recycled, pick, walk, bget_unlocked,
}
use waka_b4_research.Bcache.Lists.{
  first_of, last_of, counted_onto, link_from-IsList, link_from-buf, walk-next, walk-prev, IsList,
}

-- No buffer of the list passes the test.
abbrev pub NoneOf : (ℕ → Bool) → List ℕ → Type 0
NoneOf test [] = Unit
NoneOf test (x ∷ xs) = (test x ≡ false) × NoneOf test xs

-- Buffer `b` of the list passes the test, and none before it, or none behind it.
abbrev pub IsFirstOf : (ℕ → Bool) → List ℕ → ℕ → Type 0
IsFirstOf test xs b =
    (ys : List ℕ) × (zs : List ℕ) × (xs ≡ ys ++ b ∷ zs) × (test b ≡ true) × NoneOf test ys

abbrev pub IsLastOf : (ℕ → Bool) → List ℕ → ℕ → Type 0
IsLastOf test xs b =
    (ys : List ℕ) × (zs : List ℕ) × (xs ≡ ys ++ b ∷ zs) × (test b ≡ true) × NoneOf test zs

module _ (test : ℕ → Bool) where
  first_of_cases :
      (xs : List ℕ)
      → ((first_of test xs ≡ none) × NoneOf test xs)
        ⊎ ((b : ℕ) × (first_of test xs ≡ some b) × IsFirstOf test xs b)
  unfolding first_of
  first_of_cases [] = inl (refl, tt)
  first_of_cases (x ∷ xs) = elim (Bool-cases (test x)) [
    | inl hit ↦ inr (x, rw hit, ([], xs, refl, hit, tt))
    | inr miss ↦ elim (first_of_cases xs) [
      | inl (e, none') ↦ inl (rw (miss, e), (miss, none'))
      | inr (b, e, (ys, zs, at, hit, none')) ↦
          inr (b, rw (miss, e), (x ∷ ys, zs, ap (λ l. x ∷ l) at, hit, (miss, none')))
    ]
  ]

  last_of_cases :
      (xs : List ℕ)
      → ((last_of test xs ≡ none) × NoneOf test xs)
        ⊎ ((b : ℕ) × (last_of test xs ≡ some b) × IsLastOf test xs b)
  unfolding last_of
  last_of_cases [] = inl (refl, tt)
  last_of_cases (x ∷ xs) = elim (last_of_cases xs) [
    | inr (b, e, (ys, zs, at, hit, none')) ↦
        inr (b, rw e, (x ∷ ys, zs, ap (λ l. x ∷ l) at, hit, none'))
    | inl (e, none') ↦ elim (Bool-cases (test x)) [
      | inl hit ↦ inr (x, rw (e, hit), ([], xs, refl, hit, none'))
      | inr miss ↦ inl (rw (e, miss), (miss, none'))
    ]
  ]

  NoneOf-has : (xs : List ℕ) (i : ℕ) → has i xs ≡ true → NoneOf test xs → test i ≡ false
  NoneOf-has [] i h n = cc
  NoneOf-has (x ∷ xs) i h n = elim (Bool-cases (i == x)) [
    | inl e ↦ ground (arith, e, n.0)
    | inr e ↦ NoneOf-has xs i (ground (arith, h, e)) n.1
  ]

-- The list has all the buffers, and no block of a device (they are numbered from 1) is in two.
pub record IsCache (c : Cache) (xs : List ℕ) : Type 0 where
  pub list : IsList c xs
  pub size : length xs ≡ nbuf
  pub unique :
      (i j : ℕ)
      → has i xs ≡ true
      → has j xs ≡ true
      → (c.buf i).dev ≢ 0
      → (c.buf i).dev ≡ (c.buf j).dev
      → (c.buf i).blockno ≡ (c.buf j).blockno
      → i ≡ j

-- `binit` makes a well formed cache of buffers that hold no block of a device yet, whatever the links
-- were: the last buffer of the array is the most recent.
pub binit-IsCache :
    (c : Cache) → ((i : ℕ) → (c.buf i).dev ≡ 0) → IsCache (binit c) (counted_onto nbuf 1 [])
unfolding binit
binit-IsCache c none' = record {
  list = link_from-IsList nbuf 1 start [] (omega arith) tt (record {
    links = (update_self c.next 0 0, update_self c.prev 0 0);
    distinct = tt;
    no_head = tt;
  });
  size = refl;
  unique = λ i j hi hj nz e f.
      absurd (nz (ap (λ (x : Buf). x.dev) (link_from-buf nbuf 1 start i) ∙ none' i));
}
  where
    start : Cache
    start = record c {
      next = update c.next 0 0;
      prev = update c.prev 0 0;
      buf = λ b. record (c.buf b) { holder = none };
    }

module _ (dev blockno : ℕ) (c : Cache) (xs : List ℕ) (v : IsCache c xs) where
  abbrev has_block : ℕ → Bool
  has_block b = is_block dev blockno (c.buf b)

  abbrev idle : ℕ → Bool
  idle b = is_idle (c.buf b)

  bget_searches :
      bget_unlocked dev blockno c ≡ pick dev blockno (first_of has_block xs) (last_of idle xs) c
  unfolding bget_unlocked
  bget_searches =
      ap (λ (o : Option ℕ). pick dev blockno o (walk c.prev idle (suc nbuf) (c.prev 0)) c)
        (walk-next c.next c.prev has_block (suc nbuf) 0 xs (omega (arith, v.size)) v.list.no_head
          v.list.links)
      ∙ ap (λ (o : Option ℕ). pick dev blockno (first_of has_block xs) o c)
          (ap (λ (n : ℕ). walk c.prev idle n (c.prev 0)) {x = suc nbuf} (omega (arith, v.size))
            ∙ walk-prev c.next c.prev idle 0 0 xs v.list.no_head v.list.links)

  -- `bget` up to the buffer's lock: the buffer that has the block gets one more user; if none has
  -- it, the idle buffer that was used least recently is given to the block; if none is idle, it
  -- panics.
  pub bget_lem :
      ((b : ℕ) × IsFirstOf has_block xs b
        × (bget_unlocked dev blockno c ≡ ok (b, with_buf b (used (c.buf b)) c)))
      ⊎ (NoneOf has_block xs
          × ((b : ℕ) × IsLastOf idle xs b
              × (bget_unlocked dev blockno c
                  ≡ ok (b, with_buf b (recycled dev blockno (c.buf b)) c))))
      ⊎ (NoneOf has_block xs
          × NoneOf idle xs
          × (bget_unlocked dev blockno c ≡ panic "bget: no buffers"))
  bget_lem = rw bget_searches (elim (first_of_cases has_block xs) [
    | inr (b, e, f) ↦ inl (b, f, rw e)
    | inl (e, none') ↦ elim (last_of_cases idle xs) [
      | inr (b, e', f) ↦ inr (inl (none', (b, f, rw (e, e'))))
      | inl (e', none'') ↦ inr (inr (none', none'', rw (e, e')))
    ]
  ])

-- A change of the state that leaves the blocks of the buffers alone keeps them unique.
pub same_blocks_unique :
    (c c' : Cache) (xs ys : List ℕ)
    → IsCache c xs
    → ((i : ℕ) → (c'.buf i).dev ≡ (c.buf i).dev)
    → ((i : ℕ) → (c'.buf i).blockno ≡ (c.buf i).blockno)
    → ((i : ℕ) → has i ys ≡ has i xs)
    → (i j : ℕ) → has i ys ≡ true
    → has j ys ≡ true
    → (c'.buf i).dev ≢ 0
    → (c'.buf i).dev ≡ (c'.buf j).dev
    → (c'.buf i).blockno ≡ (c'.buf j).blockno
    → i ≡ j
same_blocks_unique c c' xs ys v devs blocks there i j hi hj nz e f =
    v.unique i j (sym (there i) ∙ hi) (sym (there j) ∙ hj) (λ z. nz (devs i ∙ z))
      (sym (devs i) ∙ e ∙ devs j) (sym (blocks i) ∙ f ∙ blocks j)

pub used-IsCache :
    (b : ℕ) (c : Cache) (xs : List ℕ) → IsCache c xs → IsCache (with_buf b (used (c.buf b)) c) xs
used-IsCache b c xs v = record {
  list = record { links = v.list.links; distinct = v.list.distinct; no_head = v.list.no_head };
  size = v.size;
  unique =
      same_blocks_unique c (with_buf b (used (c.buf b)) c) xs xs v (λ i. ground arith)
        (λ i. ground arith) (λ i. refl);
}

module _ (dev blockno b : ℕ) (c : Cache) (xs : List ℕ) (v : IsCache c xs)
    (none' : NoneOf (has_block dev blockno c xs v) xs) where
  abbrev recycled_cache : Cache
  recycled_cache = with_buf b (recycled dev blockno (c.buf b)) c

  no_other : (i : ℕ) → has i xs ≡ true → (c.buf i).dev ≡ dev → (c.buf i).blockno ≡ blockno → ⊥
  no_other i h e f = ground (arith, NoneOf-has (has_block dev blockno c xs v) xs i h none', e, f)

  recycled_unique :
      (i j : ℕ)
      → has i xs ≡ true
      → has j xs ≡ true
      → (recycled_cache.buf i).dev ≢ 0
      → (recycled_cache.buf i).dev ≡ (recycled_cache.buf j).dev
      → (recycled_cache.buf i).blockno ≡ (recycled_cache.buf j).blockno
      → i ≡ j
  recycled_unique i j hi hj nz e f =
      ground (arith, v.unique i j hi hj, no_other i hi, no_other j hj)

  pub recycled-IsCache : IsCache recycled_cache xs
  recycled-IsCache = record {
    list = record { links = v.list.links; distinct = v.list.distinct; no_head = v.list.no_head };
    size = v.size;
    unique = recycled_unique;
  }

-- What `bget` keeps, up to the buffer's lock: the cache is well formed after it, and the buffer that
-- it returns is in the list and has the block; it panics only where no buffer is idle.
abbrev pub BgetKeeps : ℕ → ℕ → Cache → List ℕ → Outcome (ℕ × Cache) → Type 0
BgetKeeps dev blockno c xs (ok (b, c')) =
    IsCache c' xs × (has b xs ≡ true) × ((c'.buf b).dev ≡ dev) × ((c'.buf b).blockno ≡ blockno)
BgetKeeps dev blockno c xs (panic m) = NoneOf (λ b. is_idle (c.buf b)) xs
BgetKeeps dev blockno c xs spins = ⊥

pub has_of_split : (b : ℕ) (xs ys zs : List ℕ) → xs ≡ ys ++ b ∷ zs → has b xs ≡ true
has_of_split b xs ys zs e = rw e (rw (← has-middle b b ys zs) (ground arith))

-- On a well formed cache `bget`, up to the buffer's lock, keeps the cache well formed, so no block is
-- in two buffers, and the buffer that it returns is in the list and has the block; it panics only
-- where no buffer is idle.
pub bget-IsCache :
    (dev blockno : ℕ) (c : Cache) (xs : List ℕ)
    → IsCache c xs
    → BgetKeeps dev blockno c xs (bget_unlocked dev blockno c)
bget-IsCache dev blockno c xs v = elim (bget_lem dev blockno c xs v) [
  | inl (b, (ys, zs, at, hit, _), e) ↦
      rw e (
        used-IsCache b c xs v,
        has_of_split b xs ys zs at,
        ground (arith, hit),
        ground (arith, hit),
      )
  | inr (inl (none', (b, (ys, zs, at, hit, _), e))) ↦ rw e (
    recycled-IsCache dev blockno b c xs v none',
    has_of_split b xs ys zs at,
    ground arith,
    ground arith,
  )
  | inr (inr (_, none', e)) ↦ rw e none'
]
