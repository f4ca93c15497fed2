-- ===== src/Bcache/Release.antt =====
-- `brelse` of src/bio.c: the order of last use.
use waka_b4_research.Base.{
  ℕ, ◌≡◌, refl, sym, ap, ◌∙◌, ◌≢◌, ◌⊎◌, true, none, List, ◌∷◌, ◌++◌, arith, ◌==◌, Bool-cases, inl,
  inr, length-append, NotIn-without, Distinct-without, has-middle, update_self, ok, sub_word,
}
use waka_b4_research.Bcache.{Buf, Cache, with_buf, push_front, unlink, holdingsleep, brelse}
use waka_b4_research.Bcache.Lists.{IsList, push_front-IsList, unlink-IsList}
use waka_b4_research.Bcache.Recency.{IsCache, same_blocks_unique}

-- A buffer when its lock is given back.
abbrev pub left : ℕ → Cache → Buf
left b c = record (c.buf b) { holder = none; refcnt = sub_word (c.buf b).refcnt 1 }

module _ (me b : ℕ) (c : Cache) (ys zs : List ℕ) (v : IsCache c (ys ++ b ∷ zs))
    (mine : holdingsleep me (c.buf b) ≡ true) where
  abbrev left_cache : Cache
  left_cache = with_buf b (left b c) c

  moved : Cache
  moved = push_front b (unlink b left_cache)

  moved-buf : (i : ℕ) → moved.buf i ≡ left_cache.buf i
  unfolding moved push_front unlink
  moved-buf i = refl

  moved-IsList : IsList moved (b ∷ ys ++ zs)
  unfolding moved
  moved-IsList =
      let (distinct, other) = Distinct-without b ys zs v.list.distinct in
      let (no_head, nz) = NotIn-without 0 b ys zs v.list.no_head in
      push_front-IsList b (unlink b left_cache) (ys ++ zs) (λ e. nz (sym e)) other
        (unlink-IsList b left_cache ys zs distinct no_head v.list.links)

  moved-IsCache : IsCache moved (b ∷ ys ++ zs)
  moved-IsCache = record {
    list = moved-IsList;
    size = omega (arith, v.size, length-append {0} ys zs, length-append {0} ys (b ∷ zs));
    unique =
        same_blocks_unique c moved (ys ++ b ∷ zs) (b ∷ ys ++ zs) v
          (λ i. ap (λ (x : Buf). x.dev) (moved-buf i) ∙ ground arith)
          (λ i. ap (λ (x : Buf). x.blockno) (moved-buf i) ∙ ground arith)
          (λ i. has-middle i b ys zs);
  }

  -- On a well formed cache `brelse` of a buffer whose lock the caller holds returns, with the lock
  -- free and one user less; a buffer that is left with no user becomes the most recent of the list,
  -- and the order of the others stays, as does the whole order otherwise.
  pub brelse_lem :
      (c' : Cache) × (brelse me b c ≡ ok c')
      × ((((left b c).refcnt ≡ 0) × IsCache c' (b ∷ ys ++ zs))
          ⊎ (((left b c).refcnt ≢ 0) × IsCache c' (ys ++ b ∷ zs)))
      × (c'.buf b ≡ (left b c))
  unfolding brelse
  brelse_lem = elim (Bool-cases ((left b c).refcnt == 0)) [
    | inl unused ↦ (
      moved,
      rw (mine, unused) (unfold moved in refl),
      inl (ground (arith, unused), moved-IsCache),
      moved-buf b ∙ update_self c.buf b (left b c),
    )
    | inr in_use ↦ (
      left_cache,
      rw (mine, in_use),
      inr (
        ground (arith, in_use),
        record {
          list = record {
            links = v.list.links;
            distinct = v.list.distinct;
            no_head = v.list.no_head;
          };
          size = v.size;
          unique =
              same_blocks_unique c left_cache (ys ++ b ∷ zs) (ys ++ b ∷ zs) v (λ i. ground arith)
                (λ i. ground arith) (λ i. refl);
        },
      ),
      update_self c.buf b (left b c),
    )
  ]
