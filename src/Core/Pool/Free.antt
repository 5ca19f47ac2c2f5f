-- ===== src/Core/Pool/Free.antt =====
-- How often a slot stands in the free lists of a pool: its shards and the threads' caches.
use thunder_bolt_ht.Base.{
  ℕ, ◌+◌, ◌<◌, ◌≡◌, ◌≢◌, refl, sym, ap, ◌==◌, if◌then◌else◌, List, Option, none, some, update,
  update_ne, update_self, arith, sum_over, sum_over-change, count,
}
use thunder_bolt_ht.Core.Pool.{
  TaskPool, World, ThreadCache, shard_count, with_shard, set_pool, set_cache,
}

abbrev pub in_cache : ℕ → ℕ → ThreadCache → ℕ
in_cache id i cache = if cache.id == id then count i cache.slots else 0

pub in_cache_self :
    (id i : ℕ) (cache : ThreadCache) → cache.id ≡ id → in_cache id i cache ≡ count i cache.slots
in_cache_self id i cache h = ground arith

pub in_cache_ne : (id i : ℕ) (cache : ThreadCache) → cache.id ≢ id → in_cache id i cache ≡ 0
in_cache_ne id i cache h = ground arith

module _ {ℓ} {F : Type ℓ} where
  unfoldable pub in_shards : TaskPool F → ℕ → ℕ
  in_shards pool i = sum_over shard_count (λ s. count i (pool.shards s))

  abbrev pub in_pool : Option (TaskPool F) → ℕ → ℕ
  in_pool none i = 0
  in_pool (some pool) i = in_shards pool i

  unfoldable pub in_caches : ℕ → World F → ℕ → ℕ → ℕ
  in_caches n w id i = sum_over n (λ t. in_cache id i (w.caches t))

  -- With `n` threads.
  unfoldable pub free_count : ℕ → World F → ℕ → ℕ → ℕ
  free_count n w id i = in_pool (w.pools id) i + in_caches n w id i

  pub in_shards-with_shard :
      (pool : TaskPool F) (s : ℕ) (xs : List ℕ) (i : ℕ)
      → s < shard_count
      → in_shards (with_shard pool s xs) i + count i (pool.shards s) ≡ in_shards pool i + count i xs
  unfolding in_shards
  in_shards-with_shard pool s xs i lt = omega (
    arith,
    sum_over-change shard_count (λ j. count i (update pool.shards s xs j))
        (λ j. count i (pool.shards j)) s lt
        (λ j ne. ap (count i) (update_ne pool.shards s j xs (λ e. ne (sym e)))),
    ap (count i) (update_self pool.shards s xs),
  )

  pub in_caches-set_cache :
      (n : ℕ) (w : World F) (thread : ℕ) (cache : ThreadCache) (id i : ℕ)
      → thread < n
      → in_caches n (set_cache w thread cache) id i + in_cache id i (w.caches thread)
        ≡ in_caches n w id i + in_cache id i cache
  unfolding in_caches
  in_caches-set_cache n w thread cache id i lt = omega (
    arith,
    sum_over-change n (λ t. in_cache id i (update w.caches thread cache t))
        (λ t. in_cache id i (w.caches t)) thread lt
        (λ j ne. ap (in_cache id i) (update_ne w.caches thread j cache (λ e. ne (sym e)))),
    ap (in_cache id i) (update_self w.caches thread cache),
  )

  -- The caches do not see which pools there are.
  pub in_caches-set_pool :
      (n : ℕ) (w : World F) (p : ℕ) (pool : TaskPool F) (id i : ℕ)
      → in_caches n (set_pool w p pool) id i ≡ in_caches n w id i
  unfolding in_caches
  in_caches-set_pool n w p pool id i = refl

  abbrev pub IsLive : World F → ℕ → Type ℓ
  IsLive w id = (pool : TaskPool F) × (w.pools id ≡ some pool)
