-- ===== src/Core/Pool/Fresh.antt =====
-- The constructor deals every index below the capacity to one shard, once.
use thunder_bolt_ht.Base.{
  ℕ, zero, suc, ◌+◌, ◌%◌, ◌<◌, ◌≡◌, ◌≢◌, sym, ap, Bool, ltb, ◌==◌, if◌then◌else◌, List, [], ◌∷◌,
  some, update, update_ne, update_self, arith, sum_over, sum_over-change, sum_over-zero, count,
  count-nil, count-cons,
}
use thunder_bolt_ht.Core.Pool.{TaskPool, World, shard_count, deal, new_pool, construct}
use thunder_bolt_ht.Core.Pool.Free.{in_shards, in_cache, in_cache_ne, in_caches, free_count, IsLive}

in_deal : (ℕ → List ℕ) → ℕ → ℕ
in_deal shards i = sum_over shard_count (λ s. count i (shards s))

in_deal-put :
    (n : ℕ) (shards : ℕ → List ℕ) (i : ℕ)
    → let s = n % shard_count in
      in_deal (update shards s (n ∷ shards s)) i ≡ in_deal shards i + (if n == i then 1 else 0)
unfolding in_deal
in_deal-put n shards i =
    let s : ℕ = n % shard_count in
    let dealt : ℕ → List ℕ = update shards s (n ∷ shards s) in
    omega (
      arith,
      sum_over-change shard_count (λ j. count i (dealt j)) (λ j. count i (shards j)) s (omega arith)
          (λ j ne. ap (count i) (update_ne shards s j (n ∷ shards s) (λ e. ne (sym e)))),
      ap (count i) (update_self shards s (n ∷ shards s)),
      count-cons i n (shards s),
    )

in_deal-deal :
    (n : ℕ) (shards : ℕ → List ℕ) (i : ℕ)
    → in_deal (deal n shards) i ≡ in_deal shards i + (if ltb i n then 1 else 0)
unfolding deal
in_deal-deal zero shards i = ground arith
in_deal-deal (suc n) shards i = ground (
  arith,
  in_deal-deal n (update shards (n % shard_count) (n ∷ shards (n % shard_count))) i,
  in_deal-put n shards i,
)

in_deal-empty : (i : ℕ) → in_deal (λ _. []) i ≡ 0
unfolding in_deal
in_deal-empty i = sum_over-zero shard_count _ (λ j lt. count-nil i)

module _ {ℓ} {F : Type ℓ} where
  -- A new pool is live, and each index below its capacity stands in its free lists once, no other
  -- at all, if no thread's cache is bound to its identity. Other pools are as they were.
  pub free_count-construct :
      (n : ℕ) (w : World F) (capacity : ℕ) (thread_cache : Bool) (i : ℕ)
      → ((t : ℕ) → t < n → (w.caches t).id ≢ w.next_pool_id)
      → let r = construct w capacity thread_cache in
        IsLive r.0 r.1 × (free_count n r.0 r.1 i ≡ (if ltb i capacity then 1 else 0))
  unfolding construct free_count in_caches in_shards in_deal new_pool
  free_count-construct n w capacity thread_cache i fresh =
      let pool : TaskPool F = new_pool capacity thread_cache in
      let id : ℕ = w.next_pool_id in
      (
        (pool, update_self w.pools id (some pool)),
        rw (update_self w.pools id (some pool)) (
            omega (
              arith,
              sum_over-zero n (λ t. in_cache id i (w.caches t))
                  (λ t lt. in_cache_ne id i (w.caches t) (fresh t lt)),
              in_deal-deal capacity (λ _. []) i,
              in_deal-empty i,
            )),
      )
