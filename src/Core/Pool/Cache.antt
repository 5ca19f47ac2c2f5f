-- ===== src/Core/Pool/Cache.antt =====
-- Flushing, refilling and spilling a thread's cache neither loses a slot nor doubles one.
use thunder_bolt_ht.Base.{
  ℕ, zero, suc, ◌+◌, ◌-◌, ◌%◌, ◌<◌, ◌≡◌, refl, sym, ap, ◌∙◌, ◌==◌, if◌then◌else◌, List, [], ◌∷◌,
  ◌++◌, Option, none, some, update_ne, update_self, arith, count, count-append, count-nil,
  count-cons, count-take-drop, Bool-cases, inl, inr, ==_iff, List-cases, ℕ_discrete, ne→==, ==_self,
  none-some, length, drop,
}
use thunder_bolt_ht.Core.Pool.{
  TaskPool, World, ThreadCache, shard_count, preferred_shard, with_shard, set_pool, set_cache,
  empty_cache, flush, drain_cache, rebind_cache, bind_cache, move_slots, miss, refill_cache,
  spill_cache,
}
use thunder_bolt_ht.Core.Pool.Free.{
  in_shards, in_pool, in_cache, in_caches, free_count, in_shards-with_shard, in_caches-set_cache,
  IsLive,
}

pub preferred_shard_lt : (thread : ℕ) → preferred_shard thread < shard_count
preferred_shard_lt thread = omega arith

count-move_slots :
    (i room : ℕ) (free_list cached : List ℕ)
    → let r = move_slots room free_list cached in
      count i r.0 + count i r.1 ≡ count i free_list + count i cached
unfolding move_slots
count-move_slots i room [] cached = omega (arith, count-nil i)
count-move_slots i zero (x ∷ free_list) cached = refl
count-move_slots i (suc room) (x ∷ free_list) cached = omega (
  arith,
  count-move_slots i room free_list (x ∷ cached),
  count-cons i x cached,
  count-cons i x free_list,
)

in_cache-nil : (id q i : ℕ) → in_cache q i (record { id = id; slots = [] }) ≡ 0
in_cache-nil id q i = ground (arith, count-nil i)

module _ {ℓ} {F : Type ℓ} where
  pub in_shards-miss :
      (rounds : ℕ) (pool : TaskPool F) (i : ℕ) → in_shards (miss rounds pool) i ≡ in_shards pool i
  unfolding in_shards miss
  in_shards-miss rounds pool i = ground arith

  pub in_shards-refill_cache :
      (rounds : ℕ) (pool : TaskPool F) (home : ℕ) (cached : List ℕ) (i : ℕ)
      → let r = refill_cache rounds pool home cached in
        in_shards r.0 i + count i r.1 ≡ in_shards pool i + count i cached
  unfolding refill_cache
  in_shards-refill_cache zero pool home cached i = refl
  in_shards-refill_cache (suc rounds) pool home cached i =
      let s : ℕ = (home + (shard_count - suc rounds)) % shard_count in
      elim (List-cases (pool.shards s)) [
        | inl empty ↦
            rw (empty, refill_cache)
              (in_shards-refill_cache rounds (miss (suc rounds) pool) home cached i
                ∙ ap (λ k. k + count i cached) (in_shards-miss (suc rounds) pool i))
        | inr (x, free_list, e) ↦
            let moved : List ℕ × List ℕ =
              move_slots (pool.cache_batch - length cached) (x ∷ free_list) cached in
            rw (e, refill_cache)
              (omega (
                arith,
                in_shards-with_shard pool s moved.0 i (omega arith),
                ap (count i) e,
                count-move_slots i (pool.cache_batch - length cached) (x ∷ free_list) cached,
              ))
      ]

  pub in_shards-spill_cache :
      (pool : TaskPool F) (home : ℕ) (cached : List ℕ) (i : ℕ)
      → home < shard_count
      → let r = spill_cache pool home cached in
        in_shards r.0 i + count i r.1 ≡ in_shards pool i + count i cached
  unfolding spill_cache
  in_shards-spill_cache pool home cached i lt =
      let kept : ℕ = length cached - pool.cache_batch in
      omega (
        arith,
        in_shards-with_shard pool home (drop kept cached ++ pool.shards home) i lt,
        count-append i (drop kept cached) (pool.shards home),
        count-take-drop i kept cached,
      )

  pub set_pool-IsLive :
      (w : World F) (p q : ℕ) (pool : TaskPool F) → IsLive w q → IsLive (set_pool w p pool) q
  set_pool-IsLive w p q pool (old, e) = elim (ℕ_discrete p q) [
    | yes same ↦ (pool, rw (← same) (update_self w.pools p (some pool)))
    | no other ↦ (old, update_ne w.pools p q (some pool) other ∙ e)
  ]

  flush-in_pool :
      (w : World F) (thread p q i : ℕ) (cached : List ℕ) (registered : Option (TaskPool F))
      → w.pools p ≡ registered
      → IsLive w q
      → in_pool ((flush w thread p cached registered).pools q) i
        ≡ in_pool (w.pools q) i + (if p == q then count i cached else 0)
  unfolding flush
  flush-in_pool w thread p q i [] registered e live = ground (arith, count-nil i)
  flush-in_pool w thread p q i (x ∷ cached) none e (pool, is_live) = elim (ℕ_discrete p q) [
    | yes same ↦ absurd (none-some (sym e ∙ ap w.pools same ∙ is_live))
    | no other ↦ rw (ne→== p q other) (omega arith)
  ]
  flush-in_pool w thread p q i (x ∷ cached) (some pool) e live = elim (ℕ_discrete p q) [
    | yes same ↦
        let home : ℕ = preferred_shard thread in
        rw
          (
            ← same,
            update_self w.pools p (some (with_shard pool home ((x ∷ cached) ++ pool.shards home))),
            e,
            ==_self p,
          )
          (omega (
            arith,
            in_shards-with_shard pool home ((x ∷ cached) ++ pool.shards home) i
                (preferred_shard_lt thread),
            count-append i (x ∷ cached) (pool.shards home),
          ))
    | no other ↦ rw (ne→== p q other) (omega arith)
  ]

  in_caches-flush :
      (n : ℕ) (w : World F) (thread p q i : ℕ) (cached : List ℕ) (registered : Option (TaskPool F))
      (cache : ThreadCache)
      → in_caches n (set_cache (flush w thread p cached registered) thread cache) q i
        ≡ in_caches n (set_cache w thread cache) q i
  unfolding flush in_caches
  in_caches-flush n w thread p q i [] registered cache = refl
  in_caches-flush n w thread p q i (x ∷ cached) none cache = refl
  in_caches-flush n w thread p q i (x ∷ cached) (some pool) cache = refl

  flush-IsLive :
      (w : World F) (thread p q : ℕ) (cached : List ℕ) (registered : Option (TaskPool F))
      → IsLive w q
      → IsLive (flush w thread p cached registered) q
  unfolding flush
  flush-IsLive w thread p q [] registered live = live
  flush-IsLive w thread p q (x ∷ cached) none live = live
  flush-IsLive w thread p q (x ∷ cached) (some pool) live = set_pool-IsLive w p q _ live

  free_count-drain_cache :
      (n : ℕ) (w : World F) (thread q i : ℕ)
      → thread < n
      → IsLive w q
      → free_count n (drain_cache w thread) q i ≡ free_count n w q i
  unfolding free_count drain_cache
  free_count-drain_cache n w thread q i lt live =
      let cache : ThreadCache = w.caches thread in
      omega (
        arith,
        flush-in_pool w thread cache.id q i cache.slots (w.pools cache.id) refl live,
        in_caches-flush n w thread cache.id q i cache.slots (w.pools cache.id) empty_cache,
        in_caches-set_cache n w thread empty_cache q i lt,
        in_cache-nil 0 q i,
      )

  free_count-rebind_cache :
      (n : ℕ) (w : World F) (thread id q i : ℕ)
      → thread < n
      → IsLive w q
      → free_count n (rebind_cache w thread id) q i ≡ free_count n w q i
  unfolding free_count rebind_cache drain_cache
  free_count-rebind_cache n w thread id q i lt live =
      let d : World F = drain_cache w thread in
      omega (
        arith,
        free_count-drain_cache n w thread q i lt live,
        in_caches-set_cache n d thread (record { id = id; slots = [] }) q i lt,
        ap (in_cache q i) (
            update_self
              (flush w thread (w.caches thread).id (w.caches thread).slots
                (w.pools (w.caches thread).id)).caches
              thread empty_cache),
        in_cache-nil 0 q i,
        in_cache-nil id q i,
      )

  -- A thread that turns to another pool hands back what it holds of the last one.
  pub free_count-bind_cache :
      (n : ℕ) (w : World F) (thread id q i : ℕ)
      → thread < n
      → IsLive w q
      → free_count n (bind_cache w thread id) q i ≡ free_count n w q i
  unfolding bind_cache
  free_count-bind_cache n w thread id q i lt live =
      ground (arith, free_count-rebind_cache n w thread id q i)

  pub bind_cache-IsLive :
      (w : World F) (thread id q : ℕ) → IsLive w q → IsLive (bind_cache w thread id) q
  unfolding bind_cache rebind_cache drain_cache
  bind_cache-IsLive w thread id q live = elim (Bool-cases ((w.caches thread).id == id)) [
    | inl e ↦ rw e live
    | inr e ↦ rw e (
        flush-IsLive w thread (w.caches thread).id q (w.caches thread).slots
          (w.pools (w.caches thread).id) live)
  ]

  -- The cache is bound to the pool afterwards.
  pub bind_cache-id :
      (w : World F) (thread id : ℕ) → ((bind_cache w thread id).caches thread).id ≡ id
  unfolding bind_cache rebind_cache
  bind_cache-id w thread id = elim (Bool-cases ((w.caches thread).id == id)) [
    | inl e ↦ rw e ((==_iff (w.caches thread).id id).0 e)
    | inr e ↦ rw e (
        ap (λ (c : ThreadCache). c.id)
          (update_self (drain_cache w thread).caches thread (record { id = id; slots = [] })))
  ]
