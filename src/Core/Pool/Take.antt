-- ===== src/Core/Pool/Take.antt =====
-- Taking a free slot: it leaves the free lists of its pool once, and nothing else moves.
use thunder_bolt_ht.Base.{
  ℕ, zero, suc, ◌+◌, ◌-◌, ◌%◌, ◌<◌, ◌≡◌, ◌≢◌, refl, sym, ap, ◌∙◌, subst, true, false, ◌==◌,
  if◌then◌else◌, List, [], ◌∷◌, Option, none, some, update_ne, update_self, arith, count,
  count-cons, Bool-cases, inl, inr, List-cases, ℕ_discrete, ne→==, ==_self,
}
use thunder_bolt_ht.Core.Pool.{
  TaskPool, World, ThreadCache, shard_count, preferred_shard, set_pool, set_cache, miss,
  take_from_shards, refilled, take_cached, take_bound, is_cached, bound, bind_cache, take_free_slot,
}
use thunder_bolt_ht.Core.Pool.Free.{
  in_shards, in_cache_self, in_cache_ne, free_count, in_shards-with_shard, in_caches-set_cache,
  in_caches-set_pool, IsLive,
}
use thunder_bolt_ht.Core.Pool.Cache.{
  in_shards-miss, in_shards-refill_cache, free_count-bind_cache, bind_cache-IsLive, bind_cache-id,
  set_pool-IsLive,
}

-- What was taken, as a count of `i`.
abbrev pub taken : Option ℕ → ℕ → ℕ
taken none i = 0
taken (some index) i = if index == i then 1 else 0

-- What leaves the free lists of pool `q` when pool `id` hands out a slot.
abbrev pub leaves : ℕ → Option ℕ → ℕ → ℕ → ℕ
leaves id r q i = if id == q then taken r i else 0

pub no_back : (id q : ℕ) {m k : ℕ} → m ≡ k + (if id == q then 0 else 0) → m ≡ k
no_back id q h = ground arith

false≢true : false ≢ true
false≢true e = cc

module _ {ℓ} {F : Type ℓ} where
  in_shards-take_from_shards :
      (rounds : ℕ) (pool : TaskPool F) (home i : ℕ)
      → let r = take_from_shards rounds pool home in
        in_shards r.0 i + taken r.1 i ≡ in_shards pool i
  unfolding take_from_shards
  in_shards-take_from_shards zero pool home i = omega arith
  in_shards-take_from_shards (suc rounds) pool home i =
      let s : ℕ = (home + (shard_count - suc rounds)) % shard_count in
      elim (List-cases (pool.shards s)) [
        | inl empty ↦
            rw (empty, take_from_shards)
              (in_shards-take_from_shards rounds (miss (suc rounds) pool) home i
                ∙ in_shards-miss (suc rounds) pool i)
        | inr (index, free_list, e) ↦
            rw (e, take_from_shards)
              (omega (
                arith,
                in_shards-with_shard pool s free_list i (omega arith),
                ap (count i) e,
                count-cons i index free_list,
              ))
      ]

  in_shards-refilled :
      (pool : TaskPool F) (home : ℕ) (cached : List ℕ) (i : ℕ)
      → let r = refilled pool home cached in
        in_shards r.0 i + count i r.1 ≡ in_shards pool i + count i cached
  unfolding refilled
  in_shards-refilled pool home [] i = in_shards-refill_cache shard_count pool home [] i
  in_shards-refilled pool home (x ∷ cached) i = refl

  -- A pool whose shards changed, and the cache of a thread that is bound to it.
  pub free_count-set :
      (n : ℕ) (w : World F) (id thread : ℕ) (pool pool' : TaskPool F) (cached : List ℕ)
      (q i out back : ℕ)
      → thread < n
      → w.pools id ≡ some pool
      → (w.caches thread).id ≡ id
      → in_shards pool' i + count i cached + out
        ≡ in_shards pool i + count i (w.caches thread).slots + back
      → free_count n
            (set_cache (set_pool w id pool') thread (record { id = id; slots = cached }))
            q
            i
          + (if id == q then out else 0)
        ≡ free_count n w q i + (if id == q then back else 0)
  unfolding free_count
  free_count-set n w id thread pool pool' cached q i out back lt e bound_here h =
      let cache : ThreadCache = record { id = id; slots = cached } in
      elim (ℕ_discrete id q) [
        | yes same ↦
            rw (← same, update_self w.pools id (some pool'), e, ==_self id)
              (omega (
                arith,
                in_caches-set_cache n (set_pool w id pool') thread cache id i lt,
                in_caches-set_pool n w id pool' id i,
                in_cache_self id i (w.caches thread) bound_here,
                in_cache_self id i cache refl,
              ))
        | no other ↦
            rw (update_ne w.pools id q (some pool') other, ne→== id q other)
              (omega (
                arith,
                in_caches-set_cache n (set_pool w id pool') thread cache q i lt,
                in_caches-set_pool n w id pool' q i,
                in_cache_ne q i (w.caches thread) (subst (λ k. k ≢ q) (sym bound_here) other),
                in_cache_ne q i cache other,
              ))
      ]

  pub free_count-set_pool :
      (n : ℕ) (w : World F) (id : ℕ) (pool pool' : TaskPool F) (q i out back : ℕ)
      → w.pools id ≡ some pool
      → in_shards pool' i + out ≡ in_shards pool i + back
      → free_count n (set_pool w id pool') q i + (if id == q then out else 0)
        ≡ free_count n w q i + (if id == q then back else 0)
  unfolding free_count
  free_count-set_pool n w id pool pool' q i out back e h = elim (ℕ_discrete id q) [
    | yes same ↦
        rw (← same, update_self w.pools id (some pool'), e, ==_self id)
          (omega (arith, in_caches-set_pool n w id pool' id i))
    | no other ↦
        rw (update_ne w.pools id q (some pool') other, ne→== id q other)
          (omega (arith, in_caches-set_pool n w id pool' q i))
  ]

  free_count-take_cached :
      (n : ℕ) (w : World F) (id thread : ℕ) (pool pool' : TaskPool F) (cached : List ℕ) (q i : ℕ)
      → thread < n
      → w.pools id ≡ some pool
      → (w.caches thread).id ≡ id
      → in_shards pool' i + count i cached ≡ in_shards pool i + count i (w.caches thread).slots
      → let r = take_cached (set_pool w id pool') id thread cached in
        free_count n r.0 q i + leaves id r.1 q i ≡ free_count n w q i
  unfolding take_cached
  free_count-take_cached n w id thread pool pool' [] q i lt e b h =
      no_back id q (free_count-set n w id thread pool pool' [] q i 0 0 lt e b (omega arith))
  free_count-take_cached n w id thread pool pool' (index ∷ cached) q i lt e b h =
      let one : ℕ = if index == i then 1 else 0 in
      no_back id q (
        free_count-set n w id thread pool pool' cached q i one 0 lt e b
          (omega (arith, count-cons i index cached)))

  free_count-take_bound :
      (n : ℕ) (w : World F) (id thread q i : ℕ) (o : Option (TaskPool F))
      → thread < n
      → w.pools id ≡ o
      → (is_cached o ≡ true → (w.caches thread).id ≡ id)
      → let r = take_bound w id thread o in
        free_count n r.0 q i + leaves id r.1 q i ≡ free_count n w q i
  unfolding take_bound
  free_count-take_bound n w id thread q i none lt e b = ground arith
  free_count-take_bound n w id thread q i (some pool) lt e b =
      let home : ℕ = preferred_shard thread in
      elim (Bool-cases (pool.cache_batch == 0)) [
        | inl off ↦ rw off (
            no_back id q (
              free_count-set_pool n w id pool (take_from_shards shard_count pool home).0 q i
                (taken (take_from_shards shard_count pool home).1 i) 0 e
                (omega (arith, in_shards-take_from_shards shard_count pool home i))))
        | inr cached ↦
            let r : TaskPool F × List ℕ = refilled pool home (w.caches thread).slots in
            rw cached (
              free_count-take_cached n w id thread pool r.0 r.1 q i lt e (b (rw cached))
                (in_shards-refilled pool home (w.caches thread).slots i))
      ]

  -- Taking a slot of the live pool `id`, in a world of `n` threads: of the free lists of every live
  -- pool, the slot taken leaves those of `id`, once, and nothing else leaves or joins any, whatever
  -- the caches held and whichever pool they were bound to.
  pub free_count-take_free_slot :
      (n : ℕ) (w : World F) (id thread q i : ℕ)
      → thread < n
      → IsLive w q
      → let r = take_free_slot w id thread in
        free_count n r.0 q i + leaves id r.1 q i ≡ free_count n w q i
  unfolding take_free_slot bound
  free_count-take_free_slot n w id thread q i lt live = elim (Bool-cases (is_cached (w.pools id))) [
    | inl cached ↦ rw cached (
        free_count-take_bound n (bind_cache w thread id) id thread q i
          ((bind_cache w thread id).pools id) lt refl (λ _. bind_cache-id w thread id)
        ∙ free_count-bind_cache n w thread id q i lt live)
    | inr off ↦ rw off (
        free_count-take_bound n w id thread q i (w.pools id) lt refl
          (λ on. absurd (false≢true (sym off ∙ on))))
  ]

  pub bound-IsLive : (w : World F) (id thread q : ℕ) → IsLive w q → IsLive (bound w id thread) q
  unfolding bound
  bound-IsLive w id thread q live = elim (Bool-cases (is_cached (w.pools id))) [
    | inl e ↦ rw e (bind_cache-IsLive w thread id q live)
    | inr e ↦ rw e live
  ]

  take_cached-IsLive :
      (w : World F) (id thread q : ℕ) (cached : List ℕ)
      → IsLive w q
      → IsLive (take_cached w id thread cached).0 q
  unfolding take_cached
  take_cached-IsLive w id thread q [] live = live
  take_cached-IsLive w id thread q (x ∷ cached) live = live

  take_bound-IsLive :
      (w : World F) (id thread q : ℕ) (o : Option (TaskPool F))
      → IsLive w q
      → IsLive (take_bound w id thread o).0 q
  unfolding take_bound
  take_bound-IsLive w id thread q none live = live
  take_bound-IsLive w id thread q (some pool) live = elim (Bool-cases (pool.cache_batch == 0)) [
    | inl e ↦ rw e (set_pool-IsLive w id q _ live)
    | inr e ↦ rw e (take_cached-IsLive _ id thread q _ (set_pool-IsLive w id q _ live))
  ]

  pub take_free_slot-IsLive :
      (w : World F) (id thread q : ℕ) → IsLive w q → IsLive (take_free_slot w id thread).0 q
  unfolding take_free_slot
  take_free_slot-IsLive w id thread q live =
      take_bound-IsLive (bound w id thread) id thread q _ (bound-IsLive w id thread q live)

  pub free_count-bound :
      (n : ℕ) (w : World F) (id thread q i : ℕ)
      → thread < n
      → IsLive w q
      → free_count n (bound w id thread) q i ≡ free_count n w q i
  unfolding bound
  free_count-bound n w id thread q i lt live = elim (Bool-cases (is_cached (w.pools id))) [
    | inl e ↦ rw e (free_count-bind_cache n w thread id q i lt live)
    | inr e ↦ rw e refl
  ]

  pub bound-id :
      (w : World F) (id thread : ℕ)
      → is_cached ((bound w id thread).pools id) ≡ true
      → ((bound w id thread).caches thread).id ≡ id
  unfolding bound
  bound-id w id thread = elim (Bool-cases (is_cached (w.pools id))) [
    | inl e ↦ rw e (λ _. bind_cache-id w thread id)
    | inr e ↦ rw e (λ on. absurd (false≢true (sym e ∙ on)))
  ]
