-- ===== src/Core/Pool.antt =====
-- thunderbolt/core/task/TaskPool.hpp and TaskPool.cpp, with thread_slot of ShardedCounter.cpp.
--
-- A world holds the live pools by their identity, which is also the registry that a thread's cache
-- is flushed through, and the cache of each thread. Threads are numbered in the order in which they
-- first ask for their slot. A vector is a list with its back first, and so is the array of a cache.
-- A method's critical sections do not overlap on what they guard, so a method is one step. Which
-- lock was contended (`contended_locks_`) is the operating system's choice and is left out; the
-- other statistics are sums over the shards of their counters, in unbounded numbers.
pub mod Free
pub mod Cache
pub mod Take
pub mod Fresh
pub mod Handles
use thunder_bolt_ht.Base.{
  ℕ, zero, suc, ◌+◌, ◌-◌, ◌*◌, ◌/◌, ◌%◌, ◌≤◌, min, Bool, true, false, ◌&&◌, ◌||◌, not, ◌==◌, ltb,
  leb, if◌then◌else◌, List, [], ◌∷◌, ◌++◌, Option, none, some, update, length, take, drop,
}
use thunder_bolt_ht.Api.Types.{
  u32, TaskState, TaskPriority, TaskDesc, TaskHandle, invalid_handle, valid, is_free,
}
use thunder_bolt_ht.Core.Task.{Task, initial_task, open_successors, reset_successors}

-- `kShardCount`, and `kCounterShards`, which is asserted to be the same.
abbrev pub shard_count : ℕ
shard_count = 16

abbrev pub max_batch : ℕ
max_batch = 64

abbrev pub min_capacity_for_cache : ℕ
min_capacity_for_cache = 1024

-- `thread_slot()` of the thread that asked for it as number `thread`.
abbrev pub preferred_shard : ℕ → ℕ
preferred_shard thread = thread % shard_count

-- `cache.pool` is never read, and `count` is the number of slots.
pub record ThreadCache : Type 0 where
  pub id : ℕ
  pub slots : List ℕ

abbrev pub empty_cache : ThreadCache
empty_cache = record { id = 0; slots = [] }

pub record TaskPool {ℓ} (F : Type ℓ) : Type ℓ where
  pub capacity : ℕ
  pub cache_batch : ℕ
  pub slots : ℕ → Task F
  pub shards : ℕ → List ℕ
  pub acquires : ℕ
  pub releases : ℕ
  pub shard_misses : ℕ

pub record World {ℓ} (F : Type ℓ) : Type ℓ where
  pub pools : ℕ → Option (TaskPool F)
  pub caches : ℕ → ThreadCache
  pub next_pool_id : ℕ

-- The loop of the constructor, from index `n` down: each index goes to shard `index % kShardCount`.
unfoldable pub deal : ℕ → (ℕ → List ℕ) → ℕ → List ℕ
deal zero shards = shards
deal (suc n) shards = deal n (update shards (n % shard_count) (n ∷ shards (n % shard_count)))

-- `cache_batch_` as the constructor sets it.
unfoldable pub batch_for : ℕ → Bool → ℕ
batch_for capacity thread_cache =
    if thread_cache && leb min_capacity_for_cache capacity
    then min max_batch (capacity / (shard_count * 4))
    else 0

-- The loop of `refill_cache` over one shard: `room` is what the cache still takes.
unfoldable pub move_slots : ℕ → List ℕ → List ℕ → List ℕ × List ℕ
move_slots room [] cached = ([], cached)
move_slots zero (x ∷ free_list) cached = (x ∷ free_list, cached)
move_slots (suc room) (x ∷ free_list) cached = move_slots room free_list (x ∷ cached)

module _ {ℓ} {F : Type ℓ} where
  unfoldable pub new_pool : ℕ → Bool → TaskPool F
  new_pool capacity thread_cache = record {
    capacity = capacity;
    cache_batch = batch_for capacity thread_cache;
    slots = λ _. initial_task;
    shards = deal capacity (λ _. []);
    acquires = 0;
    releases = 0;
    shard_misses = 0;
  }

  -- The constructor. Identities are handed out once each, from 1 on.
  unfoldable pub construct : World F → ℕ → Bool → World F × ℕ
  construct w capacity thread_cache = (
    record w {
      pools = update w.pools w.next_pool_id (some (new_pool capacity thread_cache));
      next_pool_id = w.next_pool_id + 1;
    },
    w.next_pool_id,
  )

  -- The destructor.
  unfoldable pub destroy : World F → ℕ → World F
  destroy w id = record w { pools = update w.pools id none }

  abbrev pub with_shard : TaskPool F → ℕ → List ℕ → TaskPool F
  with_shard pool s free_list = record pool { shards = update pool.shards s free_list }

  abbrev pub set_pool : World F → ℕ → TaskPool F → World F
  set_pool w id pool = record w { pools = update w.pools id (some pool) }

  abbrev pub set_cache : World F → ℕ → ThreadCache → World F
  set_cache w thread cache = record w { caches = update w.caches thread cache }

  -- The slots of a flushed cache go to the thread's shard, if there are any and their pool lives.
  unfoldable pub flush : World F → ℕ → ℕ → List ℕ → Option (TaskPool F) → World F
  flush w thread id [] registered = w
  flush w thread id (x ∷ cached) none = w
  flush w thread id (x ∷ cached) (some pool) =
      let home = preferred_shard thread in
      set_pool w id (with_shard pool home ((x ∷ cached) ++ pool.shards home))

  unfoldable pub drain_cache : World F → ℕ → World F
  drain_cache w thread =
      let cache = w.caches thread in
      set_cache (flush w thread cache.id cache.slots (w.pools cache.id)) thread empty_cache

  unfoldable pub rebind_cache : World F → ℕ → ℕ → World F
  rebind_cache w thread id =
      set_cache (drain_cache w thread) thread (record { id = id; slots = [] })

  -- `if (cache.id != id_) rebind_cache(cache);`
  unfoldable pub bind_cache : World F → ℕ → ℕ → World F
  bind_cache w thread id = if (w.caches thread).id == id then w else rebind_cache w thread id

  -- `offset == 0` when all the rounds are left.
  unfoldable pub miss : ℕ → TaskPool F → TaskPool F
  miss rounds pool =
      if rounds == shard_count then record pool { shard_misses = pool.shard_misses + 1 } else pool

  -- The loop of `refill_cache`, with `rounds` rounds to go.
  unfoldable pub refill_cache : ℕ → TaskPool F → ℕ → List ℕ → TaskPool F × List ℕ
  refill_cache zero pool home cached = (pool, cached)
  refill_cache (suc rounds) pool home cached =
      let s = (home + (shard_count - suc rounds)) % shard_count in
      let rest = refill_cache rounds (miss (suc rounds) pool) home cached in
      elim (pool.shards s) [
        | [] ↦ rest
        | x ∷ free_list ↦
            let moved = move_slots (pool.cache_batch - length cached) (x ∷ free_list) cached in
            (with_shard pool s moved.0, moved.1)
      ]

  unfoldable pub spill_cache : TaskPool F → ℕ → List ℕ → TaskPool F × List ℕ
  spill_cache pool home cached =
      let kept = length cached - pool.cache_batch in
      (with_shard pool home (drop kept cached ++ pool.shards home), take kept cached)

  -- The loop of `take_free_slot` without a cache, with `rounds` rounds to go.
  unfoldable pub take_from_shards : ℕ → TaskPool F → ℕ → TaskPool F × Option ℕ
  take_from_shards zero pool home = (pool, none)
  take_from_shards (suc rounds) pool home =
      let s = (home + (shard_count - suc rounds)) % shard_count in
      let rest = take_from_shards rounds (miss (suc rounds) pool) home in
      elim (pool.shards s) [
        | [] ↦ rest
        | index ∷ free_list ↦ (with_shard pool s free_list, some index)
      ]

  -- `if (cache.count == 0) refill_cache(cache);`
  unfoldable pub refilled : TaskPool F → ℕ → List ℕ → TaskPool F × List ℕ
  refilled pool home [] = refill_cache shard_count pool home []
  refilled pool home (x ∷ cached) = (pool, x ∷ cached)

  -- `if (cache.count == 0) return false; index = cache.slots[--cache.count]; return true;`
  unfoldable pub take_cached : World F → ℕ → ℕ → List ℕ → World F × Option ℕ
  take_cached w id thread [] = (set_cache w thread (record { id = id; slots = [] }), none)
  take_cached w id thread (index ∷ cached) =
      (set_cache w thread (record { id = id; slots = cached }), some index)

  -- `take_free_slot`, on the live pool `id` and by a thread whose cache is bound to it if it has one.
  unfoldable pub take_bound : World F → ℕ → ℕ → Option (TaskPool F) → World F × Option ℕ
  take_bound w id thread none = (w, none)
  take_bound w id thread (some pool) =
      let home = preferred_shard thread in
      if pool.cache_batch == 0
      then (let r = take_from_shards shard_count pool home in (set_pool w id r.0, r.1))
      else (let r = refilled pool home (w.caches thread).slots in
          take_cached (set_pool w id r.0) id thread r.1)

  abbrev pub is_cached : Option (TaskPool F) → Bool
  is_cached none = false
  is_cached (some pool) = not (pool.cache_batch == 0)

  -- The binding comes first, since it may flush the cache into another pool.
  unfoldable pub bound : World F → ℕ → ℕ → World F
  bound w id thread = if is_cached (w.pools id) then bind_cache w thread id else w

  unfoldable pub take_free_slot : World F → ℕ → ℕ → World F × Option ℕ
  take_free_slot w id thread = let w' = bound w id thread in take_bound w' id thread (w'.pools id)
