-- ===== src/Core/Pool/Handles.antt =====
-- TaskPool.cpp: acquire, reserve, release, get and live_count. The debug assertions are not modelled: past
-- one the code goes on as here. A body is moved in, so the caller's is left empty.
pub mod Ownership
pub mod Stale
use thunder_bolt_ht.Base.{
  ℕ, zero, suc, ◌+◌, ◌-◌, ◌*◌, Bool, true, false, ◌&&◌, ◌||◌, not, ◌==◌, ltb, leb, if◌then◌else◌,
  List, [], ◌∷◌, ◌++◌, Option, none, some, update, length, sum_over,
}
use thunder_bolt_ht.Api.Types.{
  u32, TaskState, TaskPriority, TaskDesc, TaskHandle, invalid_handle, valid, is_free,
}
use thunder_bolt_ht.Core.Task.{Task, initial_task, open_successors, reset_successors}
use thunder_bolt_ht.Core.Pool.{
  TaskPool, World, ThreadCache, shard_count, preferred_shard, with_shard, set_pool, set_cache,
  spill_cache, is_cached, bound, take_free_slot,
}

module _ {ℓ} {F : Type ℓ} where
  abbrev pub with_slot : TaskPool F → ℕ → Task F → TaskPool F
  with_slot pool index t = record pool { slots = update pool.slots index t }

  -- `acquire_count_.increment()`
  abbrev pub count_acquire : World F → ℕ → World F
  count_acquire w id = elim (w.pools id) [
    | none ↦ w
    | some pool ↦ set_pool w id (record pool { acquires = pool.acquires + 1 })
  ]

  -- The writes of `acquire` to its slot, up to the store of the state.
  abbrev pub opened_task : Task F → TaskDesc F → Task F
  opened_task t desc = open_successors (record t {
    function = desc.function;
    priority = desc.priority;
    estimated_cost = desc.estimated_cost;
    pending_dependencies = 0;
  })

  unfoldable pub acquired_task : Task F → TaskDesc F → Task F
  acquired_task t desc = record (opened_task t desc) { state = TaskState.created }

  -- The writes of `reserve`: all but the body and the state.
  unfoldable pub reserved_task : Task F → TaskPriority → Task F
  reserved_task t priority =
      open_successors
        (record t { priority = priority; estimated_cost = 0; pending_dependencies = 0 })

  -- The slot that was taken, after `write`, and its handle.
  unfoldable pub issue : World F → ℕ → (Task F → Task F) → Option ℕ → World F × TaskHandle
  issue w id write none = (w, invalid_handle)
  issue w id write (some index) = elim (w.pools id) [
    | none ↦ (w, invalid_handle)
    | some pool ↦
        let t = pool.slots index in
        (
          set_pool w id (with_slot pool index (write t)),
          record { index = index; generation = t.generation },
        )
  ]

  unfoldable pub acquire : World F → ℕ → ℕ → TaskDesc F → World F × TaskHandle
  acquire w id thread desc =
      let r = take_free_slot (count_acquire w id) id thread in
      issue r.0 id (λ t. acquired_task t desc) r.1

  -- The result is null where the handle is invalid.
  unfoldable pub reserve : World F → ℕ → ℕ → TaskPriority → World F × TaskHandle
  reserve w id thread priority =
      let r = take_free_slot (count_acquire w id) id thread in
      issue r.0 id (λ t. reserved_task t priority) r.1

  unfoldable pub publish : Task F → TaskState → Task F
  publish t state = record t { state = state }

  -- The writes of `release` to its slot: the body goes first, and the generation advances before
  -- the successor list is reset.
  abbrev pub retired_task : Task F → Task F
  retired_task t = record t { function = none; generation = u32 (t.generation + 1) }

  unfoldable pub released_task : Task F → Task F
  released_task t = record (reset_successors (retired_task t)) { state = TaskState.free }

  abbrev pub release_slot : TaskPool F → ℕ → TaskPool F
  release_slot pool index = record (with_slot pool index (released_task (pool.slots index))) {
    releases = pool.releases + 1;
  }

  -- `if (cache.count == 2 * cache_batch_) spill_cache(cache);`
  unfoldable pub spilled : TaskPool F → ℕ → List ℕ → TaskPool F × List ℕ
  spilled pool home cached =
      if length cached == 2 * pool.cache_batch then spill_cache pool home cached else (pool, cached)

  -- The slot goes to the thread's cache, or to its shard.
  unfoldable pub give_back : World F → ℕ → ℕ → ℕ → Option (TaskPool F) → World F
  give_back w id thread index none = w
  give_back w id thread index (some pool) =
      let home = preferred_shard thread in
      if pool.cache_batch == 0
      then set_pool w id (with_shard pool home (index ∷ pool.shards home))
      else (let r = spilled pool home (w.caches thread).slots in
          set_cache (set_pool w id r.0) thread (record { id = id; slots = index ∷ r.1 }))

  abbrev pub clear_slot : World F → ℕ → ℕ → World F
  clear_slot w id index = elim (w.pools id) [
    | none ↦ w
    | some pool ↦ set_pool w id (release_slot pool index)
  ]

  unfoldable pub release : World F → ℕ → ℕ → TaskHandle → World F
  release w id thread handle =
      let w' = bound (clear_slot w id handle.index) id thread in
      give_back w' id thread handle.index (w'.pools id)

  unfoldable pub get : TaskPool F → TaskHandle → Option (Task F)
  get pool handle =
      if not (valid handle) || leb pool.capacity handle.index
      then none
      else (let t = pool.slots handle.index in
          if t.generation == handle.generation then some t else none)

  -- With a cache the slots that are not free are counted, without one the lists.
  pub live_count : TaskPool F → ℕ
  live_count pool =
      if pool.cache_batch == 0
      then pool.capacity - sum_over shard_count (λ s. length (pool.shards s))
      else sum_over pool.capacity (λ i. if is_free (pool.slots i).state then 0 else 1)
