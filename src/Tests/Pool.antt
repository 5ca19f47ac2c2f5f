-- ===== src/Tests/Pool.antt =====
-- A pool of 1024 slots with the thread cache on, so batches of 16, and a task slot.
use mathlib.Core.List.{[], ◌∷◌}
use thunder_bolt_ht.Base.{ℕ, ◌≡◌, refl, none, some, true, arith, count-nil, inl, inr, subst, ap}
use thunder_bolt_ht.Api.Types.{TaskDesc, TaskHandle, TaskPriority}
use thunder_bolt_ht.Core.Task.{Task, initial_task, open_successors, take_successors}
use thunder_bolt_ht.Core.Task.Successors.{register, take_successors-register}
use thunder_bolt_ht.Core.Pool.{
  TaskPool, World, empty_cache, new_pool, construct, take_free_slot, take_bound, bound, batch_for,
  deal, bind_cache, rebind_cache, drain_cache, flush, refilled, refill_cache, move_slots,
  take_cached, miss,
}
use thunder_bolt_ht.Core.Pool.Fresh.{free_count-construct}
use thunder_bolt_ht.Core.Pool.Handles.{acquire, release, get, with_slot, issue}
use thunder_bolt_ht.Core.Pool.Handles.Ownership.{Owned, Issued, acquire-Issued, release-Owned}
use thunder_bolt_ht.Core.Pool.Handles.Stale.{
  acquires, releases, slot_after, release_total, get-slot_after,
}

abbrev no_pools : World ℕ
no_pools = record { pools = λ _. none; caches = λ _. empty_cache; next_pool_id = 1 }

abbrev desc : TaskDesc ℕ
desc = record { function = some 42; priority = TaskPriority.normal; estimated_cost = 0 }

abbrev one_pool : World ℕ
one_pool = (construct no_pools 1024 true).0

-- The cache is filled with slots 0, 16, …, 240 of the thread's shard and handed out from its end.
first_handle : (acquire one_pool 1 0 desc).1 ≡ record { index = 240; generation = 0 }
unfolding acquire issue take_free_slot take_bound bound construct new_pool batch_for deal bind_cache
    rebind_cache drain_cache flush refilled refill_cache move_slots take_cached miss
first_handle = refl

all_free : Owned 1 one_pool 1 1024 []
unfolding construct
all_free = record {
  live = (free_count-construct 1 no_pools 1024 true 0 (λ t h. omega arith)).0;
  once = λ i.
      omega
        (arith, (free_count-construct 1 no_pools 1024 true i (λ t h. omega arith)).1, count-nil i);
}

acquire-Issued_example : Issued 1 1 1024 [] (acquire one_pool 1 0 desc)
acquire-Issued_example = acquire-Issued 1 one_pool 1 0 1024 [] desc (omega arith) all_free

held : Owned 1 (acquire one_pool 1 0 desc).0 1 1024 (240 ∷ [])
held = elim acquire-Issued_example [
  | inl (invalid, o) ↦ ground (arith, first_handle, invalid)
  | inr (lt, fresh, o) ↦
      subst (λ k. Owned 1 (acquire one_pool 1 0 desc).0 1 1024 (k ∷ []))
        (ap (λ h. h.index) first_handle) o
]

release-Owned_example :
    Owned 1
      (release (acquire one_pool 1 0 desc).0 1 0 (record { index = 240; generation = 0 }))
      1
      1024
      []
release-Owned_example =
    release-Owned 1 (acquire one_pool 1 0 desc).0 1 0 1024 (record { index = 240; generation = 0 })
      [] (omega arith) held

-- A pool of its own, of which slot 3 was released once.
abbrev some_pool : TaskPool ℕ
some_pool = new_pool 1024 true

get-slot_after_example :
    (let t = slot_after initial_task (releases ∷ acquires desc ∷ []) in
      get (with_slot some_pool 3 t) (record { index = 3; generation = 0 }) ≡ none)
unfolding new_pool release_total
get-slot_after_example =
    get-slot_after some_pool 3 (releases ∷ acquires desc ∷ []) (omega arith) (omega arith)
      (omega arith) (omega arith)

abbrev successor : ℕ → TaskHandle
successor i = record { index = i; generation = 0 }

-- Eight successors, of which two do not fit the inline array.
take_successors-register_example :
    (take_successors {F = ℕ} (
      register (open_successors initial_task) 0 (
        successor 1
        ∷ successor 2
        ∷ successor 3
        ∷ successor 4
        ∷ successor 5
        ∷ successor 6
        ∷ successor 7
        ∷ successor 8
        ∷ []))).1
    ≡ successor 1
      ∷ successor 2
      ∷ successor 3
      ∷ successor 4
      ∷ successor 5
      ∷ successor 6
      ∷ successor 7
      ∷ successor 8
      ∷ []
take_successors-register_example = take_successors-register {F = ℕ} initial_task (
    successor 1
    ∷ successor 2
    ∷ successor 3
    ∷ successor 4
    ∷ successor 5
    ∷ successor 6
    ∷ successor 7
    ∷ successor 8
    ∷ [])

abbrev with_successors : Task ℕ
with_successors = register (open_successors initial_task) 0 (successor 4 ∷ [])
