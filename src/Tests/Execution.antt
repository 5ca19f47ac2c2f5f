-- ===== src/Tests/Execution.antt =====
-- A runtime with a pool of four slots: a body that cannot be copied, and a task that throws.
use thunder_bolt_ht.Base.{
  ◌⊎◌, ℕ, ◌≡◌, refl, ap, subst, Bool, true, false, arith, List, [], ◌∷◌, none, some, inl, inr,
  count-nil,
}
use thunder_bolt_ht.Api.Types.{TaskDesc, TaskHandle, TaskPriority, TaskState}
use thunder_bolt_ht.Core.Task.{open_successors, opened_list}
use thunder_bolt_ht.Core.Pool.{
  World, empty_cache, new_pool, construct, take_free_slot, take_bound, bound, batch_for, deal,
  take_from_shards,
}
use thunder_bolt_ht.Core.Pool.Fresh.{free_count-construct}
use thunder_bolt_ht.Core.Pool.Handles.{acquire, acquired_task, get, issue, publish}
use thunder_bolt_ht.Core.Pool.Handles.Ownership.{Owned, acquire-Issued}
use thunder_bolt_ht.Runtime.Execution.{
  RuntimeBase, find, write, submit, submit_emplace, execute, is_complete_internal,
}
use thunder_bolt_ht.Runtime.Execution.Done.{execute-is_complete_internal}
use thunder_bolt_ht.Runtime.Execution.Submission.{Queued, RanInline, submit-Queued}
use thunder_bolt_ht.Runtime.Execution.Accounts.{
  write-Holds, Undone, submit_emplace-Undone, Executed, execute-Executed,
}

abbrev no_pools : World ℕ
no_pools = record { pools = λ _. none; caches = λ _. empty_cache; next_pool_id = 1 }

abbrev four_slots : World ℕ
four_slots = (construct no_pools 4 false).0

abbrev desc : TaskDesc ℕ
desc = record { function = some 42; priority = TaskPriority.normal; estimated_cost = 0 }

abbrev runtime_of : World ℕ → ℕ → RuntimeBase ℕ (List TaskHandle)
runtime_of world outstanding = record {
  tasks = record { world = world; queue = [] };
  outstanding = outstanding;
  completed = 0;
  inline_executions = 0;
  uncaught_exceptions = 0;
  dependency_edges = 0;
  dependencies_pre_satisfied = 0;
}

abbrev in_order : List TaskHandle → TaskHandle → TaskPriority → List TaskHandle
in_order queue handle priority = handle ∷ queue

-- Every body throws.
abbrev throws : ℕ → RuntimeBase ℕ (List TaskHandle) → RuntimeBase ℕ (List TaskHandle) × Bool
throws body b = (b, true)

all_free : Owned 1 four_slots 1 4 []
unfolding construct
all_free = record {
  live = (free_count-construct 1 no_pools 4 false 0 (λ t h. omega arith)).0;
  once = λ i.
      omega
        (arith, (free_count-construct 1 no_pools 4 false i (λ t h. omega arith)).1, count-nil i);
}

submit_emplace-Undone_example :
    Undone 1 0 in_order 1 4
      (omega arith)
      (runtime_of four_slots 0)
      (submit_emplace 1 0 in_order throws (runtime_of four_slots 0) none TaskPriority.high)
      []
submit_emplace-Undone_example =
    submit_emplace-Undone 1 0 in_order 1 4 (omega arith) throws (runtime_of four_slots 0)
      TaskPriority.high [] (omega arith) all_free

abbrev one_taken : World ℕ
one_taken = (acquire four_slots 1 0 desc).0

abbrev first : TaskHandle
first = record { index = 0; generation = 0 }

first_handle : (acquire four_slots 1 0 desc).1 ≡ first
unfolding acquire issue take_free_slot take_bound bound construct new_pool batch_for deal
    take_from_shards
first_handle = refl

held : Owned 1 one_taken 1 4 (0 ∷ [])
held = elim (acquire-Issued 1 four_slots 1 0 4 [] desc (omega arith) all_free) [
  | inl (invalid, o) ↦ ground (arith, first_handle, invalid)
  | inr (lt, fresh, o) ↦
      subst (λ k. Owned 1 one_taken 1 4 (k ∷ [])) (ap (λ h. h.index) first_handle) o
]

execute-Executed_example :
    Executed 1 0 in_order 1 4
      (omega arith)
      (throws 42 (record (runtime_of one_taken 1) {
        tasks =
            write 1
              (record { world = one_taken; queue = [] })
              0
              (λ v. publish v TaskState.executing);
      }))
      (execute 1 0 in_order throws (runtime_of one_taken 1) first)
      []
unfolding find write get acquire issue acquired_task take_free_slot take_bound bound construct
    new_pool batch_for deal take_from_shards publish open_successors opened_list
execute-Executed_example =
    execute-Executed 1 0 in_order 1 4 (omega arith) throws (runtime_of one_taken 1) first _ _ 42 []
      refl refl refl
      (write-Holds 1 0 in_order 1 4 (omega arith) (record { world = one_taken; queue = [] }) 0
        (λ v. publish v TaskState.executing) (0 ∷ []) held)

execute-is_complete_internal_example :
    is_complete_internal 1 (execute 1 0 in_order throws (runtime_of one_taken 1) first) first ≡ true
unfolding find write get acquire issue acquired_task take_free_slot take_bound bound construct
    new_pool batch_for deal take_from_shards publish open_successors opened_list
execute-is_complete_internal_example =
    execute-is_complete_internal 1 0 in_order throws (runtime_of one_taken 1) first _ _ 42 refl refl
      refl

submit-Queued_example :
    (let r = submit 1 0 in_order throws (runtime_of four_slots 0) desc in
      Queued 1 0 in_order 1 4 (omega arith) throws (runtime_of four_slots 0) desc [] r
      ⊎ RanInline 1 0 in_order 1 4 (omega arith) throws (runtime_of four_slots 0) desc [] r)
submit-Queued_example =
    submit-Queued 1 0 in_order 1 4 (omega arith) throws (runtime_of four_slots 0) desc []
      (omega arith) all_free
