-- ===== src/Core/Queue.antt =====
-- thunderbolt/core/executor/GlobalQueue.hpp: the injection queue, one FIFO for each priority. A
-- method is one critical section of its mutex, so it is one step. `count_` is changed under the
-- mutex only, and does not reach 2 ^ 64.
pub mod Scan
pub mod Laws
use thunder_bolt_ht.Base.{
  ℕ, zero, suc, ◌+◌, ◌-◌, Bool, false, ◌==◌, if◌then◌else◌, Option, none, some, List, [], ◌∷◌, ◌++◌,
  update, ltb,
}
use thunder_bolt_ht.Api.Types.{
  TaskHandle, TaskPriority, priority_index, priority_count, invalid_handle,
}
use Scan.{scan}

pub record GlobalQueue : Type 0 where
  pub queues : ℕ → List TaskHandle
  pub count : ℕ

unfoldable pub empty_queue : GlobalQueue
empty_queue = record { queues = λ _. []; count = 0 }

unfoldable pub push : GlobalQueue → TaskHandle → TaskPriority → GlobalQueue
push q handle priority = record q {
  queues =
      update q.queues (priority_index priority) (q.queues (priority_index priority) ++ handle ∷ []);
  count = q.count + 1;
}

pub record PopResult : Type 0 where
  pub handle : TaskHandle
  pub priority : TaskPriority

-- `PopResult{}`
abbrev pub no_result : PopResult
no_result = record { handle = invalid_handle; priority = TaskPriority.critical }

-- `static_cast<TaskPriority>(p)`, for p below `kPriorityCount`.
abbrev pub priority_at : ℕ → TaskPriority
priority_at zero = TaskPriority.critical
priority_at (suc zero) = TaskPriority.high
priority_at (suc (suc zero)) = TaskPriority.normal
priority_at (suc (suc (suc zero))) = TaskPriority.low
priority_at (suc (suc (suc (suc _)))) = TaskPriority.background

-- The body of the loop where a queue is not empty: `front`, `pop_front`, `fetch_sub`.
unfoldable pub take_front :
    GlobalQueue → Option (ℕ × TaskHandle × List TaskHandle) → GlobalQueue × PopResult
take_front q none = (q, no_result)
take_front q (some (p, handle, rest)) = (
  record q { queues = update q.queues p rest; count = q.count - 1 },
  record { handle = handle; priority = priority_at p },
)

unfoldable pub pop_with_priority : GlobalQueue → Bool → GlobalQueue × PopResult
pop_with_priority q lowest_first =
    if q.count == 0
    then (q, no_result)
    else take_front q (scan q.queues lowest_first priority_count)

unfoldable pub pop : GlobalQueue → Bool → GlobalQueue × TaskHandle
pop q lowest_first = let r = pop_with_priority q lowest_first in (r.0, r.1.handle)

pub size_hint : GlobalQueue → ℕ
size_hint q = q.count
