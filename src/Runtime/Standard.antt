-- ===== src/Runtime/Standard.antt =====
-- The ready queue of StandardRuntime.cpp: enqueue_ready, pop_locked, and how a worker empties it. The
-- mutex makes a method one step. The count does not reach 2 ^ 32.
pub mod Sequence
pub mod Sleep
pub mod Census
pub mod Attended
use thunder_bolt_ht.Base.{
  ℕ, zero, suc, ◌+◌, ◌-◌, ◌==◌, if◌then◌else◌, false, List, [], ◌∷◌, ◌++◌, Option, none, some,
  update,
}
use thunder_bolt_ht.Api.Types.{
  TaskHandle, TaskPriority, priority_index, priority_count, invalid_handle,
}
use thunder_bolt_ht.Core.Queue.Scan.{scan}

-- `ready_` and `queued_count_`.
pub record ReadyQueue : Type 0 where
  pub ready : ℕ → List TaskHandle
  pub queued_count : ℕ

abbrev pub nothing_ready : ReadyQueue
nothing_ready = record { ready = λ _. []; queued_count = 0 }

unfoldable pub enqueue_ready : ReadyQueue → TaskHandle → TaskPriority → ReadyQueue
enqueue_ready q handle priority =
    let p = priority_index priority in
    record {
      ready = update q.ready p (q.ready p ++ handle ∷ []);
      queued_count = q.queued_count + 1;
    }

-- The body of the loop of `pop_locked` where a queue is not empty.
abbrev pub take_ready :
    ReadyQueue → Option (ℕ × TaskHandle × List TaskHandle) → ReadyQueue × TaskHandle
take_ready q none = (q, invalid_handle)
take_ready q (some (p, handle, behind)) =
    (record { ready = update q.ready p behind; queued_count = q.queued_count - 1 }, handle)

unfoldable pub pop_locked : ReadyQueue → ReadyQueue × TaskHandle
pop_locked q =
    if q.queued_count == 0
    then (q, invalid_handle)
    else take_ready q (scan q.ready false priority_count)

-- The handles that workers take while `queued_count_ > 0`, in `rounds` rounds at most.
unfoldable pub drain : ℕ → ReadyQueue → List TaskHandle
drain zero q = []
drain (suc rounds) q =
    let r = pop_locked q in
    let rest = drain rounds r.0 in if q.queued_count == 0 then [] else r.1 ∷ rest
