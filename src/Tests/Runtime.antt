-- ===== src/Tests/Runtime.antt =====
-- Two waiters, of which the first is woken, and a dependent of one task that completes.
use thunder_bolt_ht.Base.{
  ℕ, ◌+◌, ◌≡◌, refl, sym, true, if◌then◌else◌, ◌==◌, [], ◌∷◌, some, arith, Bool-cases, inl, inr,
  sum_over,
}
use thunder_bolt_ht.Api.Types.{TaskHandle, TaskPriority, TaskState}
use thunder_bolt_ht.Core.Task.{
  Task, initial_task, open_successors, try_add_successor, take_successors, add_handle, opened_list,
  handed_over, inline_count, inline_prefix, closed_list, reset_successors,
}
use thunder_bolt_ht.Core.Pool.Handles.{acquired_task, publish, get}
use thunder_bolt_ht.Runtime.Waiters.{no_waiters, enter_wait, claim_slot, wakes}
use thunder_bolt_ht.Runtime.Waiters.Wake.{Waiting, nobody, enters, Waiting-wakes}
use thunder_bolt_ht.Runtime.Standard.{nothing_ready, drain}
use thunder_bolt_ht.Runtime.Standard.Sequence.{enqueue_each, drain-enqueue_each}
use thunder_bolt_ht.Runtime.Dependencies.{
  Protocol, Submitter, Stage, look_up, attach, notify, hand_over, release_dependent, looks_up,
  registers, drops_guard, enqueues, takes_successors, completes, advances_generation, resets, frees,
  notifies,
}
use thunder_bolt_ht.Runtime.Dependencies.Registered.{true≢false, told, in_slots, in_notes}
use thunder_bolt_ht.Runtime.Dependencies.Slots.{SlotOk}
use thunder_bolt_ht.Runtime.Dependencies.Owed.{owed}
use thunder_bolt_ht.Runtime.Dependencies.Pending.{
  IsStored, Steps, no_step, then_step, Steps-enqueue_once,
}

two_waiting : Waiting (enter_wait (enter_wait no_waiters 5).0 7).0 ((1, 7) ∷ (0, 5) ∷ [])
unfolding enter_wait claim_slot
two_waiting = enters 7 (omega arith) (enters 5 (omega arith) nobody)

Waiting-wakes_example : wakes (enter_wait (enter_wait no_waiters 5).0 7).0 5 ≡ true
Waiting-wakes_example =
    Waiting-wakes (enter_wait (enter_wait no_waiters 5).0 7).0 ((1, 7) ∷ []) [] 0 5 two_waiting

abbrev running_task : Task ℕ
running_task =
    publish
      (acquired_task initial_task
        (record { function = some 42; priority = TaskPriority.normal; estimated_cost = 0 }))
      TaskState.executing

abbrev me : TaskHandle
me = record { index = 0; generation = 0 }

-- Slot 1 holds a task that runs, and the task in slot 0 is to come after it.
abbrev stored : Protocol ℕ
stored = record {
  pool = record {
    capacity = 2;
    cache_batch = 0;
    slots = λ i. if i == 1 then running_task else initial_task;
    shards = λ _. [];
    acquires = 2;
    releases = 0;
    shard_misses = 0;
  };
  stage = λ i. if i == 1 then Stage.live else Stage.opened;
  todo = record { index = 1; generation = 0 } ∷ [];
  submitter = Submitter.visiting;
  notes = λ _. [];
  pending = 2;
  to_enqueue = 0;
  enqueued = 0;
}

stored-SlotOk : (i : ℕ) → SlotOk (stored.stage i) (stored.pool.slots i)
unfolding publish acquired_task open_successors opened_list
stored-SlotOk i = elim (Bool-cases (i == 1)) [
  | inl one ↦
      rw one (record {
        filled = refl;
        quiet = λ q. (refl, refl);
        shut = λ q known. absurd (true≢false q);
      })
  | inr other ↦ rw other (record {
    filled = refl;
    quiet = λ q. (refl, refl);
    shut = λ q known. absurd (true≢false known);
  })
]

stored-IsStored : IsStored 1 me stored
unfolding in_slots in_notes told sum_over publish acquired_task open_successors opened_list
    handed_over inline_count inline_prefix
stored-IsStored = record {
  at_work = refl;
  stored = refl;
  small = omega arith;
  not_enqueued = (refl, refl);
  unknown = (refl, refl);
  slots_ok = stored-SlotOk;
}

record Enqueued : Type 0 where
  last : Protocol ℕ
  steps : Steps 1 me stored last
  told_once : last.enqueued ≡ 1

after_completion : Enqueued
unfolding look_up attach reset_successors closed_list notify hand_over release_dependent get
    try_add_successor take_successors add_handle opened_list open_successors acquired_task publish
    handed_over inline_count inline_prefix
after_completion = record {
  last = _;
  steps =
      then_step
        (then_step
          (then_step
            (then_step
              (then_step
                (then_step
                  (then_step
                    (then_step
                      (then_step
                        (then_step no_step
                          (looks_up (record { index = 1; generation = 0 }) [] refl refl))
                        (registers (record { index = 1; generation = 0 }) refl
                          (λ fresh. absurd (true≢false (sym fresh)))))
                      (drops_guard refl refl))
                    (takes_successors 0 1 (omega arith) (omega arith) refl refl))
                  (completes 1 (omega arith) refl))
                (advances_generation 1 (omega arith) refl))
              (resets 1 (omega arith) refl))
            (frees 1 (omega arith) refl))
          (notifies 0 me [] (omega arith) refl))
        (enqueues 0 refl);
  told_once = refl;
}

Steps-enqueue_once_example :
    after_completion.last.enqueued
    ≡ (if owed 1 me after_completion.last + after_completion.last.to_enqueue == 0 then 1 else 0)
Steps-enqueue_once_example =
    Steps-enqueue_once 1 me stored after_completion.last stored-IsStored after_completion.steps

abbrev task_in : ℕ → TaskHandle
task_in i = record { index = i; generation = 0 }

drain-enqueue_each_example :
    drain 3 (
      enqueue_each nothing_ready (
        (task_in 0, TaskPriority.low)
        ∷ (task_in 1, TaskPriority.critical)
        ∷ (task_in 2, TaskPriority.low)
        ∷ []))
    ≡ task_in 1 ∷ task_in 0 ∷ task_in 2 ∷ []
drain-enqueue_each_example = drain-enqueue_each (
    (task_in 0, TaskPriority.low)
    ∷ (task_in 1, TaskPriority.critical)
    ∷ (task_in 2, TaskPriority.low)
    ∷ [])
