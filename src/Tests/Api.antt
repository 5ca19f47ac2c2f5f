-- ===== src/Tests/Api.antt =====
-- The aging rotation, a parallel loop of two tasks, and a global queue with three handles.
use mathlib.Core.List.{List, [], ◌∷◌}
use thunder_bolt_ht.Base.{ℕ, ◌*◌, ◌≡◌, refl, true, arith, count}
use thunder_bolt_ht.Api.Types.{TaskHandle, TaskPriority}
use thunder_bolt_ht.Api.Scheduling.{
  SchedulerMode, aging_interval, favoured_pops, favoured_pops-aging,
}
use thunder_bolt_ht.Api.ParallelFor.{
  parallel_for, run, claim, effective_grain, batch_count, task_count,
}
use thunder_bolt_ht.Api.ParallelFor.Coverage.{Tiles, parallel_for-Tiles}
use thunder_bolt_ht.Api.ParallelFor.Progress.{parallel_for-finishes}
use thunder_bolt_ht.Core.Queue.{GlobalQueue, empty_queue, push, pop_with_priority}
use thunder_bolt_ht.Core.Queue.Laws.{IsCounted, Popped, push-IsCounted, pop_with_priority-Popped}

favoured_pops-aging_example : favoured_pops SchedulerMode.priority_aging 5 (3 * aging_interval) ≡ 3
favoured_pops-aging_example = favoured_pops-aging 3 5

-- Indices 2 to 11 in chunks of 4, where task 1 makes the second claim and sees the end last.
abbrev claims : List ℕ
claims = 0 ∷ 1 ∷ 0 ∷ 0 ∷ 1 ∷ []

parallel_for-Tiles_example : Tiles 4 2 12 (parallel_for 2 12 4 2 claims).chunks
unfolding parallel_for run claim effective_grain batch_count task_count
parallel_for-Tiles_example = parallel_for-Tiles 2 12 4 2 claims 0 (omega arith) (omega arith) refl

-- Task 1 claims four times among the claims of task 0.
parallel_for-finishes_example :
    (parallel_for 2 12 4 2 (1 ∷ 0 ∷ 1 ∷ 1 ∷ 0 ∷ 1 ∷ [])).finished 1 ≡ true
unfolding effective_grain batch_count task_count count
parallel_for-finishes_example =
    parallel_for-finishes 2 12 4 2 (1 ∷ 0 ∷ 1 ∷ 1 ∷ 0 ∷ 1 ∷ []) 1 (omega arith) (omega arith)
      (omega arith) (omega arith)

abbrev handle_at : ℕ → TaskHandle
handle_at i = record { index = i; generation = 0 }

abbrev three : GlobalQueue
three =
    push (push (push empty_queue (handle_at 4) TaskPriority.low) (handle_at 5) TaskPriority.high)
      (handle_at 6) TaskPriority.low

one_pushed-IsCounted : IsCounted (push empty_queue (handle_at 4) TaskPriority.low)
unfolding empty_queue
one_pushed-IsCounted = push-IsCounted empty_queue (handle_at 4) TaskPriority.low refl

pop_with_priority-Popped_example : Popped three true (pop_with_priority three true)
pop_with_priority-Popped_example = pop_with_priority-Popped three true (
    push-IsCounted _ (handle_at 6) TaskPriority.low
      (push-IsCounted _ (handle_at 5) TaskPriority.high one_pushed-IsCounted))
