-- ===== src/Tests/Standard.antt =====
-- A worker of the standard runtime that blocks, and a thread that enqueues.
use thunder_bolt_ht.Base.{◌+◌, ◌≤◌, ◌≡◌, refl, arith, sum_over}
use thunder_bolt_ht.Api.Types.{TaskHandle, TaskPriority}
use thunder_bolt_ht.Runtime.Standard.{enqueue_ready}
use thunder_bolt_ht.Runtime.Standard.Sleep.{
  StandardState, started, move, waiting, wake_or_block, Steps, done, then_step, enqueues, tests,
  waits,
}
use thunder_bolt_ht.Runtime.Standard.Census.{awake_workers, blocked_workers}
use thunder_bolt_ht.Runtime.Standard.Attended.{Steps-enough_awake}

abbrev one_blocked : StandardState
one_blocked = wake_or_block (move started 0 waiting) 0

abbrev task : TaskHandle
task = record { index = 3; generation = 1 }

abbrev one_queued : StandardState
one_queued = record one_blocked {
  queue = enqueue_ready one_blocked.queue task TaskPriority.normal;
  notifying = one_blocked.notifying + 1;
}

one_queued-Steps : Steps 1 started one_queued
unfolding wake_or_block
one_queued-Steps =
    then_step
      (then_step (then_step (done started) (tests 0 (omega arith) refl))
        (waits 0 (omega arith) refl))
      (enqueues task TaskPriority.normal)

one_queued_blocked : blocked_workers 1 one_queued.phases ≡ 1
unfolding blocked_workers wake_or_block sum_over
one_queued_blocked = refl

one_queued_running : one_queued.running ≡ started.running
unfolding wake_or_block
one_queued_running = refl

Steps-enough_awake_example :
    one_queued.queue.queued_count ≤ one_queued.notifying + awake_workers 1 one_queued.phases
Steps-enough_awake_example =
    Steps-enough_awake 1 one_queued one_queued-Steps one_queued_running
      (omega (arith, one_queued_blocked))
