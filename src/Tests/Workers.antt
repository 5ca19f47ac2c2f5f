-- ===== src/Tests/Workers.antt =====
-- Two workers that get two tasks from outside and one from worker 0, which then looks for work.
use thunder_bolt_ht.Base.{ℕ, ◌+◌, ◌<◌, ◌≡◌, refl, arith, false, none, some}
use thunder_bolt_ht.Api.Types.{TaskHandle, TaskPriority}
use thunder_bolt_ht.Api.Scheduling.{SchedulerMode, aging_pop_favours_lowest}
use thunder_bolt_ht.Core.Queue.{empty_queue, pop, pop_with_priority}
use thunder_bolt_ht.Core.Deque.{round_up}
use thunder_bolt_ht.Runtime.Workers.{
  Workers, new_workers, new_worker, enqueue_ready, enqueue_own, acquire_next, or_else, pop_local,
  pop_from, drain_global, pop_global, steal_from_others, count_steal, steal_round, steal_from,
  xorshift64,
}
use thunder_bolt_ht.Runtime.Workers.Tally.{queued}
use thunder_bolt_ht.Runtime.Workers.Conserve.{Takes}
use thunder_bolt_ht.Runtime.Workers.Enqueue.{enqueue_ready-queued}
use thunder_bolt_ht.Runtime.Workers.Acquire.{acquire_next-Takes}

abbrev task_at : ℕ → TaskHandle
task_at i = record { index = i; generation = 3 }

abbrev one_outside : Workers
one_outside =
    enqueue_ready (new_workers SchedulerMode.work_stealing 8 2) none (task_at 4) TaskPriority.low

abbrev one_inside : Workers
one_inside =
    enqueue_ready (new_workers SchedulerMode.work_stealing 8 2) (some 1) (task_at 5)
      TaskPriority.high

worker_one : (me : ℕ) → some 1 ≡ some me → me < 2
worker_one me e = let same : 1 ≡ me = cc in omega (arith, same)

enqueue_ready-queued_example :
    queued (task_at 5) one_inside
    ≡ queued (task_at 5) (new_workers SchedulerMode.work_stealing 8 2) + 1
unfolding new_workers
enqueue_ready-queued_example =
    enqueue_ready-queued (task_at 5) (new_workers SchedulerMode.work_stealing 8 2) (some 1)
      (task_at 5) TaskPriority.high (omega arith) worker_one

-- Worker 0 finds nothing of its own and steals from worker 1.
steals : (acquire_next (λ victim p. false) one_inside 0).1 ≡ task_at 5
unfolding acquire_next new_workers round_up enqueue_ready enqueue_own new_worker or_else
    aging_pop_favours_lowest pop_local pop_from drain_global pop_global pop pop_with_priority
    empty_queue steal_from_others count_steal steal_round steal_from xorshift64
steals = refl

acquire_next-Takes_example :
    Takes (task_at 5) refl one_inside (acquire_next (λ victim p. false) one_inside 0)
unfolding new_workers round_up enqueue_ready enqueue_own new_worker
acquire_next-Takes_example =
    acquire_next-Takes (task_at 5) refl (λ victim p. false) one_inside 0 (omega arith)
