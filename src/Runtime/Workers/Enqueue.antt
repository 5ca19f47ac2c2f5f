-- ===== src/Runtime/Workers/Enqueue.antt =====
-- ThunderboltRuntime.cpp: where a ready task goes.
use thunder_bolt_ht.Base.{
  ℕ, ◌+◌, ◌%◌, ◌<◌, ◌≡◌, ltb, [], ◌∷◌, ◌++◌, Option, some, update, arith, length, Bool-cases,
  Option-cases, inl, inr,
}
use thunder_bolt_ht.Api.Types.{TaskHandle, TaskPriority, priority_index}
use thunder_bolt_ht.Core.Queue.Laws.{priority_index_lt}
use thunder_bolt_ht.Runtime.Workers.{
  WorkerState, Workers, is_static, set_queue, enqueue_static, enqueue_global, enqueue_own,
  enqueue_ready,
}
use thunder_bolt_ht.Runtime.Workers.Tally.{
  one, queued, in_workers-update, in_queues-snoc, in_queues-push,
}

module _ (h : TaskHandle) where
  in_own :
      (s : Workers) (me : ℕ) (x : TaskHandle) (priority : TaskPriority)
      → me < s.worker_count
      → queued h (enqueue_own s me x priority) ≡ queued h s + one h x
  unfolding enqueue_own enqueue_global
  in_own s me x priority lt =
      let w : WorkerState = s.workers me in
      let p : ℕ = priority_index priority in
      elim (Bool-cases (ltb (length (w.queues p)) s.deque_capacity)) [
        | inl room ↦
            let grown : WorkerState = set_queue w p (w.queues p ++ x ∷ []) in
            rw room (
              omega (
                arith,
                in_workers-update h s.worker_count s.workers me grown lt,
                in_queues-snoc h x w.queues p (priority_index_lt priority),
              ))
        | inr full ↦ rw full (omega (arith, in_queues-push h x s.global priority))
      ]

  in_inbox :
      (s : Workers) (x : TaskHandle) (priority : TaskPriority)
      → 0 < s.worker_count
      → queued h (enqueue_static s x priority) ≡ queued h s + one h x
  unfolding enqueue_static
  in_inbox s x priority some_worker =
      let target : ℕ = s.static_cursor % s.worker_count in
      let lt : target < s.worker_count = grind arith in
      let w : WorkerState = s.workers target in
      let p : ℕ = priority_index priority in
      let grown : WorkerState = record w {
        inbox = update w.inbox p (w.inbox p ++ x ∷ []);
        inbox_count = w.inbox_count + 1;
      } in
      omega (
        arith,
        in_workers-update h s.worker_count s.workers target grown lt,
        in_queues-snoc h x w.inbox p (priority_index_lt priority),
      )

  -- `enqueue_ready` adds its handle to the queues of the runtime once, in every mode, from outside
  -- and on a worker, whether or not the worker's deque has room.
  pub enqueue_ready-queued :
      (s : Workers) (own : Option ℕ) (x : TaskHandle) (priority : TaskPriority)
      → 0 < s.worker_count
      → ((me : ℕ) → own ≡ some me → me < s.worker_count)
      → queued h (enqueue_ready s own x priority) ≡ queued h s + one h x
  unfolding enqueue_ready enqueue_global
  enqueue_ready-queued s own x priority some_worker known =
      elim (Bool-cases (is_static s.scheduler)) [
        | inl static ↦ rw static (in_inbox s x priority some_worker)
        | inr stealing ↦ elim (Option-cases own) [
          | inl outside ↦
              rw (stealing, outside) (omega (arith, in_queues-push h x s.global priority))
          | inr (me, e) ↦ rw (stealing, e) (in_own s me x priority (known me e))
        ]
      ]
