-- ===== src/Runtime/Standard/Sleep.antt =====
-- StandardRuntime.cpp: worker_loop, the waits on its condition variable, enqueue_ready and the destructor.
--
-- Workers, threads that enqueue and the destructor interleave. A step is what a thread does under the
-- mutex, a notification, or a read of `running_`. The condition variable wakes any worker that is
-- asleep, and may wake one by itself.
use thunder_bolt_ht.Base.{
  ℕ, ◌+◌, ◌-◌, ◌<◌, ◌≡◌, ◌≢◌, Bool, true, false, ◌==◌, if◌then◌else◌, update,
}
use thunder_bolt_ht.Api.Types.{TaskHandle, TaskPriority, valid}
use thunder_bolt_ht.Runtime.Standard.{ReadyQueue, nothing_ready, enqueue_ready, pop_locked}

-- Where a worker stands: before the test of its loop, in `queue_cv_.wait` before the predicate, blocked
-- there, executing a task, or behind its loop.
pub data WorkerPhase : Type 0 where
  testing waiting blocked left : WorkerPhase
  executing : TaskHandle → WorkerPhase

-- `notifying` counts the threads between the mutex and the `notify_one` of enqueue_ready.
pub record StandardState : Type 0 where
  pub queue : ReadyQueue
  pub phases : ℕ → WorkerPhase
  pub notifying : ℕ
  pub running : Bool
  pub stop_notified : Bool

abbrev pub started : StandardState
started = record {
  queue = nothing_ready;
  phases = λ w. testing;
  notifying = 0;
  running = true;
  stop_notified = false;
}

abbrev pub move : StandardState → ℕ → WorkerPhase → StandardState
move s w phase = record s { phases = update s.phases w phase }

-- What a worker does under the mutex, where its predicate holds.
unfoldable pub take_or_leave : StandardState → ℕ → StandardState
take_or_leave s w =
    if s.queue.queued_count == 0
    then move s w (if s.running then testing else left)
    else let (queue, handle) = pop_locked s.queue in
      move (record s { queue = queue }) w (if valid handle then executing handle else testing)

-- The predicate of the wait, and what follows under the same hold of the mutex.
unfoldable pub wake_or_block : StandardState → ℕ → StandardState
wake_or_block s w =
    if s.queue.queued_count == 0
    then (if s.running then move s w blocked else take_or_leave s w)
    else take_or_leave s w

unfoldable pub wake_phase : WorkerPhase → WorkerPhase
wake_phase blocked = waiting
wake_phase phase = phase

-- A worker that waits inside of a task takes another, as `try_execute_one` does.
abbrev pub try_pop : StandardState → StandardState
try_pop s = record s { queue = (pop_locked s.queue).0 }

-- The steps of `n` workers and of the threads around them.
pub data Step (n : ℕ) (s : StandardState) : StandardState → Type 0 where
  enqueues :
      (handle : TaskHandle) (priority : TaskPriority)
      → Step n s
          (record s { queue = enqueue_ready s.queue handle priority; notifying = s.notifying + 1 })
  notifies :
      (w : ℕ)
      → 0 < s.notifying
      → w < n
      → s.phases w ≡ blocked
      → Step n s (record (move s w waiting) { notifying = s.notifying - 1 })
  notifies_none :
      0 < s.notifying
      → ((w : ℕ) → w < n → s.phases w ≢ blocked)
      → Step n s (record s { notifying = s.notifying - 1 })
  tests :
      (w : ℕ)
      → w < n
      → s.phases w ≡ testing
      → Step n s (move s w (if s.running then waiting else left))
  waits : (w : ℕ) → w < n → s.phases w ≡ waiting → Step n s (wake_or_block s w)
  wakes_by_itself : (w : ℕ) → w < n → s.phases w ≡ blocked → Step n s (move s w waiting)
  executes :
      (w : ℕ) (handle : TaskHandle)
      → w < n
      → s.phases w ≡ executing handle
      → Step n s (move s w testing)
  helps :
      (w : ℕ) (handle : TaskHandle) → w < n → s.phases w ≡ executing handle → Step n s (try_pop s)
  stops : Step n s (record s { running = false })
  notifies_all :
      s.running ≡ false
      → Step n s (record s { phases = λ w. wake_phase (s.phases w); stop_notified = true })

pub data Steps (n : ℕ) : StandardState → StandardState → Type 0 where
  done : (s : StandardState) → Steps n s s
  then_step : {s t u : StandardState} → Steps n s t → Step n t u → Steps n s u
