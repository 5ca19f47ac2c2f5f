-- ===== src/Runtime/Parking.antt =====
-- ThunderboltRuntime.cpp: how workers go to sleep and who wakes them: park_worker, wake_one_worker,
-- the loop of worker_loop around them, any_work_available and the end of the destructor.
--
-- Workers, and threads that submit, interleave. A step is one access to `sleeping_`, `running_`,
-- `sleep_mutex_`, the condition variable or one of the places where tasks wait, which
-- `any_work_available` reads one after the other: the deques and the global queue, or the inboxes.
-- Only the number of the tasks in each place matters. A worker that enqueues a task is one more
-- thread that submits. The condition variable may wake a worker by itself.
pub mod Census
pub mod Invariant
pub mod Submits
pub mod Sleeps
pub mod Wakeups
pub mod Stranded
use thunder_bolt_ht.Base.{ℕ, zero, suc, ◌+◌, ◌-◌, ◌≤◌, ◌<◌, ◌≡◌, ◌≢◌, Bool, true, false, update}

-- Where a worker stands: in its loop; in `park_worker` under the mutex, counted, before it reads
-- `running_`; there, with the places below `k` read; in `sleep_cv_.wait`; woken, but still counted;
-- behind its loop.
pub data Phase : Type 0 where
  awake registered asleep notified exited : Phase
  scanning : ℕ → Phase

-- Where a thread that submits stands: outside; behind its enqueue; behind its look at `sleeping_`;
-- behind the mutex.
pub data Notifier : Type 0 where
  idle published waking notifying : Notifier

-- `running_`, then the destructor between its store and its `notify_all`, and behind it.
pub data Stopper : Type 0 where
  running stopping stopped : Stopper

pub record Sleepers : Type 0 where
  pub workers : ℕ → Phase
  pub notifiers : ℕ → Notifier
  pub stopper : Stopper
  pub sleeping : ℕ
  pub locked : Bool
  pub work : ℕ → ℕ

-- `notify_all`, for one worker.
pub rouse : Phase → Phase
rouse Phase.asleep = Phase.notified
rouse p = p

abbrev pub set_phase : Sleepers → ℕ → Phase → Sleepers
set_phase s i p = record s { workers = update s.workers i p }

abbrev pub set_notifier : Sleepers → ℕ → Notifier → Sleepers
set_notifier s t p = record s { notifiers = update s.notifiers t p }

-- A worker leaves `park_worker`.
abbrev pub unpark : Sleepers → ℕ → Sleepers
unpark s i = record (set_phase s i Phase.awake) { sleeping = s.sleeping - 1; locked = false }

abbrev pub all_awake : Sleepers
all_awake = record {
  workers = λ i. Phase.awake;
  notifiers = λ t. Notifier.idle;
  stopper = Stopper.running;
  sleeping = 0;
  locked = false;
  work = λ j. 0;
}

-- The steps of `n` workers and `m` threads that submit, with `q` places. A worker takes from the
-- places that `may_take` allows it, which in static mode is its own inbox alone.
pub data Step (n m q : ℕ) (may_take : ℕ → ℕ → Bool) (s : Sleepers) : Sleepers → Type 0 where
  publishes :
      (t j : ℕ)
      → t < m
      → j < q
      → s.notifiers t ≡ Notifier.idle
      → Step n m q may_take s
          (record (set_notifier s t Notifier.published) { work = update s.work j (s.work j + 1) })
  sees_nobody :
      (t : ℕ)
      → t < m
      → s.notifiers t ≡ Notifier.published
      → s.sleeping ≡ 0
      → Step n m q may_take s (set_notifier s t Notifier.idle)
  sees_somebody :
      (t : ℕ)
      → t < m
      → s.notifiers t ≡ Notifier.published
      → 0 < s.sleeping
      → Step n m q may_take s (set_notifier s t Notifier.waking)
  passes_mutex :
      (t : ℕ)
      → t < m
      → s.notifiers t ≡ Notifier.waking
      → s.locked ≡ false
      → Step n m q may_take s (set_notifier s t Notifier.notifying)
  -- `notify_one` picks any worker that waits.
  notifies_one :
      (t i : ℕ)
      → t < m
      → i < n
      → s.notifiers t ≡ Notifier.notifying
      → s.workers i ≡ Phase.asleep
      → Step n m q may_take s (set_phase (set_notifier s t Notifier.idle) i Phase.notified)
  notifies_none :
      (t : ℕ)
      → t < m
      → s.notifiers t ≡ Notifier.notifying
      → ((i : ℕ) → i < n → s.workers i ≢ Phase.asleep)
      → Step n m q may_take s (set_notifier s t Notifier.idle)
  takes :
      (i j : ℕ)
      → i < n
      → s.workers i ≡ Phase.awake
      → may_take i j ≡ true
      → 0 < s.work j
      → Step n m q may_take s (record s { work = update s.work j (s.work j - 1) })
  -- `drain_global` hands a task on to a deque.
  moves :
      (i j k : ℕ)
      → i < n
      → s.workers i ≡ Phase.awake
      → may_take i j ≡ true
      → may_take i k ≡ true
      → 0 < s.work j
      → j ≢ k
      → Step n m q may_take s
          (record s { work = update (update s.work j (s.work j - 1)) k (s.work k + 1) })
  registers :
      (i : ℕ)
      → i < n
      → s.workers i ≡ Phase.awake
      → s.locked ≡ false
      → Step n m q may_take s
          (record (set_phase s i Phase.registered) { sleeping = s.sleeping + 1; locked = true })
  reads_running :
      (i : ℕ)
      → i < n
      → s.workers i ≡ Phase.registered
      → s.stopper ≡ Stopper.running
      → Step n m q may_take s (set_phase s i (Phase.scanning 0))
  reads_stopped :
      (i : ℕ)
      → i < n
      → s.workers i ≡ Phase.registered
      → s.stopper ≢ Stopper.running
      → Step n m q may_take s (unpark s i)
  finds_none :
      (i k : ℕ)
      → i < n
      → s.workers i ≡ Phase.scanning k
      → k < q
      → s.work k ≡ 0
      → Step n m q may_take s (set_phase s i (Phase.scanning (suc k)))
  finds_work :
      (i k : ℕ)
      → i < n
      → s.workers i ≡ Phase.scanning k
      → k < q
      → 0 < s.work k
      → Step n m q may_take s (unpark s i)
  waits :
      (i : ℕ)
      → i < n
      → s.workers i ≡ Phase.scanning q
      → Step n m q may_take s (record (set_phase s i Phase.asleep) { locked = false })
  wakes_by_itself :
      (i : ℕ)
      → i < n
      → s.workers i ≡ Phase.asleep
      → Step n m q may_take s (set_phase s i Phase.notified)
  returns :
      (i : ℕ)
      → i < n
      → s.workers i ≡ Phase.notified
      → s.locked ≡ false
      → Step n m q may_take s (unpark s i)
  exits :
      (i : ℕ)
      → i < n
      → s.workers i ≡ Phase.awake
      → s.stopper ≢ Stopper.running
      → Step n m q may_take s (set_phase s i Phase.exited)
  stops :
      s.stopper ≡ Stopper.running → Step n m q may_take s (record s { stopper = Stopper.stopping })
  notifies_all :
      s.stopper ≡ Stopper.stopping
      → s.locked ≡ false
      → Step n m q may_take s
          (record s { workers = λ i. rouse (s.workers i); stopper = Stopper.stopped })

pub data Steps (n m q : ℕ) (may_take : ℕ → ℕ → Bool) (s : Sleepers) : Sleepers → Type 0 where
  no_step : Steps n m q may_take s s
  then_step :
      {t u : Sleepers}
      → Steps n m q may_take s t
      → Step n m q may_take t u
      → Steps n m q may_take s u
