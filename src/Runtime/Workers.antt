-- ===== src/Runtime/Workers.antt =====
-- ThunderboltRuntime.hpp and ThunderboltRuntime.cpp: where ready tasks wait, and how a worker finds
-- its next one.
--
-- A deque is the list of its items, oldest first, and its `push`, `pop` and `steal` are one step each:
-- what Core.Deque.Linear shows of every interleaving. A steal that loses its race is an `Abort`, which
-- `lost victim priority` decides. The counters do not reach 2 ^ 64.
pub mod Tally
pub mod Conserve
pub mod Enqueue
pub mod Acquire
use Prim.Native.Nat.{bit_xor}
use thunder_bolt_ht.Base.{
  ℕ, zero, suc, ◌+◌, ◌-◌, ◌*◌, ◌/◌, ◌%◌, ◌^◌, ◌≤◌, Bool, true, false, ◌&&◌, ◌||◌, not, ◌==◌, ltb,
  leb, if◌then◌else◌, List, [], ◌∷◌, ◌++◌, Option, none, some, update, length,
}
use thunder_bolt_ht.Api.Types.{
  TaskHandle, TaskPriority, priority_index, priority_count, invalid_handle, valid,
}
use thunder_bolt_ht.Api.Scheduling.{SchedulerMode, aging_pop_favours_lowest}
use thunder_bolt_ht.Core.Deque.{round_up}
use thunder_bolt_ht.Core.Queue.{
  GlobalQueue, empty_queue, push, pop, pop_with_priority, PopResult, size_hint,
}
use thunder_bolt_ht.Core.Queue.Scan.{level, scan}

-- `kGlobalDrainBatch`
abbrev pub global_drain_batch : ℕ
global_drain_batch = 32

pub record WorkerState : Type 0 where
  pub queues : ℕ → List TaskHandle
  pub rng : ℕ
  pub executed : ℕ
  pub steal_attempts : ℕ
  pub steals_succeeded : ℕ
  pub steals_failed : ℕ
  pub global_pops : ℕ
  pub parks : ℕ
  pub pop_index : ℕ
  pub inbox : ℕ → List TaskHandle
  pub inbox_count : ℕ

-- The queues of the runtime, with the fields of its configuration that they depend on.
pub record Workers : Type 0 where
  pub scheduler : SchedulerMode
  pub deque_capacity : ℕ
  pub worker_count : ℕ
  pub workers : ℕ → WorkerState
  pub global : GlobalQueue
  pub local_overflows : ℕ
  pub submissions_local : ℕ
  pub submissions_global : ℕ
  pub static_cursor : ℕ

abbrev pub is_static : SchedulerMode → Bool
is_static SchedulerMode.static = true
is_static _ = false

unfoldable pub xorshift64 : ℕ → ℕ
xorshift64 state =
    let a = bit_xor state (state * 2 ^ 13 % 2 ^ 64) in
    let b = bit_xor a (a / 2 ^ 7) in bit_xor b (b * 2 ^ 17 % 2 ^ 64)

-- The constructor's loop body for worker `i`.
unfoldable pub new_worker : ℕ → WorkerState
new_worker i = record {
  queues = λ _. [];
  rng = 0x9E3779B97F4A7C15 * (i + 1) % 2 ^ 64;
  executed = 0;
  steal_attempts = 0;
  steals_succeeded = 0;
  steals_failed = 0;
  global_pops = 0;
  parks = 0;
  pop_index = 0;
  inbox = λ _. [];
  inbox_count = 0;
}

-- The constructor, for `config.deque_capacity` and the count of workers that it resolves to. A deque
-- rounds its capacity up.
unfoldable pub new_workers : SchedulerMode → ℕ → ℕ → Workers
new_workers scheduler deque_capacity worker_count = record {
  scheduler = scheduler;
  deque_capacity =
      let asked = if deque_capacity == 0 then 1024 else deque_capacity in round_up asked 1 asked;
  worker_count = worker_count;
  workers = new_worker;
  global = empty_queue;
  local_overflows = 0;
  submissions_local = 0;
  submissions_global = 0;
  static_cursor = 0;
}

abbrev pub set_worker : Workers → ℕ → WorkerState → Workers
set_worker s i w = record s { workers = update s.workers i w }

abbrev pub set_queue : WorkerState → ℕ → List TaskHandle → WorkerState
set_queue w p items = record w { queues = update w.queues p items }

-- `AbpDeque::pop`: the newest item, and what is left.
unfoldable pub split_back : TaskHandle → List TaskHandle → List TaskHandle × TaskHandle
split_back x [] = ([], x)
split_back x (y ∷ ys) = let r = split_back y ys in (x ∷ r.0, r.1)

-- `enqueue_ready` in static mode: the inbox of the next worker in turn.
unfoldable pub enqueue_static : Workers → TaskHandle → TaskPriority → Workers
enqueue_static s handle priority =
    let target = s.static_cursor % s.worker_count in
    let worker = s.workers target in
    let p = priority_index priority in
    record (set_worker s target (record worker {
      inbox = update worker.inbox p (worker.inbox p ++ handle ∷ []);
      inbox_count = worker.inbox_count + 1;
    })) {
      static_cursor = (s.static_cursor + 1) % 2 ^ 32;
      submissions_global = s.submissions_global + 1;
    }

unfoldable pub enqueue_global : Workers → TaskHandle → TaskPriority → Workers
enqueue_global s handle priority = record s {
  submissions_global = s.submissions_global + 1;
  global = push s.global handle priority;
}

-- On the runtime's own worker: its deque, unless it is full.
unfoldable pub enqueue_own : Workers → ℕ → TaskHandle → TaskPriority → Workers
enqueue_own s me handle priority =
    let worker = s.workers me in
    let p = priority_index priority in
    if ltb (length (worker.queues p)) s.deque_capacity
    then record (set_worker s me (set_queue worker p (worker.queues p ++ handle ∷ []))) {
      submissions_local = s.submissions_local + 1;
    }
    else enqueue_global (record s { local_overflows = s.local_overflows + 1 }) handle priority

-- `enqueue_ready`, up to its wake-up, on worker `own` if it is one of the runtime's.
unfoldable pub enqueue_ready : Workers → Option ℕ → TaskHandle → TaskPriority → Workers
enqueue_ready s own handle priority =
    if is_static s.scheduler then enqueue_static s handle priority else (elim own [
      | none ↦ enqueue_global s handle priority
      | some me ↦ enqueue_own s me handle priority
    ])

-- The loop of `pop_local`, with `rounds` rounds to go. An option of the configuration skips a deque
-- that looks empty to its owner, where a `pop` would find nothing.
unfoldable pub pop_from : ℕ → Bool → WorkerState → WorkerState × TaskHandle
pop_from zero lowest_first worker = (worker, invalid_handle)
pop_from (suc rounds) lowest_first worker =
    let p = level lowest_first (priority_count - suc rounds) in
    let rest = pop_from rounds lowest_first worker in
    elim (worker.queues p) [
      | [] ↦ rest
      | x ∷ xs ↦
          let r = split_back x xs in
          let left = set_queue worker p r.0 in
          (record left { pop_index = worker.pop_index + 1 }, r.1)
    ]

unfoldable pub pop_local : Workers → ℕ → Workers × TaskHandle
pop_local s me =
    let worker = s.workers me in
    let r =
      pop_from priority_count (aging_pop_favours_lowest s.scheduler worker.pop_index) worker in
    (set_worker s me r.0, r.1)

unfoldable pub take_inbox :
    WorkerState → Option (ℕ × TaskHandle × List TaskHandle) → WorkerState × TaskHandle
take_inbox worker none = (worker, invalid_handle)
take_inbox worker (some (p, handle, rest)) = (
  record worker {
    inbox = update worker.inbox p rest;
    inbox_count = worker.inbox_count - 1;
    pop_index = worker.pop_index + 1;
  },
  handle,
)

unfoldable pub pop_inbox : Workers → ℕ → Workers × TaskHandle
pop_inbox s me =
    let worker = s.workers me in
    let r =
      take_inbox worker (
        scan worker.inbox (aging_pop_favours_lowest s.scheduler worker.pop_index) priority_count) in
    if worker.inbox_count == 0 then (s, invalid_handle) else (set_worker s me r.0, r.1)

-- The loop of `drain_global`, with `rounds` rounds to go.
unfoldable pub drain_rounds : ℕ → Workers → ℕ → Workers
drain_rounds zero s me = s
drain_rounds (suc rounds) s me =
    let r = pop_with_priority s.global false in
    let popped = record s { global = r.0 } in
    let extra = r.1.handle in
    let p = priority_index r.1.priority in
    let worker = s.workers me in
    let pushed = set_worker popped me (set_queue worker p (worker.queues p ++ extra ∷ [])) in
    let rest = drain_rounds rounds pushed me in
    if not (valid extra)
    then popped
    else (if ltb (length (worker.queues p)) s.deque_capacity
        then rest
        else record s { global = push r.0 extra r.1.priority })

-- `global_.pop(lowest_first)`, counted where it finds a task.
unfoldable pub pop_global : Workers → ℕ → Bool → Workers × TaskHandle
pop_global s me lowest_first =
    let r = pop s.global lowest_first in
    let popped = record s { global = r.0 } in
    let worker = s.workers me in
    if valid r.1
    then (
      set_worker popped me (record worker {
        pop_index = worker.pop_index + 1;
        global_pops = worker.global_pops + 1;
      }),
      r.1,
    )
    else (popped, invalid_handle)

unfoldable pub drain_global : Workers → ℕ → Workers × TaskHandle
drain_global s me =
    let worker = s.workers me in
    let r = pop_global s me (aging_pop_favours_lowest s.scheduler worker.pop_index) in
    if valid r.1 then (drain_rounds (global_drain_batch - 1) r.0 me, r.1) else (r.0, invalid_handle)

-- The loop over the priorities of one victim, with `rounds` rounds to go.
unfoldable pub steal_from : ℕ → (ℕ → Bool) → WorkerState → Option (WorkerState × TaskHandle)
steal_from zero lost victim = none
steal_from (suc rounds) lost victim =
    let p = priority_count - suc rounds in
    let rest = steal_from rounds lost victim in
    elim (victim.queues p) [
      | [] ↦ rest
      | x ∷ xs ↦ if lost p then rest else some (set_queue victim p xs, x)
    ]

-- The loop over the victims, with `rounds` rounds to go. The result is none where all have failed.
unfoldable pub steal_round : ℕ → (ℕ → ℕ → Bool) → Workers → ℕ → ℕ → Option (Workers × TaskHandle)
steal_round zero lost s me start = none
steal_round (suc rounds) lost s me start =
    let victim = (start + (s.worker_count - suc rounds)) % s.worker_count in
    let rest = steal_round rounds lost s me start in
    if victim == me
    then rest
    else (elim (steal_from priority_count (lost victim) (s.workers victim)) [
      | none ↦ rest
      | some (w, handle) ↦ some (set_worker s victim w, handle)
    ])

unfoldable pub count_steal : Workers → ℕ → Option (Workers × TaskHandle) → Workers × TaskHandle
count_steal s me none =
    let worker = s.workers me in
    (set_worker s me (record worker { steals_failed = worker.steals_failed + 1 }), invalid_handle)
count_steal s me (some (stolen, handle)) =
    let worker = stolen.workers me in
    (
      set_worker stolen me (record worker { steals_succeeded = worker.steals_succeeded + 1 }),
      handle,
    )

unfoldable pub steal_from_others : (ℕ → ℕ → Bool) → Workers → ℕ → Workers × TaskHandle
steal_from_others lost s me =
    let worker = s.workers me in
    let rng = xorshift64 worker.rng in
    let begun =
      set_worker s me (record worker { steal_attempts = worker.steal_attempts + 1; rng = rng }) in
    if leb s.worker_count 1
    then (s, invalid_handle)
    else count_steal begun me (steal_round s.worker_count lost begun me (rng % s.worker_count))

-- The result of `first`, or of `next` in the state after it where it found nothing.
unfoldable pub or_else :
    Workers × TaskHandle → (Workers → Workers × TaskHandle) → Workers × TaskHandle
or_else first next = if valid first.1 then first else next first.0

unfoldable pub acquire_next : (ℕ → ℕ → Bool) → Workers → ℕ → Workers × TaskHandle
acquire_next lost s me =
    let worker = s.workers me in
    let aged =
      if aging_pop_favours_lowest s.scheduler worker.pop_index
      then pop_global s me true
      else (s, invalid_handle) in
    if is_static s.scheduler
    then pop_inbox s me
    else or_else aged (λ s1.
      or_else (pop_local s1 me)
        (λ s2. or_else (drain_global s2 me) (λ s3. steal_from_others lost s3 me)))

-- `empty_hint` of the five deques of a worker.
abbrev pub some_local : WorkerState → Bool
some_local w =
    not (length (w.queues 0) == 0)
    || not (length (w.queues 1) == 0)
    || not (length (w.queues 2) == 0)
    || not (length (w.queues 3) == 0)
    || not (length (w.queues 4) == 0)

unfoldable pub some_worker : ℕ → (ℕ → Bool) → Bool
some_worker zero test = false
some_worker (suc n) test = test n || some_worker n test

unfoldable pub any_work_available : Workers → Bool
any_work_available s =
    if not (size_hint s.global == 0)
    then true
    else (if is_static s.scheduler
        then some_worker s.worker_count (λ i. not ((s.workers i).inbox_count == 0))
        else some_worker s.worker_count (λ i. some_local (s.workers i)))
