-- ===== src/Runtime/Standard/Attended.antt =====
-- No worker of the standard runtime sleeps while a task waits that nobody attends to.
use thunder_bolt_ht.Base.{
  ℕ, ◌+◌, ◌-◌, ◌<◌, ◌≤◌, ◌≡◌, refl, sym, ap, Bool, true, false, ◌==◌, if◌then◌else◌, arith, dec_lt,
  subst, Bool-cases, inl, inr,
}
use thunder_bolt_ht.Api.Types.{TaskHandle, valid}
use thunder_bolt_ht.Runtime.Standard.{ReadyQueue, enqueue_ready, pop_locked}
use thunder_bolt_ht.Runtime.Standard.Sleep.{
  WorkerPhase, testing, waiting, blocked, left, executing, StandardState, started, move,
  take_or_leave, wake_or_block, wake_phase, Step, enqueues, notifies, notifies_none, tests, waits,
  wakes_by_itself, executes, helps, stops, notifies_all, Steps, done, then_step,
}
use thunder_bolt_ht.Runtime.Standard.Census.{
  is_awake, is_blocked, awake_workers, blocked_workers, awake-move, blocked-move, no_block, woken,
  queued_count-pop_locked, none_blocked,
}

-- The destructor notifies once the runtime does not run; where a worker is blocked, it has not
-- notified; and while the runtime runs and a worker is blocked, as many workers are awake or about to
-- be notified as tasks are queued.
record IsAttended (n : ℕ) (s : StandardState) : Type 0 where
  stop_first : s.stop_notified ≡ true → s.running ≡ false
  none_left : 0 < blocked_workers n s.phases → s.stop_notified ≡ false
  enough :
      s.running ≡ true
      → 0 < blocked_workers n s.phases
      → s.queue.queued_count ≤ s.notifying + awake_workers n s.phases

-- A worker moves, with no more tasks queued for each that is awake or about to be notified, and
-- blocks only where nothing is queued and the runtime runs.
move-IsAttended :
    (n w : ℕ) (s : StandardState) (phase : WorkerPhase) (queue : ReadyQueue) (notifying : ℕ)
    → w < n
    → is_blocked phase ≤ is_blocked (s.phases w)
    → queue.queued_count ≤ s.queue.queued_count
    → (s.running ≡ true → s.notifying + is_awake (s.phases w) ≤ notifying + is_awake phase)
    → IsAttended n s
    → IsAttended n (record (move s w phase) { queue = queue; notifying = notifying })
move-IsAttended n w s phase queue notifying lt fewer taken kept h =
    let a = awake-move n w s.phases phase lt in
    let b = blocked-move n w s.phases phase lt in
    record {
      stop_first = h.stop_first;
      none_left = λ pos. h.none_left (omega (arith, b, fewer, pos));
      enough =
          λ run pos. omega (arith, a, taken, kept run, h.enough run (omega (arith, b, fewer, pos)));
    }

-- What a worker does where its predicate is tested, in the three cases of the code.
blocks :
    (s : StandardState) (w : ℕ)
    → (s.queue.queued_count == 0) ≡ true
    → s.running ≡ true
    → wake_or_block s w ≡ move s w blocked
unfolding wake_or_block
blocks s w empty run = rw (empty, run) refl

leaves :
    (s : StandardState) (w : ℕ)
    → (s.queue.queued_count == 0) ≡ true
    → s.running ≡ false
    → wake_or_block s w ≡ move s w left
unfolding wake_or_block take_or_leave
leaves s w empty stop = rw (empty, stop) refl

abbrev after_pop : ReadyQueue × TaskHandle → WorkerPhase
after_pop r = if valid r.1 then executing r.1 else testing

takes :
    (s : StandardState) (w : ℕ)
    → (s.queue.queued_count == 0) ≡ false
    → wake_or_block s w
      ≡ move (record s { queue = (pop_locked s.queue).0 }) w (after_pop (pop_locked s.queue))
unfolding wake_or_block take_or_leave
takes s w some_task = rw some_task refl

awake_after :
    (r : ReadyQueue × TaskHandle) → (is_blocked (after_pop r) ≡ 0) × (is_awake (after_pop r) ≡ 1)
awake_after r = elim (Bool-cases (valid r.1)) [
  | inl e ↦ rw e (refl, refl)
  | inr e ↦ rw e (refl, refl)
]

not_both : {b : Bool} → b ≡ true → b ≡ false → ⊥
not_both e f = cc

not_notified :
    (n : ℕ) (s : StandardState) → s.running ≡ true → IsAttended n s → s.stop_notified ≡ false
not_notified n s run h = elim (Bool-cases s.stop_notified) [
  | inl e ↦ absurd (not_both run (h.stop_first e))
  | inr e ↦ e
]

wake_or_block-IsAttended :
    (n w : ℕ) (s : StandardState)
    → w < n
    → s.phases w ≡ waiting
    → IsAttended n s
    → IsAttended n (wake_or_block s w)
wake_or_block-IsAttended n w s lt at h = elim (Bool-cases (s.queue.queued_count == 0)) [
  | inl empty ↦ elim (Bool-cases s.running) [
    | inl run ↦ subst (IsAttended n) (sym (blocks s w empty run)) record {
      stop_first = h.stop_first;
      none_left = λ pos. not_notified n s run h;
      enough = λ still pos. ground (arith, empty);
    }
    | inr stop ↦ subst (IsAttended n) (sym (leaves s w empty stop)) (
        move-IsAttended n w s left s.queue s.notifying lt (omega arith) (omega arith)
          (λ run. absurd (not_both run stop)) h)
  ]
  | inr some_task ↦
      let r = pop_locked s.queue in
      let (unblocked, awake) = awake_after r in
      subst (IsAttended n) (sym (takes s w some_task)) (
        move-IsAttended n w s (after_pop r) r.0 s.notifying lt (omega (arith, unblocked))
          (queued_count-pop_locked s.queue) (λ run. omega (arith, awake, ap is_awake at)) h)
]

tested-IsAttended :
    (n w : ℕ) (s : StandardState)
    → w < n
    → s.phases w ≡ testing
    → IsAttended n s
    → IsAttended n (move s w (if s.running then waiting else left))
tested-IsAttended n w s lt at h = elim (Bool-cases s.running) [
  | inl run ↦
      subst (λ b. IsAttended n (move s w (if b then waiting else left))) (sym run)
        (move-IsAttended n w s waiting s.queue s.notifying lt (omega arith) (omega arith)
          (λ still. omega (arith, ap is_awake at)) h)
  | inr stop ↦
      subst (λ b. IsAttended n (move s w (if b then waiting else left))) (sym stop)
        (move-IsAttended n w s left s.queue s.notifying lt (omega arith) (omega arith)
          (λ run. absurd (not_both run stop)) h)
]

Step-IsAttended : (n : ℕ) {s t : StandardState} → Step n s t → IsAttended n s → IsAttended n t
unfolding enqueue_ready
Step-IsAttended n {s} (enqueues handle priority) h = record {
  stop_first = h.stop_first;
  none_left = h.none_left;
  enough = λ run pos. omega (arith, h.enough run pos);
}
Step-IsAttended n {s} (notifies w pos lt at) h =
    move-IsAttended n w s waiting s.queue (s.notifying - 1) lt (omega arith) (omega arith)
      (λ run. omega (arith, pos, ap is_awake at)) h
Step-IsAttended n {s} (notifies_none pos nobody) h = record {
  stop_first = h.stop_first;
  none_left = h.none_left;
  enough = λ run some_blocked.
      absurd (none_blocked n s.phases (λ w lt. no_block (s.phases w) (nobody w lt)) some_blocked);
}
Step-IsAttended n {s} (tests w lt at) h = tested-IsAttended n w s lt at h
Step-IsAttended n (waits w lt at) h = wake_or_block-IsAttended n w _ lt at h
Step-IsAttended n {s} (wakes_by_itself w lt at) h =
    move-IsAttended n w s waiting s.queue s.notifying lt (omega arith) (omega arith)
      (λ run. omega (arith, ap is_awake at)) h
Step-IsAttended n {s} (executes w handle lt at) h =
    move-IsAttended n w s testing s.queue s.notifying lt (omega arith) (omega arith)
      (λ run. omega (arith, ap is_awake at)) h
Step-IsAttended n {s} (helps w handle lt at) h = record {
  stop_first = h.stop_first;
  none_left = h.none_left;
  enough = λ run pos. omega (arith, queued_count-pop_locked s.queue, h.enough run pos);
}
Step-IsAttended n {s} stops h = record {
  stop_first = λ e. refl;
  none_left = h.none_left;
  enough = λ run pos. absurd (not_both run refl);
}
Step-IsAttended n {s} (notifies_all stop) h = record {
  stop_first = λ e. stop;
  none_left = λ pos.
      absurd (none_blocked n (λ w. wake_phase (s.phases w)) (λ w lt. woken (s.phases w)) pos);
  enough = λ run pos. absurd (not_both run stop);
}

Steps-IsAttended : (n : ℕ) {s t : StandardState} → Steps n s t → IsAttended n s → IsAttended n t
Steps-IsAttended n (done s) h = h
Steps-IsAttended n (then_step steps step) h = Step-IsAttended n step (Steps-IsAttended n steps h)

started-IsAttended : (n : ℕ) → IsAttended n started
started-IsAttended n = record {
  stop_first = λ e. absurd (not_both e refl);
  none_left = λ pos. refl;
  enough = λ run pos. omega arith;
}

-- In every state that the workers of the standard runtime and the threads that enqueue reach, while the
-- runtime runs and one of its workers is blocked in its wait, at least as many workers are awake or
-- about to be notified as tasks are queued.
pub Steps-enough_awake :
    (n : ℕ) (s : StandardState)
    → Steps n started s
    → s.running ≡ true
    → 0 < blocked_workers n s.phases
    → s.queue.queued_count ≤ s.notifying + awake_workers n s.phases
Steps-enough_awake n s steps run pos =
    (Steps-IsAttended n steps (started-IsAttended n)).enough run pos

-- Once the destructor has notified, no worker is blocked in its wait.
pub Steps-none_blocked :
    (n : ℕ) (s : StandardState)
    → Steps n started s
    → s.stop_notified ≡ true
    → blocked_workers n s.phases ≡ 0
Steps-none_blocked n s steps stop = elim (dec_lt 0 (blocked_workers n s.phases)) [
  | yes pos ↦
      absurd (not_both stop ((Steps-IsAttended n steps (started-IsAttended n)).none_left pos))
  | no none_there ↦ omega (arith, none_there)
]
