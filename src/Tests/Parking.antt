-- ===== src/Tests/Parking.antt =====
-- Two workers that fall asleep; then a task for worker 0, for which worker 1 is woken, or the shutdown.
use thunder_bolt_ht.Base.{ℕ, zero, suc, ◌<◌, ◌≡◌, ◌≢◌, refl, arith}
use thunder_bolt_ht.Runtime.Parking.{
  Phase, Notifier, Sleepers, Steps, all_awake, publishes, sees_somebody, passes_mutex, notifies_one,
  registers, reads_running, finds_none, finds_work, waits, returns, stops, notifies_all, no_step,
  then_step,
}
use thunder_bolt_ht.Runtime.Parking.Wakeups.{Steps-no_work_asleep, Steps-none_asleep_stopped}
use thunder_bolt_ht.Runtime.Parking.Stranded.{
  own_inbox, comes_from_outside, QuietSteps, no_quiet, then_quiet, Stranded, QuietSteps-Stranded,
}

abbrev Run : Sleepers → Type 0
Run s = Steps 2 1 2 own_inbox all_awake s

record Reached : Type 0 where
  last : Sleepers
  run : Run last

-- Worker 0 goes to sleep, and then worker 1.
first_asleep : Reached
first_asleep = record {
  last = _;
  run =
      then_step
        (then_step
          (then_step
            (then_step (then_step no_step (registers 0 (omega arith) refl refl))
              (reads_running 0 (omega arith) refl refl))
            (finds_none 0 0 (omega arith) refl (omega arith) refl))
          (finds_none 0 1 (omega arith) refl (omega arith) refl))
        (waits 0 (omega arith) refl);
}

both_asleep : Reached
unfolding first_asleep
both_asleep = record {
  last = _;
  run =
      then_step
        (then_step
          (then_step
            (then_step (then_step first_asleep.run (registers 1 (omega arith) refl refl))
              (reads_running 1 (omega arith) refl refl))
            (finds_none 1 0 (omega arith) refl (omega arith) refl))
          (finds_none 1 1 (omega arith) refl (omega arith) refl))
        (waits 1 (omega arith) refl);
}

sleeping : (i : ℕ) → i < 2 → both_asleep.last.workers i ≡ Phase.asleep
unfolding both_asleep first_asleep
sleeping zero lt = refl
sleeping (suc zero) lt = refl
sleeping (suc (suc i)) lt = absurd (omega arith)

Steps-no_work_asleep_example : both_asleep.last.work 1 ≡ 0
unfolding both_asleep first_asleep
Steps-no_work_asleep_example =
    Steps-no_work_asleep 2 1 2 own_inbox (omega arith) both_asleep.run refl sleeping (λ t lt. refl)
      1 (omega arith)

shut_down : Reached
unfolding both_asleep first_asleep
shut_down = record {
  last = _;
  run = then_step (then_step both_asleep.run (stops refl)) (notifies_all refl refl);
}

Steps-none_asleep_stopped_example : shut_down.last.workers 1 ≢ Phase.asleep
unfolding shut_down
Steps-none_asleep_stopped_example =
    Steps-none_asleep_stopped 2 1 2 own_inbox (omega arith) shut_down.run refl 1 (omega arith)

-- The task is for worker 0, and `notify_one` wakes worker 1.
wrong_one_woken : Reached
unfolding both_asleep first_asleep
wrong_one_woken = record {
  last = _;
  run =
      then_step
        (then_step
          (then_step (then_step both_asleep.run (publishes 0 0 (omega arith) (omega arith) refl))
            (sees_somebody 0 (omega arith) refl (omega arith)))
          (passes_mutex 0 (omega arith) refl refl))
        (notifies_one 0 1 (omega arith) (omega arith) refl refl);
}

wrong_one_woken-Stranded : Stranded 2 1 2 0 wrong_one_woken.last
unfolding wrong_one_woken both_asleep first_asleep
wrong_one_woken-Stranded = record {
  sleeps = refl;
  has_task = omega arith;
  nobody = λ t lt. at_zero t lt;
  runs = refl;
}
  where
    at_zero : (t : ℕ) → t < 1 → wrong_one_woken.last.notifiers t ≡ Notifier.idle
    at_zero zero lt = refl
    at_zero (suc t) lt = absurd (omega arith)

record Later : Type 0 where
  last : Sleepers
  steps : QuietSteps 2 1 2 wrong_one_woken.last last

-- Worker 1 looks for work, sees the task that it may not take, and goes round its loop.
turns_round : Later
unfolding wrong_one_woken both_asleep first_asleep comes_from_outside
turns_round = record {
  last = _;
  steps =
      then_quiet
        (then_quiet
          (then_quiet (then_quiet no_quiet (returns 1 (omega arith) refl refl) refl)
            (registers 1 (omega arith) refl refl) refl)
          (reads_running 1 (omega arith) refl refl) refl)
        (finds_work 1 0 (omega arith) refl (omega arith) (omega arith)) refl;
}

QuietSteps-Stranded_example : Stranded 2 1 2 0 turns_round.last
QuietSteps-Stranded_example = QuietSteps-Stranded 2 1 2 0 wrong_one_woken-Stranded turns_round.steps
