-- ===== src/Runtime/Parking/Wakeups.antt =====
-- ThunderboltRuntime.cpp: no wake-up is lost, and the shutdown leaves nobody asleep.
use thunder_bolt_ht.Base.{ℕ, ◌<◌, ◌≡◌, ◌≢◌, refl, ap, Bool, arith}
use thunder_bolt_ht.Runtime.Parking.{
  Phase, Notifier, Stopper, Sleepers, all_awake, Step, Steps, publishes, sees_nobody, sees_somebody,
  passes_mutex, notifies_one, notifies_none, takes, moves, registers, reads_running, reads_stopped,
  finds_none, finds_work, waits, wakes_by_itself, returns, exits, stops, notifies_all, no_step,
  then_step,
}
use thunder_bolt_ht.Runtime.Parking.Census.{
  is_awake, is_asleep, is_notified, is_early, is_late, tally_same, le-tally, reaches,
}
use thunder_bolt_ht.Runtime.Parking.Invariant.{Inv, all_awake-Inv}
use thunder_bolt_ht.Runtime.Parking.Submits.{
  publishes-Inv, notifier-Inv, sees_nobody-Inv, passes_mutex-Inv, notifies_none-Inv,
  notifies_one-Inv,
}
use thunder_bolt_ht.Runtime.Parking.Sleeps.{
  works-Inv, registers-Inv, reads_running-Inv, finds_none-Inv, waits-Inv, unpark-Inv,
  wakes_by_itself-Inv, exits-Inv, stops-Inv, notifies_all-Inv,
}

module _ (n m q : ℕ) (may_take : ℕ → ℕ → Bool) (pos : 0 < n) where
  Step-Inv : (s : Sleepers) {t : Sleepers} → Inv n m q s → Step n m q may_take s t → Inv n m q t
  Step-Inv s inv (publishes t j lt jlt e) = publishes-Inv n m q s inv t j lt e
  Step-Inv s inv (sees_nobody t lt e none_asleep) =
      sees_nobody-Inv n m q s inv t pos lt e none_asleep
  Step-Inv s inv (sees_somebody t lt e some_asleep) =
      notifier-Inv n m q s inv t Notifier.waking lt e
        (λ k klt run some. omega (arith, inv.seen k klt run some))
        (λ k klt run some. omega (arith, inv.found k klt run some))
  Step-Inv s inv (passes_mutex t lt e free) = passes_mutex-Inv n m q s inv t lt e free
  Step-Inv s inv (notifies_one t i lt ilt e ie) = notifies_one-Inv n m q s inv t i lt ilt e ie
  Step-Inv s inv (notifies_none t lt e nobody) = notifies_none-Inv n m q s inv t pos lt e nobody
  Step-Inv s inv (takes i j lt e may some) = works-Inv n m q s inv i _ lt e
  Step-Inv s inv (moves i j k lt e may may_too some ne) = works-Inv n m q s inv i _ lt e
  Step-Inv s inv (registers i lt e free) = registers-Inv n m q s inv i lt e free
  Step-Inv s inv (reads_running i lt e runs) = reads_running-Inv n m q s inv i lt e runs
  Step-Inv s inv (reads_stopped i lt e over) =
      unpark-Inv n m q s inv i lt e refl refl (omega arith) (λ z. absurd (omega (arith, z)))
  Step-Inv s inv (finds_none i k lt e klt nothing) = finds_none-Inv n m q s inv i k lt e nothing
  Step-Inv s inv (finds_work i k lt e klt some) =
      unpark-Inv n m q s inv i lt e refl refl (omega arith) (λ z. absurd (omega (arith, z)))
  Step-Inv s inv (waits i lt e) = waits-Inv n m q s inv i lt e
  Step-Inv s inv (wakes_by_itself i lt e) = wakes_by_itself-Inv n m q s inv i lt e
  Step-Inv s inv (returns i lt e free) =
      unpark-Inv n m q s inv i lt e refl refl (omega arith) (λ z. free)
  Step-Inv s inv (exits i lt e over) = exits-Inv n m q s inv i lt e over
  Step-Inv s inv (stops runs) = stops-Inv n m q s inv
  Step-Inv s inv (notifies_all over free) = notifies_all-Inv n m q s inv free

  Steps-Inv : {t : Sleepers} → Steps n m q may_take all_awake t → Inv n m q t
  Steps-Inv no_step = all_awake-Inv n m q
  Steps-Inv (then_step {t} steps step) = Step-Inv t (Steps-Inv steps) step

module _ (n m q : ℕ) (may_take : ℕ → ℕ → Bool) where
  -- Whatever workers and submitters have done since the start, and whichever worker each
  -- notification went to: while the runtime runs and has a worker, when every worker sleeps and
  -- no submitter is between its enqueue and its notification, no task waits anywhere.
  pub Steps-no_work_asleep :
      {s : Sleepers}
      → 0 < n
      → Steps n m q may_take all_awake s
      → s.stopper ≡ Stopper.running
      → ((i : ℕ) → i < n → s.workers i ≡ Phase.asleep)
      → ((t : ℕ) → t < m → s.notifiers t ≡ Notifier.idle)
      → (j : ℕ) → j < q
      → s.work j ≡ 0
  Steps-no_work_asleep {s} pos steps runs sleeps quiet j lt =
      let inv : Inv n m q s = Steps-Inv n m q may_take pos steps in
      grind (
        arith,
        inv.found j lt runs,
        tally_same is_awake n 0 s.workers (λ i ilt. ap is_awake (sleeps i ilt)),
        tally_same is_notified n 0 s.workers (λ i ilt. ap is_notified (sleeps i ilt)),
        tally_same (reaches j) n 0 s.workers (λ i ilt. ap (reaches j) (sleeps i ilt)),
        tally_same is_early m 0 s.notifiers (λ t tlt. ap is_early (quiet t tlt)),
        tally_same is_late m 0 s.notifiers (λ t tlt. ap is_late (quiet t tlt)),
      )

  -- Once the destructor is behind its `notify_all`, no worker sleeps: each is in its loop, or on
  -- its way to it, and will see that the runtime does not run.
  pub Steps-none_asleep_stopped :
      {s : Sleepers}
      → 0 < n
      → Steps n m q may_take all_awake s
      → s.stopper ≡ Stopper.stopped
      → (i : ℕ) → i < n
      → s.workers i ≢ Phase.asleep
  Steps-none_asleep_stopped {s} pos steps over i lt e =
      let inv : Inv n m q s = Steps-Inv n m q may_take pos steps in
      omega (arith, inv.left over, le-tally is_asleep n s.workers i lt, ap is_asleep e)
