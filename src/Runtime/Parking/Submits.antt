-- ===== src/Runtime/Parking/Submits.antt =====
-- ThunderboltRuntime.cpp: the steps of the threads that submit keep the invariant.
use thunder_bolt_ht.Base.{ℕ, ◌+◌, ◌≤◌, ◌<◌, ◌≡◌, ◌≢◌, ap, false, arith, update}
use thunder_bolt_ht.Runtime.Parking.{Phase, Notifier, Stopper, Sleepers, set_phase, set_notifier}
use thunder_bolt_ht.Runtime.Parking.Census.{
  is_asleep, is_early, is_late, tally_same, le-tally, is_asleep_not,
}
use thunder_bolt_ht.Runtime.Parking.Invariant.{
  Inv, awake, notified, holding, to_read, early, late, phase-Moved, notifier-Turned,
}

module _ (n m q : ℕ) (s : Sleepers) (inv : Inv n m q s) where
  pub publishes-Inv :
      (t j : ℕ)
      → t < m
      → s.notifiers t ≡ Notifier.idle
      → Inv n m q
          (record (set_notifier s t Notifier.published) { work = update s.work j (s.work j + 1) })
  publishes-Inv t j lt e =
      let w = notifier-Turned n m q s t Notifier.published lt e in
      record {
        counted = inv.counted;
        held = inv.held;
        placed = inv.placed;
        seen = λ k klt run some. ground (arith, w, inv.held);
        found = λ k klt run some. omega (arith, w);
        left = inv.left;
      }

  -- A submitter goes on, and somebody is still to look for the work there is.
  pub notifier-Inv :
      (t : ℕ) {p : Notifier} (r : Notifier)
      → t < m
      → s.notifiers t ≡ p
      → ((k : ℕ)
          → k < q
          → s.stopper ≡ Stopper.running
          → 0 < s.work k
          → holding n m q s + is_early p
            ≤ to_read n m q k s + early n m q s + awake n m q s + notified n m q s + is_early r)
      → ((k : ℕ)
          → k < q
          → s.stopper ≡ Stopper.running
          → 0 < s.work k
          → is_early p + is_late p
            < awake n m q s
              + notified n m q s
              + early n m q s
              + late n m q s
              + to_read n m q k s
              + is_early r
              + is_late r)
      → Inv n m q (set_notifier s t r)
  notifier-Inv t {p} r lt e still then_found =
      let w = notifier-Turned n m q s t r lt e in
      record {
        counted = inv.counted;
        held = inv.held;
        placed = inv.placed;
        seen = λ k klt run some. omega (arith, w, still k klt run some);
        found = λ k klt run some. omega (arith, w, then_found k klt run some);
        left = inv.left;
      }

  pub sees_nobody-Inv :
      (t : ℕ)
      → 0 < n
      → t < m
      → s.notifiers t ≡ Notifier.published
      → s.sleeping ≡ 0
      → Inv n m q (set_notifier s t Notifier.idle)
  sees_nobody-Inv t pos lt e none_asleep =
      notifier-Inv t Notifier.idle lt e
        (λ k klt run some. omega (
          arith,
          inv.counted,
          inv.placed run,
          none_asleep,
          le-tally is_early m s.notifiers t lt,
          ap is_early e,
        ))
        (λ k klt run some. omega (
          arith,
          inv.counted,
          inv.placed run,
          none_asleep,
          le-tally is_early m s.notifiers t lt,
          ap is_early e,
        ))

  pub passes_mutex-Inv :
      (t : ℕ)
      → t < m
      → s.notifiers t ≡ Notifier.waking
      → s.locked ≡ false
      → Inv n m q (set_notifier s t Notifier.notifying)
  passes_mutex-Inv t lt e free =
      notifier-Inv t Notifier.notifying lt e
        (λ k klt run some.
          ground (arith, inv.held, free, le-tally is_early m s.notifiers t lt, ap is_early e))
        (λ k klt run some. omega (arith, inv.found k klt run some))

  pub notifies_none-Inv :
      (t : ℕ)
      → 0 < n
      → t < m
      → s.notifiers t ≡ Notifier.notifying
      → ((i : ℕ) → i < n → s.workers i ≢ Phase.asleep)
      → Inv n m q (set_notifier s t Notifier.idle)
  notifies_none-Inv t pos lt e nobody =
      let none_asleep =
        tally_same is_asleep n 0 s.workers (λ i ilt. is_asleep_not (s.workers i) (nobody i ilt)) in
      notifier-Inv t Notifier.idle lt e (λ k klt run some. omega (arith, inv.seen k klt run some))
        (λ k klt run some. omega (
          arith,
          inv.seen k klt run some,
          inv.placed run,
          none_asleep,
          le-tally is_late m s.notifiers t lt,
          ap is_late e,
        ))

  pub notifies_one-Inv :
      (t i : ℕ)
      → t < m
      → i < n
      → s.notifiers t ≡ Notifier.notifying
      → s.workers i ≡ Phase.asleep
      → Inv n m q (set_phase (set_notifier s t Notifier.idle) i Phase.notified)
  notifies_one-Inv t i lt ilt e ie =
      let v = notifier-Turned n m q s t Notifier.idle lt e in
      let w = phase-Moved n m q s i Phase.notified ilt ie in
      record {
        counted = omega (arith, w, inv.counted);
        held = omega (arith, w, inv.held);
        placed = λ run. omega (arith, w, inv.placed run);
        seen = λ k klt run some. omega (arith, v, w, w.5 k, inv.seen k klt run some);
        found = λ k klt run some. omega (arith, v, w);
        left = λ st. omega (arith, w, inv.left st);
      }
