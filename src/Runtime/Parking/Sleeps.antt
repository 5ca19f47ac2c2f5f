-- ===== src/Runtime/Parking/Sleeps.antt =====
-- ThunderboltRuntime.cpp: the steps of the workers, and of the destructor, keep the invariant.
use thunder_bolt_ht.Base.{ℕ, suc, ◌+◌, ◌≤◌, ◌<◌, ◌≡◌, ◌≢◌, ap, true, false, arith, update}
use thunder_bolt_ht.Runtime.Parking.{Phase, Stopper, Sleepers, rouse, set_phase, unpark}
use thunder_bolt_ht.Runtime.Parking.Census.{
  is_awake, is_asleep, is_notified, is_holding, is_scanning, reaches, tally_le, le-tally,
  reaches_le, is_scanning_le, not_passed, passed, roused, all_to_read,
}
use thunder_bolt_ht.Runtime.Parking.Invariant.{Inv, holding, phase-Moved}

module _ (n m q : ℕ) (s : Sleepers) (inv : Inv n m q s) where
  -- A worker in its loop moves the work about.
  pub works-Inv :
      (i : ℕ) (work : ℕ → ℕ)
      → i < n
      → s.workers i ≡ Phase.awake
      → Inv n m q (record s { work = work })
  works-Inv i work lt e =
      let up = le-tally is_awake n s.workers i lt in
      record {
        counted = inv.counted;
        held = inv.held;
        placed = inv.placed;
        seen = λ k klt run some. ground (arith, inv.held, up, ap is_awake e);
        found = λ k klt run some. omega (arith, up, ap is_awake e);
        left = inv.left;
      }

  pub registers-Inv :
      (i : ℕ)
      → i < n
      → s.workers i ≡ Phase.awake
      → s.locked ≡ false
      → Inv n m q
          (record (set_phase s i Phase.registered) { sleeping = s.sleeping + 1; locked = true })
  registers-Inv i lt e free =
      let w = phase-Moved n m q s i Phase.registered lt e in
      record {
        counted = omega (arith, w, inv.counted);
        held = ground (arith, w, inv.held, free);
        placed = λ run. omega (arith, w, inv.placed run);
        seen = λ k klt run some. ground (arith, w, w.5 k, inv.held, free);
        found = λ k klt run some. omega (arith, w, w.5 k);
        left = λ st. omega (arith, w, inv.left st);
      }

  pub reads_running-Inv :
      (i : ℕ)
      → i < n
      → s.workers i ≡ Phase.registered
      → s.stopper ≡ Stopper.running
      → Inv n m q (set_phase s i (Phase.scanning 0))
  reads_running-Inv i lt e runs =
      let w = phase-Moved n m q s i (Phase.scanning 0) lt e in
      record {
        counted = omega (arith, w, inv.counted);
        held = omega (arith, w, inv.held);
        placed = λ run. omega (arith, w, inv.placed run);
        seen = λ k klt run some. omega (arith, w, w.5 k, all_to_read k, inv.seen k klt run some);
        found = λ k klt run some. omega (arith, w, w.5 k, all_to_read k, inv.found k klt run some);
        left = λ st. ground (arith, runs, st);
      }

  pub finds_none-Inv :
      (i k : ℕ)
      → i < n
      → s.workers i ≡ Phase.scanning k
      → s.work k ≡ 0
      → Inv n m q (set_phase s i (Phase.scanning (suc k)))
  finds_none-Inv i k lt e nothing =
      let w = phase-Moved n m q s i (Phase.scanning (suc k)) lt e in
      let same : (j : ℕ)
          → 0 < s.work j
          → reaches j (Phase.scanning (suc k)) ≡ reaches j (Phase.scanning k) =
        λ j some. not_passed j k (λ at. omega (arith, ap s.work at, nothing)) in
      record {
        counted = omega (arith, w, inv.counted);
        held = omega (arith, w, inv.held);
        placed = λ run. omega (arith, w, inv.placed run);
        seen = λ j jlt run some. omega (arith, w, w.5 j, same j some, inv.seen j jlt run some);
        found = λ j jlt run some. omega (arith, w, w.5 j, same j some, inv.found j jlt run some);
        left = λ st. omega (arith, w, inv.left st);
      }

  pub waits-Inv :
      (i : ℕ)
      → i < n
      → s.workers i ≡ Phase.scanning q
      → Inv n m q (record (set_phase s i Phase.asleep) { locked = false })
  waits-Inv i lt e =
      let w = phase-Moved n m q s i Phase.asleep lt e in
      let one_at_most : holding n m q s ≤ 1 = ground (arith, inv.held) in
      record {
        counted = omega (arith, w, inv.counted);
        held = omega (arith, w, one_at_most);
        placed = λ run. omega (arith, w, inv.placed run);
        seen = λ k klt run some. omega (arith, w, one_at_most);
        found = λ k klt run some. omega (
          arith,
          w,
          w.5 k,
          inv.seen k klt run some,
          one_at_most,
          passed k q klt,
          tally_le (reaches k) is_holding n (update s.workers i Phase.asleep) (reaches_le k),
        );
        left = λ st. omega (arith, w, inv.left st);
      }

  -- A worker that is the one under the mutex, or takes the mutex when it is free, is back in its loop.
  pub unpark-Inv :
      (i : ℕ) {p : Phase}
      → i < n
      → s.workers i ≡ p
      → is_holding p + is_notified p ≡ 1
      → is_awake p + is_asleep p ≡ 0
      → is_scanning p ≤ is_holding p
      → (is_holding p ≡ 0 → s.locked ≡ false)
      → Inv n m q (unpark s i)
  unpark-Inv i {p} lt e one neither scans free =
      let w = phase-Moved n m q s i Phase.awake lt e in
      let still = le-tally is_holding n s.workers i lt in
      let at = ap is_holding e in
      let only : holding n m q s ≡ is_holding p = ground (arith, inv.held, still, at, free, one) in
      record {
        counted = omega (arith, w, inv.counted, one, neither);
        held = omega (arith, w, only);
        placed = λ run. omega (arith, w, inv.placed run, one, neither);
        seen = λ k klt run some. omega (arith, w, only);
        found = λ k klt run some. omega (arith, w, neither);
        left = λ st. omega (arith, w, inv.left st, neither);
      }

  pub wakes_by_itself-Inv :
      (i : ℕ) → i < n → s.workers i ≡ Phase.asleep → Inv n m q (set_phase s i Phase.notified)
  wakes_by_itself-Inv i lt e =
      let w = phase-Moved n m q s i Phase.notified lt e in
      record {
        counted = omega (arith, w, inv.counted);
        held = omega (arith, w, inv.held);
        placed = λ run. omega (arith, w, inv.placed run);
        seen = λ k klt run some. omega (arith, w, w.5 k, inv.seen k klt run some);
        found = λ k klt run some. omega (arith, w);
        left = λ st. omega (arith, w, inv.left st);
      }

  pub exits-Inv :
      (i : ℕ)
      → i < n
      → s.workers i ≡ Phase.awake
      → s.stopper ≢ Stopper.running
      → Inv n m q (set_phase s i Phase.exited)
  exits-Inv i lt e over =
      let w = phase-Moved n m q s i Phase.exited lt e in
      record {
        counted = omega (arith, w, inv.counted);
        held = omega (arith, w, inv.held);
        placed = λ run. absurd (over run);
        seen = λ k klt run some. absurd (over run);
        found = λ k klt run some. absurd (over run);
        left = λ st. omega (arith, w, inv.left st);
      }

  pub stops-Inv : Inv n m q (record s { stopper = Stopper.stopping })
  stops-Inv = record {
    counted = inv.counted;
    held = inv.held;
    placed = λ run. absurd (ground (arith, run));
    seen = λ k klt run some. absurd (ground (arith, run));
    found = λ k klt run some. absurd (ground (arith, run));
    left = λ st. absurd (ground (arith, st));
  }

  pub notifies_all-Inv :
      s.locked ≡ false
      → Inv n m q (record s { workers = λ i. rouse (s.workers i); stopper = Stopper.stopped })
  notifies_all-Inv free =
      let r = roused n s.workers in
      record {
        counted = omega (arith, r, inv.counted);
        held = omega (arith, r, inv.held);
        placed = λ run. absurd (ground (arith, run));
        seen = λ k klt run some. absurd (ground (arith, run));
        found = λ k klt run some. absurd (ground (arith, run));
        left = λ st.
            ground (
              arith,
              r,
              inv.held,
              free,
              tally_le is_scanning is_holding n s.workers is_scanning_le,
            );
      }
