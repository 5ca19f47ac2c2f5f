-- ===== src/Runtime/Parking/Invariant.antt =====
-- ThunderboltRuntime.cpp: what holds of the sleep of the workers in every state.
use thunder_bolt_ht.Base.{ℕ, ◌+◌, ◌≤◌, ◌<◌, ◌≡◌, refl, if◌then◌else◌, arith, update}
use thunder_bolt_ht.Runtime.Parking.{Phase, Notifier, Stopper, Sleepers, all_awake}
use thunder_bolt_ht.Runtime.Parking.Census.{
  is_awake, is_asleep, is_notified, is_holding, is_scanning, reaches, is_early, is_late, tally,
  tally-update, tally_same,
}

module _ (n m q : ℕ) where
  abbrev pub awake : Sleepers → ℕ
  awake s = tally is_awake n s.workers

  abbrev pub asleep : Sleepers → ℕ
  asleep s = tally is_asleep n s.workers

  abbrev pub notified : Sleepers → ℕ
  notified s = tally is_notified n s.workers

  abbrev pub holding : Sleepers → ℕ
  holding s = tally is_holding n s.workers

  abbrev pub scanning : Sleepers → ℕ
  scanning s = tally is_scanning n s.workers

  abbrev pub to_read : ℕ → Sleepers → ℕ
  to_read j s = tally (reaches j) n s.workers

  abbrev pub early : Sleepers → ℕ
  early s = tally is_early m s.notifiers

  abbrev pub late : Sleepers → ℕ
  late s = tally is_late m s.notifiers

  pub record Inv (s : Sleepers) : Type 0 where
    pub counted : s.sleeping ≡ holding s + asleep s + notified s
    pub held : holding s ≡ (if s.locked then 1 else 0)
    pub placed : s.stopper ≡ Stopper.running → awake s + holding s + asleep s + notified s ≡ n
    -- Whoever holds the mutex will still find the work, or somebody else is to look for it.
    pub seen :
        (j : ℕ)
        → j < q
        → s.stopper ≡ Stopper.running
        → 0 < s.work j
        → holding s ≤ to_read j s + early s + awake s + notified s
    pub found :
        (j : ℕ)
        → j < q
        → s.stopper ≡ Stopper.running
        → 0 < s.work j
        → 0 < awake s + notified s + early s + late s + to_read j s
    pub left : s.stopper ≡ Stopper.stopped → asleep s + scanning s ≡ 0

  -- What the counts are after worker `i` went from `p` to `r`.
  abbrev pub Moved : (ℕ → Phase) → (ℕ → Phase) → Phase → Phase → Type 0
  Moved old new p r =
      (tally is_awake n new + is_awake p ≡ tally is_awake n old + is_awake r)
      × (tally is_asleep n new + is_asleep p ≡ tally is_asleep n old + is_asleep r)
      × (tally is_notified n new + is_notified p ≡ tally is_notified n old + is_notified r)
      × (tally is_holding n new + is_holding p ≡ tally is_holding n old + is_holding r)
      × (tally is_scanning n new + is_scanning p ≡ tally is_scanning n old + is_scanning r)
      × ((j : ℕ) → tally (reaches j) n new + reaches j p ≡ tally (reaches j) n old + reaches j r)

  pub phase-Moved :
      (s : Sleepers) (i : ℕ) {p : Phase} (r : Phase)
      → i < n
      → s.workers i ≡ p
      → Moved s.workers (update s.workers i r) p r
  phase-Moved s i r lt e = (
    tally-update is_awake n s.workers i r lt e,
    tally-update is_asleep n s.workers i r lt e,
    tally-update is_notified n s.workers i r lt e,
    tally-update is_holding n s.workers i r lt e,
    tally-update is_scanning n s.workers i r lt e,
    λ j. tally-update (reaches j) n s.workers i r lt e,
  )

  abbrev pub Turned : (ℕ → Notifier) → (ℕ → Notifier) → Notifier → Notifier → Type 0
  Turned old new p r =
      (tally is_early m new + is_early p ≡ tally is_early m old + is_early r)
      × (tally is_late m new + is_late p ≡ tally is_late m old + is_late r)

  pub notifier-Turned :
      (s : Sleepers) (t : ℕ) {p : Notifier} (r : Notifier)
      → t < m
      → s.notifiers t ≡ p
      → Turned s.notifiers (update s.notifiers t r) p r
  notifier-Turned s t r lt e =
      (tally-update is_early m s.notifiers t r lt e, tally-update is_late m s.notifiers t r lt e)

  pub all_awake-Inv : Inv all_awake
  all_awake-Inv = record {
    counted = omega (
      arith,
      tally_same is_holding n 0 all_awake.workers (λ i lt. refl),
      tally_same is_asleep n 0 all_awake.workers (λ i lt. refl),
      tally_same is_notified n 0 all_awake.workers (λ i lt. refl),
    );
    held = omega (arith, tally_same is_holding n 0 all_awake.workers (λ i lt. refl));
    placed = λ e. omega (
      arith,
      tally_same is_awake n 1 all_awake.workers (λ i lt. refl),
      tally_same is_holding n 0 all_awake.workers (λ i lt. refl),
      tally_same is_asleep n 0 all_awake.workers (λ i lt. refl),
      tally_same is_notified n 0 all_awake.workers (λ i lt. refl),
    );
    seen = λ j lt e some. absurd (omega arith);
    found = λ j lt e some. absurd (omega arith);
    left = λ e. absurd (ground arith);
  }
