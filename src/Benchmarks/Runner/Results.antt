-- ===== src/Benchmarks/Runner/Results.antt =====
-- The result of a leg counts every sample that was measured.
use thunder_bolt_ht.Base.{
  ℕ, zero, suc, ◌+◌, ◌-◌, ◌≤◌, ◌<◌, ◌≡◌, refl, subst, ap, ◌∙◌, Bool, false, ◌==◌, leb,
  if◌then◌else◌, List, [], ◌∷◌, map, arith, some, length, length-map, get_elem?, get_or, Bool-cases,
  inl, inr,
}
use thunder_bolt_ht.Benchmarks.Statistics.{Double, nought, summarize, summarize_sorted}
use thunder_bolt_ht.Benchmarks.Statistics.Order.{length-sort_samples}
use thunder_bolt_ht.Benchmarks.Runner.{
  Sample, LegResult, RunOptions, Observation, sampled, flag, clean_seconds, count_throttled,
  leg_result, median_clock, observed_clocks, run_interleaved,
}
use thunder_bolt_ht.Benchmarks.Runner.Samples.{amount, sampled_lem}

module _ {D : Type 0} ⦃d : Double D⦄ where
  summarize-sample_count : (xs : List D) → (summarize xs).sample_count ≡ length xs
  unfolding summarize summarize_sorted
  summarize-sample_count xs = elim (Bool-cases (length xs == 0)) [
    | inl e ↦ rw e (ground (arith, e))
    | inr e ↦ rw e (length-sort_samples xs)
  ]

  count_throttled-clean_seconds :
      (samples : List (Sample D))
      → count_throttled samples + length (clean_seconds samples) ≡ length samples
  unfolding count_throttled clean_seconds
  count_throttled-clean_seconds [] = omega arith
  count_throttled-clean_seconds (s ∷ samples) =
      ground (arith, count_throttled-clean_seconds samples)

  -- A sample whose clock is known and below the floor.
  unfoldable pub is_slow : D → Sample D → Bool
  is_slow throttle_floor s =
      if d.lt nought s.clock_mhz then d.lt s.clock_mhz throttle_floor else false

  -- Every sample is marked as throttled if it is slow, and no other.
  unfoldable pub AreMarked : D → List (Sample D) → Type 0
  AreMarked throttle_floor [] = Unit
  AreMarked throttle_floor (s ∷ samples) =
      (s.throttled ≡ is_slow throttle_floor s) × AreMarked throttle_floor samples

  -- The times of the samples that are not slow.
  unfoldable pub steady_seconds : D → List (Sample D) → List D
  steady_seconds throttle_floor [] = []
  steady_seconds throttle_floor (s ∷ samples) =
      if is_slow throttle_floor s
      then steady_seconds throttle_floor samples
      else s.seconds ∷ steady_seconds throttle_floor samples

  abbrev pub seconds_of : List (Sample D) → List D
  seconds_of samples = map (λ (s : Sample D). s.seconds) samples

  flag-AreMarked :
      (throttle_floor : D) (samples : List (Sample D))
      → AreMarked throttle_floor (map (flag throttle_floor) samples)
  unfolding AreMarked flag is_slow
  flag-AreMarked throttle_floor [] = tt
  flag-AreMarked throttle_floor (s ∷ samples) = (
    elim (Bool-cases (d.lt nought s.clock_mhz)) [
      | inl known ↦ rw known refl
      | inr unknown ↦ rw unknown refl
    ],
    flag-AreMarked throttle_floor samples,
  )

  clean_seconds-steady_seconds :
      (throttle_floor : D) (samples : List (Sample D))
      → AreMarked throttle_floor samples
      → clean_seconds samples ≡ steady_seconds throttle_floor samples
  unfolding AreMarked clean_seconds steady_seconds
  clean_seconds-steady_seconds throttle_floor [] marked = refl
  clean_seconds-steady_seconds throttle_floor (s ∷ samples) marked =
      let rest = clean_seconds-steady_seconds throttle_floor samples marked.1 in
      ap (λ slow. if slow then clean_seconds samples else s.seconds ∷ clean_seconds samples)
        marked.0
      ∙ ap (λ xs. if is_slow throttle_floor s then xs else s.seconds ∷ xs) rest

  -- What a result holds, for a leg with `n` samples: each is marked as it ought to be, and the two
  -- summaries are of all times and of those that are not slow, if there are three of them.
  unfoldable pub IsComplete : D → ℕ → LegResult D → Type 0
  IsComplete throttle_floor n leg =
      (length leg.samples ≡ n)
      × AreMarked throttle_floor leg.samples
      × (leg.timing_including_throttled ≡ summarize (seconds_of leg.samples))
      × (leg.timing ≡ (
          if leb 3 (length (steady_seconds throttle_floor leg.samples))
          then summarize (steady_seconds throttle_floor leg.samples)
          else summarize (seconds_of leg.samples)))
      × (leg.throttled_count + length (steady_seconds throttle_floor leg.samples) ≡ n)
      × (leg.throttled_count ≤ n)
      × (leg.timing_including_throttled.sample_count ≡ n)
      × (leg.timing.sample_count
          ≡ (if leb 3 (n - leg.throttled_count) then n - leg.throttled_count else n))

  leg_result-IsComplete :
      (throttle_floor : D) (samples : List (Sample D))
      → AreMarked throttle_floor samples
      → IsComplete throttle_floor (length samples) (leg_result samples)
  unfolding IsComplete leg_result
  leg_result-IsComplete throttle_floor samples marked =
      let split = count_throttled-clean_seconds samples in
      let same = clean_seconds-steady_seconds throttle_floor samples marked in
      let all =
        summarize-sample_count (map (λ (s : Sample D). s.seconds) samples)
        ∙ length-map samples (λ (s : Sample D). s.seconds) in
      let clean = summarize-sample_count (clean_seconds samples) in
      let left : length samples - count_throttled samples ≡ length (clean_seconds samples) =
        omega (arith, split) in
      (
        refl,
        marked,
        refl,
        rw same refl,
        rw (← same) split,
        omega (arith, split),
        all,
        elim (Bool-cases (leb 3 (length (clean_seconds samples)))) [
          | inl e ↦ rw (left, e) clean
          | inr e ↦ rw (left, e) all
        ],
      )

  result_of : D → List (Sample D) → LegResult D
  result_of throttle_floor samples = leg_result (map (flag throttle_floor) samples)

  get_elem?-result_of :
      (throttle_floor : D) (legs : List (List (Sample D))) (i : ℕ)
      → i < length legs
      → get_elem? (map (result_of throttle_floor) legs) i
        ≡ some (result_of throttle_floor (get_or legs i []))
  get_elem?-result_of throttle_floor [] i lt = absurd (omega (arith, lt))
  get_elem?-result_of throttle_floor (s ∷ legs) zero lt = refl
  get_elem?-result_of throttle_floor (s ∷ legs) (suc i) lt =
      get_elem?-result_of throttle_floor legs i (omega (arith, lt))

-- Whatever the order of the legs, the seed and the clock, the report has a result for each leg and
-- no more, each with as many samples as the options ask for repetitions. A sample is marked as
-- throttled if and only if its clock is known and below the given fraction of the median that the
-- report gives; throttled_count counts those. timing_including_throttled summarises the times of
-- all samples, and timing those of the samples that are not throttled, if there are three of them,
-- else all.
pub run_interleaved-IsComplete :
    {D : Type 0} ⦃d : Double D⦄ (observe : ℕ → ℕ → Observation D) (rng : ℕ → ℕ) (nominal : D)
    (legs : ℕ) (options : RunOptions D) (i : ℕ)
    → i < legs
    → (length (run_interleaved observe rng nominal legs options).legs ≡ legs)
      × (leg : LegResult D) × (get_elem? (run_interleaved observe rng nominal legs options).legs i
          ≡ some leg)
      × IsComplete
          (d.times
            (run_interleaved observe rng nominal legs options).median_observed_mhz
            options.throttle_fraction)
          options.repetitions
          leg
unfolding run_interleaved amount result_of
run_interleaved-IsComplete {D} ⦃d⦄ observe rng nominal legs options i lt =
    let samples = sampled observe rng options legs in
    let throttle_floor =
      d.times (median_clock (observed_clocks samples)) options.throttle_fraction in
    let (measured, len) = sampled_lem observe rng options legs i lt in
    let mine : List (Sample D) = get_or samples i [] in
    (
      length-map samples (result_of throttle_floor) ∙ len,
      result_of throttle_floor mine,
      get_elem?-result_of throttle_floor samples i (omega (arith, lt, len)),
      subst (λ n. IsComplete throttle_floor n (result_of throttle_floor mine))
          (length-map mine (flag throttle_floor) ∙ measured)
          (leg_result-IsComplete throttle_floor (map (flag throttle_floor) mine)
            (flag-AreMarked throttle_floor mine)),
    )
