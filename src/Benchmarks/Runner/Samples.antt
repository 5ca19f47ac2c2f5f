-- ===== src/Benchmarks/Runner/Samples.antt =====
-- Each leg is measured as often as the options ask.
use thunder_bolt_ht.Base.{
  ℕ, zero, suc, ◌+◌, ◌-◌, ◌<◌, ◌≡◌, refl, ap, ◌∙◌, Bool, true, false, ltb, if◌then◌else◌, List, [],
  ◌∷◌, arith, length, length-append, replicate, length-replicate, get_or, count,
}
use thunder_bolt_ht.Benchmarks.Statistics.{Double}
use thunder_bolt_ht.Benchmarks.Runner.{
  Sample, RunOptions, Observation, Progress, push_sample, take_sample, run_slots, reorder,
  run_round, run_rounds, first_order, sampled,
}
use thunder_bolt_ht.Benchmarks.Runner.Shuffle.{count-shuffle, count-first_order}
use thunder_bolt_ht.Benchmarks.Runner.Names.{LegOrder, fixed, reversed, shuffled}

module _ {D : Type 0} where
  -- How many samples leg `i` has.
  unfoldable pub amount : ℕ → List (List (Sample D)) → ℕ
  amount i legs = length (get_or legs i [])

  length-push_sample :
      (legs : List (List (Sample D))) (i : ℕ) (s : Sample D)
      → length (push_sample legs i s) ≡ length legs
  unfolding push_sample
  length-push_sample [] i s = refl
  length-push_sample (xs ∷ xss) zero s = refl
  length-push_sample (xs ∷ xss) (suc i) s = ap suc (length-push_sample xss i s)

  amount-push_sample :
      (legs : List (List (Sample D))) (i j : ℕ) (s : Sample D)
      → j < length legs
      → amount j (push_sample legs i s) ≡ amount j legs + count j (i ∷ [])
  unfolding push_sample amount count
  amount-push_sample [] i j s lt = absurd (omega (arith, lt))
  amount-push_sample (xs ∷ xss) zero zero s lt = omega (arith, length-append xs (s ∷ []))
  amount-push_sample (xs ∷ xss) zero (suc j) s lt = ground arith
  amount-push_sample (xs ∷ xss) (suc i) zero s lt = ground arith
  amount-push_sample (xs ∷ xss) (suc i) (suc j) s lt =
      ground (arith, amount-push_sample xss i j s (omega (arith, lt)))

module _ {D : Type 0} ⦃d : Double D⦄ (observe : ℕ → ℕ → Observation D) where
  run_slots-same :
      (is_warmup : Bool) (slot : ℕ) (order : List ℕ) (p : Progress D)
      → ((run_slots observe is_warmup slot order p).order ≡ p.order)
        × (length (run_slots observe is_warmup slot order p).samples ≡ length p.samples)
  unfolding run_slots
  run_slots-same is_warmup slot [] p = (refl, refl)
  run_slots-same true slot (i ∷ order) p = run_slots-same true (slot + 1) order _
  run_slots-same false slot (i ∷ order) p =
      let r = run_slots-same false (slot + 1) order _ in
      (r.0, r.1 ∙ length-push_sample p.samples i _)

  -- What a round adds to the samples of leg `j`.
  abbrev gain : Bool → ℕ → List ℕ → ℕ
  gain is_warmup j order = if is_warmup then 0 else count j order

  amount-run_slots :
      (is_warmup : Bool) (slot j : ℕ) (order : List ℕ) (p : Progress D)
      → j < length p.samples
      → amount j (run_slots observe is_warmup slot order p).samples
        ≡ amount j p.samples + gain is_warmup j order
  unfolding run_slots count
  amount-run_slots true slot j [] p lt = omega arith
  amount-run_slots false slot j [] p lt = omega arith
  amount-run_slots true slot j (i ∷ order) p lt = amount-run_slots true (slot + 1) j order _ lt
  amount-run_slots false slot j (i ∷ order) p lt =
      let s = take_sample (observe p.runs i) false slot in
      let q : Progress D = record p { runs = p.runs + 1; samples = push_sample p.samples i s } in
      omega (
        arith,
        amount-run_slots false (slot + 1) j order q
            (omega (arith, lt, length-push_sample p.samples i s)),
        amount-push_sample p.samples i j s lt,
      )

  module _ (rng : ℕ → ℕ) (options : RunOptions D) where
    count-reorder :
        (leg_order : LegOrder) (j : ℕ) (p : Progress D)
        → (count j (reorder rng leg_order p).order ≡ count j p.order)
          × ((reorder rng leg_order p).samples ≡ p.samples)
    unfolding reorder
    count-reorder fixed j p = (refl, refl)
    count-reorder reversed j p = (refl, refl)
    count-reorder shuffled j p =
        (count-shuffle rng (length p.order) p.draws j p.order (omega arith), refl)

    -- The rounds from `round` on that are no warm-ups, of `rounds`.
    measured : ℕ → ℕ → ℕ
    measured zero round = 0
    measured (suc rounds) round =
        (if ltb round options.warmup then 0 else 1) + measured rounds (round + 1)

    run_round-amount :
        (round j : ℕ) (p : Progress D)
        → j < length p.samples
        → count j p.order ≡ 1
        → (amount j (run_round observe rng options round p).samples
            ≡ amount j p.samples + (if ltb round options.warmup then 0 else 1))
          × (count j (run_round observe rng options round p).order ≡ 1)
          × (length (run_round observe rng options round p).samples ≡ length p.samples)
    unfolding run_round
    run_round-amount round j p lt once =
        let q = reorder rng options.leg_order p in
        let w = ltb round options.warmup in
        let (named, kept) = count-reorder options.leg_order j p in
        let (same_order, same_length) = run_slots-same w 0 q.order q in
        let len = ap length kept in
        (
          ground (
            arith,
            named,
            once,
            ap (amount j) kept,
            amount-run_slots w 0 j q.order q (omega (arith, lt, len)),
          ),
          omega (arith, ap (count j) same_order, named, once),
          omega (arith, same_length, len),
        )

    run_rounds-amount :
        (rounds round j : ℕ) (p : Progress D)
        → j < length p.samples
        → count j p.order ≡ 1
        → (amount j (run_rounds observe rng options rounds round p).samples
            ≡ amount j p.samples + measured rounds round)
          × (length (run_rounds observe rng options rounds round p).samples ≡ length p.samples)
    unfolding run_rounds measured
    run_rounds-amount zero round j p lt once = (omega arith, refl)
    run_rounds-amount (suc rounds) round j p lt once =
        let one = run_round-amount round j p lt once in
        let rest =
          run_rounds-amount rounds (round + 1) j (run_round observe rng options round p)
            (omega (arith, lt, one.2)) one.1 in
        (omega (arith, one.0, rest.0), rest.1 ∙ one.2)

    measured_all : (rounds round : ℕ) → measured rounds round ≡ rounds - (options.warmup - round)
    unfolding measured
    measured_all zero round = omega arith
    measured_all (suc rounds) round = ground (arith, measured_all rounds (round + 1))

    -- After the last round, each leg has as many samples as the options ask.
    pub sampled_lem :
        (legs j : ℕ)
        → j < legs
        → (amount j (sampled observe rng options legs) ≡ options.repetitions)
          × (length (sampled observe rng options legs) ≡ legs)
    unfolding sampled amount
    sampled_lem legs j lt =
        let len : length (replicate {A = List (Sample D)} legs []) ≡ legs =
          length-replicate legs [] in
        let p : Progress D = record {
          order = first_order options.leg_order legs;
          draws = 0;
          runs = 0;
          samples = replicate legs [];
        } in
        let r =
          run_rounds-amount (options.warmup + options.repetitions) 0 j p (omega (arith, lt, len))
            (count-first_order options.leg_order legs j lt) in
        (
          omega (
            arith,
            r.0,
            measured_all (options.warmup + options.repetitions) 0,
            nothing_yet legs j,
          ),
          r.1 ∙ len,
        )
      where
        nothing_yet : (n i : ℕ) → length (get_or (replicate {A = List (Sample D)} n []) i []) ≡ 0
        nothing_yet zero i = refl
        nothing_yet (suc n) zero = refl
        nothing_yet (suc n) (suc i) = nothing_yet n i
