-- ===== src/Benchmarks/Runner.antt =====
-- thunderbolt/benchmarks/harness/BenchmarkRunner.cpp: the legs of a comparison, run in turns.
--
-- What a leg's run takes and the clock around it are a parameter, from the number of the run and the
-- leg; so are the numbers that std::mt19937_64 draws from the seed. The sleep between two runs and the
-- counters that a leg records for itself are left out. A negative number of rounds is 0 here.
pub mod Names
pub mod Shuffle
pub mod Samples
pub mod Results
use thunder_bolt_ht.Base.{
  ℕ, zero, suc, ◌+◌, ◌-◌, ◌%◌, Bool, true, false, not, ◌&&◌, ltb, leb, ◌==◌, if◌then◌else◌, List,
  [], ◌∷◌, ◌++◌, map, reverse, length, get_or, set, replicate,
}
use thunder_bolt_ht.Benchmarks.Statistics.{Double, nought, Summary, summarize}
use thunder_bolt_ht.Benchmarks.Runner.Names.{LegOrder, fixed, reversed, shuffled}

pub record Sample (D : Type 0) : Type 0 where
  pub seconds : D
  pub clock_mhz : D
  pub throttled : Bool
  pub warmup : Bool
  pub position : ℕ

pub record LegResult (D : Type 0) : Type 0 where
  pub samples : List (Sample D)
  pub timing : Summary D
  pub timing_including_throttled : Summary D
  pub throttled_count : ℕ

pub record RunOptions (D : Type 0) : Type 0 where
  pub leg_order : LegOrder
  pub repetitions : ℕ
  pub warmup : ℕ
  pub throttle_fraction : D

pub record RunReport (D : Type 0) : Type 0 where
  pub legs : List (LegResult D)
  pub nominal_max_mhz : D
  pub median_observed_mhz : D
  pub clock_unavailable : Bool

-- What one run of a leg takes, with the clock before and after it.
pub record Observation (D : Type 0) : Type 0 where
  pub mhz_before : D
  pub seconds : D
  pub mhz_after : D

-- The order of the legs, how many numbers were drawn, how many runs there were, and the samples of
-- each leg.
pub record Progress (D : Type 0) : Type 0 where
  pub order : List ℕ
  pub draws : ℕ
  pub runs : ℕ
  pub samples : List (List (Sample D))

-- std::iota from `i`.
unfoldable pub iota : ℕ → ℕ → List ℕ
iota zero i = []
iota (suc n) i = i ∷ iota n (i + 1)

unfoldable pub swap_slots : List ℕ → ℕ → ℕ → List ℕ
swap_slots order i j = set (set order i (get_or order j 0)) j (get_or order i 0)

-- The loop from `k` down, where `draws` numbers were drawn before.
unfoldable pub shuffle : (ℕ → ℕ) → ℕ → ℕ → List ℕ → List ℕ
shuffle rng zero draws order = order
shuffle rng (suc zero) draws order = order
shuffle rng (suc (suc k)) draws order =
    shuffle rng (suc k) (draws + 1) (swap_slots order (suc k) (rng draws % suc (suc k)))

unfoldable pub first_order : LegOrder → ℕ → List ℕ
first_order reversed legs = reverse (iota legs 0)
first_order _ legs = iota legs 0

module _ {D : Type 0} where
  unfoldable pub push_sample : List (List (Sample D)) → ℕ → Sample D → List (List (Sample D))
  push_sample [] i s = []
  push_sample (xs ∷ xss) zero s = (xs ++ s ∷ []) ∷ xss
  push_sample (xs ∷ xss) (suc i) s = xs ∷ push_sample xss i s

  unfoldable pub reorder : (ℕ → ℕ) → LegOrder → Progress D → Progress D
  reorder rng shuffled p = record p {
    order = shuffle rng (length p.order) p.draws p.order;
    draws = p.draws + (length p.order - 1);
  }
  reorder rng _ p = p

module _ {D : Type 0} ⦃d : Double D⦄ where
  unfoldable pub take_sample : Observation D → Bool → ℕ → Sample D
  take_sample o is_warmup slot = record {
    seconds = o.seconds;
    clock_mhz =
        if d.lt nought o.mhz_before && d.lt nought o.mhz_after
        then d.times (d.lit 5 1) (d.plus o.mhz_before o.mhz_after)
        else nought;
    throttled = false;
    warmup = is_warmup;
    position = slot;
  }

  module _ (observe : ℕ → ℕ → Observation D) where
    -- The legs of `order`, from slot `slot` on.
    unfoldable pub run_slots : Bool → ℕ → List ℕ → Progress D → Progress D
    run_slots is_warmup slot [] p = p
    run_slots is_warmup slot (i ∷ order) p = run_slots is_warmup (slot + 1) order record p {
      runs = p.runs + 1;
      samples =
          if is_warmup
          then p.samples
          else push_sample p.samples i (take_sample (observe p.runs i) is_warmup slot);
    }

    unfoldable pub run_round : (ℕ → ℕ) → RunOptions D → ℕ → Progress D → Progress D
    run_round rng options round p =
        let q = reorder rng options.leg_order p in run_slots (ltb round options.warmup) 0 q.order q

    -- The rounds from `round` on, with `rounds` to go.
    unfoldable pub run_rounds : (ℕ → ℕ) → RunOptions D → ℕ → ℕ → Progress D → Progress D
    run_rounds rng options zero round p = p
    run_rounds rng options (suc rounds) round p =
        run_rounds rng options rounds (round + 1) (run_round rng options round p)

    unfoldable pub sampled : (ℕ → ℕ) → RunOptions D → ℕ → List (List (Sample D))
    sampled rng options legs =
        (run_rounds rng options (options.warmup + options.repetitions) 0 record {
          order = first_order options.leg_order legs;
          draws = 0;
          runs = 0;
          samples = replicate legs [];
        }).samples

  unfoldable pub clocks_of : List (Sample D) → List D
  clocks_of [] = []
  clocks_of (s ∷ samples) =
      if d.lt nought s.clock_mhz then s.clock_mhz ∷ clocks_of samples else clocks_of samples

  unfoldable pub observed_clocks : List (List (Sample D)) → List D
  observed_clocks [] = []
  observed_clocks (samples ∷ legs) = clocks_of samples ++ observed_clocks legs

  unfoldable pub median_clock : List D → D
  median_clock clocks = if length clocks == 0 then nought else (summarize clocks).median

  unfoldable pub flag : D → Sample D → Sample D
  flag throttle_floor s = record s {
    throttled = d.lt nought s.clock_mhz && d.lt s.clock_mhz throttle_floor;
  }

  unfoldable pub clean_seconds : List (Sample D) → List D
  clean_seconds [] = []
  clean_seconds (s ∷ samples) =
      if s.throttled then clean_seconds samples else s.seconds ∷ clean_seconds samples

  unfoldable pub count_throttled : List (Sample D) → ℕ
  count_throttled [] = 0
  count_throttled (s ∷ samples) = (if s.throttled then 1 else 0) + count_throttled samples

  unfoldable pub leg_result : List (Sample D) → LegResult D
  leg_result samples =
      let all = summarize (map (λ (s : Sample D). s.seconds) samples) in
      record {
        samples = samples;
        timing =
            if leb 3 (length (clean_seconds samples))
            then summarize (clean_seconds samples)
            else all;
        timing_including_throttled = all;
        throttled_count = count_throttled samples;
      }

  unfoldable pub run_interleaved :
      (ℕ → ℕ → Observation D) → (ℕ → ℕ) → D → ℕ → RunOptions D → RunReport D
  run_interleaved observe rng nominal legs options =
      let samples = sampled observe rng options legs in
      let median = median_clock (observed_clocks samples) in
      let throttle_floor = d.times median options.throttle_fraction in
      record {
        legs = map (λ s. leg_result (map (flag throttle_floor) s)) samples;
        nominal_max_mhz = nominal;
        median_observed_mhz = median;
        clock_unavailable = d.le nominal nought;
      }
