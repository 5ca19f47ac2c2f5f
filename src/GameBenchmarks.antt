-- ===== src/GameBenchmarks.antt =====
-- game_benchmarks/SimBenchmark.cpp: the comparison of runtimes on the simulation, and its check that
-- every leg ends in the same state.
--
-- A leg on a runtime has the schedule of the claims of each tick, whichever the scheduler, the
-- optimisations and the number of workers are. The leg of Taskflow is a third party's, and left out.
pub mod Agreement
use thunder_bolt_ht.Base.{ℕ, zero, suc, ◌+◌, Bool, true, false, ◌==◌, if◌then◌else◌, List, [], ◌∷◌}
use thunder_bolt_ht.Engine.Math.{Float}
use thunder_bolt_ht.Engine.World.{World}
use thunder_bolt_ht.Engine.Simulation.{Stage, tick, tick_serial}
use thunder_bolt_ht.Engine.StateHash.{hash_state}

pub data SimLeg : Type 0 where
  serial_leg : SimLeg
  runtime_leg : List (List Stage) → SimLeg

-- `reference_hash`, `first` and `all_agree`.
pub record Verification : Type 0 where
  pub reference_hash : ℕ
  pub first : Bool
  pub all_agree : Bool

abbrev pub not_verified : Verification
not_verified = record { reference_hash = 0; first = true; all_agree = true }

-- What the loop does with the hash of a leg.
unfoldable pub compare_hash : ℕ → Verification → Verification
compare_hash hash v =
    if v.first
    then record { reference_hash = hash; first = false; all_agree = v.all_agree }
    else if hash == v.reference_hash
    then v
    else record v { all_agree = false }

module _ {F : Type 0} ⦃o : Float F⦄ where
  unfoldable pub serial_ticks : ℕ → World F → World F
  serial_ticks zero w = w
  serial_ticks (suc ticks) w = serial_ticks ticks (tick_serial w)

  -- A tick on the runtime for each schedule.
  unfoldable pub runtime_ticks : List (List Stage) → World F → World F
  runtime_ticks [] w = w
  runtime_ticks (schedule ∷ schedules) w = runtime_ticks schedules (tick schedule w)

  unfoldable pub run_leg : ℕ → World F → SimLeg → World F
  run_leg ticks w serial_leg = serial_ticks ticks w
  run_leg ticks w (runtime_leg schedules) = runtime_ticks schedules w

  -- The loop over the legs, each from the same world.
  unfoldable pub verify_legs : (F → ℕ) → ℕ → World F → List SimLeg → Verification → Verification
  verify_legs bits ticks w [] v = v
  verify_legs bits ticks w (leg ∷ legs) v =
      verify_legs bits ticks w legs (compare_hash (hash_state bits (run_leg ticks w leg).current) v)
