-- ===== src/Tests/Engine.antt =====
-- Two frames that start from the same state, in a world over numbers instead of floats.
use thunder_bolt_ht.Base.{
  ℕ, ◌+◌, ◌-◌, ◌*◌, ◌/◌, ◌%◌, ◌≡◌, length, ltb, leb, true, refl, arith, List, [], ◌∷◌,
}
use thunder_bolt_ht.Engine.Math.{Float}
use thunder_bolt_ht.Engine.World.{World, resize}
use thunder_bolt_ht.Engine.StateHash.{hash_to_string}
use thunder_bolt_ht.GameBenchmarks.{SimLeg, serial_leg, runtime_leg, verify_legs, not_verified}
use thunder_bolt_ht.GameBenchmarks.Agreement.{AreLegs, IsLeg, AreEnough, verify_legs-all_agree}
use thunder_bolt_ht.Engine.StateHash.Hex.{of_hex, of_hex-hash_to_string}
use thunder_bolt_ht.Engine.Simulation.{Stage, tick, tick_serial}
use thunder_bolt_ht.Engine.Simulation.Tick.{IsSized, SameState, claims_of, tick-eq-tick_serial}

instance whole : Float ℕ
whole = record {
  lit = λ n d. n;
  of_int = λ n. n;
  plus = λ a b. a + b;
  minus = λ a b. a - b;
  times = λ a b. a * b;
  over = λ a b. a / b;
  fmod = λ a b. a % b;
  pow = λ a b. a;
  sqrt = λ a. a;
  cos = λ a. 1;
  sin = λ a. 0;
  abs = λ a. a;
  negate = λ a. 0;
  lt = ltb;
  le = leb;
}

abbrev small : World ℕ
small = record { current = resize 40 3 1; next = resize 40 3 1; seed = 7; tick = 0 }

-- Five tasks claim in turns.
abbrev turns : List Stage
turns =
    Stage.npc_stage ∷ Stage.vehicle_stage ∷ Stage.air_stage ∷ Stage.vehicle_stage
    ∷ Stage.vehicle_stage ∷ []

small-IsSized : IsSized small
unfolding resize
small-IsSized = record { vehicles_sized = refl; npcs_sized = refl; aircraft_sized = refl }

tick-eq-tick_serial_example :
    SameState (tick turns small).current (tick_serial small).current
    × ((tick turns small).tick ≡ (tick_serial small).tick)
    × IsSized (tick turns small)
unfolding claims_of resize
tick-eq-tick_serial_example =
    tick-eq-tick_serial small small turns small-IsSized small-IsSized refl refl (omega arith)
      (omega arith) (omega arith)

-- Two ticks without a runtime, and on two whose tasks take other turns.
abbrev legs : List SimLeg
legs =
    serial_leg
    ∷ runtime_leg (turns ∷ turns ∷ [])
    ∷ runtime_leg (
        (Stage.air_stage ∷ Stage.vehicle_stage ∷ Stage.vehicle_stage ∷ Stage.npc_stage ∷ [])
        ∷ turns
        ∷ [])
    ∷ []

verify_legs-all_agree_example : (verify_legs (λ v. v) 2 small legs not_verified).all_agree ≡ true
unfolding AreLegs IsLeg AreEnough claims_of resize
verify_legs-all_agree_example =
    verify_legs-all_agree (λ v. v) 2 small legs small-IsSized
      (
        tt,
        (
          (
            refl,
            (omega arith, omega arith, omega arith, (omega arith, omega arith, omega arith, tt)),
          ),
          (
            (
              refl,
              (omega arith, omega arith, omega arith, (omega arith, omega arith, omega arith, tt)),
            ),
            tt,
          ),
        ),
      )

of_hex-hash_to_string_example :
    (length (hash_to_string 0x1f) ≡ 16) × (of_hex 0 (hash_to_string 0x1f) ≡ 31)
of_hex-hash_to_string_example = of_hex-hash_to_string 0x1f (omega arith)
