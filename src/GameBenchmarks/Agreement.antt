-- ===== src/GameBenchmarks/Agreement.antt =====
-- All legs of a benchmark agree on the final state.
use thunder_bolt_ht.Base.{
  ℕ, ◌≤◌, ◌≡◌, refl, sym, ap, subst, ◌∙◌, true, false, ◌==◌, ==_self, List, [], ◌∷◌, length,
  Bool-cases, inl, inr,
}
use thunder_bolt_ht.Engine.Math.{Float}
use thunder_bolt_ht.Engine.World.{World, swap_buffers, advance_tick}
use thunder_bolt_ht.Engine.Systems.{batch_count_for}
use thunder_bolt_ht.Engine.Simulation.{Stage, tick_serial}
use thunder_bolt_ht.Engine.Simulation.Tick.{claims_of, IsSized}
use thunder_bolt_ht.Engine.Simulation.Runs.{tick-same_world}
use thunder_bolt_ht.Engine.StateHash.{hash_state}
use thunder_bolt_ht.GameBenchmarks.{
  SimLeg, serial_leg, runtime_leg, Verification, not_verified, compare_hash, serial_ticks,
  runtime_ticks, run_leg, verify_legs,
}

-- Each schedule claims often enough for a frame of so many vehicles, characters and aircraft.
unfoldable pub AreEnough : ℕ → ℕ → ℕ → List (List Stage) → Type 0
AreEnough vehicles npcs aircraft [] = Unit {0}
AreEnough vehicles npcs aircraft (schedule ∷ schedules) =
    (batch_count_for vehicles ≤ claims_of Stage.vehicle_stage schedule)
    × (batch_count_for npcs ≤ claims_of Stage.npc_stage schedule)
    × (batch_count_for aircraft ≤ claims_of Stage.air_stage schedule)
    × AreEnough vehicles npcs aircraft schedules

-- A leg that runs `ticks` frames on these sizes.
unfoldable pub IsLeg : ℕ → ℕ → ℕ → ℕ → SimLeg → Type 0
IsLeg ticks vehicles npcs aircraft serial_leg = Unit {0}
IsLeg ticks vehicles npcs aircraft (runtime_leg schedules) =
    (length schedules ≡ ticks) × AreEnough vehicles npcs aircraft schedules

unfoldable pub AreLegs : ℕ → ℕ → ℕ → ℕ → List SimLeg → Type 0
AreLegs ticks vehicles npcs aircraft [] = Unit {0}
AreLegs ticks vehicles npcs aircraft (leg ∷ legs) =
    IsLeg ticks vehicles npcs aircraft leg × AreLegs ticks vehicles npcs aircraft legs

-- The legs so far agree, on the hash `hash`.
record IsAgreed (hash : ℕ) (v : Verification) : Type 0 where
  agree : v.all_agree ≡ true
  on_hash : v.first ≡ false → v.reference_hash ≡ hash

not_both : true ≡ false → ⊥
not_both e = cc

first_hash :
    (hash : ℕ) (v : Verification)
    → v.first ≡ true
    → compare_hash hash v ≡ record { reference_hash = hash; first = false; all_agree = v.all_agree }
unfolding compare_hash
first_hash hash v e = rw e refl

same_hash :
    (hash : ℕ) (v : Verification)
    → v.first ≡ false
    → (hash == v.reference_hash) ≡ true
    → compare_hash hash v ≡ v
unfolding compare_hash
same_hash hash v e same = rw (e, same) refl

compare_hash-IsAgreed :
    (hash : ℕ) (v : Verification) → IsAgreed hash v → IsAgreed hash (compare_hash hash v)
compare_hash-IsAgreed hash v h = elim (Bool-cases v.first) [
  | inl e ↦
      subst (IsAgreed hash) (sym (first_hash hash v e))
        record { agree = h.agree; on_hash = λ _. refl }
  | inr e ↦ subst (IsAgreed hash) (sym (same_hash hash v e (rw (h.on_hash e) (==_self hash)))) h
]

module _ {F : Type 0} ⦃o : Float F⦄ where
  tick_serial-IsSized : (w : World F) → IsSized w → IsSized (tick_serial w)
  unfolding tick_serial swap_buffers advance_tick
  tick_serial-IsSized w ws = record {
    vehicles_sized = sym ws.vehicles_sized;
    npcs_sized = sym ws.npcs_sized;
    aircraft_sized = sym ws.aircraft_sized;
  }

  same_sizes :
      (w : World F) (schedules : List (List Stage))
      → IsSized w
      → AreEnough w.current.vehicles.size w.current.npcs.size w.current.aircraft.size schedules
      → AreEnough
          (tick_serial w).current.vehicles.size
          (tick_serial w).current.npcs.size
          (tick_serial w).current.aircraft.size
          schedules
  unfolding tick_serial swap_buffers advance_tick
  same_sizes w schedules ws enough = rw (ws.vehicles_sized, ws.npcs_sized, ws.aircraft_sized) enough

  runtime_ticks-serial_ticks :
      (w : World F) (schedules : List (List Stage))
      → IsSized w
      → AreEnough w.current.vehicles.size w.current.npcs.size w.current.aircraft.size schedules
      → runtime_ticks schedules w ≡ serial_ticks (length schedules) w
  unfolding runtime_ticks serial_ticks AreEnough
  runtime_ticks-serial_ticks w [] ws enough = refl
  runtime_ticks-serial_ticks w (schedule ∷ schedules) ws enough =
      ap (runtime_ticks schedules) (tick-same_world w schedule enough.0 enough.1 enough.2)
      ∙ runtime_ticks-serial_ticks (tick_serial w) schedules (tick_serial-IsSized w ws)
          (same_sizes w schedules ws enough.3)

  run_leg-serial_ticks :
      (ticks : ℕ) (w : World F) (leg : SimLeg)
      → IsSized w
      → IsLeg ticks w.current.vehicles.size w.current.npcs.size w.current.aircraft.size leg
      → run_leg ticks w leg ≡ serial_ticks ticks w
  unfolding run_leg IsLeg
  run_leg-serial_ticks ticks w serial_leg ws ok = refl
  run_leg-serial_ticks ticks w (runtime_leg schedules) ws ok =
      runtime_ticks-serial_ticks w schedules ws ok.1 ∙ ap (λ n. serial_ticks n w) ok.0

  -- The hash of the state after `ticks` frames without the runtime.
  abbrev serial_hash : (F → ℕ) → ℕ → World F → ℕ
  serial_hash bits ticks w = hash_state bits (serial_ticks ticks w).current

  verify_legs-IsAgreed :
      (bits : F → ℕ) (ticks : ℕ) (w : World F) (legs : List SimLeg) (v : Verification)
      → IsSized w
      → AreLegs ticks w.current.vehicles.size w.current.npcs.size w.current.aircraft.size legs
      → IsAgreed (serial_hash bits ticks w) v
      → IsAgreed (serial_hash bits ticks w) (verify_legs bits ticks w legs v)
  unfolding verify_legs AreLegs
  verify_legs-IsAgreed bits ticks w [] v ws ok h = h
  verify_legs-IsAgreed bits ticks w (leg ∷ legs) v ws ok h =
      verify_legs-IsAgreed bits ticks w legs
        (compare_hash (hash_state bits (run_leg ticks w leg).current) v) ws ok.1
        (subst (λ hash. IsAgreed (serial_hash bits ticks w) (compare_hash hash v))
          (ap (λ u. hash_state bits u.current) (sym (run_leg-serial_ticks ticks w leg ws ok.0)))
          (compare_hash-IsAgreed (serial_hash bits ticks w) v h))

  -- Whatever legs a benchmark compares, without a runtime or on one, with as many schedules as ticks
  -- and enough claims in each, in whatever order they interleave, from a world whose buffers have the
  -- same sizes, the check at its end finds that all legs agree on the final state.
  pub verify_legs-all_agree :
      (bits : F → ℕ) (ticks : ℕ) (w : World F) (legs : List SimLeg)
      → IsSized w
      → AreLegs ticks w.current.vehicles.size w.current.npcs.size w.current.aircraft.size legs
      → (verify_legs bits ticks w legs not_verified).all_agree ≡ true
  verify_legs-all_agree bits ticks w legs ws ok =
      (verify_legs-IsAgreed bits ticks w legs not_verified ws ok
        (record { agree = refl; on_hash = λ e. absurd (not_both e) })).agree
