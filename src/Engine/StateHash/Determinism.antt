-- ===== src/Engine/StateHash/Determinism.antt =====
-- The hash of a frame does not depend on the runtime.
use thunder_bolt_ht.Base.{
  ℕ, zero, suc, ◌+◌, ◌≤◌, ◌<◌, ◌≡◌, refl, ap, ap₂, ◌∙◌, List, [], ◌∷◌, arith,
}
use thunder_bolt_ht.Engine.Math.{Float}
use thunder_bolt_ht.Engine.World.{World, WorldState, Entities}
use thunder_bolt_ht.Engine.Systems.{batch_count_for}
use thunder_bolt_ht.Engine.Simulation.{Stage, tick, tick_serial}
use thunder_bolt_ht.Engine.Simulation.Tick.{
  claims_of, IsSized, SameState, SameEntities, tick-eq-tick_serial,
}
use thunder_bolt_ht.Engine.StateHash.{
  feed_from, feed_array, feed_arrays, feed_vec, hash_state, offset_basis,
}

feed_from_same :
    {V : Type 0} (feed : V → ℕ → ℕ) (rounds i value : ℕ) (a b : ℕ → V)
    → ((j : ℕ) → j < i + rounds → a j ≡ b j)
    → feed_from feed rounds i a value ≡ feed_from feed rounds i b value
unfolding feed_from
feed_from_same feed zero i value a b same = refl
feed_from_same feed (suc rounds) i value a b same =
    feed_from_same feed rounds (i + 1) (feed (a i) value) a b (λ j lt. same j (omega (arith, lt)))
    ∙ ap (λ v. feed_from feed rounds (i + 1) b (feed v value)) (same i (omega arith))

feed_array_same :
    {V : Type 0} (feed : V → ℕ → ℕ) (a b : Entities V) (value : ℕ)
    → SameEntities a b
    → feed_array feed a value ≡ feed_array feed b value
feed_array_same feed a b value (sizes, same) =
    feed_from_same feed a.size 0 value a.at b.at (λ j lt. same j (omega (arith, lt)))
    ∙ ap (λ n. feed_from feed n 0 b.at value) sizes

feed_arrays_same :
    {V : Type 0} (feeds : List (V → ℕ → ℕ)) (a b : Entities V) (value : ℕ)
    → SameEntities a b
    → feed_arrays feeds a value ≡ feed_arrays feeds b value
unfolding feed_arrays
feed_arrays_same [] a b value same = refl
feed_arrays_same (feed ∷ feeds) a b value same =
    feed_arrays_same feeds a b (feed_array feed a value) same
    ∙ ap (feed_arrays feeds b) (feed_array_same feed a b value same)

module _ {F : Type 0} (bits : F → ℕ) where
  hash_state_same : (a b : WorldState F) → SameState a b → hash_state bits a ≡ hash_state bits b
  unfolding hash_state
  hash_state_same a b same =
      ap₂ (λ value p. feed_vec bits p value)
        (feed_arrays_same _ a.aircraft b.aircraft _ same.same_aircraft
          ∙ ap (feed_arrays _ b.aircraft) (
              feed_arrays_same _ a.npcs b.npcs _ same.same_npcs
              ∙ ap (feed_arrays _ b.npcs)
                  (feed_arrays_same _ a.vehicles b.vehicles offset_basis same.same_vehicles)))
        same.same_player

  -- Two worlds with the same current state and tick, whatever their other buffers hold: the state
  -- after a frame on the runtime, with enough claims to go through the batches of each stage and
  -- in whatever order they interleave, has the hash of the state after a frame without it.
  pub hash_state-tick :
      ⦃o : Float F⦄ (w u : World F) (schedule : List Stage)
      → IsSized w
      → IsSized u
      → w.current ≡ u.current
      → w.tick ≡ u.tick
      → batch_count_for w.current.vehicles.size ≤ claims_of Stage.vehicle_stage schedule
      → batch_count_for w.current.npcs.size ≤ claims_of Stage.npc_stage schedule
      → batch_count_for w.current.aircraft.size ≤ claims_of Stage.air_stage schedule
      → hash_state bits (tick schedule w).current ≡ hash_state bits (tick_serial u).current
  hash_state-tick w u schedule ws us same ticks enough_v enough_n enough_a =
      hash_state_same _ _
        (tick-eq-tick_serial w u schedule ws us same ticks enough_v enough_n enough_a).0
