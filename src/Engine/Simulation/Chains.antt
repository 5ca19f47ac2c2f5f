-- ===== src/Engine/Simulation/Chains.antt =====
-- What each chain makes of one entity of its range: a function of the last frame alone.
use thunder_bolt_ht.Base.{
  ℕ, ◌<◌, ◌≡◌, refl, ap, ◌∙◌, true, false, ◌==◌, arith, Bool-cases, inl, inr,
}
use thunder_bolt_ht.Engine.Math.{Float}
use thunder_bolt_ht.Engine.World.{WorldState, Vehicle, Npc, Aircraft, SimLod}
use thunder_bolt_ht.Engine.Systems.{stage, substeps_for}
use thunder_bolt_ht.Engine.Systems.Vehicles.{
  driven, substeps, substep, vehicle_lod, vehicle_physics, update_vehicle_chain,
}
use thunder_bolt_ht.Engine.Systems.Npcs.{
  npc_lod, npc_perception, npc_decision, npc_movement, update_npc_perception, update_npc_chain,
}
use thunder_bolt_ht.Engine.Systems.Aircraft.{
  aircraft_atmosphere, aircraft_aerodynamics, aircraft_propulsion, aircraft_integrate,
  update_aircraft_chain,
}
use thunder_bolt_ht.Engine.Simulation.Stages.{in_range, stage_in, stage_out, Settles}

module _ {F : Type 0} ⦃o : Float F⦄ (inp : WorldState F) where
  -- What a chain makes of one entity. The argument of the first stage does not matter.
  pub vehicle_of : ℕ → Vehicle F
  vehicle_of j = vehicle_physics inp j (vehicle_lod inp j (inp.vehicles.at j))

  pub npc_of : ℕ → Npc F
  npc_of j =
      npc_movement inp j (npc_decision inp j (npc_perception inp j (npc_lod inp j (inp.npcs.at j))))

  pub aircraft_of : ℕ → Aircraft F
  aircraft_of j = aircraft_integrate inp j (
      aircraft_propulsion inp j
        (aircraft_aerodynamics inp j (aircraft_atmosphere inp j (inp.aircraft.at j))))

  -- There is a substep at least, and it writes the wheel load.
  driven-wheel_load :
      (before : Vehicle F) (lod : SimLod) (a b : F) → driven before lod a ≡ driven before lod b
  unfolding driven substeps substep substeps_for
  driven-wheel_load before SimLod.full a b = refl
  driven-wheel_load before SimLod.reduced a b = refl
  driven-wheel_load before SimLod.simple a b = refl
  driven-wheel_load before SimLod.distant a b = refl

  vehicle_blind :
      (j : ℕ) (v w : Vehicle F)
      → vehicle_physics inp j (vehicle_lod inp j v) ≡ vehicle_physics inp j (vehicle_lod inp j w)
  unfolding vehicle_physics vehicle_lod
  vehicle_blind j v w =
      rw (driven-wheel_load (inp.vehicles.at j) (vehicle_lod inp j w).lod v.wheel_load w.wheel_load)
        refl

  npc_blind :
      (j : ℕ) (n m : Npc F)
      → npc_movement inp j (npc_decision inp j (npc_perception inp j (npc_lod inp j n)))
        ≡ npc_movement inp j (npc_decision inp j (npc_perception inp j (npc_lod inp j m)))
  unfolding npc_movement npc_decision npc_perception npc_lod
  npc_blind j n m = refl

  aircraft_blind :
      (j : ℕ) (a b : Aircraft F)
      → aircraft_integrate inp j
          (aircraft_propulsion inp j (aircraft_aerodynamics inp j (aircraft_atmosphere inp j a)))
        ≡ aircraft_integrate inp j
            (aircraft_propulsion inp j (aircraft_aerodynamics inp j (aircraft_atmosphere inp j b)))
  unfolding aircraft_integrate aircraft_propulsion aircraft_aerodynamics aircraft_atmosphere
  aircraft_blind j a b = refl

  pub vehicles-Settles : Settles (update_vehicle_chain inp) vehicle_of inp.vehicles.size
  unfolding update_vehicle_chain vehicle_of
  vehicles-Settles = record {
    inside = λ begin stop out j lt h.
        stage_in (vehicle_physics inp) begin stop (stage (vehicle_lod inp) begin stop out) j h
        ∙ ap (vehicle_physics inp j) (stage_in (vehicle_lod inp) begin stop out j h)
        ∙ vehicle_blind j (out j) (inp.vehicles.at j);
    outside = λ begin stop out j h.
        stage_out (vehicle_physics inp) begin stop (stage (vehicle_lod inp) begin stop out) j h
        ∙ stage_out (vehicle_lod inp) begin stop out j h;
  }

  perception_out :
      (begin stop : ℕ) (out : ℕ → Npc F) (j : ℕ)
      → in_range begin stop j ≡ false
      → update_npc_perception inp begin stop out j ≡ out j
  unfolding update_npc_perception
  perception_out begin stop out j h = elim (Bool-cases (inp.npcs.size == 0)) [
    | inl none_there ↦ rw none_there refl
    | inr some_there ↦ rw some_there (stage_out (npc_perception inp) begin stop out j h)
  ]

  perception_in :
      (begin stop : ℕ) (out : ℕ → Npc F) (j : ℕ)
      → j < inp.npcs.size
      → in_range begin stop j ≡ true
      → update_npc_perception inp begin stop out j ≡ npc_perception inp j (out j)
  unfolding update_npc_perception
  perception_in begin stop out j lt h =
      let some_there : (inp.npcs.size == 0) ≡ false = ground (arith, lt) in
      rw some_there (stage_in (npc_perception inp) begin stop out j h)

  pub npcs-Settles : Settles (update_npc_chain inp) npc_of inp.npcs.size
  unfolding update_npc_chain npc_of
  npcs-Settles = record {
    inside = λ begin stop out j lt h.
        let a : ℕ → Npc F = stage (npc_lod inp) begin stop out in
        let b : ℕ → Npc F = update_npc_perception inp begin stop a in
        stage_in (npc_movement inp) begin stop (stage (npc_decision inp) begin stop b) j h
        ∙ ap (npc_movement inp j) (
            stage_in (npc_decision inp) begin stop b j h
            ∙ ap (npc_decision inp j) (
                perception_in begin stop a j lt h
                ∙ ap (npc_perception inp j) (stage_in (npc_lod inp) begin stop out j h)))
        ∙ npc_blind j (out j) (inp.npcs.at j);
    outside = λ begin stop out j h.
        let a : ℕ → Npc F = stage (npc_lod inp) begin stop out in
        let b : ℕ → Npc F = update_npc_perception inp begin stop a in
        stage_out (npc_movement inp) begin stop (stage (npc_decision inp) begin stop b) j h
        ∙ stage_out (npc_decision inp) begin stop b j h
        ∙ perception_out begin stop a j h
        ∙ stage_out (npc_lod inp) begin stop out j h;
  }

  pub aircraft-Settles : Settles (update_aircraft_chain inp) aircraft_of inp.aircraft.size
  unfolding update_aircraft_chain aircraft_of
  aircraft-Settles = record {
    inside = λ begin stop out j lt h.
        let a : ℕ → Aircraft F = stage (aircraft_atmosphere inp) begin stop out in
        let b : ℕ → Aircraft F = stage (aircraft_aerodynamics inp) begin stop a in
        let c : ℕ → Aircraft F = stage (aircraft_propulsion inp) begin stop b in
        stage_in (aircraft_integrate inp) begin stop c j h
        ∙ ap (aircraft_integrate inp j) (
            stage_in (aircraft_propulsion inp) begin stop b j h
            ∙ ap (aircraft_propulsion inp j) (
                stage_in (aircraft_aerodynamics inp) begin stop a j h
                ∙ ap (aircraft_aerodynamics inp j)
                    (stage_in (aircraft_atmosphere inp) begin stop out j h)))
        ∙ aircraft_blind j (out j) (inp.aircraft.at j);
    outside = λ begin stop out j h.
        let a : ℕ → Aircraft F = stage (aircraft_atmosphere inp) begin stop out in
        let b : ℕ → Aircraft F = stage (aircraft_aerodynamics inp) begin stop a in
        let c : ℕ → Aircraft F = stage (aircraft_propulsion inp) begin stop b in
        stage_out (aircraft_integrate inp) begin stop c j h
        ∙ stage_out (aircraft_propulsion inp) begin stop b j h
        ∙ stage_out (aircraft_aerodynamics inp) begin stop a j h
        ∙ stage_out (aircraft_atmosphere inp) begin stop out j h;
  }
