-- ===== src/Engine/Simulation/Tick.antt =====
-- A frame on the runtime against a frame without it.
use thunder_bolt_ht.Base.{
  Bool, ℕ, ◌+◌, ◌≤◌, ◌<◌, ◌≡◌, sym, ap, ◌∙◌, true, false, if◌then◌else◌, List, [], ◌∷◌, arith,
}
use thunder_bolt_ht.Engine.Math.{Float}
use thunder_bolt_ht.Engine.World.{World, WorldState, Entities, swap_buffers, advance_tick}
use thunder_bolt_ht.Engine.Systems.{batch_count_for}
use thunder_bolt_ht.Engine.Systems.Vehicles.{update_vehicle_chain}
use thunder_bolt_ht.Engine.Systems.Npcs.{update_npc_chain}
use thunder_bolt_ht.Engine.Systems.Aircraft.{update_aircraft_chain}
use thunder_bolt_ht.Engine.Simulation.{
  Stage, Frame, claim, run_claims, first_frame, tick, tick_serial,
}
use thunder_bolt_ht.Engine.Simulation.Stages.{
  claim_batch-cursor, Settled, claim_batch-Settled, serial_done, Settled-all,
}
use thunder_bolt_ht.Engine.Simulation.Chains.{
  vehicle_of, npc_of, aircraft_of, vehicles-Settles, npcs-Settles, aircraft-Settles,
}

-- How many claims of a stage a schedule has.
unfoldable pub claims_of : Stage → List Stage → ℕ
claims_of s [] = 0
claims_of s (t ∷ schedule) = (if is_stage s t then 1 else 0) + claims_of s schedule
  where
    is_stage : Stage → Stage → Bool
    is_stage Stage.vehicle_stage Stage.vehicle_stage = true
    is_stage Stage.npc_stage Stage.npc_stage = true
    is_stage Stage.air_stage Stage.air_stage = true
    is_stage _ _ = false

abbrev pub SameEntities : {V : Type 0} → Entities V → Entities V → Type 0
SameEntities a b = (a.size ≡ b.size) × ((j : ℕ) → j < a.size → a.at j ≡ b.at j)

module _ {F : Type 0} where
  -- The two buffers of a world have room for the same entities.
  pub record IsSized (w : World F) : Type 0 where
    pub vehicles_sized : w.next.vehicles.size ≡ w.current.vehicles.size
    pub npcs_sized : w.next.npcs.size ≡ w.current.npcs.size
    pub aircraft_sized : w.next.aircraft.size ≡ w.current.aircraft.size

  -- The same state, in every entity that there is.
  pub record SameState (a b : WorldState F) : Type 0 where
    pub same_vehicles : SameEntities a.vehicles b.vehicles
    pub same_npcs : SameEntities a.npcs b.npcs
    pub same_aircraft : SameEntities a.aircraft b.aircraft
    pub same_player : a.player_position ≡ b.player_position

module _ {F : Type 0} ⦃o : Float F⦄ (inp : WorldState F) where
  -- What the claims of a frame have settled so far.
  pub record Progress (f : Frame F) : Type 0 where
    pub vehicles_done :
        Settled
          (update_vehicle_chain inp)
          (vehicle_of inp)
          inp.vehicles.size
          (vehicles-Settles inp)
          f.vehicles.0
          f.vehicles.1
    pub npcs_done :
        Settled
          (update_npc_chain inp)
          (npc_of inp)
          inp.npcs.size
          (npcs-Settles inp)
          f.npcs.0
          f.npcs.1
    pub aircraft_done :
        Settled
          (update_aircraft_chain inp)
          (aircraft_of inp)
          inp.aircraft.size
          (aircraft-Settles inp)
          f.aircraft.0
          f.aircraft.1

  claim-Progress : (f : Frame F) (s : Stage) → Progress f → Progress (claim inp f s)
  unfolding claim
  claim-Progress f Stage.vehicle_stage p = record {
    vehicles_done =
        (claim_batch-Settled (update_vehicle_chain inp) (vehicle_of inp) inp.vehicles.size
          (vehicles-Settles inp) f.vehicles p.vehicles_done).1;
    npcs_done = p.npcs_done;
    aircraft_done = p.aircraft_done;
  }
  claim-Progress f Stage.npc_stage p = record {
    vehicles_done = p.vehicles_done;
    npcs_done =
        (claim_batch-Settled (update_npc_chain inp) (npc_of inp) inp.npcs.size (npcs-Settles inp)
          f.npcs p.npcs_done).1;
    aircraft_done = p.aircraft_done;
  }
  claim-Progress f Stage.air_stage p = record {
    vehicles_done = p.vehicles_done;
    npcs_done = p.npcs_done;
    aircraft_done =
        (claim_batch-Settled (update_aircraft_chain inp) (aircraft_of inp) inp.aircraft.size
          (aircraft-Settles inp) f.aircraft p.aircraft_done).1;
  }

  pub run_claims-Progress :
      (f : Frame F) (schedule : List Stage) → Progress f → Progress (run_claims inp f schedule)
  unfolding run_claims
  run_claims-Progress f [] p = p
  run_claims-Progress f (s ∷ schedule) p =
      run_claims-Progress (claim inp f s) schedule (claim-Progress f s p)

  pub first-Progress : (out : WorldState F) → Progress (first_frame out)
  first-Progress out = record {
    vehicles_done = λ j lt below. absurd (omega arith);
    npcs_done = λ j lt below. absurd (omega arith);
    aircraft_done = λ j lt below. absurd (omega arith);
  }

  pub run_claims-cursors :
      (f : Frame F) (schedule : List Stage)
      → let r = run_claims inp f schedule in
        (r.vehicles.0 ≡ f.vehicles.0 + claims_of Stage.vehicle_stage schedule)
        × (r.npcs.0 ≡ f.npcs.0 + claims_of Stage.npc_stage schedule)
        × (r.aircraft.0 ≡ f.aircraft.0 + claims_of Stage.air_stage schedule)
  unfolding run_claims claims_of claim
  run_claims-cursors f [] = (omega arith, omega arith, omega arith)
  run_claims-cursors f (Stage.vehicle_stage ∷ schedule) =
      let ih = run_claims-cursors (claim inp f Stage.vehicle_stage) schedule in
      let moved = claim_batch-cursor (update_vehicle_chain inp) inp.vehicles.size f.vehicles in
      (omega (arith, ih.0, moved), omega (arith, ih.1), omega (arith, ih.2))
  run_claims-cursors f (Stage.npc_stage ∷ schedule) =
      let ih = run_claims-cursors (claim inp f Stage.npc_stage) schedule in
      let moved = claim_batch-cursor (update_npc_chain inp) inp.npcs.size f.npcs in
      (omega (arith, ih.0), omega (arith, ih.1, moved), omega (arith, ih.2))
  run_claims-cursors f (Stage.air_stage ∷ schedule) =
      let ih = run_claims-cursors (claim inp f Stage.air_stage) schedule in
      let moved = claim_batch-cursor (update_aircraft_chain inp) inp.aircraft.size f.aircraft in
      (omega (arith, ih.0), omega (arith, ih.1), omega (arith, ih.2, moved))

module _ {F : Type 0} ⦃o : Float F⦄ where
  -- Two worlds with the same current state, whatever their other buffers hold: a frame on the
  -- runtime, with enough claims to go through the batches of each stage and in whatever order the
  -- stages and their claims interleave, ends in the same state and tick as a frame without it, and
  -- leaves the world ready for the next frame.
  pub tick-eq-tick_serial :
      (w u : World F) (schedule : List Stage)
      → IsSized w
      → IsSized u
      → w.current ≡ u.current
      → w.tick ≡ u.tick
      → batch_count_for w.current.vehicles.size ≤ claims_of Stage.vehicle_stage schedule
      → batch_count_for w.current.npcs.size ≤ claims_of Stage.npc_stage schedule
      → batch_count_for w.current.aircraft.size ≤ claims_of Stage.air_stage schedule
      → SameState (tick schedule w).current (tick_serial u).current
        × ((tick schedule w).tick ≡ (tick_serial u).tick)
        × IsSized (tick schedule w)
  unfolding tick tick_serial swap_buffers advance_tick
  tick-eq-tick_serial w u schedule ws us same ticks enough_v enough_n enough_a =
      let inp : WorldState F = w.current in
      let f : Frame F = run_claims inp (first_frame w.next) schedule in
      let cursors = run_claims-cursors inp (first_frame w.next) schedule in
      let done : Progress inp f =
        run_claims-Progress inp (first_frame w.next) schedule (first-Progress inp w.next) in
      (
        record {
          same_vehicles = (
            ws.vehicles_sized ∙ ap (λ s. s.vehicles.size) same ∙ sym us.vehicles_sized,
            λ j lt.
                Settled-all (update_vehicle_chain inp) (vehicle_of inp) inp.vehicles.size
                  (vehicles-Settles inp) f.vehicles.0 f.vehicles.1 (omega (arith, cursors))
                  done.vehicles_done j (omega (arith, ws.vehicles_sized))
                ∙ ap (λ s. vehicle_of s j) same
                ∙ sym (
                    serial_done (update_vehicle_chain u.current) (vehicle_of u.current)
                      u.current.vehicles.size (vehicles-Settles u.current) u.next.vehicles.at j
                      (omega (arith, ws.vehicles_sized, ap (λ s. s.vehicles.size) same))),
          );
          same_npcs = (
            ws.npcs_sized ∙ ap (λ s. s.npcs.size) same ∙ sym us.npcs_sized,
            λ j lt.
                Settled-all (update_npc_chain inp) (npc_of inp) inp.npcs.size (npcs-Settles inp)
                  f.npcs.0 f.npcs.1 (omega (arith, cursors)) done.npcs_done j
                  (omega (arith, ws.npcs_sized))
                ∙ ap (λ s. npc_of s j) same
                ∙ sym (
                    serial_done (update_npc_chain u.current) (npc_of u.current) u.current.npcs.size
                      (npcs-Settles u.current) u.next.npcs.at j
                      (omega (arith, ws.npcs_sized, ap (λ s. s.npcs.size) same))),
          );
          same_aircraft = (
            ws.aircraft_sized ∙ ap (λ s. s.aircraft.size) same ∙ sym us.aircraft_sized,
            λ j lt.
                Settled-all (update_aircraft_chain inp) (aircraft_of inp) inp.aircraft.size
                  (aircraft-Settles inp) f.aircraft.0 f.aircraft.1 (omega (arith, cursors))
                  done.aircraft_done j (omega (arith, ws.aircraft_sized))
                ∙ ap (λ s. aircraft_of s j) same
                ∙ sym (
                    serial_done (update_aircraft_chain u.current) (aircraft_of u.current)
                      u.current.aircraft.size (aircraft-Settles u.current) u.next.aircraft.at j
                      (omega (arith, ws.aircraft_sized, ap (λ s. s.aircraft.size) same))),
          );
          same_player = ap (λ s. s.player_position) same;
        },
        ap (λ t. t + 1) ticks,
        record {
          vehicles_sized = sym ws.vehicles_sized;
          npcs_sized = sym ws.npcs_sized;
          aircraft_sized = sym ws.aircraft_sized;
        },
      )
