-- ===== src/Engine/Simulation/Runs.antt =====
-- A frame on the runtime leaves the very world that a frame without it leaves.
use thunder_bolt_ht.Base.{
  ℕ, zero, suc, ◌+◌, ◌*◌, ◌≤◌, ◌<◌, ◌≡◌, refl, sym, ap, ap₂, fun_ext, ◌∙◌, leb, List, [], ◌∷◌,
  arith, Bool-cases, inl, inr, dec_lt,
}
use thunder_bolt_ht.Engine.Math.{Float}
use thunder_bolt_ht.Engine.World.{World, WorldState, swap_buffers, advance_tick}
use thunder_bolt_ht.Engine.Systems.{batch_size, batch_count_for}
use thunder_bolt_ht.Engine.Systems.Vehicles.{update_vehicle_chain}
use thunder_bolt_ht.Engine.Systems.Npcs.{update_npc_chain}
use thunder_bolt_ht.Engine.Systems.Aircraft.{update_aircraft_chain}
use thunder_bolt_ht.Engine.Simulation.{
  Stage, Frame, claim_batch, batch_end, run_batched, serial, claim, run_claims, first_frame,
  written, tick, tick_serial,
}
use thunder_bolt_ht.Engine.Simulation.Stages.{Settles, serial_done, Settled-all}
use thunder_bolt_ht.Engine.Simulation.Chains.{
  vehicle_of, npc_of, aircraft_of, vehicles-Settles, npcs-Settles, aircraft-Settles,
}
use thunder_bolt_ht.Engine.Simulation.Tick.{
  claims_of, Progress, run_claims-Progress, first-Progress, run_claims-cursors,
}

module _ {V : Type 0} (body : ℕ → ℕ → (ℕ → V) → ℕ → V) (full : ℕ → V) (count : ℕ)
    (settles : Settles body full count) where
  body_above :
      (b j : ℕ) (out : ℕ → V) → count ≤ j → body (b * batch_size) (batch_end count b) out j ≡ out j
  body_above b j out le =
      settles.outside (b * batch_size) (batch_end count b) out j (ground (arith, le))

  claim_batch_above : (j : ℕ) (s : ℕ × (ℕ → V)) → count ≤ j → (claim_batch body count s).1 j ≡ s.1 j
  unfolding claim_batch
  claim_batch_above j (b, out) le = elim (Bool-cases (leb (batch_count_for count) b)) [
    | inl over ↦ rw over refl
    | inr more ↦ rw more (body_above b j out le)
  ]

  run_batched_above :
      (rounds b j : ℕ) (out : ℕ → V) → count ≤ j → run_batched body count rounds b out j ≡ out j
  unfolding run_batched
  run_batched_above zero b j out le = refl
  run_batched_above (suc rounds) b j out le =
      run_batched_above rounds (b + 1) j (body (b * batch_size) (batch_end count b) out) le
      ∙ body_above b j out le

  -- What the claims of a stage leave, once they settle each entity, is what the serial pass leaves.
  settled-eq-serial :
      (out done : ℕ → V)
      → ((j : ℕ) → j < count → done j ≡ full j)
      → ((j : ℕ) → count ≤ j → done j ≡ out j)
      → done ≡ serial body count out
  settled-eq-serial out done settled above = fun_ext (λ j. elim (dec_lt j count) [
    | yes lt ↦ settled j lt ∙ sym (serial_done body full count settles out j lt)
    | no ge ↦
        above j (omega (arith, ge))
        ∙ sym (run_batched_above (batch_count_for count) 0 j out (omega (arith, ge)))
  ])

module _ {F : Type 0} ⦃o : Float F⦄ (inp : WorldState F) where
  vehicles_above :
      (f : Frame F) (schedule : List Stage) (j : ℕ)
      → inp.vehicles.size ≤ j
      → (run_claims inp f schedule).vehicles.1 j ≡ f.vehicles.1 j
  unfolding run_claims claim
  vehicles_above f [] j le = refl
  vehicles_above f (Stage.vehicle_stage ∷ schedule) j le =
      vehicles_above (claim inp f Stage.vehicle_stage) schedule j le
      ∙ claim_batch_above (update_vehicle_chain inp) (vehicle_of inp) inp.vehicles.size
          (vehicles-Settles inp) j f.vehicles le
  vehicles_above f (Stage.npc_stage ∷ schedule) j le =
      vehicles_above (claim inp f Stage.npc_stage) schedule j le
  vehicles_above f (Stage.air_stage ∷ schedule) j le =
      vehicles_above (claim inp f Stage.air_stage) schedule j le

  npcs_above :
      (f : Frame F) (schedule : List Stage) (j : ℕ)
      → inp.npcs.size ≤ j
      → (run_claims inp f schedule).npcs.1 j ≡ f.npcs.1 j
  unfolding run_claims claim
  npcs_above f [] j le = refl
  npcs_above f (Stage.npc_stage ∷ schedule) j le =
      npcs_above (claim inp f Stage.npc_stage) schedule j le
      ∙ claim_batch_above (update_npc_chain inp) (npc_of inp) inp.npcs.size (npcs-Settles inp) j
          f.npcs le
  npcs_above f (Stage.vehicle_stage ∷ schedule) j le =
      npcs_above (claim inp f Stage.vehicle_stage) schedule j le
  npcs_above f (Stage.air_stage ∷ schedule) j le =
      npcs_above (claim inp f Stage.air_stage) schedule j le

  aircraft_above :
      (f : Frame F) (schedule : List Stage) (j : ℕ)
      → inp.aircraft.size ≤ j
      → (run_claims inp f schedule).aircraft.1 j ≡ f.aircraft.1 j
  unfolding run_claims claim
  aircraft_above f [] j le = refl
  aircraft_above f (Stage.air_stage ∷ schedule) j le =
      aircraft_above (claim inp f Stage.air_stage) schedule j le
      ∙ claim_batch_above (update_aircraft_chain inp) (aircraft_of inp) inp.aircraft.size
          (aircraft-Settles inp) j f.aircraft le
  aircraft_above f (Stage.vehicle_stage ∷ schedule) j le =
      aircraft_above (claim inp f Stage.vehicle_stage) schedule j le
  aircraft_above f (Stage.npc_stage ∷ schedule) j le =
      aircraft_above (claim inp f Stage.npc_stage) schedule j le

module _ {F : Type 0} ⦃o : Float F⦄ where
  -- A frame on the runtime, with enough claims and in whatever order they interleave, leaves the same
  -- world as a frame without it from the same world: both buffers and the tick.
  pub tick-same_world :
      (w : World F) (schedule : List Stage)
      → batch_count_for w.current.vehicles.size ≤ claims_of Stage.vehicle_stage schedule
      → batch_count_for w.current.npcs.size ≤ claims_of Stage.npc_stage schedule
      → batch_count_for w.current.aircraft.size ≤ claims_of Stage.air_stage schedule
      → tick schedule w ≡ tick_serial w
  unfolding tick tick_serial
  tick-same_world w schedule enough_v enough_n enough_a =
      let inp : WorldState F = w.current in
      let start : Frame F = first_frame w.next in
      let f : Frame F = run_claims inp start schedule in
      let cursors = run_claims-cursors inp start schedule in
      let p : Progress inp f = run_claims-Progress inp start schedule (first-Progress inp w.next) in
      let v : f.vehicles.1
          ≡ serial (update_vehicle_chain inp) inp.vehicles.size w.next.vehicles.at =
        settled-eq-serial (update_vehicle_chain inp) (vehicle_of inp) inp.vehicles.size
          (vehicles-Settles inp) w.next.vehicles.at f.vehicles.1
          (Settled-all (update_vehicle_chain inp) (vehicle_of inp) inp.vehicles.size
            (vehicles-Settles inp) f.vehicles.0 f.vehicles.1 (omega (arith, cursors.0, enough_v))
            p.vehicles_done)
          (vehicles_above inp start schedule) in
      let n : f.npcs.1 ≡ serial (update_npc_chain inp) inp.npcs.size w.next.npcs.at =
        settled-eq-serial (update_npc_chain inp) (npc_of inp) inp.npcs.size (npcs-Settles inp)
          w.next.npcs.at f.npcs.1
          (Settled-all (update_npc_chain inp) (npc_of inp) inp.npcs.size (npcs-Settles inp) f.npcs.0
            f.npcs.1 (omega (arith, cursors.1, enough_n)) p.npcs_done)
          (npcs_above inp start schedule) in
      let a : f.aircraft.1
          ≡ serial (update_aircraft_chain inp) inp.aircraft.size w.next.aircraft.at =
        settled-eq-serial (update_aircraft_chain inp) (aircraft_of inp) inp.aircraft.size
          (aircraft-Settles inp) w.next.aircraft.at f.aircraft.1
          (Settled-all (update_aircraft_chain inp) (aircraft_of inp) inp.aircraft.size
            (aircraft-Settles inp) f.aircraft.0 f.aircraft.1 (omega (arith, cursors.2, enough_a))
            p.aircraft_done)
          (aircraft_above inp start schedule) in
      ap (λ x. advance_tick (swap_buffers (written w f.vehicles.1 f.npcs.1 x))) a
      ∙ ap₂
          (λ vs ns. advance_tick (
            swap_buffers (
              written w vs ns
                (serial (update_aircraft_chain inp) inp.aircraft.size w.next.aircraft.at))))
          v n
