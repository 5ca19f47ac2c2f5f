-- ===== src/Engine/Systems/Vehicles.antt =====
-- engine/core/Systems.cpp: the stages of a vehicle.
use thunder_bolt_ht.Base.{ℕ, zero, suc}
use thunder_bolt_ht.Engine.Math.{
  Float, ◌⊕◌, ◌⊖◌, ◌⊗◌, ◌⊘◌, lit, Vec3, add, sub, scale, magnitude, clampf, wrapf,
}
use thunder_bolt_ht.Engine.World.{WorldState, Vehicle, SimLod, world_size, fixed_timestep}
use thunder_bolt_ht.Engine.Systems.{lod_for_distance, substeps_for, stage}

-- What the loop over the substeps changes.
pub record Motion (F : Type 0) : Type 0 where
  pub position : Vec3 F
  pub velocity : Vec3 F
  pub heading : F
  pub rpm : F
  pub wheel_load : F

module _ {F : Type 0} ⦃o : Float F⦄ where
  unfoldable pub vehicle_lod : WorldState F → ℕ → Vehicle F → Vehicle F
  vehicle_lod inp i v = record v {
    lod = lod_for_distance (magnitude (sub (inp.vehicles.at i).position inp.player_position));
  }

  -- One substep of the vehicle `before`, over the time `dt`.
  unfoldable pub substep : Vehicle F → F → Motion F → Motion F
  substep before dt m =
      let mass = before.mass in
      let throttle = before.throttle in
      let speed = magnitude m.velocity in
      let normalized_rpm = clampf (m.rpm ⊘ lit 65000 1) (lit 0 1) (lit 12 1) in
      let torque =
        lit 3200 1
        ⊗ throttle
        ⊗ (lit 10 1 ⊖ (normalized_rpm ⊖ lit 55 2) ⊗ (normalized_rpm ⊖ lit 55 2) ⊗ lit 22 1) in
      let wheel_force = clampf torque (lit 0 1) (lit 4000 1) ⊗ lit 34 1 ⊘ lit 32 2 in
      let slip = clampf (wheel_force ⊘ (mass ⊗ lit 981 2)) (o.negate (lit 10 1)) (lit 10 1) in
      let grip_force = slip ⊗ mass ⊗ lit 981 2 ⊗ lit 95 2 in
      let drag = lit 5 1 ⊗ lit 1225 3 ⊗ lit 31 2 ⊗ lit 22 1 ⊗ speed ⊗ speed in
      let rolling = lit 15 3 ⊗ mass ⊗ lit 981 2 in
      let net_force = grip_force ⊖ drag ⊖ rolling in
      let acceleration = net_force ⊘ mass in
      let heading = wrapf (m.heading ⊕ before.steer ⊗ dt ⊗ lit 6 1) (lit 62831853 7) in
      let forward : Vec3 F = record { x = o.cos heading; y = lit 0 1; z = o.sin heading } in
      let velocity = scale (add m.velocity (scale forward (acceleration ⊗ dt))) (lit 999 3) in
      record {
        position = add m.position (scale velocity dt);
        velocity = velocity;
        heading = heading;
        rpm =
            clampf (o.abs (magnitude velocity) ⊗ lit 34 1 ⊘ lit 32 2 ⊗ lit 9549 3) (lit 8000 1)
              (lit 72000 1);
        wheel_load = mass ⊗ lit 981 2 ⊗ lit 25 2 ⊕ acceleration ⊗ mass ⊗ lit 8 2;
      }

  unfoldable pub substeps : ℕ → Vehicle F → F → Motion F → Motion F
  substeps zero before dt m = m
  substeps (suc steps) before dt m = substeps steps before dt (substep before dt m)

  -- The loop over the substeps, of the vehicle that `out` holds with `lod` and `wheel_load`.
  unfoldable pub driven : Vehicle F → SimLod → F → Motion F
  driven before lod wheel_load =
      let steps = substeps_for lod in
      substeps steps before (fixed_timestep ⊘ o.of_int steps) (record {
        position = before.position;
        velocity = before.velocity;
        heading = before.heading;
        rpm = before.engine_rpm;
        wheel_load = wheel_load;
      })

  -- `lod` was written by the stage before.
  unfoldable pub vehicle_physics : WorldState F → ℕ → Vehicle F → Vehicle F
  vehicle_physics inp i v =
      let before = inp.vehicles.at i in
      let m = driven before v.lod v.wheel_load in
      let end = m.position in
      let position = record end { x = wrapf end.x world_size; z = wrapf end.z world_size } in
      record v {
        wheel_load = m.wheel_load;
        position = position;
        velocity = m.velocity;
        heading = m.heading;
        engine_rpm = m.rpm;
        throttle = before.throttle;
        mass = before.mass;
        lane = before.lane;
        steer =
            clampf (o.sin (position.x ⊗ lit 1 2 ⊕ o.of_int before.lane) ⊗ lit 25 2)
              (o.negate (lit 5 1)) (lit 5 1);
      }

  unfoldable pub update_vehicle_chain : WorldState F → ℕ → ℕ → (ℕ → Vehicle F) → ℕ → Vehicle F
  update_vehicle_chain inp begin stop out =
      stage (vehicle_physics inp) begin stop (stage (vehicle_lod inp) begin stop out)
