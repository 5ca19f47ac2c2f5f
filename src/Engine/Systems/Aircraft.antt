-- ===== src/Engine/Systems/Aircraft.antt =====
-- engine/core/Systems.cpp: the stages of an aircraft.
use thunder_bolt_ht.Base.{ℕ}
use thunder_bolt_ht.Engine.Math.{
  Float, ◌⊕◌, ◌⊖◌, ◌⊗◌, ◌⊘◌, lit, Vec3, add, scale, magnitude, clampf, wrapf,
}
use thunder_bolt_ht.Engine.World.{WorldState, Aircraft, world_size, fixed_timestep}
use thunder_bolt_ht.Engine.Systems.{stage}

module _ {F : Type 0} ⦃o : Float F⦄ where
  unfoldable pub aircraft_atmosphere : WorldState F → ℕ → Aircraft F → Aircraft F
  aircraft_atmosphere inp i a =
      let altitude = (inp.aircraft.at i).position.y in
      let temperature = lit 28815 2 ⊖ lit 65 4 ⊗ altitude in
      let ratio = clampf (temperature ⊘ lit 28815 2) (lit 1 1) (lit 15 1) in
      record a { air_density = lit 1225 3 ⊗ o.pow ratio (lit 42561 4); altitude = altitude }

  unfoldable pub aircraft_aerodynamics : WorldState F → ℕ → Aircraft F → Aircraft F
  aircraft_aerodynamics inp i a =
      let before = inp.aircraft.at i in
      let speed = magnitude before.velocity in
      let wing_area = lit 6 4 ⊗ before.mass ⊕ lit 160 1 in
      let angle = before.pitch in
      let lift_coeff = clampf (lit 2 1 ⊕ lit 57 1 ⊗ angle) (o.negate (lit 16 1)) (lit 16 1) in
      let drag_coeff = lit 21 3 ⊕ (lift_coeff ⊗ lift_coeff) ⊘ (lit 31416 4 ⊗ lit 80 1 ⊗ lit 8 1) in
      let dynamic_pressure = lit 5 1 ⊗ a.air_density ⊗ speed ⊗ speed in
      record a {
        lift = dynamic_pressure ⊗ wing_area ⊗ lift_coeff;
        drag = dynamic_pressure ⊗ wing_area ⊗ drag_coeff;
      }

  unfoldable pub aircraft_propulsion : WorldState F → ℕ → Aircraft F → Aircraft F
  aircraft_propulsion inp i a =
      let before = inp.aircraft.at i in
      let sea_level_thrust = before.mass ⊗ lit 30 2 in
      record a {
        thrust = sea_level_thrust ⊗ before.throttle ⊗ (a.air_density ⊘ lit 1225 3);
        throttle = before.throttle;
      }

  unfoldable pub aircraft_integrate : WorldState F → ℕ → Aircraft F → Aircraft F
  aircraft_integrate inp i a =
      let before = inp.aircraft.at i in
      let mass = before.mass in
      let forward : Vec3 F = record {
        x = o.cos before.heading;
        y = lit 0 1;
        z = o.sin before.heading;
      } in
      let along = (a.thrust ⊖ a.drag) ⊘ mass in
      let vertical = (a.lift ⊖ mass ⊗ lit 981 2) ⊘ mass in
      let pushed = add before.velocity (scale forward (along ⊗ fixed_timestep)) in
      let velocity = record pushed {
        y = clampf (pushed.y ⊕ vertical ⊗ fixed_timestep) (o.negate (lit 600 1)) (lit 600 1);
      } in
      let moved = add before.position (scale velocity fixed_timestep) in
      let position : Vec3 F = record {
        x = wrapf moved.x world_size;
        y = clampf moved.y (lit 1500 1) (lit 120000 1);
        z = wrapf moved.z world_size;
      } in
      record a {
        position = position;
        velocity = velocity;
        heading = wrapf (before.heading ⊕ o.sin (position.x ⊗ lit 5 4) ⊗ lit 4 3) (lit 62831853 7);
        pitch = clampf (before.pitch ⊖ vertical ⊗ lit 6 4) (o.negate (lit 28 2)) (lit 28 2);
        mass = mass;
      }

  unfoldable pub update_aircraft_chain : WorldState F → ℕ → ℕ → (ℕ → Aircraft F) → ℕ → Aircraft F
  update_aircraft_chain inp begin stop out = stage (aircraft_integrate inp) begin stop (
      stage (aircraft_propulsion inp) begin stop (
        stage (aircraft_aerodynamics inp) begin stop
          (stage (aircraft_atmosphere inp) begin stop out)))
