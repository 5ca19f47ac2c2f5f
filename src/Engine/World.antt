-- ===== src/Engine/World.antt =====
-- engine/core/World.hpp and World.cpp: the entities, and the two buffers of a world.
--
-- The parallel vectors of one kind have the same size, since only `resize` sets it, so they are one
-- sequence of records here: `position[i]` is `(at i).position`.
use thunder_bolt_ht.Base.{ℕ, ◌+◌, ◌%◌, ltb, if◌then◌else◌}
use thunder_bolt_ht.Engine.Math.{Float, ◌⊗◌, ◌⊘◌, lit, Vec3, zero_vec, random_range}

pub data SimLod : Type 0 where
  full reduced simple distant : SimLod

pub record Vehicle (F : Type 0) : Type 0 where
  pub position : Vec3 F
  pub velocity : Vec3 F
  pub heading : F
  pub steer : F
  pub throttle : F
  pub engine_rpm : F
  pub wheel_load : F
  pub mass : F
  pub lod : SimLod
  pub lane : ℕ

pub record Npc (F : Type 0) : Type 0 where
  pub position : Vec3 F
  pub velocity : Vec3 F
  pub target : Vec3 F
  pub speed : F
  pub behaviour : ℕ
  pub lod : SimLod
  pub nearest_distance : F
  pub nearest_index : ℕ

pub record Aircraft (F : Type 0) : Type 0 where
  pub position : Vec3 F
  pub velocity : Vec3 F
  pub heading : F
  pub pitch : F
  pub throttle : F
  pub altitude : F
  pub air_density : F
  pub lift : F
  pub drag : F
  pub thrust : F
  pub mass : F

-- The arrays of one kind.
pub record Entities (V : Type 0) : Type 0 where
  pub size : ℕ
  pub at : ℕ → V

pub record WorldState (F : Type 0) : Type 0 where
  pub vehicles : Entities (Vehicle F)
  pub npcs : Entities (Npc F)
  pub aircraft : Entities (Aircraft F)
  pub player_position : Vec3 F

-- `current_` and `next_` point to the two buffers, one each.
pub record World (F : Type 0) : Type 0 where
  pub current : WorldState F
  pub next : WorldState F
  pub seed : ℕ
  pub tick : ℕ

module _ {F : Type 0} where
  unfoldable pub swap_buffers : World F → World F
  swap_buffers w = record w { current = w.next; next = w.current }

  -- The counter does not reach 2 ^ 64.
  unfoldable pub advance_tick : World F → World F
  advance_tick w = record w { tick = w.tick + 1 }

-- A loop of `seed_initial_state` over all the entities of a kind.
pub seed_each : {V : Type 0} → (ℕ → V → V) → Entities V → Entities V
seed_each body e = record e { at = λ i. if ltb i e.size then body i (e.at i) else e.at i }

module _ {F : Type 0} ⦃o : Float F⦄ where
  pub world_size : F
  world_size = lit 50000 1

  pub fixed_timestep : F
  fixed_timestep = lit 10 1 ⊘ lit 600 1

  -- The values that `resize` gives each field.
  pub blank_vehicle : Vehicle F
  blank_vehicle = record {
    position = zero_vec;
    velocity = zero_vec;
    heading = lit 0 1;
    steer = lit 0 1;
    throttle = lit 0 1;
    engine_rpm = lit 0 1;
    wheel_load = lit 0 1;
    mass = lit 15000 1;
    lod = SimLod.full;
    lane = 0;
  }

  pub blank_npc : Npc F
  blank_npc = record {
    position = zero_vec;
    velocity = zero_vec;
    target = zero_vec;
    speed = lit 0 1;
    behaviour = 0;
    lod = SimLod.full;
    nearest_distance = lit 0 1;
    nearest_index = 0;
  }

  pub blank_aircraft : Aircraft F
  blank_aircraft = record {
    position = zero_vec;
    velocity = zero_vec;
    heading = lit 0 1;
    pitch = lit 0 1;
    throttle = lit 0 1;
    altitude = lit 0 1;
    air_density = lit 1225 3;
    lift = lit 0 1;
    drag = lit 0 1;
    thrust = lit 0 1;
    mass = lit 600000 1;
  }

  unfoldable pub resize : ℕ → ℕ → ℕ → WorldState F
  resize vehicle_count npc_count aircraft_count = record {
    vehicles = record { size = vehicle_count; at = λ _. blank_vehicle };
    npcs = record { size = npc_count; at = λ _. blank_npc };
    aircraft = record { size = aircraft_count; at = λ _. blank_aircraft };
    player_position = zero_vec;
  }

  -- The bodies of the three loops of `seed_initial_state`.
  pub seed_vehicle : ℕ → ℕ → Vehicle F → Vehicle F
  seed_vehicle seed index v = record v {
    position = record {
      x = random_range seed index (lit 0 1) world_size 1;
      y = lit 0 1;
      z = random_range seed index (lit 0 1) world_size 2;
    };
    heading = random_range seed index (lit 0 1) (lit 62831853 7) 3;
    throttle = random_range seed index (lit 2 1) (lit 10 1) 4;
    mass = random_range seed index (lit 9000 1) (lit 26000 1) 5;
    lane = index % 4;
    engine_rpm = lit 8000 1;
  }

  pub seed_npc : ℕ → ℕ → Npc F → Npc F
  seed_npc seed index n = record n {
    position = record {
      x = random_range seed index (lit 0 1) world_size 11;
      y = lit 0 1;
      z = random_range seed index (lit 0 1) world_size 12;
    };
    target = record {
      x = random_range seed index (lit 0 1) world_size 13;
      y = lit 0 1;
      z = random_range seed index (lit 0 1) world_size 14;
    };
    speed = random_range seed index (lit 8 1) (lit 22 1) 15;
    behaviour = index % 3;
  }

  pub seed_aircraft : ℕ → ℕ → Aircraft F → Aircraft F
  seed_aircraft seed index a =
      let height = random_range seed index (lit 3000 1) (lit 90000 1) 22 in
      record a {
        position = record {
          x = random_range seed index (lit 0 1) world_size 21;
          y = height;
          z = random_range seed index (lit 0 1) world_size 23;
        };
        altitude = height;
        heading = random_range seed index (lit 0 1) (lit 62831853 7) 24;
        throttle = random_range seed index (lit 5 1) (lit 10 1) 25;
        mass = random_range seed index (lit 12000 1) (lit 2500000 1) 26;
        velocity = record {
          x = random_range seed index (lit 600 1) (lit 2400 1) 27;
          y = lit 0 1;
          z = lit 0 1;
        };
      }

  pub seed_initial_state : ℕ → WorldState F → WorldState F
  seed_initial_state seed state = record state {
    vehicles = seed_each (seed_vehicle seed) state.vehicles;
    npcs = seed_each (seed_npc seed) state.npcs;
    aircraft = seed_each (seed_aircraft seed) state.aircraft;
    player_position = record { x = world_size ⊗ lit 5 1; y = lit 0 1; z = world_size ⊗ lit 5 1 };
  }

  -- The constructor. Both buffers start with the seeded state.
  pub new_world : ℕ → ℕ → ℕ → ℕ → World F
  new_world vehicle_count npc_count aircraft_count seed =
      let seeded = seed_initial_state seed (resize vehicle_count npc_count aircraft_count) in
      record { current = seeded; next = seeded; seed = seed; tick = 0 }
