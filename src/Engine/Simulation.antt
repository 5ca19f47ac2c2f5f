-- ===== src/Engine/Simulation.antt =====
-- engine/core/Simulation.hpp and Simulation.cpp: one frame, on the runtime and without it.
--
-- On the runtime, the tasks of the three stages claim batches from one cursor for each stage, all at
-- the same time. A schedule lists the claims in the order of their atomic additions. The batch that
-- a claim wins is one step here: it writes its own entities only, and reads of the next frame only
-- these. A cursor does not reach 2 ^ 64. The three waits return when the tasks have left their
-- loops, which each does when its claim is past the last batch.
pub mod Stages
pub mod Chains
pub mod Tick
pub mod Runs
use Prim.Native.String.{String}
use text.Mathlib.Text.{◌==◌ as str_eq}
use thunder_bolt_ht.Base.{
  ℕ, zero, suc, ◌+◌, ◌*◌, leb, ltb, ◌==◌, if◌then◌else◌, List, [], ◌∷◌, Option, none, some,
}
use thunder_bolt_ht.Engine.Math.{Float}
use thunder_bolt_ht.Engine.World.{
  World, WorldState, Entities, Vehicle, Npc, Aircraft, swap_buffers, advance_tick, new_world,
}
use thunder_bolt_ht.Engine.Systems.{batch_size, batch_count_for}
use thunder_bolt_ht.Engine.Systems.Vehicles.{update_vehicle_chain}
use thunder_bolt_ht.Engine.Systems.Npcs.{update_npc_chain}
use thunder_bolt_ht.Engine.Systems.Aircraft.{update_aircraft_chain}

pub record SceneSpec : Type 0 where
  pub name : String
  pub vehicles : ℕ
  pub npcs : ℕ
  pub aircraft : ℕ

abbrev scene : String → ℕ → ℕ → ℕ → SceneSpec
scene name vehicles npcs aircraft = record {
  name = name;
  vehicles = vehicles;
  npcs = npcs;
  aircraft = aircraft;
}

-- `kScenes`
abbrev pub scenes : List SceneSpec
scenes =
    scene "100_npcs" 0 100 0
    ∷ scene "500_npcs" 0 500 0
    ∷ scene "1000_npcs" 0 1000 0
    ∷ scene "50_vehicles" 50 0 0
    ∷ scene "100_vehicles" 100 0 0
    ∷ scene "250_vehicles" 250 0 0
    ∷ scene "5_aircraft" 0 0 5
    ∷ scene "20_aircraft" 0 0 20
    ∷ scene "full_mixed" 250 1000 20
    ∷ scene "stress" 500 2000 40
    ∷ []

pub find_in : String → List SceneSpec → Option SceneSpec
find_in name [] = none
find_in name (s ∷ rest) = if str_eq s.name name then some s else find_in name rest

pub find_scene : String → Option SceneSpec
find_scene name = find_in name scenes

-- The end of batch `b`, and so of its range of `count` entities.
abbrev pub batch_end : ℕ → ℕ → ℕ
batch_end count b =
    if ltb (b * batch_size + batch_size) count then b * batch_size + batch_size else count

-- One round of `claim_batches`: the cursor of the stage, and the entities that `body` writes.
unfoldable pub claim_batch :
    {V : Type 0} → (ℕ → ℕ → (ℕ → V) → ℕ → V) → ℕ → ℕ × (ℕ → V) → ℕ × (ℕ → V)
claim_batch body count (b, out) =
    if leb (batch_count_for count) b
    then (b + 1, out)
    else (b + 1, body (b * batch_size) (batch_end count b) out)

-- `claimants`, and what `submit_stage` adds to `submitted`: the claimants and the barrier.
abbrev pub claimants : ℕ → ℕ → ℕ
claimants workers batches =
    let worker_cap = if workers == 0 then 1 else workers in
    if ltb batches worker_cap then batches else worker_cap

pub submitted : ℕ → ℕ → ℕ
submitted workers entity_count =
    if entity_count == 0 then 0 else claimants workers (batch_count_for entity_count) + 1

pub record FrameStats : Type 0 where
  pub tasks_submitted : ℕ
  pub stages : ℕ

pub data Stage : Type 0 where
  vehicle_stage npc_stage air_stage : Stage

-- The frame under way: each stage's cursor and its part of the next state.
pub record Frame (F : Type 0) : Type 0 where
  pub vehicles : ℕ × (ℕ → Vehicle F)
  pub npcs : ℕ × (ℕ → Npc F)
  pub aircraft : ℕ × (ℕ → Aircraft F)

-- `run_batched`, with `rounds` batches to go from `b` on.
unfoldable pub run_batched : {V : Type 0} → (ℕ → ℕ → (ℕ → V) → ℕ → V) → ℕ → ℕ → ℕ → (ℕ → V) → ℕ → V
run_batched body count zero b out = out
run_batched body count (suc rounds) b out =
    run_batched body count rounds (b + 1) (body (b * batch_size) (batch_end count b) out)

abbrev pub serial : {V : Type 0} → (ℕ → ℕ → (ℕ → V) → ℕ → V) → ℕ → (ℕ → V) → ℕ → V
serial body count out = run_batched body count (batch_count_for count) 0 out

module _ {F : Type 0} ⦃o : Float F⦄ where
  unfoldable pub claim : WorldState F → Frame F → Stage → Frame F
  claim inp f Stage.vehicle_stage = record f {
    vehicles = claim_batch (update_vehicle_chain inp) inp.vehicles.size f.vehicles;
  }
  claim inp f Stage.npc_stage = record f {
    npcs = claim_batch (update_npc_chain inp) inp.npcs.size f.npcs;
  }
  claim inp f Stage.air_stage = record f {
    aircraft = claim_batch (update_aircraft_chain inp) inp.aircraft.size f.aircraft;
  }

  unfoldable pub run_claims : WorldState F → Frame F → List Stage → Frame F
  run_claims inp f [] = f
  run_claims inp f (s ∷ schedule) = run_claims inp (claim inp f s) schedule

  abbrev pub first_frame : WorldState F → Frame F
  first_frame out = record {
    vehicles = (0, out.vehicles.at);
    npcs = (0, out.npcs.at);
    aircraft = (0, out.aircraft.at);
  }

  -- `next` with the entities written, and the player copied from `current`.
  abbrev pub written : World F → (ℕ → Vehicle F) → (ℕ → Npc F) → (ℕ → Aircraft F) → World F
  written w vehicles npcs aircraft =
      let out = w.next in
      let inp = w.current in
      let v = out.vehicles in
      let n = out.npcs in
      let a = out.aircraft in
      record w {
        next = record {
          vehicles = record v { at = vehicles };
          npcs = record n { at = npcs };
          aircraft = record a { at = aircraft };
          player_position = inp.player_position;
        };
      }

  -- `tick`, with the frame's statistics for a runtime of `workers` workers.
  unfoldable pub tick : List Stage → World F → World F
  tick schedule w =
      let f = run_claims w.current (first_frame w.next) schedule in
      advance_tick (swap_buffers (written w f.vehicles.1 f.npcs.1 f.aircraft.1))

  pub frame_stats : ℕ → World F → FrameStats
  frame_stats workers w =
      let inp = w.current in
      record {
        tasks_submitted =
            submitted workers inp.vehicles.size
            + submitted workers inp.npcs.size
            + submitted workers inp.aircraft.size;
        stages = 3;
      }

  unfoldable pub tick_serial : World F → World F
  tick_serial w =
      let inp = w.current in
      let out = w.next in
      advance_tick (
        swap_buffers (
          written w (serial (update_vehicle_chain inp) inp.vehicles.size out.vehicles.at)
            (serial (update_npc_chain inp) inp.npcs.size out.npcs.at)
            (serial (update_aircraft_chain inp) inp.aircraft.size out.aircraft.at)))

  -- The constructor.
  pub new_simulation : SceneSpec → ℕ → World F
  new_simulation s seed = new_world s.vehicles s.npcs s.aircraft seed
