-- ===== src/Engine/Systems/Npcs.antt =====
-- engine/core/Systems.cpp: the stages of a walker.
use thunder_bolt_ht.Base.{ℕ, zero, suc, ◌+◌, ◌-◌, ◌%◌, ◌^◌, ◌==◌, if◌then◌else◌}
use thunder_bolt_ht.Engine.Math.{
  Float, ◌⊕◌, ◌⊗◌, ◌≺◌, lit, Vec3, add, sub, scale, magnitude, length_squared, normalized_or_zero,
  clampf, wrapf,
}
use thunder_bolt_ht.Engine.World.{WorldState, Npc, world_size, fixed_timestep}
use thunder_bolt_ht.Engine.Systems.{lod_for_distance, stage}

-- `kPerceptionWindow`
abbrev pub perception_window : ℕ
perception_window = 24

module _ {F : Type 0} ⦃o : Float F⦄ where
  unfoldable pub npc_lod : WorldState F → ℕ → Npc F → Npc F
  npc_lod inp i n = record n {
    lod = lod_for_distance (magnitude (sub (inp.npcs.at i).position inp.player_position));
  }

  -- The loop over the neighbours, with `rounds` rounds to go, so at `k = kPerceptionWindow + 1 -
  -- rounds`. The pair is `nearest_sq` and `nearest_index`.
  pub nearest : WorldState F → ℕ → ℕ → F × ℕ → F × ℕ
  nearest inp i zero best = best
  nearest inp i (suc rounds) (nearest_sq, nearest_index) =
      let j = (i + (perception_window + 1 - suc rounds)) % inp.npcs.size in
      let distance_sq = length_squared (sub (inp.npcs.at j).position (inp.npcs.at i).position) in
      nearest inp i rounds (
        if distance_sq ≺ nearest_sq then (distance_sq, j % 2 ^ 32) else (nearest_sq, nearest_index))

  unfoldable pub npc_perception : WorldState F → ℕ → Npc F → Npc F
  npc_perception inp i n =
      let found =
        nearest inp i perception_window (lit 1000000000000000000000000000000 0, i % 2 ^ 32) in
      record n { nearest_distance = o.sqrt found.0; nearest_index = found.1 }

  pub heading_for : WorldState F → ℕ → F → ℕ → Vec3 F → Vec3 F
  heading_for inp i distance other to_target =
      let heading = normalized_or_zero to_target in
      if distance ≺ lit 30 1
      then (let away =
            normalized_or_zero (sub (inp.npcs.at i).position (inp.npcs.at other).position) in
          normalized_or_zero (add (scale heading (lit 4 1)) (scale away (lit 6 1))))
      else heading

  pub paced : ℕ → F → F
  paced behaviour speed =
      if behaviour == 1
      then speed ⊗ lit 135 2
      else (if behaviour == 2 then speed ⊗ lit 7 1 else speed)

  unfoldable pub npc_decision : WorldState F → ℕ → Npc F → Npc F
  npc_decision inp i n =
      let before = inp.npcs.at i in
      let to_target = sub before.target before.position in
      let heading = heading_for inp i n.nearest_distance n.nearest_index to_target in
      let hurried = paced before.behaviour before.speed in
      let distance = magnitude to_target in
      let speed =
        if distance ≺ lit 50 1
        then hurried ⊗ clampf (distance ⊗ lit 2 1) (lit 1 1) (lit 10 1)
        else hurried in
      record n { velocity = scale heading speed; speed = before.speed }

  unfoldable pub npc_movement : WorldState F → ℕ → Npc F → Npc F
  npc_movement inp i n =
      let before = inp.npcs.at i in
      let moved = add before.position (scale n.velocity fixed_timestep) in
      let position = record moved { x = wrapf moved.x world_size; z = wrapf moved.z world_size } in
      let target = before.target in
      let goal : Vec3 F =
        if magnitude (sub target position) ≺ lit 20 1
        then record {
          x = wrapf (target.z ⊗ lit 137 2 ⊕ lit 1370 1) world_size;
          y = lit 0 1;
          z = wrapf (target.x ⊗ lit 119 2 ⊕ lit 710 1) world_size;
        }
        else target in
      record n { position = position; target = goal; behaviour = before.behaviour }

  -- The early return of the perception stage is for a world without walkers, where the range is
  -- empty.
  unfoldable pub update_npc_perception : WorldState F → ℕ → ℕ → (ℕ → Npc F) → ℕ → Npc F
  update_npc_perception inp begin stop out =
      if inp.npcs.size == 0 then out else stage (npc_perception inp) begin stop out

  unfoldable pub update_npc_chain : WorldState F → ℕ → ℕ → (ℕ → Npc F) → ℕ → Npc F
  update_npc_chain inp begin stop out = stage (npc_movement inp) begin stop (
      stage (npc_decision inp) begin stop
        (update_npc_perception inp begin stop (stage (npc_lod inp) begin stop out)))
