-- ===== src/Engine/StateHash.antt =====
-- engine/core/StateHash.hpp: the hash by which two runs are compared, and how it is printed.
--
-- `bits` gives the 32 bits of a float, which the code copies out. The bytes of a number are fed with
-- the lowest first. A character is its ASCII code.
pub mod Determinism
pub mod Hex
use Prim.Native.Nat.{bit_xor}
use thunder_bolt_ht.Base.{
  ℕ, zero, suc, ◌+◌, ◌*◌, ◌/◌, ◌%◌, ◌^◌, ltb, if◌then◌else◌, List, [], ◌∷◌, ◌++◌,
}
use thunder_bolt_ht.Engine.Math.{Vec3}
use thunder_bolt_ht.Engine.World.{SimLod, Entities, WorldState}

-- The initial `value_`.
abbrev pub offset_basis : ℕ
offset_basis = 0xCBF29CE484222325

-- `feed_bytes` of a number that has `size` bytes.
pub feed_bytes : ℕ → ℕ → ℕ → ℕ
feed_bytes zero v value = value
feed_bytes (suc size) v value =
    feed_bytes size (v / 2 ^ 8) (bit_xor value (v % 2 ^ 8) * 0x100000001B3 % 2 ^ 64)

-- `feed` of a uint32_t.
abbrev pub feed_u32 : ℕ → ℕ → ℕ
feed_u32 v value = feed_bytes 4 v value

abbrev pub lod_number : SimLod → ℕ
lod_number SimLod.full = 0
lod_number SimLod.reduced = 1
lod_number SimLod.simple = 2
lod_number SimLod.distant = 3

abbrev pub feed_lod : SimLod → ℕ → ℕ
feed_lod lod value = feed_u32 (lod_number lod) value

-- `feed_array` of one field of the entities from `i` on, with `rounds` to go.
unfoldable pub feed_from : {V : Type 0} → (V → ℕ → ℕ) → ℕ → ℕ → (ℕ → V) → ℕ → ℕ
feed_from feed zero i at value = value
feed_from feed (suc rounds) i at value = feed_from feed rounds (i + 1) at (feed (at i) value)

abbrev pub feed_array : {V : Type 0} → (V → ℕ → ℕ) → Entities V → ℕ → ℕ
feed_array feed e value = feed_from feed e.size 0 e.at value

-- The arrays of one kind of entity, one after the other.
unfoldable pub feed_arrays : {V : Type 0} → List (V → ℕ → ℕ) → Entities V → ℕ → ℕ
feed_arrays [] e value = value
feed_arrays (feed ∷ feeds) e value = feed_arrays feeds e (feed_array feed e value)

module _ {F : Type 0} (bits : F → ℕ) where
  pub feed_float : F → ℕ → ℕ
  feed_float v value = feed_u32 (bits v) value

  pub feed_vec : Vec3 F → ℕ → ℕ
  feed_vec v value = feed_float v.z (feed_float v.y (feed_float v.x value))

  unfoldable pub hash_state : WorldState F → ℕ
  hash_state state =
      let vehicles =
        feed_arrays
          ((λ v. feed_vec v.position)
            ∷ (λ v. feed_vec v.velocity)
            ∷ (λ v. feed_float v.heading)
            ∷ (λ v. feed_float v.steer)
            ∷ (λ v. feed_float v.throttle)
            ∷ (λ v. feed_float v.engine_rpm)
            ∷ (λ v. feed_float v.wheel_load)
            ∷ (λ v. feed_float v.mass)
            ∷ (λ v. feed_lod v.lod)
            ∷ (λ v. feed_u32 v.lane)
            ∷ [])
          state.vehicles offset_basis in
      let npcs =
        feed_arrays
          ((λ n. feed_vec n.position)
            ∷ (λ n. feed_vec n.velocity)
            ∷ (λ n. feed_vec n.target)
            ∷ (λ n. feed_float n.speed)
            ∷ (λ n. feed_u32 n.behaviour)
            ∷ (λ n. feed_lod n.lod)
            ∷ (λ n. feed_float n.nearest_distance)
            ∷ (λ n. feed_u32 n.nearest_index)
            ∷ [])
          state.npcs vehicles in
      let aircraft =
        feed_arrays
          ((λ a. feed_vec a.position)
            ∷ (λ a. feed_vec a.velocity)
            ∷ (λ a. feed_float a.heading)
            ∷ (λ a. feed_float a.pitch)
            ∷ (λ a. feed_float a.throttle)
            ∷ (λ a. feed_float a.altitude)
            ∷ (λ a. feed_float a.air_density)
            ∷ (λ a. feed_float a.lift)
            ∷ (λ a. feed_float a.drag)
            ∷ (λ a. feed_float a.thrust)
            ∷ (λ a. feed_float a.mass)
            ∷ [])
          state.aircraft npcs in
      feed_vec state.player_position aircraft

-- `digits`
abbrev pub digit : ℕ → ℕ
digit d = if ltb d 10 then 48 + d else 87 + d

-- The loop of `hash_to_string`, from the last character on: `out` is what stands behind.
unfoldable pub hex_from : ℕ → ℕ → List ℕ → List ℕ
hex_from zero hash out = out
hex_from (suc rounds) hash out = hex_from rounds (hash / 2 ^ 4) (digit (hash % 2 ^ 4) ∷ out)

pub hash_to_string : ℕ → List ℕ
hash_to_string hash = hex_from 16 hash []
