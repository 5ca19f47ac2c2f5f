-- ===== src/Engine/Systems.antt =====
-- engine/core/Systems.hpp and Systems.cpp: the stages that compute the next state of the entities.
--
-- Each stage loops over a range of indices, reads the last frame `inp` at any index, and reads and
-- writes the next frame at the loop's index only: `stage` is the loop over a body of that shape. The
-- float literals are those of the code.
pub mod Vehicles
pub mod Npcs
pub mod Aircraft
use thunder_bolt_ht.Base.{ℕ, zero, suc, ◌+◌, ◌-◌, ◌*◌, ◌/◌, ltb, if◌then◌else◌, update}
use thunder_bolt_ht.Engine.World.{Entities, SimLod}
use thunder_bolt_ht.Engine.Math.{Float, ◌≺◌, lit}

-- `kBatchSize`
abbrev pub batch_size : ℕ
batch_size = 32

abbrev pub batch_count_for : ℕ → ℕ
batch_count_for entity_count = (entity_count + batch_size - 1) / batch_size

-- `for (i = begin; i < end; ++i)` with `rounds` rounds to go.
unfoldable pub for_each : {V : Type 0} → (ℕ → V → V) → ℕ → ℕ → (ℕ → V) → ℕ → V
for_each body zero i out = out
for_each body (suc rounds) i out = for_each body rounds (i + 1) (update out i (body i (out i)))

-- A stage over the range from `begin` to `stop`.
unfoldable pub stage : {V : Type 0} → (ℕ → V → V) → ℕ → ℕ → (ℕ → V) → ℕ → V
stage body begin stop out = for_each body (stop - begin) begin out

module _ {F : Type 0} ⦃o : Float F⦄ where
  pub lod_for_distance : F → SimLod
  lod_for_distance distance =
      if distance ≺ lit 500 1
      then SimLod.full
      else (if distance ≺ lit 2500 1
          then SimLod.reduced
          else (if distance ≺ lit 10000 1 then SimLod.simple else SimLod.distant))

unfoldable pub substeps_for : SimLod → ℕ
substeps_for SimLod.full = 4
substeps_for SimLod.reduced = 2
substeps_for SimLod.simple = 1
substeps_for SimLod.distant = 1
