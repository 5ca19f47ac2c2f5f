-- ===== src/Core/Pool/Handles/Stale.antt =====
-- Which handles resolve: the generation of a slot counts its releases modulo 2 ^ 32.
use thunder_bolt_ht.Base.{
  ℕ, ◌+◌, ◌%◌, ◌^◌, ◌≤◌, ◌<◌, ◌≡◌, ◌==◌, if◌then◌else◌, List, [], ◌∷◌, none, some, update_self,
  arith,
}
use thunder_bolt_ht.Api.Types.{TaskDesc, TaskHandle, TaskPriority, invalid_index}
use thunder_bolt_ht.Core.Task.{Task, open_successors, reset_successors}
use thunder_bolt_ht.Core.Pool.{TaskPool}
use thunder_bolt_ht.Core.Pool.Handles.{with_slot, acquired_task, reserved_task, released_task, get}

-- What happens to a slot.
pub data SlotEvent {ℓ} (F : Type ℓ) : Type ℓ where
  acquires : TaskDesc F → SlotEvent F
  reserves : TaskPriority → SlotEvent F
  releases : SlotEvent F

module _ {ℓ} {F : Type ℓ} where
  pub slot_after : Task F → List (SlotEvent F) → Task F
  slot_after t [] = t
  slot_after t (acquires desc ∷ es) = slot_after (acquired_task t desc) es
  slot_after t (reserves priority ∷ es) = slot_after (reserved_task t priority) es
  slot_after t (releases ∷ es) = slot_after (released_task t) es

  unfoldable pub release_total : List (SlotEvent F) → ℕ
  release_total [] = 0
  release_total (releases ∷ es) = release_total es + 1
  release_total (_ ∷ es) = release_total es

  generation-slot_after :
      (t : Task F) (es : List (SlotEvent F))
      → t.generation < 2 ^ 32
      → (slot_after t es).generation ≡ (t.generation + release_total es) % 2 ^ 32
  unfolding slot_after release_total acquired_task reserved_task released_task open_successors
      reset_successors
  generation-slot_after t [] h = omega arith
  generation-slot_after t (acquires desc ∷ es) h = generation-slot_after (acquired_task t desc) es h
  generation-slot_after t (reserves priority ∷ es) h =
      generation-slot_after (reserved_task t priority) es h
  generation-slot_after t (releases ∷ es) h =
      omega (arith, generation-slot_after (released_task t) es (omega arith))

  -- The handle that names slot `index` as it stands in `pool`.
  abbrev pub handle_of : TaskPool F → ℕ → TaskHandle
  handle_of pool index = record { index = index; generation = (pool.slots index).generation }

module _ {F : Type 0} where
  -- A handle resolves to its slot as long as the slot is not released; after a release it is stale,
  -- whatever the slot is reused for, up to the release after 2 ^ 32 - 1 more, which brings its
  -- generation back.
  pub get-slot_after :
      (pool : TaskPool F) (index : ℕ) (es : List (SlotEvent F))
      → index < pool.capacity
      → pool.capacity ≤ invalid_index
      → (pool.slots index).generation < 2 ^ 32
      → release_total es < 2 ^ 32
      → let t = slot_after (pool.slots index) es in
        get (with_slot pool index t) (handle_of pool index)
        ≡ (if release_total es == 0 then some t else none)
  unfolding get
  get-slot_after pool index es in_range small h few = ground (
    arith,
    generation-slot_after (pool.slots index) es,
    update_self pool.slots index (slot_after (pool.slots index) es),
  )
