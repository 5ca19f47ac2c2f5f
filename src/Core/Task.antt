-- ===== src/Core/Task.antt =====
-- thunderbolt/core/task/Task.hpp: one pooled task slot and its successor list.
pub mod Successors
use thunder_bolt_ht.Base.{
  ℕ, zero, suc, ◌+◌, ◌*◌, Bool, true, false, ◌&&◌, ◌||◌, not, ◌==◌, ltb, if◌then◌else◌, List, [],
  ◌∷◌, ◌++◌, Option, none, some, update, length,
}
use thunder_bolt_ht.Api.Types.{TaskState, TaskPriority, TaskHandle, invalid_handle}

-- `Task::kInlineSuccessors`
abbrev pub inline_successors : ℕ
inline_successors = 6

-- The four fields that the spin flag of a task guards. A call of one of the methods below is one
-- critical section, so it is one step.
pub record SuccessorList : Type 0 where
  pub closed : Bool
  pub count : ℕ
  pub inline_slots : ℕ → TaskHandle
  pub spilled : List TaskHandle

pub record Task {ℓ} (F : Type ℓ) : Type ℓ where
  pub function : Option F
  pub generation : ℕ
  pub state : TaskState
  pub pending_dependencies : ℕ
  pub priority : TaskPriority
  pub estimated_cost : ℕ
  pub successors : SuccessorList

abbrev pub fresh_list : SuccessorList
fresh_list = record { closed = false; count = 0; inline_slots = λ _. invalid_handle; spilled = [] }

-- The handles in slots 0 to n - 1.
unfoldable pub inline_prefix : (ℕ → TaskHandle) → ℕ → List TaskHandle
inline_prefix slots zero = []
inline_prefix slots (suc n) = inline_prefix slots n ++ slots n ∷ []

-- The write of a registration: into the inline array while it has room, else onto the vector.
unfoldable pub add_handle : SuccessorList → TaskHandle → SuccessorList
add_handle l h =
    if ltb l.count inline_successors
    then record l { inline_slots = update l.inline_slots l.count h; count = l.count + 1 }
    else record l { spilled = l.spilled ++ h ∷ []; count = l.count + 1 }

-- `inline_count` in `take_successors`
unfoldable pub inline_count : ℕ → ℕ
inline_count count = if ltb count inline_successors then count else inline_successors

-- What `take_successors` appends to `out`.
unfoldable pub handed_over : SuccessorList → List TaskHandle
handed_over l = inline_prefix l.inline_slots (inline_count l.count) ++ l.spilled

unfoldable pub closed_list : SuccessorList → SuccessorList
closed_list l = record l { closed = true; count = 0; spilled = [] }

unfoldable pub opened_list : SuccessorList → SuccessorList
opened_list l = record l { closed = false; count = 0; spilled = [] }

module _ {ℓ} {F : Type ℓ} where
  -- A slot as `std::make_unique<Task[]>` makes it.
  abbrev pub initial_task : Task F
  initial_task = record {
    function = none;
    generation = 0;
    state = TaskState.free;
    pending_dependencies = 0;
    priority = TaskPriority.normal;
    estimated_cost = 0;
    successors = fresh_list;
  }

  unfoldable pub try_add_successor : Task F → TaskHandle → ℕ → Task F × Bool
  try_add_successor t successor expected_generation =
      if not t.successors.closed && t.generation == expected_generation
      then (record t { successors = add_handle t.successors successor }, true)
      else (t, false)

  unfoldable pub take_successors : Task F → Task F × List TaskHandle
  take_successors t = (record t { successors = closed_list t.successors }, handed_over t.successors)

  unfoldable pub reset_successors : Task F → Task F
  reset_successors t = record t { successors = closed_list t.successors }

  unfoldable pub open_successors : Task F → Task F
  open_successors t = record t { successors = opened_list t.successors }

  pub successors_spilled : Task F → Bool
  successors_spilled t =
      not (is_empty t.successors.spilled) || ltb inline_successors t.successors.count
    where
      is_empty : List TaskHandle → Bool
      is_empty [] = true
      is_empty (_ ∷ _) = false
