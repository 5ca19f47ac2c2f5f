-- ===== src/Api/Types.antt =====
-- thunderbolt/api/TaskTypes.hpp, TaskHandle.hpp and TaskDesc.hpp.
use thunder_bolt_ht.Base.{ℕ, ◌%◌, ◌^◌, Bool, ◌&&◌, not, ◌==◌, Option}

-- An atomic of type uint32_t keeps its value modulo 2 ^ 32.
abbrev pub u32 : ℕ → ℕ
u32 n = n % 2 ^ 32

pub data TaskPriority : Type 0 where
  critical high normal low background : TaskPriority

-- `kPriorityCount`
abbrev pub priority_count : ℕ
priority_count = 5

-- `static_cast<std::size_t>(priority)`
abbrev pub priority_index : TaskPriority → ℕ
priority_index TaskPriority.critical = 0
priority_index TaskPriority.high = 1
priority_index TaskPriority.normal = 2
priority_index TaskPriority.low = 3
priority_index TaskPriority.background = 4

pub data TaskState : Type 0 where
  free created waiting ready queued claimed executing completed : TaskState

-- `state != TaskState::Free`
abbrev pub is_free : TaskState → Bool
is_free TaskState.free = Bool.true
is_free _ = Bool.false

pub record TaskHandle : Type 0 where
  pub index : ℕ
  pub generation : ℕ

-- `TaskHandle::kInvalidIndex`
abbrev pub invalid_index : ℕ
invalid_index = 0xFFFFFFFF

-- `TaskHandle{}`
abbrev pub invalid_handle : TaskHandle
invalid_handle = record { index = invalid_index; generation = 0 }

abbrev pub valid : TaskHandle → Bool
valid h = not (h.index == invalid_index)

abbrev pub handle_eq : TaskHandle → TaskHandle → Bool
handle_eq a b = a.index == b.index && a.generation == b.generation

-- `function` is the body; a default-constructed TaskFunction holds none. The flags have one value
-- and are left out.
pub record TaskDesc {ℓ} (F : Type ℓ) : Type ℓ where
  pub function : Option F
  pub priority : TaskPriority
  pub estimated_cost : ℕ
