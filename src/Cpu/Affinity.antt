-- ===== src/Cpu/Affinity.antt =====
-- thunderbolt/cpu/affinity/Affinity.cpp: the order in which workers get logical processors, and where
-- apply_worker_affinity refuses to bind one.
--
-- The topology is what the operating system reports, and the call that binds a thread is its own: both
-- are outside of the model. Which of the branches of the preprocessor is built is an argument.
pub mod Spread
pub mod Detected
use thunder_bolt_ht.Cpu.Topology.{CpuTopology}
use thunder_bolt_ht.Base.{
  ℕ, zero, suc, ◌+◌, ◌%◌, Bool, true, false, ◌||◌, not, ◌==◌, ltb, leb, if◌then◌else◌, List, [],
  ◌∷◌, ◌++◌, Option, none, some, length, get_elem?,
}

pub data AffinityMode : Type 0 where
  disabled : AffinityMode
  topology_aware : AffinityMode

-- The system that the code is built for.
pub data Platform : Type 0 where
  windows : Platform
  linux : Platform
  other : Platform

unfoldable pub max_siblings : List (List ℕ) → ℕ
max_siblings [] = 0
max_siblings (core ∷ cores) =
    if ltb (max_siblings cores) (length core) then length core else max_siblings cores

-- One round: the processor number `sibling` of every core that has one.
unfoldable pub one_round : ℕ → List (List ℕ) → List ℕ
one_round sibling [] = []
one_round sibling (core ∷ cores) = elim (get_elem? core sibling) [
  | none ↦ one_round sibling cores
  | some p ↦ p ∷ one_round sibling cores
]

-- The rounds from `sibling` on, with `rounds` to go.
unfoldable pub all_rounds : ℕ → ℕ → List (List ℕ) → List ℕ
all_rounds zero sibling cores = []
all_rounds (suc rounds) sibling cores =
    one_round sibling cores ++ all_rounds rounds (sibling + 1) cores

unfoldable pub spread_order : CpuTopology → List ℕ
spread_order t =
    if not t.detected || length t.cores == 0
    then []
    else all_rounds (max_siblings t.cores) 0 t.cores

-- The number that `order[worker_index % order.size()]` reads, unless the order is empty.
unfoldable pub chosen : List ℕ → ℕ → Option ℕ
chosen order worker_index =
    if length order == 0 then none else get_elem? order (worker_index % length order)

-- The processor that `apply_worker_affinity` asks the operating system to bind a worker to, unless
-- it refuses.
unfoldable pub logical_for : Platform → AffinityMode → CpuTopology → ℕ → Option ℕ
logical_for platform disabled t worker_index = none
logical_for other topology_aware t worker_index = none
logical_for linux topology_aware t worker_index = chosen (spread_order t) worker_index
logical_for windows topology_aware t worker_index = elim (chosen (spread_order t) worker_index) [
  | none ↦ none
  | some logical ↦ if leb 64 logical then none else some logical
]
