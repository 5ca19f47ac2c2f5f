-- ===== src/Core/Graph.antt =====
-- thunderbolt/core/taskgraph/TaskGraph.hpp and TaskGraph.cpp: the offline task graph. The nodes are
-- an array of `count` entries. The debug assertions are not modelled; where one of them would fail, the code
-- below them returns early, and so does the model.
pub mod Relax
pub mod Order
pub mod Acyclic
pub mod Wiring
pub mod Submit
use thunder_bolt_ht.Base.{
  ℕ, zero, suc, ◌+◌, ◌-◌, ◌^◌, ◌%◌, Bool, true, false, ◌&&◌, ◌||◌, not, ◌==◌, ltb, leb,
  if◌then◌else◌, List, [], ◌∷◌, ◌++◌, Option, none, some, update, length,
}
use thunder_bolt_ht.Api.Types.{u32, TaskDesc, TaskHandle, invalid_handle, TaskPriority}

pub record Node {ℓ} (F : Type ℓ) : Type ℓ where
  pub desc : TaskDesc F
  pub predecessors : List ℕ
  pub successors : List ℕ

pub record TaskGraph {ℓ} (F : Type ℓ) : Type ℓ where
  pub count : ℕ
  pub nodes : ℕ → Node F
  pub edge_count : ℕ

-- `--remaining_predecessors[successor]` on an array of uint32_t.
abbrev pub decremented : (ℕ → ℕ) → ℕ → ℕ → ℕ
decremented remaining successor =
    update remaining successor (u32 (remaining successor + 2 ^ 32 - 1))

-- The loop over the successors of a node that was taken: the counters and the ready queue.
unfoldable pub relax : List ℕ → (ℕ → ℕ) → List ℕ → (ℕ → ℕ) × List ℕ
relax [] remaining ready = (remaining, ready)
relax (successor ∷ rest) remaining ready =
    let counted = decremented remaining successor in
    relax rest counted (if counted successor == 0 then ready ++ successor ∷ [] else ready)

-- The loop that fills the ready queue at first: the first `n` nodes without predecessors.
unfoldable pub initially_ready : ℕ → (ℕ → ℕ) → List ℕ
initially_ready zero remaining = []
initially_ready (suc n) remaining =
    initially_ready n remaining ++ (if remaining n == 0 then n ∷ [] else [])

module _ {ℓ} {F : Type ℓ} where
  unfoldable pub empty_graph : TaskDesc F → TaskGraph F
  empty_graph desc = record {
    count = 0;
    nodes = λ _. record { desc = desc; predecessors = []; successors = [] };
    edge_count = 0;
  }

  -- The identity of the node is the count before.
  unfoldable pub add : TaskGraph F → TaskDesc F → TaskGraph F
  add g desc = record g {
    count = g.count + 1;
    nodes = update g.nodes g.count (record { desc = desc; predecessors = []; successors = [] });
  }

  abbrev pub with_predecessor : (ℕ → Node F) → ℕ → ℕ → ℕ → Node F
  with_predecessor nodes i p =
      let node = nodes i in
      update nodes i (record node { predecessors = node.predecessors ++ p ∷ [] })

  abbrev pub with_successor : (ℕ → Node F) → ℕ → ℕ → ℕ → Node F
  with_successor nodes i s =
      let node = nodes i in update nodes i (record node { successors = node.successors ++ s ∷ [] })

  unfoldable pub add_edge : TaskGraph F → ℕ → ℕ → TaskGraph F
  add_edge g before after =
      if leb g.count before || leb g.count after
      then g
      else (if before == after then g else record g {
        nodes = with_successor (with_predecessor g.nodes after before) before after;
        edge_count = g.edge_count + 1;
      })

  -- The loop `while (!ready.empty())`, on fuel. The result is the order and what is left ready.
  unfoldable pub kahn : TaskGraph F → ℕ → (ℕ → ℕ) → List ℕ → List ℕ → List ℕ × List ℕ
  kahn g zero remaining ready order = (order, ready)
  kahn g (suc fuel) remaining [] order = (order, [])
  kahn g (suc fuel) remaining (id ∷ ready) order =
      let r = relax (g.nodes id).successors remaining ready in
      kahn g fuel r.0 r.1 (order ++ id ∷ [])

  abbrev pub predecessor_counts : TaskGraph F → ℕ → ℕ
  predecessor_counts g i = u32 (length (g.nodes i).predecessors)

  -- With one round of fuel for each node, and one to see that none is left.
  unfoldable pub topological_order : TaskGraph F → List ℕ
  topological_order g =
      let remaining = predecessor_counts g in
      let order = (kahn g (g.count + 1) remaining (initially_ready g.count remaining) []).0 in
      if length order == g.count then order else []

  unfoldable pub is_acyclic : TaskGraph F → Bool
  is_acyclic g = g.count == 0 || not (length (topological_order g) == 0)
