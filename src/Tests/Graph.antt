-- ===== src/Tests/Graph.antt =====
-- A diamond of four nodes, a graph with a cycle, and a runtime that numbers what it is given.
use mathlib.Core.List.{List, [], ◌∷◌}
use thunder_bolt_ht.Base.{ℕ, zero, suc, ◌≡◌, ◌⊎◌, ◌↔◌, refl, some, true, arith, length}
use thunder_bolt_ht.Api.Types.{TaskDesc, TaskHandle, TaskPriority}
use thunder_bolt_ht.Core.Graph.{
  TaskGraph, empty_graph, add, add_edge, topological_order, is_acyclic, kahn, relax,
  initially_ready,
}
use thunder_bolt_ht.Core.Graph.Wiring.{IsWired, empty_graph-IsWired, add-IsWired, add_edge-IsWired}
use thunder_bolt_ht.Core.Graph.Order.{IsSmall, no_preds}
use thunder_bolt_ht.Core.Graph.Acyclic.{
  IsTopological, Ranking, topological_order-IsTopological, is_acyclic_iff,
}
use thunder_bolt_ht.Core.Graph.Submit.{entries, submit, Submitted, submit-Submitted}

abbrev body : ℕ → TaskDesc ℕ
body n = record { function = some n; priority = TaskPriority.normal; estimated_cost = 0 }

abbrev four : TaskGraph ℕ
four = add (add (add (add (empty_graph (body 9)) (body 0)) (body 1)) (body 2)) (body 3)

four-IsWired : IsWired four
four-IsWired = add-IsWired _ (body 3) (
    add-IsWired _ (body 2)
      (add-IsWired _ (body 1) (add-IsWired _ (body 0) (empty_graph-IsWired (body 9)))))

abbrev diamond : TaskGraph ℕ
diamond = add_edge (add_edge (add_edge (add_edge four 3 1) 3 2) 1 0) 2 0

diamond-IsWired : IsWired diamond
diamond-IsWired =
    add_edge-IsWired _ 2 0
      (add_edge-IsWired _ 1 0 (add_edge-IsWired _ 3 2 (add_edge-IsWired four 3 1 four-IsWired)))

diamond_order : topological_order diamond ≡ 3 ∷ 1 ∷ 2 ∷ 0 ∷ []
unfolding topological_order kahn relax initially_ready add_edge add empty_graph
diamond_order = refl

diamond-IsSmall : IsSmall diamond
unfolding add_edge add empty_graph
diamond-IsSmall zero = omega arith
diamond-IsSmall (suc zero) = omega arith
diamond-IsSmall (suc (suc zero)) = omega arith
diamond-IsSmall (suc (suc (suc zero))) = omega arith
diamond-IsSmall (suc (suc (suc (suc j)))) =
    omega (arith, no_preds diamond diamond-IsWired (suc (suc (suc (suc j)))) (omega arith))

topological_order-IsTopological_example :
    (topological_order diamond ≡ []) ⊎ IsTopological diamond (topological_order diamond)
topological_order-IsTopological_example =
    topological_order-IsTopological diamond diamond-IsWired diamond-IsSmall

is_acyclic_iff_example : (is_acyclic diamond ≡ true) ↔ Ranking diamond
is_acyclic_iff_example = is_acyclic_iff diamond diamond-IsWired diamond-IsSmall

-- What was submitted so far, the number of a call being the handle it returns.
abbrev Log : Type 0
Log = List (TaskDesc ℕ × List TaskHandle)

abbrev log_task : Log → TaskDesc ℕ → List TaskHandle → Log × TaskHandle
log_task log desc after = ((desc, after) ∷ log, record { index = length log; generation = 0 })

abbrev log_wait : Log → TaskHandle → Log
log_wait log handle = log

submit-Submitted_example :
    (submit log_task log_wait diamond [] ≡ ([], []))
    ⊎ ((table : ℕ → TaskHandle) × ((submit log_task log_wait diamond []).0
          ≡ entries table diamond.count)
        × IsTopological diamond (topological_order diamond)
        × Submitted log_task log_wait diamond table
            (topological_order diamond)
            []
            (submit log_task log_wait diamond []).1)
submit-Submitted_example =
    submit-Submitted log_task log_wait diamond [] diamond-IsWired diamond-IsSmall
