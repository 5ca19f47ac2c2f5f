-- ===== src/Core/Graph/Wiring.antt =====
-- What the edges of a graph agree on, and that building one keeps it.
use thunder_bolt_ht.Base.{
  ℕ, ◌+◌, ◌≤◌, ◌<◌, ◌≡◌, ◌≢◌, ap, ◌||◌, leb, ◌==◌, if◌then◌else◌, List, [], ◌∷◌, arith, count,
  count-nil, count-cons, count-append, ℕ_discrete, Bool-cases, ==_self, ne→==, inl, inr,
}
use thunder_bolt_ht.Api.Types.{TaskDesc}
use thunder_bolt_ht.Core.Graph.{
  TaskGraph, empty_graph, add, add_edge, with_predecessor, with_successor,
}

module _ {ℓ} {F : Type ℓ} where
  abbrev pub preds : TaskGraph F → ℕ → List ℕ
  preds g i = (g.nodes i).predecessors

  abbrev pub succs : TaskGraph F → ℕ → List ℕ
  succs g i = (g.nodes i).successors

  -- Each edge is recorded at both ends, as often, between two nodes of the graph that differ.
  pub record IsWired (g : TaskGraph F) : Type ℓ where
    pub mirrored : (i j : ℕ) → count j (succs g i) ≡ count i (preds g j)
    pub known : (i j : ℕ) → 0 < count i (preds g j) → (i < g.count) × (j < g.count)
    pub no_loop : (i : ℕ) → count i (preds g i) ≡ 0

module _ {F : Type 0} where
  pub empty_graph-IsWired : (desc : TaskDesc F) → IsWired (empty_graph desc)
  unfolding empty_graph
  empty_graph-IsWired desc = record {
    mirrored = λ i j. omega (arith, count-nil i, count-nil j);
    known = λ i j h. absurd (omega (arith, count-nil i));
    no_loop = λ i. count-nil i;
  }

  fresh_empty :
      (g : TaskGraph F)
      → IsWired g
      → (i j : ℕ) → g.count ≤ j
      → (count i (preds g j) ≡ 0) × (count i (succs g j) ≡ 0)
  fresh_empty g v i j h = ground (arith, v.known i j, v.known j i, v.mirrored j i)

  pub add-IsWired : (g : TaskGraph F) (desc : TaskDesc F) → IsWired g → IsWired (add g desc)
  unfolding add
  add-IsWired g desc v = record {
    mirrored = λ i j. ground (
      arith,
      v.mirrored i j,
      count-nil i,
      count-nil j,
      fresh_empty g v i g.count,
      fresh_empty g v j g.count,
      ap g.nodes,
    );
    known = λ i j h. ground (arith, v.known i j, count-nil i);
    no_loop = λ i. ground (arith, v.no_loop i, count-nil i);
  }

  -- What the new edge changes at each end.
  edge_at :
      (g : TaskGraph F) (before after i j : ℕ)
      → let h = with_successor (with_predecessor g.nodes after before) before after in
        before ≢ after
        → (count i (h j).predecessors
            ≡ count i (preds g j) + (if after == j then (if before == i then 1 else 0) else 0))
          × (count i (h j).successors
              ≡ count i (succs g j) + (if before == j then (if after == i then 1 else 0) else 0))
  edge_at g before after i j ne = (
    ground (
      arith,
      λ (e : after ≡ j). ap (preds g) e,
      λ (e : before ≡ j). ap (preds g) e,
      count-append i (preds g after) (before ∷ []),
      count-cons i before [],
      count-nil i,
    ),
    ground (
      arith,
      λ (e : after ≡ j). ap (succs g) e,
      λ (e : before ≡ j). ap (succs g) e,
      count-append i (succs g before) (after ∷ []),
      count-cons i after [],
      count-nil i,
    ),
  )

  -- An edge goes into both of its ends or, if it names a node that is not there or a node twice,
  -- into neither: the two lists of each pair of nodes still agree.
  pub add_edge-IsWired :
      (g : TaskGraph F) (before after : ℕ) → IsWired g → IsWired (add_edge g before after)
  unfolding add_edge
  add_edge-IsWired g before after v = elim (Bool-cases (leb g.count before || leb g.count after)) [
    | inl out ↦ rw out v
    | inr known ↦ rw known (elim (ℕ_discrete before after) [
      | yes same ↦ rw (same, ==_self after) v
      | no other ↦ rw (ne→== before after other) (record {
        mirrored = λ i j. ground (
          arith,
          v.mirrored i j,
          edge_at g before after j i other,
          edge_at g before after i j other,
        );
        known = λ i j h. ground (arith, v.known i j, edge_at g before after i j other);
        no_loop = λ i. ground (arith, v.no_loop i, edge_at g before after i i other);
      })
    ])
  ]
