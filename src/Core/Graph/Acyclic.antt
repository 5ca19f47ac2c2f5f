-- ===== src/Core/Graph/Acyclic.antt =====
-- TaskGraph::topological_order and is_acyclic: the order is right, and it is found exactly for a
-- graph with no cycle.
use thunder_bolt_ht.Base.{
  ℕ, zero, suc, ◌+◌, ◌≤◌, ◌<◌, ◌≡◌, ◌⊎◌, ◌↔◌, refl, sym, ap, ◌∙◌, subst, true, ltb, ◌==◌,
  if◌then◌else◌, List, [], ◌∷◌, ◌++◌, arith, count, count-nil, count-cons, sum_over-count,
  sum_over-le, sum_over_full, ℕ_discrete, length, length-append, ==_iff, sum_over-one, Bool-cases,
  inl, inr,
}
use thunder_bolt_ht.Core.Graph.{
  TaskGraph, initially_ready, kahn, predecessor_counts, topological_order, is_acyclic,
}
use thunder_bolt_ht.Core.Graph.Relax.{count-initially_ready, count-snoc}
use thunder_bolt_ht.Core.Graph.Wiring.{preds, IsWired}
use thunder_bolt_ht.Core.Graph.Order.{
  hits, hits-nil, hits_all, Follows, Inv, IsSmall, relaxed, Inv-step,
}

module _ {F : Type 0} (g : TaskGraph F) where
  Inv-initial :
      IsSmall g → Inv g (predecessor_counts g) (initially_ready g.count (predecessor_counts g)) []
  Inv-initial small = record {
    small = λ j. omega arith;
    left = λ j. omega (arith, small j, hits-nil (preds g j));
    placed =
        λ j. omega (arith, count-nil j, count-initially_ready g.count (predecessor_counts g) j);
    follows = tt;
  }

  at_most_once :
      {remaining : ℕ → ℕ} {ready order : List ℕ}
      → Inv g remaining ready order
      → (j : ℕ) → count j order ≤ 1
  at_most_once inv j = ground (arith, inv.placed j)

  only_nodes :
      {remaining : ℕ → ℕ} {ready order : List ℕ}
      → Inv g remaining ready order
      → (j : ℕ) → g.count ≤ j
      → count j order ≡ 0
  only_nodes inv j h = ground (arith, inv.placed j)

  length-le-count :
      {remaining : ℕ → ℕ} {ready order : List ℕ}
      → Inv g remaining ready order
      → length order ≤ g.count
  length-le-count {order = order} inv = omega (
    arith,
    sum_over-count g.count order (only_nodes inv),
    sum_over-le g.count (λ j. count j order) (at_most_once inv),
  )

  -- With more fuel than nodes that are not yet in the order, the loop ends by its test.
  kahn_ends :
      IsWired g
      → (fuel : ℕ) (remaining : ℕ → ℕ) (ready order : List ℕ) → g.count < fuel + length order
      → Inv g remaining ready order
      → (last : ℕ → ℕ) × Inv g last [] (kahn g fuel remaining ready order).0
  unfolding kahn
  kahn_ends v zero remaining ready order h inv = absurd (omega (arith, length-le-count inv))
  kahn_ends v (suc fuel) remaining [] order h inv = (remaining, inv)
  kahn_ends v (suc fuel) remaining (id ∷ ready) order h inv =
      kahn_ends v fuel (relaxed g v inv).0 (relaxed g v inv).1 (order ++ id ∷ [])
        (omega (arith, length-append order (id ∷ []))) (Inv-step g v inv)

  abbrev final_order : List ℕ
  final_order =
      (kahn g (g.count + 1) (predecessor_counts g) (initially_ready g.count (predecessor_counts g))
        []).0

  final : IsWired g → IsSmall g → (last : ℕ → ℕ) × Inv g last [] final_order
  final v small = kahn_ends v (g.count + 1) _ _ [] (omega arith) (Inv-initial small)

  -- An order of the whole graph: every node once, each after all its predecessors.
  abbrev pub IsTopological : List ℕ → Type 0
  IsTopological order =
      ((j : ℕ) → count j order ≡ (if ltb j g.count then 1 else 0)) × Follows g [] order

  full_once :
      (order : List ℕ) {last : ℕ → ℕ}
      → Inv g last [] order
      → length order ≡ g.count
      → (j : ℕ) → count j order ≡ (if ltb j g.count then 1 else 0)
  full_once order inv e j = ground (
    arith,
    only_nodes inv j,
    sum_over_full g.count (λ k. count k order) (at_most_once inv)
        (sum_over-count g.count order (only_nodes inv) ∙ e) j,
  )

  -- What is returned is an order of the whole graph, or nothing.
  pub topological_order-IsTopological :
      IsWired g → IsSmall g → (topological_order g ≡ []) ⊎ IsTopological (topological_order g)
  unfolding topological_order
  topological_order-IsTopological v small = elim (Bool-cases (length final_order == g.count)) [
    | inl all ↦ rw all (
        inr (
          full_once final_order (final v small).1 ((==_iff (length final_order) g.count).0 all),
          (final v small).1.follows,
        ))
    | inr some_left ↦ rw some_left (inl refl)
  ]

  -- No cycle: the nodes can be ranked so that each edge goes up.
  abbrev pub Ranking : Type 0
  Ranking = (rank : ℕ → ℕ) × ((i j : ℕ) → 0 < count i (preds g j) → rank i < rank j)

  -- In a ranked graph the loop takes every node: by strong induction on the rank.
  all_taken :
      (rank : ℕ → ℕ)
      → ((i j : ℕ) → 0 < count i (preds g j) → rank i < rank j)
      → IsWired g
      → (last : ℕ → ℕ) (order : List ℕ) → Inv g last [] order
      → (k j : ℕ) → rank j < k
      → j < g.count
      → count j order ≡ 1
  all_taken rank up v last order inv zero j lt below = absurd (omega arith)
  all_taken rank up v last order inv (suc k) j lt below =
      let full : hits (preds g j) order ≡ length (preds g j) = hits_all (preds g j) order (λ p h.
        all_taken rank up v last order inv k p (omega (arith, up p j h)) (v.known p j h).0) in
      ground (arith, inv.placed j, inv.left j, full, count-nil j)

  Ranking-full : Ranking → (v : IsWired g) (small : IsSmall g) → length final_order ≡ g.count
  Ranking-full (rank, up) v small =
      sym (sum_over-count g.count final_order (only_nodes (final v small).1))
      ∙ sum_over-one g.count _ (λ j lt.
        all_taken rank up v (final v small).0 final_order (final v small).1 (rank j + 1) j
          (omega arith) lt)

  -- The place of a node in a list.
  place : List ℕ → ℕ → ℕ
  place [] j = 0
  place (x ∷ xs) j = if x == j then 0 else suc (place xs j)

  Follows-place :
      (earlier order : List ℕ) (p j : ℕ)
      → Follows g earlier order
      → 0 < count j order
      → 0 < count p (preds g j)
      → (0 < count p earlier) ⊎ (place order p < place order j)
  unfolding place
  Follows-place earlier [] p j f here edge = absurd (omega (arith, count-nil j))
  Follows-place earlier (k ∷ order) p j f here edge = elim (ℕ_discrete k j) [
    | yes same ↦ inl (f.0 p (subst (λ x. 0 < count p (preds g x)) (sym same) edge))
    | no other ↦ ground (
      arith,
      Follows-place (earlier ++ k ∷ []) order p j f.1 (ground (arith, count-cons j k order)) edge,
      count-snoc p k earlier,
    )
  ]

  IsTopological-Ranking : IsWired g → (order : List ℕ) → IsTopological order → Ranking
  IsTopological-Ranking v order (all, follows) = (
    place order,
    λ i j edge.
        elim (Follows-place [] order i j follows (ground (arith, all j, v.known i j)) edge) [
          | inl before ↦ absurd (omega (arith, count-nil i))
          | inr lt ↦ lt
        ],
  )

  is_acyclic-Ranking : IsWired g → IsSmall g → is_acyclic g ≡ true → Ranking
  unfolding is_acyclic
  is_acyclic-Ranking v small h = elim (topological_order-IsTopological v small) [
    | inl none_found ↦
        let no_nodes : g.count ≡ 0 = ground (arith, ap length none_found) in
        (λ _. 0, λ i j edge. absurd (ground (arith, v.known i j)))
    | inr found ↦ IsTopological-Ranking v (topological_order g) found
  ]

  Ranking-is_acyclic : IsWired g → IsSmall g → Ranking → is_acyclic g ≡ true
  unfolding is_acyclic topological_order
  Ranking-is_acyclic v small r = ground (arith, Ranking-full r v small)

  -- `is_acyclic` decides whether the graph has no cycle.
  pub is_acyclic_iff : IsWired g → IsSmall g → (is_acyclic g ≡ true) ↔ Ranking
  is_acyclic_iff v small = (is_acyclic-Ranking v small, Ranking-is_acyclic v small)
