-- ===== src/Core/Graph/Submit.antt =====
-- TaskGraph::submit and submit_and_wait, over any runtime with `submit_after` and `wait`.
use thunder_bolt_ht.Base.{
  none, ℕ, zero, suc, ◌+◌, ◌≤◌, ◌<◌, ◌≡◌, ◌≢◌, ◌⊎◌, refl, sym, ap, ap₂, ◌∙◌, Bool, true, false,
  ◌&&◌, ◌||◌, not, ◌==◌, if◌then◌else◌, List, [], ◌∷◌, ◌++◌, map, arith, count, count-nil,
  count-cons, update, update_self, update_ne, length, Bool-cases, inl, inr,
}
use thunder_bolt_ht.Api.Types.{TaskDesc, TaskHandle, invalid_handle}
use thunder_bolt_ht.Core.Graph.{TaskGraph, topological_order}
use thunder_bolt_ht.Core.Graph.Relax.{count-snoc}
use thunder_bolt_ht.Core.Graph.Wiring.{preds, IsWired}
use thunder_bolt_ht.Core.Graph.Order.{Follows, IsSmall}
use thunder_bolt_ht.Core.Graph.Acyclic.{IsTopological, topological_order-IsTopological}

map-congr-count {ℓ} :
    {A : Type ℓ} (f g : ℕ → A) (xs : List ℕ)
    → ((x : ℕ) → 0 < count x xs → f x ≡ g x)
    → map f xs ≡ map g xs
map-congr-count f g [] h = refl
map-congr-count f g (x ∷ xs) h =
    ap₂ ◌∷◌ (h x (ground (arith, count-cons x x xs)))
      (map-congr-count f g xs (λ y lt. h y (omega (arith, lt, count-cons y x xs))))

-- The entries 0 to n - 1 of a table.
pub entries : (ℕ → TaskHandle) → ℕ → List TaskHandle
entries table zero = []
entries table (suc n) = entries table n ++ table n ∷ []

module _ {S F : Type 0} (submit_after : S → TaskDesc F → List TaskHandle → S × TaskHandle)
    (wait : S → TaskHandle → S) where
  -- The loop over the order, with the table of handles.
  pub submit_nodes : TaskGraph F → (ℕ → TaskHandle) → List ℕ → S → (ℕ → TaskHandle) × S
  submit_nodes g handles [] s = (handles, s)
  submit_nodes g handles (id ∷ order) s =
      let r = submit_after s (g.nodes id).desc (map handles (preds g id)) in
      submit_nodes g (update handles id r.1) order r.0

  -- An empty graph and a cyclic one give the empty vector. Both policies for a cycle return it, but for
  -- the assertion in debug builds.
  unfoldable pub submit : TaskGraph F → S → List TaskHandle × S
  submit g s =
      let order = topological_order g in
      if g.count == 0 || length order == 0
      then ([], s)
      else (let r = submit_nodes g (λ _. invalid_handle) order s in (entries r.0 g.count, r.1))

  -- `std::move(node.desc)`: the bodies of the nodes that were submitted are gone from the graph.
  pub spent : TaskGraph F → List ℕ → TaskGraph F
  spent g [] = g
  spent g (id ∷ order) =
      let node = g.nodes id in
      let desc = node.desc in
      spent
        (record g {
          nodes = update g.nodes id (record node { desc = record desc { function = none } });
        })
        order

  -- The graph after `submit`. No node comes twice in the order, so `submit_nodes` reads each body
  -- before it is moved.
  pub graph_after_submit : TaskGraph F → TaskGraph F
  graph_after_submit g = spent g (topological_order g)

  pub wait_each : List TaskHandle → S → S
  wait_each [] s = s
  wait_each (h ∷ hs) s = wait_each hs (wait s h)

  unfoldable pub submit_and_wait : TaskGraph F → S → Bool × S
  submit_and_wait g s =
      let r = submit g s in
      if length r.0 == 0 && not (g.count == 0) then (false, r.1) else (true, wait_each r.0 r.1)

  -- The runtime is called once for each node of the list, in its order, with the node's body and
  -- the handles of its predecessors in `table`, and it returns the handle in `table`.
  abbrev pub Submitted : TaskGraph F → (ℕ → TaskHandle) → List ℕ → S → S → Type 0
  Submitted g table [] s s' = s' ≡ s
  Submitted g table (id ∷ order) s s' =
      let r = submit_after s (g.nodes id).desc (map table (preds g id)) in
      (r.1 ≡ table id) × Submitted g table order r.0 s'

  submit_nodes-keeps :
      (g : TaskGraph F) (handles : ℕ → TaskHandle) (order : List ℕ) (s : S) (j : ℕ)
      → count j order ≡ 0
      → (submit_nodes g handles order s).0 j ≡ handles j
  unfolding submit_nodes
  submit_nodes-keeps g handles [] s j h = refl
  submit_nodes-keeps g handles (id ∷ order) s j h =
      let r : S × TaskHandle = submit_after s (g.nodes id).desc (map handles (preds g id)) in
      let other : id ≢ j = λ e. absurd (ground (arith, h, count-cons j id order)) in
      submit_nodes-keeps g (update handles id r.1) order r.0 j
        (ground (arith, h, count-cons j id order))
      ∙ update_ne handles id j r.1 other

  submit_nodes-Submitted :
      (g : TaskGraph F) (earlier order : List ℕ) (handles : ℕ → TaskHandle) (s : S)
      → Follows g earlier order
      → ((j : ℕ) → count j earlier + count j order ≤ 1)
      → let r = submit_nodes g handles order s in Submitted g r.0 order s r.1
  unfolding submit_nodes
  submit_nodes-Submitted g earlier [] handles s f once = refl
  submit_nodes-Submitted g earlier (id ∷ order) handles s f once =
      let r : S × TaskHandle = submit_after s (g.nodes id).desc (map handles (preds g id)) in
      let next : ℕ → TaskHandle = update handles id r.1 in
      let table : ℕ → TaskHandle = (submit_nodes g next order r.0).0 in
      let same : map table (preds g id) ≡ map handles (preds g id) =
        map-congr-count table handles (preds g id) (λ p edge.
          submit_nodes-keeps g handles (id ∷ order) s p (omega (arith, f.0 p edge, once p))) in
      rw same (
        sym (update_self handles id r.1)
            ∙ sym (
                submit_nodes-keeps g next order r.0 id
                  (ground (arith, once id, count-cons id id order))),
        submit_nodes-Submitted g (earlier ++ id ∷ []) order next r.0 f.1
            (λ j. omega (arith, once j, count-snoc j id earlier, count-cons j id order)),
      )

  -- The graph is refused and the runtime is not called, or the vector has a handle for each node,
  -- and every node was submitted once, after its predecessors and with their handles in that vector.
  pub submit-Submitted :
      (g : TaskGraph F) (s : S)
      → IsWired g
      → IsSmall g
      → (submit g s ≡ ([], s))
        ⊎ ((table : ℕ → TaskHandle) × ((submit g s).0 ≡ entries table g.count)
            × IsTopological g (topological_order g)
            × Submitted g table (topological_order g) s (submit g s).1)
  unfolding submit
  submit-Submitted g s v small =
      elim (Bool-cases (g.count == 0 || length (topological_order g) == 0)) [
        | inl refused ↦ rw refused (inl refl)
        | inr accepted ↦ elim (topological_order-IsTopological g v small) [
          | inl none_found ↦ absurd (ground (arith, accepted, ap length none_found))
          | inr (all, follows) ↦ rw accepted (
              inr (
                (submit_nodes g (λ _. invalid_handle) (topological_order g) s).0,
                refl,
                (all, follows),
                submit_nodes-Submitted g [] (topological_order g) (λ _. invalid_handle) s follows
                    (λ j. ground (arith, all j, count-nil j)),
              ))
        ]
      ]
