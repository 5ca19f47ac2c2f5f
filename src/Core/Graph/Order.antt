-- ===== src/Core/Graph/Order.antt =====
-- Kahn's algorithm: what the order holds, and when it is empty.
use thunder_bolt_ht.Base.{
  ℕ, ◌+◌, ◌^◌, ◌≤◌, ◌<◌, ◌≡◌, refl, ap, ltb, ◌==◌, if◌then◌else◌, List, [], ◌∷◌, ◌++◌, append_assoc,
  append-nil, arith, count, count-nil, count-cons, count_empty, length,
}
use thunder_bolt_ht.Core.Graph.{TaskGraph, relax}
use thunder_bolt_ht.Core.Graph.Relax.{relax-at, count-snoc}
use thunder_bolt_ht.Core.Graph.Wiring.{preds, succs, IsWired}

-- How many of `ps` are in `order`.
pub hits : List ℕ → List ℕ → ℕ
hits [] order = 0
hits (p ∷ ps) order = count p order + hits ps order

pub hits-nil : (ps : List ℕ) → hits ps [] ≡ 0
unfolding hits
hits-nil [] = refl
hits-nil (p ∷ ps) = omega (arith, count-nil p, hits-nil ps)

hits-snoc : (ps order : List ℕ) (x : ℕ) → hits ps (order ++ x ∷ []) ≡ hits ps order + count x ps
unfolding hits
hits-snoc [] order x = omega (arith, count-nil x)
hits-snoc (p ∷ ps) order x =
    ground (arith, count-snoc p x order, hits-snoc ps order x, count-cons x p ps)

pub hits_all :
    (ps order : List ℕ) → ((p : ℕ) → 0 < count p ps → count p order ≡ 1) → hits ps order ≡ length ps
unfolding hits
hits_all [] order h = refl
hits_all (p ∷ ps) order h = ground (
  arith,
  h p,
  count-cons p p ps,
  hits_all ps order (λ q lt. h q (omega (arith, lt, count-cons q p ps))),
)

-- Where each node is listed at most once, all of `ps` are listed if the hits are as many.
pub hits-full :
    (ps order : List ℕ)
    → ((p : ℕ) → count p order ≤ 1)
    → (hits ps order ≤ length ps)
      × (hits ps order ≡ length ps → (p : ℕ) → 0 < count p ps → 0 < count p order)
unfolding hits
hits-full [] order once = (omega arith, λ e p h. absurd (omega (arith, count-nil p)))
hits-full (q ∷ ps) order once =
    let rest = hits-full ps order once in
    (
      omega (arith, rest.0, once q),
      λ e p h. ground (
        arith,
        rest.0,
        once q,
        rest.1 (omega (arith, rest.0, once q)) p,
        count-cons p q ps,
        λ (i : q ≡ p). ap (λ k. count k order) i,
      ),
    )

module _ {F : Type 0} (g : TaskGraph F) where
  -- Each node of the list follows all its predecessors, given those that come before the list.
  abbrev pub Follows : List ℕ → List ℕ → Type 0
  Follows earlier [] = Unit {0}
  Follows earlier (j ∷ order) =
      ((p : ℕ) → 0 < count p (preds g j) → 0 < count p earlier) × Follows (earlier ++ j ∷ []) order

  pub Follows-snoc :
      (earlier order : List ℕ) (j : ℕ)
      → Follows earlier order
      → ((p : ℕ) → 0 < count p (preds g j) → 0 < count p (earlier ++ order))
      → Follows earlier (order ++ j ∷ [])
  Follows-snoc earlier [] j f h = (λ p lt. rw (append-nil earlier) at (h p lt), tt)
  Follows-snoc earlier (k ∷ order) j f h = (
    f.0,
    Follows-snoc (earlier ++ k ∷ []) order j f.1
        (λ p lt. rw (append_assoc earlier (k ∷ []) order) (h p lt)),
  )

  -- The loop invariant.
  pub record Inv (remaining : ℕ → ℕ) (ready order : List ℕ) : Type 0 where
    pub small : (j : ℕ) → remaining j < 2 ^ 32
    pub left : (j : ℕ) → remaining j + hits (preds g j) order ≡ length (preds g j)
    pub placed :
        (j : ℕ)
        → count j order + count j ready
          ≡ (if ltb j g.count then (if remaining j == 0 then 1 else 0) else 0)
    pub follows : Follows [] order

  abbrev pub IsSmall : Type 0
  IsSmall = (j : ℕ) → length (preds g j) < 2 ^ 32

module _ {F : Type 0} (g : TaskGraph F) (v : IsWired g) where
  pub no_preds : (j : ℕ) → g.count ≤ j → length (preds g j) ≡ 0
  no_preds j h = ap length (count_empty (preds g j) (λ p. ground (arith, v.known p j)))

  module _ {remaining : ℕ → ℕ} {id : ℕ} {ready order : List ℕ}
      (inv : Inv g remaining (id ∷ ready) order) where
    once : (p : ℕ) → count p (order ++ id ∷ []) ≤ 1
    once p = ground (arith, inv.placed p, count-snoc p id order, count-cons p id ready)

    taken_zero : (id < g.count) × (remaining id ≡ 0)
    taken_zero = (
      ground (arith, inv.placed id, count-cons id id ready),
      ground (arith, inv.placed id, count-cons id id ready),
    )

    enough : (j : ℕ) → count j (succs g id) ≤ remaining j
    enough j = omega (
      arith,
      v.mirrored id j,
      inv.left j,
      hits-snoc (preds g j) order id,
      (hits-full (preds g j) (order ++ id ∷ []) once).0,
    )

    abbrev pub relaxed : (ℕ → ℕ) × List ℕ
    relaxed = relax (succs g id) remaining ready

    pub Inv-step : Inv g relaxed.0 relaxed.1 (order ++ id ∷ [])
    Inv-step = record {
      small = λ j.
          omega (arith, inv.small j, (relax-at (succs g id) remaining ready inv.small enough j).0);
      left = λ j. omega (
        arith,
        inv.left j,
        hits-snoc (preds g j) order id,
        v.mirrored id j,
        (relax-at (succs g id) remaining ready inv.small enough j).0,
      );
      placed = λ j. ground (
        arith,
        inv.placed j,
        inv.left j,
        no_preds j,
        count-snoc j id order,
        count-cons j id ready,
        relax-at (succs g id) remaining ready inv.small enough j,
      );
      follows = Follows-snoc g [] order id inv.follows (
          (hits-full (preds g id) order (λ p. omega (arith, once p, count-snoc p id order))).1
            (omega (arith, inv.left id, taken_zero.1)));
    }
