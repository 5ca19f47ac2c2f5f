-- ===== src/Core/Graph/Relax.antt =====
-- One round of Kahn's algorithm on the counters and the ready queue.
use thunder_bolt_ht.Base.{
  ℕ, zero, suc, ◌+◌, ◌^◌, ◌≤◌, ◌<◌, ◌≡◌, ap, ◌==◌, if◌then◌else◌, List, [], ◌∷◌, ◌++◌, arith, count,
  count-nil, count-cons, count-append, ℕ_discrete, ltb,
}
use thunder_bolt_ht.Core.Graph.{relax, decremented, initially_ready}

pub count-snoc :
    (j x : ℕ) (xs : List ℕ) → count j (xs ++ x ∷ []) ≡ count j xs + (if x == j then 1 else 0)
count-snoc j x xs = omega (arith, count-append j xs (x ∷ []), count-cons j x [], count-nil j)

decremented-at :
    (remaining : ℕ → ℕ) (s j : ℕ)
    → 0 < remaining s
    → remaining s < 2 ^ 32
    → decremented remaining s j + (if s == j then 1 else 0) ≡ remaining j
decremented-at remaining s j pos small = elim (ℕ_discrete s j) [
  | yes same ↦ ground (arith, ap remaining same)
  | no other ↦ ground arith
]

-- A node joins the ready queue when its counter falls to zero.
abbrev pub joins : ℕ → ℕ → ℕ
joins before after = if before == 0 then 0 else (if after == 0 then 1 else 0)

pub relax-at :
    (ss : List ℕ) (remaining : ℕ → ℕ) (ready : List ℕ)
    → ((j : ℕ) → remaining j < 2 ^ 32)
    → ((j : ℕ) → count j ss ≤ remaining j)
    → (j : ℕ)
    → let r = relax ss remaining ready in
      (r.0 j + count j ss ≡ remaining j)
      × (count j r.1 ≡ count j ready + joins (remaining j) (r.0 j))
unfolding relax
relax-at [] remaining ready small enough j = (omega (arith, count-nil j), ground arith)
relax-at (s ∷ ss) remaining ready small enough j =
    let pos : 0 < remaining s = ground (arith, enough s, count-cons s s ss) in
    let counted : ℕ → ℕ = decremented remaining s in
    let queued : List ℕ = if counted s == 0 then ready ++ s ∷ [] else ready in
    let later =
      relax-at ss counted queued (λ k. ground (arith, small k))
        (λ k.
          ground (arith, enough k, count-cons k s ss, decremented-at remaining s k pos (small s)))
        j in
    elim (ℕ_discrete s j) [
      | yes same ↦ ground (
        arith,
        later,
        ap remaining same,
        ap counted same,
        count-snoc j s ready,
        count-cons j s ss,
        decremented-at remaining s j pos (small s),
        small s,
      )
      | no other ↦ ground (arith, later, count-snoc j s ready, count-cons j s ss)
    ]

pub count-initially_ready :
    (n : ℕ) (remaining : ℕ → ℕ) (j : ℕ)
    → count j (initially_ready n remaining)
      ≡ (if ltb j n then (if remaining j == 0 then 1 else 0) else 0)
unfolding initially_ready
count-initially_ready zero remaining j = ground (arith, count-nil j)
count-initially_ready (suc n) remaining j = ground (
  arith,
  count-initially_ready n remaining j,
  count-append j (initially_ready n remaining) (if remaining n == 0 then n ∷ [] else []),
  count-cons j n [],
  count-nil j,
)
