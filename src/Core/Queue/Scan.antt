-- ===== src/Core/Queue/Scan.antt =====
-- The scan over the priorities, which GlobalQueue::pop_with_priority, StandardRuntime::pop_locked
-- and ThunderboltRuntime::pop_inbox share.
use thunder_bolt_ht.Base.{
  ℕ, zero, suc, ◌+◌, ◌-◌, ◌≤◌, ◌<◌, ◌≡◌, inl, inr, refl, Bool, true, false, if◌then◌else◌, Option,
  none, some, List, [], ◌∷◌, arith, List-cases, dec_lt, subst, sym, ap, ◌∙◌,
}
use thunder_bolt_ht.Api.Types.{priority_count}

-- `lowest_first ? (kPriorityCount - 1 - i) : i`
abbrev pub level : Bool → ℕ → ℕ
level lowest_first i = if lowest_first then priority_count - 1 - i else i

module _ {ℓ} {A : Type ℓ} where
  -- The loop with `rounds` rounds to go, so at `i = kPriorityCount - rounds`: the first queue that
  -- is not empty, its front and what is behind it.
  unfoldable pub scan : (ℕ → List A) → Bool → ℕ → Option (ℕ × A × List A)
  scan queues lowest_first zero = none
  scan queues lowest_first (suc rounds) =
      let p = level lowest_first (priority_count - suc rounds) in
      let rest = scan queues lowest_first rounds in
      elim (queues p) [ [] ↦ rest | handle ∷ behind ↦ some (p, handle, behind) ]

-- The scan visits queue `j` before queue `p`.
abbrev pub Before : Bool → ℕ → ℕ → Type 0
Before true j p = p < j
Before false j p = j < p

level-level :
    (lowest_first : Bool) (j : ℕ)
    → j < priority_count
    → level lowest_first (level lowest_first j) ≡ j
level-level true j h = omega arith
level-level false j h = refl

pub level_lt :
    (lowest_first : Bool) (j : ℕ) → j < priority_count → level lowest_first j < priority_count
level_lt true j h = omega arith
level_lt false j h = h

level-Before :
    (lowest_first : Bool) (i j : ℕ)
    → i < priority_count
    → j < priority_count
    → Before lowest_first j (level lowest_first i)
    → level lowest_first j < i
level-Before true i j hi hj b = omega arith
level-Before false i j hi hj b = b

module _ {A : Type 0} where
  -- What the scan finds: the front of a queue, with every queue that comes before it empty; or that
  -- all are empty.
  abbrev pub Found : (ℕ → List A) → Bool → Option (ℕ × A × List A) → Type 0
  Found queues lowest_first none = (j : ℕ) → j < priority_count → queues j ≡ []
  Found queues lowest_first (some (p, handle, behind)) =
      (p < priority_count)
      × (queues p ≡ handle ∷ behind)
      × ((j : ℕ) → j < priority_count → Before lowest_first j p → queues j ≡ [])

  Passed : (ℕ → List A) → Bool → ℕ → Type 0
  Passed queues lowest_first i =
      (j : ℕ) → j < priority_count → level lowest_first j < i → queues j ≡ []

  Passed-suc :
      (queues : ℕ → List A) (lowest_first : Bool) (i : ℕ)
      → i < priority_count
      → Passed queues lowest_first i
      → queues (level lowest_first i) ≡ []
      → Passed queues lowest_first (i + 1)
  unfolding Passed
  Passed-suc queues lowest_first i hi passed e j hj lt = elim (dec_lt (level lowest_first j) i) [
    | yes before ↦ passed j hj before
    | no here ↦
        let at : level lowest_first j ≡ i = omega arith in
        subst (λ k. queues k ≡ [])
          (ap (level lowest_first) (sym at) ∙ level-level lowest_first j hj) e
  ]

  scan_from :
      (queues : ℕ → List A) (lowest_first : Bool) (rounds : ℕ)
      → rounds ≤ priority_count
      → Passed queues lowest_first (priority_count - rounds)
      → Found queues lowest_first (scan queues lowest_first rounds)
  unfolding scan Passed
  scan_from queues lowest_first zero le passed = λ j hj. passed j hj (level_lt lowest_first j hj)
  scan_from queues lowest_first (suc rounds) le passed =
      let i : ℕ = priority_count - suc rounds in
      elim (List-cases (queues (level lowest_first i))) [
        | inl empty ↦
            rw (empty, scan)
              (scan_from queues lowest_first rounds (omega arith) (
                subst (Passed queues lowest_first) (omega arith)
                  (Passed-suc queues lowest_first i (omega arith) passed empty)))
        | inr (handle, behind, e) ↦
            rw (e, scan)
              (
                level_lt lowest_first i (omega arith),
                e,
                λ j hj b. passed j hj (level-Before lowest_first i j (omega arith) hj b),
              )
      ]

  -- The whole scan.
  pub scan-Found :
      (queues : ℕ → List A) (lowest_first : Bool)
      → Found queues lowest_first (scan queues lowest_first priority_count)
  unfolding Passed
  scan-Found queues lowest_first =
      scan_from queues lowest_first priority_count (omega arith) (λ j hj lt. absurd (omega arith))
