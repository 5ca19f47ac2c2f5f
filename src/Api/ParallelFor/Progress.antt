-- ===== src/Api/ParallelFor/Progress.antt =====
-- How many claims it takes until a task leaves its loop.
use native.Mathlib.Nat.{div-add-mod}
use thunder_bolt_ht.Base.{
  ℕ, zero, suc, ◌+◌, ◌-◌, ◌*◌, ◌^◌, ◌≤◌, ◌<◌, ◌≡◌, true, false, leb, List, [], ◌∷◌, update_self,
  arith, Bool-cases, inl, inr, count, count-nil, count-cons, ℕ_discrete,
}
use thunder_bolt_ht.Api.ParallelFor.{
  effective_grain, batch_count, task_count, Claims, claim, run, initial_claims, parallel_for,
}
use thunder_bolt_ht.Api.ParallelFor.Coverage.{
  Inv, claim-Inv, claim-cursor, initial-Inv, effective_grain_pos,
}

batch_count-covers : (c grain : ℕ) → 0 < grain → c ≤ grain * batch_count c grain
unfolding batch_count
batch_count-covers c grain pos = grind (arith, div-add-mod)

mul-unroll : (m k : ℕ) → 0 < k → m * k ≡ m + m * (k - 1)
mul-unroll m zero h = absurd (omega arith)
mul-unroll m (suc k) h =
    let e : suc k - 1 ≡ k = omega arith in
    let one_more : suc k ≡ k + 1 = omega arith in rw (e, one_more) (grind arith)

module _ (begin stop grain tasks : ℕ) (pos : 0 < grain)
    (fits : stop + grain * (tasks + 1) < 2 ^ 64) where
  claim-finished :
      (s : Claims) (other task : ℕ)
      → s.finished task ≡ true
      → (claim stop grain tasks s other).finished task ≡ true
  unfolding claim
  claim-finished s other task done = ground (arith, done)

  run-finished :
      (s : Claims) (schedule : List ℕ) (task : ℕ)
      → s.finished task ≡ true
      → (run stop grain tasks s schedule).finished task ≡ true
  unfolding run
  run-finished s [] task done = done
  run-finished s (other ∷ schedule) task done =
      run-finished (claim stop grain tasks s other) schedule task (claim-finished s other task done)

  claim-leaves :
      (s : Claims) (task : ℕ)
      → task < tasks
      → stop ≤ s.cursor
      → (claim stop grain tasks s task).finished task ≡ true
  unfolding claim
  claim-leaves s task lt out = ground (arith, update_self s.finished task true)

  not_before :
      (s : Claims) (other task : ℕ)
      → (claim stop grain tasks s other).finished task ≡ false
      → s.finished task ≡ false
  not_before s other task working = ground (arith, claim-finished s other task, working)

  not_exhausted :
      (s : Claims) (other task : ℕ)
      → other ≡ task
      → task < tasks
      → (claim stop grain tasks s other).finished task ≡ false
      → s.cursor < stop
  not_exhausted s other task same lt working =
      let still : (claim stop grain tasks s task).finished task ≡ false = rw same at working in
      ground (arith, claim-leaves s task lt, still)

  -- `k` claims are enough to use up the range.
  run-finishes :
      (s : Claims) (schedule : List ℕ) (task k : ℕ)
      → Inv begin stop grain tasks pos fits s
      → task < tasks
      → stop ≤ s.cursor + grain * k
      → k < count task schedule
      → (run stop grain tasks s schedule).finished task ≡ true
  unfolding run
  run-finishes s [] task k v lt enough more = absurd (omega (arith, count-nil task))
  run-finishes s (other ∷ schedule) task k v lt enough more =
      let next : Claims = claim stop grain tasks s other in
      let moved = claim-cursor begin stop grain tasks pos fits s other v in
      let v' = claim-Inv begin stop grain tasks pos fits s other v in
      elim (ℕ_discrete other task) [
        | no different ↦
            run-finishes next schedule task k v' lt (ground (arith, moved))
              (ground (arith, count-cons task other schedule))
        | yes same ↦ elim (Bool-cases (next.finished task)) [
          | inl done ↦ run-finished next schedule task done
          | inr working ↦
              let fresh : s.finished task ≡ false = not_before s other task working in
              let short : s.cursor < stop = not_exhausted s other task same lt working in
              let some_left : 0 < k = grind arith in
              let unrolled : grain * k ≡ grain + grain * (k - 1) = mul-unroll grain k some_left in
              let advanced : next.cursor ≡ s.cursor + grain =
                ground (arith, moved, rw (← same) at fresh, rw (← same) at lt) in
              run-finishes next schedule task (k - 1) v' lt (omega (arith, advanced, unrolled))
                (ground (arith, count-cons task other schedule))
        ]
      ]

-- A task leaves its loop when it has claimed once more than there are batches, whatever the others
-- claim in between, if the range is not empty and the cursor cannot wrap.
pub parallel_for-finishes :
    (begin stop grain workers : ℕ) (schedule : List ℕ) (task : ℕ)
    → begin < stop
    → stop
        + effective_grain grain
          * (task_count (batch_count (stop - begin) (effective_grain grain)) workers + 1)
      < 2 ^ 64
    → task < task_count (batch_count (stop - begin) (effective_grain grain)) workers
    → batch_count (stop - begin) (effective_grain grain) < count task schedule
    → (parallel_for begin stop grain workers schedule).finished task ≡ true
unfolding parallel_for
parallel_for-finishes begin stop grain workers schedule task lt fits known enough =
    let g : ℕ = effective_grain grain in
    let pos : 0 < g = effective_grain_pos grain in
    let batches : ℕ = batch_count (stop - begin) g in
    let tasks : ℕ = task_count batches workers in
    let some_range : leb stop begin ≡ false = ground arith in
    rw some_range (
      run-finishes begin stop g tasks pos fits (initial_claims begin) schedule task batches
        (initial-Inv begin stop g tasks pos fits (omega arith)) known
        (omega (arith, batch_count-covers (stop - begin) g pos)) enough)
