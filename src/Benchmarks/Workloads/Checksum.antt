-- ===== src/Benchmarks/Workloads/Checksum.antt =====
-- The checksum does not depend on the order in which the chunks are run.
use thunder_bolt_ht.Base.{
  ℕ, zero, suc, ◌+◌, ◌%◌, ◌^◌, ◌<◌, ◌≡◌, refl, ap, ◌∙◌, List, [], ◌∷◌, arith, some, some_inj,
  length, length-replicate, length-set, get_elem?, get_elem?-set_self, get_elem?-set_ne, count,
  sum_over, ℕ_discrete,
}
use thunder_bolt_ht.Benchmarks.Workloads.{
  ChunkedWorkload, new_workload, chunk_value, run_chunk, run_chunks, add_results, checksum,
  start_for, units_for,
}

sum_over-suc : (n : ℕ) (f : ℕ → ℕ) → sum_over (suc n) f ≡ f 0 + sum_over n (λ i. f (suc i))
unfolding sum_over
sum_over-suc zero f = omega arith
sum_over-suc (suc n) f = omega (arith, sum_over-suc n f)

add_results-sum_over :
    (f : ℕ → ℕ) (results : List ℕ) (total : ℕ)
    → ((j : ℕ) → j < length results → get_elem? results j ≡ some (f j))
    → total < 2 ^ 64
    → add_results results total ≡ (total + sum_over (length results) f) % 2 ^ 64
unfolding add_results sum_over
add_results-sum_over f [] total h lt = omega (arith, lt)
add_results-sum_over f (r ∷ rs) total h lt =
    let at : r ≡ f 0 = some_inj (h 0 (omega arith)) in
    omega (
      arith,
      at,
      sum_over-suc (length rs) f,
      add_results-sum_over (λ j. f (suc j)) rs ((total + r) % 2 ^ 64)
          (λ j l. h (suc j) (omega (arith, l))) (omega arith),
    )

-- Chunk `j` has its value.
IsRun : ChunkedWorkload → ℕ → Type 0
IsRun w j = get_elem? w.results j ≡ some (chunk_value w j)

run_chunk_self : (w : ChunkedWorkload) (j : ℕ) → j < length w.results → IsRun (run_chunk w j) j
unfolding run_chunk IsRun chunk_value start_for units_for
run_chunk_self w j lt = get_elem?-set_self w.results j (chunk_value w j) lt

run_chunk-keeps :
    (w : ChunkedWorkload) (i j : ℕ) → j < length w.results → IsRun w j → IsRun (run_chunk w i) j
unfolding run_chunk IsRun chunk_value start_for units_for
run_chunk-keeps w i j lt e = elim (ℕ_discrete i j) [
  | yes same ↦ rw same (get_elem?-set_self w.results j (chunk_value w j) lt)
  | no other ↦ get_elem?-set_ne w.results (chunk_value w i) other ∙ e
]

length-run_chunk : (w : ChunkedWorkload) (i : ℕ) → length (run_chunk w i).results ≡ length w.results
unfolding run_chunk
length-run_chunk w i = length-set w.results i (chunk_value w i)

run_chunks-keeps :
    (w : ChunkedWorkload) (order : List ℕ) (j : ℕ)
    → j < length w.results
    → IsRun w j
    → IsRun (run_chunks w order) j
unfolding run_chunks
run_chunks-keeps w [] j lt e = e
run_chunks-keeps w (i ∷ order) j lt e =
    run_chunks-keeps (run_chunk w i) order j (omega (arith, lt, length-run_chunk w i))
      (run_chunk-keeps w i j lt e)

run_chunks-IsRun :
    (w : ChunkedWorkload) (order : List ℕ) (j : ℕ)
    → j < length w.results
    → 0 < count j order
    → IsRun (run_chunks w order) j
unfolding run_chunks count
run_chunks-IsRun w [] j lt pos = absurd (omega (arith, pos))
run_chunks-IsRun w (i ∷ order) j lt pos =
    let fits : j < length (run_chunk w i).results = omega (arith, lt, length-run_chunk w i) in
    elim (ℕ_discrete i j) [
      | yes same ↦ run_chunks-keeps (run_chunk w i) order j fits (rw same (run_chunk_self w j lt))
      | no other ↦ run_chunks-IsRun (run_chunk w i) order j fits (ground (arith, other, pos))
    ]

run_chunks-same :
    (w : ChunkedWorkload) (order : List ℕ)
    → (chunk_value (run_chunks w order) ≡ chunk_value w)
      × (length (run_chunks w order).results ≡ length w.results)
unfolding run_chunks run_chunk chunk_value start_for units_for
run_chunks-same w [] = (refl, refl)
run_chunks-same w (i ∷ order) =
    let r = run_chunks-same (run_chunk w i) order in (r.0, r.1 ∙ length-run_chunk w i)

-- However a runtime orders the chunks of a workload, as long as it runs each of them, the checksum is
-- the sum of the values of the chunks, modulo 2 ^ 64.
pub checksum-run_chunks :
    (total_units chunk_count : ℕ) (order : List ℕ)
    → ((j : ℕ) → j < chunk_count → 0 < count j order)
    → let w = new_workload total_units chunk_count in
      checksum (run_chunks w order) ≡ sum_over chunk_count (chunk_value w) % 2 ^ 64
unfolding new_workload checksum IsRun
checksum-run_chunks total_units chunk_count order all =
    let w = new_workload total_units chunk_count in
    let same = run_chunks-same w order in
    let len : length w.results ≡ chunk_count = length-replicate chunk_count 0 in
    add_results-sum_over (chunk_value w) (run_chunks w order).results 0
      (λ j lt.
        run_chunks-IsRun w order j (omega (arith, lt, same.1))
          (all j (omega (arith, lt, same.1, len)))
        ∙ ap (λ v. some (v j)) same.0)
      (omega arith)
    ∙ ap (λ n. (0 + sum_over n (chunk_value w)) % 2 ^ 64) (same.1 ∙ len)
    ∙ omega arith
