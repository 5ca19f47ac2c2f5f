-- ===== src/Benchmarks/Workloads/Chunks.antt =====
-- The chunks tile the units.
use native.Mathlib.Nat.{mul-le-mul_left, mul-le-mul_right, mul-suc, div-add-mod}
use thunder_bolt_ht.Base.{
  ℕ, zero, suc, ◌+◌, ◌*◌, ◌/◌, ◌%◌, ◌^◌, ◌≤◌, ◌<◌, ◌≡◌, refl, ap, ◌∙◌, ◌==◌, if◌then◌else◌, arith,
  sum_over,
}
use thunder_bolt_ht.Benchmarks.Workloads.{ChunkedWorkload, units_for, start_for}

-- The units of each chunk but the last.
abbrev base : ChunkedWorkload → ℕ
base w = w.total_units / w.chunk_count

module _ (w : ChunkedWorkload) (fits : w.total_units < 2 ^ 64)
    (chunks : w.chunk_count < 2 ^ 64) where
  units_for_lem :
      (i : ℕ)
      → i < w.chunk_count
      → units_for w i
        ≡ base w + (if i + 1 == w.chunk_count then w.total_units % w.chunk_count else 0)
  unfolding units_for
  units_for_lem i lt =
      let whole = div-add-mod w.total_units w.chunk_count in
      let one : 1 * base w ≤ w.chunk_count * base w =
        mul-le-mul_right (base w) (omega (arith, lt)) in
      let small : (i + 1) % 2 ^ 64 ≡ i + 1 = omega (arith, lt, chunks) in
      rw small (ground (arith, whole, one, fits))

  start_for_lem : (i : ℕ) → i ≤ w.chunk_count → start_for w i ≡ base w * i
  unfolding start_for
  start_for_lem i le =
      let whole = div-add-mod w.total_units w.chunk_count in
      let below : base w * i ≤ base w * w.chunk_count = mul-le-mul_left (base w) le in
      omega (arith, whole, below, fits)

  units_before : (i : ℕ) → i < w.chunk_count → sum_over i (units_for w) ≡ base w * i
  unfolding sum_over
  units_before zero lt = omega arith
  units_before (suc i) lt = ground (
    arith,
    units_before i (omega (arith, lt)),
    units_for_lem i (omega (arith, lt)),
    lt,
    mul-suc (base w) i,
  )

  all_units : (n : ℕ) → w.chunk_count ≡ suc n → sum_over (suc n) (units_for w) ≡ w.total_units
  unfolding sum_over
  all_units n e =
      let whole = div-add-mod w.total_units w.chunk_count in
      let last : base w * w.chunk_count ≡ base w * n + base w =
        ap (λ k. base w * k) e ∙ mul-suc (base w) n in
      ground (
        arith,
        e,
        whole,
        last,
        units_before n (omega (arith, e)),
        units_for_lem n (omega (arith, e)),
      )

-- Each chunk of a workload starts where the chunks before it end, and all chunks together have all
-- of its units, where there is a chunk and both numbers have 64 bits.
pub sum_over-units_for :
    (w : ChunkedWorkload) (i : ℕ)
    → w.total_units < 2 ^ 64
    → w.chunk_count < 2 ^ 64
    → i < w.chunk_count
    → (sum_over i (units_for w) ≡ start_for w i)
      × (sum_over w.chunk_count (units_for w) ≡ w.total_units)
sum_over-units_for w i fits chunks lt = (
  omega (arith, units_before w fits chunks i lt, start_for_lem w fits chunks i (omega (arith, lt))),
  all_chunks w.chunk_count refl (omega (arith, lt)),
)
  where
    all_chunks : (n : ℕ) → w.chunk_count ≡ n → 0 < n → sum_over n (units_for w) ≡ w.total_units
    all_chunks zero e pos = absurd (omega (arith, pos))
    all_chunks (suc n) e pos = all_units w fits chunks n e
