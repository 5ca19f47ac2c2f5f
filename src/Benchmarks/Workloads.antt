-- ===== src/Benchmarks/Workloads.antt =====
-- thunderbolt/benchmarks/workloads/Workloads.hpp: the work that the runtimes are measured on.
--
-- A chunk count of 0 divides by zero in the source, and is outside of the model.
use Prim.Native.Nat.{bit_xor}
pub mod Chunks
pub mod Checksum
use thunder_bolt_ht.Base.{
  ℕ, zero, suc, ◌+◌, ◌*◌, ◌/◌, ◌%◌, ◌^◌, ◌==◌, if◌then◌else◌, List, [], ◌∷◌, set, replicate,
}

-- One unit of work.
unfoldable pub mix : ℕ → ℕ
mix x =
    let a = (bit_xor x (x / 2 ^ 33) * 0xff51afd7ed558ccd) % 2 ^ 64 in
    let b = (bit_xor a (a / 2 ^ 33) * 0xc4ceb9fe1a85ec53) % 2 ^ 64 in bit_xor b (b / 2 ^ 33)

-- The loop of work_range, with `units` to go.
unfoldable pub work_from : ℕ → ℕ → ℕ → ℕ
work_from zero unit accumulator = accumulator
work_from (suc units) unit accumulator =
    work_from units (unit + 1) (mix (bit_xor accumulator (unit % 2 ^ 64)))

unfoldable pub work_range : ℕ → ℕ → ℕ
work_range start count = work_from count start ((start * 0x9E3779B97F4A7C15) % 2 ^ 64)

pub record ChunkedWorkload : Type 0 where
  pub total_units : ℕ
  pub chunk_count : ℕ
  pub results : List ℕ

unfoldable pub new_workload : ℕ → ℕ → ChunkedWorkload
new_workload total_units chunk_count = record {
  total_units = total_units;
  chunk_count = chunk_count;
  results = replicate chunk_count 0;
}

unfoldable pub units_for : ChunkedWorkload → ℕ → ℕ
units_for w index =
    let base = w.total_units / w.chunk_count in
    let rest = w.total_units % w.chunk_count in
    (base + (if (index + 1) % 2 ^ 64 == w.chunk_count then rest else 0)) % 2 ^ 64

unfoldable pub start_for : ChunkedWorkload → ℕ → ℕ
start_for w index = ((w.total_units / w.chunk_count) * index) % 2 ^ 64

-- The value that run_chunk writes.
unfoldable pub chunk_value : ChunkedWorkload → ℕ → ℕ
chunk_value w index = work_range (start_for w index) (units_for w index)

unfoldable pub run_chunk : ChunkedWorkload → ℕ → ChunkedWorkload
run_chunk w index = record w { results = set w.results index (chunk_value w index) }

unfoldable pub add_results : List ℕ → ℕ → ℕ
add_results [] total = total
add_results (result ∷ results) total = add_results results ((total + result) % 2 ^ 64)

unfoldable pub checksum : ChunkedWorkload → ℕ
checksum w = add_results w.results 0

-- The chunks in the order in which a runtime runs them.
unfoldable pub run_chunks : ChunkedWorkload → List ℕ → ChunkedWorkload
run_chunks w [] = w
run_chunks w (index ∷ order) = run_chunks (run_chunk w index) order
