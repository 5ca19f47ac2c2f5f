-- ===== src/Cpu/Topology.antt =====
-- thunderbolt/cpu/topology/CpuTopology.hpp: what is known of the processor.
--
-- A core is the list of its logical processors, a text the list of its bytes.
pub mod Brand
pub mod Linux
pub mod Windows
pub mod Detect
pub mod Totals
pub mod Grouped
pub mod Shared
pub mod Answers
pub mod Counts
use thunder_bolt_ht.Base.{
  ℕ, ◌+◌, ◌%◌, ◌^◌, Bool, false, ◌&&◌, ltb, leb, if◌then◌else◌, List, [], ◌∷◌, length,
}

pub record CpuTopology : Type 0 where
  pub logical_processor_count : ℕ
  pub physical_core_count : ℕ
  pub package_count : ℕ
  pub cores : List (List ℕ)
  pub brand : List ℕ
  pub detected : Bool

abbrev pub no_topology : CpuTopology
no_topology = record {
  logical_processor_count = 0;
  physical_core_count = 0;
  package_count = 0;
  cores = [];
  brand = [];
  detected = false;
}

-- `CoreInfo::is_smt`.
unfoldable pub is_smt : List ℕ → Bool
is_smt core = ltb 1 (length core)

unfoldable pub has_smt : CpuTopology → Bool
has_smt t =
    t.detected
    && (ltb 0 t.physical_core_count && ltb t.physical_core_count t.logical_processor_count)

-- The sum of the sizes of the cores, in 32 bits.
unfoldable pub logical_total : List (List ℕ) → ℕ → ℕ
logical_total [] total = total
logical_total (core ∷ cores) total = logical_total cores ((total + length core % 2 ^ 32) % 2 ^ 32)
