-- ===== src/Cpu/Topology/Detect.antt =====
-- detect of thunderbolt/cpu/topology/CpuTopology.cpp.
use thunder_bolt_ht.Base.{ℕ, Bool, true, false, ltb, if◌then◌else◌, Option, none, some, List}
use thunder_bolt_ht.Cpu.Topology.{CpuTopology, no_topology}
use thunder_bolt_ht.Cpu.Topology.Brand.{Registers, query_brand}
use thunder_bolt_ht.Cpu.Topology.Linux.{query_linux_topology}
use thunder_bolt_ht.Cpu.Topology.Windows.{ProcessorInfo, query_windows_topology}

-- The operating system, with what it answers.
pub data Platform : Type 0 where
  windows : Option (List ProcessorInfo) → Platform
  linux : Option (List (List ℕ)) → (ℕ → Option ℕ) → (ℕ → Option ℕ) → Platform
  other_platform : Platform

unfoldable pub query : Platform → CpuTopology → Option (Bool × CpuTopology)
query (windows infos) out = some (query_windows_topology infos out)
query (linux names read_package read_core) out =
    query_linux_topology names read_package read_core out
query other_platform out = some (out.detected, out)

-- The fallback, from what std::thread::hardware_concurrency answers.
unfoldable pub conclude : ℕ → Bool × CpuTopology → CpuTopology
conclude hw (true, t) = record t { detected = true }
conclude hw (false, t) = record t {
  detected = false;
  logical_processor_count = if ltb 0 hw then hw else 1;
  physical_core_count = 0;
  package_count = 0;
}

unfoldable pub detect : Platform → (ℕ → Registers) → ℕ → Option CpuTopology
detect platform cpuid hw =
    elim (query platform (record no_topology { brand = query_brand cpuid })) [
      | none ↦ none
      | some answer ↦ some (conclude hw answer)
    ]
