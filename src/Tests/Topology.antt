-- ===== src/Tests/Topology.antt =====
-- A machine of two packages whose core numbers repeat, with a processor that is offline.
use thunder_bolt_ht.Base.{
  ℕ, ◌<◌, ◌≡◌, ◌↔◌, refl, true, ◌==◌, if◌then◌else◌, Option, none, some, List, [], ◌∷◌, arith,
  count,
}
use thunder_bolt_ht.Cpu.Topology.{CpuTopology, has_smt, logical_total}
use thunder_bolt_ht.Cpu.Topology.Brand.{
  Registers, query_brand, trim, first_not_space, last_not_blank,
}
use thunder_bolt_ht.Cpu.Topology.Linux.{
  logical_ids, cpu_digits, keys_of, grouped, group_cores, add_logical, push_logical, find_core,
  insert_package, report, sort_cores, sort_logical, place_core, place_logical, query_linux_topology,
}
use thunder_bolt_ht.Cpu.Topology.Windows.{
  ProcessorInfo, processor_core, processor_package, query_windows_topology, finish_windows,
  read_infos, read_info, add_core, core_processors, mask_processors,
}
use thunder_bolt_ht.Cpu.Topology.Detect.{linux, windows, query, conclude, detect}
use thunder_bolt_ht.Cpu.Topology.Totals.{shared_cores}
use thunder_bolt_ht.Cpu.Topology.Shared.{count_read}
use thunder_bolt_ht.Cpu.Affinity.{spread_order}
use thunder_bolt_ht.Cpu.Affinity.Detected.{detect-shared_cores, spread_order-detect}

-- cpu7, cpufreq, cpu0, cpu12, cpu3, cpu1.
abbrev names : List (List ℕ)
names =
    (b'c' ∷ b'p' ∷ b'u' ∷ b'7' ∷ [])
    ∷ (b'c' ∷ b'p' ∷ b'u' ∷ b'f' ∷ [])
    ∷ (b'c' ∷ b'p' ∷ b'u' ∷ b'0' ∷ [])
    ∷ (b'c' ∷ b'p' ∷ b'u' ∷ b'1' ∷ b'2' ∷ [])
    ∷ (b'c' ∷ b'p' ∷ b'u' ∷ b'3' ∷ [])
    ∷ (b'c' ∷ b'p' ∷ b'u' ∷ b'1' ∷ [])
    ∷ []

abbrev read_package : ℕ → Option ℕ
read_package l = if l == 12 then some 1 else some 0

-- Processor 3 is offline.
abbrev read_core : ℕ → Option ℕ
read_core l = if l == 3 then none else if l == 1 then some 4 else some 0

abbrev keys : ℕ → Option (ℕ × ℕ)
keys = keys_of read_package read_core

abbrev blank : ℕ → Registers
blank leaf = record { eax = 0; ebx = 0; ecx = 0; edx = 0 }

names_ids : logical_ids names ≡ some (7 ∷ 0 ∷ 12 ∷ 3 ∷ 1 ∷ [])
unfolding logical_ids cpu_digits
names_ids = refl

two_packages :
    detect (linux (some names) read_package read_core) blank 8
    ≡ some record {
      logical_processor_count = 4;
      physical_core_count = 3;
      package_count = 2;
      cores = (0 ∷ 7 ∷ []) ∷ (1 ∷ []) ∷ (12 ∷ []) ∷ [];
      brand = [];
      detected = true;
    }
unfolding detect query conclude query_linux_topology logical_ids cpu_digits keys_of grouped
    group_cores add_logical push_logical find_core insert_package report sort_cores sort_logical
    place_core place_logical logical_total query_brand
two_packages = refl

abbrev one_core : List ProcessorInfo
one_core =
    record { size = 8; relationship = processor_package }
    ∷ record {
      size = 8;
      relationship =
          processor_core (record { group = 0; mask = 5 } ∷ record { group = 1; mask = 1 } ∷ []);
    }
    ∷ record { size = 0; relationship = processor_package }
    ∷ []

abbrev one_core_topology : CpuTopology
one_core_topology = record {
  logical_processor_count = 3;
  physical_core_count = 1;
  package_count = 1;
  cores = (0 ∷ 2 ∷ 64 ∷ []) ∷ [];
  brand = [];
  detected = true;
}

one_core_detected : detect (windows (some one_core)) blank 8 ≡ some one_core_topology
unfolding detect query conclude query_windows_topology finish_windows read_infos read_info add_core
    core_processors mask_processors logical_total query_brand
one_core_detected = refl

-- "  a b " without the blanks around it.
trimmed : trim (b' ' ∷ b' ' ∷ b'a' ∷ b' ' ∷ b'b' ∷ b' ' ∷ []) ≡ b'a' ∷ b' ' ∷ b'b' ∷ []
unfolding trim first_not_space last_not_blank
trimmed = refl

one_core_smt : has_smt one_core_topology ≡ true
unfolding has_smt
one_core_smt = refl

detect-shared_cores_example :
    (t : CpuTopology) × (detect (linux (some names) read_package read_core) blank 8 ≡ some t)
    × ((0 < shared_cores 7 12 t.cores) ↔ (keys 7 ≡ keys 12))
unfolding count_read keys_of count
detect-shared_cores_example =
    detect-shared_cores names (7 ∷ 0 ∷ 12 ∷ 3 ∷ 1 ∷ []) read_package read_core blank 8 7 12
      names_ids (omega arith) (omega arith)

spread_order-detect_example :
    (t : CpuTopology) × (detect (linux (some names) read_package read_core) blank 8 ≡ some t)
    × (count 7 (spread_order t) ≡ count_read keys 7 (7 ∷ 0 ∷ 12 ∷ 3 ∷ 1 ∷ []))
spread_order-detect_example =
    spread_order-detect names (7 ∷ 0 ∷ 12 ∷ 3 ∷ 1 ∷ []) read_package read_core blank 8 7 names_ids
