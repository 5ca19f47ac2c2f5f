-- ===== src/Cpu/Topology/Windows.antt =====
-- query_windows_topology of thunderbolt/cpu/topology/CpuTopology.cpp.
--
-- The records that GetLogicalProcessorInformationEx writes into the buffer are a parameter, in order.
use thunder_bolt_ht.Base.{
  ℕ, zero, suc, ◌+◌, ◌*◌, ◌/◌, ◌%◌, ◌^◌, Bool, true, false, ◌==◌, if◌then◌else◌, Option, none, some,
  List, [], ◌∷◌, ◌++◌, length,
}
use thunder_bolt_ht.Cpu.Topology.{CpuTopology, logical_total}

-- GROUP_AFFINITY: a group and the mask of the processors in it.
pub record GroupAffinity : Type 0 where
  pub group : ℕ
  pub mask : ℕ

pub data Relationship : Type 0 where
  processor_core : List GroupAffinity → Relationship
  processor_package : Relationship
  other_relationship : Relationship

pub record ProcessorInfo : Type 0 where
  pub size : ℕ
  pub relationship : Relationship

-- The processors of a mask from bit `bit` on, with `bits` of the 64 to go.
unfoldable pub mask_processors : ℕ → ℕ → GroupAffinity → List ℕ
mask_processors zero bit g = []
mask_processors (suc bits) bit g =
    let rest = mask_processors bits (bit + 1) g in
    if (g.mask / 2 ^ bit) % 2 == 1 then (g.group * 64 + bit) % 2 ^ 32 ∷ rest else rest

unfoldable pub core_processors : List GroupAffinity → List ℕ
core_processors [] = []
core_processors (g ∷ gs) = mask_processors 64 0 g ++ core_processors gs

-- The case of RelationProcessorCore.
unfoldable pub add_core : List GroupAffinity → CpuTopology → CpuTopology
add_core groups out =
    if length (core_processors groups) == 0
    then out
    else record out { cores = out.cores ++ core_processors groups ∷ [] }

unfoldable pub read_info : Relationship → CpuTopology → CpuTopology
read_info (processor_core groups) out = add_core groups out
read_info processor_package out = record out { package_count = (out.package_count + 1) % 2 ^ 32 }
read_info other_relationship out = out

-- A record of size 0 ends the loop.
unfoldable pub read_infos : List ProcessorInfo → CpuTopology → CpuTopology
read_infos [] out = out
read_infos (info ∷ infos) out =
    let rest = read_infos infos (read_info info.relationship out) in
    if info.size == 0 then out else rest

unfoldable pub finish_windows : CpuTopology → Bool × CpuTopology
finish_windows out = if length out.cores == 0 then (false, out) else (
  true,
  record out {
    physical_core_count = length out.cores % 2 ^ 32;
    logical_processor_count = logical_total out.cores 0;
    package_count = if out.package_count == 0 then 1 else out.package_count;
  },
)

-- No records stand for a call of the operating system that failed.
unfoldable pub query_windows_topology :
    Option (List ProcessorInfo) → CpuTopology → Bool × CpuTopology
query_windows_topology none out = (false, out)
query_windows_topology (some infos) out = finish_windows (read_infos infos out)
