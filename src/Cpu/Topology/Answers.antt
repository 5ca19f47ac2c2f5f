-- ===== src/Cpu/Topology/Answers.antt =====
-- What the queries answer: a counted topology, or one with no cores.
use thunder_bolt_ht.Base.{
  ℕ, suc, ◌%◌, ◌^◌, ◌<◌, ◌≡◌, refl, sym, ap, subst, ◌∙◌, inl, inr, Bool, true, false, ◌==◌,
  if◌then◌else◌, Option, none, some, List, [], ◌∷◌, arith, length, Bool-cases, Option-cases,
  none-some, some_inj, nil_of_length,
}
use thunder_bolt_ht.Cpu.Topology.{CpuTopology, logical_total}
use thunder_bolt_ht.Cpu.Topology.Linux.{
  query_linux_topology, logical_ids, keys_of, group_cores, grouped, report,
}
use thunder_bolt_ht.Cpu.Topology.Windows.{
  GroupAffinity, processor_core, processor_package, other_relationship, Relationship, ProcessorInfo,
  core_processors, add_core, read_info, read_infos, finish_windows, query_windows_topology,
}
use thunder_bolt_ht.Cpu.Topology.Detect.{Platform, windows, linux, other_platform, query}
use thunder_bolt_ht.Cpu.Topology.Totals.{
  over_cores, over_cores-append, over_cores-sorted, is_unused, is_unused-sort_logical,
  length-sorted,
}
use thunder_bolt_ht.Cpu.Topology.Shared.{Holds, grouped-Holds, IsIndexed-used}

-- What a successful query leaves.
unfoldable pub IsCounted : CpuTopology → Type 0
IsCounted t =
    (0 < length t.cores)
    × (over_cores is_unused t.cores ≡ 0)
    × (t.physical_core_count ≡ length t.cores % 2 ^ 32)
    × (t.logical_processor_count ≡ logical_total t.cores 0)

-- What a query answers: on success a counted topology, else one with no cores.
unfoldable pub Answers : Bool × CpuTopology → Type 0
Answers (true, t) = IsCounted t
Answers (false, t) = t.cores ≡ []

add_core-used :
    (groups : List GroupAffinity) (out : CpuTopology)
    → over_cores is_unused out.cores ≡ 0
    → over_cores is_unused (add_core groups out).cores ≡ 0
unfolding over_cores add_core
add_core-used groups out used = elim (Bool-cases (length (core_processors groups) == 0)) [
  | inl e ↦ rw (e, add_core) used
  | inr e ↦
      rw (e, add_core)
        (ground
          (arith, e, used, over_cores-append is_unused out.cores (core_processors groups ∷ [])))
]

read_info-used :
    (r : Relationship) (out : CpuTopology)
    → over_cores is_unused out.cores ≡ 0
    → over_cores is_unused (read_info r out).cores ≡ 0
unfolding read_info
read_info-used (processor_core groups) out used = add_core-used groups out used
read_info-used processor_package out used = used
read_info-used other_relationship out used = used

read_infos-used :
    (infos : List ProcessorInfo) (out : CpuTopology)
    → over_cores is_unused out.cores ≡ 0
    → over_cores is_unused (read_infos infos out).cores ≡ 0
unfolding read_infos
read_infos-used [] out used = used
read_infos-used (info ∷ infos) out used = elim (Bool-cases (info.size == 0)) [
  | inl e ↦ rw e used
  | inr e ↦ rw e (
      read_infos-used infos (read_info info.relationship out)
        (read_info-used info.relationship out used))
]

query_windows_topology-Answers :
    (infos : Option (List ProcessorInfo)) (out : CpuTopology)
    → out.cores ≡ []
    → Answers (query_windows_topology infos out)
unfolding query_windows_topology finish_windows Answers IsCounted over_cores
query_windows_topology-Answers none out empty = empty
query_windows_topology-Answers (some infos) out empty =
    let t = read_infos infos out in
    elim (Bool-cases (length t.cores == 0)) [
      | inl e ↦ rw (e, finish_windows) (nil_of_length t.cores (ground (arith, e)))
      | inr e ↦
          rw (e, finish_windows)
            (ground (arith, e), read_infos-used infos out (rw empty refl), refl, refl)
    ]

-- The answer of the query on a list of logical processors.
abbrev pub linux_answer : (ℕ → Option (ℕ × ℕ)) → List ℕ → CpuTopology → Bool × CpuTopology
linux_answer keys ids out =
    if length (grouped keys ids).cores == 0
    then (false, out)
    else (true, report (grouped keys ids) out)

pub query_linux_topology_lem :
    (names : List (List ℕ)) (ids : List ℕ) (read_package read_core : ℕ → Option ℕ)
    (out : CpuTopology)
    → logical_ids names ≡ some ids
    → query_linux_topology (some names) read_package read_core out
      ≡ some (linux_answer (keys_of read_package read_core) ids out)
unfolding query_linux_topology grouped group_cores
query_linux_topology_lem names [] read_package read_core out e = rw (e, query_linux_topology) refl
query_linux_topology_lem names (l ∷ ids) read_package read_core out e =
    let g = grouped (keys_of read_package read_core) (l ∷ ids) in
    let some_id : (suc (length ids) == 0) ≡ false = ground arith in
    elim (Bool-cases (length g.cores == 0)) [
      | inl none_found ↦ rw (e, query_linux_topology, some_id, none_found) refl
      | inr found ↦ rw (e, query_linux_topology, some_id, found) refl
    ]

linux_answer-Answers :
    (keys : ℕ → Option (ℕ × ℕ)) (ids : List ℕ) (out : CpuTopology)
    → out.cores ≡ []
    → Answers (linux_answer keys ids out)
unfolding Answers IsCounted Holds report
linux_answer-Answers keys ids out empty = elim (Bool-cases (length (grouped keys ids).cores == 0)) [
  | inl e ↦ rw e empty
  | inr e ↦
      let g = grouped keys ids in
      rw e (
        omega (arith, length-sorted g.cores, some_left g.cores e),
        over_cores-sorted is_unused g.cores is_unused-sort_logical
            ∙ IsIndexed-used keys 0 g.core_index g.cores (grouped-Holds keys ids).0,
        refl,
        refl,
      )
]
  where
    some_left : (cores : List (List ℕ)) → (length cores == 0) ≡ false → 0 < length cores
    some_left cores e = ground (arith, e)

query_linux_topology_thrown :
    (names : List (List ℕ)) (read_package read_core : ℕ → Option ℕ) (out : CpuTopology)
    → logical_ids names ≡ none
    → query_linux_topology (some names) read_package read_core out ≡ none
unfolding query_linux_topology
query_linux_topology_thrown names read_package read_core out e = rw (e, query_linux_topology) refl

pub query-Answers :
    (platform : Platform) (out : CpuTopology) (answer : Bool × CpuTopology)
    → out.cores ≡ []
    → out.detected ≡ false
    → query platform out ≡ some answer
    → Answers answer
unfolding query query_linux_topology Answers
query-Answers (windows infos) out answer empty undetected e =
    subst Answers (some_inj e) (query_windows_topology-Answers infos out empty)
query-Answers (linux none read_package read_core) out answer empty undetected e =
    subst Answers (some_inj e) empty
query-Answers (linux (some names) read_package read_core) out answer empty undetected e =
    elim (Option-cases (logical_ids names)) [
      | inl thrown ↦ absurd (
          none-some (sym (query_linux_topology_thrown names read_package read_core out thrown) ∙ e))
      | inr (ids, named) ↦
          subst Answers
            (some_inj
              (sym (query_linux_topology_lem names ids read_package read_core out named) ∙ e))
            (linux_answer-Answers (keys_of read_package read_core) ids out empty)
    ]
query-Answers other_platform out answer empty undetected e =
    subst Answers (ap (λ d. (d, out)) (sym undetected) ∙ some_inj e) empty
