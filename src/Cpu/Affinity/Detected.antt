-- ===== src/Cpu/Affinity/Detected.antt =====
-- From what Linux tells of the processors to the cores of a topology, and to the order of the workers.
use thunder_bolt_ht.Base.{
  ℕ, ◌<◌, ◌≡◌, ◌↔◌, refl, sym, ap, ◌∙◌, ◌⊎◌, inl, inr, true, ◌==◌, Option, some, List, [], arith,
  length, count, count-nil, Bool-cases, nil_of_length,
}
use thunder_bolt_ht.Cpu.Topology.{CpuTopology, no_topology}
use thunder_bolt_ht.Cpu.Topology.Brand.{Registers, query_brand}
use thunder_bolt_ht.Cpu.Topology.Linux.{logical_ids, keys_of, grouped, report, sort_logical}
use thunder_bolt_ht.Cpu.Topology.Detect.{linux, query, conclude, detect}
use thunder_bolt_ht.Cpu.Topology.Totals.{
  over_cores, over_cores-sorted, both, shared_cores, both-sort_logical, count-sort_logical,
  count-processors,
}
use thunder_bolt_ht.Cpu.Topology.Shared.{Holds, grouped-Holds, count_read, shared-keys, keys-shared}
use thunder_bolt_ht.Cpu.Topology.Answers.{linux_answer, query_linux_topology_lem}
use thunder_bolt_ht.Cpu.Affinity.{spread_order}
use thunder_bolt_ht.Cpu.Affinity.Spread.{spread_order-processors}

-- The topology that detect returns on Linux.
abbrev linux_topology : (ℕ → Option (ℕ × ℕ)) → List ℕ → (ℕ → Registers) → ℕ → CpuTopology
linux_topology keys ids cpuid hw =
    conclude hw (linux_answer keys ids (record no_topology { brand = query_brand cpuid }))

detect-linux :
    (names : List (List ℕ)) (ids : List ℕ) (read_package read_core : ℕ → Option ℕ)
    (cpuid : ℕ → Registers) (hw : ℕ)
    → logical_ids names ≡ some ids
    → detect (linux (some names) read_package read_core) cpuid hw
      ≡ some (linux_topology (keys_of read_package read_core) ids cpuid hw)
unfolding detect query
detect-linux names ids read_package read_core cpuid hw e =
    let out = record no_topology { brand = query_brand cpuid } in
    let q : query (linux (some names) read_package read_core) out
        ≡ some (linux_answer (keys_of read_package read_core) ids out) =
      query_linux_topology_lem names ids read_package read_core out e in
    rw (q, detect) refl

-- A sum over the cores of the topology is the sum over the groups that the loop leaves.
over_cores-linux :
    (f : List ℕ → ℕ) (keys : ℕ → Option (ℕ × ℕ)) (ids : List ℕ) (cpuid : ℕ → Registers) (hw : ℕ)
    → ((core : List ℕ) → f (sort_logical core) ≡ f core)
    → over_cores f (linux_topology keys ids cpuid hw).cores ≡ over_cores f (grouped keys ids).cores
unfolding conclude report
over_cores-linux f keys ids cpuid hw same =
    elim (Bool-cases (length (grouped keys ids).cores == 0)) [
      | inl e ↦
          rw e
            (ap (over_cores f) (sym (nil_of_length (grouped keys ids).cores (ground (arith, e)))))
      | inr e ↦ rw e (over_cores-sorted f (grouped keys ids).cores same)
    ]

-- On Linux, detect returns a topology in which two logical processors share a core if and only if
-- their package and core numbers are the same, where the directory names both and their files can be
-- read, and no name overflows std::stoul.
pub detect-shared_cores :
    (names : List (List ℕ)) (ids : List ℕ) (read_package read_core : ℕ → Option ℕ)
    (cpuid : ℕ → Registers) (hw a b : ℕ)
    → logical_ids names ≡ some ids
    → 0 < count_read (keys_of read_package read_core) a ids
    → 0 < count_read (keys_of read_package read_core) b ids
    → (t : CpuTopology) × (detect (linux (some names) read_package read_core) cpuid hw ≡ some t)
      × ((0 < shared_cores a b t.cores)
          ↔ (keys_of read_package read_core a ≡ keys_of read_package read_core b))
unfolding shared_cores Holds
detect-shared_cores names ids read_package read_core cpuid hw a b named read_a read_b =
    let keys = keys_of read_package read_core in
    let g = grouped keys ids in
    let h = grouped-Holds keys ids in
    let same = over_cores-linux (both a b) keys ids cpuid hw (both-sort_logical a b) in
    (
      linux_topology keys ids cpuid hw,
      detect-linux names ids read_package read_core cpuid hw named,
      (
        λ pos. shared-keys keys 0 g.core_index g.cores a b h.0 (omega (arith, pos, same)),
        λ eq. omega (
          arith,
          same,
          keys-shared keys 0 g.core_index g.cores a b h.0 (omega (arith, read_a, h.1 a))
              (omega (arith, read_b, h.1 b)) eq,
        ),
      ),
    )

linux-undetected :
    (keys : ℕ → Option (ℕ × ℕ)) (ids : List ℕ) (cpuid : ℕ → Registers) (hw : ℕ)
    → let t = linux_topology keys ids cpuid hw in
      (t.detected ≡ true) ⊎ ((spread_order t ≡ []) × (t.cores ≡ []))
unfolding conclude spread_order
linux-undetected keys ids cpuid hw = elim (Bool-cases (length (grouped keys ids).cores == 0)) [
  | inl e ↦ rw e (inr (refl, refl))
  | inr e ↦ rw e (inl refl)
]

-- On Linux, detect returns a topology whose order for the workers holds each logical processor as
-- often as the directory names it, if both of its files can be read, and else not at all, where no
-- name overflows std::stoul.
pub spread_order-detect :
    (names : List (List ℕ)) (ids : List ℕ) (read_package read_core : ℕ → Option ℕ)
    (cpuid : ℕ → Registers) (hw a : ℕ)
    → logical_ids names ≡ some ids
    → (t : CpuTopology) × (detect (linux (some names) read_package read_core) cpuid hw ≡ some t)
      × (count a (spread_order t) ≡ count_read (keys_of read_package read_core) a ids)
unfolding Holds over_cores
spread_order-detect names ids read_package read_core cpuid hw a named =
    let keys = keys_of read_package read_core in
    let t = linux_topology keys ids cpuid hw in
    let found : over_cores (count a) t.cores ≡ count_read keys a ids =
      over_cores-linux (count a) keys ids cpuid hw (count-sort_logical a)
      ∙ (grouped-Holds keys ids).1 a in
    (
      t,
      detect-linux names ids read_package read_core cpuid hw named,
      elim (linux-undetected keys ids cpuid hw) [
        | inl detected ↦ spread_order-processors a t detected ∙ count-processors a t.cores ∙ found
        | inr (no_order, no_core) ↦
            ap (count a) no_order ∙ count-nil a ∙ ap (over_cores (count a)) (sym no_core) ∙ found
      ],
    )
