-- ===== src/Cpu/Topology/Counts.antt =====
-- The counts of a topology, on every platform.
use thunder_bolt_ht.Base.{
  ℕ, ◌^◌, ◌≤◌, ◌<◌, ◌≡◌, ◌↔◌, refl, sym, subst, ◌∙◌, ◌⊎◌, inl, inr, Bool, true, false,
  if◌then◌else◌, some, List, [], ◌∷◌, arith, length, Option-cases, none-some, some_inj,
}
use thunder_bolt_ht.Cpu.Topology.{CpuTopology, no_topology, is_smt, has_smt}
use thunder_bolt_ht.Cpu.Topology.Brand.{Registers, query_brand}
use thunder_bolt_ht.Cpu.Topology.Detect.{Platform, query, conclude, detect}
use thunder_bolt_ht.Cpu.Topology.Totals.{
  over_cores, is_unused, logical_total_lem, processors, length-processors,
}
use thunder_bolt_ht.Cpu.Topology.Answers.{IsCounted, Answers, query-Answers}

-- A topology as detect returns it: counted, or with no cores and a guess at the logical processors.
unfoldable pub IsDetected : CpuTopology → Type 0
IsDetected t =
    ((t.detected ≡ true) × IsCounted t)
    ⊎ ((t.detected ≡ false)
        × (t.cores ≡ [])
        × (t.physical_core_count ≡ 0)
        × (t.package_count ≡ 0)
        × (0 < t.logical_processor_count))

conclude-IsDetected :
    (hw : ℕ) (answer : Bool × CpuTopology) → Answers answer → IsDetected (conclude hw answer)
unfolding conclude Answers IsDetected IsCounted
conclude-IsDetected hw (true, t) h = inl (refl, h)
conclude-IsDetected hw (false, t) h = inr (refl, h, refl, refl, ground arith)

detect_answer :
    (platform : Platform) (cpuid : ℕ → Registers) (hw : ℕ) (t : CpuTopology)
    → detect platform cpuid hw ≡ some t
    → (answer : Bool × CpuTopology) × (query platform
          (record no_topology { brand = query_brand cpuid })
        ≡ some answer)
      × (conclude hw answer ≡ t)
unfolding detect
detect_answer platform cpuid hw t e =
    elim (Option-cases (query platform (record no_topology { brand = query_brand cpuid }))) [
      | inl thrown ↦ absurd (none-some (sym (rw (thrown, detect) refl) ∙ e))
      | inr (answer, q) ↦ (answer, q, some_inj (sym (rw (q, detect) refl) ∙ e))
    ]

pub detect-IsDetected :
    (platform : Platform) (cpuid : ℕ → Registers) (hw : ℕ) (t : CpuTopology)
    → detect platform cpuid hw ≡ some t
    → IsDetected t
detect-IsDetected platform cpuid hw t e =
    let r = detect_answer platform cpuid hw t e in
    subst IsDetected r.2 (conclude-IsDetected hw r.0 (query-Answers platform _ r.0 refl refl r.1))

-- How many cores have more than one logical processor.
unfoldable pub smt_cores : List (List ℕ) → ℕ
smt_cores cores = over_cores (λ core. if is_smt core then 1 else 0) cores

enough_processors :
    (cores : List (List ℕ))
    → over_cores is_unused cores ≡ 0
    → length cores ≤ over_cores length cores
unfolding over_cores
enough_processors [] used = omega arith
enough_processors (core ∷ cores) used =
    ground (arith, used, enough_processors cores (ground (arith, used)))

more_processors :
    (cores : List (List ℕ))
    → over_cores is_unused cores ≡ 0
    → (length cores < over_cores length cores) ↔ (0 < smt_cores cores)
unfolding over_cores smt_cores is_smt
more_processors [] used = ground arith
more_processors (core ∷ cores) used =
    let rest : over_cores is_unused cores ≡ 0 = ground (arith, used) in
    let (more, smt) = more_processors cores rest in
    ground (arith, used, more, smt, enough_processors cores rest)

smt_counted :
    (t : CpuTopology)
    → t.detected ≡ true
    → IsCounted t
    → over_cores length t.cores < 2 ^ 32
    → (has_smt t ≡ true) ↔ (0 < smt_cores t.cores)
unfolding has_smt IsCounted
smt_counted t found (some_core, used, physical, logical) fits =
    let (more, smt) = more_processors t.cores used in
    let enough = enough_processors t.cores used in
    let whole : t.physical_core_count ≡ length t.cores = omega (arith, physical, enough, fits) in
    let all_of_them : t.logical_processor_count ≡ over_cores length t.cores =
      omega (arith, logical, logical_total_lem t.cores 0 (omega (arith, fits))) in
    rw (found, whole, all_of_them) (ground (arith, some_core, more, smt))

-- Whatever the platform, the topology that detect returns has SMT if and only if one of the cores it
-- lists has more than one logical processor, as long as it lists fewer than 2 ^ 32 of them.
pub has_smt-detect :
    (platform : Platform) (cpuid : ℕ → Registers) (hw : ℕ) (t : CpuTopology)
    → detect platform cpuid hw ≡ some t
    → length (processors t.cores) < 2 ^ 32
    → (has_smt t ≡ true) ↔ (0 < smt_cores t.cores)
unfolding has_smt smt_cores IsDetected over_cores
has_smt-detect platform cpuid hw t e fits = elim (detect-IsDetected platform cpuid hw t e) [
  | inl (found, counted) ↦
      smt_counted t found counted (omega (arith, fits, length-processors t.cores))
  | inr (unknown, empty, physical, packages, guess) ↦ rw (unknown, empty) (ground arith)
]
