-- ===== src/Cpu/Topology/Brand.antt =====
-- query_brand of thunderbolt/cpu/topology/CpuTopology.cpp.
--
-- The instruction CPUID is a parameter, from a leaf to its four registers.
use thunder_bolt_ht.Base.{
  ℕ, suc, ◌+◌, ◌-◌, ◌/◌, ◌%◌, ◌^◌, ◌||◌, ◌==◌, ltb, if◌then◌else◌, Option, none, some, List, [],
  ◌∷◌, ◌++◌, take, drop,
}

pub record Registers : Type 0 where
  pub eax : ℕ
  pub ebx : ℕ
  pub ecx : ℕ
  pub edx : ℕ

-- The bytes of a register as they stand in memory.
abbrev bytes : ℕ → List ℕ
bytes r = r % 256 ∷ (r / 2 ^ 8) % 256 ∷ (r / 2 ^ 16) % 256 ∷ (r / 2 ^ 24) % 256 ∷ []

unfoldable pub leaf_bytes : Registers → List ℕ
leaf_bytes r = bytes r.eax ++ bytes r.ebx ++ bytes r.ecx ++ bytes r.edx

-- The string that an array of characters holds: up to its first null.
unfoldable pub c_string : List ℕ → List ℕ
c_string [] = []
c_string (c ∷ cs) = if c == 0 then [] else c ∷ c_string cs

unfoldable pub first_not_space : List ℕ → Option ℕ
first_not_space [] = none
first_not_space (c ∷ cs) =
    if c == b' ' then elim (first_not_space cs) [ none ↦ none | some i ↦ some (suc i) ] else some 0

-- The set in the source is " \t\0", whose null ends it.
unfoldable pub last_not_blank : List ℕ → Option ℕ
last_not_blank [] = none
last_not_blank (c ∷ cs) = elim (last_not_blank cs) [
  | some i ↦ some (suc i)
  | none ↦ if c == b' ' || c == 9 then none else some 0
]

-- std::string::npos.
abbrev npos : ℕ
npos = 2 ^ 64 - 1

abbrev position : Option ℕ → ℕ
position none = npos
position (some i) = i

-- `result.substr(first, last - first + 1)`, in 64 bits.
unfoldable pub trim : List ℕ → List ℕ
trim result = elim (first_not_space result) [
  | none ↦ []
  | some first ↦
      take (((position (last_not_blank result) + 2 ^ 64) - first + 1) % 2 ^ 64) (drop first result)
]

unfoldable pub query_brand : (ℕ → Registers) → List ℕ
query_brand cpuid =
    if ltb ((cpuid 0x80000000).eax % 2 ^ 32) 0x80000004
    then []
    else trim (
        c_string (
          leaf_bytes (cpuid 0x80000002)
          ++ leaf_bytes (cpuid 0x80000003)
          ++ leaf_bytes (cpuid 0x80000004)))
