-- ===== src/Cpu/Topology/Linux.antt =====
-- query_linux_topology of thunderbolt/cpu/topology/CpuTopology.cpp.
--
-- The names in the directory, and what read_uint_file reads for a logical processor, are parameters.
use thunder_bolt_ht.Base.{
  ℕ, zero, suc, ◌+◌, ◌-◌, ◌*◌, ◌%◌, ◌^◌, Bool, true, false, ◌&&◌, ◌==◌, ltb, leb, if◌then◌else◌,
  Option, none, some, List, [], ◌∷◌, ◌++◌, map, length,
}
use thunder_bolt_ht.Cpu.Topology.{CpuTopology, logical_total}

abbrev pub all_digits : List ℕ → Bool
all_digits [] = true
all_digits (c ∷ cs) = (leb b'0' c && leb c b'9') && all_digits cs

-- The number that decimal digits write, behind a number that stands before it.
abbrev pub decimal : ℕ → List ℕ → ℕ
decimal before [] = before
decimal before (c ∷ cs) = decimal (before * 10 + (c - b'0')) cs

-- The digits behind "cpu", if there is something behind it and it is digits.
unfoldable pub cpu_digits : List ℕ → Option (List ℕ)
cpu_digits (c ∷ p ∷ u ∷ d ∷ ds) =
    if (c == b'c' && (p == b'p' && u == b'u')) && all_digits (d ∷ ds) then some (d ∷ ds) else none
cpu_digits _ = none

-- The logical processors that the directory names. There is no result where std::stoul throws,
-- on a number of more than 64 bits.
unfoldable pub logical_ids : List (List ℕ) → Option (List ℕ)
logical_ids [] = some []
logical_ids (name ∷ names) = elim (cpu_digits name) [
  | none ↦ logical_ids names
  | some digits ↦
      let rest = logical_ids names in
      if ltb (decimal 0 digits) (2 ^ 64)
      then elim rest [ none ↦ none | some ids ↦ some (decimal 0 digits % 2 ^ 32 ∷ ids) ]
      else none
]

-- An entry of the map from a package and a core of it to the core's index.
pub record CoreKey : Type 0 where
  pub package_id : ℕ
  pub core_id : ℕ
  pub index : ℕ

unfoldable pub find_core : ℕ → ℕ → List CoreKey → Option ℕ
find_core pkg core [] = none
find_core pkg core (k ∷ ks) =
    if pkg == k.package_id && core == k.core_id then some k.index else find_core pkg core ks

-- `out.cores[i].push_back(logical)`. There is no core with an index out of range.
unfoldable pub push_logical : List (List ℕ) → ℕ → ℕ → List (List ℕ)
push_logical [] i logical = []
push_logical (core ∷ cores) zero logical = (core ++ logical ∷ []) ∷ cores
push_logical (core ∷ cores) (suc i) logical = core ∷ push_logical cores i logical

unfoldable pub insert_package : ℕ → List ℕ → List ℕ
insert_package p [] = p ∷ []
insert_package p (q ∷ qs) = if p == q then q ∷ qs else q ∷ insert_package p qs

pub record Groups : Type 0 where
  pub core_index : List CoreKey
  pub package_ids : List ℕ
  pub cores : List (List ℕ)

unfoldable pub add_logical : ℕ → ℕ → ℕ → Groups → Groups
add_logical pkg core logical g =
    let package_ids = insert_package pkg g.package_ids in
    elim (find_core pkg core g.core_index) [
      | none ↦ record {
        core_index =
            g.core_index
            ++ record { package_id = pkg; core_id = core; index = length g.cores } ∷ [];
        package_ids = package_ids;
        cores = g.cores ++ (logical ∷ []) ∷ [];
      }
      | some i ↦ record {
        core_index = g.core_index;
        package_ids = package_ids;
        cores = push_logical g.cores i logical;
      }
    ]

-- The keys of a logical processor, if both of its files can be read.
unfoldable pub keys_of : (ℕ → Option ℕ) → (ℕ → Option ℕ) → ℕ → Option (ℕ × ℕ)
keys_of read_package read_core logical = elim (read_package logical) [
  | none ↦ none
  | some pkg ↦ elim (read_core logical) [ none ↦ none | some core ↦ some (pkg, core) ]
]

unfoldable pub group_cores : (ℕ → Option (ℕ × ℕ)) → List ℕ → Groups → Groups
group_cores keys [] g = g
group_cores keys (logical ∷ ids) g = elim (keys logical) [
  | none ↦ group_cores keys ids g
  | some (pkg, core) ↦ group_cores keys ids (add_logical pkg core logical g)
]

unfoldable pub place_logical : ℕ → List ℕ → List ℕ
place_logical p [] = p ∷ []
place_logical p (q ∷ qs) = if leb p q then p ∷ q ∷ qs else q ∷ place_logical p qs

unfoldable pub sort_logical : List ℕ → List ℕ
sort_logical [] = []
sort_logical (p ∷ ps) = place_logical p (sort_logical ps)

-- The first of a core's processors. No core is empty.
abbrev pub front : List ℕ → ℕ
front [] = 0
front (p ∷ ps) = p

unfoldable pub place_core : List ℕ → List (List ℕ) → List (List ℕ)
place_core core [] = core ∷ []
place_core core (c ∷ cs) =
    if leb (front core) (front c) then core ∷ c ∷ cs else c ∷ place_core core cs

unfoldable pub sort_cores : List (List ℕ) → List (List ℕ)
sort_cores [] = []
sort_cores (core ∷ cores) = place_core core (sort_cores cores)

abbrev pub no_groups : Groups
no_groups = record { core_index = []; package_ids = []; cores = [] }

-- What the loop over the logical processors leaves.
unfoldable pub grouped : (ℕ → Option (ℕ × ℕ)) → List ℕ → Groups
grouped keys ids = group_cores keys ids no_groups

-- The end of the query, where it found a core.
unfoldable pub report : Groups → CpuTopology → CpuTopology
report g out =
    let cores = sort_cores (map sort_logical g.cores) in
    let packages = length g.package_ids % 2 ^ 32 in
    record {
      logical_processor_count = logical_total cores 0;
      physical_core_count = length cores % 2 ^ 32;
      package_count = if packages == 0 then 1 else packages;
      cores = cores;
      brand = out.brand;
      detected = out.detected;
    }

-- The result of the query with the topology it leaves, none if it throws. There is no directory
-- where opendir fails.
unfoldable pub query_linux_topology :
    Option (List (List ℕ))
    → (ℕ → Option ℕ)
    → (ℕ → Option ℕ)
    → CpuTopology
    → Option (Bool × CpuTopology)
query_linux_topology none read_package read_core out = some (false, out)
query_linux_topology (some names) read_package read_core out = elim (logical_ids names) [
  | none ↦ none
  | some ids ↦
      let g = grouped (keys_of read_package read_core) ids in
      if length ids == 0
      then some (false, out)
      else if length g.cores == 0
      then some (false, out)
      else some (true, report g out)
]
