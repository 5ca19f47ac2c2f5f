-- ===== src/Tests/Affinity.antt =====
-- Two cores with two hardware threads each, and one with one.
use thunder_bolt_ht.Base.{◌≡◌, refl, true, arith, [], ◌∷◌, some}
use thunder_bolt_ht.Cpu.Topology.{CpuTopology, no_topology}
use thunder_bolt_ht.Cpu.Topology.Totals.{IsUsed}
use thunder_bolt_ht.Cpu.Affinity.{
  max_siblings, one_round, all_rounds, spread_order, logical_for, windows, topology_aware,
}
use thunder_bolt_ht.Cpu.Affinity.Spread.{may_bind, logical_for-own_core}

abbrev five : CpuTopology
five = record no_topology { cores = (0 ∷ 1 ∷ []) ∷ (2 ∷ 3 ∷ []) ∷ (4 ∷ []) ∷ []; detected = true }

five_order : spread_order five ≡ 0 ∷ 2 ∷ 4 ∷ 1 ∷ 3 ∷ []
unfolding spread_order all_rounds one_round max_siblings
five_order = refl

logical_for-own_core_example : logical_for windows topology_aware five 1 ≡ some 2
unfolding IsUsed may_bind
logical_for-own_core_example =
    logical_for-own_core windows topology_aware five 1 2 (3 ∷ []) refl
      (omega arith, (omega arith, (omega arith, tt))) refl
