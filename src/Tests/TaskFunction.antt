-- ===== src/Tests/TaskFunction.antt =====
-- A callable that is built in function 0, moved to function 1, replaced there, and moved back.
use thunder_bolt_ht.Base.{ℕ, ◌≡◌, refl, arith, some}
use thunder_bolt_ht.Api.TaskFunction.{
  Functions, no_functions, reset, init, emplace, move_from, move_assign, Uses, constructs,
  move_constructs, emplaces, assigns, no_use, then_use,
}
use thunder_bolt_ht.Api.TaskFunction.Ownership.{Balanced, Uses-Balanced}

record Used : Type 0 where
  last : Functions ℕ
  uses : Uses 2 no_functions last

there_and_back : Used
unfolding init move_from
there_and_back = record {
  last = _;
  uses =
      then_use
        (then_use
          (then_use (then_use no_use (constructs 0 7 (omega arith) refl))
            (move_constructs 1 0 (omega arith) (omega arith) (omega arith) refl))
          (emplaces 1 8 (omega arith)))
        (assigns 0 1 (omega arith) (omega arith));
}

all_counted : (there_and_back.last.constructed ≡ 4) × (there_and_back.last.held 0 ≡ some 8)
unfolding there_and_back init move_from emplace reset move_assign
all_counted = (refl, refl)

Uses-Balanced_example : Balanced 2 there_and_back.last
Uses-Balanced_example = Uses-Balanced 2 there_and_back.uses
