-- ===== src/Tests/Deque.antt =====
-- The deque: an owner that pushes two values and pops one, and a thief that takes the other.
use mathlib.Core.List.{[], ◌∷◌, Perm}
use thunder_bolt_ht.Base.{ℕ, ◌≤◌, ◌<◌, ◌≡◌, refl, arith}
use thunder_bolt_ht.Core.Deque.{
  System, Owner, Step, silent, push, pop, steal, start, owner_step, thief_step, push_load,
  push_write, push_store, pop_store, pop_load, pop_sure, steal_load, steal_claim, steal_copy,
  steal_won, round_up,
}
use thunder_bolt_ht.Core.Deque.Invariant.{start-Inv}
use thunder_bolt_ht.Core.Deque.Linear.{
  Run, here, next, contents, Does, Step-Does, Run-Inv, Run-conserves,
}
use thunder_bolt_ht.Core.Deque.Capacity.{IsPowerOfTwo, round_up_least}

record Pushes : Type 0 where
  last : System ℕ
  run : Run (start 2 0) (7 ∷ 5 ∷ []) [] last

two_pushed : Pushes
two_pushed = record {
  last = _;
  run =
      next (push 7)
        (next silent
          (next silent
            (next (push 5)
              (next silent (next silent here (owner_step (push_load 5 (omega arith))))
                (owner_step push_write))
              (owner_step push_store))
            (owner_step (push_load 7 (omega arith))))
          (owner_step push_write))
        (owner_step push_store);
}

-- Thief 3 has taken 5 while the owner stands within a `pop` that has seen two items.
record Stolen : Type 0 where
  last : System ℕ
  run : Run (start 2 0) (7 ∷ 5 ∷ []) (5 ∷ []) last
  popping_next : Step last (pop 7) (record last { owner = Owner.idle })

mid_pop : Stolen
unfolding two_pushed
mid_pop = record {
  last = _;
  run =
      next (steal 5)
        (next silent
          (next silent
            (next silent
              (next silent (next silent two_pushed.run (thief_step 3 steal_load))
                (owner_step pop_store))
              (owner_step pop_load))
            (thief_step 3 (steal_claim (omega arith))))
          (thief_step 3 steal_copy))
        (thief_step 3 (steal_won refl));
  popping_next = owner_step (pop_sure (omega arith));
}

both_taken : Run (start 2 0) (7 ∷ 5 ∷ []) (7 ∷ 5 ∷ []) (record mid_pop.last { owner = Owner.idle })
both_taken = next (pop 7) mid_pop.run mid_pop.popping_next

Step-Does_example :
    Does
      (pop 7)
      (contents mid_pop.last.deque mid_pop.last.owner)
      (contents mid_pop.last.deque Owner.idle)
Step-Does_example =
    Step-Does mid_pop.popping_next (Run-Inv mid_pop.run (start-Inv 2 0 (omega arith)))

Run-conserves_example : Perm (7 ∷ 5 ∷ []) (7 ∷ 5 ∷ contents mid_pop.last.deque Owner.idle)
Run-conserves_example = Run-conserves 2 0 (omega arith) both_taken

round_up_5 : round_up 5 1 5 ≡ 8
unfolding round_up
round_up_5 = refl

round_up_least_example :
    IsPowerOfTwo (round_up 5 1 5) × (5 ≤ round_up 5 1 5) × (round_up 5 1 5 < 10)
round_up_least_example = round_up_least 5 (omega arith) (omega arith)
