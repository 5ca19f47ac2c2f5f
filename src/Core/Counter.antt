-- ===== src/Core/Counter.antt =====
-- thunderbolt/core/ShardedCounter.hpp and ShardedCounter.cpp: a counter in one slot for each thread.
--
-- A value of 64 bits stands for a number modulo 2 ^ 64: a negative delta -d is 2 ^ 64 - d. Threads are
-- numbered in the order in which they first ask for their slot.
pub mod Total
use thunder_bolt_ht.Base.{ℕ, zero, suc, ◌+◌, ◌%◌, ◌^◌, ltb, if◌then◌else◌, List, [], ◌∷◌, update}
use thunder_bolt_ht.Core.Pool.{shard_count, preferred_shard}

abbrev u64 : ℕ → ℕ
u64 n = n % 2 ^ 64

-- `slots_`
abbrev pub no_counts : ℕ → ℕ
no_counts slot = 0

unfoldable pub add_delta : (ℕ → ℕ) → ℕ → ℕ → ℕ → ℕ
add_delta slots thread delta =
    let slot = preferred_shard thread in update slots slot (u64 (slots slot + delta))

abbrev pub increment : (ℕ → ℕ) → ℕ → ℕ → ℕ
increment slots thread = add_delta slots thread 1

-- The loop of `sum` over the first `n` slots.
unfoldable pub sum_slots : ℕ → (ℕ → ℕ) → ℕ
sum_slots zero slots = 0
sum_slots (suc n) slots = u64 (sum_slots n slots + slots n)

abbrev pub sum : (ℕ → ℕ) → ℕ
sum slots = sum_slots shard_count slots

-- `total > 0` of a signed number, whose sign is its highest bit.
unfoldable pub unsigned_sum : (ℕ → ℕ) → ℕ
unsigned_sum slots = if ltb (sum slots) (2 ^ 63) then sum slots else 0

-- Calls of `add`, each with its thread and its delta, in the order of their atomic additions.
unfoldable pub add_each : (ℕ → ℕ) → List (ℕ × ℕ) → ℕ → ℕ
add_each slots [] = slots
add_each slots ((thread, delta) ∷ calls) = add_each (add_delta slots thread delta) calls
