-- ===== src/Core/Counter/Total.antt =====
-- What the slots of a counter sum up to.
use thunder_bolt_ht.Base.{
  ℕ, zero, suc, ◌+◌, ◌%◌, ◌^◌, ◌≡◌, refl, sym, ap, ltb, if◌then◌else◌, List, [], ◌∷◌, arith, update,
  update_self, update_ne, sum_over, sum_over-change, sum_over-zero,
}
use thunder_bolt_ht.Core.Pool.{shard_count, preferred_shard}
use thunder_bolt_ht.Core.Counter.{no_counts, add_delta, sum_slots, sum, unsigned_sum, add_each}

unfoldable pub total : List (ℕ × ℕ) → ℕ
total [] = 0
total ((thread, delta) ∷ calls) = delta + total calls

sum_slots-sum_over : (n : ℕ) (slots : ℕ → ℕ) → sum_slots n slots ≡ sum_over n slots % 2 ^ 64
unfolding sum_slots sum_over
sum_slots-sum_over zero slots = omega arith
sum_slots-sum_over (suc n) slots = omega (arith, sum_slots-sum_over n slots)

sum-add_delta :
    (slots : ℕ → ℕ) (thread delta : ℕ)
    → sum_over shard_count (add_delta slots thread delta) % 2 ^ 64
      ≡ (sum_over shard_count slots + delta) % 2 ^ 64
unfolding add_delta
sum-add_delta slots thread delta =
    let slot : ℕ = preferred_shard thread in
    let grown : ℕ = (slots slot + delta) % 2 ^ 64 in
    omega (
      arith,
      sum_over-change shard_count (update slots slot grown) slots slot (omega arith)
          (λ j ne. update_ne slots slot j grown (λ e. ne (sym e))),
      update_self slots slot grown,
    )

sum-add_each :
    (slots : ℕ → ℕ) (calls : List (ℕ × ℕ))
    → sum_over shard_count (add_each slots calls) % 2 ^ 64
      ≡ (sum_over shard_count slots + total calls) % 2 ^ 64
unfolding add_each total
sum-add_each slots [] = omega arith
sum-add_each slots ((thread, delta) ∷ calls) =
    omega
      (arith, sum-add_each (add_delta slots thread delta) calls, sum-add_delta slots thread delta)

-- After any calls of `add` by any threads, however their additions interleave, the sum is the total
-- of the deltas modulo 2 ^ 64, and the unsigned view is the same where it is below 2 ^ 63, else 0.
pub sum-total :
    (calls : List (ℕ × ℕ))
    → (sum (add_each no_counts calls) ≡ total calls % 2 ^ 64)
      × (unsigned_sum (add_each no_counts calls)
          ≡ (if ltb (total calls % 2 ^ 64) (2 ^ 63) then total calls % 2 ^ 64 else 0))
unfolding unsigned_sum
sum-total calls =
    let slots : ℕ → ℕ = add_each no_counts calls in
    let all : sum slots ≡ total calls % 2 ^ 64 = omega (
      arith,
      sum_slots-sum_over shard_count slots,
      sum-add_each no_counts calls,
      sum_over-zero shard_count no_counts (λ i lt. refl),
    ) in
    (all, ap (λ n. if ltb n (2 ^ 63) then n else 0) all)
