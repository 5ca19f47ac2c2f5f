-- ===== src/Tests/Counter.antt =====
-- Three threads, of which the last two share a slot, and a decrement.
use thunder_bolt_ht.Base.{ℕ, ◌-◌, ◌^◌, ◌≡◌, refl, List, [], ◌∷◌}
use thunder_bolt_ht.Core.Counter.{no_counts, add_delta, sum, sum_slots, unsigned_sum, add_each}
use thunder_bolt_ht.Core.Counter.Total.{total, sum-total}

abbrev calls : List (ℕ × ℕ)
calls = (0, 5) ∷ (2, 1) ∷ (18, 2 ^ 64 - 3) ∷ (0, 1) ∷ []

four : unsigned_sum (add_each no_counts calls) ≡ 4
unfolding unsigned_sum sum_slots add_each add_delta
four = refl

sum-total_example :
    (sum (add_each no_counts calls) ≡ 4) × (unsigned_sum (add_each no_counts calls) ≡ 4)
unfolding total
sum-total_example = sum-total calls
