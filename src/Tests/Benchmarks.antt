-- ===== src/Tests/Benchmarks.antt =====
-- The benchmark harness on small inputs, with natural numbers for double.
use native.Mathlib.Nat.{ℕ_set}
use mathlib.Core.List.Perm
use thunder_bolt_ht.Base.{
  ℕ, ◌+◌, ◌-◌, ◌*◌, ◌/◌, ◌%◌, ◌^◌, ◌<◌, ◌≡◌, ◌≢◌, refl, ltb, leb, some, List, [], ◌∷◌, arith,
  length, get_elem?, count, sum_over,
}
use thunder_bolt_ht.Benchmarks.Statistics.{
  Double, summarize, summarize_sorted, sort_samples, place_sample, percentile_sorted, fit_linear,
  fit_with, fit_sums, fit_squares,
}
use thunder_bolt_ht.Benchmarks.Statistics.Order.{IsLinear, summarize-Perm}
use thunder_bolt_ht.Benchmarks.Workloads.{
  new_workload, chunk_value, run_chunk, run_chunks, checksum, add_results, work_range, work_from,
  mix, start_for, units_for,
}
use thunder_bolt_ht.Benchmarks.Workloads.Checksum.{checksum-run_chunks}
use thunder_bolt_ht.Benchmarks.Runner.{
  LegResult, RunOptions, Observation, shuffle, swap_slots, run_interleaved,
}
use thunder_bolt_ht.Benchmarks.Runner.Names.{shuffled, parse_leg_order, first_named, to_string}
use thunder_bolt_ht.Benchmarks.Runner.Results.{IsComplete, run_interleaved-IsComplete}
use thunder_bolt_ht.Benchmarks.Json.{quoted, escape, escaped, hex_digit}
use thunder_bolt_ht.Benchmarks.Json.Reader.{closed, read_string, read_string-quoted}
use thunder_bolt_ht.Benchmarks.Json.Document.{
  Items, no_more, then_more, an_object, a_string, an_array, an_element, write_item, item_text,
}
use thunder_bolt_ht.Benchmarks.Json.Printed.{write_item-item_text}

-- Thousandths, so that 0.25 of a position is a number.
instance abbrev milli : Double ℕ
milli = record {
  lit = λ n d. (n * 1000) / 10 ^ d;
  of_size = λ n. n * 1000;
  plus = λ x y. x + y;
  minus = λ x y. x - y;
  times = λ x y. (x * y) / 1000;
  over = λ x y. (x * 1000) / y;
  abs = λ x. x;
  floor_size = λ x. x / 1000;
  ceil_size = λ x. (x + 999) / 1000;
  lt = ltb;
  le = leb;
}

milli-IsLinear : IsLinear milli
milli-IsLinear = record {
  set = ℕ_set;
  asym = λ x y e. ground arith;
  before = λ x y z e f. ground arith;
  same = λ x y e f. ground arith;
}

three_median : (summarize {D = ℕ} (3000 ∷ 1000 ∷ 2000 ∷ [])).median ≡ 2000
unfolding summarize summarize_sorted sort_samples place_sample percentile_sorted
three_median = refl

straight : (fit_linear {D = ℕ} (1000 ∷ 2000 ∷ 3000 ∷ []) (5000 ∷ 7000 ∷ 9000 ∷ [])).slope ≡ 2000
unfolding fit_linear fit_with fit_sums fit_squares
straight = refl

summarize-Perm_example :
    summarize {D = ℕ} (3000 ∷ 1000 ∷ 2000 ∷ []) ≡ summarize {D = ℕ} (1000 ∷ 3000 ∷ 2000 ∷ [])
summarize-Perm_example =
    summarize-Perm milli-IsLinear (3000 ∷ 1000 ∷ 2000 ∷ []) (1000 ∷ 3000 ∷ 2000 ∷ [])
      (Perm.swap 1000 3000 (2000 ∷ []))

-- The same units in one chunk and in two have different checksums.
checksum_of_chunks :
    checksum (run_chunks (new_workload 2 1) (0 ∷ []))
    ≢ checksum (run_chunks (new_workload 2 2) (1 ∷ 0 ∷ []))
unfolding checksum add_results run_chunks run_chunk new_workload chunk_value work_range work_from
    mix start_for units_for
checksum_of_chunks e = omega (arith, e)

checksum-run_chunks_example :
    checksum (run_chunks (new_workload 7 2) (1 ∷ 0 ∷ []))
    ≡ sum_over 2 (chunk_value (new_workload 7 2)) % 2 ^ 64
unfolding count
checksum-run_chunks_example = checksum-run_chunks 7 2 (1 ∷ 0 ∷ []) both_run
  where
    both_run : (j : ℕ) → j < 2 → 0 < count j (1 ∷ 0 ∷ [])
    both_run j lt = ground (arith, lt)

abbrev options : RunOptions ℕ
options = record { leg_order = shuffled; repetitions = 4; warmup = 1; throttle_fraction = 1000 }

abbrev observe : ℕ → ℕ → Observation ℕ
observe run leg = record { mhz_before = 2000 + run; seconds = 10 + leg; mhz_after = 2000 }

abbrev draws : ℕ → ℕ
draws i = 7 * i + 3

three_shuffled : shuffle draws 3 0 (0 ∷ 1 ∷ 2 ∷ []) ≡ 1 ∷ 2 ∷ 0 ∷ []
unfolding shuffle swap_slots
three_shuffled = refl

shuffle_parsed : parse_leg_order "shuffle" ≡ some shuffled
unfolding parse_leg_order first_named to_string
shuffle_parsed = refl

run_interleaved-IsComplete_example :
    (length (run_interleaved observe draws 2208 3 options).legs ≡ 3)
    × (leg : LegResult ℕ) × (get_elem? (run_interleaved observe draws 2208 3 options).legs 2
        ≡ some leg)
    × IsComplete
        (milli.times (run_interleaved observe draws 2208 3 options).median_observed_mhz 1000)
        4
        leg
run_interleaved-IsComplete_example =
    run_interleaved-IsComplete observe draws 2208 3 options 2 (omega arith)

-- A quote, a letter, a backspace and a line feed.
abbrev mixed : List ℕ
mixed = 34 ∷ 97 ∷ 8 ∷ 10 ∷ []

mixed-quoted : quoted mixed ≡ 34 ∷ 92 ∷ 34 ∷ 97 ∷ 92 ∷ 117 ∷ 48 ∷ 48 ∷ 48 ∷ 56 ∷ 92 ∷ 110 ∷ 34 ∷ []
unfolding quoted escape escaped hex_digit
mixed-quoted = refl

read_string-quoted_example : read_string (quoted mixed) ≡ record { mode = closed; text = mixed }
read_string-quoted_example = read_string-quoted mixed

-- {"k": "v", "a": [1, 2]}, on lines of its own.
abbrev items : Items
items = then_more (a_string (b'k' ∷ []) (b'v' ∷ [])) (
    then_more
      (an_array (b'a' ∷ [])
        (then_more (an_element (b'1' ∷ [])) (then_more (an_element (b'2' ∷ [])) no_more)))
      no_more)

write_item-item_text_example :
    write_item (record { out = []; stack = [] }) (an_object items)
    ≡ record { out = item_text 0 (an_object items); stack = [] }
write_item-item_text_example = write_item-item_text items
