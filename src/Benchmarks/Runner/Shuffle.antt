-- ===== src/Benchmarks/Runner/Shuffle.antt =====
-- The order of the legs names each leg once, in every round.
use mathlib.Core.List.{reverse_aux}
use thunder_bolt_ht.Base.{
  ℕ, zero, suc, ◌+◌, ◌%◌, ◌≤◌, ◌<◌, ◌≡◌, refl, ap, ◌∙◌, if◌then◌else◌, List, [], ◌∷◌, ltb, leb,
  ◌&&◌, arith, length, get_or, set, length-set, count,
}
use thunder_bolt_ht.Benchmarks.Runner.{iota, swap_slots, shuffle, first_order}
use thunder_bolt_ht.Benchmarks.Runner.Names.{LegOrder, fixed, reversed, shuffled}

count-set :
    (a : ℕ) (xs : List ℕ) (i v : ℕ)
    → i < length xs
    → count a (set xs i v) + count a (get_or xs i 0 ∷ []) ≡ count a xs + count a (v ∷ [])
unfolding count
count-set a [] i v lt = absurd (omega (arith, lt))
count-set a (x ∷ xs) zero v lt = omega arith
count-set a (x ∷ xs) (suc i) v lt = omega (arith, count-set a xs i v (omega (arith, lt)))

get_or-set :
    (xs : List ℕ) (i j : ℕ)
    → i < length xs
    → j < length xs
    → get_or (set xs i (get_or xs j 0)) j 0 ≡ get_or xs j 0
get_or-set [] i j lt le = absurd (omega (arith, lt))
get_or-set (x ∷ xs) zero zero lt le = refl
get_or-set (x ∷ xs) zero (suc j) lt le = refl
get_or-set (x ∷ xs) (suc i) zero lt le = refl
get_or-set (x ∷ xs) (suc i) (suc j) lt le =
    get_or-set xs i j (omega (arith, lt)) (omega (arith, le))

count-swap_slots :
    (a : ℕ) (order : List ℕ) (i j : ℕ)
    → i < length order
    → j < length order
    → count a (swap_slots order i j) ≡ count a order
unfolding swap_slots
count-swap_slots a order i j lt le = omega (
  arith,
  count-set a order i (get_or order j 0) lt,
  count-set a (set order i (get_or order j 0)) j (get_or order i 0)
      (omega (arith, le, length-set order i (get_or order j 0))),
  ap (λ x. count a (x ∷ [])) (get_or-set order i j lt le),
)

length-swap_slots : (order : List ℕ) (i j : ℕ) → length (swap_slots order i j) ≡ length order
unfolding swap_slots
length-swap_slots order i j =
    length-set (set order i (get_or order j 0)) j (get_or order i 0)
    ∙ length-set order i (get_or order j 0)

length-shuffle :
    (rng : ℕ → ℕ) (k draws : ℕ) (order : List ℕ) → length (shuffle rng k draws order) ≡ length order
unfolding shuffle
length-shuffle rng zero draws order = refl
length-shuffle rng (suc zero) draws order = refl
length-shuffle rng (suc (suc k)) draws order =
    length-shuffle rng (suc k) (draws + 1) (swap_slots order (suc k) (rng draws % suc (suc k)))
    ∙ length-swap_slots order (suc k) (rng draws % suc (suc k))

-- The shuffle permutes, whatever numbers are drawn.
pub count-shuffle :
    (rng : ℕ → ℕ) (k draws a : ℕ) (order : List ℕ)
    → k ≤ length order
    → count a (shuffle rng k draws order) ≡ count a order
unfolding shuffle
count-shuffle rng zero draws a order le = refl
count-shuffle rng (suc zero) draws a order le = refl
count-shuffle rng (suc (suc k)) draws a order le =
    let j = rng draws % suc (suc k) in
    let in_range : j < suc (suc k) = omega arith in
    count-shuffle rng (suc k) (draws + 1) a (swap_slots order (suc k) j)
      (omega (arith, le, length-swap_slots order (suc k) j))
    ∙ count-swap_slots a order (suc k) j (omega (arith, le)) (omega (arith, le, in_range))

count-iota : (a n i : ℕ) → count a (iota n i) ≡ (if leb i a && ltb a (i + n) then 1 else 0)
unfolding iota count
count-iota a zero i = ground arith
count-iota a (suc n) i = ground (arith, count-iota a n (i + 1))

count-reverse_aux : (a : ℕ) (xs ys : List ℕ) → count a (reverse_aux xs ys) ≡ count a xs + count a ys
unfolding count
count-reverse_aux a [] ys = omega arith
count-reverse_aux a (x ∷ xs) ys = omega (arith, count-reverse_aux a xs (x ∷ ys))

-- The order before the first round names each of the legs once.
pub count-first_order :
    (leg_order : LegOrder) (legs a : ℕ) → a < legs → count a (first_order leg_order legs) ≡ 1
unfolding first_order count
count-first_order fixed legs a lt = ground (arith, lt, count-iota a legs 0)
count-first_order reversed legs a lt =
    ground (arith, lt, count-reverse_aux a (iota legs 0) [], count-iota a legs 0)
count-first_order shuffled legs a lt = ground (arith, lt, count-iota a legs 0)
