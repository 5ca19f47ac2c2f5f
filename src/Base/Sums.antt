-- ===== src/Base/Sums.antt =====
-- Sums over the first indices of a family, and how often a number stands in a list.
use Prim.Native.Nat.{ℕ, zero, suc, ◌+◌, ◌≤◌, ◌<◌}
use mathlib.Core.Path.{◌≡◌, refl}
use mathlib.Core.Logic.{◌≢◌}
use native.Mathlib.Decide.{dec_lt}
use mathlib.Core.List.{List, [], ◌∷◌, ◌++◌}
use native.Mathlib.Omega.{arith}
use thunder_bolt_ht.Base.Tests.{if◌then◌else◌, ◌==◌}
use thunder_bolt_ht.Base.Lists.{take, drop, length}

unfoldable pub sum_over : ℕ → (ℕ → ℕ) → ℕ
sum_over zero f = 0
sum_over (suc n) f = sum_over n f + f n

pub sum_over-congr :
    (n : ℕ) (f g : ℕ → ℕ) → ((i : ℕ) → i < n → f i ≡ g i) → sum_over n f ≡ sum_over n g
unfolding sum_over
sum_over-congr zero f g h = refl
sum_over-congr (suc n) f g h =
    rw (sum_over-congr n f g (λ i lt. h i (omega arith)), h n (omega arith))

-- Two families that differ at one index `i` below `n` have sums that differ as they do there.
pub sum_over-change :
    (n : ℕ) (f g : ℕ → ℕ) (i : ℕ)
    → i < n
    → ((j : ℕ) → j ≢ i → f j ≡ g j)
    → sum_over n f + g i ≡ sum_over n g + f i
unfolding sum_over
sum_over-change zero f g i lt h = absurd (omega arith)
sum_over-change (suc n) f g i lt h = elim (dec_lt i n) [
  | yes below ↦ omega (arith, sum_over-change n f g i below h, h n (omega arith))
  | no last ↦
      let e : i ≡ n = omega arith in
      rw e (omega (arith, sum_over-congr n f g (λ j l. h j (omega arith))))
]

pub sum_over-eq-zero : (n : ℕ) (f : ℕ → ℕ) → sum_over n f ≡ 0 → (i : ℕ) → i < n → f i ≡ 0
unfolding sum_over
sum_over-eq-zero zero f e i lt = absurd (omega arith)
sum_over-eq-zero (suc n) f e i lt = elim (dec_lt i n) [
  | yes below ↦ sum_over-eq-zero n f (omega arith) i below
  | no last ↦ let same : i ≡ n = omega arith in rw same (omega arith)
]

pub le-sum_over : (n : ℕ) (f : ℕ → ℕ) (i : ℕ) → i < n → f i ≤ sum_over n f
unfolding sum_over
le-sum_over zero f i lt = absurd (omega arith)
le-sum_over (suc n) f i lt = elim (dec_lt i n) [
  | yes below ↦ omega (arith, le-sum_over n f i below)
  | no last ↦ let same : i ≡ n = omega arith in rw same (omega arith)
]

unfoldable pub count : ℕ → List ℕ → ℕ
count a [] = 0
count a (x ∷ xs) = (if x == a then 1 else 0) + count a xs

pub count-nil : (a : ℕ) → count a [] ≡ 0
unfolding count
count-nil a = refl

pub count-cons : (a x : ℕ) (xs : List ℕ) → count a (x ∷ xs) ≡ (if x == a then 1 else 0) + count a xs
unfolding count
count-cons a x xs = refl

pub count-append : (a : ℕ) (xs ys : List ℕ) → count a (xs ++ ys) ≡ count a xs + count a ys
unfolding count
count-append a [] ys = omega arith
count-append a (x ∷ xs) ys = omega (arith, count-append a xs ys)

pub count-take-drop :
    (a n : ℕ) (xs : List ℕ) → count a (take n xs) + count a (drop n xs) ≡ count a xs
unfolding count
count-take-drop a zero xs = omega arith
count-take-drop a (suc n) [] = refl
count-take-drop a (suc n) (x ∷ xs) = omega (arith, count-take-drop a n xs)

pub sum_over-zero : (n : ℕ) (f : ℕ → ℕ) → ((i : ℕ) → i < n → f i ≡ 0) → sum_over n f ≡ 0
unfolding sum_over
sum_over-zero zero f h = refl
sum_over-zero (suc n) f h =
    omega (arith, sum_over-zero n f (λ i lt. h i (omega arith)), h n (omega arith))

pub count_empty : (xs : List ℕ) → ((a : ℕ) → count a xs ≡ 0) → xs ≡ []
unfolding count
count_empty [] h = refl
count_empty (x ∷ xs) h = absurd (ground (arith, h x))

-- A list of numbers below `n` is as long as they occur in it together.
pub sum_over-count :
    (n : ℕ) (xs : List ℕ)
    → ((j : ℕ) → n ≤ j → count j xs ≡ 0)
    → sum_over n (λ j. count j xs) ≡ length xs
unfolding count
sum_over-count n [] h = sum_over-zero n _ (λ i lt. refl)
sum_over-count n (x ∷ xs) h = elim (dec_lt x n) [
  | yes below ↦ ground (
    arith,
    sum_over-change n (λ j. count j (x ∷ xs)) (λ j. count j xs) x below (λ j ne. ground arith),
    sum_over-count n xs (λ j le. ground (arith, h j le)),
  )
  | no out ↦ absurd (ground (arith, h x))
]

pub sum_over-le : (n : ℕ) (f : ℕ → ℕ) → ((j : ℕ) → f j ≤ 1) → sum_over n f ≤ n
unfolding sum_over
sum_over-le zero f h = omega arith
sum_over-le (suc n) f h = omega (arith, sum_over-le n f h, h n)

pub sum_over_full :
    (n : ℕ) (f : ℕ → ℕ) → ((j : ℕ) → f j ≤ 1) → sum_over n f ≡ n → (j : ℕ) → j < n → f j ≡ 1
unfolding sum_over
sum_over_full zero f h e j lt = absurd (omega arith)
sum_over_full (suc n) f h e j lt = elim (dec_lt j n) [
  | yes below ↦ sum_over_full n f h (omega (arith, sum_over-le n f h, h n)) j below
  | no last ↦ let same : j ≡ n = omega arith in rw same (omega (arith, sum_over-le n f h, h n))
]

pub sum_over-one : (n : ℕ) (f : ℕ → ℕ) → ((j : ℕ) → j < n → f j ≡ 1) → sum_over n f ≡ n
unfolding sum_over
sum_over-one zero f h = refl
sum_over-one (suc n) f h =
    omega (arith, sum_over-one n f (λ j lt. h j (omega arith)), h n (omega arith))
