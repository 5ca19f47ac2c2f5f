-- ===== src/Benchmarks/Statistics.antt =====
-- thunderbolt/benchmarks/harness/Statistics.hpp: the summary of samples, and a linear fit.
--
-- The type `double` and its operations are the processor's and its library's, so they are an interface:
-- each is a function, and nothing else is asked of it. `lit n d` is the literal n / 10 ^ d, and
-- `floor_size` and `ceil_size` are std::floor and std::ceil, cast to std::size_t.
pub mod Order
use thunder_bolt_ht.Base.{
  ℕ, zero, suc, ◌+◌, ◌-◌, Bool, true, false, not, ◌||◌, ltb, ◌==◌, if◌then◌else◌, List, [], ◌∷◌,
  length, get_or,
}

pub record Double (D : Type 0) : Type 0 where
  pub lit : ℕ → ℕ → D
  pub of_size : ℕ → D
  pub plus : D → D → D
  pub minus : D → D → D
  pub times : D → D → D
  pub over : D → D → D
  pub abs : D → D
  pub floor_size : D → ℕ
  pub ceil_size : D → ℕ
  pub lt : D → D → Bool
  pub le : D → D → Bool

pub record Summary (D : Type 0) : Type 0 where
  pub sample_count : ℕ
  pub minimum : D
  pub p25 : D
  pub median : D
  pub p75 : D
  pub maximum : D
  pub iqr : D
  pub mean : D

pub record LinearFit (D : Type 0) : Type 0 where
  pub intercept : D
  pub slope : D
  pub r_squared : D
  pub valid : Bool

-- The sums of a pass over the points of a fit.
pub record FitSums (D : Type 0) : Type 0 where
  pub sum_x : D
  pub sum_y : D
  pub sum_xx : D
  pub sum_xy : D

module _ {D : Type 0} ⦃d : Double D⦄ where
  abbrev pub nought : D
  nought = d.lit 0 0

  abbrev one : D
  one = d.lit 1 0

  -- The first and the last of a list that is not empty.
  abbrev first : List D → D
  first xs = get_or xs 0 nought

  abbrev last : List D → D
  last xs = get_or xs (length xs - 1) nought

  unfoldable pub percentile_sorted : List D → D → D
  percentile_sorted sorted fraction =
      let position = d.times fraction (d.of_size (length sorted - 1)) in
      let lower = d.floor_size position in
      let upper = d.ceil_size position in
      let weight = d.minus position (d.of_size lower) in
      if length sorted == 0
      then nought
      else if length sorted == 1
      then first sorted
      else d.plus (d.times (get_or sorted lower nought) (d.minus one weight))
          (d.times (get_or sorted upper nought) weight)

  unfoldable pub place_sample : D → List D → List D
  place_sample x [] = x ∷ []
  place_sample x (y ∷ ys) = if d.lt y x then y ∷ place_sample x ys else x ∷ y ∷ ys

  unfoldable pub sort_samples : List D → List D
  sort_samples [] = []
  sort_samples (x ∷ xs) = place_sample x (sort_samples xs)

  unfoldable pub total_of : List D → D → D
  total_of [] total = total
  total_of (x ∷ xs) total = total_of xs (d.plus total x)

  abbrev pub no_summary : Summary D
  no_summary = record {
    sample_count = 0;
    minimum = nought;
    p25 = nought;
    median = nought;
    p75 = nought;
    maximum = nought;
    iqr = nought;
    mean = nought;
  }

  unfoldable pub summarize_sorted : List D → Summary D
  summarize_sorted sorted = record {
    sample_count = length sorted;
    minimum = first sorted;
    p25 = percentile_sorted sorted (d.lit 25 2);
    median = percentile_sorted sorted (d.lit 50 2);
    p75 = percentile_sorted sorted (d.lit 75 2);
    maximum = last sorted;
    iqr = d.minus (percentile_sorted sorted (d.lit 75 2)) (percentile_sorted sorted (d.lit 25 2));
    mean = d.over (total_of sorted nought) (d.of_size (length sorted));
  }

  unfoldable pub summarize : List D → Summary D
  summarize samples =
      if length samples == 0 then no_summary else summarize_sorted (sort_samples samples)

  unfoldable pub fit_sums : List D → List D → FitSums D → FitSums D
  fit_sums (x ∷ xs) (y ∷ ys) s = fit_sums xs ys record {
    sum_x = d.plus s.sum_x x;
    sum_y = d.plus s.sum_y y;
    sum_xx = d.plus s.sum_xx (d.times x x);
    sum_xy = d.plus s.sum_xy (d.times x y);
  }
  fit_sums _ _ s = s

  abbrev square : D → D
  square x = d.times x x

  -- The total and the residual sum of squares, behind those of the points before.
  unfoldable pub fit_squares : List D → List D → D → D → D → D × D → D × D
  fit_squares (x ∷ xs) (y ∷ ys) mean_y slope intercept (ss_total, ss_residual) =
      let predicted = d.plus intercept (d.times slope x) in
      fit_squares xs ys mean_y slope intercept (
        d.plus ss_total (square (d.minus y mean_y)),
        d.plus ss_residual (square (d.minus y predicted)),
      )
  fit_squares _ _ mean_y slope intercept squares = squares

  abbrev no_fit : LinearFit D
  no_fit = record { intercept = nought; slope = nought; r_squared = nought; valid = false }

  -- What is left to do where the denominator is not about zero.
  unfoldable pub fit_with : List D → List D → D → FitSums D → D → LinearFit D
  fit_with x y n s denominator =
      let slope = d.over (d.minus (d.times n s.sum_xy) (d.times s.sum_x s.sum_y)) denominator in
      let intercept = d.over (d.minus s.sum_y (d.times slope s.sum_x)) n in
      let squares = fit_squares x y (d.over s.sum_y n) slope intercept (nought, nought) in
      record {
        intercept = intercept;
        slope = slope;
        r_squared =
            if d.lt nought squares.0 then d.minus one (d.over squares.1 squares.0) else nought;
        valid = true;
      }

  unfoldable pub fit_linear : List D → List D → LinearFit D
  fit_linear x y =
      let n = d.of_size (length x) in
      let s =
        fit_sums x y
          (record { sum_x = nought; sum_y = nought; sum_xx = nought; sum_xy = nought }) in
      let denominator = d.minus (d.times n s.sum_xx) (d.times s.sum_x s.sum_x) in
      if not (length x == length y) || ltb (length x) 2
      then no_fit
      else if d.lt (d.abs denominator) (d.lit 1 12)
      then no_fit
      else fit_with x y n s denominator
