-- ===== src/Api/TaskFunction/Ownership.antt =====
-- No callable leaks and none is destroyed twice.
use thunder_bolt_ht.Base.{
  ℕ, ◌+◌, ◌<◌, ◌≡◌, ◌≢◌, refl, sym, ap, ◌==◌, if◌then◌else◌, Option, none, some, arith, update,
  update_self, update_ne, sum_over, sum_over-change, sum_over-zero, Bool-cases, inl, inr,
}
use thunder_bolt_ht.Api.TaskFunction.{
  Functions, no_functions, is_valid, reset, init, emplace, move_from, move_assign, Use, Uses,
  constructs, move_constructs, emplaces, assigns, resets, no_use, then_use,
}

module _ {ℓ} {F : Type ℓ} where
  abbrev one_if : Option F → ℕ
  one_if o = if is_valid o then 1 else 0

  -- How many of the functions 0 to n - 1 hold a callable.
  pub live : ℕ → Functions F → ℕ
  live n s = sum_over n (λ i. one_if (s.held i))

  -- Every callable that was constructed has been destroyed, or is held by a function.
  abbrev pub Balanced : ℕ → Functions F → Type 0
  Balanced n s = s.constructed ≡ s.destroyed + live n s

  sum-update :
      (n : ℕ) (held : ℕ → Option F) (i : ℕ) (o : Option F)
      → i < n
      → sum_over n (λ j. one_if (update held i o j)) + one_if (held i)
        ≡ sum_over n (λ j. one_if (held j)) + one_if o
  sum-update n held i o lt = omega (
    arith,
    sum_over-change n (λ j. one_if (update held i o j)) (λ j. one_if (held j)) i lt
        (λ j ne. ap one_if (update_ne held i j o (λ e. ne (sym e)))),
    ap one_if (update_self held i o),
  )

  reset-Balanced : (n : ℕ) (s : Functions F) (i : ℕ) → i < n → Balanced n s → Balanced n (reset s i)
  unfolding reset live
  reset-Balanced n s i lt b = omega (arith, b, sum-update n s.held i none lt)

  init-Balanced :
      (n : ℕ) (s : Functions F) (i : ℕ) (f : F)
      → i < n
      → s.held i ≡ none
      → Balanced n s
      → Balanced n (init s i f)
  unfolding init live
  init-Balanced n s i f lt e b = omega (arith, b, sum-update n s.held i (some f) lt, ap one_if e)

  move_from-Balanced :
      (n : ℕ) (s : Functions F) (i other : ℕ)
      → i < n
      → other < n
      → i ≢ other
      → s.held i ≡ none
      → Balanced n s
      → Balanced n (move_from s i other)
  unfolding move_from live
  move_from-Balanced n s i other lt olt ne e b = omega (
    arith,
    b,
    sum-update n s.held i (s.held other) lt,
    sum-update n (update s.held i (s.held other)) other none olt,
    ap one_if (update_ne s.held i other (s.held other) ne),
    ap one_if e,
  )

  reset_held : (s : Functions F) (i : ℕ) → (reset s i).held i ≡ none
  unfolding reset
  reset_held s i = update_self s.held i none

  Use-Balanced :
      (n : ℕ) (s : Functions F) {t : Functions F} → Use n s t → Balanced n s → Balanced n t
  unfolding emplace move_assign
  Use-Balanced n s (constructs i f lt e) b = init-Balanced n s i f lt e b
  Use-Balanced n s (move_constructs i other lt olt ne e) b =
      move_from-Balanced n s i other lt olt ne e b
  Use-Balanced n s (emplaces i f lt) b =
      init-Balanced n (reset s i) i f lt (reset_held s i) (reset-Balanced n s i lt b)
  Use-Balanced n s (assigns i other lt olt) b = elim (Bool-cases (i == other)) [
    | inl self ↦ rw (self, move_assign) b
    | inr apart ↦
        rw (apart, move_assign)
          (move_from-Balanced n (reset s i) i other lt olt (ground (arith, apart)) (reset_held s i)
            (reset-Balanced n s i lt b))
  ]
  Use-Balanced n s (resets i lt) b = reset-Balanced n s i lt b

  -- Whatever a program does with n functions, from none that holds anything: each callable that was
  -- constructed, by a move too, has been destroyed, or stands in one function.
  pub Uses-Balanced : (n : ℕ) {t : Functions F} → Uses n no_functions t → Balanced n t
  unfolding live
  Uses-Balanced n no_use = omega (arith, sum_over-zero n (λ i. 0) (λ i lt. refl))
  Uses-Balanced n (then_use {t} uses step) = Use-Balanced n t step (Uses-Balanced n uses)
