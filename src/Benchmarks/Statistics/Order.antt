-- ===== src/Benchmarks/Statistics/Order.antt =====
-- A summary does not depend on the order of the samples.
use mathlib.Core.List as ListLaws
use mathlib.Core.List.{Permᴰ}
use mathlib.Core.List.Permᴰ.{nil, cons, swap, trans}
use mathlib.Core.Logic.{∥∥₁_elim}
use thunder_bolt_ht.Base.{
  suc, ◌==◌, arith, if◌then◌else◌, length, ◌≡◌, refl, sym, ap, subst, ◌∙◌, true, false, List, [],
  ◌∷◌, Perm, Bool-cases, inl, inr,
}
use thunder_bolt_ht.Benchmarks.Statistics.{
  Double, place_sample, sort_samples, Summary, no_summary, summarize, summarize_sorted,
}

-- The comparison is a strict total order, as it is on numbers that are no NaN and no negative zero.
pub record IsLinear {D : Type 0} (d : Double D) : Type 0 where
  pub set : IsSet D
  pub asym : (x y : D) → d.lt x y ≡ true → d.lt y x ≡ false
  pub before : (x y z : D) → d.lt x y ≡ true → d.lt y z ≡ true → d.lt x z ≡ true
  pub same : (x y : D) → d.lt x y ≡ false → d.lt y x ≡ false → x ≡ y

module _ {D : Type 0} ⦃d : Double D⦄ where
  place_skip :
      (x y : D) (ys : List D) → d.lt y x ≡ true → place_sample x (y ∷ ys) ≡ y ∷ place_sample x ys
  unfolding place_sample
  place_skip x y ys e = rw e refl

  place_stop : (x y : D) (ys : List D) → d.lt y x ≡ false → place_sample x (y ∷ ys) ≡ x ∷ y ∷ ys
  unfolding place_sample
  place_stop x y ys e = rw e refl

  below : (o : IsLinear d) (b y a : D) → d.lt y b ≡ false → d.lt y a ≡ true → d.lt b a ≡ true
  below o b y a stop skip = elim (Bool-cases (d.lt b y)) [
    | inl less ↦ o.before b y a less skip
    | inr not_less ↦ subst (λ z. d.lt z a ≡ true) (o.same y b stop not_less) skip
  ]

  -- Of two samples, the one that is not the larger stands first, whichever is placed last.
  two_in_front :
      (o : IsLinear d) (a b y : D) (ys : List D)
      → d.lt y a ≡ false
      → d.lt y b ≡ false
      → place_sample a (b ∷ y ∷ ys) ≡ place_sample b (a ∷ y ∷ ys)
  two_in_front o a b y ys stop_a stop_b = elim (Bool-cases (d.lt b a)) [
    | inl less ↦
        place_skip a b (y ∷ ys) less
        ∙ ap (λ t. b ∷ t) (place_stop a y ys stop_a)
        ∙ sym (place_stop b a (y ∷ ys) (o.asym b a less))
    | inr not_less ↦ elim (Bool-cases (d.lt a b)) [
      | inl less ↦
          place_stop a b (y ∷ ys) not_less
          ∙ ap (λ t. a ∷ t) (sym (place_stop b y ys stop_b))
          ∙ sym (place_skip b a (y ∷ ys) less)
      | inr e ↦
          ap (λ z. place_sample z (b ∷ y ∷ ys)) (o.same a b e not_less)
          ∙ ap (λ z. place_sample b (z ∷ y ∷ ys)) (sym (o.same a b e not_less))
    ]
  ]

  one_in_front :
      (o : IsLinear d) (a b y : D) (ys : List D)
      → d.lt y a ≡ true
      → d.lt y b ≡ false
      → place_sample a (place_sample b (y ∷ ys)) ≡ place_sample b (place_sample a (y ∷ ys))
  one_in_front o a b y ys skip stop =
      ap (place_sample a) (place_stop b y ys stop)
      ∙ place_skip a b (y ∷ ys) (below o b y a stop skip)
      ∙ ap (λ t. b ∷ t) (place_skip a y ys skip)
      ∙ sym (place_stop b y (place_sample a ys) stop)
      ∙ ap (place_sample b) (sym (place_skip a y ys skip))

  place_sample_comm :
      (o : IsLinear d) (a b : D) (xs : List D)
      → place_sample a (place_sample b xs) ≡ place_sample b (place_sample a xs)
  unfolding place_sample
  place_sample_comm o a b [] = elim (Bool-cases (d.lt b a)) [
    | inl less ↦ place_skip a b [] less ∙ sym (place_stop b a [] (o.asym b a less))
    | inr not_less ↦ elim (Bool-cases (d.lt a b)) [
      | inl less ↦ place_stop a b [] not_less ∙ sym (place_skip b a [] less)
      | inr e ↦ cc (o.same a b e not_less)
    ]
  ]
  place_sample_comm o a b (y ∷ ys) = elim (Bool-cases (d.lt y a)) [
    | inl skip_a ↦ elim (Bool-cases (d.lt y b)) [
      | inl skip_b ↦
          ap (place_sample a) (place_skip b y ys skip_b)
          ∙ place_skip a y (place_sample b ys) skip_a
          ∙ ap (λ t. y ∷ t) (place_sample_comm o a b ys)
          ∙ sym (place_skip b y (place_sample a ys) skip_b)
          ∙ ap (place_sample b) (sym (place_skip a y ys skip_a))
      | inr stop_b ↦ one_in_front o a b y ys skip_a stop_b
    ]
    | inr stop_a ↦ elim (Bool-cases (d.lt y b)) [
      | inl skip_b ↦ sym (one_in_front o b a y ys skip_b stop_a)
      | inr stop_b ↦
          ap (place_sample a) (place_stop b y ys stop_b)
          ∙ two_in_front o a b y ys stop_a stop_b
          ∙ ap (place_sample b) (sym (place_stop a y ys stop_a))
    ]
  ]

  sort-Perm : (o : IsLinear d) {xs ys : List D} → Permᴰ xs ys → sort_samples xs ≡ sort_samples ys
  unfolding sort_samples
  sort-Perm o nil = refl
  sort-Perm o (cons {a} {b} {l₁} {l₂} e p) =
      ap (λ z. place_sample z (sort_samples l₁)) e ∙ ap (place_sample b) (sort-Perm o p)
  sort-Perm o (swap {a} {b} {a'} {b'} {l} e f) =
      place_sample_comm o a b (sort_samples l)
      ∙ ap (λ z. place_sample z (place_sample a (sort_samples l))) f
      ∙ ap (λ z. place_sample a' (place_sample z (sort_samples l))) e
  sort-Perm o (trans p q) = sort-Perm o p ∙ sort-Perm o q

  length-place_sample : (x : D) (xs : List D) → length (place_sample x xs) ≡ suc (length xs)
  unfolding place_sample
  length-place_sample x [] = refl
  length-place_sample x (y ∷ ys) = ground (arith, length-place_sample x ys)

  pub length-sort_samples : (xs : List D) → length (sort_samples xs) ≡ length xs
  unfolding sort_samples
  length-sort_samples [] = refl
  length-sort_samples (x ∷ xs) =
      omega (arith, length-place_sample x (sort_samples xs), length-sort_samples xs)

  summary_of_sorted : List D → Summary D
  summary_of_sorted sorted = if length sorted == 0 then no_summary else summarize_sorted sorted

  summarize_lem : (xs : List D) → summarize xs ≡ summary_of_sorted (sort_samples xs)
  unfolding summarize summary_of_sorted
  summarize_lem xs = rw (length-sort_samples xs) refl

  -- Where the comparison of the samples is a strict total order, lists that are permutations of each
  -- other have the same summary, its mean included.
  pub summarize-Perm : (o : IsLinear d) (xs ys : List D) → Perm xs ys → summarize xs ≡ summarize ys
  summarize-Perm o xs ys p =
      summarize_lem xs
      ∙ ap summary_of_sorted
          (∥∥₁_elim p (ListLaws.is_set o.set (sort_samples xs) (sort_samples ys)) (sort-Perm o))
      ∙ sym (summarize_lem ys)
