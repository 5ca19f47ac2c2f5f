-- ===== src/Cpu/Affinity/Spread.antt =====
-- Every logical processor comes once, and the first workers get a core each.
use thunder_bolt_ht.Base.{
  ℕ, zero, suc, ◌+◌, ◌-◌, ◌%◌, ◌≤◌, ◌<◌, ◌≡◌, refl, ap, ◌∙◌, Bool, true, false, ltb, leb,
  Bool-cases, ◌==◌, if◌then◌else◌, List, [], ◌∷◌, ◌++◌, none, some, arith, get_elem?, length,
  length-append, count, count-nil, count-cons, count-append, none-some, Option-cases, List-cases,
  inl, inr,
}
use thunder_bolt_ht.Cpu.Topology.{CpuTopology}
use thunder_bolt_ht.Cpu.Topology.Totals.{processors, IsUsed}
use thunder_bolt_ht.Cpu.Affinity.{
  max_siblings, one_round, all_rounds, spread_order, chosen, logical_for, Platform, AffinityMode,
  windows, linux, other, disabled, topology_aware,
}

-- What the rounds take from one core: its rounds over a list of this core alone.
abbrev taken : ℕ → ℕ → List ℕ → List ℕ
taken rounds sibling core = all_rounds rounds sibling (core ∷ [])

one_round-cons :
    (a sibling : ℕ) (core : List ℕ) (cores : List (List ℕ))
    → count a (one_round sibling (core ∷ cores))
      ≡ count a (one_round sibling (core ∷ [])) + count a (one_round sibling cores)
unfolding one_round
one_round-cons a sibling core cores = elim (Option-cases (get_elem? core sibling)) [
  | inl e ↦ rw (e, one_round) (omega (arith, count-nil a))
  | inr (p, e) ↦
      rw (e, one_round)
        (omega (arith, count-cons a p (one_round sibling cores), count-cons a p [], count-nil a))
]

all_rounds-cons :
    (a rounds sibling : ℕ) (core : List ℕ) (cores : List (List ℕ))
    → count a (all_rounds rounds sibling (core ∷ cores))
      ≡ count a (taken rounds sibling core) + count a (all_rounds rounds sibling cores)
unfolding all_rounds
all_rounds-cons a zero sibling core cores = omega (arith, count-nil a)
all_rounds-cons a (suc rounds) sibling core cores = omega (
  arith,
  count-append a (one_round sibling (core ∷ cores))
      (all_rounds rounds (sibling + 1) (core ∷ cores)),
  count-append a (one_round sibling (core ∷ [])) (taken rounds (sibling + 1) core),
  count-append a (one_round sibling cores) (all_rounds rounds (sibling + 1) cores),
  one_round-cons a sibling core cores,
  all_rounds-cons a rounds (sibling + 1) core cores,
)

-- Behind its first processor, a core is one that has a processor less.
taken-tail :
    (rounds sibling x : ℕ) (core : List ℕ)
    → taken rounds (suc sibling) (x ∷ core) ≡ taken rounds sibling core
unfolding all_rounds one_round
taken-tail zero sibling x core = refl
taken-tail (suc rounds) sibling x core =
    ap (λ rest. one_round sibling (core ∷ []) ++ rest)
      (ap (λ k. taken rounds k (x ∷ core)) (omega arith) ∙ taken-tail rounds (sibling + 1) x core)

taken-nil : (a rounds sibling : ℕ) → count a (taken rounds sibling []) ≡ 0
unfolding all_rounds one_round
taken-nil a zero sibling = count-nil a
taken-nil a (suc rounds) sibling = taken-nil a rounds (sibling + 1)

count-taken :
    (a rounds : ℕ) (core : List ℕ)
    → length core ≤ rounds
    → count a (taken rounds 0 core) ≡ count a core
unfolding all_rounds one_round
count-taken a rounds [] le = omega (arith, taken-nil a rounds 0, count-nil a)
count-taken a zero (x ∷ core) le = absurd (omega arith)
count-taken a (suc rounds) (x ∷ core) le = omega (
  arith,
  count-cons a x (taken rounds 1 (x ∷ core)),
  count-cons a x core,
  ap (count a) (taken-tail rounds 0 x core),
  count-taken a rounds core (omega (arith, le)),
)

all_rounds-nil : (a rounds sibling : ℕ) → count a (all_rounds rounds sibling []) ≡ 0
unfolding all_rounds one_round
all_rounds-nil a zero sibling = count-nil a
all_rounds-nil a (suc rounds) sibling = all_rounds-nil a rounds (sibling + 1)

all_rounds-processors :
    (a rounds : ℕ) (cores : List (List ℕ))
    → max_siblings cores ≤ rounds
    → count a (all_rounds rounds 0 cores) ≡ count a (processors cores)
unfolding max_siblings processors
all_rounds-processors a rounds [] le = omega (arith, all_rounds-nil a rounds 0, count-nil a)
all_rounds-processors a rounds (core ∷ cores) le = omega (
  arith,
  all_rounds-cons a rounds 0 core cores,
  count-append a core (processors cores),
  count-taken a rounds core (ground (arith, le)),
  all_rounds-processors a rounds cores (ground (arith, le)),
)

-- On a topology that was detected, the order holds each logical processor as often as the cores
-- list it, and no other.
pub spread_order-processors :
    (a : ℕ) (t : CpuTopology)
    → t.detected ≡ true
    → count a (spread_order t) ≡ count a (processors t.cores)
unfolding spread_order processors
spread_order-processors a t found = elim (List-cases t.cores) [
  | inl no_core ↦ rw (found, no_core) refl
  | inr (core, cores, e) ↦
      let some_core : (length t.cores == 0) ≡ false = rw e (ground arith) in
      rw (found, some_core) (all_rounds-processors a (max_siblings t.cores) t.cores (omega arith))
]

first_round :
    (cores : List (List ℕ)) (w : ℕ) (core : List ℕ)
    → IsUsed cores
    → get_elem? cores w ≡ some core
    → get_elem? (one_round 0 cores) w ≡ get_elem? core 0
unfolding one_round IsUsed
first_round [] w core used e = absurd (none-some e)
first_round ([] ∷ cores) w core used e = absurd (omega (arith, used))
first_round ((x ∷ xs) ∷ cores) zero core used e =
    let same : x ∷ xs ≡ core = cc in ap (λ c. get_elem? c 0) same
first_round ((x ∷ xs) ∷ cores) (suc w) core used e = first_round cores w core used.1 e

length-first_round :
    (cores : List (List ℕ)) → IsUsed cores → length (one_round 0 cores) ≡ length cores
unfolding one_round IsUsed
length-first_round [] used = refl
length-first_round ([] ∷ cores) used = absurd (omega (arith, used))
length-first_round ((x ∷ xs) ∷ cores) used = omega (arith, length-first_round cores used.1)

get_elem?-append_left :
    (xs ys : List ℕ) (i : ℕ) → i < length xs → get_elem? (xs ++ ys) i ≡ get_elem? xs i
get_elem?-append_left [] ys i lt = absurd (omega (arith, lt))
get_elem?-append_left (x ∷ xs) ys zero lt = refl
get_elem?-append_left (x ∷ xs) ys (suc i) lt = get_elem?-append_left xs ys i (omega (arith, lt))

in_range :
    (cores : List (List ℕ)) (w : ℕ) (core : List ℕ)
    → get_elem? cores w ≡ some core
    → w < length cores
in_range [] w core e = absurd (none-some e)
in_range (c ∷ cores) zero core e = omega arith
in_range (c ∷ cores) (suc w) core e = omega (arith, in_range cores w core e)

some_sibling : (cores : List (List ℕ)) → IsUsed cores → 0 < length cores → 0 < max_siblings cores
unfolding max_siblings IsUsed
some_sibling [] used pos = absurd (omega (arith, pos))
some_sibling (core ∷ cores) used pos = ground (arith, used)

-- The order begins with the first round.
order-first_round :
    (t : CpuTopology)
    → t.detected ≡ true
    → IsUsed t.cores
    → 0 < length t.cores
    → (rest : List ℕ) × (spread_order t ≡ one_round 0 t.cores ++ rest)
unfolding spread_order all_rounds
order-first_round t found used pos =
    let most : 0 < max_siblings t.cores = some_sibling t.cores used pos in
    let more : max_siblings t.cores ≡ suc (max_siblings t.cores - 1) = omega arith in
    let some_core : (length t.cores == 0) ≡ false = ground arith in
    (
      all_rounds (max_siblings t.cores - 1) 1 t.cores,
      rw (found, some_core) (ap (λ n. all_rounds n 0 t.cores) more),
    )

pick :
    (order : List ℕ) (w : ℕ)
    → w < length order
    → (if length order == 0 then none else get_elem? order (w % length order)) ≡ get_elem? order w
pick order w lt =
    let small : w % length order ≡ w = grind arith in
    let some_left : (length order == 0) ≡ false = ground arith in rw (some_left, small) refl

-- Whether a worker may be bound to processor `p`: only where affinity is asked for, on Windows only
-- within the first group of 64, on Linux to any.
unfoldable pub may_bind : Platform → AffinityMode → ℕ → Bool
may_bind windows topology_aware p = ltb p 64
may_bind linux topology_aware p = true
may_bind _ _ p = false

chosen-own_core :
    (t : CpuTopology) (w : ℕ) (core : List ℕ)
    → t.detected ≡ true
    → IsUsed t.cores
    → get_elem? t.cores w ≡ some core
    → chosen (spread_order t) w ≡ get_elem? core 0
unfolding chosen
chosen-own_core t w core found used e =
    let lt : w < length t.cores = in_range t.cores w core e in
    let o = order-first_round t found used (omega (arith, lt)) in
    let inside : w < length (one_round 0 t.cores) =
      omega (arith, lt, length-first_round t.cores used) in
    let in_order : w < length (spread_order t) =
      omega (arith, inside, ap length o.1, length-append (one_round 0 t.cores) o.0) in
    pick (spread_order t) w in_order
    ∙ ap (λ order. get_elem? order w) o.1
    ∙ get_elem?-append_left (one_round 0 t.cores) o.0 w inside
    ∙ first_round t.cores w core used e

-- On a topology that was detected, and in which every core has a processor, worker w is to be bound
-- to the first processor of core w, for as many workers as there are cores, where that may be bound:
-- affinity is not disabled, and the system is Linux, or Windows and the processor is one of the first
-- 64. Anywhere else it is bound to none.
pub logical_for-own_core :
    (platform : Platform) (mode : AffinityMode) (t : CpuTopology) (w p : ℕ) (siblings : List ℕ)
    → t.detected ≡ true
    → IsUsed t.cores
    → get_elem? t.cores w ≡ some (p ∷ siblings)
    → logical_for platform mode t w ≡ (if may_bind platform mode p then some p else none)
unfolding logical_for may_bind
logical_for-own_core windows disabled t w p siblings found used e = refl
logical_for-own_core linux disabled t w p siblings found used e = refl
logical_for-own_core other disabled t w p siblings found used e = refl
logical_for-own_core other topology_aware t w p siblings found used e = refl
logical_for-own_core linux topology_aware t w p siblings found used e =
    chosen-own_core t w (p ∷ siblings) found used e
logical_for-own_core windows topology_aware t w p siblings found used e =
    rw (logical_for, chosen-own_core t w (p ∷ siblings) found used e)
      (elim (Bool-cases (ltb p 64)) [
        | inl small ↦ let inside : leb 64 p ≡ false = ground arith in rw (small, inside) refl
        | inr large ↦ let outside : leb 64 p ≡ true = ground arith in rw (large, outside) refl
      ])
