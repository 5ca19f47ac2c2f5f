-- ===== src/Cpu/Topology/Totals.antt =====
-- Sums over the cores, which the order of the cores does not change.
use thunder_bolt_ht.Base.{
  ℕ, suc, ◌+◌, ◌%◌, ◌^◌, ◌<◌, ◌≡◌, refl, ◌&&◌, ltb, ◌==◌, if◌then◌else◌, List, [], ◌∷◌, ◌++◌, map,
  arith, length, length-append, count, count-cons, count-append,
}
use thunder_bolt_ht.Cpu.Topology.{logical_total}
use thunder_bolt_ht.Cpu.Topology.Linux.{place_logical, sort_logical, place_core, sort_cores}

-- The processors of all cores, core by core.
unfoldable pub processors : List (List ℕ) → List ℕ
processors [] = []
processors (core ∷ cores) = core ++ processors cores

-- Every core has a processor.
unfoldable pub IsUsed : List (List ℕ) → Type 0
IsUsed [] = Unit {0}
IsUsed (core ∷ cores) = (0 < length core) × IsUsed cores

unfoldable pub over_cores : (List ℕ → ℕ) → List (List ℕ) → ℕ
over_cores f [] = 0
over_cores f (core ∷ cores) = f core + over_cores f cores

abbrev pub both : ℕ → ℕ → List ℕ → ℕ
both a b core = if ltb 0 (count a core) && ltb 0 (count b core) then 1 else 0

-- How many cores list both of two processors.
unfoldable pub shared_cores : ℕ → ℕ → List (List ℕ) → ℕ
shared_cores a b cores = over_cores (both a b) cores

pub count-processors :
    (a : ℕ) (cores : List (List ℕ)) → count a (processors cores) ≡ over_cores (count a) cores
unfolding processors over_cores count
count-processors a [] = refl
count-processors a (core ∷ cores) =
    omega (arith, count-append a core (processors cores), count-processors a cores)

pub length-processors :
    (cores : List (List ℕ)) → length (processors cores) ≡ over_cores length cores
unfolding processors over_cores
length-processors [] = refl
length-processors (core ∷ cores) =
    omega (arith, length-append core (processors cores), length-processors cores)

abbrev pub is_unused : List ℕ → ℕ
is_unused core = if length core == 0 then 1 else 0

pub unused-IsUsed : (cores : List (List ℕ)) → over_cores is_unused cores ≡ 0 → IsUsed cores
unfolding over_cores IsUsed
unused-IsUsed [] e = tt
unused-IsUsed (core ∷ cores) e = (ground (arith, e), unused-IsUsed cores (ground (arith, e)))

pub IsUsed-unused : (cores : List (List ℕ)) → IsUsed cores → over_cores is_unused cores ≡ 0
unfolding over_cores IsUsed
IsUsed-unused [] used = refl
IsUsed-unused (core ∷ cores) used = ground (arith, used.0, IsUsed-unused cores used.1)

pub over_cores-append :
    (f : List ℕ → ℕ) (cores more : List (List ℕ))
    → over_cores f (cores ++ more) ≡ over_cores f cores + over_cores f more
unfolding over_cores
over_cores-append f [] more = omega arith
over_cores-append f (core ∷ cores) more = omega (arith, over_cores-append f cores more)

over_cores-place_core :
    (f : List ℕ → ℕ) (core : List ℕ) (cores : List (List ℕ))
    → over_cores f (place_core core cores) ≡ f core + over_cores f cores
unfolding over_cores place_core
over_cores-place_core f core [] = refl
over_cores-place_core f core (c ∷ cs) = ground (arith, over_cores-place_core f core cs)

over_cores-sort_cores :
    (f : List ℕ → ℕ) (cores : List (List ℕ)) → over_cores f (sort_cores cores) ≡ over_cores f cores
unfolding over_cores sort_cores
over_cores-sort_cores f [] = refl
over_cores-sort_cores f (core ∷ cores) =
    omega (arith, over_cores-place_core f core (sort_cores cores), over_cores-sort_cores f cores)

count-place_logical : (a p : ℕ) (ps : List ℕ) → count a (place_logical p ps) ≡ count a (p ∷ ps)
unfolding count place_logical
count-place_logical a p [] = refl
count-place_logical a p (q ∷ qs) = ground (arith, count-place_logical a p qs)

pub count-sort_logical : (a : ℕ) (ps : List ℕ) → count a (sort_logical ps) ≡ count a ps
unfolding count sort_logical
count-sort_logical a [] = refl
count-sort_logical a (p ∷ ps) = omega (
  arith,
  count-place_logical a p (sort_logical ps),
  count-sort_logical a ps,
  count-cons a p (sort_logical ps),
)

length-place_logical : (p : ℕ) (ps : List ℕ) → length (place_logical p ps) ≡ suc (length ps)
unfolding place_logical
length-place_logical p [] = refl
length-place_logical p (q ∷ qs) = ground (arith, length-place_logical p qs)

pub length-sort_logical : (ps : List ℕ) → length (sort_logical ps) ≡ length ps
unfolding sort_logical
length-sort_logical [] = refl
length-sort_logical (p ∷ ps) =
    omega (arith, length-place_logical p (sort_logical ps), length-sort_logical ps)

over_cores-map :
    (f : List ℕ → ℕ) (cores : List (List ℕ))
    → ((core : List ℕ) → f (sort_logical core) ≡ f core)
    → over_cores f (map sort_logical cores) ≡ over_cores f cores
unfolding over_cores
over_cores-map f [] same = refl
over_cores-map f (core ∷ cores) same = omega (arith, same core, over_cores-map f cores same)

-- What a sum over the cores of the found groups is after the sorts.
pub over_cores-sorted :
    (f : List ℕ → ℕ) (cores : List (List ℕ))
    → ((core : List ℕ) → f (sort_logical core) ≡ f core)
    → over_cores f (sort_cores (map sort_logical cores)) ≡ over_cores f cores
over_cores-sorted f cores same =
    omega (arith, over_cores-sort_cores f (map sort_logical cores), over_cores-map f cores same)

pub both-sort_logical : (a b : ℕ) (core : List ℕ) → both a b (sort_logical core) ≡ both a b core
both-sort_logical a b core = rw (count-sort_logical a core, count-sort_logical b core) refl

pub is_unused-sort_logical : (core : List ℕ) → is_unused (sort_logical core) ≡ is_unused core
is_unused-sort_logical core = rw (length-sort_logical core) refl

one_each : (cores : List (List ℕ)) → over_cores (λ core. 1) cores ≡ length cores
unfolding over_cores
one_each [] = refl
one_each (core ∷ cores) = omega (arith, one_each cores)

pub length-sorted :
    (cores : List (List ℕ)) → length (sort_cores (map sort_logical cores)) ≡ length cores
length-sorted cores = omega (
  arith,
  one_each cores,
  one_each (sort_cores (map sort_logical cores)),
  over_cores-sorted (λ core. 1) cores (λ core. refl),
)

pub logical_total_lem :
    (cores : List (List ℕ)) (total : ℕ)
    → total + over_cores length cores < 2 ^ 32
    → logical_total cores total ≡ total + over_cores length cores
unfolding over_cores logical_total
logical_total_lem [] total lt = omega arith
logical_total_lem (core ∷ cores) total lt =
    let e : (total + length core % 2 ^ 32) % 2 ^ 32 ≡ total + length core = omega (arith, lt) in
    rw e (omega (arith, lt, logical_total_lem cores (total + length core) (omega (arith, lt))))
