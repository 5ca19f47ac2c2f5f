-- ===== src/Cpu/Topology/Shared.antt =====
-- Which processors share a core.
use thunder_bolt_ht.Base.{
  ℕ, suc, ◌+◌, ◌<◌, ◌≡◌, ◌≢◌, refl, sym, ◌∙◌, ◌&&◌, inl, inr, ◌==◌, Option, none, some, List, [],
  ◌∷◌, arith, length, count, count-append, Bool-cases, Option-cases, none-some, dec_lt,
}
use thunder_bolt_ht.Cpu.Topology.Linux.{
  CoreKey, find_core, Groups, add_logical, group_cores, no_groups, grouped,
}
use thunder_bolt_ht.Cpu.Topology.Totals.{over_cores, over_cores-append, both, is_unused}
use thunder_bolt_ht.Cpu.Topology.Grouped.{
  IsIndexed, append-IsIndexed, push-IsIndexed, find_core_hit, find_core_miss,
}

-- The groups are indexed, and hold each processor as often as `ids` names it.
unfoldable pub Holds : (ℕ → Option (ℕ × ℕ)) → (ℕ → ℕ) → Groups → Type 0
Holds keys ids g =
    IsIndexed keys 0 g.core_index g.cores × ((a : ℕ) → over_cores (count a) g.cores ≡ ids a)

add_logical-Holds :
    (keys : ℕ → Option (ℕ × ℕ)) (ids : ℕ → ℕ) (l p c : ℕ) (g : Groups)
    → keys l ≡ some (p, c)
    → Holds keys ids g
    → Holds keys (λ a. ids a + count a (l ∷ [])) (add_logical p c l g)
unfolding Holds add_logical over_cores
add_logical-Holds keys ids l p c g e h = elim (Option-cases (find_core p c g.core_index)) [
  | inl fresh ↦
      rw (fresh, add_logical)
        (
          append-IsIndexed keys 0 g.core_index g.cores l p c (length g.cores) e fresh (omega arith)
              h.0,
          λ a. omega (arith, h.1 a, over_cores-append (count a) g.cores ((l ∷ []) ∷ [])),
        )
  | inr (i, found) ↦
      let r = push-IsIndexed keys 0 g.core_index g.cores l p c i e found h.0 in
      let at : r.0 ≡ i = omega (arith, r.1) in
      rw (found, add_logical, sym at)
        (
          r.2,
          λ a. omega (
            arith,
            h.1 a,
            r.3 (count a) (count a (l ∷ [])) (λ core. count-append a core (l ∷ [])),
          ),
        )
]

-- How often the processors whose keys can be read come in a list.
unfoldable pub count_read : (ℕ → Option (ℕ × ℕ)) → ℕ → List ℕ → ℕ
count_read keys a [] = 0
count_read keys a (l ∷ ids) = elim (keys l) [
  | none ↦ count_read keys a ids
  | some k ↦ count a (l ∷ []) + count_read keys a ids
]

group_cores-Holds :
    (keys : ℕ → Option (ℕ × ℕ)) (ids : List ℕ) (before : ℕ → ℕ) (g : Groups)
    → Holds keys before g
    → Holds keys (λ a. before a + count_read keys a ids) (group_cores keys ids g)
unfolding Holds group_cores count_read
group_cores-Holds keys [] before g h = (h.0, λ a. omega (arith, h.1 a))
group_cores-Holds keys (l ∷ ids) before g h = elim (Option-cases (keys l)) [
  | inl e ↦ rw (e, group_cores, count_read) (group_cores-Holds keys ids before g h)
  | inr ((p, c), e) ↦
      let r =
        group_cores-Holds keys ids _ (add_logical p c l g)
          (add_logical-Holds keys before l p c g e h) in
      rw (e, group_cores, count_read) (r.0, λ a. omega (arith, r.1 a))
]

pub grouped-Holds :
    (keys : ℕ → Option (ℕ × ℕ)) (ids : List ℕ)
    → Holds keys (λ a. count_read keys a ids) (grouped keys ids)
unfolding grouped Holds IsIndexed over_cores
grouped-Holds keys ids =
    let r = group_cores-Holds keys ids (λ a. 0) no_groups (tt, λ a. refl) in
    (r.0, λ a. omega (arith, r.1 a))

pub IsIndexed-used :
    (keys : ℕ → Option (ℕ × ℕ)) (n : ℕ) (ks : List CoreKey) (cores : List (List ℕ))
    → IsIndexed keys n ks cores
    → over_cores is_unused cores ≡ 0
unfolding IsIndexed over_cores
IsIndexed-used keys n [] [] inv = refl
IsIndexed-used keys n [] (core ∷ cores) inv = elim inv [ ]
IsIndexed-used keys n (k ∷ ks) [] inv = elim inv [ ]
IsIndexed-used keys n (k ∷ ks) (core ∷ cores) inv =
    ground (arith, inv.1, IsIndexed-used keys (suc n) ks cores inv.4)

-- Processors of one core have the same keys.
pub shared-keys :
    (keys : ℕ → Option (ℕ × ℕ)) (n : ℕ) (ks : List CoreKey) (cores : List (List ℕ)) (a b : ℕ)
    → IsIndexed keys n ks cores
    → 0 < over_cores (both a b) cores
    → keys a ≡ keys b
unfolding IsIndexed over_cores
shared-keys keys n [] [] a b inv pos = absurd (omega (arith, pos))
shared-keys keys n [] (core ∷ cores) a b inv pos = elim inv [ ]
shared-keys keys n (k ∷ ks) [] a b inv pos = elim inv [ ]
shared-keys keys n (k ∷ ks) (core ∷ cores) a b inv pos = elim (dec_lt 0 (both a b core)) [
  | yes here ↦ inv.2 a (ground (arith, here)) ∙ sym (inv.2 b (ground (arith, here)))
  | no not_here ↦ shared-keys keys (suc n) ks cores a b inv.4 (omega (arith, pos))
]

-- The keys of a processor in a core have an entry.
has_entry :
    (keys : ℕ → Option (ℕ × ℕ)) (n : ℕ) (ks : List CoreKey) (cores : List (List ℕ)) (b p c : ℕ)
    → IsIndexed keys n ks cores
    → 0 < over_cores (count b) cores
    → keys b ≡ some (p, c)
    → find_core p c ks ≢ none
unfolding IsIndexed over_cores
has_entry keys n [] [] b p c inv pos e miss = omega (arith, pos)
has_entry keys n [] (core ∷ cores) b p c inv pos e miss = elim inv [ ]
has_entry keys n (k ∷ ks) [] b p c inv pos e miss = elim inv [ ]
has_entry keys n (k ∷ ks) (core ∷ cores) b p c inv pos e miss = elim (dec_lt 0 (count b core)) [
  | yes here ↦ none-some (sym miss ∙ find_core_hit p c k ks (grind (arith, e, inv.2 b here)))
  | no not_here ↦ elim (Bool-cases (p == k.package_id && c == k.core_id)) [
    | inl same ↦ none-some (sym miss ∙ find_core_hit p c k ks same)
    | inr other ↦
        has_entry keys (suc n) ks cores b p c inv.4 (omega (arith, pos)) e
          (sym (find_core_miss p c k ks other) ∙ miss)
  ]
]

-- Processors with the same keys are in one core, once they are in the cores at all.
pub keys-shared :
    (keys : ℕ → Option (ℕ × ℕ)) (n : ℕ) (ks : List CoreKey) (cores : List (List ℕ)) (a b : ℕ)
    → IsIndexed keys n ks cores
    → 0 < over_cores (count a) cores
    → 0 < over_cores (count b) cores
    → keys a ≡ keys b
    → 0 < over_cores (both a b) cores
unfolding IsIndexed over_cores
keys-shared keys n [] [] a b inv pos_a pos_b same = pos_a
keys-shared keys n [] (core ∷ cores) a b inv pos_a pos_b same = elim inv [ ]
keys-shared keys n (k ∷ ks) [] a b inv pos_a pos_b same = elim inv [ ]
keys-shared keys n (k ∷ ks) (core ∷ cores) a b inv pos_a pos_b same =
    elim (dec_lt 0 (count a core)) [
      | yes x ↦ elim (dec_lt 0 (count b core)) [
        | yes y ↦ ground (arith, x, y)
        | no y ↦ absurd (
            has_entry keys (suc n) ks cores b k.package_id k.core_id inv.4 (omega (arith, y, pos_b))
              (sym same ∙ inv.2 a x) inv.3)
      ]
      | no x ↦ elim (dec_lt 0 (count b core)) [
        | yes y ↦ absurd (
            has_entry keys (suc n) ks cores a k.package_id k.core_id inv.4 (omega (arith, x, pos_a))
              (same ∙ inv.2 b y) inv.3)
        | no y ↦ omega (
          arith,
          keys-shared keys (suc n) ks cores a b inv.4 (omega (arith, x, pos_a))
              (omega (arith, y, pos_b)) same,
        )
      ]
    ]
