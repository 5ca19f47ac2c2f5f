-- ===== src/Cpu/Topology/Grouped.antt =====
-- The loop of query_linux_topology puts each processor into the core of its keys.
use thunder_bolt_ht.Base.{
  ℕ, suc, ◌+◌, ◌<◌, ◌≡◌, refl, sym, ◌∙◌, ◌&&◌, inl, inr, true, false, ◌==◌, Option, none, some,
  List, [], ◌∷◌, ◌++◌, arith, length, length-append, count, count-nil, count-cons, count-append,
  Bool-cases, none-some,
}
use thunder_bolt_ht.Cpu.Topology.Linux.{CoreKey, find_core, push_logical}
use thunder_bolt_ht.Cpu.Topology.Totals.{over_cores}

-- The entries from index `n` on, with their cores: the entries are of different keys, and a core has
-- processors, all with the keys of its entry.
unfoldable pub IsIndexed : (ℕ → Option (ℕ × ℕ)) → ℕ → List CoreKey → List (List ℕ) → Type 0
IsIndexed keys n [] [] = Unit {0}
IsIndexed keys n [] (core ∷ cores) = ⊥
IsIndexed keys n (k ∷ ks) [] = ⊥
IsIndexed keys n (k ∷ ks) (core ∷ cores) =
    (k.index ≡ n)
    × (0 < length core)
    × ((a : ℕ) → 0 < count a core → keys a ≡ some (k.package_id, k.core_id))
    × (find_core k.package_id k.core_id ks ≡ none)
    × IsIndexed keys (suc n) ks cores

pub find_core_hit :
    (p c : ℕ) (k : CoreKey) (ks : List CoreKey)
    → (p == k.package_id && c == k.core_id) ≡ true
    → find_core p c (k ∷ ks) ≡ some k.index
unfolding find_core
find_core_hit p c k ks same = rw same refl

pub find_core_miss :
    (p c : ℕ) (k : CoreKey) (ks : List CoreKey)
    → (p == k.package_id && c == k.core_id) ≡ false
    → find_core p c (k ∷ ks) ≡ find_core p c ks
unfolding find_core
find_core_miss p c k ks other = rw other refl

find_core-append :
    (p c : ℕ) (ks : List CoreKey) (k : CoreKey)
    → find_core p c ks ≡ none
    → (p == k.package_id && c == k.core_id) ≡ false
    → find_core p c (ks ++ k ∷ []) ≡ none
unfolding find_core
find_core-append p c [] k none_yet other = rw other refl
find_core-append p c (j ∷ ks) k none_yet other =
    elim (Bool-cases (p == j.package_id && c == j.core_id)) [
      | inl same ↦ absurd (none-some (sym none_yet ∙ find_core_hit p c j ks same))
      | inr e ↦ rw e (find_core-append p c ks k (sym (find_core_miss p c j ks e) ∙ none_yet) other)
    ]

-- A new core behind the others.
pub append-IsIndexed :
    (keys : ℕ → Option (ℕ × ℕ)) (n : ℕ) (ks : List CoreKey) (cores : List (List ℕ)) (l p c i : ℕ)
    → keys l ≡ some (p, c)
    → find_core p c ks ≡ none
    → i ≡ n + length cores
    → IsIndexed keys n ks cores
    → IsIndexed keys n
        (ks ++ record { package_id = p; core_id = c; index = i } ∷ [])
        (cores ++ (l ∷ []) ∷ [])
unfolding IsIndexed find_core count
append-IsIndexed keys n [] [] l p c i e fresh last inv =
    (omega (arith, last), omega arith, λ a pos. ground (arith, pos, e), refl, tt)
append-IsIndexed keys n [] (core ∷ cores) l p c i e fresh last inv = elim inv [ ]
append-IsIndexed keys n (k ∷ ks) [] l p c i e fresh last inv = elim inv [ ]
append-IsIndexed keys n (k ∷ ks) (core ∷ cores) l p c i e fresh last inv =
    elim (Bool-cases (p == k.package_id && c == k.core_id)) [
      | inl same ↦ absurd (none-some (sym fresh ∙ find_core_hit p c k ks same))
      | inr other ↦ (
        inv.0,
        inv.1,
        inv.2,
        find_core-append k.package_id k.core_id ks _ inv.3 (ground (arith, other)),
        append-IsIndexed keys (suc n) ks cores l p c i e
            (sym (find_core_miss p c k ks other) ∙ fresh) (omega (arith, last)) inv.4,
      )
    ]

-- A processor more in the core of its keys.
pub push-IsIndexed :
    (keys : ℕ → Option (ℕ × ℕ)) (n : ℕ) (ks : List CoreKey) (cores : List (List ℕ)) (l p c i : ℕ)
    → keys l ≡ some (p, c)
    → find_core p c ks ≡ some i
    → IsIndexed keys n ks cores
    → (j : ℕ) × (i ≡ n + j)
      × IsIndexed keys n ks (push_logical cores j l)
      × ((f : List ℕ → ℕ)
          → (d : ℕ) → ((core : List ℕ) → f (core ++ l ∷ []) ≡ f core + d)
          → over_cores f (push_logical cores j l) ≡ over_cores f cores + d)
unfolding IsIndexed find_core push_logical over_cores
push-IsIndexed keys n [] cores l p c i e found inv = absurd (none-some found)
push-IsIndexed keys n (k ∷ ks) [] l p c i e found inv = elim inv [ ]
push-IsIndexed keys n (k ∷ ks) (core ∷ cores) l p c i e found inv =
    elim (Bool-cases (p == k.package_id && c == k.core_id)) [
      | inl same ↦
          let hit = find_core_hit p c k ks same in
          let here : i ≡ k.index = grind (arith, hit, found) in
          (
            0,
            omega (arith, here, inv.0),
            (
              inv.0,
              omega (arith, length-append core (l ∷ [])),
              λ a pos. ground (
                arith,
                same,
                e,
                inv.2 a,
                pos,
                count-append a core (l ∷ []),
                count-cons a l [],
                count-nil a,
              ),
              inv.3,
              inv.4,
            ),
            λ f d more. omega (arith, more core),
          )
      | inr other ↦
          let r =
            push-IsIndexed keys (suc n) ks cores l p c i e
              (sym (find_core_miss p c k ks other) ∙ found) inv.4 in
          (
            suc r.0,
            omega (arith, r.1),
            (inv.0, inv.1, inv.2, inv.3, r.2),
            λ f d more. omega (arith, r.3 f d more),
          )
    ]
