-- ===== src/Engine/Simulation/Stages.antt =====
-- What a stage leaves at each entity, whichever order its batches come in.
use thunder_bolt_ht.Base.{
  true, false, ℕ, zero, suc, ◌+◌, ◌-◌, ◌*◌, ◌≤◌, ◌<◌, ◌≡◌, refl, ◌∙◌, Bool, ◌&&◌, leb, ltb,
  if◌then◌else◌, update, arith, Bool-cases, inl, inr, ℕ_discrete,
}
use thunder_bolt_ht.Engine.Systems.{batch_size, batch_count_for, for_each, stage}
use thunder_bolt_ht.Engine.Simulation.{claim_batch, batch_end, run_batched, serial}

abbrev pub in_range : ℕ → ℕ → ℕ → Bool
in_range begin stop j = leb begin j && ltb j stop

for_each-at :
    {V : Type 0} (body : ℕ → V → V) (rounds i : ℕ) (out : ℕ → V) (j : ℕ)
    → for_each body rounds i out j ≡ (if in_range i (i + rounds) j then body j (out j) else out j)
unfolding for_each
for_each-at body zero i out j = ground arith
for_each-at body (suc rounds) i out j =
    for_each-at body rounds (i + 1) (update out i (body i (out i))) j
    ∙ (elim (ℕ_discrete i j) [ yes same ↦ rw same (ground arith) | no other ↦ ground arith ])

pub stage-at :
    {V : Type 0} (body : ℕ → V → V) (begin stop : ℕ) (out : ℕ → V) (j : ℕ)
    → stage body begin stop out j ≡ (if in_range begin stop j then body j (out j) else out j)
unfolding stage
stage-at body begin stop out j = for_each-at body (stop - begin) begin out j ∙ ground arith

pub stage_in :
    {V : Type 0} (body : ℕ → V → V) (begin stop : ℕ) (out : ℕ → V) (j : ℕ)
    → in_range begin stop j ≡ true
    → stage body begin stop out j ≡ body j (out j)
stage_in body begin stop out j h = stage-at body begin stop out j ∙ rw h refl

pub stage_out :
    {V : Type 0} (body : ℕ → V → V) (begin stop : ℕ) (out : ℕ → V) (j : ℕ)
    → in_range begin stop j ≡ false
    → stage body begin stop out j ≡ out j
stage_out body begin stop out j h = stage-at body begin stop out j ∙ rw h refl

pub claim_batch-cursor :
    {V : Type 0} (body : ℕ → ℕ → (ℕ → V) → ℕ → V) (count : ℕ) (s : ℕ × (ℕ → V))
    → (claim_batch body count s).0 ≡ s.0 + 1
unfolding claim_batch
claim_batch-cursor body count (b, out) = elim (Bool-cases (leb (batch_count_for count) b)) [
  | inl over ↦ rw over refl
  | inr left ↦ rw left refl
]

-- One stage chain over batches: it leaves `full j` of each entity of its range, whatever stood there.
pub record Settles {V : Type 0} (body : ℕ → ℕ → (ℕ → V) → ℕ → V) (full : ℕ → V) (count : ℕ)
    : Type 0 where
  pub inside :
      (begin stop : ℕ) (out : ℕ → V) (j : ℕ)
      → j < count
      → in_range begin stop j ≡ true
      → body begin stop out j ≡ full j
  pub outside :
      (begin stop : ℕ) (out : ℕ → V) (j : ℕ)
      → in_range begin stop j ≡ false
      → body begin stop out j ≡ out j

batch_count-covers : (count : ℕ) → count ≤ batch_count_for count * batch_size
batch_count-covers count = omega arith

module _ {V : Type 0} (body : ℕ → ℕ → (ℕ → V) → ℕ → V) (full : ℕ → V) (count : ℕ)
    (settles : Settles body full count) where
  -- The entities of the first `b` batches are settled.
  abbrev pub Settled : ℕ → (ℕ → V) → Type 0
  Settled b out = (j : ℕ) → j < count → j < b * batch_size → out j ≡ full j

  body-Settled :
      (b : ℕ) (out : ℕ → V)
      → Settled b out
      → Settled (b + 1) (body (b * batch_size) (batch_end count b) out)
  body-Settled b out done j lt below =
      elim (Bool-cases (in_range (b * batch_size) (batch_end count b) j)) [
        | inl here ↦ settles.inside (b * batch_size) (batch_end count b) out j lt here
        | inr elsewhere ↦
            settles.outside (b * batch_size) (batch_end count b) out j elsewhere
            ∙ done j lt (ground arith)
      ]

  pub claim_batch-Settled :
      (s : ℕ × (ℕ → V))
      → Settled s.0 s.1
      → let r = claim_batch body count s in (r.0 ≡ s.0 + 1) × Settled r.0 r.1
  unfolding claim_batch
  claim_batch-Settled (b, out) done = elim (Bool-cases (leb (batch_count_for count) b)) [
    | inl over ↦ rw over (refl, λ j lt below. done j lt (ground (arith, batch_count-covers count)))
    | inr left ↦ rw left (refl, body-Settled b out done)
  ]

  pub run_batched-Settled :
      (rounds b : ℕ) (out : ℕ → V)
      → Settled b out
      → Settled (b + rounds) (run_batched body count rounds b out)
  unfolding run_batched
  run_batched-Settled zero b out done = λ j lt below. done j lt (omega arith)
  run_batched-Settled (suc rounds) b out done = λ j lt below.
      run_batched-Settled rounds (b + 1) (body (b * batch_size) (batch_end count b) out)
        (body-Settled b out done) j lt (omega arith)

  -- A cursor past the last batch: every entity is settled.
  pub Settled-all :
      (b : ℕ) (out : ℕ → V)
      → batch_count_for count ≤ b
      → Settled b out
      → (j : ℕ) → j < count
      → out j ≡ full j
  Settled-all b out past done j lt = done j lt (omega (arith, batch_count-covers count))

  -- The frame without the runtime goes through all the batches.
  pub serial_done : (out : ℕ → V) (j : ℕ) → j < count → serial body count out j ≡ full j
  serial_done out j lt =
      Settled-all (0 + batch_count_for count) (run_batched body count (batch_count_for count) 0 out)
        (omega arith)
        (run_batched-Settled (batch_count_for count) 0 out
          (λ k below none_yet. absurd (omega arith)))
        j lt
