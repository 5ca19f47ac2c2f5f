-- ===== src/Api/ParallelFor/Coverage.antt =====
-- Which chunks the tasks get, whatever the schedule.
use thunder_bolt_ht.Base.{
  if◌then◌else◌, ℕ, ◌+◌, ◌-◌, ◌*◌, ◌%◌, ◌^◌, ◌≤◌, ◌<◌, ◌≡◌, refl, sym, ap, min, Bool, true, false,
  ◌||◌, leb, List, [], ◌∷◌, ◌++◌, update, update_self, update_ne, arith, sum_over, sum_over-change,
  sum_over-le, Bool-cases, inl, inr,
}
use thunder_bolt_ht.Api.ParallelFor.{
  effective_grain, batch_count, task_count, Claims, chunk_end, claim, run, initial_claims,
  parallel_for,
}

-- The chunks cut the range from `lo` to `hi` into pieces, one after the other, none of them empty
-- and none longer than the grain.
abbrev pub Tiles : ℕ → ℕ → ℕ → List (ℕ × ℕ) → Type 0
Tiles grain lo hi [] = lo ≡ hi
Tiles grain lo hi ((a, b) ∷ chunks) = (a ≡ lo) × (a < b) × (b ≤ a + grain) × Tiles grain b hi chunks

Tiles-snoc :
    (grain lo mid hi : ℕ) (chunks : List (ℕ × ℕ))
    → Tiles grain lo mid chunks
    → mid < hi
    → hi ≤ mid + grain
    → Tiles grain lo hi (chunks ++ (mid, hi) ∷ [])
Tiles-snoc grain lo mid hi [] t lt le = (sym t, lt, le, refl)
Tiles-snoc grain lo mid hi ((a, b) ∷ chunks) t lt le =
    (t.0, t.1, t.2, Tiles-snoc grain b mid hi chunks t.3 lt le)

abbrev one_if : Bool → ℕ
one_if true = 1
one_if false = 0

pub finished_total : ℕ → (ℕ → Bool) → ℕ
finished_total tasks finished = sum_over tasks (λ t. one_if (finished t))

finished_total-finish :
    (tasks : ℕ) (finished : ℕ → Bool) (task : ℕ)
    → task < tasks
    → finished task ≡ false
    → finished_total tasks (update finished task true) ≡ finished_total tasks finished + 1
unfolding finished_total
finished_total-finish tasks finished task lt e = ground (
  arith,
  sum_over-change tasks (λ t. one_if (update finished task true t)) (λ t. one_if (finished t)) task
      lt (λ j ne. ap one_if (update_ne finished task j true (λ h. ne (sym h)))),
  update_self finished task true,
)

module _ (begin stop grain tasks : ℕ) (pos : 0 < grain)
    (fits : stop + grain * (tasks + 1) < 2 ^ 64) where
  pub record Inv (s : Claims) : Type 0 where
    pub started : begin ≤ s.cursor
    pub bounded : s.cursor ≤ stop + grain * (1 + finished_total tasks s.finished)
    pub tiled : Tiles grain begin (min s.cursor stop) s.chunks
    pub ended : (t : ℕ) → s.finished t ≡ true → stop ≤ s.cursor

  finished_le : (f : ℕ → Bool) → finished_total tasks f ≤ tasks
  unfolding finished_total
  finished_le f = sum_over-le tasks (λ t. one_if (f t)) (λ t. ground arith)

  no_wrap : (k : ℕ) → k ≤ tasks → stop + grain * (1 + k) < 2 ^ 64
  no_wrap k le = grind arith

  task_left :
      (s : Claims) (task : ℕ)
      → (leb tasks task || s.finished task) ≡ false
      → (task < tasks) × (s.finished task ≡ false)
  task_left s task h = ground arith

  finish-Inv :
      (s : Claims) (task : ℕ)
      → Inv s
      → task < tasks
      → s.finished task ≡ false
      → stop ≤ s.cursor
      → Inv (record s {
        cursor = (s.cursor + grain) % 2 ^ 64;
        finished = update s.finished task true;
      })
  finish-Inv s task v lt working out =
      let k : ℕ = finished_total tasks s.finished in
      let more : finished_total tasks (update s.finished task true) ≡ k + 1 =
        finished_total-finish tasks s.finished task lt working in
      let fit : s.cursor + grain < 2 ^ 64 = omega (
        arith,
        no_wrap (k + 1) (omega (arith, more, finished_le (update s.finished task true))),
        v.bounded,
      ) in
      let kept : (s.cursor + grain) % 2 ^ 64 ≡ s.cursor + grain = omega arith in
      let top : min s.cursor stop ≡ min (s.cursor + grain) stop = omega arith in
      record {
        started = omega (arith, v.started);
        bounded = rw (more, kept) (omega (arith, v.bounded));
        tiled = rw (kept, ← top) v.tiled;
        ended = λ t h. omega (arith, kept);
      }

  take-Inv :
      (s : Claims)
      → Inv s
      → s.cursor < stop
      → Inv (record s {
        cursor = (s.cursor + grain) % 2 ^ 64;
        chunks = s.chunks ++ (s.cursor, chunk_end stop grain s.cursor) ∷ [];
      })
  take-Inv s v more =
      let k : ℕ = finished_total tasks s.finished in
      let fit : s.cursor + grain < 2 ^ 64 = omega (arith, no_wrap 0 (omega arith)) in
      let kept : (s.cursor + grain) % 2 ^ 64 ≡ s.cursor + grain = omega arith in
      let here : min s.cursor stop ≡ s.cursor = omega arith in
      let there : chunk_end stop grain s.cursor ≡ min (s.cursor + grain) stop = ground arith in
      record {
        started = omega (arith, v.started, kept);
        bounded = omega (arith, kept);
        tiled =
            rw (there, kept)
              (Tiles-snoc grain begin s.cursor (min (s.cursor + grain) stop) s.chunks
                (rw here at v.tiled) (omega (arith, pos)) (omega arith));
        ended = λ t h. absurd (omega (arith, v.ended t h));
      }

  -- The cursor of an unfinished task does not wrap.
  no_wrap-claim :
      (s : Claims) (task : ℕ)
      → Inv s
      → task < tasks
      → s.finished task ≡ false
      → s.cursor + grain < 2 ^ 64
  no_wrap-claim s task v lt working = omega (
    arith,
    no_wrap (finished_total tasks s.finished + 1) (
        omega (
          arith,
          finished_total-finish tasks s.finished task lt working,
          finished_le (update s.finished task true),
        )),
    v.bounded,
  )

  pub claim-cursor :
      (s : Claims) (task : ℕ)
      → Inv s
      → (claim stop grain tasks s task).cursor
        ≡ (if leb tasks task || s.finished task then s.cursor else s.cursor + grain)
  unfolding claim
  claim-cursor s task v = elim (Bool-cases (leb tasks task || s.finished task)) [
    | inl over ↦ rw over refl
    | inr working ↦
        let left = task_left s task working in
        let fit = no_wrap-claim s task v left.0 left.1 in rw working (ground arith)
  ]

  pub claim-Inv : (s : Claims) (task : ℕ) → Inv s → Inv (claim stop grain tasks s task)
  unfolding claim
  claim-Inv s task v = elim (Bool-cases (leb tasks task || s.finished task)) [
    | inl over ↦ rw over v
    | inr working ↦ elim (Bool-cases (leb stop s.cursor)) [
      | inl out ↦
          rw (working, out)
            (finish-Inv s task v (task_left s task working).0 (task_left s task working).1
              (ground arith))
      | inr more ↦ rw (working, more) (take-Inv s v (ground arith))
    ]
  ]

  run-Inv : (s : Claims) (schedule : List ℕ) → Inv s → Inv (run stop grain tasks s schedule)
  unfolding run
  run-Inv s [] v = v
  run-Inv s (task ∷ schedule) v =
      run-Inv (claim stop grain tasks s task) schedule (claim-Inv s task v)

  pub initial-Inv : begin ≤ stop → Inv (initial_claims begin)
  initial-Inv le =
      let start : begin ≡ min begin stop = omega arith in
      record { started = omega arith; bounded = omega arith; tiled = start; ended = λ t h. cc }

pub effective_grain_pos : (grain : ℕ) → 0 < effective_grain grain
unfolding effective_grain
effective_grain_pos grain = ground arith

-- As soon as one task has left its loop, and so when the call returns, the chunks that were handed
-- to the body cut the whole range, each index in one chunk, if the cursor cannot wrap. (The tasks
-- are at most the workers, and each adds the grain once more after the range is exhausted.)
pub parallel_for-Tiles :
    (begin stop grain workers : ℕ) (schedule : List ℕ) (task : ℕ)
    → begin < stop
    → stop
        + effective_grain grain
          * (task_count (batch_count (stop - begin) (effective_grain grain)) workers + 1)
      < 2 ^ 64
    → (parallel_for begin stop grain workers schedule).finished task ≡ true
    → Tiles
        (effective_grain grain)
        begin
        stop
        (parallel_for begin stop grain workers schedule).chunks
unfolding parallel_for
parallel_for-Tiles begin stop grain workers schedule task lt fits done =
    let g : ℕ = effective_grain grain in
    let tasks : ℕ = task_count (batch_count (stop - begin) g) workers in
    let some_range : leb stop begin ≡ false = ground arith in
    let last : Claims = run stop g tasks (initial_claims begin) schedule in
    let v =
      run-Inv begin stop g tasks (effective_grain_pos grain) fits (initial_claims begin) schedule
        (initial-Inv begin stop g tasks (effective_grain_pos grain) fits (omega arith)) in
    let all : min last.cursor stop ≡ stop = omega (arith, v.ended task (rw some_range at done)) in
    rw some_range (rw all at v.tiled)
