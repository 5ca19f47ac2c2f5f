-- ===== src/Api/ParallelFor.antt =====
-- ITaskRuntime::parallel_for (thunderbolt/api/ITaskRuntime.hpp): the tasks claim chunks of the range from a shared cursor.
-- A schedule lists which task makes its next claim; a claim is one atomic `fetch_add` of a size_t.
pub mod Coverage
pub mod Progress
use thunder_bolt_ht.Base.{
  ℕ, zero, suc, ◌+◌, ◌-◌, ◌*◌, ◌/◌, ◌%◌, ◌^◌, Bool, true, false, ◌&&◌, ◌||◌, not, ltb, leb, ◌==◌,
  if◌then◌else◌, List, [], ◌∷◌, ◌++◌, update,
}

-- `if (grain == 0) grain = 1;`
unfoldable pub effective_grain : ℕ → ℕ
effective_grain grain = if grain == 0 then 1 else grain

unfoldable pub batch_count : ℕ → ℕ → ℕ
batch_count count grain = (count + grain - 1) / grain

-- The number of tasks that are submitted.
unfoldable pub task_count : ℕ → ℕ → ℕ
task_count batches configured_workers =
    let worker_cap = if configured_workers == 0 then 1 else configured_workers in
    if ltb batches worker_cap then batches else worker_cap

-- The cursor, the calls `body(lo, hi)` so far in the order of their claims, and which tasks have
-- left their loop.
pub record Claims : Type 0 where
  pub cursor : ℕ
  pub chunks : List (ℕ × ℕ)
  pub finished : ℕ → Bool

-- `(lo + grain < end) ? (lo + grain) : end`
abbrev pub chunk_end : ℕ → ℕ → ℕ → ℕ
chunk_end stop grain lo = if ltb ((lo + grain) % 2 ^ 64) stop then (lo + grain) % 2 ^ 64 else stop

-- One round of the loop of `task`, of `tasks` in all.
unfoldable pub claim : ℕ → ℕ → ℕ → Claims → ℕ → Claims
claim stop grain tasks s task =
    if leb tasks task || s.finished task
    then s
    else (if leb stop s.cursor
        then record s {
          cursor = (s.cursor + grain) % 2 ^ 64;
          finished = update s.finished task true;
        }
        else record s {
          cursor = (s.cursor + grain) % 2 ^ 64;
          chunks = s.chunks ++ (s.cursor, chunk_end stop grain s.cursor) ∷ [];
        })

unfoldable pub run : ℕ → ℕ → ℕ → Claims → List ℕ → Claims
run stop grain tasks s [] = s
run stop grain tasks s (task ∷ schedule) =
    run stop grain tasks (claim stop grain tasks s task) schedule

-- The state when the tasks are submitted.
abbrev pub initial_claims : ℕ → Claims
initial_claims begin = record { cursor = begin; chunks = []; finished = λ _. false }

-- `parallel_for` over a schedule: nothing for an empty range.
unfoldable pub parallel_for : ℕ → ℕ → ℕ → ℕ → List ℕ → Claims
parallel_for begin stop grain workers schedule =
    let g = effective_grain grain in
    let tasks = task_count (batch_count (stop - begin) g) workers in
    if leb stop begin
    then initial_claims begin
    else run stop g tasks (initial_claims begin) schedule
