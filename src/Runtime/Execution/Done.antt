-- ===== src/Runtime/Execution/Done.antt =====
-- RuntimeBase.cpp: a task that was executed is complete, by its handle.
use thunder_bolt_ht.Base.{
  ℕ, ◌+◌, ◌-◌, ◌*◌, ◌^◌, ◌≡◌, ◌≢◌, refl, sym, ap, ◌∙◌, Bool, true, ◌||◌, not, ◌==◌, leb, List, [],
  ◌∷◌, none, some, arith, length, update_self, Bool-cases, Option-cases, inl, inr, none-some,
  ==_iff, ne→==,
}
use thunder_bolt_ht.Api.Types.{u32, TaskPriority, TaskState, TaskHandle, valid}
use thunder_bolt_ht.Core.Task.{Task, take_successors, reset_successors}
use thunder_bolt_ht.Core.Pool.{
  TaskPool, World, set_pool, flush, drain_cache, rebind_cache, bind_cache, bound, is_cached,
  spill_cache,
}
use thunder_bolt_ht.Core.Pool.Handles.{
  with_slot, release_slot, clear_slot, spilled, give_back, release, released_task, publish, get,
}
use thunder_bolt_ht.Runtime.Execution.{
  Tasks, RuntimeBase, find, write, make_ready, drop_one, release_dependent, release_each, finish,
  complete, guarded, execute, is_complete_internal,
}

module _ {F : Type 0} (id index g : ℕ) where
  -- The slot of the pool has this generation.
  abbrev HasGeneration : World F → Type 0
  HasGeneration w =
      (pool : TaskPool F) × (w.pools id ≡ some pool) × ((pool.slots index).generation ≡ g)

  set_pool-HasGeneration :
      (w : World F) (q : ℕ) (old new : TaskPool F)
      → w.pools q ≡ some old
      → (new.slots index).generation ≡ (old.slots index).generation
      → HasGeneration w
      → HasGeneration (set_pool w q new)
  set_pool-HasGeneration w q old new e same (pool, at, h) = elim (Bool-cases (q == id)) [
    | inl own ↦
        let here : w.pools id ≡ some old = ap w.pools (sym ((==_iff q id).0 own)) ∙ e in
        let as_old : some pool ≡ some old = sym at ∙ here in
        let is_old : pool ≡ old = cc in
        (
          new,
          rw own refl,
          same ∙ ap (λ (p : TaskPool F). (p.slots index).generation) (sym is_old) ∙ h,
        )
    | inr other ↦ (pool, rw other at, h)
  ]

  flush-HasGeneration :
      (w : World F) (thread q : ℕ) (cached : List ℕ)
      → HasGeneration w
      → HasGeneration (flush w thread q cached (w.pools q))
  unfolding flush
  flush-HasGeneration w thread q [] h = h
  flush-HasGeneration w thread q (x ∷ cached) h = elim (Option-cases (w.pools q)) [
    | inl e ↦ rw (e, flush) h
    | inr (pool, e) ↦ rw (e, flush) (set_pool-HasGeneration w q pool _ e refl h)
  ]

  bound-HasGeneration :
      (w : World F) (thread : ℕ) → HasGeneration w → HasGeneration (bound w id thread)
  unfolding bound bind_cache rebind_cache drain_cache
  bound-HasGeneration w thread h = elim (Bool-cases (is_cached (w.pools id))) [
    | inr off ↦ rw off h
    | inl on ↦ elim (Bool-cases ((w.caches thread).id == id)) [
      | inl e ↦ rw (on, e) h
      | inr e ↦
          rw (on, e) (flush-HasGeneration w thread (w.caches thread).id (w.caches thread).slots h)
    ]
  ]

  give_back-HasGeneration :
      (w : World F) (thread i : ℕ)
      → HasGeneration w
      → HasGeneration (give_back w id thread i (w.pools id))
  unfolding give_back spilled spill_cache
  give_back-HasGeneration w thread i (pool, e, h) = elim (Bool-cases (pool.cache_batch == 0)) [
    | inl off ↦ rw (e, give_back, off) (set_pool-HasGeneration w id pool _ e refl (pool, e, h))
    | inr on ↦ elim (Bool-cases (length (w.caches thread).slots == 2 * pool.cache_batch)) [
      | inl full ↦
          rw (e, give_back, on, full) (set_pool-HasGeneration w id pool _ e refl (pool, e, h))
      | inr room ↦
          rw (e, give_back, on, room) (set_pool-HasGeneration w id pool _ e refl (pool, e, h))
    ]
  ]

  write-HasGeneration :
      {Q : Type 0} (s : Tasks F Q) (i : ℕ) (change : Task F → Task F)
      → ((t : Task F) → (change t).generation ≡ t.generation)
      → HasGeneration s.world
      → HasGeneration (write id s i change).world
  unfolding write
  write-HasGeneration s i change keeps (pool, e, h) =
      let new : TaskPool F = with_slot pool i (change (pool.slots i)) in
      let same : (new.slots index).generation ≡ (pool.slots index).generation =
        elim (Bool-cases (i == index)) [
          | inl own ↦
              rw own (
                keeps (pool.slots i) ∙ ap (λ j. (pool.slots j).generation) ((==_iff i index).0 own))
          | inr other ↦ rw other refl
        ] in
      rw (e, write) (set_pool-HasGeneration s.world id pool new e same (pool, e, h))

  module _ {Q : Type 0} (thread : ℕ) (enqueue_ready : Q → TaskHandle → TaskPriority → Q) where
    release_dependent-HasGeneration :
        (s : Tasks F Q) (h : TaskHandle)
        → HasGeneration s.world
        → HasGeneration (release_dependent id thread enqueue_ready s h).world
    unfolding release_dependent drop_one make_ready publish
    release_dependent-HasGeneration s h has = elim (Option-cases (find id s h)) [
      | inl e ↦ rw (e, release_dependent) has
      | inr (t, e) ↦
          let counted =
            write-HasGeneration s h.index
              (λ u. record u { pending_dependencies = u32 (u.pending_dependencies + 2 ^ 32 - 1) })
              (λ u. refl) has in
          elim (Bool-cases (t.pending_dependencies == 1)) [
            | inl last ↦
                rw (e, release_dependent, last)
                  (write-HasGeneration _ h.index (λ u. publish u TaskState.queued) (λ u. refl)
                    counted)
            | inr more ↦ rw (e, release_dependent, more) counted
          ]
    ]

    release_each-HasGeneration :
        (s : Tasks F Q) (hs : List TaskHandle)
        → HasGeneration s.world
        → HasGeneration (release_each id thread enqueue_ready s hs).world
    unfolding release_each
    release_each-HasGeneration s [] has = has
    release_each-HasGeneration s (h ∷ hs) has =
        release_each-HasGeneration (release_dependent id thread enqueue_ready s h) hs
          (release_dependent-HasGeneration s h has)

module _ {F : Type 0} (id : ℕ) where
  release-HasGeneration :
      (w : World F) (thread g : ℕ) (handle : TaskHandle)
      → HasGeneration id handle.index g w
      → HasGeneration id handle.index (u32 (g + 1)) (release w id thread handle)
  unfolding release released_task reset_successors
  release-HasGeneration w thread g handle (pool, e, h) =
      let cleared : HasGeneration id handle.index (u32 (g + 1)) (clear_slot w id handle.index) =
        rw (e, clear_slot)
          (
            release_slot pool handle.index,
            update_self w.pools id (some (release_slot pool handle.index)),
            ap (λ (t : Task F). t.generation)
                  (update_self pool.slots handle.index (released_task (pool.slots handle.index)))
                ∙ ap (λ n. u32 (n + 1)) h,
          ) in
      give_back-HasGeneration id handle.index (u32 (g + 1)) _ thread handle.index
        (bound-HasGeneration id handle.index (u32 (g + 1)) _ thread cleared)

  get_stale :
      (pool : TaskPool F) (handle : TaskHandle)
      → (pool.slots handle.index).generation ≢ handle.generation
      → get pool handle ≡ none
  unfolding get
  get_stale pool handle ne =
      elim (Bool-cases (not (valid handle) || leb pool.capacity handle.index)) [
        | inl outside ↦ rw outside refl
        | inr inside ↦ rw (inside, ne→== _ _ ne) refl
      ]

  -- A slot whose generation is another one leaves the handle stale.
  stale_complete :
      {Q : Type 0} (b : RuntimeBase F Q) (handle : TaskHandle) (g : ℕ)
      → g ≢ handle.generation
      → HasGeneration id handle.index g b.tasks.world
      → is_complete_internal id b handle ≡ true
  unfolding is_complete_internal find
  stale_complete b handle g ne (pool, e, h) = elim (Bool-cases (valid handle)) [
    | inr invalid ↦ rw invalid refl
    | inl handed_out ↦ rw (handed_out, e, get_stale pool handle (λ same. ne (sym h ∙ same))) refl
  ]

  found-HasGeneration :
      {Q : Type 0} (s : Tasks F Q) (handle : TaskHandle) (u : Task F)
      → find id s handle ≡ some u
      → HasGeneration id handle.index handle.generation s.world
  unfolding find get
  found-HasGeneration s handle u found = elim (Option-cases (s.world.pools id)) [
    | inl e ↦ absurd (none-some (rw (e, find) at found))
    | inr (pool, e) ↦
        let at_pool : get pool handle ≡ some u = rw (e, find) at found in
        elim (Bool-cases (not (valid handle) || leb pool.capacity handle.index)) [
          | inl outside ↦ absurd (none-some (rw outside at at_pool))
          | inr inside ↦
              elim (Bool-cases ((pool.slots handle.index).generation == handle.generation)) [
                | inl same ↦ (pool, e, (==_iff _ _).0 same)
                | inr other ↦ absurd (none-some (rw (inside, other) at at_pool))
              ]
        ]
  ]

  module _ {Q : Type 0} (thread : ℕ) (enqueue_ready : Q → TaskHandle → TaskPriority → Q) where
    complete-is_complete_internal :
        (b : RuntimeBase F Q) (handle : TaskHandle) (u : Task F)
        → find id b.tasks handle ≡ some u
        → is_complete_internal id (complete id thread enqueue_ready b handle) handle ≡ true
    unfolding complete finish take_successors publish
    complete-is_complete_internal b handle u found =
        let i : ℕ = handle.index in
        let g : ℕ = handle.generation in
        let closed =
          write-HasGeneration id i g b.tasks i
            (λ t. publish (take_successors t).0 TaskState.completed) (λ t. refl)
            (found-HasGeneration b.tasks handle u found) in
        let released = release-HasGeneration _ thread g handle closed in
        let told =
          release_each-HasGeneration id i (u32 (g + 1)) thread enqueue_ready _ (take_successors u).1
            released in
        rw (found, complete) (stale_complete _ handle (u32 (g + 1)) (omega arith) told)

    guarded-is_complete_internal :
        (run : F → RuntimeBase F Q → RuntimeBase F Q × Bool) (b : RuntimeBase F Q)
        (handle : TaskHandle) (f : F) (u : Task F)
        → find id (run f b).0.tasks handle ≡ some u
        → is_complete_internal id
            (complete id thread enqueue_ready
              (guarded id thread enqueue_ready run b (some f))
              handle)
            handle
          ≡ true
    unfolding guarded
    guarded-is_complete_internal run b handle f u found = elim (Bool-cases (run f b).1) [
      | inl threw ↦ rw threw (complete-is_complete_internal _ handle u found)
      | inr returned ↦ rw returned (complete-is_complete_internal (run f b).0 handle u found)
    ]

    -- A worker executes a task whose handle resolves and whose body leaves its own slot alone:
    -- whether the body returns or throws, the handle is complete afterwards, also when tasks that
    -- wait for it were enqueued in between.
    pub execute-is_complete_internal :
        (run : F → RuntimeBase F Q → RuntimeBase F Q × Bool) (b : RuntimeBase F Q)
        (handle : TaskHandle) (t u : Task F) (f : F)
        → find id b.tasks handle ≡ some t
        → t.function ≡ some f
        → find id
            (run f (record b {
              tasks = write id b.tasks handle.index (λ v. publish v TaskState.executing);
            })).0.tasks
            handle
          ≡ some u
        → is_complete_internal id (execute id thread enqueue_ready run b handle) handle ≡ true
    unfolding execute
    execute-is_complete_internal run b handle t u f found body still =
        rw (found, execute, body)
          (guarded-is_complete_internal run
            (record b {
              tasks = write id b.tasks handle.index (λ v. publish v TaskState.executing);
            })
            handle f u still)
