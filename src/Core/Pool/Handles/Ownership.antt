-- ===== src/Core/Pool/Handles/Ownership.antt =====
-- Who holds which slot: each index below the capacity is in one free list, or handed out, once.
use thunder_bolt_ht.Base.{
  ℕ, ◌+◌, ◌<◌, ◌≡◌, ◌⊎◌, ◌*◌, refl, true, ◌==◌, ltb, if◌then◌else◌, List, ◌∷◌, Option, none, some,
  arith, count, count-cons, Bool-cases, Option-cases, inl, inr, ==_self, length,
}
use thunder_bolt_ht.Api.Types.{TaskDesc, TaskHandle, TaskPriority, invalid_handle}
use thunder_bolt_ht.Core.Task.{Task}
use thunder_bolt_ht.Core.Pool.{
  TaskPool, World, shard_count, preferred_shard, with_shard, set_pool, is_cached, bound,
  take_free_slot,
}
use thunder_bolt_ht.Core.Pool.Handles.{
  with_slot, count_acquire, acquired_task, reserved_task, issue, acquire, reserve, release_slot,
  spilled, give_back, clear_slot, release,
}
use thunder_bolt_ht.Core.Pool.Free.{in_shards, free_count, in_shards-with_shard, IsLive}
use thunder_bolt_ht.Core.Pool.Cache.{preferred_shard_lt, in_shards-spill_cache, set_pool-IsLive}
use thunder_bolt_ht.Core.Pool.Take.{
  taken, free_count-take_free_slot, take_free_slot-IsLive, free_count-set_pool, free_count-set,
  bound-IsLive, free_count-bound, bound-id,
}

module _ {ℓ} {F : Type ℓ} where
  -- `out` holds the indices that callers have.
  pub record Owned (n : ℕ) (w : World F) (id capacity : ℕ) (out : List ℕ) : Type ℓ where
    pub live : IsLive w id
    pub once : (i : ℕ) → free_count n w id i + count i out ≡ (if ltb i capacity then 1 else 0)

  free_count-same :
      (n : ℕ) (w : World F) (id : ℕ) (pool pool' : TaskPool F) (q i : ℕ)
      → w.pools id ≡ some pool
      → in_shards pool' i ≡ in_shards pool i
      → free_count n (set_pool w id pool') q i ≡ free_count n w q i
  free_count-same n w id pool pool' q i e h =
      ground (arith, free_count-set_pool n w id pool pool' q i 0 0)

  free_count-count_acquire :
      (n : ℕ) (w : World F) (id q i : ℕ)
      → free_count n (count_acquire w id) q i ≡ free_count n w q i
  unfolding in_shards
  free_count-count_acquire n w id q i = elim (Option-cases (w.pools id)) [
    | inl e ↦ rw (e, count_acquire) refl
    | inr (pool, e) ↦
        rw (e, count_acquire)
          (free_count-same n w id pool (record pool { acquires = pool.acquires + 1 }) q i e refl)
  ]

  free_count-clear_slot :
      (n : ℕ) (w : World F) (id index q i : ℕ)
      → free_count n (clear_slot w id index) q i ≡ free_count n w q i
  unfolding in_shards
  free_count-clear_slot n w id index q i = elim (Option-cases (w.pools id)) [
    | inl e ↦ rw (e, clear_slot) refl
    | inr (pool, e) ↦
        rw (e, clear_slot) (free_count-same n w id pool (release_slot pool index) q i e refl)
  ]

  free_count-issue :
      (n : ℕ) (w : World F) (id q i : ℕ) (write : Task F → Task F) (r : Option ℕ)
      → free_count n (issue w id write r).0 q i ≡ free_count n w q i
  unfolding issue in_shards
  free_count-issue n w id q i write none = refl
  free_count-issue n w id q i write (some index) = elim (Option-cases (w.pools id)) [
    | inl e ↦ rw (e, issue) refl
    | inr (pool, e) ↦
        rw (e, issue)
          (free_count-same n w id pool (with_slot pool index (write (pool.slots index))) q i e refl)
  ]

  count_acquire-IsLive : (w : World F) (id q : ℕ) → IsLive w q → IsLive (count_acquire w id) q
  count_acquire-IsLive w id q live = elim (Option-cases (w.pools id)) [
    | inl e ↦ rw (e, count_acquire) live
    | inr (pool, e) ↦ rw (e, count_acquire) (set_pool-IsLive w id q _ live)
  ]

  clear_slot-IsLive : (w : World F) (id index q : ℕ) → IsLive w q → IsLive (clear_slot w id index) q
  clear_slot-IsLive w id index q live = elim (Option-cases (w.pools id)) [
    | inl e ↦ rw (e, clear_slot) live
    | inr (pool, e) ↦ rw (e, clear_slot) (set_pool-IsLive w id q _ live)
  ]

  -- Nothing was free, and the handle is invalid; or it names a slot of the pool that nobody had.
  abbrev pub Issued : ℕ → ℕ → ℕ → List ℕ → World F × TaskHandle → Type ℓ
  Issued n id capacity out r =
      ((r.1 ≡ invalid_handle) × Owned n r.0 id capacity out)
      ⊎ ((r.1.index < capacity)
          × (count r.1.index out ≡ 0)
          × Owned n r.0 id capacity (r.1.index ∷ out))

  issue-Issued :
      (n : ℕ) (w : World F) (id capacity : ℕ) (out : List ℕ) (write : Task F → Task F)
      (r : Option ℕ)
      → IsLive w id
      → ((i : ℕ)
          → free_count n w id i + taken r i + count i out ≡ (if ltb i capacity then 1 else 0))
      → Issued n id capacity out (issue w id write r)
  unfolding issue in_shards
  issue-Issued n w id capacity out write none live h =
      inl (refl, record { live = live; once = λ i. omega (arith, h i) })
  issue-Issued n w id capacity out write (some index) (pool, e) h =
      rw (e, issue)
        (inr (
          ground (arith, h index),
          ground (arith, h index),
          record {
            live = set_pool-IsLive w id id _ (pool, e);
            once = λ i. omega (
              arith,
              free_count-same n w id pool (with_slot pool index (write (pool.slots index))) id i e
                  refl,
              count-cons i index out,
              h i,
            );
          },
        ))

  take-Issued :
      (n : ℕ) (w : World F) (id thread capacity : ℕ) (out : List ℕ) (write : Task F → Task F)
      → thread < n
      → Owned n w id capacity out
      → let r = take_free_slot (count_acquire w id) id thread in
        Issued n id capacity out (issue r.0 id write r.1)
  take-Issued n w id thread capacity out write lt o =
      let c : World F = count_acquire w id in
      let r : World F × Option ℕ = take_free_slot c id thread in
      issue-Issued n r.0 id capacity out write r.1
        (take_free_slot-IsLive c id thread id (count_acquire-IsLive w id id o.live))
        (λ i. ground (
          arith,
          free_count-take_free_slot n c id thread id i lt (count_acquire-IsLive w id id o.live),
          free_count-count_acquire n w id id i,
          o.once i,
          ==_self id,
        ))

  -- `acquire` by any thread hands out a slot of the pool that nobody holds, or none. What callers
  -- hold and what is free make up the slots of the pool before and after, each once.
  pub acquire-Issued :
      (n : ℕ) (w : World F) (id thread capacity : ℕ) (out : List ℕ) (desc : TaskDesc F)
      → thread < n
      → Owned n w id capacity out
      → Issued n id capacity out (acquire w id thread desc)
  unfolding acquire
  acquire-Issued n w id thread capacity out desc =
      take-Issued n w id thread capacity out (λ t. acquired_task t desc)

  -- The same of `reserve`.
  pub reserve-Issued :
      (n : ℕ) (w : World F) (id thread capacity : ℕ) (out : List ℕ) (priority : TaskPriority)
      → thread < n
      → Owned n w id capacity out
      → Issued n id capacity out (reserve w id thread priority)
  unfolding reserve
  reserve-Issued n w id thread capacity out priority =
      take-Issued n w id thread capacity out (λ t. reserved_task t priority)

  in_shards-spilled :
      (pool : TaskPool F) (home : ℕ) (cached : List ℕ) (i : ℕ)
      → home < shard_count
      → let r = spilled pool home cached in
        in_shards r.0 i + count i r.1 ≡ in_shards pool i + count i cached
  unfolding spilled
  in_shards-spilled pool home cached i lt =
      elim (Bool-cases (length cached == 2 * pool.cache_batch)) [
        | inl e ↦ rw e (in_shards-spill_cache pool home cached i lt)
        | inr e ↦ rw e refl
      ]

  free_count-give_back :
      (n : ℕ) (w : World F) (id thread index i : ℕ)
      → thread < n
      → IsLive w id
      → (is_cached (w.pools id) ≡ true → (w.caches thread).id ≡ id)
      → free_count n (give_back w id thread index (w.pools id)) id i
        ≡ free_count n w id i + (if index == i then 1 else 0)
  unfolding give_back
  free_count-give_back n w id thread index i lt (pool, e) b =
      let home : ℕ = preferred_shard thread in
      let one : ℕ = if index == i then 1 else 0 in
      elim (Bool-cases (pool.cache_batch == 0)) [
        | inl off ↦
            rw (e, give_back, off)
              (ground (
                arith,
                ==_self id,
                free_count-set_pool n w id pool (with_shard pool home (index ∷ pool.shards home)) id
                    i 0 one e
                    (omega (
                      arith,
                      in_shards-with_shard pool home (index ∷ pool.shards home) i
                          (preferred_shard_lt thread),
                      count-cons i index (pool.shards home),
                    )),
              ))
        | inr on ↦
            let r : TaskPool F × List ℕ = spilled pool home (w.caches thread).slots in
            rw (e, give_back, on)
              (ground (
                arith,
                ==_self id,
                free_count-set n w id thread pool r.0 (index ∷ r.1) id i 0 one lt e (b (rw (e, on)))
                    (omega (
                      arith,
                      in_shards-spilled pool home (w.caches thread).slots i
                          (preferred_shard_lt thread),
                      count-cons i index r.1,
                    )),
              ))
      ]

  give_back-IsLive :
      (w : World F) (id thread index q : ℕ) (o : Option (TaskPool F))
      → IsLive w q
      → IsLive (give_back w id thread index o) q
  unfolding give_back
  give_back-IsLive w id thread index q none live = live
  give_back-IsLive w id thread index q (some pool) live =
      elim (Bool-cases (pool.cache_batch == 0)) [
        | inl e ↦ rw e (set_pool-IsLive w id q _ live)
        | inr e ↦ rw e (set_pool-IsLive w id q _ live)
      ]

  -- `release` by any thread, of a slot that a caller holds, returns it to the free lists of its
  -- pool, once, whether it lands in a shard or in a cache.
  pub release-Owned :
      (n : ℕ) (w : World F) (id thread capacity : ℕ) (handle : TaskHandle) (out : List ℕ)
      → thread < n
      → Owned n w id capacity (handle.index ∷ out)
      → Owned n (release w id thread handle) id capacity out
  unfolding release
  release-Owned n w id thread capacity handle out lt o =
      let c : World F = clear_slot w id handle.index in
      let b : World F = bound c id thread in
      let c_live : IsLive c id = clear_slot-IsLive w id handle.index id o.live in
      let b_live : IsLive b id = bound-IsLive c id thread id c_live in
      record {
        live = give_back-IsLive b id thread handle.index id (b.pools id) b_live;
        once = λ i. omega (
          arith,
          free_count-give_back n b id thread handle.index i lt b_live (bound-id c id thread),
          free_count-bound n c id thread id i lt c_live,
          free_count-clear_slot n w id handle.index id i,
          count-cons i handle.index out,
          o.once i,
        );
      }

  -- A write to a slot moves nothing.
  pub with_slot-Owned :
      (n : ℕ) (w : World F) (id capacity : ℕ) (out : List ℕ) (pool : TaskPool F) (index : ℕ)
      (t : Task F)
      → w.pools id ≡ some pool
      → Owned n w id capacity out
      → Owned n (set_pool w id (with_slot pool index t)) id capacity out
  unfolding in_shards
  with_slot-Owned n w id capacity out pool index t e o = record {
    live = set_pool-IsLive w id id _ o.live;
    once = λ i.
        omega (arith, free_count-same n w id pool (with_slot pool index t) id i e refl, o.once i);
  }
