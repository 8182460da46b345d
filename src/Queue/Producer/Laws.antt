-- ===== src/Queue/Producer/Laws.antt =====
-- What create_health_checks reports and what it leaves in the queue.
use fptcloud_hc_automation_m.Base.{
  ℕ, zero, suc, ◌+◌, ◌≤◌, String, List, [], ◌∷◌, ◌≡◌, arith, if◌then◌else◌, ltb, length,
  length-append, take, insert, Bool-cases, inl, inr,
}
use fptcloud_hc_automation_m.Queue.Task.{TaskSpec, Codec}
use fptcloud_hc_automation_m.Queue.Redis.{Redis, Db, Entry, stream_tasks}
use fptcloud_hc_automation_m.Queue.RedisQueue.{enqueue, to_stream_fields}
use fptcloud_hc_automation_m.Queue.RedisQueue.Laws.{enqueue_lem, stamped}
use fptcloud_hc_automation_m.Queue.Producer.{
  Result, ok, raised, SpecFile, Counts, ProducerError, is_enqueued, load_checks, build_tasks,
  enqueue_all, create_health_checks, queue_built, ◌>>=◌,
}

length-take-le :
    {A : Type 0} (n : ℕ) (xs : List A) → (length (take n xs) ≤ n) × (length (take n xs) ≤ length xs)
length-take-le zero xs = omega arith
length-take-le (suc n) [] = omega arith
length-take-le (suc n) (x ∷ xs) = omega (arith, length-take-le n xs)

module _ (c : Codec) (r : Redis) where
  -- An enqueued task lengthens the task stream by one; a duplicate changes nothing.
  pub tasks-enqueue :
      (now : ℕ) (t : TaskSpec) (d : Db)
      → length (enqueue c r now t d).0.tasks
        ≡ length d.tasks + (if is_enqueued (enqueue c r now t d).1 then 1 else 0)
  tasks-enqueue now t d =
      let f = to_stream_fields c r (stamped c r now t) in
      let d0 : Db = record d { dedup = insert t.task_id now d.dedup } in
      let e : Entry = record { id = (r.xadd stream_tasks f d0).1; fields = f } in
      ground (
        arith,
        enqueue_lem c r now t d,
        r.xadd_lem stream_tasks f d0,
        length-append d.tasks (e ∷ []),
      )

  pub counts-enqueue_all :
      (now : ℕ) (ts : List TaskSpec) (n dup : ℕ) (d : Db)
      → let (d', n', dup') = enqueue_all c r now ts n dup d in
        (n' + dup' ≡ n + dup + length ts) × (length d'.tasks + n ≡ length d.tasks + n')
  unfolding enqueue_all
  counts-enqueue_all now [] n dup d = omega arith
  counts-enqueue_all now (t ∷ ts) n dup d =
      elim (Bool-cases (is_enqueued (enqueue c r now t d).1)) [
        | inl yes_ ↦
            let rest = counts-enqueue_all now ts (n + 1) dup (enqueue c r now t d).0 in
            let one : length (enqueue c r now t d).0.tasks ≡ length d.tasks + 1 =
              rw yes_ at (tasks-enqueue now t d) in
            rw (yes_, enqueue_all) (omega arith)
        | inr no_ ↦
            let rest = counts-enqueue_all now ts n (dup + 1) (enqueue c r now t d).0 in
            let none_ : length (enqueue c r now t d).0.tasks ≡ length d.tasks + 0 =
              rw no_ at (tasks-enqueue now t d) in
            rw (no_, enqueue_all) (omega arith)
      ]

  built_counts :
      (now max_jobs : ℕ) (built : Result (List TaskSpec)) (d d' : Db) (k : Counts)
      → queue_built c r now max_jobs built d ≡ (d', ok k)
      → (k.enqueued_count + k.duplicates + k.deferred ≡ k.loaded)
        × (k.enqueued_count + k.duplicates ≤ max_jobs)
        × (length d'.tasks ≡ length d.tasks + k.enqueued_count)
  unfolding queue_built
  built_counts now max_jobs (raised e) d d' k h = cc
  built_counts now max_jobs (ok ts) d d' k h =
      let (fits, short) = length-take-le max_jobs ts in
      let (total, longer) = counts-enqueue_all now (take max_jobs ts) 0 0 d in ground arith

  -- When the producer returns, every definition that it loaded is enqueued, a duplicate or
  -- deferred, no more than `max_jobs` of them are not deferred, and the task stream has grown by
  -- the number that it reports as enqueued.
  pub counts_add_up :
      (now : ℕ) (file : SpecFile) (run_id tenant_id : String) (max_jobs : ℕ) (d d' : Db)
      (k : Counts)
      → create_health_checks c r now file run_id tenant_id max_jobs d ≡ (d', ok k)
      → (k.enqueued_count + k.duplicates + k.deferred ≡ k.loaded)
        × (k.enqueued_count + k.duplicates ≤ max_jobs)
        × (length d'.tasks ≡ length d.tasks + k.enqueued_count)
  unfolding create_health_checks
  counts_add_up now file run_id tenant_id max_jobs d d' k h =
      let built = load_checks file >>= build_tasks c run_id tenant_id in
      elim (Bool-cases (ltb max_jobs 1)) [
        | inl small ↦ cc (rw small at h)
        | inr fits ↦ built_counts now max_jobs built d d' k (rw fits at h)
      ]

  -- When it raises, nothing has been enqueued.
  pub raised_unchanged :
      (now : ℕ) (file : SpecFile) (run_id tenant_id : String) (max_jobs : ℕ) (d d' : Db)
      (e : ProducerError)
      → create_health_checks c r now file run_id tenant_id max_jobs d ≡ (d', raised e)
      → d' ≡ d
  unfolding create_health_checks
  raised_unchanged now file run_id tenant_id max_jobs d d' e h = ground arith
