-- ===== src/Queue/Producer/Rerun.antt =====
-- A second run of the producer on the same file, after the first.
use fptcloud_hc_automation_m.Base.{
  ℕ, ◌+◌, String, List, [], ◌∷◌, ◌≡◌, arith, ltb, length, take, insert, lookup-insert, eq_refl,
  Bool-cases, inl, inr,
}
use fptcloud_hc_automation_m.Queue.Task.{duplicate, TaskSpec, Codec}
use fptcloud_hc_automation_m.Queue.Redis.{Redis, Db}
use fptcloud_hc_automation_m.Queue.Frame.{Known, Frame, Frame-refl, Frame-trans}
use fptcloud_hc_automation_m.Queue.RedisQueue.{enqueue, to_stream_fields}
use fptcloud_hc_automation_m.Queue.RedisQueue.Laws.{enqueue_lem, stamped, dedup-xadd}
use fptcloud_hc_automation_m.Queue.RedisQueue.Frames.{Frame-enqueue}
use fptcloud_hc_automation_m.Queue.Producer.Laws.{counts-enqueue_all}
use fptcloud_hc_automation_m.Queue.Producer.{
  Result, ok, raised, SpecFile, Counts, load_checks, build_tasks, enqueue_all, create_health_checks,
  queue_built, queue_selected, ◌>>=◌,
}

module _ (c : Codec) (r : Redis) where
  abbrev AllKnown : List TaskSpec → Db → Type 0
  AllKnown [] d = Unit
  AllKnown (t ∷ ts) d = Known t.task_id d × AllKnown ts d

  enqueue-Known : (now : ℕ) (t : TaskSpec) (d : Db) → Known t.task_id (enqueue c r now t d).0
  enqueue-Known now t d = ground (
    arith,
    enqueue_lem c r now t d,
    lookup-insert t.task_id t.task_id now d.dedup,
    eq_refl t.task_id,
    dedup-xadd c r (to_stream_fields c r (stamped c r now t))
        (record d { dedup = insert t.task_id now d.dedup }),
  )

  Frame-enqueue_all :
      (now : ℕ) (ts : List TaskSpec) (n dup : ℕ) (d : Db)
      → Frame c d (enqueue_all c r now ts n dup d).0
  unfolding enqueue_all
  Frame-enqueue_all now [] n dup d = Frame-refl c d
  Frame-enqueue_all now (t ∷ ts) n dup d =
      Frame-trans c d (enqueue c r now t d).0 _ (Frame-enqueue c r now t d)
        (Frame-enqueue_all now ts _ _ (enqueue c r now t d).0)

  all_known :
      (now : ℕ) (ts : List TaskSpec) (n dup : ℕ) (d : Db)
      → AllKnown ts (enqueue_all c r now ts n dup d).0
  unfolding enqueue_all
  all_known now [] n dup d = tt
  all_known now (t ∷ ts) n dup d = (
    (Frame-enqueue_all now ts _ _ (enqueue c r now t d).0).known t.task_id (enqueue-Known now t d),
    all_known now ts _ _ (enqueue c r now t d).0,
  )

  all_refused :
      (now : ℕ) (ts : List TaskSpec) (n dup : ℕ) (d : Db)
      → AllKnown ts d
      → enqueue_all c r now ts n dup d ≡ (d, n, dup + length ts)
  unfolding enqueue_all
  all_refused now [] n dup d h = ground arith
  all_refused now (t ∷ ts) n dup d (h, hs) =
      let refused : enqueue c r now t d ≡ (d, duplicate) =
        ground (arith, enqueue_lem c r now t d) in
      let rest = all_refused now ts n (dup + 1) d hs in
      rw (refused, enqueue_all) (rw rest (ground arith))

  built_again :
      (now later max_jobs : ℕ) (built : Result (List TaskSpec)) (d d' : Db) (k : Counts)
      → queue_built c r now max_jobs built d ≡ (d', ok k)
      → queue_built c r later max_jobs built d'
        ≡ (d', ok (record k { enqueued_count = 0; duplicates = k.enqueued_count + k.duplicates }))
  unfolding queue_built queue_selected
  built_again now later max_jobs (raised e) d d' k h = cc
  built_again now later max_jobs (ok ts) d d' k h =
      let selected = take max_jobs ts in
      let out = enqueue_all c r now selected 0 0 d in
      let same : out.0 ≡ d' = ground arith in
      let known : AllKnown selected d' = rw (← same) (all_known now selected 0 0 d) in
      let again = all_refused later selected 0 0 d' known in
      let (total, longer) = counts-enqueue_all c r now selected 0 0 d in rw again (ground arith)

  -- Running the producer again on the same file, for the same run and limit, enqueues nothing and
  -- leaves the queue as it is: what the first run took is now a duplicate, and what it deferred is
  -- deferred once more.
  pub rerun_lem :
      (now later : ℕ) (file : SpecFile) (run_id tenant_id : String) (max_jobs : ℕ) (d d' : Db)
      (k : Counts)
      → create_health_checks c r now file run_id tenant_id max_jobs d ≡ (d', ok k)
      → create_health_checks c r later file run_id tenant_id max_jobs d'
        ≡ (d', ok (record k { enqueued_count = 0; duplicates = k.enqueued_count + k.duplicates }))
  unfolding create_health_checks
  rerun_lem now later file run_id tenant_id max_jobs d d' k h =
      let built = load_checks file >>= build_tasks c run_id tenant_id in
      elim (Bool-cases (ltb max_jobs 1)) [
        | inl small ↦ cc (rw small at h)
        | inr fits ↦ rw fits (built_again now later max_jobs built d d' k (rw fits at h))
      ]
