-- ===== src/Queue/Reaper/Laws.antt =====
-- What a reclaim does to one idle entry.
use fptcloud_hc_automation_m.Base.{
  ℕ, ◌+◌, ◌≤◌, ◌<◌, String, true, some, [], ◌∷◌, ◌++◌, ◌≡◌, arith, leb, any, ◌==◌, ◌&&◌,
}
use fptcloud_hc_automation_m.Queue.Task.{TaskSpec, Codec}
use fptcloud_hc_automation_m.Queue.Redis.{
  Redis, Db, Entry, Pending, stream_tasks, entry_at, without,
}
use fptcloud_hc_automation_m.Queue.RedisQueue.{ok, to_stream_fields, from_stream_fields}
use fptcloud_hc_automation_m.Queue.Reaper.{requeue_task, requeue, reclaim_all}

module _ (c : Codec) (r : Redis) where
  -- The task that the reaper adds.
  abbrev pub bumped : TaskSpec → TaskSpec
  bumped t = record t { attempt = t.attempt + 1 }

  requeue_once :
      (e : Entry) (t : TaskSpec) (d : Db)
      → (i : String) × (requeue_task c r e t d
          ≡ let fresh : Entry = record { id = i; fields = to_stream_fields c r (bumped t) } in
            record d {
              tasks = d.tasks ++ fresh ∷ [];
              undelivered = d.undelivered ++ fresh ∷ [];
              pending = without e.id d.pending;
            })
  unfolding requeue_task
  requeue_once e t d =
      let f = to_stream_fields c r (bumped t) in
      (
        (r.xadd stream_tasks f (r.xack e.id d)).1,
        ground (arith, r.xadd_lem stream_tasks f (r.xack e.id d), r.xack_lem e.id d),
      )

  -- An entry that has not been pending for the reaper's time is left alone.
  pub reclaim_young :
      (idle_ms : ℕ) (p : Pending) (d : Db)
      → p.idle < idle_ms
      → reclaim_all c r idle_ms (p ∷ []) 0 d ≡ (d, ok 0)
  unfolding reclaim_all
  reclaim_young idle_ms p d young = ground arith

  -- An entry that has been pending for the reaper's time and can be read is put back at the end of
  -- the task stream one attempt later, whatever the attempt and the policy: the reaper never
  -- writes to the dead letters, nor to the schedule or the dedup set.
  pub reclaim_entry :
      (idle_ms : ℕ) (p : Pending) (e : Entry) (t : TaskSpec) (d : Db)
      → idle_ms ≤ p.idle
      → any (λ q. q.message_id == p.message_id && leb idle_ms q.idle) d.pending ≡ true
      → entry_at p.message_id d.tasks ≡ some e
      → from_stream_fields c r e.fields ≡ some t
      → let (d', reply) = reclaim_all c r idle_ms (p ∷ []) 0 d in
        (reply ≡ ok 1)
        × (d'.dlq ≡ d.dlq)
        × (d'.scheduled ≡ d.scheduled)
        × (d'.dedup ≡ d.dedup)
        × ((i : String) × (d'.tasks
              ≡ d.tasks ++ record { id = i; fields = to_stream_fields c r (bumped t) } ∷ []))
  unfolding reclaim_all requeue
  reclaim_entry idle_ms p e t d old idle there valid =
      let (ps, kept) = r.xclaim_keeps idle_ms p.message_id d in
      let d1 = (r.xclaim idle_ms p.message_id d).0 in
      let claimed = r.xclaim_lem idle_ms p.message_id d in
      let (i, put) = requeue_once e t d1 in
      (ground arith, ground arith, ground arith, ground arith, (i, ground arith))
