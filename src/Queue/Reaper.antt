-- ===== src/Queue/Reaper.antt =====
-- Reaper.reclaim_idle (src/hc/queue/reaper.py). The polling loops of the reaper and of the
-- scheduler call `reclaim_idle` and `move_scheduled_to_tasks` again and again (`Reach`).
pub mod Laws
pub mod Reach
use fptcloud_hc_automation_m.Base.{
  ℕ, ◌+◌, Bool, true, false, Option, none, some, List, [], ◌∷◌, if◌then◌else◌, ltb,
}
use fptcloud_hc_automation_m.Queue.Task.{TaskSpec, Codec}
use fptcloud_hc_automation_m.Queue.Redis.{Redis, Db, Entry, Pending, stream_tasks}
use fptcloud_hc_automation_m.Queue.RedisQueue.{
  Reply, ok, validation_error, to_stream_fields, from_stream_fields, ensure_consumer_group,
}

module _ (c : Codec) (r : Redis) where
  -- Acknowledge the claimed entry and add its task again, one attempt later.
  pub requeue_task : Entry → TaskSpec → Db → Db
  requeue_task e t d =
      (r.xadd stream_tasks (to_stream_fields c r (record t { attempt = t.attempt + 1 }))
        (r.xack e.id d)).0

  -- `for cid, fields in claimed`
  pub requeue : List Entry → ℕ → Db → Db × Reply ℕ
  requeue [] n d = (d, ok n)
  requeue (e ∷ es) n d = elim (from_stream_fields c r e.fields) [
    | none ↦ (d, validation_error)
    | some t ↦ requeue es (n + 1) (requeue_task e t d)
  ]

  -- `for item in pending`; an entry that is not idle for long enough is passed over.
  pub reclaim_all : ℕ → List Pending → ℕ → Db → Db × Reply ℕ
  reclaim_all idle_ms [] n d = (d, ok n)
  reclaim_all idle_ms (p ∷ ps) n d =
      let later = λ (m : ℕ) (d' : Db). reclaim_all idle_ms ps m d' in
      let (d1, claimed) = r.xclaim idle_ms p.message_id d in
      let (d2, reply) = requeue claimed n d1 in
      if ltb p.idle idle_ms then later n d else (elim reply [
        | ok m ↦ later m d2
        | validation_error ↦ (d2, validation_error)
        | other ↦ (d2, other)
      ])

  pub reclaim_idle : ℕ → Db → Db × Reply ℕ
  reclaim_idle idle_ms d =
      let d1 = ensure_consumer_group c r d in reclaim_all idle_ms (r.xpending_range 100 d1) 0 d1
