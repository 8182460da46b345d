-- ===== src/Queue/Reaper/Reach.antt =====
-- Every history of producers, workers, the scheduler, the reaper and operators on one queue, as a
-- sequence of the methods' effects, and what holds throughout.
use fptcloud_hc_automation_m.Base.{
  ℕ, ◌+◌, ◌≤◌, String, Bool, true, false, Option, none, some, List, [], ◌∷◌, ◌≡◌, inl, inr, refl,
  arith, if◌then◌else◌, ltb, eq_refl, lookup, insert, lookup-insert,
}
use fptcloud_hc_automation_m.Queue.Task.{TaskSpec, Codec, Scheduled, duplicate}
use fptcloud_hc_automation_m.Queue.Redis.{Redis, Db, Entry, Pending, stream_tasks}
use fptcloud_hc_automation_m.Queue.RedisQueue.{
  Reply, ok, validation_error, to_stream_fields, from_stream_fields, ensure_consumer_group, enqueue,
  consume, ack, nack, move_scheduled_to_tasks, replay_dlq,
}
use fptcloud_hc_automation_m.Queue.Reaper.{requeue_task, requeue, reclaim_all, reclaim_idle}
use fptcloud_hc_automation_m.Queue.RedisQueue.Laws.{enqueue_lem, dedup-xadd, stamped}
use fptcloud_hc_automation_m.Queue.Frame.{
  Frame, Known, IsScheduled, Frame-refl, Frame-trans, Frame-xadd, Frame-xack, Frame-group,
  Frame-claim,
}
use fptcloud_hc_automation_m.Queue.RedisQueue.Frames.{
  Frame-enqueue, Frame-consume, Frame-ack, Frame-nack, Frame-move_scheduled, Frame-replay_dlq,
}

module _ (c : Codec) (r : Redis) where
  pub data Step (d : Db) : Db → Type 0 where
    producer : (now : ℕ) (t : TaskSpec) → Step d (enqueue c r now t d).0
    worker_takes : Step d (consume c r d).0
    worker_acks : (id : String) → Step d (ack c r id d)
    worker_nacks : (now draw : ℕ) (id reason : String) → Step d (nack c r now draw id reason d).0
    scheduler : (now limit : ℕ) → Step d (move_scheduled_to_tasks c r now limit d).0
    reaper : (idle_ms : ℕ) → Step d (reclaim_idle c r idle_ms d).0
    operator : (now : ℕ) (id : String) → Step d (replay_dlq c r now id d).0

  pub data Reach (d : Db) : Db → Type 0 where
    here : Reach d d
    next : {e f : Db} → Reach d e → Step e f → Reach d f

  Frame-requeue : (es : List Entry) (n : ℕ) (d : Db) → Frame c d (requeue c r es n d).0
  unfolding requeue requeue_task
  Frame-requeue [] n d = Frame-refl c d
  Frame-requeue (e ∷ es) n d =
      read (from_stream_fields c r e.fields) refl (λ d'. Frame-requeue es (n + 1) d')
    where
      read :
          (t : Option TaskSpec)
          → from_stream_fields c r e.fields ≡ t
          → ((d' : Db) → Frame c d' (requeue c r es (n + 1) d').0)
          → Frame c d (requeue c r (e ∷ es) n d).0
      read none h rec = rw (h, requeue) (Frame-refl c d)
      read (some t) h rec =
          let f = to_stream_fields c r (record t { attempt = t.attempt + 1 }) in
          let d1 = r.xack e.id d in
          rw (h, requeue, requeue_task)
            (Frame-trans c d d1 _ (Frame-xack c r e.id d) (
              Frame-trans c d1 (r.xadd stream_tasks f d1).0 _ (Frame-xadd c r stream_tasks f d1)
                (rec (r.xadd stream_tasks f d1).0)))

  Frame-reclaim_all :
      (idle_ms : ℕ) (ps : List Pending) (n : ℕ) (d : Db)
      → Frame c d (reclaim_all c r idle_ms ps n d).0
  unfolding reclaim_all
  Frame-reclaim_all idle_ms [] n d = Frame-refl c d
  Frame-reclaim_all idle_ms (p ∷ ps) n d =
      go (ltb p.idle idle_ms) (requeue c r claim.1 n claim.0) claimed
        (λ m d'. Frame-reclaim_all idle_ms ps m d')
    where
      claim : Db × List Entry
      claim = r.xclaim idle_ms p.message_id d

      claimed : Frame c d (requeue c r claim.1 n claim.0).0
      claimed =
          Frame-trans c d claim.0 _ (Frame-claim c r idle_ms p.message_id d)
            (Frame-requeue claim.1 n claim.0)

      go :
          (young : Bool) (out : Db × Reply ℕ)
          → Frame c d out.0
          → ((m : ℕ) (d' : Db) → Frame c d' (reclaim_all c r idle_ms ps m d').0)
          → let after : Db × Reply ℕ =
              if young then reclaim_all c r idle_ms ps n d else (elim (out.1) [
                | ok m ↦ reclaim_all c r idle_ms ps m out.0
                | validation_error ↦ (out.0, validation_error)
                | other ↦ (out.0, other)
              ]) in
            Frame c d after.0
      go true out f rec = rec n d
      go false (d1, ok m) f rec = Frame-trans c d d1 _ f (rec m d1)
      go false (d1, _) f rec = f

  Frame-reclaim_idle : (idle_ms : ℕ) (d : Db) → Frame c d (reclaim_idle c r idle_ms d).0
  unfolding reclaim_idle ensure_consumer_group
  Frame-reclaim_idle idle_ms d =
      let d1 = r.xgroup_create d in
      Frame-trans c d d1 _ (Frame-group c r d)
        (Frame-reclaim_all idle_ms (r.xpending_range 100 d1) 0 d1)

  Step-Frame : {d e : Db} → Step d e → Frame c d e
  Step-Frame {d} (producer now t) = Frame-enqueue c r now t d
  Step-Frame {d} worker_takes = Frame-consume c r d
  Step-Frame {d} (worker_acks id) = Frame-ack c r id d
  Step-Frame {d} (worker_nacks now draw id reason) = Frame-nack c r now draw id reason d
  Step-Frame {d} (scheduler now limit) = Frame-move_scheduled c r now limit d
  Step-Frame {d} (reaper idle_ms) = Frame-reclaim_idle idle_ms d
  Step-Frame {d} (operator now id) = Frame-replay_dlq c r now id d

  Reach-Frame : {d e : Db} → Reach d e → Frame c d e
  Reach-Frame {d} here = Frame-refl c d
  Reach-Frame {d} (next {e = e} {f = f} p st) = Frame-trans c d e f (Reach-Frame p) (Step-Frame st)

  -- A task that was enqueued once is refused for ever, whatever happens to the queue in between:
  -- a task with the same id is a duplicate and changes nothing.
  pub enqueue_once :
      (now later : ℕ) (t again : TaskSpec) (d e : Db)
      → again.task_id ≡ t.task_id
      → Reach (enqueue c r now t d).0 e
      → enqueue c r later again e ≡ (e, duplicate)
  enqueue_once now later t again d e same p =
      let seen : Known t.task_id (enqueue c r now t d).0 = ground (
        arith,
        enqueue_lem c r now t d,
        lookup-insert t.task_id t.task_id now d.dedup,
        eq_refl t.task_id,
        dedup-xadd c r (to_stream_fields c r (stamped c r now t))
            (record d { dedup = insert t.task_id now d.dedup }),
      ) in
      let still : Known again.task_id e = rw same ((Reach-Frame p).known t.task_id seen) in
      ground (arith, enqueue_lem c r later again e)

  -- From an empty schedule, every retry that is ever waiting is one that its policy allows.
  pub retries_within :
      (d e : Db) (m : String) (s : Scheduled)
      → d.scheduled ≡ []
      → Reach d e
      → IsScheduled m e
      → c.load_scheduled m ≡ some s
      → s.task.attempt ≤ s.task.retry_policy.max_attempts
  unfolding lookup
  retries_within d e m s none_yet p waiting loads = elim ((Reach-Frame p).retries m waiting) [
    | inl old ↦ absurd (let gone : true ≡ false = rw none_yet at old in cc)
    | inr within ↦ within s loads
  ]
