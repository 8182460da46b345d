-- ===== src/Queue/RedisQueue.antt =====
-- RedisQueue (src/hc/queue/redis_queue.py), one function for each method, over the server's data.
-- The group is the settings' consumer group throughout, as every caller has it. `now` is the time
-- that the method reads, `draw` the random draw of the backoff.
pub mod Laws
pub mod Frames
pub mod Moving
use Prim.Native.String.{◌++◌ as text_append}
use fptcloud_hc_automation_m.Base.{
  ℕ, ◌+◌, String, Bool, true, false, Option, none, some, List, [], ◌∷◌, ◌≡◌, if◌then◌else◌, ltb,
  eqb, length,
}
use fptcloud_hc_automation_m.Queue.Task.{
  EnqueueResult, enqueued, duplicate, TaskSpec, QueueEntry, Codec, compute_backoff, compute_task_id,
}
use fptcloud_hc_automation_m.Queue.Redis.{
  Redis, Db, Entry, Fields, task_fields, dlq_fields, stream_tasks, stream_dlq, zset_dedup,
  zset_scheduled, entry_at,
}

-- What a method returns or raises.
pub data Reply {ℓ} (A : Type ℓ) : Type ℓ where
  ok : A → Reply A
  validation_error : Reply A
  not_found : Reply A

module _ (c : Codec) (r : Redis) where
  pub to_stream_fields : TaskSpec → Fields
  to_stream_fields t = task_fields (c.dump_json t)

  -- `fields.get("payload", "{}")`, then validation; `none` is the ValidationError.
  unfoldable pub from_stream_fields : Fields → Option TaskSpec
  from_stream_fields (task_fields payload) = c.validate_json payload
  from_stream_fields (dlq_fields task_id payload last_error failed_at original) =
      c.validate_json payload

  unfoldable pub ensure_consumer_group : Db → Db
  ensure_consumer_group d = r.xgroup_create d

  unfoldable pub enqueue : ℕ → TaskSpec → Db → Db × EnqueueResult
  enqueue now task d =
      let (d1, added) = r.zadd_nx zset_dedup task.task_id now d in
      let stamped = record task { enqueued_at = some now } in
      if eqb added 0
      then (d1, duplicate)
      else ((r.xadd stream_tasks (to_stream_fields stamped) d1).0, enqueued)

  consumed : Option Entry → Reply (Option QueueEntry)
  consumed none = ok none
  consumed (some e) = elim (from_stream_fields e.fields) [
    | none ↦ validation_error
    | some t ↦ ok (some (record { entry_id = e.id; task = t }))
  ]

  -- An entry whose payload is not valid has been delivered all the same.
  pub consume : Db → Db × Reply (Option QueueEntry)
  unfolding consumed ensure_consumer_group
  consume d = let (d1, entry) = r.xreadgroup (ensure_consumer_group d) in (d1, consumed entry)

  pub ack : String → Db → Db
  ack entry_id d = r.xack entry_id d

  -- `failed_at` is the time now.
  pub move_to_dlq : ℕ → String → TaskSpec → String → Db → Db
  move_to_dlq now entry_id task reason d =
      r.xack entry_id
        (r.xadd stream_dlq (dlq_fields task.task_id (c.dump_json task) reason now entry_id) d).0

  -- nack from `task.attempt += 1` on, for the task as it is read.
  pub nack_task : ℕ → ℕ → String → String → TaskSpec → Db → Db
  nack_task now draw entry_id reason read d =
      let task = record read { attempt = read.attempt + 1 } in
      let wake_at = now + compute_backoff task.attempt task.retry_policy draw in
      let member =
        c.dump_scheduled (record { entry_id = entry_id; task = task; reason = reason }) in
      if ltb task.retry_policy.max_attempts task.attempt
      then move_to_dlq now entry_id task reason d
      else r.xack entry_id (r.zadd zset_scheduled member wake_at d)

  nack_entry : ℕ → ℕ → String → String → Option Entry → Db → Db × Reply (Unit {0})
  nack_entry now draw entry_id reason none d = (r.xack entry_id d, ok tt)
  nack_entry now draw entry_id reason (some e) d = elim (from_stream_fields e.fields) [
    | none ↦ (d, validation_error)
    | some t ↦ (nack_task now draw entry_id reason t d, ok tt)
  ]

  pub nack : ℕ → ℕ → String → String → Db → Db × Reply (Unit {0})
  unfolding nack_entry
  nack now draw entry_id reason d =
      nack_entry now draw entry_id reason (r.xrange stream_tasks entry_id d) d

  -- The body of the loop over the due members; a member that does not parse raises.
  move_member : String → Db → Option Db
  move_member m d = elim (c.load_scheduled m) [
    | none ↦ none
    | some s ↦ some (r.zrem zset_scheduled m (r.xadd stream_tasks (to_stream_fields s.task) d).0)
  ]

  -- An exception leaves the members before it moved.
  move_members : List String → ℕ → Db → Db × Reply ℕ
  move_members [] moved d = (d, ok moved)
  move_members (m ∷ ms) moved d = elim (move_member m d) [
    | none ↦ (d, validation_error)
    | some d' ↦ move_members ms (moved + 1) d'
  ]

  pub move_scheduled_to_tasks : ℕ → ℕ → Db → Db × Reply ℕ
  unfolding move_members move_member
  move_scheduled_to_tasks now limit d =
      move_members (r.zrangebyscore zset_scheduled now limit d) 0 d

  -- The task that replay_dlq makes of the one it reads.
  pub replayed : TaskSpec → TaskSpec
  replayed t = record t {
    attempt = 0;
    task_id = compute_task_id c t.run_id t.tc_id t.tenant_id (text_append t.spec_hash "-replay");
  }

  replay_entry : ℕ → Option Entry → Db → Db × Reply String
  replay_entry now none d = (d, not_found)
  replay_entry now (some e) d = elim (from_stream_fields e.fields) [
    | none ↦ (d, validation_error)
    | some t ↦
        let d1 = (r.zadd_nx zset_dedup (replayed t).task_id now d).0 in
        let (d2, id) = r.xadd stream_tasks (to_stream_fields (replayed t)) d1 in (d2, ok id)
  ]

  pub replay_dlq : ℕ → String → Db → Db × Reply String
  unfolding replay_entry
  replay_dlq now dlq_entry_id d = replay_entry now (r.xrange stream_dlq dlq_entry_id d) d

pub record Stats : Type 0 where
  pub stream_length : ℕ
  pub pel_depth : ℕ
  pub dlq_depth : ℕ
  pub scheduled_count : ℕ

-- stats() reads the lengths alone.
pub stats : Db → Stats
stats d = record {
  stream_length = length d.tasks;
  pel_depth = length d.pending;
  dlq_depth = length d.dlq;
  scheduled_count = length d.scheduled;
}
