-- ===== src/Queue/RedisQueue/Frames.antt =====
-- The frame of each method.
use fptcloud_hc_automation_m.Base.{
  ℕ, ◌+◌, String, Option, none, some, List, [], ◌∷◌, ◌≡◌, refl, arith, ltb, eqb, Bool-cases, inl,
  inr,
}
use fptcloud_hc_automation_m.Queue.Task.{TaskSpec, Codec, Scheduled, compute_backoff}
use fptcloud_hc_automation_m.Queue.Redis.{
  Redis, Db, Entry, Fields, stream_tasks, stream_dlq, zset_dedup, zset_scheduled,
}
use fptcloud_hc_automation_m.Queue.RedisQueue.{
  Reply, ok, validation_error, to_stream_fields, from_stream_fields, enqueue, consume, ack, nack,
  nack_entry, nack_task, move_to_dlq, move_member, move_members, move_scheduled_to_tasks,
  replay_dlq, replay_entry, replayed,
}
use fptcloud_hc_automation_m.Queue.Frame.{
  Frame, Frame-refl, Frame-trans, Frame-xadd, Frame-zadd_nx, Frame-xack, Frame-group, Frame-read,
  Frame-zrem, Frame-zadd,
}

module _ (c : Codec) (r : Redis) where
  pub Frame-enqueue : (now : ℕ) (t : TaskSpec) (d : Db) → Frame c d (enqueue c r now t d).0
  unfolding enqueue
  Frame-enqueue now t d =
      let add = r.zadd_nx zset_dedup t.task_id now d in
      let f = to_stream_fields c r (record t { enqueued_at = some now }) in
      elim (Bool-cases (eqb add.1 0)) [
        | inl seen ↦ rw seen (Frame-zadd_nx c r t.task_id now d)
        | inr new ↦ rw new (
            Frame-trans c d add.0 (r.xadd stream_tasks f add.0).0
              (Frame-zadd_nx c r t.task_id now d) (Frame-xadd c r stream_tasks f add.0))
      ]

  pub Frame-consume : (d : Db) → Frame c d (consume c r d).0
  unfolding consume
  Frame-consume d =
      Frame-trans c d (r.xgroup_create d) (r.xreadgroup (r.xgroup_create d)).0 (Frame-group c r d)
        (Frame-read c r (r.xgroup_create d))

  pub Frame-ack : (id : String) (d : Db) → Frame c d (ack c r id d)
  unfolding ack
  Frame-ack id d = Frame-xack c r id d

  -- The guard of nack is what keeps the schedule within the policy.
  Frame-nack_task :
      (now draw : ℕ) (id reason : String) (t : TaskSpec) (d : Db)
      → Frame c d (nack_task c r now draw id reason t d)
  unfolding nack_task move_to_dlq
  Frame-nack_task now draw id reason t d =
      let next : TaskSpec = record t { attempt = t.attempt + 1 } in
      let retry : Scheduled = record { entry_id = id; task = next; reason = reason } in
      let m = c.dump_scheduled retry in
      let wake_at = now + compute_backoff next.attempt t.retry_policy draw in
      let letter = Fields.dlq_fields t.task_id (c.dump_json next) reason now id in
      elim (Bool-cases (ltb t.retry_policy.max_attempts (t.attempt + 1))) [
        | inl dead ↦ rw dead (
            Frame-trans c d (r.xadd stream_dlq letter d).0 _ (Frame-xadd c r stream_dlq letter d)
              (Frame-xack c r id (r.xadd stream_dlq letter d).0))
        | inr alive ↦ rw alive (
            Frame-trans c d (r.zadd zset_scheduled m wake_at d) _
              (Frame-zadd c r m wake_at d (λ s loads. ground (arith, c.load-dump retry)))
              (Frame-xack c r id (r.zadd zset_scheduled m wake_at d)))
      ]

  Frame-nack_entry :
      (now draw : ℕ) (id reason : String) (e : Option Entry) (d : Db)
      → Frame c d (nack_entry c r now draw id reason e d).0
  unfolding nack_entry
  Frame-nack_entry now draw id reason none d = Frame-xack c r id d
  Frame-nack_entry now draw id reason (some e) d = read (from_stream_fields c r e.fields)
    where
      read :
          (t : Option TaskSpec)
          → Frame c d (
              let out : Db × Reply (Unit {0}) = elim t [
                | none ↦ (d, validation_error)
                | some t' ↦ (nack_task c r now draw id reason t' d, ok tt)
              ] in
              out.0)
      read none = Frame-refl c d
      read (some t) = Frame-nack_task now draw id reason t d

  pub Frame-nack :
      (now draw : ℕ) (id reason : String) (d : Db) → Frame c d (nack c r now draw id reason d).0
  unfolding nack
  Frame-nack now draw id reason d =
      Frame-nack_entry now draw id reason (r.xrange stream_tasks id d) d

  Frame-move_members : (ms : List String) (n : ℕ) (d : Db) → Frame c d (move_members c r ms n d).0
  unfolding move_members move_member
  Frame-move_members [] n d = Frame-refl c d
  Frame-move_members (m ∷ ms) n d =
      step (c.load_scheduled m) refl (λ d'. Frame-move_members ms (n + 1) d')
    where
      step :
          (s : Option Scheduled)
          → c.load_scheduled m ≡ s
          → ((d' : Db) → Frame c d' (move_members c r ms (n + 1) d').0)
          → Frame c d (move_members c r (m ∷ ms) n d).0
      step none h rec = rw (h, move_member, move_members) (Frame-refl c d)
      step (some s) h rec =
          let f = to_stream_fields c r s.task in
          let d1 = (r.xadd stream_tasks f d).0 in
          rw (h, move_member, move_members)
            (Frame-trans c d d1 _ (Frame-xadd c r stream_tasks f d) (
              Frame-trans c d1 (r.zrem zset_scheduled m d1) _ (Frame-zrem c r m d1)
                (rec (r.zrem zset_scheduled m d1))))

  pub Frame-move_scheduled :
      (now limit : ℕ) (d : Db) → Frame c d (move_scheduled_to_tasks c r now limit d).0
  unfolding move_scheduled_to_tasks
  Frame-move_scheduled now limit d =
      Frame-move_members (r.zrangebyscore zset_scheduled now limit d) 0 d

  Frame-replay_entry :
      (now : ℕ) (e : Option Entry) (d : Db) → Frame c d (replay_entry c r now e d).0
  unfolding replay_entry
  Frame-replay_entry now none d = Frame-refl c d
  Frame-replay_entry now (some e) d = read (from_stream_fields c r e.fields) refl
    where
      read :
          (t : Option TaskSpec)
          → from_stream_fields c r e.fields ≡ t
          → Frame c d (replay_entry c r now (some e) d).0
      read none h = rw (h, replay_entry) (Frame-refl c d)
      read (some t) h =
          let add = r.zadd_nx zset_dedup (replayed c r t).task_id now d in
          let f = to_stream_fields c r (replayed c r t) in
          rw (h, replay_entry)
            (Frame-trans c d add.0 (r.xadd stream_tasks f add.0).0
              (Frame-zadd_nx c r (replayed c r t).task_id now d)
              (Frame-xadd c r stream_tasks f add.0))

  pub Frame-replay_dlq : (now : ℕ) (id : String) (d : Db) → Frame c d (replay_dlq c r now id d).0
  unfolding replay_dlq
  Frame-replay_dlq now id d = Frame-replay_entry now (r.xrange stream_dlq id d) d
