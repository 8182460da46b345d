-- ===== src/Queue/RedisQueue/Laws.antt =====
-- What the queue's methods do, on every branch.
use fptcloud_hc_automation_m.Base.{
  ℕ, ◌+◌, String, true, none, some, [], ◌∷◌, ◌++◌, ◌≡◌, refl, arith, if◌then◌else◌, ltb, lookup,
  insert,
}
use fptcloud_hc_automation_m.Queue.Task.{enqueued, duplicate, TaskSpec, Codec, compute_backoff}
use fptcloud_hc_automation_m.Queue.Redis.{
  Redis, Db, Entry, Fields, task_fields, dlq_fields, stream_tasks, stream_dlq, zset_dedup,
  zset_scheduled, entry_at, without, is_none,
}
use fptcloud_hc_automation_m.Queue.RedisQueue.{
  ack, ok, to_stream_fields, from_stream_fields, enqueue, consume, nack, nack_task, move_to_dlq,
}

module _ (c : Codec) (r : Redis) where
  -- The task as `enqueue` writes it.
  abbrev pub stamped : ℕ → TaskSpec → TaskSpec
  stamped now t = record t { enqueued_at = some now }

  -- An id that is in the dedup set is refused and nothing changes; any other is put into the set
  -- and its task at the end of the task stream.
  pub enqueue_lem :
      (now : ℕ) (t : TaskSpec) (d : Db)
      → enqueue c r now t d ≡ (
          if is_none (lookup t.task_id d.dedup)
          then (
            (r.xadd stream_tasks
                (to_stream_fields c r (stamped now t))
                (record d { dedup = insert t.task_id now d.dedup })).0,
            enqueued,
          )
          else (d, duplicate))
  unfolding enqueue
  enqueue_lem now t d = ground (arith, r.zadd_nx_lem zset_dedup t.task_id now d)

  pub dedup-xadd :
      (f : Fields) (d : Db)
      → ((r.xadd stream_tasks f d).0.dedup ≡ d.dedup)
        × ((r.xadd stream_tasks f d).0.scheduled ≡ d.scheduled)
        × ((r.xadd stream_tasks f d).0.dlq ≡ d.dlq)
        × ((r.xadd stream_tasks f d).0.pending ≡ d.pending)
        × ((r.xadd stream_tasks f d).0.has_group ≡ d.has_group)
  dedup-xadd f d = rw (r.xadd_lem stream_tasks f d) (refl, refl, refl, refl, refl)

  -- A task that is enqueued on an empty backlog is the next one consumed, as it was stamped.
  pub consume-enqueue :
      (now : ℕ) (t : TaskSpec) (d : Db)
      → d.has_group ≡ true
      → d.undelivered ≡ []
      → lookup t.task_id d.dedup ≡ none
      → let d1 = (enqueue c r now t d).0 in
        (id : String) × ((consume c r d1).1
          ≡ ok (some (record { entry_id = id; task = stamped now t })))
        × ((consume c r d1).0.undelivered ≡ [])
        × ((consume c r d1).0.pending ≡ d.pending ++ record { message_id = id; idle = 0 } ∷ [])
  unfolding consume to_stream_fields from_stream_fields
  consume-enqueue now t d g u fresh =
      let d0 : Db = record d { dedup = insert t.task_id now d.dedup } in
      let f = task_fields (c.dump_json (stamped now t)) in
      let id = (r.xadd stream_tasks f d0).1 in
      let d1 : Db = record d0 {
        tasks = d.tasks ++ record { id = id; fields = f } ∷ [];
        undelivered = record { id = id; fields = f } ∷ [];
      } in
      let e1 : (enqueue c r now t d).0 ≡ d1 =
        unfold to_stream_fields in
        ground (arith, enqueue_lem now t d, r.xadd_lem stream_tasks f d0) in
      let create = r.xgroup_create_lem d1 in
      let read = r.xreadgroup_lem d1 in
      let valid = c.validate-dump (stamped now t) in
      (id, rw e1 (ground arith), rw e1 (ground arith), rw e1 (ground arith))

  -- nack of an entry whose payload reads as `t` takes it off the pending list and does one of two
  -- things: within the policy's attempts it schedules the task, one attempt later, at the time of
  -- the backoff; past them it puts the task into the dead letters with the reason.
  pub nack_outcome :
      (now draw : ℕ) (entry_id reason : String) (e : Entry) (t : TaskSpec) (d : Db)
      → entry_at entry_id d.tasks ≡ some e
      → from_stream_fields c r e.fields ≡ some t
      → let next = record t { attempt = t.attempt + 1 } in
        let member =
          c.dump_scheduled (record { entry_id = entry_id; task = next; reason = reason }) in
        let wake_at = now + compute_backoff next.attempt t.retry_policy draw in
        let letter = dlq_fields t.task_id (c.dump_json next) reason now entry_id in
        nack c r now draw entry_id reason d ≡ (
          if ltb t.retry_policy.max_attempts (t.attempt + 1)
              then record d {
                dlq = d.dlq ++ record { id = (r.xadd stream_dlq letter d).1; fields = letter } ∷ [];
                pending = without entry_id d.pending;
              }
              else record d {
                scheduled = insert member wake_at d.scheduled;
                pending = without entry_id d.pending;
              },
          ok tt,
        )
  unfolding nack nack_task move_to_dlq
  nack_outcome now draw entry_id reason e t d there valid =
      let next : TaskSpec = record t { attempt = t.attempt + 1 } in
      let member =
        c.dump_scheduled (record { entry_id = entry_id; task = next; reason = reason }) in
      let wake_at = now + compute_backoff next.attempt t.retry_policy draw in
      let letter = dlq_fields t.task_id (c.dump_json next) reason now entry_id in
      ground (
        arith,
        r.xrange_lem stream_tasks entry_id d,
        r.xadd_lem stream_dlq letter d,
        r.xack_lem entry_id (r.xadd stream_dlq letter d).0,
        r.zadd_lem zset_scheduled member wake_at d,
        r.xack_lem entry_id (r.zadd zset_scheduled member wake_at d),
      )

  pub ack_lem : (id : String) (d : Db) → ack c r id d ≡ record d { pending = without id d.pending }
  unfolding ack
  ack_lem id d = r.xack_lem id d
