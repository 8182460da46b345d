-- ===== src/Queue/RedisQueue/Moving.antt =====
-- move_scheduled_to_tasks and replay_dlq.
use native.Mathlib.Nat.{add-zero, zero-add}
use mathlib.Core.List.{append-nil, append_assoc, map-append}
use fptcloud_hc_automation_m.Base.{
  ℕ, suc, ◌+◌, String, Option, none, some, List, [], ◌∷◌, ◌++◌, ◌≡◌, refl, sym, ◌∙◌, arith,
  if◌then◌else◌, length, length-append, lookup, lookup-keep_ne, mem, map,
}
use fptcloud_hc_automation_m.Queue.Task.{TaskSpec, Codec, Scheduled}
use fptcloud_hc_automation_m.Queue.Redis.{
  Redis, Db, Entry, Fields, stream_tasks, stream_dlq, zset_dedup, zset_scheduled, entry_at,
  zremoved, due_members,
}
use fptcloud_hc_automation_m.Queue.RedisQueue.{
  ok, to_stream_fields, from_stream_fields, move_member, move_members, move_scheduled_to_tasks,
  replay_dlq, replayed,
}

joined :
    (j m : String) (ms : List String) (x y z : Option ℕ)
    → y ≡ (if mem j (m ∷ []) then none else x)
    → z ≡ (if mem j ms then none else y)
    → z ≡ (if mem j (m ∷ ms) then none else x)
unfolding mem
joined j m ms x y z h k = ground arith

module _ (c : Codec) (r : Redis) where
  -- Every member was written by nack, so it loads.
  abbrev pub AllLoad : List String → Type 0
  AllLoad [] = Unit
  AllLoad (m ∷ ms) = ((s : Scheduled) × (c.load_scheduled m ≡ some s)) × AllLoad ms

  -- The stream fields of the tasks that the members hold.
  pub written : List String → List Fields
  written [] = []
  written (m ∷ ms) = elim (c.load_scheduled m) [
    | none ↦ written ms
    | some s ↦ to_stream_fields c r s.task ∷ written ms
  ]

  written_cons :
      (m : String) (s : Scheduled) (ms : List String)
      → c.load_scheduled m ≡ some s
      → written (m ∷ ms) ≡ to_stream_fields c r s.task ∷ written ms
  unfolding written
  written_cons m s ms h = rw (written, h) refl

  -- What the transactions for the members `ms` make of the server's data.
  pub record Moved (ms : List String) (d d' : Db) : Type 0 where
    pub added :
        map (λ (e : Entry). e.fields) d'.tasks ≡ map (λ (e : Entry). e.fields) d.tasks ++ written ms
    pub longer : length d'.tasks ≡ length d.tasks + length ms
    pub backlog : length d'.undelivered ≡ length d.undelivered + length ms
    pub scheduled :
        (j : String) → lookup j d'.scheduled ≡ (if mem j ms then none else lookup j d.scheduled)
    pub dlq : d'.dlq ≡ d.dlq
    pub dedup : d'.dedup ≡ d.dedup
    pub pending : d'.pending ≡ d.pending

  Moved-once :
      (m : String) (s : Scheduled) (d : Db)
      → c.load_scheduled m ≡ some s
      → (d' : Db) × (move_member c r m d ≡ some d') × Moved (m ∷ []) d d'
  unfolding move_member written
  Moved-once m s d h =
      let f = to_stream_fields c r s.task in
      let e : Entry = record { id = (r.xadd stream_tasks f d).1; fields = f } in
      (
        record d {
          tasks = d.tasks ++ e ∷ [];
          undelivered = d.undelivered ++ e ∷ [];
          scheduled = zremoved m d.scheduled;
        },
        ground (
          arith,
          r.xadd_lem stream_tasks f d,
          r.zrem_lem zset_scheduled m (r.xadd stream_tasks f d).0,
        ),
        record {
          added = rw (written_cons m s [] h, map-append) refl;
          longer = length-append d.tasks (e ∷ []);
          backlog = length-append d.undelivered (e ∷ []);
          scheduled = λ j. unfold mem in ground (arith, lookup-keep_ne m j d.scheduled);
          dlq = refl;
          dedup = refl;
          pending = refl;
        },
      )

  move_all :
      (ms : List String) (n : ℕ) (d : Db)
      → AllLoad ms
      → (d' : Db) × (move_members c r ms n d ≡ (d', ok (n + length ms))) × Moved ms d d'
  unfolding move_members written
  move_all [] n d h = (
    d,
    rw add-zero,
    record {
      added = sym (append-nil _);
      longer = omega arith;
      backlog = omega arith;
      scheduled = λ j. unfold mem in refl;
      dlq = refl;
      dedup = refl;
      pending = refl;
    },
  )
  move_all (m ∷ ms) n d ((s, loads), rest) =
      let (d1, once, a) = Moved-once m s d loads in
      let (d2, more, b) = move_all ms (n + 1) d1 rest in
      let total : n + 1 + length ms ≡ n + suc (length ms) = omega arith in
      (
        d2,
        rw (once, move_members) (rw total at more),
        record {
          added =
              rw (b.added, a.added, written_cons m s [] loads, written_cons m s ms loads)
                (append_assoc (map (λ (e : Entry). e.fields) d.tasks)
                  (to_stream_fields c r s.task ∷ []) (written ms));
          longer = omega (arith, a.longer, b.longer);
          backlog = omega (arith, a.backlog, b.backlog);
          scheduled = λ j. joined j m ms _ _ _ (a.scheduled j) (b.scheduled j);
          dlq = cc (a.dlq, b.dlq);
          dedup = cc (a.dedup, b.dedup);
          pending = cc (a.pending, b.pending);
        },
      )

  -- The first retries that are due, up to the limit and by their times, go back to the task stream
  -- in one call: their tasks are added to the stream in that order, as many entries as it reports,
  -- exactly these members leave the schedule, and the dead letters, the dedup set and the pending
  -- list stay as they are.
  pub move_scheduled_all :
      (now limit : ℕ) (d : Db)
      → AllLoad (due_members now limit d.scheduled)
      → let due = due_members now limit d.scheduled in
        (d' : Db) × (move_scheduled_to_tasks c r now limit d ≡ (d', ok (length due)))
        × Moved due d d'
  unfolding move_scheduled_to_tasks
  move_scheduled_all now limit d h = rw (r.zrangebyscore_lem zset_scheduled now limit d) (
      let (d', e, m) = move_all (due_members now limit d.scheduled) 0 d h in
      (d', rw zero-add at e, m))

  replay_once :
      (now : ℕ) (id : String) (e : Entry) (t : TaskSpec) (d : Db)
      → entry_at id d.dlq ≡ some e
      → from_stream_fields c r e.fields ≡ some t
      → (i : String) × ((replay_dlq c r now id d).0.tasks
          ≡ d.tasks ++ record { id = i; fields = to_stream_fields c r (replayed c r t) } ∷ [])
        × ((replay_dlq c r now id d).0.dlq ≡ d.dlq)
  unfolding replay_dlq
  replay_once now id e t d there valid =
      let add = r.zadd_nx zset_dedup (replayed c r t).task_id now d in
      let f = to_stream_fields c r (replayed c r t) in
      (
        (r.xadd stream_tasks f add.0).1,
        ground (
          arith,
          r.xrange_lem stream_dlq id d,
          r.xadd_lem stream_tasks f add.0,
          r.zadd_nx_lem zset_dedup (replayed c r t).task_id now d,
        ),
        ground (
          arith,
          r.xrange_lem stream_dlq id d,
          r.xadd_lem stream_tasks f add.0,
          r.zadd_nx_lem zset_dedup (replayed c r t).task_id now d,
        ),
      )

  -- Replaying a dead letter twice adds two entries to the task stream with one and the same task
  -- id: the answer of the dedup set is not looked at, and the id is a function of the letter.
  pub replay_twice :
      (now later : ℕ) (id : String) (e : Entry) (t : TaskSpec) (d : Db)
      → entry_at id d.dlq ≡ some e
      → from_stream_fields c r e.fields ≡ some t
      → let d1 = (replay_dlq c r now id d).0 in
        let d2 = (replay_dlq c r later id d1).0 in
        let f = to_stream_fields c r (replayed c r t) in
        (i j : String) × (d2.tasks
          ≡ (d.tasks ++ record { id = i; fields = f } ∷ []) ++ record { id = j; fields = f } ∷ [])
        × (d2.dlq ≡ d.dlq)
  replay_twice now later id e t d there valid =
      let (i, first, kept) = replay_once now id e t d there valid in
      let still : entry_at id (replay_dlq c r now id d).0.dlq ≡ some e = rw kept there in
      let (j, second, again) = replay_once later id e t (replay_dlq c r now id d).0 still valid in
      (i, j, rw (← first) second, again ∙ kept)
