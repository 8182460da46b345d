-- ===== src/Queue/Tests.antt =====
-- One queue with a task, a dead letter and a retry, on the reference server.
use fptcloud_hc_automation_m.Base.{
  ◌+◌, ◌*◌, ◌≤◌, String, true, none, some, [], ◌∷◌, ◌++◌, ◌≡◌, refl, arith, lookup, insert, keep,
  any, eq_refl,
}
use fptcloud_hc_automation_m.Queue.Json.{null}
use fptcloud_hc_automation_m.Queue.Task.{
  TaskSpec, Scheduled, duplicate, default_policy, max_gte_base, capped_seconds, compute_backoff,
  backoff_bounds,
}
use fptcloud_hc_automation_m.Queue.Redis.{Db, Entry, task_fields, dlq_fields, ranked, ranked_in}
use fptcloud_hc_automation_m.Queue.Frame.{IsScheduled}
use fptcloud_hc_automation_m.Queue.Redis.Reference.{reference}
use fptcloud_hc_automation_m.Queue.Wire.Values.{codec}
use fptcloud_hc_automation_m.Queue.RedisQueue.{
  ok, enqueue, consume, nack, from_stream_fields, to_stream_fields, move_scheduled_to_tasks,
  replay_dlq, replayed,
}
use fptcloud_hc_automation_m.Queue.RedisQueue.Laws.{
  enqueue_lem, consume-enqueue, nack_outcome, stamped,
}
use fptcloud_hc_automation_m.Queue.RedisQueue.Moving.{move_scheduled_all, replay_twice, Moved}
use fptcloud_hc_automation_m.Queue.Reaper.{reclaim_all, reclaim_idle}
use fptcloud_hc_automation_m.Queue.Reaper.Laws.{reclaim_entry, bumped}
use fptcloud_hc_automation_m.Queue.Reaper.Reach.{
  Reach, here, next, worker_takes, reaper, worker_nacks, enqueue_once, retries_within,
}

abbrev task : TaskSpec
task = record {
  run_id = "run-1";
  tc_id = "TC-001";
  tenant_id = "t";
  spec_hash = "h";
  task_id = "id-1";
  category = "compute";
  description = "";
  spec = null;
  attempt = 0;
  retry_policy = default_policy;
  enqueued_at = none;
  parent_task_id = none;
}

abbrev empty_db : Db
empty_db = record {
  tasks = [];
  dlq = [];
  dedup = [];
  scheduled = [];
  undelivered = [];
  pending = [];
  has_group = true;
}

abbrev entry : Entry
entry = record { id = "1"; fields = task_fields (codec.dump_json task) }

-- The entry has been delivered, and is pending for a minute.
abbrev delivered_db : Db
delivered_db = record empty_db {
  tasks = entry ∷ [];
  pending = record { message_id = "1"; idle = 60000 } ∷ [];
}

abbrev letter : Entry
letter = record { id = "9"; fields = dlq_fields "id-1" (codec.dump_json task) "quota" 7 "1" }

abbrev dead_db : Db
dead_db = record empty_db { dlq = letter ∷ [] }

abbrev retry : Scheduled
retry = record { entry_id = "1"; task = record task { attempt = 1 }; reason = "timeout" }

abbrev waiting_db : Db
waiting_db = record empty_db { scheduled = (codec.dump_scheduled retry, 40) ∷ [] }

payload_reads : from_stream_fields codec reference entry.fields ≡ some task
unfolding from_stream_fields
payload_reads = codec.validate-dump task

letter_reads : from_stream_fields codec reference letter.fields ≡ some task
unfolding from_stream_fields
letter_reads = codec.validate-dump task

enqueue_lem_example :
    enqueue codec reference 5 task (record empty_db { dedup = ("id-1", 1) ∷ [] })
    ≡ (record empty_db { dedup = ("id-1", 1) ∷ [] }, duplicate)
unfolding lookup
enqueue_lem_example =
    enqueue_lem codec reference 5 task (record empty_db { dedup = ("id-1", 1) ∷ [] })

consume-enqueue_example :
    let d1 = (enqueue codec reference 5 task empty_db).0 in
    (id : String) × ((consume codec reference d1).1
      ≡ ok (some (record { entry_id = id; task = stamped codec reference 5 task })))
    × ((consume codec reference d1).0.undelivered ≡ [])
    × ((consume codec reference d1).0.pending ≡ [] ++ record { message_id = id; idle = 0 } ∷ [])
unfolding lookup
consume-enqueue_example = consume-enqueue codec reference 5 task empty_db refl refl refl

abbrev retried : TaskSpec
retried = record task { attempt = 1 }

nack_outcome_example : nack codec reference 1000 0 "1" "timeout" delivered_db ≡ (
  record delivered_db {
    scheduled = insert (codec.dump_scheduled retry) (1000 + compute_backoff 1 default_policy 0) [];
    pending = [];
  },
  ok tt,
)
unfolding keep
nack_outcome_example =
    nack_outcome codec reference 1000 0 "1" "timeout" entry task delivered_db refl payload_reads

move_scheduled_all_example :
    (d' : Db) × (move_scheduled_to_tasks codec reference 50 10 waiting_db ≡ (d', ok 1))
    × Moved codec reference (codec.dump_scheduled retry ∷ []) waiting_db d'
unfolding keep ranked ranked_in
move_scheduled_all_example =
    move_scheduled_all codec reference 50 10 waiting_db ((retry, codec.load-dump retry), tt)

reclaim_entry_example :
    let (d', reply) =
      reclaim_all codec reference 30000
        (record { message_id = "1"; idle = 60000 } ∷ [])
        0
        delivered_db in
    (reply ≡ ok 1)
    × (d'.dlq ≡ [])
    × (d'.scheduled ≡ [])
    × (d'.dedup ≡ [])
    × ((i : String) × (d'.tasks
          ≡ entry
            ∷ record {
              id = i;
              fields = to_stream_fields codec reference (bumped codec reference task);
            }
            ∷ []))
unfolding any
reclaim_entry_example =
    reclaim_entry codec reference 30000 (record { message_id = "1"; idle = 60000 }) entry task
      delivered_db (omega arith) refl refl payload_reads

replay_twice_example :
    let d1 = (replay_dlq codec reference 1 "9" dead_db).0 in
    let d2 = (replay_dlq codec reference 2 "9" d1).0 in
    let f = to_stream_fields codec reference (replayed codec reference task) in
    (i j : String) × (d2.tasks ≡ record { id = i; fields = f } ∷ record { id = j; fields = f } ∷ [])
    × (d2.dlq ≡ letter ∷ [])
replay_twice_example = replay_twice codec reference 1 2 "9" letter task dead_db refl letter_reads

backoff_bounds_example :
    (30 ≤ 60) × (60 ≤ 600) × (60 * 1000 ≤ 57000 + 60 * 200) × (57000 ≤ 60 * 1000 + 60 * 200)
unfolding capped_seconds compute_backoff max_gte_base
backoff_bounds_example = backoff_bounds 2 default_policy default_policy 9000 refl (omega arith)

-- The worker takes the task, fails it, and the reaper passes; then the task is offered again.
abbrev offered : Db
offered = (enqueue codec reference 5 task empty_db).0

abbrev later_db : Db
later_db =
    (reclaim_idle codec reference 30000
      (nack codec reference 6 0 "1" "timeout" (consume codec reference offered).0).0).0

abbrev history : Reach codec reference offered later_db
history = next (next (next here worker_takes) (worker_nacks 6 0 "1" "timeout")) (reaper 30000)

enqueue_once_example : enqueue codec reference 7 task later_db ≡ (later_db, duplicate)
enqueue_once_example = enqueue_once codec reference 5 7 task task empty_db later_db refl history

retry_waits : IsScheduled (codec.dump_scheduled retry) (record delivered_db {
  scheduled = (codec.dump_scheduled retry, 6 + compute_backoff 1 default_policy 0) ∷ [];
})
unfolding lookup
retry_waits = rw (eq_refl (codec.dump_scheduled retry)) refl

retries_within_example : 1 ≤ 3
unfolding insert
retries_within_example =
    retries_within codec reference delivered_db
      (nack codec reference 6 0 "1" "timeout" delivered_db).0 (codec.dump_scheduled retry) retry
      refl (next here (worker_nacks 6 0 "1" "timeout"))
      (rw
        (nack_outcome codec reference 6 0 "1" "timeout" entry task delivered_db refl payload_reads)
        retry_waits)
      (codec.load-dump retry)
