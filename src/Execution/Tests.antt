-- ===== src/Execution/Tests.antt =====
-- A module that applies with changes, and a task whose module is not there.
use fptcloud_hc_automation_m.Base.{ℕ, String, Bool, true, false, none, some, [], ◌∷◌, ◌≡◌, refl}
use fptcloud_hc_automation_m.Queue.Json.{null}
use fptcloud_hc_automation_m.Queue.Task.{TaskSpec, default_policy}
use fptcloud_hc_automation_m.Queue.Redis.{Db, Entry, task_fields, without}
use fptcloud_hc_automation_m.Queue.Redis.Reference.{reference}
use fptcloud_hc_automation_m.Queue.RedisQueue.{ok, from_stream_fields}
use fptcloud_hc_automation_m.Queue.Wire.Values.{codec}
use fptcloud_hc_automation_m.Classification.Patterns.{ClassifiedError, unknown}
use fptcloud_hc_automation_m.Execution.{Steps, ended, execute, Execution, escaped}
use fptcloud_hc_automation_m.Execution.Laws.{IsExplained, execute_lem}
use fptcloud_hc_automation_m.Execution.Worker.{settle}
use fptcloud_hc_automation_m.Execution.Worker.Settled.{settle_lem}

abbrev classify_unknown : String → ClassifiedError
classify_unknown text = record { category = unknown; message = text; raw = text }

abbrev plan_text : ℕ → ClassifiedError → String
plan_text code e = e.message

abbrev changes : Steps
changes = record {
  bootstrap = none;
  plan = ended 2 "" "";
  apply = ended 0 "done" "";
  show = none;
  cleanup_on_success = true;
}

execute_lem_example :
    IsExplained classify_unknown plan_text changes (execute classify_unknown plan_text changes)
execute_lem_example = execute_lem classify_unknown plan_text changes

abbrev task : TaskSpec
task = record {
  run_id = "run-1";
  tc_id = "TC-001";
  tenant_id = "t";
  spec_hash = "h";
  task_id = "id-1";
  category = "compute";
  description = "";
  spec = null;
  attempt = 0;
  retry_policy = default_policy;
  enqueued_at = none;
  parent_task_id = none;
}

abbrev entry : Entry
entry = record { id = "1"; fields = task_fields (codec.dump_json task) }

abbrev taken_db : Db
taken_db = record {
  tasks = entry ∷ [];
  dlq = [];
  dedup = [];
  scheduled = [];
  undelivered = [];
  pending = record { message_id = "1"; idle = 0 } ∷ [];
  has_group = true;
}

abbrev no_modules : String → Bool
no_modules name = false

abbrev runs : TaskSpec → String → Execution
runs t name = escaped "timed out"

abbrev says : TaskSpec → String
says t = t.tc_id

entry_reads : from_stream_fields codec reference entry.fields ≡ some task
unfolding from_stream_fields
entry_reads = codec.validate-dump task

settle_lem_example :
    let (d', reply) =
      settle codec no_modules runs says says reference 5 0
        (record { entry_id = "1"; task = task })
        taken_db in
    (reply ≡ ok tt) × (d'.pending ≡ without "1" taken_db.pending) × (d'.tasks ≡ entry ∷ [])
settle_lem_example =
    settle_lem codec no_modules runs says says reference 5 0
      (record { entry_id = "1"; task = task }) entry task taken_db refl entry_reads
