-- ===== src/Execution/Worker/Settled.antt =====
-- A taken entry does not stay with the worker.
use fptcloud_hc_automation_m.Base.{ℕ, String, Bool, some, ◌≡◌, refl, arith}
use fptcloud_hc_automation_m.Queue.Task.{TaskSpec, QueueEntry, Codec}
use fptcloud_hc_automation_m.Queue.Redis.{Redis, Db, Entry, entry_at, without}
use fptcloud_hc_automation_m.Queue.RedisQueue.{ok, from_stream_fields}
use fptcloud_hc_automation_m.Queue.RedisQueue.Laws.{nack_outcome, ack_lem}
use fptcloud_hc_automation_m.Execution.{Execution}
use fptcloud_hc_automation_m.Execution.Worker.{
  Outcome, succeeded, refused, execute_entry, settle_as, settle,
}

module _ (c : Codec) (module_exists : String → Bool) (run : TaskSpec → String → Execution)
    (no_module not_found_ : TaskSpec → String) (r : Redis) where
  settled_as :
      (o : Outcome) (now draw : ℕ) (id : String) (x : Entry) (t : TaskSpec) (d : Db)
      → entry_at id d.tasks ≡ some x
      → from_stream_fields c r x.fields ≡ some t
      → let (d', reply) = settle_as c module_exists run no_module not_found_ r o now draw id d in
        (reply ≡ ok tt) × (d'.pending ≡ without id d.pending) × (d'.tasks ≡ d.tasks)
  unfolding settle_as
  settled_as succeeded now draw id x t d there valid =
      let e = ack_lem c r id d in (refl, ground arith, ground arith)
  settled_as (refused reason) now draw id x t d there valid =
      let e = nack_outcome c r now draw id reason x t d there valid in
      (ground arith, ground arith, ground arith)

  -- Whatever becomes of an entry that the worker took, and whose payload can be read, it is off the
  -- pending list afterwards, the worker goes on, and the task stream is as it was.
  pub settle_lem :
      (now draw : ℕ) (e : QueueEntry) (x : Entry) (t : TaskSpec) (d : Db)
      → entry_at e.entry_id d.tasks ≡ some x
      → from_stream_fields c r x.fields ≡ some t
      → let (d', reply) = settle c module_exists run no_module not_found_ r now draw e d in
        (reply ≡ ok tt) × (d'.pending ≡ without e.entry_id d.pending) × (d'.tasks ≡ d.tasks)
  unfolding settle
  settle_lem now draw e x t d there valid =
      settled_as (execute_entry c module_exists run no_module not_found_ e.task) now draw e.entry_id
        x t d there valid
