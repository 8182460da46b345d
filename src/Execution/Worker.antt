-- ===== src/Execution/Worker.antt =====
-- One round of the worker's loop (src/hc/worker.py): take an entry, run its module, and acknowledge
-- or refuse it.
pub mod Settled
use fptcloud_hc_automation_m.Base.{
  ℕ, String, Bool, true, false, not, Option, none, some, ◌==◌, if◌then◌else◌, strip,
}
use fptcloud_hc_automation_m.Queue.Json.{Json, str, obj, Members, end, get, or_else}
use fptcloud_hc_automation_m.Queue.Task.{TaskSpec, QueueEntry, Codec}
use fptcloud_hc_automation_m.Queue.Redis.{Redis, Db}
use fptcloud_hc_automation_m.Queue.RedisQueue.{
  Reply, ok, validation_error, not_found, consume, ack, nack,
}
use fptcloud_hc_automation_m.Classification.Patterns.{ClassifiedError}
use fptcloud_hc_automation_m.Execution.{Execution, returned, escaped, ExecutionResult}

-- What becomes of an entry.
pub data Outcome : Type 0 where
  succeeded : Outcome
  refused : String → Outcome

abbrev spec_members : Json → Members
spec_members (obj d) = d
spec_members _ = end

error_reason : Option ClassifiedError → String
error_reason none = "terraform execution failed"
error_reason (some e) = e.message

outcome_of : Execution → Outcome
unfolding error_reason
outcome_of (returned r kept) = if r.success then succeeded else refused (error_reason r.error)
outcome_of (escaped message) = refused message

-- `module_exists` and `run` are the file system and the executor, `no_module` and `not_found_` the
-- texts of the two exceptions.
module _ (c : Codec) (module_exists : String → Bool) (run : TaskSpec → String → Execution)
    (no_module not_found_ : TaskSpec → String) where
  pub module_name : TaskSpec → String
  module_name t =
      let d = spec_members t.spec in
      strip (c.text_of (or_else (get "module" d) (or_else (get "resource" d) (str t.category))))

  -- _execute_entry with the handler of its exceptions in `main`.
  pub execute_entry : TaskSpec → Outcome
  unfolding outcome_of
  execute_entry t =
      let name = module_name t in
      if name == ""
      then refused (no_module t)
      else if not (module_exists name)
      then refused (not_found_ t)
      else outcome_of (run t name)

  module _ (r : Redis) where
    settle_as : Outcome → ℕ → ℕ → String → Db → Db × Reply (Unit {0})
    settle_as succeeded now draw entry_id d = (ack c r entry_id d, ok tt)
    settle_as (refused reason) now draw entry_id d = nack c r now draw entry_id reason d

    pub settle : ℕ → ℕ → QueueEntry → Db → Db × Reply (Unit {0})
    unfolding settle_as
    settle now draw e d = settle_as (execute_entry e.task) now draw e.entry_id d

    taken : ℕ → ℕ → Reply (Option QueueEntry) → Db → Db × Reply (Unit {0})
    taken now draw (ok none) d = (d, ok tt)
    taken now draw (ok (some e)) d = settle now draw e d
    taken now draw validation_error d = (d, validation_error)
    taken now draw not_found d = (d, not_found)

    -- `consume` stands outside of the `try`: its exception ends the worker.
    pub worker_round : ℕ → ℕ → Db → Db × Reply (Unit {0})
    unfolding taken
    worker_round now draw d = let (d1, reply) = consume c r d in taken now draw reply d1
