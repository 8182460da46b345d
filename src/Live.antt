-- ===== src/Live.antt =====
-- The live runner (src/healthcheck): the state that its parts share (state.py, logging.py), and
-- the commands that it gives to terraform, which answers by what it was given before.
pub mod Samples
pub mod Commands
pub mod Workspace
pub mod Reclaim
pub mod Cleanup
pub mod Pending
pub mod Instance
pub mod Lock
pub mod Password
use fptcloud_hc_automation_m.Base.{
  ℕ, String, Bool, true, false, ◌||◌, Option, none, some, List, [], ◌∷◌, ◌++◌, ◌==◌, ◌≡◌, refl,
  if◌then◌else◌, eqb, codes, within, Dict, lookup, insert,
}

-- The operations that the program asks of terraform.
pub data Operation : Type 0 where
  init : Operation
  plan : Operation
  apply : Operation
  destroy : Operation
  import_instance : String → Operation
  destroy_imported : Operation
  show : Operation
  show_plan : Operation
  state_list : Operation

-- An operation in a workspace.
pub record Command : Type 0 where
  pub workspace : String
  pub operation : Operation

-- subprocess.CompletedProcess. The codes that are negative in Python are any others but 0 and 2.
pub record Completed : Type 0 where
  pub returncode : ℕ
  pub stdout : String
  pub stderr : String

-- Of an event: its stage, its status and the classification that its message names.
pub record Event : Type 0 where
  pub stage : String
  pub status : String
  pub classification : String

pub record QueueItem : Type 0 where
  pub check : String
  pub workspace : String
  pub resources : List String
  pub reason : String

-- The lists of state.py, and the commands so far. Events and commands stand newest first.
pub record World : Type 0 where
  pub given : List Command
  pub events : List Event
  pub stage_status : Dict String
  pub pending_queue : List QueueItem
  pub error_queue : List QueueItem

-- Logging writes files as well.
unfoldable pub emit : String → String → String → World → World
emit stage status classification w = record {
  given = w.given;
  events = record { stage = stage; status = status; classification = classification } ∷ w.events;
  stage_status =
      if within (codes ":") (codes stage)
      then w.stage_status
      else insert stage status w.stage_status;
  pending_queue = w.pending_queue;
  error_queue = w.error_queue;
}

unfoldable pub queue_pending : QueueItem → World → World
unfolding emit
queue_pending q w = emit q.check "queued" "" (record {
  given = w.given;
  events = w.events;
  stage_status = w.stage_status;
  pending_queue = w.pending_queue ++ q ∷ [];
  error_queue = w.error_queue;
})

-- The second argument is the classification that the reason names.
unfoldable pub queue_error : QueueItem → String → World → World
unfolding emit
queue_error q classification w = emit q.check "failed" classification (record {
  given = w.given;
  events = w.events;
  stage_status = w.stage_status;
  pending_queue = w.pending_queue;
  error_queue = w.error_queue ++ q ∷ [];
})

pub stage_ok : String → World → Bool
stage_ok stage w = elim (lookup stage w.stage_status) [
  | none ↦ false
  | some s ↦ s == "done" || s == "passed" || s == "ready"
]

-- What is done to the world when a command is given.
unfoldable pub give : String → Operation → World → World
give workspace op w = record {
  given = record { workspace = workspace; operation = op } ∷ w.given;
  events = w.events;
  stage_status = w.stage_status;
  pending_queue = w.pending_queue;
  error_queue = w.error_queue;
}

-- Terraform: its answer to a command, from the commands before it.
abbrev pub Terraform : Type 0
Terraform = List Command → Command → Completed

unfoldable pub answer : Terraform → String → Operation → World → Completed
answer tf workspace op w = tf w.given (record { workspace = workspace; operation = op })

abbrev pub succeeds : Completed → Bool
succeeds c = eqb c.returncode 0

-- result.stderr or result.stdout
abbrev pub output_of : Completed → String
output_of c = if c.stderr == "" then c.stdout else c.stderr
