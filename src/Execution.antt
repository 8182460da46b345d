-- ===== src/Execution.antt =====
-- TerraformExecutor.execute (src/hc/executor/executor.py) and the worker (src/hc/worker.py).
-- Terraform itself, the file system and the classifier are arguments.
pub mod Worker
mod Laws
mod Tests
use fptcloud_hc_automation_m.Base.{
  ℕ, String, Bool, true, false, ◌&&◌, ◌||◌, Option, none, some, ◌==◌, if◌then◌else◌, eqb,
}
use fptcloud_hc_automation_m.Classification.Patterns.{ClassifiedError}
use fptcloud_hc_automation_m.Validator.Model.{TfState}

-- What a terraform command does: it ends with a code and its two streams, or raises a
-- TerraformExecutorError (no binary, or the time is up) or another exception, with a message.
pub data Run : Type 0 where
  ended : ℕ → String → String → Run
  command_error : String → Run
  other_error : String → Run

-- What the steps do: `bootstrap` gives the exception's text, `show` the state unless it raises.
pub record Steps : Type 0 where
  pub bootstrap : Option String
  pub plan : Run
  pub apply : Run
  pub show : Option TfState
  pub cleanup_on_success : Bool

pub record ExecutionResult : Type 0 where
  pub success : Bool
  pub plan_exit_code : Option ℕ
  pub state : Option TfState
  pub error : Option ClassifiedError

-- The result, or an exception of `plan` or `apply_plan` that nothing catches; and whether the
-- workspace is left in place.
pub data Execution : Type 0 where
  returned : ExecutionResult → Bool → Execution
  escaped : String → Execution

abbrev or_text : String → String → String
or_text s t = if s == "" then t else s

module _ (classify : String → ClassifiedError) (plan_message : ℕ → ClassifiedError → String) where
  failed : Option ℕ → String → Execution
  failed code text =
      returned
        (record {
          success = false;
          plan_exit_code = code;
          state = none;
          error = some (classify text);
        })
        true

  applied : Steps → ℕ → Run → Execution
  unfolding failed
  applied s plan_code (command_error message) = escaped message
  applied s plan_code (other_error message) = escaped message
  applied s plan_code (ended code stdout stderr) =
      if eqb code 0
      then returned
          (record { success = true; plan_exit_code = some plan_code; state = s.show; error = none })
          (if s.cleanup_on_success then false else true)
      else failed (some plan_code) (or_text stderr stdout)

  -- `plan` raises for an exit code other than 0 and 2; its text is classified twice.
  planned : Steps → Run → Execution
  unfolding failed applied
  planned s (command_error message) = failed none message
  planned s (other_error message) = escaped message
  planned s (ended code stdout stderr) =
      if eqb code 0 || eqb code 2
      then applied s code s.apply
      else failed none (plan_message code (classify (or_text stderr stdout)))

  bootstrapped : Steps → Option String → Execution
  unfolding failed planned
  bootstrapped s (some text) = failed none text
  bootstrapped s none = planned s s.plan

  pub execute : Steps → Execution
  unfolding bootstrapped
  execute s = bootstrapped s s.bootstrap
