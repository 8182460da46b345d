-- ===== src/Live/Cleanup.antt =====
-- The deletion of an instance of the present run, and its retention (src/healthcheck/cleanup.py).
-- Text that an event carries besides its classification is left out.
pub mod Laws
mod Tests
use Prim.Native.String.{◌++◌ as text_append}
use fptcloud_hc_automation_m.Base.{
  ℕ, String, Bool, true, false, not, ◌&&◌, ◌||◌, Option, none, some, List, [], ◌∷◌, ◌++◌, ◌==◌,
  if◌then◌else◌, codes, within, mem, ◌>>=◌,
}
use fptcloud_hc_automation_m.Queue.Json.{Json, str, Members, end, get, or_else}
use fptcloud_hc_automation_m.Live.{
  World, Terraform, succeeds, output_of, answer, give, emit, queue_error, QueueItem, destroy,
}
use fptcloud_hc_automation_m.Live.Workspace.{
  state_resources, instance_id_from_state, instance_state_values,
}

-- The messages of cleanup_safety_errors.
pub data SafetyError : Type 0 where
  not_quota_cleanup : SafetyError
  no_instance_id : SafetyError
  not_managed : SafetyError
  other_name : SafetyError
  other_suffix : SafetyError
  outside_run_root : SafetyError

abbrev when : Bool → SafetyError → List SafetyError
when true e = e ∷ []
when false e = []

abbrev is_empty : Members → Bool
is_empty end = true
is_empty _ = false

-- QUOTA_CLEANUP_CLASSIFICATIONS of src/healthcheck/classification.py.
pub quota_cleanup_classifications : List String
quota_cleanup_classifications = "instance_quota_exceeded" ∷ "instance_storage_quota_exceeded" ∷ []

-- `suffix` is INSTANCE_RUN_SUFFIX; `inside_run` says whether a resolved path is the run's root or
-- below it.
module _ (text_of : Json → String) (suffix : String) (inside_run : String → Bool) where
  pub cleanup_safety_errors :
      Members → String → String → String → String → String → List SafetyError
  unfolding quota_cleanup_classifications
  cleanup_safety_errors values workspace classification instance_id expected_name resource_name =
      when (not (mem classification quota_cleanup_classifications)) not_quota_cleanup
      ++ when (instance_id == "") no_instance_id
      ++ when (is_empty values) not_managed
      ++ when (not (text_of (or_else (get "name" values) (str "")) == expected_name)) other_name
      ++ when (not (within (codes suffix) (codes resource_name))) other_suffix
      ++ when (not (inside_run workspace)) outside_run_root

abbrev cleanup_stage : String
cleanup_stage = "compute.cleanup-instance"

-- The same event for the check's own cleanup and for the cleanup stage.
unfoldable pub emit_twice : String → String → String → World → World
unfolding emit
emit_twice name status classification w =
    emit cleanup_stage status classification
      (emit (text_append name ":cleanup") status classification w)

-- retain_instance, whose classification is `retained_failed_instance` after a failure.
unfoldable pub retain_instance : String → Bool → World → World
unfolding emit_twice
retain_instance stage failed w =
    emit_twice stage "skipped"
      (if failed then "retained_failed_instance" else "instance_retained_by_policy") w

module _ (tf : Terraform) where
  failure_item : String → String → List String → String → QueueItem
  failure_item check workspace resources reason = record {
    check = check;
    workspace = workspace;
    resources = resources;
    reason = reason;
  }

  -- The end of the destroy command.
  destroyed : String → String → List String → World → Bool × World
  unfolding failure_item
  destroyed workspace name resources w =
      let done = answer tf workspace destroy w in
      let after = give workspace destroy w in
      let failed : String = "instance_cleanup_failed" in
      if succeeds done then (true, emit_twice name "destroyed" "" after) else (
        false,
        queue_error (failure_item cleanup_stage workspace resources (output_of done)) failed (
            queue_error
              (failure_item (text_append name ":cleanup") workspace resources (output_of done))
              failed after),
      )

  checked : List SafetyError → String → String → List String → World → Bool × World
  unfolding destroyed
  checked [] workspace name resources w =
      destroyed workspace name resources (emit_twice name "started" "" w)
  checked (_ ∷ _) workspace name resources w =
      (false, emit_twice name "skipped" "instance_cleanup_not_allowed" w)

-- The other arguments are those of Workspace; `enabled` is cleanup_on_quota_exceeded_enabled().
module _ (text_of : Json → String) (suffix : String) (inside_run : String → Bool)
    (loads : String → Option Json) (lines : String → List String) (tf : Terraform)
    (enabled : Bool) where
  -- `none` is an exception of the reading of the state.
  pub cleanup_instance : String → String → String → String → String → World → Option (Bool × World)
  unfolding checked cleanup_safety_errors
  cleanup_instance workspace name classification expected_name resource_name w =
      let (read, w1) = instance_id_from_state text_of loads lines tf workspace w in
      let (resources, w2) = state_resources text_of loads lines tf workspace w1 in
      let (values, w3) = instance_state_values text_of loads lines tf workspace w2 in
      read >>= (λ instance_id.
        if enabled
        then values >>= (λ vs. some (
            checked tf
              (cleanup_safety_errors text_of suffix inside_run vs workspace classification
                instance_id expected_name resource_name)
              workspace name resources w3))
        else some (false, emit_twice name "skipped" "instance_retained_by_policy" w2))
