-- ===== src/Live/Instance/Stages.antt =====
-- The stages around the creation (src/healthcheck/instance_runner.py): VPC, password, hostnames,
-- round and the validation of what is created. A stage ends with an event, `done` or `skipped`; a
-- stage that the specification does not have does nothing, and is left out.
mod Laws
mod Tests
use fptcloud_hc_automation_m.Base.{
  ℕ, zero, suc, String, Bool, true, false, not, ◌&&◌, ◌||◌, Option, none, some, List, [], ◌∷◌, ◌++◌,
  ◌==◌, if◌then◌else◌, keep, map, mem, length, min, Dict, insert, lookup, any,
}
use fptcloud_hc_automation_m.Stage.{StageSpec, Gate, opened, closed, runnable_spec, spec_preflight}
use fptcloud_hc_automation_m.Live.{World, emit, stage_ok}
use fptcloud_hc_automation_m.Live.Password.{password_policy_valid}
use fptcloud_hc_automation_m.Live.Instance.Naming.{
  instance_image_matrix, guest_hostname_for_label, validate_guest_hostname, HostnameError,
}

-- state.stage_status[stage.id] = "done"
set_done : String → World → World
set_done id w = record {
  given = w.given;
  events = w.events;
  stage_status = insert id "done" w.stage_status;
  pending_queue = w.pending_queue;
  error_queue = w.error_queue;
}

-- The end of a stage, with the classification for which it is skipped.
pub conclude : String → Option String → World → World
unfolding set_done emit
conclude id none w = emit id "done" "" (set_done id w)
conclude id (some classification) w = emit id "skipped" classification w

-- The first reason to skip.
first_reason : Option String → Option String → Option String
first_reason none b = b
first_reason (some a) b = some a

when_closed : Gate → Option String
when_closed opened = none
when_closed (closed reason) = some ""

abbrev is_nil {ℓ} : {A : Type ℓ} → List A → Bool
is_nil [] = true
is_nil (_ ∷ _) = false

-- runnable_spec, and then the dependencies but the stage itself, which are `blocked` if not done.
pub gate : String → String → StageSpec → World → Option String
unfolding when_closed first_reason
gate own classification s w = first_reason (when_closed (runnable_spec s)) (
    if is_nil (keep (λ n. not (n == own) && not (stage_ok n w)) s.dependency_stages)
    then none
    else some classification)

-- `effective_vpc_id` is what update_vpc_context finds.
pub select_vpc_stage : StageSpec → String → World → World
unfolding conclude first_reason when_closed
select_vpc_stage s effective_vpc_id w =
    conclude s.id
      (first_reason (when_closed (runnable_spec s))
        (if effective_vpc_id == "" then some "vpc_selection_failed" else none))
      w

pub validate_instance_password_policy_stage : (String → Bool) → StageSpec → List ℕ → World → World
unfolding conclude first_reason when_closed
validate_instance_password_policy_stage input_configured s password w =
    conclude s.id
      (first_reason (when_closed (spec_preflight input_configured (λ n. stage_ok n w) s))
        (if password_policy_valid password then none else some "instance_password_policy_invalid"))
      w

-- `image_of` says whether an image of the label is set or was discovered.
pub resolved_instance_labels : Bool → (String → Bool) → List String
resolved_instance_labels require_all image_of =
    keep (λ label. image_of label || require_all) instance_image_matrix

pub record HostnameEntry : Type 0 where
  pub os_label : String
  pub resource_name : String
  pub guest_hostname : String
  pub hostname_valid : Bool
  pub validation_errors : List HostnameError

-- `resource_name_of` is matrix_instance_name, `random` what hostname_random gives for a label, and
-- the others are the hostname policy.
module _ (resource_name_of random : String → String) (policy_length : String → ℕ)
    (matches : String → String → Bool) where
  hostname_entry : String → HostnameEntry
  hostname_entry label =
      let hostname = guest_hostname_for_label (random label) label in
      let errors = validate_guest_hostname (policy_length label) (matches label) label hostname in
      record {
        os_label = label;
        resource_name = resource_name_of label;
        guest_hostname = hostname;
        hostname_valid = is_nil errors;
        validation_errors = errors;
      }

  -- The validated hostnames, which are empty if the stage does not get so far, and the world.
  pub validate_instance_hostname_stage :
      StageSpec → List String → World → List HostnameEntry × World
  unfolding conclude gate first_reason hostname_entry
  validate_instance_hostname_stage s labels w =
      let entries = map hostname_entry labels in
      let open_ = gate "compute.validate-instance-hostname" "instance_hostname_invalid" s w in
      let failed = any (λ e. not e.hostname_valid) entries in
      (
        (elim open_ [ none ↦ entries | some c ↦ [] ]),
        conclude s.id
            (first_reason open_ (if failed then some "instance_hostname_invalid" else none)) w,
      )

-- The keys of the round that the selection sets; the others are empty at first.
pub record SelectedRound : Type 0 where
  pub instances_per_apply : ℕ
  pub selected_images : List String
  pub unavailable_images : List String
  pub apply_requested_instance_count : ℕ

-- `labels` are those of the validated instances that are not empty, `discovered` says whether an
-- image was found, `order` is the configured order and `per_apply` the configured number.
pub select_instance_round_stage :
    StageSpec
    → List String
    → (String → Bool)
    → List String
    → ℕ
    → World
    → Option SelectedRound × World
unfolding conclude gate first_reason
select_instance_round_stage s labels discovered order per_apply w =
    let selected = keep (λ l. mem l labels) order in
    let open_ = gate "compute.select-instance-round" "instance_image_unresolved" s w in
    (
      (elim open_ [
        | none ↦ some (record {
          instances_per_apply = per_apply;
          selected_images = selected;
          unavailable_images =
              keep (λ l. not (mem l labels) && not (discovered l)) instance_image_matrix;
          apply_requested_instance_count = min per_apply (length selected);
        })
        | some c ↦ none
      ]),
      conclude s.id
          (first_reason open_ (if is_nil selected then some "instance_image_unresolved" else none))
          w,
    )

-- What the reading of created-instances.json gives: labels and ids.
pub data CreatedFile : Type 0 where
  unreadable : CreatedFile
  records : List (String × String) → CreatedFile

validated : List String → CreatedFile → Option String
validated successful unreadable = some "instance_validation_failed"
validated successful (records rs) =
    if (is_nil successful && is_nil rs) || any (λ r. r.1 == "") rs
    then some "instance_validation_failed"
    else none

-- A file that does not exist has no records.
pub validate_instance_active_stage : StageSpec → List String → CreatedFile → World → World
unfolding conclude first_reason when_closed validated
validate_instance_active_stage s successful file w =
    conclude s.id
      (first_reason (when_closed (runnable_spec s)) (
        first_reason
          (if is_nil (keep (λ n. not (n == s.id) && not (stage_ok n w)) s.dependency_stages)
            then none
            else some "instance_validation_failed")
          (validated successful file)))
      w
