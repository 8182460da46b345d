-- ===== src/Live/Instance/Attempt.antt =====
-- One attempt to create the instance of one image (_execute_one_image_attempt). The diagnostics and
-- the failure's context only fill messages, and are left out with them.
pub mod Laws
mod Tests
use fptcloud_hc_automation_m.Base.{
  ℕ, String, Bool, true, false, Option, none, some, List, [], ◌∷◌, ◌++◌, ◌==◌, ◌>>=◌, if◌then◌else◌,
  eqb, leb, ◌||◌, ◌+◌, Dict, insert, map,
}
use Prim.Native.String.{◌++◌ as text_append}
use fptcloud_hc_automation_m.Queue.Json.{Json}
use fptcloud_hc_automation_m.Classification.{Failure, classify_error, is_quota_error}
use fptcloud_hc_automation_m.Live.{
  World, Terraform, Completed, QueueItem, succeeds, output_of, answer, give, emit, queue_error,
  queue_pending, init, plan, apply, destroy,
}
use fptcloud_hc_automation_m.Live.Workspace.{
  state_resources, planned_resources, instance_id_from_state, readiness,
}
use fptcloud_hc_automation_m.Live.Cleanup.{retain_instance}
use fptcloud_hc_automation_m.Live.Pending.{wait_for_pending}

-- An entry of the validated instances: its label as it stands ("" if it has none), and its vars.
pub record Image : Type 0 where
  pub raw_label : String
  pub vars : Dict Json

abbrev pub label_of : Image → String
label_of i = if i.raw_label == "" then "instance" else i.raw_label

-- _ImageCreateResult, without `error_code`, which is "" everywhere, and the context.
pub record ImageCreateResult : Type 0 where
  pub label : String
  pub succeeded : Bool
  pub is_quota : Bool
  pub retryable : Bool
  pub classification : Option Failure
  pub terraform_error : String
  pub workspace : String
  pub resources : List String
  pub failed_instance_id : String

-- The keys of the round and of the run's context that an attempt sets; both have
-- `stop_on_quota_exceeded`.
pub record Round : Type 0 where
  pub successful_images : List String
  pub failed_image : String
  pub failure_reason : Option Failure
  pub remaining_images_not_attempted : List String
  pub stop_on_quota_exceeded : Bool

pub record RunContext : Type 0 where
  pub run_status : String
  pub run_blocked : Bool
  pub user_action_required : Bool
  pub failed_image : String
  pub failure_reason : Option Failure
  pub remaining_images_not_attempted : List String
  pub stop_on_quota_exceeded : Bool

-- What the attempts share; `created` is what created-instances.json holds.
pub record Creation : Type 0 where
  pub world : World
  pub round : Round
  pub created : List (String × String)
  pub context : RunContext

unfoldable pub in_world : (World → World) → Creation → Creation
in_world f s = record {
  world = f s.world;
  round = s.round;
  created = s.created;
  context = s.context;
}

abbrev base_resources : List String
base_resources = "module.this.fptcloud_instance.this" ∷ []

abbrev or_list : List String → List String → List String
or_list [] ys = ys
or_list xs ys = xs

-- text[-n:]
text_length : String → ℕ
text_length String.[] = 0
text_length (String.◌∷◌ c s) = text_length s + 1

last_chars : ℕ → String → String
unfolding text_length
last_chars n String.[] = ""
last_chars n (String.◌∷◌ c s) =
    let rest = last_chars n s in if leb (text_length s + 1) n then String.◌∷◌ c s else rest

-- The environment of resolve_instance_image_flavor; `discover` is discover_filtered_value with the
-- filter's key and value ("" if nothing is found), whose own events and commands are left out.
pub record Flavor : Type 0 where
  pub flavor_id : String
  pub flavor_name : String
  pub discover : String → String → String

-- `none` is the error that HC_FLAVOR_ID did not resolve to a flavor's name.
unfoldable pub resolve_instance_image_flavor :
    (String → Json) → Flavor → Dict Json → Option (Dict Json)
resolve_instance_image_flavor text f vars =
    let by_id = f.discover "id" f.flavor_id in
    let by_name = f.discover "name" f.flavor_name in
    if f.flavor_id == ""
    then some (
        if f.flavor_name == "" || by_name == ""
        then vars
        else insert "flavor_name" (text by_name) vars)
    else if by_id == ""
    then none
    else some (insert "flavor_name" (text by_id) vars)

-- What the run is given: the check's name, the configuration, and the code that is not modelled.
-- `workspace_of` gives the workspace of a label and an attempt, `render` the texts of JSON values.
pub record Setting : Type 0 where
  pub check : String
  pub tf : Terraform
  pub text_of : Json → String
  pub loads : String → Option Json
  pub lines : String → List String
  pub workspace_of : String → ℕ → String
  pub flavor : Flavor
  pub delete_after_create : Bool
  pub validated : Bool
  pub rounds : ℕ

module _ (c : Setting) where
  failed_result :
      String
      → Bool
      → Bool
      → Option Failure
      → String
      → String
      → List String
      → String
      → ImageCreateResult
  failed_result label is_quota retryable classification error workspace resources id = record {
    label = label;
    succeeded = false;
    is_quota = is_quota;
    retryable = retryable;
    classification = classification;
    terraform_error = error;
    workspace = workspace;
    resources = resources;
    failed_instance_id = id;
  }

  -- The result when `terraform init` or `terraform plan` fails.
  unapplied : String → String → List String → Completed → ImageCreateResult
  unfolding failed_result last_chars
  unapplied label workspace resources done =
      let reason = last_chars 1200 (output_of done) in
      failed_result label false true (some (classify_error c.validated reason "module.vm")) reason
        workspace resources ""

  -- Readiness: a passed event, or the queue of pending checks, which is waited for.
  settled :
      String → List String → Option (Bool × List String) × World → Option (List String × World)
  settled workspace resources (none, w) = none
  settled workspace resources (some (true, current), w) = some (current, emit c.check "ready" "" w)
  settled workspace resources (some (false, current), w) = do
    after ← wait_for_pending c.text_of c.loads c.lines c.tf c.rounds (
        queue_pending
          (record {
            check = c.check;
            workspace = workspace;
            resources = or_list current resources;
            reason = "";
          })
          w)
    some (current, after)

  -- The end of a creation: the instance is deleted again, or retained.
  deleted_or_retained : String → List String → World → World
  deleted_or_retained workspace resources w =
      let cleanup = text_append c.check ":cleanup" in
      let started = emit cleanup "started" "" w in
      let done = answer c.tf workspace destroy started in
      let after = give workspace destroy started in
      if c.delete_after_create
      then (if succeeds done
          then emit cleanup "destroyed" "" after
          else queue_error
              (record {
                check = cleanup;
                workspace = workspace;
                resources = resources;
                reason = output_of done;
              })
              "instance_cleanup_failed" after)
      else retain_instance c.check false w

  record_success : String → String → Creation → Creation
  record_success label id s = record {
    world = emit c.check "passed" "" s.world;
    round = record {
      successful_images = s.round.successful_images ++ label ∷ [];
      failed_image = s.round.failed_image;
      failure_reason = s.round.failure_reason;
      remaining_images_not_attempted = s.round.remaining_images_not_attempted;
      stop_on_quota_exceeded = s.round.stop_on_quota_exceeded;
    };
    created = if id == "" then s.created else s.created ++ (label, id) ∷ [];
    context = s.context;
  }

  success_result : String → String → List String → ImageCreateResult
  success_result label workspace resources = record {
    label = label;
    succeeded = true;
    is_quota = false;
    retryable = false;
    classification = none;
    terraform_error = "";
    workspace = workspace;
    resources = resources;
    failed_instance_id = "";
  }

  -- After an apply that succeeded; `resources` are those of the plan.
  after_apply : String → String → List String → Creation → Option (ImageCreateResult × Creation)
  unfolding settled deleted_or_retained record_success success_result
  after_apply label workspace resources s =
      let (read, w1) = instance_id_from_state c.text_of c.loads c.lines c.tf workspace s.world in
      do
        id ← read
        let s2 = record_success label id (in_world (λ w. w1) s)
        ready ←
            settled workspace resources
              (readiness c.text_of c.loads c.lines c.tf workspace s2.world)
        let current = or_list ready.0 resources
        some (
          success_result label workspace current,
          in_world (λ w. deleted_or_retained workspace current ready.1) s2,
        )

  record_failure : String → Failure → List String → Creation → Creation
  record_failure label classification remaining s = record {
    world = s.world;
    round = record {
      successful_images = s.round.successful_images;
      failed_image = label;
      failure_reason = some classification;
      remaining_images_not_attempted = remaining;
      stop_on_quota_exceeded = true;
    };
    created = s.created;
    context = s.context;
  }

  block : String → Failure → List String → Creation → Creation
  block label classification remaining s = record {
    world = emit c.check "failed" "" (emit "compute.detect-quota-exceeded" "blocked" "" s.world);
    round = s.round;
    created = s.created;
    context = record {
      run_status = "blocked_waiting_user_confirmation";
      run_blocked = true;
      user_action_required = true;
      failed_image = label;
      failure_reason = some classification;
      remaining_images_not_attempted = remaining;
      stop_on_quota_exceeded = true;
    };
  }

  -- After an apply that failed.
  failed_apply :
      String
      → String
      → List String
      → List String
      → Completed
      → Creation
      → Option (ImageCreateResult × Creation)
  unfolding record_failure block failed_result last_chars
  failed_apply label workspace remaining current done s =
      let raw = last_chars 1000 (output_of done) in
      let classification = classify_error c.validated raw "module.vm" in
      let (read, w1) = instance_id_from_state c.text_of c.loads c.lines c.tf workspace s.world in
      let s2 =
        record_failure label classification remaining
          (in_world (λ w. retain_instance c.check true w1) s) in
      read >>= (λ id.
        if is_quota_error classification
        then some (
          failed_result label true false (some classification) raw workspace current id,
          block label classification remaining s2,
        )
        else some
            (failed_result label false true (some classification) raw workspace current id, s2))

  applying :
      String → String → List String → List String → Creation → Option (ImageCreateResult × Creation)
  unfolding after_apply failed_apply
  applying label workspace planned remaining s =
      let w0 = emit c.check "pending" "" s.world in
      let done = answer c.tf workspace apply w0 in
      let (listed, w1) =
        state_resources c.text_of c.loads c.lines c.tf workspace (give workspace apply w0) in
      let current = or_list listed planned in
      if succeeds done
      then after_apply label workspace planned (in_world (λ w. w1) s)
      else failed_apply label workspace remaining current done (in_world (λ w. w1) s)

  planning : String → String → List String → Creation → Option (ImageCreateResult × Creation)
  unfolding unapplied applying
  planning label workspace remaining s =
      let done = answer c.tf workspace plan s.world in
      let (read, w1) =
        planned_resources c.text_of c.loads c.lines c.tf workspace (give workspace plan s.world) in
      read >>= (λ planned.
        let resources = or_list (map c.text_of planned) base_resources in
        if eqb done.returncode 0 || eqb done.returncode 2
        then applying label workspace resources remaining (in_world (λ w. w1) s)
        else some (unapplied label workspace resources done, in_world (λ w. w1) s))

  initialising : String → String → List String → Creation → Option (ImageCreateResult × Creation)
  unfolding unapplied planning
  initialising label workspace remaining s =
      let w0 = emit c.check "started" "" (emit (text_append c.check ":inputs") "done" "" s.world) in
      let done = answer c.tf workspace init w0 in
      let after = in_world (λ w. give workspace init w0) s in
      if succeeds done
      then planning label workspace remaining after
      else some (unapplied label workspace base_resources done, after)

  -- Only the first pass counts the images that are left.
  pub remaining_after : ℕ → List Image → List String
  remaining_after attempt rest = if eqb attempt 1 then map (λ i. i.raw_label) rest else []

  -- `rest` are the images after this one.
  unfoldable pub attempt_image :
      ℕ → Image → List Image → Creation → Option (ImageCreateResult × Creation)
  unfolding initialising remaining_after failed_result
  attempt_image attempt i rest s =
      let label = label_of i in
      let workspace = c.workspace_of label attempt in
      let unresolved : String =
        "Classification: instance_flavor_unresolved; HC_FLAVOR_ID did not resolve to a flavor name" in
      elim (resolve_instance_image_flavor Json.str c.flavor i.vars) [
        | none ↦ some (
          failed_result label false false (some Failure.instance_image_unresolved) unresolved
              workspace base_resources "",
          in_world (emit c.check "failed" "instance_flavor_unresolved") s,
        )
        | some vars ↦ initialising label workspace (remaining_after attempt rest) s
      ]
