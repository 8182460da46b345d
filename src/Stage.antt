-- ===== src/Stage.antt =====
-- The gates before a stage of the catalog runs (src/healthcheck/spec_loader.py). The environment,
-- the run's context and the stages done are arguments.
mod Laws
mod Tests
pub mod Select
use fptcloud_hc_automation_m.Base.{
  String, Bool, true, false, not, ◌&&◌, ◌||◌, Option, none, some, List, [], ◌∷◌, ◌==◌,
  if◌then◌else◌, any, keep, codes, lower, within,
}

pub record StageSpec : Type 0 where
  pub id : String
  pub automation_status : String
  pub required_inputs : List String
  pub required_cloud_resources : List String
  pub cleanup_behavior : String
  pub dependency_stages : List String
  pub safe_for_daily_run : Bool

pub record Check (V : Type 0) : Type 0 where
  pub name : String
  pub module_name : String
  pub vars : V
  pub required_env : List String
  pub required_vars : List String
  pub blocked_by : List String

-- Why a gate is closed: what it says with its list of names.
pub data Reason : Type 0 where
  not_automated : String → Reason
  unsafe : Reason
  no_safe_cleanup : Reason
  missing_inputs : List String → Reason
  blocked : List String → Reason
  missing_env : List String → Reason
  no_region : Reason
  missing_vars : List String → Reason

pub data Gate : Type 0 where
  opened : Gate
  closed : Reason → Gate

abbrev is_empty : List String → Bool
is_empty [] = true
is_empty (_ ∷ _) = false

pub safe_cleanup : String → Bool
safe_cleanup behavior =
    let cleanup = lower behavior in
    within (codes "destroy") cleanup
    || within (codes "no resources") cleanup
    || within (codes "retain") cleanup
    || within (codes "quota cleanup") cleanup

pub runnable_spec : StageSpec → Gate
runnable_spec s =
    if not (s.automation_status == "automated")
    then closed (not_automated s.automation_status)
    else if not s.safe_for_daily_run
    then closed unsafe
    else if not (is_empty s.required_cloud_resources) && not (safe_cleanup s.cleanup_behavior)
    then closed no_safe_cleanup
    else opened

-- `input_configured` and `stage_ok` read the run's state.
module _ (input_configured stage_ok : String → Bool) where
  then_inputs : StageSpec → Gate
  then_inputs s =
      let missing = keep (λ n. not (input_configured n)) s.required_inputs in
      let waiting = keep (λ n. not (stage_ok n)) s.dependency_stages in
      if not (is_empty missing)
      then closed (missing_inputs missing)
      else if not (is_empty waiting)
      then closed (blocked waiting)
      else opened

  abbrev and_then : Gate → Gate → Gate
  and_then opened g = g
  and_then (closed reason) g = closed reason

  pub spec_preflight : StageSpec → Gate
  unfolding then_inputs
  spec_preflight s = and_then (runnable_spec s) (then_inputs s)

  abbrev if_open {ℓ} : {A : Type ℓ} → Gate → A → Option A
  if_open opened a = some a
  if_open (closed reason) a = none

  pub check_from_spec : {V : Type 0} → StageSpec → String → V → List String → Option (Check V)
  check_from_spec s module_name vars required_vars = if_open (spec_preflight s) (record {
    name = s.id;
    module_name = module_name;
    vars = vars;
    required_env = [];
    required_vars = required_vars;
    blocked_by = [];
  })

-- `has_env` says whether a variable of the environment is set, `has_var` whether one of the check
-- is neither missing nor empty, `has_region` the same of its region.
pub preflight :
    {V : Type 0} (has_env stage_ok : String → Bool) (has_var : V → String → Bool)
    (has_region : V → Bool)
    → Check V
    → Gate
preflight has_env stage_ok has_var has_region c =
    let unset = keep (λ n. not (has_env n)) c.required_env in
    let waiting = keep (λ n. not (stage_ok n)) c.blocked_by in
    let empty = keep (λ n. not (has_var c.vars n)) c.required_vars in
    if not (is_empty unset)
    then closed (missing_env unset)
    else if not (is_empty waiting)
    then closed (blocked waiting)
    else if c.module_name == "object_storage" && not (has_region c.vars)
    then closed no_region
    else if not (is_empty empty)
    then closed (missing_vars empty)
    else opened
