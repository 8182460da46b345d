-- ===== src/Classification.antt =====
-- Classification of failures: by the provider's words (classify_error of
-- src/healthcheck/classification.py), and by the executor's patterns (Classification/Patterns).
pub mod Patterns
mod Laws
mod Tests
use fptcloud_hc_automation_m.Base.{
  ℕ, String, Bool, true, false, ◌&&◌, ◌||◌, List, ◌==◌, if◌then◌else◌, codes, lower, within,
}

pub data Failure : Type 0 where
  subnet_cidr_overlap : Failure
  backend_error_after_valid_inputs : Failure
  endpoint_or_datasource_mismatch : Failure
  backend_system_error : Failure
  object_storage_region_disabled : Failure
  instance_storage_quota_exceeded : Failure
  instance_quota_exceeded : Failure
  instance_image_unresolved : Failure
  instance_flavor_unresolved : Failure
  instance_password_policy_invalid : Failure
  instance_password_missing : Failure
  instance_provider_error : Failure
  blocked_missing_subnet_id : Failure
  configuration_missing : Failure
  unknown : Failure

pub is_quota_error : Failure → Bool
is_quota_error instance_storage_quota_exceeded = true
is_quota_error instance_quota_exceeded = true
is_quota_error _ = false

-- `part in lowered`
abbrev pub has : String → List ℕ → Bool
has part lowered = within (codes part) lowered

pub says_unresolved : List ℕ → Bool
says_unresolved lowered =
    has "not found" lowered
    || has "no match" lowered
    || has "invalid" lowered
    || has "unresolved" lowered

pub says_quota : List ℕ → Bool
says_quota lowered = has "quota" lowered || has "exceed" lowered || has "insufficient" lowered

-- The rules after those about quotas.
after_quota : List ℕ → Failure
after_quota lowered =
    if has "image" lowered && says_unresolved lowered
    then instance_image_unresolved
    else if has "flavor" lowered && says_unresolved lowered
    then instance_flavor_unresolved
    else if has "password policy" lowered
        || has "password_policy" lowered
        || has "exceeded password" lowered
    then instance_password_policy_invalid
    else if has "password" lowered && (has "missing" lowered || has "required" lowered)
    then instance_password_missing
    else if has "fptcloud_instance" lowered
        || has "module.vm" lowered
        || has "module.this.fptcloud_instance" lowered
    then instance_provider_error
    else if has "subnet id is required" lowered
    then blocked_missing_subnet_id
    else if has "missing required" lowered
    then configuration_missing
    else unknown

-- `validated` is whether the stage that validates the subnet is done.
pub classify_error : Bool → String → String → Failure
classify_error validated text resource_type =
    let lowered = lower text in
    if has "error_code\":\"804007" lowered
      || has "error_code=804007" lowered
      || (has "804007" lowered && has "overlap" lowered)
    then subnet_cidr_overlap
    else if resource_type == "module.subnet"
        && validated
        && (has "failed to create a new subnet" lowered || has "fptcloud_subnet" lowered)
    then backend_error_after_valid_inputs
    else if resource_type == "fptcloud_storage_policy" && has "404" lowered
    then endpoint_or_datasource_mismatch
    else if has "unknownerror" lowered || has "system error" lowered
    then backend_system_error
    else if has "region" lowered && has "not enabled" lowered
    then object_storage_region_disabled
    else if (has "storage" lowered || has "disk" lowered) && says_quota lowered
    then instance_storage_quota_exceeded
    else if says_quota lowered
    then instance_quota_exceeded
    else after_quota lowered
