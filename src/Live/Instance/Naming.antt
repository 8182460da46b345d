-- ===== src/Live/Instance/Naming.antt =====
-- The names and tags of the instances that a run creates (src/healthcheck/instance_runner.py).
pub mod Laws
pub mod Policy
mod Tests
use Prim.Native.Char.{Char, code}
use Prim.Native.String.{◌++◌ as text_append}
use fptcloud_hc_automation_m.Base.{
  ℕ, zero, suc, ◌+◌, ◌-◌, String, Bool, true, false, List, [], ◌∷◌, ◌==◌, if◌then◌else◌, codes,
  is_prefix, split_on, is_digits, leb, length, Dict,
}

-- The labels of INSTANCE_IMAGE_MATRIX (src/healthcheck/state.py).
pub instance_image_matrix : List String
instance_image_matrix =
    "windows-2012" ∷ "windows-2016" ∷ "windows-2019" ∷ "windows-2022" ∷ "ubuntu-16-04"
    ∷ "ubuntu-18-04" ∷ "ubuntu-20-04" ∷ "ubuntu-22-04" ∷ []

-- `run_id` is RUN_ID.
pub build_hc_instance_tags : String → String → String → String → Dict String
build_hc_instance_tags run_id vpc_name os_label created_at =
    ("managed_by", "health-check")
    ∷ ("health_check", "true")
    ∷ ("hc_run_id", run_id)
    ∷ ("hc_created_at", created_at)
    ∷ ("hc_vpc_name", vpc_name)
    ∷ ("hc_os_label", os_label)
    ∷ []

pub data Family : Type 0 where
  windows : Family
  linux : Family

pub os_family : String → Family
os_family label = if is_prefix (codes "windows-") (codes label) then windows else linux

joined_digits : List String → String
joined_digits [] = ""
joined_digits (p ∷ ps) =
    let rest = joined_digits ps in if is_digits p then text_append p rest else rest

pub label_version_token : String → String
unfolding joined_digits
label_version_token label = joined_digits (split_on b'-' label)

-- text[:n]
first_chars : ℕ → String → String
first_chars zero s = ""
first_chars (suc n) String.[] = ""
first_chars (suc n) (String.◌∷◌ c s) = String.◌∷◌ c (first_chars n s)

-- text.replace(old, new), where the number is that of the characters of `old` still to be passed.
replaced : ℕ → String → String → String → String
replaced skip old new String.[] = ""
replaced (suc skip) old new (String.◌∷◌ c s) = replaced skip old new s
replaced zero old new (String.◌∷◌ c s) =
    let after = replaced (length (codes old) - 1) old new s in
    let rest = replaced zero old new s in
    if is_prefix (codes old) (code c ∷ codes s) then text_append new after else String.◌∷◌ c rest

name_of : Family → String → String → String
unfolding label_version_token first_chars replaced
name_of windows label random =
    text_append "hcw" (text_append (first_chars 4 (label_version_token label)) random)
name_of linux label random =
    text_append "hcl-" (
      text_append (replaced 0 "-" "" (replaced 0 "ubuntu-" "ubuntu" label))
        (text_append "-" random))

-- `random` is what hostname_random gives.
pub guest_hostname_for_label : String → String → String
unfolding name_of os_family
guest_hostname_for_label random label = name_of (os_family label) label random

-- An instance's hostname errors: its length, and the pattern, for which `matches` is re.fullmatch
-- with the policy's pattern.
pub data HostnameError : Type 0 where
  too_long : ℕ → ℕ → HostnameError
  no_match : HostnameError

default_length : Family → ℕ
default_length windows = 15
default_length linux = 63

-- The number is the policy's `max_length`, 0 if it has none.
pub validate_guest_hostname : ℕ → (String → Bool) → String → String → List HostnameError
unfolding default_length os_family
validate_guest_hostname policy_length matches label hostname =
    let limit = if leb policy_length 0 then default_length (os_family label) else policy_length in
    let pattern : List HostnameError = if matches hostname then [] else no_match ∷ [] in
    if leb (length (codes hostname)) limit
    then pattern
    else too_long (length (codes hostname)) limit ∷ pattern
