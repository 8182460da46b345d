-- ===== src/Validator/Model.antt =====
-- Verdicts, assertions and the Terraform state (src/hc/models/checkpoint.py,
-- src/hc/executor/models.py). A message is the list of the reasons that it joins with "; ", so the
-- empty message is the empty list.
use fptcloud_hc_automation_m.Base.{
  ℕ, String, Bool, ◌&&◌, Option, none, some, List, [], ◌∷◌, ◌==◌, if◌then◌else◌, Dict, lookup,
}
use fptcloud_hc_automation_m.Queue.Json.{Json, Members}

pub data Verdict : Type 0 where
  pass : Verdict
  fail : Verdict
  inconclusive : Verdict

pub data Reason : Type 0 where
  assertion_passed : Reason
  expected_present : Reason
  expected_absent : Reason
  expected_equal : String → String → Reason
  expected_contain : String → String → Reason
  expected_match : String → String → Reason
  state_unavailable : Reason
  requires_path : Reason
  path_absent : String → Reason
  path_not_found : String → Reason
  note : String → Reason
  expected_exit_code : ℕ → ℕ → Reason
  file_not_found : String → Reason
  expected_stdout : String → String → Reason
  not_configured : Reason
  did_not_run : Reason
  probe_failed : String → Reason
  expected_status : ℕ → ℕ → Reason
  http_status : ℕ → Reason
  no_assertions : Reason
  unknown_validator : String → Reason

pub record ValidationResult : Type 0 where
  pub verdict : Verdict
  pub message : List Reason

abbrev pub result : Verdict → Reason → ValidationResult
result v m = record { verdict = v; message = m ∷ [] }

pub record ExpectedAssertion : Type 0 where
  pub type : String
  pub path : Option String
  pub equals : Option String
  pub contains : Option String
  pub regex_match : Option String
  pub present : Option Bool
  pub absent : Option Bool
  pub probe : Option String
  pub command : Option String
  pub transport : Option String
  pub os_type : Option String
  pub host : Option String
  pub host_path : Option String
  pub port : Option ℕ
  pub username : Option String
  pub password : Option String
  pub private_key_path : Option String
  pub exit_code : Option ℕ
  pub stdout_contains : Option String
  pub file_exists : Option String
  pub manual_note : Option String
  pub url : Option String
  pub status_code : Option ℕ
  pub timeout_seconds : Option ℕ
  pub retries : Option ℕ

-- An assertion of a type, with no condition.
abbrev pub bare : String → ExpectedAssertion
bare t = record {
  type = t;
  path = none;
  equals = none;
  contains = none;
  regex_match = none;
  present = none;
  absent = none;
  probe = none;
  command = none;
  transport = none;
  os_type = none;
  host = none;
  host_path = none;
  port = none;
  username = none;
  password = none;
  private_key_path = none;
  exit_code = none;
  stdout_contains = none;
  file_exists = none;
  manual_note = none;
  url = none;
  status_code = none;
  timeout_seconds = none;
  retries = none;
}

pub record TfResource : Type 0 where
  pub type : String
  pub name : String
  pub instances : List Members

pub record TfState : Type 0 where
  pub resources : List TfResource
  pub outputs : Dict Json
  pub raw : Members

-- The first instance attributes of a resource by type and name.
first_attrs : List Members → Option Members
first_attrs [] = none
first_attrs (a ∷ _) = some a

pub attrs_in : String → String → List TfResource → Option Members
unfolding first_attrs
attrs_in type name [] = none
attrs_in type name (res ∷ rest) =
    let later = attrs_in type name rest in
    if res.type == type && res.name == name
    then (elim (first_attrs res.instances) [ none ↦ later | some a ↦ some a ])
    else later

pub get_resource_attrs : String → String → TfState → Option Members
unfolding attrs_in
get_resource_attrs type name st = attrs_in type name st.resources

-- `None` for an output that is not there.
pub get_output : String → TfState → Json
get_output name st = elim (lookup name st.outputs) [ none ↦ Json.null | some v ↦ v ]

-- Where a list is indexed: `at n` is n, `back n` is -(n + 1).
pub data Index : Type 0 where
  at : ℕ → Index
  back : ℕ → Index

-- What Python itself does: `str(value)`, `re.search(pattern, text)`, `int(text)`, and the value of
-- an attribute of a value that is neither a dictionary nor a list, if it has one.
pub record Runtime : Type 0 where
  pub text_of : Json → String
  pub re_search : String → String → Bool
  pub int_of : String → Option Index
  pub attribute : Json → String → Option Json
