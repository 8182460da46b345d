-- ===== src/Validator/InVm.antt =====
-- InVMValidator: where a probe connects, what command it runs and what its outcome says. The
-- connection itself (paramiko, pywinrm) is the argument `probe`.
pub mod Quoting
pub mod Laws
mod Tests
use Prim.Native.Char.{Char, code}
use Prim.Native.String.{◌++◌ as text_append}
use fptcloud_hc_automation_m.Base.{
  ℕ, zero, suc, ◌+◌, String, Bool, true, false, not, ◌&&◌, ◌||◌, Option, none, some, List, [], ◌∷◌,
  ◌++◌, ◌==◌, if◌then◌else◌, eqb, codes, same_codes, lower, within, strip, Dict, lookup,
}
use fptcloud_hc_automation_m.Queue.Json.{Json, null, str, num, Members, end, member, get}
use fptcloud_hc_automation_m.Validator.Model.{
  Verdict, pass, fail, inconclusive, ValidationResult, result, ExpectedAssertion, Runtime, TfState,
  TfResource, note, expected_exit_code, file_not_found, expected_stdout, get_output,
}
use fptcloud_hc_automation_m.Validator.Match.{is_empty, string_match}
use fptcloud_hc_automation_m.Validator.State.{resolve_path}

pub data Transport : Type 0 where
  ssh : Transport
  winrm : Transport

pub record Connection : Type 0 where
  pub transport : Transport
  pub host : String
  pub port : ℕ
  pub username : String
  pub password : Option String
  pub private_key_path : Option String
  pub timeout_seconds : ℕ

pub record ProbeOutput : Type 0 where
  pub stdout : String
  pub exit_code : ℕ

-- The exceptions that `evaluate` handles, with their text.
pub data ProbeError : Type 0 where
  auth_error : String → ProbeError
  connection_error : String → ProbeError
  config_error : String → ProbeError
  dependency_missing : String → ProbeError

-- What a client does with a command: it finishes, it raises, or it is not installed.
pub data Raw : Type 0 where
  finished : String → String → ℕ → Raw
  client_error : String → String → Raw
  no_client : String → Raw

pub data Result {ℓ} (A : Type ℓ) : Type ℓ where
  ok : A → Result A
  raised : ProbeError → Result A

infixl 5 ◌>>=◌
abbrev pub ◌>>=◌ {ℓ κ} : {A : Type ℓ} {B : Type κ} → Result A → (A → Result B) → Result B
ok a >>= f = f a
raised e >>= f = raised e

-- `a or b` on optional texts: the empty text is passed over.
abbrev pub or_text : Option String → Option String → Option String
or_text none b = b
or_text (some s) b = if s == "" then b else some s

abbrev pub text_or : Option String → String → String
text_or none d = d
text_or (some s) d = if s == "" then d else s

abbrev pub or_default : Option ℕ → ℕ → ℕ
or_default none d = d
or_default (some n) d = if eqb n 0 then d else n

-- `task_os` is `str(task.spec.get("vars", {}).get("os", ""))`.
pub in_vm_transport : String → ExpectedAssertion → Transport
in_vm_transport task_os a =
    let lowered = lower (text_or (or_text a.transport a.os_type) task_os) in
    if same_codes lowered (codes "winrm") || within (codes "windows") lowered then winrm else ssh

-- s.replace("'", by)
unfoldable pub replace_quote : String → String → String
replace_quote by String.[] = String.[]
replace_quote by (String.◌∷◌ c s) =
    let rest = replace_quote by s in
    if eqb (code c) 39 then text_append by rest else String.◌∷◌ c rest

abbrev given : Option String → Bool
given none = false
given (some s) = not (s == "")

unfoldable pub file_command : Transport → String → String
file_command winrm path =
    text_append "if (Test-Path -LiteralPath '"
      (text_append (replace_quote "''" path) "') { 'true' } else { 'false' }")
file_command ssh path =
    text_append "test -e '"
      (text_append (replace_quote "'\"'\"'" path) "' && echo true || echo false")

plain_command : Option String → Result String
plain_command none = raised (config_error "in-VM probe requires command, probe, or file_exists")
plain_command (some c) = ok c

pub build_command : ExpectedAssertion → Transport → Result String
unfolding plain_command
build_command a t =
    if given a.file_exists
    then ok (file_command t (text_or a.file_exists ""))
    else plain_command (or_text (or_text a.command a.probe) none)

first_of_instances : List Members → Option Members
first_of_instances [] = none
first_of_instances (a ∷ _) = some a

abbrev orelse {ℓ} : {A : Type ℓ} → Option A → Option A → Option A
orelse none b = b
orelse (some a) b = some a

instance_attrs : List TfResource → Option Members
unfolding first_of_instances
instance_attrs [] = none
instance_attrs (res ∷ rest) =
    let later = instance_attrs rest in
    if res.type == "fptcloud_instance"
    then orelse (first_of_instances res.instances) later
    else later

any_attrs : List TfResource → Option Members
unfolding first_of_instances
any_attrs [] = none
any_attrs (res ∷ rest) = orelse (first_of_instances res.instances) (any_attrs rest)

pub first_instance_attrs : Option TfState → Members
unfolding instance_attrs any_attrs
first_instance_attrs none = end
first_instance_attrs (some st) =
    elim (orelse (instance_attrs st.resources) (any_attrs st.resources)) [ none ↦ end | some a ↦ a ]

abbrev exit_ok : Option ℕ → ℕ → Bool
exit_ok none n = true
exit_ok (some m) n = eqb n m

abbrev stdout_ok : Option String → String → Bool
stdout_ok none out = true
stdout_ok (some part) out = within (codes part) (codes out)

module _ (py : Runtime) where
  -- A value that is neither `None` nor the empty text, as text.
  abbrev present_text : Option Json → Option String
  present_text none = none
  present_text (some v) = if is_empty v then none else some (py.text_of v)

  pub first_present : Members → List String → Option String
  first_present attrs [] = none
  first_present attrs (k ∷ ks) = orelse (present_text (get k attrs)) (first_present attrs ks)

  abbrev ip_keys : List String
  ip_keys =
      "public_ip" ∷ "public_ip_address" ∷ "floating_ip" ∷ "floating_ip_address" ∷ "access_ip_v4"
      ∷ "ip_address" ∷ "private_ip" ∷ []

  abbrev output_ips : TfState → Members
  output_ips st = member "public_ip" (get_output "public_ip" st) (
      member "fip_address" (get_output "fip_address" st) (
        member "ip_address" (get_output "ip_address" st)
          (member "private_ip" (get_output "private_ip" st) end)))

  abbrev path_host : Option TfState → Option String → Option String
  path_host (some st) (some p) =
      if p == ""
      then none
      else (elim (resolve_path py st p) [ none ↦ none | some v ↦ some (py.text_of v) ])
  path_host _ _ = none

  abbrev output_host : Option TfState → Option String
  output_host none = none
  output_host (some st) =
      first_present (output_ips st) ("public_ip" ∷ "fip_address" ∷ "ip_address" ∷ "private_ip" ∷ [])

  -- The host as the four sources give it, in order.
  pub resolved_host : Option TfState → ExpectedAssertion → Option String
  resolved_host st a = orelse a.host (
      orelse (path_host st a.host_path)
        (orelse (first_present (first_instance_attrs st) ip_keys) (output_host st)))

  abbrev default_user : Transport → String
  default_user winrm = "Administrator"
  default_user ssh = "ubuntu"

  abbrev default_port : Transport → ℕ
  default_port winrm = 5985
  default_port ssh = 22

  pub connection_to : Transport → Option TfState → ExpectedAssertion → String → Connection
  connection_to t st a host =
      let attrs = first_instance_attrs st in
      let user =
        or_text a.username
          (first_present attrs ("username" ∷ "admin_username" ∷ "user" ∷ "default_user" ∷ [])) in
      record {
        transport = t;
        host = host;
        port = or_default a.port (default_port t);
        username = elim user [ none ↦ default_user t | some u ↦ u ];
        password = or_text a.password (first_present attrs ("password" ∷ "admin_password" ∷ []));
        private_key_path = a.private_key_path;
        timeout_seconds = or_default a.timeout_seconds 30;
      }

  pub resolve_connection : String → Option TfState → ExpectedAssertion → Result Connection
  unfolding connection_to
  resolve_connection task_os st a =
      let t = in_vm_transport task_os a in
      let host = text_or (resolved_host st a) "" in
      if host == ""
      then raised (config_error "in-VM probe requires host or host_path")
      else ok (connection_to t st a host)

  -- A client either gives the two streams and the exit code, or raises an exception of a class.
  -- `int(...)` and the decoding of the streams are the client's.
  combine : String → String → String
  combine stdout stderr =
      if stderr == "" then stdout else strip (text_append stdout (text_append "\n" stderr))

  error_text : String → String → String
  error_text class_name message = if message == "" then class_name else message

  ssh_error : String → String → ProbeError
  ssh_error class_name message =
      let text = error_text class_name message in
      if within (codes "auth") (lower class_name) || within (codes "authentication") (lower text)
      then auth_error (text_append "SSH authentication failed: " text)
      else connection_error (text_append "SSH probe failed: " text)

  winrm_error : String → String → ProbeError
  winrm_error class_name message =
      let text = error_text class_name message in
      if within (codes "auth") (lower class_name)
        || within (codes "unauthorized") (lower class_name)
        || within (codes "401") (codes text)
      then auth_error (text_append "WinRM authentication failed: " text)
      else connection_error (text_append "WinRM probe failed: " text)

  pub raw_error : Transport → String → String → ProbeError
  raw_error winrm class_name message = winrm_error class_name message
  raw_error ssh class_name message = ssh_error class_name message

  -- The client is made inside of WinRM's `try`, and before SSH's.
  missing_client : Transport → String → ProbeError
  missing_client winrm reason = winrm_error "ProbeDependencyMissing" reason
  missing_client ssh reason = dependency_missing reason

  pub run_probe : Connection → Raw → Result ProbeOutput
  unfolding combine missing_client raw_error
  run_probe conn (finished stdout stderr exit_code) =
      ok (record { stdout = combine stdout stderr; exit_code = exit_code })
  run_probe conn (client_error class_name message) =
      raised (raw_error conn.transport class_name message)
  run_probe conn (no_client reason) = raised (missing_client conn.transport reason)

  pub evaluate_output : ProbeOutput → ExpectedAssertion → ValidationResult
  evaluate_output out a =
      if not (exit_ok a.exit_code out.exit_code)
      then result fail (expected_exit_code (or_default a.exit_code 0) out.exit_code)
      else if given a.file_exists && not (within (codes "true") (lower out.stdout))
      then result fail (file_not_found (text_or a.file_exists ""))
      else if not (stdout_ok a.stdout_contains out.stdout)
      then result fail (expected_stdout (text_or a.stdout_contains "") out.stdout)
      else string_match py (str out.stdout) a

  -- What a raised error makes of the verdict. `lowered` is the assertion's transport, or else its
  -- os_type, in lower case.
  abbrev pub windows_host : ExpectedAssertion → Bool
  windows_host a =
      let lowered = lower (text_or (or_text a.transport a.os_type) "") in
      same_codes lowered (codes "winrm") || within (codes "windows") lowered

  pub error_result : ExpectedAssertion → ProbeError → ValidationResult
  error_result a (auth_error m) = result fail (note m)
  error_result a (connection_error m) =
      result (if windows_host a then fail else inconclusive) (note m)
  error_result a (config_error m) = result fail (note m)
  error_result a (dependency_missing m) = result inconclusive (note m)

  abbrev settled : ExpectedAssertion → Result ProbeOutput → ValidationResult
  settled a (ok out) = evaluate_output out a
  settled a (raised e) = error_result a e

  -- `custom` is the configured probe runner's outcome, if there is a runner.
  pub evaluate_in_vm :
      Option (Result ProbeOutput)
      → (Connection → String → Raw)
      → String
      → Option TfState
      → ExpectedAssertion
      → ValidationResult
  evaluate_in_vm (some out) probe task_os st a = settled a out
  evaluate_in_vm none probe task_os st a = settled a (do
    connection ← resolve_connection task_os st a
    command ← build_command a connection.transport
    run_probe connection (probe connection command))
