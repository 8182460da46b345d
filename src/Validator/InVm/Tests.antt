-- ===== src/Validator/InVm/Tests.antt =====
-- A file test over SSH, and a task on Windows.
use fptcloud_hc_automation_m.Validator.InVm.{error_result}
use fptcloud_hc_automation_m.Validator.InVm.{winrm_error}
use fptcloud_hc_automation_m.Validator.InVm.{error_text}
use fptcloud_hc_automation_m.Base.{ℕ, String, none, some, ◌≡◌, ◌↔◌, refl, codes, within, lower}
use fptcloud_hc_automation_m.Queue.Json.{str, get}
use fptcloud_hc_automation_m.Validator.Model.{pass, fail, ExpectedAssertion, bare, Runtime}
use fptcloud_hc_automation_m.Validator.InVm.{
  Connection, ssh, winrm, Raw, finished, client_error, no_client, resolve_connection, build_command,
  run_probe, evaluate_in_vm, ok, in_vm_transport, resolved_host, first_present,
  first_instance_attrs,
}
use fptcloud_hc_automation_m.Validator.InVm.Laws.{
  OutputMeets, evaluate_in_vm_iff, IsConnection, IsCommand, joined,
}

-- Of Python's own operations the examples use none but these.
abbrev py : Runtime
py = record {
  text_of = λ v. elim v [ str s ↦ s | _ ↦ "?" ];
  re_search = λ pattern s. within (codes pattern) (codes s);
  int_of = λ s. none;
  attribute = λ v k. none;
}

abbrev vm_file : ExpectedAssertion
vm_file = record (bare "in_vm") { host = some "10.0.0.1"; file_exists = some "/a b" }

abbrev answers : Connection → String → Raw
answers c command = finished "true" "" 0

abbrev breaks : Connection → String → Raw
breaks c command = client_error "TimeoutError" "timed out"

evaluate_in_vm_iff_example : ((evaluate_in_vm py none answers "" none vm_file).verdict ≡ pass) ↔ (
    (c : Connection) × (command stdout stderr : String) × (code : ℕ) × IsConnection py "" none
      vm_file c
    × IsCommand vm_file c.transport command
    × (answers c command ≡ finished stdout stderr code)
    × OutputMeets py (record { stdout = joined stdout stderr; exit_code = code }) vm_file)
evaluate_in_vm_iff_example = evaluate_in_vm_iff py answers "" none vm_file

abbrev ssh_connection : Connection
ssh_connection = record {
  transport = ssh;
  host = "10.0.0.1";
  port = 22;
  username = "ubuntu";
  password = none;
  private_key_path = none;
  timeout_seconds = 30;
}

vm_file_connects : resolve_connection py "" none vm_file ≡ ok ssh_connection
unfolding resolve_connection resolved_host in_vm_transport first_present lower get within
    first_instance_attrs
vm_file_connects = refl

-- The task, not the assertion, says Windows.
abbrev windows_connection : Connection
windows_connection = record {
  transport = winrm;
  host = "10.0.0.1";
  port = 5985;
  username = "Administrator";
  password = none;
  private_key_path = none;
  timeout_seconds = 30;
}

windows_task_connects :
    resolve_connection py "Windows Server 2022" none vm_file ≡ ok windows_connection
unfolding resolve_connection resolved_host in_vm_transport first_present lower get within
    first_instance_attrs
windows_task_connects = refl

-- A client of WinRM that is missing is a connection error, which is conclusive where the assertion
-- names Windows.
abbrev windows_file : ExpectedAssertion
windows_file = record vm_file { os_type = some "windows" }

missing_winrm_fails :
    (evaluate_in_vm py none
      (λ c command. no_client "pywinrm is required")
      ""
      none
      windows_file).verdict
    ≡ fail
unfolding evaluate_in_vm resolve_connection resolved_host build_command run_probe error_result
    in_vm_transport lower within winrm_error error_text
missing_winrm_fails = refl
