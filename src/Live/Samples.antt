-- ===== src/Live/Samples.antt =====
-- A world, a workspace's state and terraforms for the tests.
use fptcloud_hc_automation_m.Base.{String, Option, some, [], ◌==◌, if◌then◌else◌}
use fptcloud_hc_automation_m.Queue.Json.{Json, str, arr, obj, nil, cons, end, member}
use fptcloud_hc_automation_m.Live.{World, Terraform, init}

abbrev pub as_text : Json → String
as_text (str s) = s
as_text _ = ""

abbrev pub empty_world : World
empty_world = record {
  given = [];
  events = [];
  stage_status = [];
  pending_queue = [];
  error_queue = [];
}

-- The state of a workspace with one instance.
abbrev pub instance_state : Json
instance_state = obj (
    member "values"
      (obj (
        member "root_module"
          (obj (
            member "resources"
              (arr (
                cons
                  (obj (
                    member "type" (str "fptcloud_instance") (
                      member "values"
                        (obj (member "id" (str "i-1") (member "name" (str "hcw1") end))) end)))
                  nil))
              end))
          end))
      end)

abbrev pub reading : String → Option Json
reading s = some instance_state

abbrev pub obeying : Terraform
obeying given c = record { returncode = 0; stdout = ""; stderr = "" }

-- In the workspace "b" terraform cannot be initialised.
abbrev pub partly : Terraform
partly given c = elim c.operation [
  | init ↦
      (if c.workspace == "b"
        then record { returncode = 1; stdout = ""; stderr = "no provider" }
        else record { returncode = 0; stdout = ""; stderr = "" })
  | _ ↦ record { returncode = 0; stdout = ""; stderr = "" }
]
