-- ===== src/Stage/Tests.antt =====
-- A stage that makes a machine, with its input and its dependency there.
use fptcloud_hc_automation_m.Base.{String, Bool, true, false, some, [], ◌∷◌, ◌≡◌, ◌↔◌, ◌==◌, all}
use fptcloud_hc_automation_m.Stage.{StageSpec, opened, check_from_spec, preflight}
use fptcloud_hc_automation_m.Stage.Laws.{IsRunnable, made, runs_iff}

abbrev stage : StageSpec
stage = record {
  id = "instance.create";
  automation_status = "automated";
  required_inputs = "HC_IMAGE" ∷ [];
  required_cloud_resources = "vm" ∷ [];
  cleanup_behavior = "Destroy the VM";
  dependency_stages = "subnet" ∷ [];
  safe_for_daily_run = true;
}

abbrev configured : String → Bool
configured n = n == "HC_IMAGE"

abbrev done_ : String → Bool
done_ n = n == "subnet"

abbrev has_name : String → String → Bool
has_name vars n = n == "name"

abbrev has_region : String → Bool
has_region vars = false

runs_iff_example :
    ((check_from_spec configured done_ stage "vm" "" ("name" ∷ [])
        ≡ some (made configured done_ configured has_name has_region stage "vm" "" ("name" ∷ [])))
      × (preflight configured done_ has_name has_region
            (made configured done_ configured has_name has_region stage "vm" "" ("name" ∷ []))
          ≡ opened))
    ↔ (IsRunnable configured done_ stage
        × (all (has_name "") ("name" ∷ []) ≡ true)
        × (("vm" == "object_storage") ≡ true → has_region "" ≡ true))
runs_iff_example =
    runs_iff configured done_ configured has_name has_region stage "vm" "" ("name" ∷ [])
