-- ===== src/Live/Cleanup/Tests.antt =====
-- A cleanup that deletes the run's own instance.
use fptcloud_hc_automation_m.Base.{Bool, true, Option, none, some, [], ◌≡◌, refl, mem, within}
use fptcloud_hc_automation_m.Queue.Json.{get, truthy, items}
use fptcloud_hc_automation_m.Live.{World}
use fptcloud_hc_automation_m.Live.Samples.{as_text, empty_world, reading, obeying}
use fptcloud_hc_automation_m.Live.Workspace.{
  instance_id_from_state, instance_state_values, state_json, module_resources, iterate,
}
use fptcloud_hc_automation_m.Live.Cleanup.{cleanup_instance}
use fptcloud_hc_automation_m.Live.Cleanup.Laws.{IsCleanup, cleanup_lem}

abbrev outcome : Option (Bool × World)
outcome =
    cleanup_instance as_text "x1" (λ p. true) reading (λ s. []) obeying true "w" "check"
      "instance_quota_exceeded" "hcw1" "vm-x1" empty_world

abbrev world_of : Option (Bool × World) → World
world_of none = empty_world
world_of (some p) = p.1

cleanup_ends : outcome ≡ some (true, world_of outcome)
unfolding cleanup_instance instance_id_from_state instance_state_values state_json module_resources
    get iterate items mem truthy within
cleanup_ends = refl

cleanup_lem_example :
    IsCleanup as_text "x1"
      (λ p. true)
      reading
      (λ s. [])
      obeying
      true
      "w"
      "instance_quota_exceeded"
      "hcw1"
      "vm-x1"
      empty_world
      true
      (world_of outcome)
cleanup_lem_example =
    cleanup_lem as_text "x1" (λ p. true) reading (λ s. []) obeying true "w" "check"
      "instance_quota_exceeded" "hcw1" "vm-x1" empty_world (world_of outcome) true cleanup_ends
