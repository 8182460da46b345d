-- ===== src/Live/Reclaim/Tests.antt =====
-- A reclamation of the first machine of Inventory.Listing.Tests.
use fptcloud_hc_automation_m.Base.{true, Option, none, some, [], ◌≡◌, refl}
use fptcloud_hc_automation_m.Inventory.Listing.Tests.{
  as_text, provider, machines_listed, machines_selected,
}
use fptcloud_hc_automation_m.Live.{World, answer}
use fptcloud_hc_automation_m.Live.Samples.{empty_world, obeying}
use fptcloud_hc_automation_m.Live.Reclaim.{
  Reclaimed, reclaim_health_check_instance, reclaim_listed, terraform_reclaim_import_destroy,
}
use fptcloud_hc_automation_m.Live.Reclaim.Laws.{IsProven, reclaim_lem}

abbrev deleted : Reclaimed
deleted = record { success = true; instance_id = "i-1"; reason = "" }

abbrev outcome : Option (Reclaimed × World)
outcome =
    reclaim_health_check_instance as_text provider obeying "u" "u" "t" (λ i. i) "v" "run-2"
      empty_world

abbrev world_of : Option (Reclaimed × World) → World
world_of none = empty_world
world_of (some p) = p.1

reclaim_ends : outcome ≡ some (deleted, world_of outcome)
unfolding reclaim_health_check_instance reclaim_listed terraform_reclaim_import_destroy answer
reclaim_ends = rw (machines_listed, machines_selected) refl

reclaim_lem_example :
    IsProven as_text provider obeying "u" "u" "t"
      (λ i. i)
      "v"
      "run-2"
      []
      deleted
      (world_of outcome).given
reclaim_lem_example =
    reclaim_lem as_text provider obeying "u" "u" "t" (λ i. i) "v" "run-2" empty_world
      (world_of outcome) deleted reclaim_ends
