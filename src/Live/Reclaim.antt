-- ===== src/Live/Reclaim.antt =====
-- Reclaiming an instance (reclaim_health_check_instance of src/healthcheck/cleanup.py), and the
-- import and destroy that delete it (src/healthcheck/terraform_executor.py).
pub mod Laws
mod Tests
use fptcloud_hc_automation_m.Base.{
  ℕ, String, Bool, true, false, not, ◌&&◌, ◌||◌, Option, none, some, List, [], ◌∷◌, ◌==◌,
  if◌then◌else◌, codes, lower, within, any, rstrip,
}
use fptcloud_hc_automation_m.Queue.Json.{Json}
use fptcloud_hc_automation_m.Inventory.{
  InventoryInstance, TagEntry, is_hc_name, select_oldest_reclaimable,
}
use fptcloud_hc_automation_m.Inventory.Listing.{list_vpc_instances}
use fptcloud_hc_automation_m.Live.{
  World, Terraform, Completed, succeeds, output_of, answer, give, emit, init, import_instance,
  destroy_imported,
}

says_unsupported : String → Bool
says_unsupported text =
    any (λ words. within (codes words) (lower text))
      ("import is not supported" ∷ "does not support import" ∷ "not importable" ∷ "cannot import"
        ∷ [])

module _ (tf : Terraform) (stage : String) where
  fails : World → Bool × World
  fails w = (false, emit stage "failed" "health_check_instance_delete_failed" w)

  refused_import : String → World → Bool × World
  unfolding says_unsupported fails
  refused_import text w =
      if says_unsupported text
      then (
        false,
        emit "reclaim.import_unsupported" "failed" ""
            (emit stage "failed" "instance_reclaim_import_unsupported" w),
      )
      else fails w

  destroying : String → World → Bool × World
  unfolding fails
  destroying workspace w =
      let after = give workspace destroy_imported w in
      if succeeds (answer tf workspace destroy_imported w) then (true, after) else fails after

  importing : String → String → World → Bool × World
  unfolding refused_import destroying
  importing instance_id workspace w =
      let op = import_instance instance_id in
      let done = answer tf workspace op w in
      let after = give workspace op w in
      if succeeds done then destroying workspace after else refused_import (output_of done) after

  pub terraform_reclaim_import_destroy : String → String → World → Bool × World
  unfolding fails importing
  terraform_reclaim_import_destroy instance_id workspace w =
      let after = give workspace init w in
      if succeeds (answer tf workspace init w)
      then importing instance_id workspace after
      else fails after

-- Whether the instance is deleted, its id, and the reason why not.
pub record Reclaimed : Type 0 where
  pub success : Bool
  pub instance_id : String
  pub reason : String

abbrev refused : String → String → Reclaimed
refused instance_id reason = record { success = false; instance_id = instance_id; reason = reason }

abbrev reclaim_stage : String
reclaim_stage = "compute.reclaim-health-check-instance"

-- `fetch` is the HTTP GET, `api_url` and `token` are those of the environment ("" if unset), and
-- `reclaim_root` gives the path of the workspace of an instance. The writing of its files is left
-- out. `none` is an exception of the listing.
module _ (text_of : Json → String) (fetch : String → Option Json) (tf : Terraform)
    (api_url base token : String) (reclaim_root : String → String) where
  concluded : String → Bool × World → Reclaimed × World
  concluded instance_id (false, w) = (refused instance_id "terraform_import_destroy_failed", w)
  concluded instance_id (true, w) = (
    record { success = true; instance_id = instance_id; reason = "" },
    emit reclaim_stage "done" "" w,
  )

  reclaim_chosen : Option InventoryInstance → World → Reclaimed × World
  unfolding concluded
  reclaim_chosen none w = (
    refused "" "no_reclaimable_health_check_instance",
    emit reclaim_stage "failed" "no_reclaimable_health_check_instance" w,
  )
  reclaim_chosen (some i) w = concluded i.instance_id (
      terraform_reclaim_import_destroy tf reclaim_stage i.instance_id (reclaim_root i.instance_id)
        (emit reclaim_stage "started" "" w))

  reclaim_listed : String → Option (List InventoryInstance) → World → Option (Reclaimed × World)
  unfolding reclaim_chosen
  reclaim_listed run_id none w = none
  reclaim_listed run_id (some instances) w =
      some (reclaim_chosen (select_oldest_reclaimable instances run_id) w)

  -- `base` is the address of the API without slashes at its end.
  pub reclaim_health_check_instance : String → String → World → Option (Reclaimed × World)
  unfolding reclaim_listed
  reclaim_health_check_instance vpc_id run_id w =
      if api_url == "" || token == ""
      then some (
        refused "" "missing_api_url_or_token",
        emit reclaim_stage "failed" "health_check_instance_not_found" w,
      )
      else reclaim_listed run_id (list_vpc_instances text_of fetch true base vpc_id)
          (emit reclaim_stage "started" "" w)
