-- ===== src/Live/Instance/Naming/Tests.antt =====
-- A Windows instance of a run.
use fptcloud_hc_automation_m.Base.{String, true, false, [], ◌∷◌, ◌≡◌, ◌↔◌, ◌==◌, refl, mem, map}
use fptcloud_hc_automation_m.Inventory.{InventoryInstance, TagEntry, alnum}
use fptcloud_hc_automation_m.Inventory.Laws.{IsReclaimable}
use fptcloud_hc_automation_m.Live.Instance.Naming.{
  instance_image_matrix, build_hc_instance_tags, guest_hostname_for_label, validate_guest_hostname,
}
use fptcloud_hc_automation_m.Live.Instance.Naming.Laws.{created_iff}
use fptcloud_hc_automation_m.Live.Instance.Naming.Policy.{matches_policy, abc123-IsRandom}

abbrev tag : String → String → TagEntry
tag k v = record { id = ""; key = k; value = v; scope_type = ""; color = "" }

abbrev windows_machine : InventoryInstance
windows_machine = record {
  instance_id = "i-1";
  name = guest_hostname_for_label "abc123" "windows-2019";
  status = "ACTIVE";
  vpc_id = "v";
  created_at = "";
  os_label = "";
  tags =
      tag "managed_by" "health-check"
      ∷ tag "health_check" "true"
      ∷ tag "hc_run_id" "run-1"
      ∷ tag "hc_created_at" "now"
      ∷ tag "hc_vpc_name" "vpc"
      ∷ tag "hc_os_label" "windows-2019"
      ∷ [];
}

in_matrix : mem "windows-2019" instance_image_matrix ≡ true
unfolding mem instance_image_matrix
in_matrix = refl

same_tags :
    map (λ t. (t.key, t.value)) windows_machine.tags
    ≡ build_hc_instance_tags "run-1" "vpc" "windows-2019" "now"
unfolding build_hc_instance_tags
same_tags = refl

created_iff_example :
    (validate_guest_hostname 15 matches_policy "windows-2019" windows_machine.name ≡ [])
    × (IsReclaimable "run-2" windows_machine ↔ (("run-1" == "run-2") ≡ false))
unfolding guest_hostname_for_label alnum
created_iff_example =
    created_iff "windows-2019" "abc123" "run-1" "vpc" "now" "run-2" 15 matches_policy
      windows_machine in_matrix abc123-IsRandom refl refl refl same_tags
