-- ===== src/Inventory/Listing/Tests.antt =====
-- Two machines of earlier runs and one of this run, as the provider lists them.
use mathlib.Core.List.{Memᴰ}
use fptcloud_hc_automation_m.Base.{
  String, true, Option, none, some, List, [], ◌∷◌, ◌≡◌, ◌↔◌, refl, ◌==◌, if◌then◌else◌, any, keep,
  lower,
}
use fptcloud_hc_automation_m.Queue.Json.{
  Json, str, obj, arr, cons, nil, end, member, get, truthy, items,
}
use fptcloud_hc_automation_m.Inventory.{
  TagEntry, InventoryInstance, is_hc_tagged, of_run, is_eligible, key_leb,
  select_oldest_reclaimable, is_hc_name,
}
use fptcloud_hc_automation_m.Inventory.Laws.{IsReclaimable, select_iff}
use fptcloud_hc_automation_m.Inventory.Listing.{list_vpc_instances, list_instance_tags, tags_url}

abbrev pub as_text : Json → String
as_text (str s) = s
as_text _ = "?"

abbrev tag : String → String → Json
tag k v = obj (member "key" (str k) (member "value" (str v) end))

abbrev machine : String → String → Json
machine id name =
    obj (member "id" (str id) (member "name" (str name) (member "status" (str "ACTIVE") end)))

-- The provider's answers: the tags of "i-2" cannot be read.
abbrev pub provider : String → Option Json
provider url =
    if url == "u/v2/vpc/v/instance"
    then some (arr (cons (machine "i-1" "hcl-abcdefgh") (cons (machine "i-2" "hcvm-1") nil)))
    else if url == "u/v2/vpc/v/instance/i-1/tags"
    then some (arr (cons (tag "managed_by" "health-check") nil))
    else none

abbrev proof_tag : TagEntry
proof_tag = record {
  id = "";
  key = "managed_by";
  value = "health-check";
  scope_type = "";
  color = "";
}

abbrev first_machine : InventoryInstance
first_machine = record {
  instance_id = "i-1";
  name = "hcl-abcdefgh";
  status = "ACTIVE";
  vpc_id = "v";
  created_at = "";
  os_label = "";
  tags = proof_tag ∷ [];
}

abbrev second_machine : InventoryInstance
second_machine = record {
  instance_id = "i-2";
  name = "hcvm-1";
  status = "ACTIVE";
  vpc_id = "v";
  created_at = "";
  os_label = "";
  tags = [];
}

abbrev pub machines : List InventoryInstance
machines = first_machine ∷ second_machine ∷ []

pub machines_selected : select_oldest_reclaimable machines "run-2" ≡ some first_machine
unfolding select_oldest_reclaimable keep is_eligible is_hc_name lower is_hc_tagged any of_run
machines_selected = refl

pub machines_listed : list_vpc_instances as_text provider true "u" "v" ≡ some machines
unfolding list_vpc_instances get truthy items is_hc_name lower list_instance_tags tags_url
machines_listed = refl

select_iff_example :
    ((select_oldest_reclaimable machines "run-2" ≡ none)
      ↔ ((j : InventoryInstance) → Memᴰ j machines → ¬ IsReclaimable "run-2" j))
    × ((i : InventoryInstance)
        → select_oldest_reclaimable machines "run-2" ≡ some i
        → Memᴰ i machines
          × IsReclaimable "run-2" i
          × ((j : InventoryInstance)
              → Memᴰ j machines
              → IsReclaimable "run-2" j
              → key_leb i j ≡ true))
select_iff_example = select_iff machines "run-2"
