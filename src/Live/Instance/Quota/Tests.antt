-- ===== src/Live/Instance/Quota/Tests.antt =====
-- An export with a nested value.
use fptcloud_hc_automation_m.Base.{String, List, [], ◌∷◌, ◌≡◌, refl, keep, any, lower}
use fptcloud_hc_automation_m.Queue.Json.{Json, null, num, obj, end, member}
use fptcloud_hc_automation_m.Inventory.{alnum}
use fptcloud_hc_automation_m.Live.Instance.Quota.{
  find_export_value, find_in_members, wanted_item, is_wanted, normalized_key,
}

abbrev names : List String
names = "cpu_used" ∷ "vcpu_used" ∷ []

abbrev export : Json
export = obj (member "usage" (obj (member "vCPU-Used" (num 3) end)) end)

export_found : find_export_value names export ≡ num 3
unfolding find_export_value find_in_members wanted_item is_wanted normalized_key any keep lower
    alnum
export_found = refl

-- A wanted key without a value ends the search of its dictionary.
hidden_value :
    find_export_value names (obj (member "cpu_used" null (member "usage" export end))) ≡ null
unfolding find_export_value find_in_members wanted_item is_wanted normalized_key any keep lower
    alnum
hidden_value = refl
