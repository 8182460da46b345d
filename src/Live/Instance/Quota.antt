-- ===== src/Live/Instance/Quota.antt =====
-- The quota of an instance (src/healthcheck/instance_runner.py): what is found in an exported
-- report, and the stages that inspect and validate the quota, which are optimistic. `null` is None.
mod Laws
mod Tests
use fptcloud_hc_automation_m.Base.{
  ℕ, String, Bool, true, false, ◌||◌, Option, none, some, List, [], ◌∷◌, if◌then◌else◌, keep, any,
  Dict, insert, lower, same_codes,
}
use fptcloud_hc_automation_m.Queue.Json.{
  Json, null, bool, num, str, arr, obj, Items, nil, cons, Members, end, member,
}
use fptcloud_hc_automation_m.Inventory.{alnum}
use fptcloud_hc_automation_m.Stage.{StageSpec}
use fptcloud_hc_automation_m.Live.{World}
use fptcloud_hc_automation_m.Live.Instance.Stages.{gate, conclude}

pub normalized_key : String → List ℕ
unfolding alnum
normalized_key value = keep alnum (lower value)

is_wanted : List String → String → Bool
unfolding normalized_key
is_wanted candidates key = any (λ c. same_codes (normalized_key key) (normalized_key c)) candidates

abbrev pub is_null : Json → Bool
is_null null = true
is_null _ = false

-- The first loop of `walk` over a dictionary.
wanted_item : List String → Members → Option Json
unfolding is_wanted
wanted_item candidates end = none
wanted_item candidates (member k v d) =
    let rest = wanted_item candidates d in if is_wanted candidates k then some v else rest

mutual
  unfolding wanted_item

  pub find_export_value : List String → Json → Json
  find_export_value candidates (obj d) =
      let deeper = find_in_members candidates d in
      elim (wanted_item candidates d) [ none ↦ deeper | some item ↦ item ]
  find_export_value candidates (arr vs) = find_in_items candidates vs
  find_export_value candidates null = null
  find_export_value candidates (bool b) = null
  find_export_value candidates (num n) = null
  find_export_value candidates (str s) = null

  pub find_in_members : List String → Members → Json
  find_in_members candidates end = null
  find_in_members candidates (member k v d) =
      let found = find_export_value candidates v in
      let later = find_in_members candidates d in if is_null found then later else found

  pub find_in_items : List String → Items → Json
  find_in_items candidates nil = null
  find_in_items candidates (cons v vs) =
      let found = find_export_value candidates v in
      let later = find_in_items candidates vs in if is_null found then later else found

-- The fields of the report with the names that an export may have for them.
pub mappings : Dict (List String)
mappings =
    ("tenant_quota", "tenant_quota" ∷ "tenantStorageQuota" ∷ "tenant_storage_quota" ∷ [])
    ∷ ("vpc_quota", "vpc_quota" ∷ "vpcStorageQuota" ∷ "vpc_storage_quota" ∷ [])
    ∷ (
      "used_storage_gb",
      "used_storage_gb" ∷ "usedStorageGb" ∷ "storage_used_gb" ∷ "storageUsedGb" ∷ [],
    )
    ∷ (
      "remaining_storage_gb",
      "remaining_storage_gb" ∷ "remainingStorageGb" ∷ "storage_remaining_gb" ∷ "free_storage_gb"
          ∷ [],
    )
    ∷ (
      "storage_policy_quota_gb",
      "storage_policy_quota_gb" ∷ "storagePolicyQuotaGb" ∷ "policy_quota_gb" ∷ [],
    )
    ∷ (
      "storage_policy_used_gb",
      "storage_policy_used_gb" ∷ "storagePolicyUsedGb" ∷ "policy_used_gb" ∷ [],
    )
    ∷ ("vm_count_quota", "vm_count_quota" ∷ "vmQuota" ∷ "instance_quota" ∷ [])
    ∷ ("vm_count_used", "vm_count_used" ∷ "vmUsed" ∷ "instance_count_used" ∷ [])
    ∷ ("vm_count_remaining", "vm_count_remaining" ∷ "vmRemaining" ∷ "instance_count_remaining" ∷ [])
    ∷ ("cpu_quota", "cpu_quota" ∷ "cpuQuota" ∷ "vcpu_quota" ∷ [])
    ∷ ("cpu_used", "cpu_used" ∷ "cpuUsed" ∷ "vcpu_used" ∷ [])
    ∷ ("cpu_remaining", "cpu_remaining" ∷ "cpuRemaining" ∷ "vcpu_remaining" ∷ [])
    ∷ ("ram_quota_mb", "ram_quota_mb" ∷ "ramQuotaMb" ∷ "memory_quota_mb" ∷ [])
    ∷ ("ram_used_mb", "ram_used_mb" ∷ "ramUsedMb" ∷ "memory_used_mb" ∷ [])
    ∷ ("ram_remaining_mb", "ram_remaining_mb" ∷ "ramRemainingMb" ∷ "memory_remaining_mb" ∷ [])
    ∷ ("disk_quota_gb", "disk_quota_gb" ∷ "diskQuotaGb" ∷ [])
    ∷ (
      "existing_instances_consuming_storage",
      "existing_instances_consuming_storage" ∷ "instances" ∷ "vms" ∷ "virtual_machines" ∷ [],
    )
    ∷ (
      "existing_volumes_consuming_storage",
      "existing_volumes_consuming_storage" ∷ "volumes" ∷ "disks" ∷ "storages" ∷ [],
    )
    ∷ []

-- The fields so far, and `found_any`.
noted : String → Json → Dict Json × Bool → Dict Json × Bool
noted field value s = if is_null value then s else (insert field value s.0, true)

pub fill : Dict (List String) → Json → Dict Json × Bool → Dict Json × Bool
unfolding noted
fill [] data_ s = s
fill ((field, candidates) ∷ rest) data_ s =
    fill rest data_ (noted field (find_export_value candidates data_) s)

available : Dict Json × Bool → Dict Json
available (updated, found_any) =
    if found_any
    then insert "quota_status" (str "available")
        (insert "quota_source" (str "HC_QUOTA_EXPORT_JSON") updated)
    else updated

pub apply_quota_export : Dict Json → Json → Dict Json
unfolding fill mappings available
apply_quota_export report data_ = available (fill mappings data_ (report, false))

-- The report that these two stages put into the run's context is left out.
pub inspect_instance_quota_stage : StageSpec → World → World
inspect_instance_quota_stage s w =
    conclude s.id (gate "compute.inspect-instance-quota" "instance_storage_quota_exceeded" s w) w

pub validate_instance_quota_stage : StageSpec → World → World
validate_instance_quota_stage s w =
    conclude s.id
      (gate "compute.validate-instance-quota" "instance_storage_quota_exceeded_preflight" s w) w
