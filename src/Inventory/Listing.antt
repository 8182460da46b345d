-- ===== src/Inventory/Listing.antt =====
-- Reading the inventory (list_vpc_instances, list_instance_tags). The HTTP GET is the argument
-- `fetch`: the document at an address, or `none` for the RuntimeError of a failed request.
pub mod Laws
pub mod Tests
use Prim.Native.String.{◌++◌ as text_append}
use fptcloud_hc_automation_m.Base.{
  ℕ, String, Bool, true, false, not, ◌&&◌, ◌||◌, Option, none, some, List, [], ◌∷◌, ◌==◌,
  if◌then◌else◌, map,
}
use fptcloud_hc_automation_m.Queue.Json.{
  Json, null, bool, num, str, arr, obj, nil, Members, get, or_else, items, truthy,
}
use fptcloud_hc_automation_m.Inventory.{TagEntry, InventoryInstance, is_hc_name}

-- The dictionaries of what a `for` loop goes through: a dictionary's keys and a text's characters
-- are none. `none` is the TypeError of a number.
dicts : Json → Option (List Members)
dicts (arr vs) = some (only (items vs))
  where
    only : List Json → List Members
    only [] = []
    only (obj d ∷ rest) = d ∷ only rest
    only (_ ∷ rest) = only rest
dicts (obj d) = some []
dicts (str s) = some []
dicts _ = none

-- `data if isinstance(data, list) else (data.get("data") or data.get(other) or [])`; `none` is the
-- AttributeError of a document that is neither a list nor a dictionary, or the TypeError.
records_of : String → Json → Option (List Members)
unfolding dicts
records_of other (arr vs) = dicts (arr vs)
records_of other (obj d) = dicts (or_else (get "data" d) (or_else (get other d) (arr nil)))
records_of other _ = none

abbrev put_first :
    Option InventoryInstance → Option (List InventoryInstance) → Option (List InventoryInstance)
put_first i none = none
put_first none (some is_) = some is_
put_first (some i) (some is_) = some (i ∷ is_)

-- `text_of` is Python's `str`.
module _ (text_of : Json → String) (fetch : String → Option Json) where
  -- str(item.get(k) or item.get(l) or "")
  abbrev text_at : String → String → Members → String
  text_at k l item = text_of (or_else (get k item) (or_else (get l item) (str "")))

  tag_entry : Members → TagEntry
  tag_entry item = record {
    id = text_at "id" "id" item;
    key = text_at "key" "key" item;
    value = text_at "value" "value" item;
    scope_type = text_at "scope_type" "scopeType" item;
    color = text_at "color" "color" item;
  }

  instances_url : String → String → String
  instances_url base vpc_id =
      text_append base (text_append "/v2/vpc/" (text_append vpc_id "/instance"))

  pub tags_url : String → String → String → String
  unfolding instances_url
  tags_url base vpc_id instance_id =
      text_append (instances_url base vpc_id) (text_append "/" (text_append instance_id "/tags"))

  entries_of : Option (List Members) → Option (List TagEntry)
  unfolding tag_entry
  entries_of none = none
  entries_of (some ds) = some (map tag_entry ds)

  -- `base` is `api_url.rstrip('/')`. A failed request gives no tags; `none` is an exception.
  pub list_instance_tags : String → String → String → Option (List TagEntry)
  unfolding entries_of records_of
  list_instance_tags base vpc_id instance_id = elim (fetch (tags_url base vpc_id instance_id)) [
    | none ↦ some []
    | some doc ↦ entries_of (records_of "tags" doc)
  ]

  os_label_of : List TagEntry → String
  os_label_of [] = ""
  os_label_of (t ∷ ts) =
      let rest = os_label_of ts in if t.key == "hc_os_label" then t.value else rest

  instance_of : String → Members → List TagEntry → InventoryInstance
  unfolding os_label_of
  instance_of vpc_id item tags = record {
    instance_id = text_at "id" "instance_id" item;
    name = text_at "name" "host_name" item;
    status = text_at "status" "status" item;
    vpc_id = vpc_id;
    created_at = text_at "created_at" "createdAt" item;
    os_label = os_label_of tags;
    tags = tags;
  }

  tagged_instance : String → Members → Option (List TagEntry) → Option (Option InventoryInstance)
  tagged_instance vpc_id item none = none
  tagged_instance vpc_id item (some tags) = some (some (instance_of vpc_id item tags))

  -- One round of the loop: `some none` passes the item over.
  read_instance : Bool → String → String → Members → Option (Option InventoryInstance)
  unfolding tagged_instance instance_of
  read_instance fetch_tags base vpc_id item =
      let instance_id = text_at "id" "instance_id" item in
      let name = text_at "name" "host_name" item in
      if instance_id == "" || name == ""
      then some none
      else if fetch_tags && is_hc_name name
      then tagged_instance vpc_id item (list_instance_tags base vpc_id instance_id)
      else some (some (instance_of vpc_id item []))

  read_all : Bool → String → String → List Members → Option (List InventoryInstance)
  unfolding read_instance
  read_all fetch_tags base vpc_id [] = some []
  read_all fetch_tags base vpc_id (item ∷ rest) =
      let later = read_all fetch_tags base vpc_id rest in
      elim (read_instance fetch_tags base vpc_id item) [ none ↦ none | some i ↦ put_first i later ]

  pub list_vpc_instances : Bool → String → String → Option (List InventoryInstance)
  unfolding read_all records_of instances_url
  list_vpc_instances fetch_tags base vpc_id = elim (fetch (instances_url base vpc_id)) [
    | none ↦ some []
    | some doc ↦ (elim (records_of "instances" doc) [
      | none ↦ none
      | some ds ↦ read_all fetch_tags base vpc_id ds
    ])
  ]
