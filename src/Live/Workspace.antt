-- ===== src/Live/Workspace.antt =====
-- What the runner reads from a workspace (src/healthcheck/terraform_executor.py). `none` is an
-- exception: of `json.loads`, or of a document that is not built as terraform builds it.
pub mod Laws
use Prim.Native.String.{String}
use fptcloud_hc_automation_m.Base.{
  ℕ, Bool, true, false, not, ◌&&◌, ◌||◌, Option, none, some, List, [], ◌∷◌, ◌++◌, ◌==◌, ◌>>=◌,
  if◌then◌else◌, any, keep, leb, codes, strip, map, ◌-◌, Dict, insert, same_codes,
}
use fptcloud_hc_automation_m.Queue.Json.{
  Json, null, bool, num, str, arr, obj, Items, nil, cons, Members, end, member, get, or_else, items,
}
use fptcloud_hc_automation_m.Live.{
  World, Terraform, Completed, succeeds, answer, give, state_list, show, show_plan,
}

-- What a `for` loop or `list.extend` goes through.
characters : String → List Json
characters String.[] = []
characters (String.◌∷◌ c s) = str (String.◌∷◌ c String.[]) ∷ characters s

keys_of : Members → List Json
keys_of end = []
keys_of (member k v d) = str k ∷ keys_of d

unfoldable pub iterate : Json → Option (List Json)
unfolding characters keys_of
iterate (arr vs) = some (items vs)
iterate (str s) = some (characters s)
iterate (obj d) = some (keys_of d)
iterate _ = none

abbrev pub get_or : String → Json → Members → Json
get_or k default d = elim (get k d) [ none ↦ default | some v ↦ v ]

abbrev pub both : Option (List Json) → Option (List Json) → Option (List Json)
both none ys = none
both (some xs) none = none
both (some xs) (some ys) = some (xs ++ ys)

-- The inner function `walk` of module_resources, which goes down the child modules.
mutual
  pub walk : Json → Option (List Json)
  walk (obj d) = both (iterate (get_or "resources" (arr nil) d)) (walk_children d)
  walk _ = none

  -- for child in module.get("child_modules", [])
  pub walk_children : Members → Option (List Json)
  walk_children end = some []
  walk_children (member k v d) =
      let here = walk_each v in
      let rest = walk_children d in if k == "child_modules" then here else rest

  -- A text or a dictionary holds no dictionary, so that a loop over it ends at once or raises.
  pub walk_each : Json → Option (List Json)
  walk_each (arr vs) = walk_items vs
  walk_each (str s) = if s == "" then some [] else none
  walk_each (obj end) = some []
  walk_each _ = none

  pub walk_items : Items → Option (List Json)
  walk_items nil = some []
  walk_items (cons v vs) = both (walk v) (walk_items vs)

-- v.get(k, {}) of what ought to be a dictionary.
abbrev sub_document : String → Json → Option Json
sub_document k (obj d) = some (get_or k (obj end) d)
sub_document k _ = none

unfoldable pub module_resources : Json → Option (List Json)
unfolding walk
module_resources data_ = do
  values ← sub_document "values" data_
  root ← sub_document "root_module" values
  walk root

upper : String → List ℕ
upper s = map (λ n. if leb b'a' n && leb n b'z' then n - 32 else n) (codes s)

-- `text_of` is Python's `str`; a status is kept as its code points.
module _ (text_of : Json → String) where
  status_of : Option Json → List ℕ
  unfolding upper
  status_of none = codes "NO_STATUS"
  status_of (some null) = codes "NO_STATUS"
  status_of (some (bool true)) = codes "READY"
  status_of (some (bool false)) = codes "PENDING"
  status_of (some v) = upper (text_of v)

  -- raw = values.get("status"), or values.get("state") when that is None.
  abbrev or_state : Option Json → Members → Option Json
  or_state none d = get "state" d
  or_state (some null) d = get "state" d
  or_state v d = v

  abbrev raw_status : Members → Option Json
  raw_status d = or_state (get "status" d) d

  -- The address and the status of one resource.
  pub resource_status : Json → Option (String × List ℕ)
  unfolding status_of
  resource_status (obj d) = elim (get_or "values" (obj end) d) [
    | obj vs ↦ some (text_of (get_or "address" (str "unknown") d), status_of (raw_status vs))
    | _ ↦ none
  ]
  resource_status _ = none

  collect : List Json → Dict (List ℕ) → Option (Dict (List ℕ))
  unfolding resource_status
  collect [] statuses = some statuses
  collect (r ∷ rest) statuses = do s ← resource_status r; collect rest (insert s.0 s.1 statuses)

  -- resource_statuses, of what state_json returned.
  pub resource_statuses : Json → Option (Dict (List ℕ))
  unfolding collect
  resource_statuses data_ = do found ← module_resources data_; collect found []

  -- instance_id_from_state and instance_state_values look at the first instance.
  pub first_instance : List Json → Option (Option Members)
  first_instance [] = some none
  first_instance (obj d ∷ rest) =
      let later = first_instance rest in
      elim (get "type" d) [
        | none ↦ later
        | some t ↦ (elim t [
          | str s ↦ if s == "fptcloud_instance" then some (some d) else later
          | _ ↦ later
        ])
      ]
  first_instance (_ ∷ rest) = none

  id_of : Option Members → Option String
  id_of none = some ""
  id_of (some d) = elim (get_or "values" (obj end) d) [
    | obj vs ↦ some (text_of (or_else (get "id" vs) (str "")))
    | _ ↦ none
  ]

  values_of : Option Members → Members
  values_of none = end
  values_of (some d) = elim (get_or "values" (obj end) d) [ obj vs ↦ vs | _ ↦ end ]

ready_statuses : List String
ready_statuses =
    "ACTIVE" ∷ "AVAILABLE" ∷ "COMPLETED" ∷ "CREATED" ∷ "ENABLED" ∷ "OK" ∷ "PASS" ∷ "PASSED"
    ∷ "POWERED_ON" ∷ "READY" ∷ "RUNNING" ∷ "SUCCESS" ∷ []

pending_statuses : List String
pending_statuses =
    "BUILD" ∷ "BUILDING" ∷ "CREATE" ∷ "CREATING" ∷ "DEPLOYING" ∷ "IN_PROGRESS" ∷ "PENDING"
    ∷ "PROVISIONING" ∷ "STARTING" ∷ "UPDATING" ∷ []

pub is_status : List String → List ℕ → Bool
is_status names s = any (λ n. same_codes (codes n) s) names

-- The test of the comprehension in `readiness`.
pub is_waiting : List ℕ → Bool
unfolding is_status ready_statuses pending_statuses
is_waiting s =
    is_status pending_statuses s
    || not (is_status ready_statuses s || same_codes s (codes "NO_STATUS"))

-- `loads` is json.loads, `lines` the stripped lines of a text that are not empty.
module _ (text_of : Json → String) (loads : String → Option Json) (lines : String → List String)
    (tf : Terraform) where
  pub listed : Completed → List String
  listed c = if succeeds c then lines c.stdout else []

  -- The list, and the world after the command.
  unfoldable pub state_resources : String → World → List String × World
  unfolding answer give listed
  state_resources ws w = (listed (answer tf ws state_list w), give ws state_list w)

  pub shown : Completed → Option Json
  shown c = if succeeds c then loads (if c.stdout == "" then "{}" else c.stdout) else some (obj end)

  unfoldable pub state_json : String → World → Option Json × World
  unfolding answer give shown
  state_json ws w = (shown (answer tf ws show w), give ws show w)

  changes : Json → Bool
  changes (str s) = s == "create" || s == "update"
  changes _ = false

  -- "create" in actions or "update" in actions
  acts : Option (List Json) → Option Bool
  unfolding changes
  acts none = none
  acts (some as_) = some (any changes as_)

  address_of : Members → Json
  address_of d = get_or "address" (str "unknown") d

  -- One round of the loop over the resource changes.
  planned_change : Json → Option (List Json)
  unfolding acts address_of
  planned_change (obj d) = elim (get_or "change" (obj end) d) [
    | obj c ↦ (elim (acts (iterate (get_or "actions" (arr nil) c))) [
      | none ↦ none
      | some b ↦ some (if b then address_of d ∷ [] else [])
    ])
    | _ ↦ none
  ]
  planned_change _ = none

  planned_changes : List Json → Option (List Json)
  unfolding planned_change
  planned_changes [] = some []
  planned_changes (c ∷ cs) = both (planned_change c) (planned_changes cs)

  planned_of : Option Json → Option (List Json)
  unfolding planned_changes
  planned_of (some (obj d)) = do
    cs ← iterate (get_or "resource_changes" (arr nil) d)
    planned_changes cs
  planned_of _ = none

  pub planned_in : Completed → Option (List Json)
  unfolding planned_of
  planned_in c =
      if succeeds c then planned_of (loads (if c.stdout == "" then "{}" else c.stdout)) else some []

  unfoldable pub planned_resources : String → World → Option (List Json) × World
  unfolding planned_in
  planned_resources ws w = (planned_in (answer tf ws show_plan w), give ws show_plan w)

  found_instance : Option Json → Option (Option Members)
  unfolding first_instance
  found_instance none = none
  found_instance (some data_) = do found ← module_resources data_; first_instance text_of found

  -- instance_id_from_state
  unfoldable pub instance_id_from_state : String → World → Option String × World
  unfolding found_instance id_of
  instance_id_from_state ws w =
      let (data_, after) = state_json ws w in (do i ← found_instance data_; id_of text_of i, after)

  unfoldable pub instance_state_values : String → World → Option Members × World
  unfolding found_instance values_of
  instance_state_values ws w =
      let (data_, after) = state_json ws w in
      (do i ← found_instance data_; some (values_of text_of i), after)

  -- readiness: whether all is ready, and the resources.
  verdict : List String → Dict (List ℕ) → Bool × List String
  unfolding is_waiting
  verdict resources statuses = (not (any (λ e. is_waiting e.1) statuses), resources)

  judged : List String → Option Json → Option (Bool × List String)
  unfolding verdict resource_statuses
  judged resources none = none
  judged resources (some data_) = do
    statuses ← resource_statuses text_of data_
    some (verdict resources statuses)

  after_listing : String → List String × World → Option (Bool × List String) × World
  unfolding judged
  after_listing ws ([], w) = (some (true, []), w)
  after_listing ws (r ∷ rs, w) =
      let (data_, after) = state_json ws w in (judged (r ∷ rs) data_, after)

  unfoldable pub readiness : String → World → Option (Bool × List String) × World
  unfolding after_listing
  readiness ws w = after_listing ws (state_resources ws w)
