-- ===== src/Checklist/Producer.antt =====
-- ChecklistProducer (src/hc/checklist/producer.py) from the loaded entries on: variables are
-- rendered, the dependencies are sorted, and the first wave is enqueued, or planned in a dry run.
-- The spec of a task is a dictionary by its type.
mod Laws
mod Tests
use fptcloud_hc_automation_m.Base.{
  ℕ, zero, suc, ◌+◌, String, Bool, true, false, Option, none, some, List, [], ◌∷◌, ◌++◌, ◌==◌,
  if◌then◌else◌, length, map, mem, Dict, lookup, insert,
}
use fptcloud_hc_automation_m.Queue.Json.{
  Json, null, bool, num, str, arr, obj, Items, nil, cons, Members, end, member, get,
}
use fptcloud_hc_automation_m.Queue.Task.{EnqueueResult, enqueued, duplicate, TaskSpec, Codec}
use fptcloud_hc_automation_m.Queue.Redis.{Redis, Db}
use fptcloud_hc_automation_m.Queue.RedisQueue.{enqueue}
use fptcloud_hc_automation_m.Queue.Producer.{is_enqueued}
use fptcloud_hc_automation_m.Checklist.Loader.{all_depends_on}
use fptcloud_hc_automation_m.Checklist.Renderer.{Piece, render}
use fptcloud_hc_automation_m.Checklist.Resolver.{
  Sorted, ordered, cyclic, build, topological_sort, ready_tasks,
}

pub record LoadedEntry : Type 0 where
  pub task_spec : TaskSpec
  pub depends_on : List String
  pub inferred_depends_on : List String
  pub module_name : Option String
  pub executor : String
  pub gap : Option String

pub record PlanItem : Type 0 where
  pub tc_id : String
  pub task_id : String
  pub action : Option Json
  pub module_name : Option String
  pub executor : String
  pub depends_on : List String
  pub gap : Option String

-- Less the run id and `skipped_gap`, which stays 0.
pub record ProducerResult : Type 0 where
  pub loaded : ℕ
  pub enqueued : ℕ
  pub duplicates : ℕ
  pub dry_run : Bool
  pub plan : List PlanItem

pub data RunError : Type 0 where
  renderer_error : RunError
  cyclic_dependency : List String → RunError
  key_error : String → RunError

pub data RunResult : Type 0 where
  returned : ProducerResult → RunResult
  failed : RunError → RunResult

-- dict(spec) with the key set.
set_member : String → Json → Members → Members
set_member k v end = member k v end
set_member k v (member j w d) =
    let rest = member j w (set_member k v d) in if j == k then member j v d else rest

abbrev members_of : Json → Members
members_of (obj d) = d
members_of _ = end

abbrev vars_of : Option Json → Members
vars_of none = end
vars_of (some v) = members_of v

abbrev pub depends_of : LoadedEntry → List String
depends_of e = all_depends_on e.depends_on e.inferred_depends_on

pub dep_pairs : List LoadedEntry → Dict (List String)
dep_pairs = map (λ e. (e.task_spec.tc_id, depends_of e))

-- {e.task_spec.tc_id: e for e in doc.entries}: the last entry of an id stays.
pub by_id {ℓ} : {A : Type ℓ} → (A → String) → List A → Dict A → Dict A
by_id key [] d = d
by_id key (x ∷ xs) d = by_id key xs (insert (key x) x d)

-- An error raised for one task ends the loop.
prepend {ℓ} : {A : Type ℓ} → Option A → Option (List A) → Option (List A)
prepend none xs = none
prepend (some x) none = none
prepend (some x) (some xs) = some (x ∷ xs)

plan_item : String → TaskSpec → LoadedEntry → PlanItem
plan_item tc_id task entry = record {
  tc_id = tc_id;
  task_id = task.task_id;
  action = get "action" (members_of task.spec);
  module_name = entry.module_name;
  executor = entry.executor;
  depends_on = depends_of entry;
  gap = entry.gap;
}

module _ (pieces : String → List Piece) (text_of : Json → String) where
  resolve_task : Members → TaskSpec → Option TaskSpec
  unfolding set_member
  resolve_task ctx task =
      let spec = members_of task.spec in
      elim (render pieces text_of (vars_of (get "vars" spec)) ctx) [
        | none ↦ none
        | some vars ↦ some (record task { spec = obj (set_member "vars" (obj vars) spec) })
      ]

  pub resolved_specs : Members → List LoadedEntry → Option (List TaskSpec)
  unfolding resolve_task prepend
  resolved_specs ctx [] = some []
  resolved_specs ctx (e ∷ es) = prepend (resolve_task ctx e.task_spec) (resolved_specs ctx es)

module _ (c : Codec) (r : Redis) (now : ℕ) (dry_run : Bool) where
  -- The rounds for a ready task: a missing key raises a KeyError.
  handle : String → Option TaskSpec → Option LoadedEntry → ProducerResult → Db → Db × RunResult
  unfolding plan_item
  handle tc_id none entry result d = (d, failed (key_error tc_id))
  handle tc_id (some task) none result d = (d, failed (key_error tc_id))
  handle tc_id (some task) (some entry) result d =
      let (d', answer) = enqueue c r now task d in
      if dry_run
      then (d, returned (record result { plan = result.plan ++ plan_item tc_id task entry ∷ [] }))
      else (
        d',
        returned (
            if is_enqueued answer
            then record result { enqueued = result.enqueued + 1 }
            else record result { duplicates = result.duplicates + 1 }),
      )

  -- The loop over the order.
  pub wave :
      List String → Dict TaskSpec → Dict LoadedEntry → List String → Db × RunResult → Db × RunResult
  unfolding handle
  wave ready tasks entries [] s = s
  wave ready tasks entries (tc_id ∷ order) (d, failed e) = (d, failed e)
  wave ready tasks entries (tc_id ∷ order) (d, returned result) = wave ready tasks entries order (
      if mem tc_id ready
      then handle tc_id (lookup tc_id tasks) (lookup tc_id entries) result d
      else (d, returned result))

  sorted_run : Dict (List String) → List TaskSpec → List LoadedEntry → Sorted → Db → Db × RunResult
  unfolding wave by_id
  sorted_run deps tasks entries (cyclic left) d = (d, failed (cyclic_dependency left))
  sorted_run deps tasks entries (ordered order) d =
      wave (ready_tasks deps order []) (by_id (λ t. t.tc_id) tasks [])
        (by_id (λ e. e.task_spec.tc_id) entries []) order
        (
          d,
          returned (record {
            loaded = length entries;
            enqueued = 0;
            duplicates = 0;
            dry_run = dry_run;
            plan = [];
          }),
        )

  resolved_run : List String → List LoadedEntry → Option (List TaskSpec) → Db → Db × RunResult
  unfolding sorted_run dep_pairs
  resolved_run ids entries none d = (d, failed renderer_error)
  resolved_run ids entries (some tasks) d =
      let deps = build (dep_pairs entries) [] in
      sorted_run deps tasks entries (topological_sort ids deps) d

-- ChecklistProducer.run. `ids` is the order in which the set of the ids is met.
pub run :
    (String → List Piece)
    → (Json → String)
    → Codec
    → Redis
    → ℕ
    → Bool
    → List String
    → Members
    → List LoadedEntry
    → Db
    → Db × RunResult
unfolding resolved_run
run pieces text_of c r now dry_run ids ctx entries d =
    resolved_run c r now dry_run ids entries (resolved_specs pieces text_of ctx entries) d
