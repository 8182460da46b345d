-- ===== src/Checklist/Producer/Tests.antt =====
-- Two test cases, of which the second one depends on the first one.
use fptcloud_hc_automation_m.Base.{
  ◌+◌, String, true, false, ◌&&◌, none, some, List, [], ◌∷◌, ◌≡◌, refl, if◌then◌else◌, length, map,
  mem, count, keep, Dict, keys, insert,
}
use fptcloud_hc_automation_m.Queue.Json.{Json, str, obj, end, member, get}
use fptcloud_hc_automation_m.Queue.Task.{TaskSpec, default_policy}
use fptcloud_hc_automation_m.Queue.Redis.{Db}
use fptcloud_hc_automation_m.Queue.Redis.Reference.{reference}
use fptcloud_hc_automation_m.Queue.Wire.Values.{codec}
use fptcloud_hc_automation_m.Checklist.Loader.{all_depends_on, dedup}
use fptcloud_hc_automation_m.Checklist.Renderer.{
  Piece, literal, validate_context, render, resolve, resolve_members, resolve_string, substitute,
}
use fptcloud_hc_automation_m.Checklist.Resolver.{
  ordered, build, topological_sort, deps_of, sort_run, add_edge, add_deps, add_all, relax, drain,
}
use fptcloud_hc_automation_m.Checklist.Resolver.Order.{build-IsSetOrder}
use fptcloud_hc_automation_m.Checklist.Producer.{
  LoadedEntry, ProducerResult, returned, dep_pairs, resolved_specs, run,
}
use fptcloud_hc_automation_m.Checklist.Producer.Laws.{is_nil, first_wave_lem}

abbrev pieces : String → List Piece
pieces s = literal s ∷ []

abbrev as_text : Json → String
as_text (str s) = s
as_text _ = ""

abbrev task : String → TaskSpec
task id = record {
  run_id = "run-1";
  tc_id = id;
  tenant_id = "t";
  spec_hash = "h";
  task_id = id;
  category = "network";
  description = "";
  spec =
      obj (
        member "action" (str "create_vpc") (member "vars" (obj (member "name" (str "a") end)) end));
  attempt = 0;
  retry_policy = default_policy;
  enqueued_at = none;
  parent_task_id = none;
}

abbrev entry : String → List String → LoadedEntry
entry id ds = record {
  task_spec = task id;
  depends_on = ds;
  inferred_depends_on = [];
  module_name = some "vpc";
  executor = "terraform";
  gap = none;
}

abbrev two : List LoadedEntry
two = entry "TC-002" ("TC-001" ∷ []) ∷ entry "TC-001" [] ∷ []

abbrev no_data : Db
no_data = record {
  tasks = [];
  dlq = [];
  dedup = [];
  scheduled = [];
  undelivered = [];
  pending = [];
  has_group = true;
}

abbrev deps : Dict (List String)
deps = build (dep_pairs two) []

two_render : resolved_specs pieces as_text end two ≡ some (task "TC-002" ∷ task "TC-001" ∷ [])
unfolding resolved_specs render validate_context resolve resolve_members resolve_string substitute
    get
two_render = refl

two_sort : topological_sort (keys deps) deps ≡ ordered ("TC-001" ∷ "TC-002" ∷ [])
unfolding topological_sort sort_run build insert add_all add_deps add_edge relax drain keep mem
    dep_pairs all_depends_on dedup
two_sort = refl

first_wave_lem_example :
    (p : ProducerResult) × (run pieces as_text codec reference 5 true (keys deps) end two no_data
      ≡ (no_data, returned p))
    × ((y : String)
        → count y (map (λ i. i.tc_id) p.plan)
          ≡ (if mem y (keys deps) && is_nil (deps_of deps y) then 1 else 0))
    × (d' : Db) × (q : ProducerResult) × (run pieces as_text codec reference 5 false
          (keys deps)
          end
          two
          no_data
        ≡ (d', returned q))
    × (q.enqueued + q.duplicates ≡ length p.plan)
    × (length d'.tasks ≡ length no_data.tasks + q.enqueued)
first_wave_lem_example =
    first_wave_lem pieces as_text codec reference 5 (keys deps) end two no_data
      (task "TC-002" ∷ task "TC-001" ∷ []) ("TC-001" ∷ "TC-002" ∷ [])
      (build-IsSetOrder (dep_pairs two)) two_render two_sort
