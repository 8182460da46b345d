-- ===== src/Checklist/Producer/Laws.antt =====
-- The first wave of a checklist: what a dry run plans and what a run enqueues.
use fptcloud_hc_automation_m.Base.{
  ℕ, ◌+◌, String, Bool, true, false, ◌&&◌, ◌||◌, Option, none, some, List, [], ◌∷◌, ◌++◌, ◌==◌,
  if◌then◌else◌, length, length-append, map, mem, mem-count, count, count-keep, keep, all, Dict,
  keys, lookup, lookup-insert, insert, eq_iff, eq_refl, Bool-cases, inl, inr, ◌≡◌, refl, sym, ap,
  ◌∙◌, arith,
}
use fptcloud_hc_automation_m.Queue.Json.{Json, Members}
use fptcloud_hc_automation_m.Queue.Task.{TaskSpec, Codec}
use fptcloud_hc_automation_m.Queue.Redis.{Redis, Db}
use fptcloud_hc_automation_m.Queue.RedisQueue.{enqueue}
use fptcloud_hc_automation_m.Queue.Producer.{is_enqueued}
use fptcloud_hc_automation_m.Queue.Producer.Laws.{tasks-enqueue}
use fptcloud_hc_automation_m.Checklist.Renderer.{Piece}
use fptcloud_hc_automation_m.Checklist.Renderer.Laws.{is_some}
use fptcloud_hc_automation_m.Checklist.Resolver.{
  ordered, build, topological_sort, ready_tasks, IsSetOrder, deps_of,
}
use fptcloud_hc_automation_m.Checklist.Resolver.Order.{count-order, mem-build}
use fptcloud_hc_automation_m.Checklist.Resolver.Ready.{mem-ready}
use fptcloud_hc_automation_m.Checklist.Producer.{
  LoadedEntry, PlanItem, ProducerResult, returned, dep_pairs, by_id, resolve_task, resolved_specs,
  resolved_run, sorted_run, handle, wave, run, plan_item, prepend,
}

is_some_iff : {A : Type 0} (o : Option A) → is_some o ≡ true → (a : A) × (o ≡ some a)
is_some_iff none h = absurd (cc h)
is_some_iff (some a) h = (a, refl)

prepend-some :
    {A : Type 0} (o : Option A) (os : Option (List A)) (xs : List A)
    → prepend o os ≡ some xs
    → (y : A) × (ys : List A) × (o ≡ some y) × (os ≡ some ys) × (xs ≡ y ∷ ys)
unfolding prepend
prepend-some none os xs h = absurd (cc h)
prepend-some (some y) none xs h = absurd (cc h)
prepend-some (some y) (some ys) xs h = (y, ys, refl, refl, cc)

found-by_id :
    {A : Type 0} (key : A → String) (xs : List A) (d : Dict A) (k : String)
    → is_some (lookup k (by_id key xs d)) ≡ (is_some (lookup k d) || mem k (map key xs))
unfolding by_id mem
found-by_id key [] d k = ground arith
found-by_id key (x ∷ xs) d k = ground (
  arith,
  found-by_id key xs (insert (key x) x d) k,
  lookup-insert (key x) k x d,
  eq_iff k (key x),
  eq_iff (key x) k,
)

abbrev entry_id : LoadedEntry → String
entry_id e = e.task_spec.tc_id

id-resolve_task :
    (pieces : String → List Piece) (text_of : Json → String) (ctx : Members) (t u : TaskSpec)
    → resolve_task pieces text_of ctx t ≡ some u
    → u.tc_id ≡ t.tc_id
unfolding resolve_task
id-resolve_task pieces text_of ctx t u h = ground arith

ids-resolved_specs :
    (pieces : String → List Piece) (text_of : Json → String) (ctx : Members) (es : List LoadedEntry)
    (ts : List TaskSpec)
    → resolved_specs pieces text_of ctx es ≡ some ts
    → map (λ t. t.tc_id) ts ≡ map entry_id es
unfolding resolved_specs
ids-resolved_specs pieces text_of ctx [] ts h = ground arith
ids-resolved_specs pieces text_of ctx (e ∷ es) ts h =
    let (a, bs, t, us, same) =
      prepend-some (resolve_task pieces text_of ctx e.task_spec)
        (resolved_specs pieces text_of ctx es) ts h in
    rw
      (
        same,
        id-resolve_task pieces text_of ctx e.task_spec a t,
        ids-resolved_specs pieces text_of ctx es bs us,
      )
      refl

keys-dep_pairs : (es : List LoadedEntry) → keys (dep_pairs es) ≡ map entry_id es
unfolding dep_pairs
keys-dep_pairs [] = refl
keys-dep_pairs (e ∷ es) = ap (◌∷◌ (entry_id e)) (keys-dep_pairs es)

plan_count :
    (y : String) (plan : List PlanItem) (i : PlanItem)
    → count y (map (λ i. i.tc_id) (plan ++ i ∷ []))
      ≡ count y (map (λ i. i.tc_id) plan) + (if i.tc_id == y then 1 else 0)
unfolding count
plan_count y [] i = omega arith
plan_count y (j ∷ plan) i = omega (arith, plan_count y plan i)

module _ (c : Codec) (r : Redis) (now : ℕ) (ready : List String) (tasks : Dict TaskSpec)
    (entries : Dict LoadedEntry) where
  chosen : List String → List String
  chosen = keep (λ x. mem x ready)

  planned :
      (xs : List String) (d : Db) (p : ProducerResult)
      → ((x : String)
          → mem x xs ≡ true
          → (is_some (lookup x tasks) ≡ true) × (is_some (lookup x entries) ≡ true))
      → (q : ProducerResult) × (wave c r now true ready tasks entries xs (d, returned p)
          ≡ (d, returned q))
        × ((y : String)
            → count y (map (λ i. i.tc_id) q.plan)
              ≡ count y (map (λ i. i.tc_id) p.plan) + count y (chosen xs))
        × (length q.plan ≡ length p.plan + length (chosen xs))
  unfolding wave chosen count keep handle mem
  planned [] d p there = (p, refl, λ y. omega arith, omega arith)
  planned (x ∷ xs) d p there =
      let later = λ (y : String) (h : mem y xs ≡ true). there y (ground arith) in
      let (t, e) = there x (ground (arith, eq_refl x)) in
      let (task, t') = is_some_iff (lookup x tasks) t in
      let (entry, e') = is_some_iff (lookup x entries) e in
      elim (Bool-cases (mem x ready)) [
        | inl yes_ ↦
            let p' : ProducerResult = record p { plan = p.plan ++ plan_item x task entry ∷ [] } in
            let (q, same, counts, long) = planned xs d p' later in
            (
              q,
              rw (yes_, t', e') same,
              λ y. rw yes_ (omega (arith, counts y, plan_count y p.plan (plan_item x task entry))),
              rw yes_ (omega (arith, long, length-append p.plan (plan_item x task entry ∷ []))),
            )
        | inr no_ ↦
            let (q, same, counts, long) = planned xs d p later in
            (q, rw no_ same, λ y. rw no_ (counts y), rw no_ long)
      ]

  enqueued_wave :
      (xs : List String) (d : Db) (p : ProducerResult)
      → ((x : String)
          → mem x xs ≡ true
          → (is_some (lookup x tasks) ≡ true) × (is_some (lookup x entries) ≡ true))
      → (d' : Db) × (q : ProducerResult) × (wave c r now false ready tasks entries xs
            (d, returned p)
          ≡ (d', returned q))
        × (q.enqueued + q.duplicates ≡ p.enqueued + p.duplicates + length (chosen xs))
        × (length d'.tasks + p.enqueued ≡ length d.tasks + q.enqueued)
  unfolding wave chosen keep handle mem
  enqueued_wave [] d p there = (d, p, refl, omega arith, omega arith)
  enqueued_wave (x ∷ xs) d p there =
      let later = λ (y : String) (h : mem y xs ≡ true). there y (ground arith) in
      let (t, e) = there x (ground (arith, eq_refl x)) in
      let (task, t') = is_some_iff (lookup x tasks) t in
      let (entry, e') = is_some_iff (lookup x entries) e in
      let (now_, answer) = enqueue c r now task d in
      elim (Bool-cases (mem x ready)) [
        | inr no_ ↦
            let (d', q, same, total, long) = enqueued_wave xs d p later in
            (d', q, rw no_ same, rw no_ total, long)
        | inl yes_ ↦ elim (Bool-cases (is_enqueued answer)) [
          | inl new ↦
              let (d', q, same, total, long) =
                enqueued_wave xs now_ (record p { enqueued = p.enqueued + 1 }) later in
              let one : length now_.tasks ≡ length d.tasks + 1 =
                rw new at (tasks-enqueue c r now task d) in
              (
                d',
                q,
                rw (yes_, t', e', new) same,
                rw yes_ (omega (arith, total)),
                omega (arith, long, one),
              )
          | inr old ↦
              let (d', q, same, total, long) =
                enqueued_wave xs now_ (record p { duplicates = p.duplicates + 1 }) later in
              let none_ : length now_.tasks ≡ length d.tasks + 0 =
                rw old at (tasks-enqueue c r now task d) in
              (
                d',
                q,
                rw (yes_, t', e', old) same,
                rw yes_ (omega (arith, total)),
                omega (arith, long, none_),
              )
        ]
      ]

abbrev pub is_nil : List String → Bool
is_nil [] = true
is_nil (d ∷ ds) = false

all_none : (ds : List String) → all (λ d. mem d []) ds ≡ is_nil ds
unfolding all mem
all_none [] = refl
all_none (d ∷ ds) = refl

-- The tasks of the first wave are those without dependencies, once each.
count-first_wave :
    (ids : List String) (deps : Dict (List String)) (order : List String) (y : String)
    → IsSetOrder ids (keys deps)
    → topological_sort ids deps ≡ ordered order
    → count y (keep (λ x. mem x (ready_tasks deps order [])) order)
      ≡ (if mem y (keys deps) && is_nil (deps_of deps y) then 1 else 0)
unfolding mem
count-first_wave ids deps order y set_order h = ground (
  arith,
  count-keep (λ x. mem x (ready_tasks deps order [])) y order,
  count-order ids deps set_order order y h,
  mem-ready deps [] y order,
  mem-count y order,
  all_none (deps_of deps y),
)

start : Bool → List LoadedEntry → ProducerResult
start dry_run entries = record {
  loaded = length entries;
  enqueued = 0;
  duplicates = 0;
  dry_run = dry_run;
  plan = [];
}

all_found :
    (pieces : String → List Piece) (text_of : Json → String) (ids : List String) (ctx : Members)
    (entries : List LoadedEntry) (tasks : List TaskSpec) (order : List String)
    → IsSetOrder ids (keys (build (dep_pairs entries) []))
    → resolved_specs pieces text_of ctx entries ≡ some tasks
    → topological_sort ids (build (dep_pairs entries) []) ≡ ordered order
    → (x : String) → mem x order ≡ true
    → (is_some (lookup x (by_id (λ t. t.tc_id) tasks [])) ≡ true)
      × (is_some (lookup x (by_id entry_id entries [])) ≡ true)
unfolding lookup mem
all_found pieces text_of ids ctx entries tasks order set_order rendered sorted x h =
    let n = count-order ids (build (dep_pairs entries) []) set_order order x sorted in
    let known : mem x (map entry_id entries) ≡ true =
      rw (sym (keys-dep_pairs entries))
        (ground (arith, mem-count x order, mem-build (dep_pairs entries) [] x)) in
    let same = ids-resolved_specs pieces text_of ctx entries tasks rendered in
    (
      found-by_id (λ t. t.tc_id) tasks [] x ∙ rw same known,
      found-by_id entry_id entries [] x ∙ known,
    )

-- If the variables are rendered and the checklist is sorted, then both a dry run and a run return:
-- no key is missing. The dry run leaves the server's data as it is, and plans exactly the tasks
-- that depend on nothing, each once; the run enqueues or finds again as many, and the task stream
-- has grown by those that it reports as enqueued.
pub first_wave_lem :
    (pieces : String → List Piece) (text_of : Json → String) (c : Codec) (r : Redis) (now : ℕ)
    (ids : List String) (ctx : Members) (entries : List LoadedEntry) (d : Db)
    (tasks : List TaskSpec) (order : List String)
    → IsSetOrder ids (keys (build (dep_pairs entries) []))
    → resolved_specs pieces text_of ctx entries ≡ some tasks
    → topological_sort ids (build (dep_pairs entries) []) ≡ ordered order
    → let deps : Dict (List String) = build (dep_pairs entries) [] in
      (p : ProducerResult) × (run pieces text_of c r now true ids ctx entries d ≡ (d, returned p))
      × ((y : String)
          → count y (map (λ i. i.tc_id) p.plan)
            ≡ (if mem y (keys deps) && is_nil (deps_of deps y) then 1 else 0))
      × (d' : Db) × (q : ProducerResult) × (run pieces text_of c r now false ids ctx entries d
          ≡ (d', returned q))
      × (q.enqueued + q.duplicates ≡ length p.plan)
      × (length d'.tasks ≡ length d.tasks + q.enqueued)
unfolding run resolved_run sorted_run start chosen count
first_wave_lem pieces text_of c r now ids ctx entries d tasks order set_order rendered sorted =
    let deps = build (dep_pairs entries) [] in
    let ready = ready_tasks deps order [] in
    let by_task = by_id (λ t. t.tc_id) tasks [] in
    let by_entry = by_id entry_id entries [] in
    let there = all_found pieces text_of ids ctx entries tasks order set_order rendered sorted in
    let (p, planning, counts, long) =
      planned c r now ready by_task by_entry order d (start true entries) there in
    let (d', q, running, total, grown) =
      enqueued_wave c r now ready by_task by_entry order d (start false entries) there in
    (
      p,
      rw (rendered, sorted) planning,
      λ y. omega (arith, counts y) ∙ count-first_wave ids deps order y set_order sorted,
      d',
      q,
      rw (rendered, sorted) running,
      omega (arith, total, long),
      omega (arith, grown),
    )
