-- ===== src/Queue/Producer.antt =====
-- create_health_checks (src/hc/producer.py), less the records of its progress log. What is read
-- from the file is an argument.
pub mod Laws
pub mod Rerun
mod Tests
use fptcloud_hc_automation_m.Base.{
  ℕ, zero, suc, ◌+◌, ◌-◌, String, Bool, true, false, Option, none, some, List, [], ◌∷◌, ◌==◌,
  if◌then◌else◌, ltb, length, take, strip,
}
use fptcloud_hc_automation_m.Queue.Json.{
  Json, null, bool, num, str, arr, obj, Items, nil, cons, Members, get, or_else, items,
}
use fptcloud_hc_automation_m.Queue.Task.{
  EnqueueResult, enqueued, duplicate, TaskSpec, Codec, default_policy, compute_spec_hash,
  with_task_id,
}
use fptcloud_hc_automation_m.Queue.Redis.{Redis, Db}
use fptcloud_hc_automation_m.Queue.RedisQueue.{enqueue}

-- The reasons of a ProducerError.
pub data ProducerError : Type 0 where
  max_jobs_too_small : ProducerError
  unreadable : ProducerError
  invalid_json : ProducerError
  not_a_list : ProducerError
  check_not_object : ℕ → ProducerError
  no_tc_id : ProducerError
  spec_not_object : String → ProducerError

pub data Result {ℓ} (A : Type ℓ) : Type ℓ where
  ok : A → Result A
  raised : ProducerError → Result A

infixl 5 ◌>>=◌
abbrev pub ◌>>=◌ {ℓ κ} : {A : Type ℓ} {B : Type κ} → Result A → (A → Result B) → Result B
ok a >>= f = f a
raised e >>= f = raised e

-- What reading and parsing the file gives.
pub data SpecFile : Type 0 where
  os_error : SpecFile
  decode_error : SpecFile
  document : Json → SpecFile

-- `for index, item in enumerate(checks, start=1)`
objects : ℕ → List Json → Result (List Members)
objects index [] = ok []
objects index (obj d ∷ rest) = do ds ← objects (suc index) rest; ok (d ∷ ds)
objects index (_ ∷ rest) = raised (check_not_object index)

checks_of : Option Json → Result (List Members)
unfolding objects
checks_of (some (arr vs)) = objects 1 (items vs)
checks_of _ = raised not_a_list

pub load_checks : SpecFile → Result (List Members)
unfolding checks_of
load_checks os_error = raised unreadable
load_checks decode_error = raised invalid_json
load_checks (document (obj d)) = checks_of (get "checks" d)
load_checks (document v) = checks_of (some v)

pub record Counts : Type 0 where
  pub loaded : ℕ
  pub enqueued_count : ℕ
  pub duplicates : ℕ
  pub deferred : ℕ

abbrev pub is_enqueued : EnqueueResult → Bool
is_enqueued enqueued = true
is_enqueued duplicate = false

abbrev or_value : Option Json → Json → Json
or_value none d = d
or_value (some v) d = v

module _ (c : Codec) where
  -- `str(check.get(k, spec.get(k, default)))`
  described : String → Members → Members → String → String
  described k check spec default =
      c.text_of (or_value (get k check) (or_value (get k spec) (str default)))

  task_of_spec : String → String → String → Members → Json → Result TaskSpec
  unfolding described
  task_of_spec run_id tenant_id tc_id check (obj spec) = ok (
      with_task_id c (record {
        run_id = run_id;
        tc_id = tc_id;
        tenant_id = tenant_id;
        spec_hash = compute_spec_hash c (obj spec);
        task_id = "";
        category = described "category" check spec "compute";
        description = described "description" check spec "";
        spec = obj spec;
        attempt = 0;
        retry_policy = default_policy;
        enqueued_at = none;
        parent_task_id = none;
      }))
  task_of_spec run_id tenant_id tc_id check _ = raised (spec_not_object tc_id)

  pub task_from_check : String → String → Members → Result TaskSpec
  unfolding task_of_spec
  task_from_check run_id tenant_id check =
      let tc_id =
        strip (c.text_of (or_else (get "tc_id" check) (or_else (get "id" check) (str "")))) in
      if tc_id == ""
      then raised no_tc_id
      else task_of_spec run_id tenant_id tc_id check (or_value (get "spec" check) (obj check))

  pub build_tasks : String → String → List Members → Result (List TaskSpec)
  build_tasks run_id tenant_id [] = ok []
  build_tasks run_id tenant_id (check ∷ rest) = do
    t ← task_from_check run_id tenant_id check
    ts ← build_tasks run_id tenant_id rest
    ok (t ∷ ts)

  module _ (r : Redis) where
    -- The loop over the selected tasks; the counters are `enqueued` and `duplicates`.
    pub enqueue_all : ℕ → List TaskSpec → ℕ → ℕ → Db → Db × ℕ × ℕ
    enqueue_all now [] n dup d = (d, n, dup)
    enqueue_all now (t ∷ ts) n dup d =
        let (d', result) = enqueue c r now t d in
        enqueue_all now ts (if is_enqueued result then n + 1 else n)
          (if is_enqueued result then dup else dup + 1) d'

    queue_selected : ℕ → ℕ → List TaskSpec → Db → Db × Result Counts
    queue_selected now max_jobs tasks d =
        let selected = take max_jobs tasks in
        let (d', n, dup) = enqueue_all now selected 0 0 d in
        (
          d',
          ok (record {
            loaded = length tasks;
            enqueued_count = n;
            duplicates = dup;
            deferred = length tasks - length selected;
          }),
        )

    queue_built : ℕ → ℕ → Result (List TaskSpec) → Db → Db × Result Counts
    unfolding queue_selected
    queue_built now max_jobs (raised e) d = (d, raised e)
    queue_built now max_jobs (ok tasks) d = queue_selected now max_jobs tasks d

    -- All tasks are built before the first one is enqueued.
    pub create_health_checks : ℕ → SpecFile → String → String → ℕ → Db → Db × Result Counts
    unfolding queue_built
    create_health_checks now file run_id tenant_id max_jobs d =
        let built = (do checks ← load_checks file; build_tasks run_id tenant_id checks) in
        if ltb max_jobs 1 then (d, raised max_jobs_too_small) else queue_built now max_jobs built d
