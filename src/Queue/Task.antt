-- ===== src/Queue/Task.antt =====
-- Task models (src/hc/models/task.py). Times are milliseconds; the `jitter` ratio, a float, is in
-- thousandths. pydantic and hashlib are not part of the program: their use is a `Codec`.
use Prim.Native.String.{◌++◌ as text_append}
use native.Mathlib.Nat.{pow-suc}
use fptcloud_hc_automation_m.Base.{
  ℕ, zero, suc, ◌+◌, ◌-◌, ◌*◌, ◌^◌, ◌≤◌, ◌<◌, min, String, Option, none, some, ◌≡◌, arith,
  if◌then◌else◌, ltb, ◌==◌,
}
use fptcloud_hc_automation_m.Queue.Json.{Json}

pub data EnqueueResult : Type 0 where
  enqueued : EnqueueResult
  duplicate : EnqueueResult

-- A policy whose numbers are not negative. The validator admits negative ones, which are not
-- modelled.
pub record RetryPolicy : Type 0 where
  pub max_attempts : ℕ
  pub base_seconds : ℕ
  pub max_seconds : ℕ
  pub jitter : ℕ

abbrev pub default_policy : RetryPolicy
default_policy = record { max_attempts = 3; base_seconds = 30; max_seconds = 600; jitter = 200 }

-- The validator `max_gte_base`: `none` is the ValueError.
unfoldable pub max_gte_base : RetryPolicy → Option RetryPolicy
max_gte_base p = if ltb p.max_seconds p.base_seconds then none else some p

pub record TaskSpec : Type 0 where
  pub run_id : String
  pub tc_id : String
  pub tenant_id : String
  pub spec_hash : String
  pub task_id : String
  pub category : String
  pub description : String
  pub spec : Json
  pub attempt : ℕ
  pub retry_policy : RetryPolicy
  pub enqueued_at : Option ℕ
  pub parent_task_id : Option String

pub record QueueEntry : Type 0 where
  pub entry_id : String
  pub task : TaskSpec

-- What is kept in `hc:scheduled` for a retry.
pub record Scheduled : Type 0 where
  pub entry_id : String
  pub task : TaskSpec
  pub reason : String

-- The serialisers and the hash: a dump is read back as it was written.
pub record Codec : Type 0 where
  pub dump_json : TaskSpec → String
  pub validate_json : String → Option TaskSpec
  pub validate-dump : (t : TaskSpec) → validate_json (dump_json t) ≡ some t
  pub dump_scheduled : Scheduled → String
  pub load_scheduled : String → Option Scheduled
  pub load-dump : (m : Scheduled) → load_scheduled (dump_scheduled m) ≡ some m
  pub sha256 : String → String
  -- json.dumps(…, sort_keys=True), and Python's `str` of a value.
  pub dumps : Json → String
  pub text_of : Json → String

-- f"{run_id}/{tc_id}/{tenant_id}/{spec_hash}"
pub material : String → String → String → String → String
material run_id tc_id tenant_id spec_hash = text_append run_id (
    text_append "/"
      (text_append tc_id (text_append "/" (text_append tenant_id (text_append "/" spec_hash)))))

pub compute_task_id : Codec → String → String → String → String → String
compute_task_id c run_id tc_id tenant_id spec_hash =
    c.sha256 (material run_id tc_id tenant_id spec_hash)

pub compute_spec_hash : Codec → Json → String
compute_spec_hash c spec = c.sha256 (c.dumps spec)

-- The model validator of TaskSpec: a task with no id is given one.
pub with_task_id : Codec → TaskSpec → TaskSpec
with_task_id c t =
    if t.task_id == ""
    then record t { task_id = compute_task_id c t.run_id t.tc_id t.tenant_id t.spec_hash }
    else t

-- min(base_seconds * 2 ** max(attempt - 1, 0), max_seconds), in seconds
unfoldable pub capped_seconds : ℕ → RetryPolicy → ℕ
capped_seconds attempt policy = min (policy.base_seconds * 2 ^ (attempt - 1)) policy.max_seconds

-- compute_backoff_seconds, in milliseconds. `draw` is the value of `random.uniform(-r, r)` plus
-- `r`, so 0 ≤ draw ≤ 2 r; subtraction on ℕ is the `max(0.0, …)` of the source.
unfoldable pub compute_backoff : ℕ → RetryPolicy → ℕ → ℕ
compute_backoff attempt policy draw =
    let capped = capped_seconds attempt policy in capped * 1000 + draw - capped * policy.jitter

pow-pos : (n : ℕ) → 0 < 2 ^ n
pow-pos zero = omega arith
pow-pos (suc n) = rw pow-suc (omega (arith, pow-pos n))

-- For a policy whose numbers are not negative: whatever is drawn, the delay before a retry differs
-- from the capped delay by the jitter at most, and for a policy that passes its validator the
-- capped delay lies between base and maximum.
pub backoff_bounds :
    (attempt : ℕ) (policy checked : RetryPolicy) (draw : ℕ)
    → max_gte_base policy ≡ some checked
    → draw ≤ 2 * (capped_seconds attempt checked * checked.jitter)
    → let capped = capped_seconds attempt checked in
      let delay = compute_backoff attempt checked draw in
      (checked.base_seconds ≤ capped)
      × (capped ≤ checked.max_seconds)
      × (capped * 1000 ≤ delay + capped * checked.jitter)
      × (delay ≤ capped * 1000 + capped * checked.jitter)
unfolding max_gte_base capped_seconds compute_backoff
backoff_bounds attempt policy checked draw h d =
    let fits : checked.base_seconds ≤ checked.max_seconds = ground arith in
    let grows : checked.base_seconds ≤ checked.base_seconds * 2 ^ (attempt - 1) =
      grind (arith, pow-pos (attempt - 1)) in
    (omega arith, omega arith, omega arith, omega arith)

-- Without jitter a later attempt never waits a shorter time.
pub backoff_mono :
    (attempt : ℕ) (policy : RetryPolicy)
    → capped_seconds attempt policy ≤ capped_seconds (suc attempt) policy
unfolding capped_seconds
backoff_mono zero policy = omega arith
backoff_mono (suc n) policy =
    let now : suc n - 1 ≡ n = omega arith in
    let later : suc (suc n) - 1 ≡ suc n = omega arith in
    let doubles : policy.base_seconds * 2 ^ n ≤ policy.base_seconds * 2 ^ suc n =
      rw pow-suc (grind arith) in
    rw (now, later) (omega arith)
