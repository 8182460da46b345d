-- ===== src/Live/Instance/Create.antt =====
-- The creation of the instances of a round (execute_instance_create): a first pass over the images,
-- whose failures are queued, and then up to two further attempts for each that is in the queue.
pub mod Laws
mod Exhausted
mod Tests
pub mod Entry
use fptcloud_hc_automation_m.Base.{
  ℕ, zero, suc, ◌+◌, String, Bool, true, false, not, Option, none, some, List, [], ◌∷◌, ◌++◌, ◌==◌,
  if◌then◌else◌, length, map, keep, mem, ◌-◌,
}
use Prim.Native.String.{◌++◌ as text_append}
use fptcloud_hc_automation_m.Live.{World, QueueItem, emit, queue_error}
use fptcloud_hc_automation_m.Live.Instance.Attempt.{
  Image, label_of, ImageCreateResult, Round, RunContext, Creation, in_world,
}

-- MAX_INSTANCE_CREATE_ATTEMPTS is two more than this.
abbrev middle_retries : ℕ
middle_retries = 1

-- An entry of `instance_error_queue`. The images after it stand for its index.
pub record Queued : Type 0 where
  pub image : Image
  pub rest : List Image
  pub failure : ImageCreateResult

-- What the queue is at the end, and how many left it.
pub record Summary : Type 0 where
  pub queued : ℕ
  pub retry_succeeded : ℕ
  pub retry_exhausted : ℕ
  pub remaining : List Queued

-- The end of the loop: `return` for a quota, or its end with the summary.
pub data Ending : Type 0 where
  blocked : Creation → Ending
  finished : Summary → Creation → Ending

-- The first pass gives the queue.
pub data Pass : Type 0 where
  stopped : Creation → Pass
  passed : List Queued → Creation → Pass

-- How the retries of one entry end.
pub data Fate : Type 0 where
  quota : Creation → Fate
  retried : Creation → Fate
  exhausted : Creation → Fate

-- selected_round_instances
pub selected_round_instances : List String → List Image → List Image
selected_round_instances [] instances = instances
selected_round_instances (l ∷ ls) instances = keep (λ i. mem i.raw_label (l ∷ ls)) instances

put : Queued → Option Pass → Option Pass
put q none = none
put q (some (stopped s)) = some (stopped s)
put q (some (passed qs s)) = some (passed (q ∷ qs) s)

-- What the first pass does with a result, and whether it queues the image.
pub data Verdict : Type 0 where
  stop : Verdict
  go_on : Verdict
  enqueue : Verdict

verdict : ImageCreateResult → Verdict
verdict r =
    if r.succeeded
    then go_on
    else if r.is_quota
    then stop
    else if r.retryable
    then enqueue
    else go_on

queued_event : Creation → Creation
queued_event = in_world (emit "instance.create_failed_queued" "queued" "")

-- What follows an attempt of the retry phase.
judge : ImageCreateResult → Creation → (Creation → Option Fate) → Option Fate
judge r s later =
    if r.succeeded
    then some (retried (in_world (emit "instance.retry_succeeded" "passed" "") s))
    else if r.is_quota
    then some (quota s)
    else later s

started : Creation → Creation
started = in_world (emit "instance.retry_started" "started" "")

refailed : Creation → Creation
refailed = in_world (emit "instance.retry_failed" "failed" "")

one_succeeded : Summary → Summary
one_succeeded sum = record {
  queued = sum.queued;
  retry_succeeded = sum.retry_succeeded + 1;
  retry_exhausted = sum.retry_exhausted;
  remaining = sum.remaining;
}

one_exhausted : Queued → Summary → Summary
one_exhausted q sum = record {
  queued = sum.queued;
  retry_succeeded = sum.retry_succeeded;
  retry_exhausted = sum.retry_exhausted + 1;
  remaining = sum.remaining ++ q ∷ [];
}

-- `attempt` is one attempt: its number, the image, the images after it. `none` is an exception.
module _ (check : String)
    (attempt : ℕ → Image → List Image → Creation → Option (ImageCreateResult × Creation)) where
  after_first :
      Verdict
      → ImageCreateResult
      → Image
      → List Image
      → Creation
      → (Creation → Option Pass)
      → Option Pass
  unfolding put queued_event
  after_first stop r i rest s later = some (stopped s)
  after_first go_on r i rest s later = later s
  after_first enqueue r i rest s later =
      put (record { image = i; rest = rest; failure = r }) (later (queued_event s))

  first_pass : List Image → Creation → Option Pass
  unfolding after_first verdict
  first_pass [] s = some (passed [] s)
  first_pass (i ∷ rest) s = elim (attempt 1 i rest s) [
    | none ↦ none
    | some p ↦ after_first (verdict p.0) p.0 i rest p.1 (λ v. first_pass rest v)
  ]

  -- The last attempt has failed. The reason is the error's text, without the failure's context.
  exhaust : ImageCreateResult → Creation → Creation
  exhaust r s =
      in_world
        (λ w.
          queue_error
            (record {
              check = check;
              workspace = r.workspace;
              resources = r.resources;
              reason = r.terraform_error;
            })
            "" (emit "instance.retry_exhausted" "failed" "" w))
        s

  -- `left` attempts remain after the attempt with this number.
  pub retry_image : ℕ → ℕ → Queued → Creation → Option Fate
  unfolding judge started refailed exhaust
  retry_image zero number q s = elim (attempt number q.image q.rest (started s)) [
    | none ↦ none
    | some p ↦ judge p.0 p.1 (λ v. some (exhausted (exhaust p.0 v)))
  ]
  retry_image (suc left) number q s = elim (attempt number q.image q.rest (started s)) [
    | none ↦ none
    | some p ↦ judge p.0 p.1 (λ v. retry_image left (number + 1) q (refailed v))
  ]

  -- The retries of the entries in turn.
  retry_phase : Summary → List Queued → Creation → Option Ending
  unfolding retry_image one_succeeded one_exhausted
  retry_phase sum [] s = some (finished sum s)
  retry_phase sum (q ∷ qs) s = elim (retry_image middle_retries 2 q s) [
    | none ↦ none
    | some f ↦ (elim f [
      | quota v ↦ some (blocked v)
      | retried v ↦ retry_phase (one_succeeded sum) qs v
      | exhausted v ↦ retry_phase (one_exhausted q sum) qs v
    ])
  ]

  -- The summary is an event if anything was queued.
  summary_event : ℕ → Creation → Creation
  summary_event zero s = s
  summary_event (suc n) s = in_world (emit (text_append check ":retry-summary") "done" "") s

  summarised : Ending → Ending
  unfolding summary_event
  summarised (blocked s) = blocked s
  summarised (finished sum s) = finished sum (summary_event sum.queued s)

  after_pass : Pass → Option Ending
  unfolding retry_phase summarised
  after_pass (stopped s) = some (blocked s)
  after_pass (passed qs s) =
      elim (retry_phase
        (record { queued = length qs; retry_succeeded = 0; retry_exhausted = 0; remaining = [] }) qs
        s) [ none ↦ none | some e ↦ some (summarised e) ]

  pub create_images : List Image → Creation → Option Ending
  unfolding first_pass after_pass
  create_images images s = elim (first_pass images s) [ none ↦ none | some p ↦ after_pass p ]

-- How execute_instance_create ends. An exception of the loop leaves it, or is `caught` where it is a
-- RuntimeError, and the item is put into the error queue of the state that it left, which is not
-- modelled.
pub data Created : Type 0 where
  skipped : World → Created
  locked : World → Created
  raised : Created
  caught : QueueItem → Created
  ended : Ending → Created

-- The lock is released.
unlocked : String → Ending → Ending
unlocked check (blocked s) = blocked (in_world (emit (text_append check ":lock") "unlocked" "") s)
unlocked check (finished sum s) =
    finished sum (in_world (emit (text_append check ":lock") "unlocked" "") s)

-- What is done while the check's lock is held.
module _ (check : String)
    (attempt : ℕ → Image → List Image → Creation → Option (ImageCreateResult × Creation)) where
  escaping : Option QueueItem → Created
  escaping none = raised
  escaping (some item) = caught item

  while_locked : Option QueueItem → List Image → Creation → Created
  unfolding create_images unlocked escaping
  while_locked runtime [] s = skipped (
      emit (text_append check ":lock") "unlocked" ""
        (emit check "skipped" "instance_image_unresolved" s.world))
  while_locked runtime (i ∷ rest) s = elim (create_images check attempt (i ∷ rest) s) [
    | none ↦ escaping runtime
    | some e ↦ ended (unlocked check e)
  ]

  -- `valid` is that of the validated instances, `ready` what preflight says, `free` whether the
  -- lock of the check can be taken; `lock_item` is the error of a lock that cannot, and `runtime` that of
  -- the loop, if its exception is a RuntimeError.
  pub execute_instance_create :
      (valid ready free : Bool) (labels : List String) (instances : List Image)
      → QueueItem
      → Option QueueItem
      → Creation
      → Created
  unfolding while_locked
  execute_instance_create valid ready free labels instances lock_item runtime s =
      if not valid
      then skipped (emit check "skipped" "instance_missing_required_inputs" s.world)
      else if not ready
      then skipped (emit check "skipped" "instance_missing_required_inputs" s.world)
      else if not free
      then locked (queue_error lock_item "" s.world)
      else while_locked runtime (selected_round_instances labels instances)
          (in_world (emit (text_append check ":lock") "locked" "") s)
