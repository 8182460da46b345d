-- ===== src/Live/Pending.antt =====
-- Waiting for checks that are pending (wait_for_pending of src/healthcheck/instance_runner.py). The
-- text of a pending item's reason is left out, and is empty.
pub mod Laws
mod Tests
use fptcloud_hc_automation_m.Base.{
  ℕ, zero, suc, String, Bool, true, false, Option, none, some, List, [], ◌∷◌, ◌++◌, ◌>>=◌,
}
use fptcloud_hc_automation_m.Queue.Json.{Json}
use fptcloud_hc_automation_m.Live.{World, Terraform, QueueItem, emit, queue_error}
use fptcloud_hc_automation_m.Live.Workspace.{readiness}

abbrev or_list : List String → List String → List String
or_list [] ys = ys
or_list xs ys = xs

unfoldable with_pending : List QueueItem → World → World
with_pending items w = record {
  given = w.given;
  events = w.events;
  stage_status = w.stage_status;
  pending_queue = items;
  error_queue = w.error_queue;
}

-- After the deadline, what is left becomes an error.
unfoldable time_out : List QueueItem → World → World
time_out [] w = with_pending [] w
time_out (q ∷ qs) w = time_out qs (queue_error q "" w)

module _ (text_of : Json → String) (loads : String → Option Json) (lines : String → List String)
    (tf : Terraform) where
  -- One item that was taken from the queue; `none` is an exception of the reading.
  polled : QueueItem → Option (Bool × List String) × World → Option World
  polled q (none, w) = none
  polled q (some (true, resources), w) = some (emit q.check "ready" "" w)
  polled q (some (false, resources), w) = some (
      emit q.check "waiting" "" (
        with_pending
          (w.pending_queue
            ++ record {
              check = q.check;
              workspace = q.workspace;
              resources = or_list resources q.resources;
              reason = "";
            }
              ∷ [])
          w))

  -- The number is that of the items that are polled before the deadline, which the clock decides.
  pub wait_for_pending : ℕ → World → Option World
  unfolding polled
  wait_for_pending zero w = some (time_out w.pending_queue w)
  wait_for_pending (suc n) w = elim w.pending_queue [
    | [] ↦ some w
    | q ∷ qs ↦
        polled q (readiness text_of loads lines tf q.workspace (with_pending qs w))
        >>= (λ v. wait_for_pending n v)
  ]
