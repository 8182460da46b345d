-- ===== src/Live/Workspace/Laws.antt =====
-- What reading a workspace leaves alone.
use fptcloud_hc_automation_m.Base.{String, Option, List, [], ◌∷◌, ◌≡◌, refl}
use fptcloud_hc_automation_m.Queue.Json.{Json}
use fptcloud_hc_automation_m.Live.{World, Terraform, give}
use fptcloud_hc_automation_m.Live.Commands.{IsQuiet}
use fptcloud_hc_automation_m.Live.Workspace.{state_resources, state_json, after_listing, readiness}

-- The queues and the events of two worlds are the same, and only readings stand between them.
pub record IsSameLog (v w : World) : Type 0 where
  pub events : v.events ≡ w.events
  pub pending : v.pending_queue ≡ w.pending_queue
  pub errors : v.error_queue ≡ w.error_queue
  pub quiet : IsQuiet v w

module _ (text_of : Json → String) (loads : String → Option Json) (lines : String → List String)
    (tf : Terraform) (workspace : String) where
  listing_log :
      (rs : List String) (w : World)
      → IsSameLog (after_listing text_of loads lines tf workspace (rs, w)).1 w
  unfolding after_listing state_json give
  listing_log [] w = record {
    events = refl;
    pending = refl;
    errors = refl;
    quiet = record { applies = refl; destroys = refl };
  }
  listing_log (r ∷ rs) w = record {
    events = refl;
    pending = refl;
    errors = refl;
    quiet = record { applies = refl; destroys = refl };
  }

  pub readiness_log : (w : World) → IsSameLog (readiness text_of loads lines tf workspace w).1 w
  unfolding readiness state_resources give
  readiness_log w =
      let (rs, after) = state_resources text_of loads lines tf workspace w in
      let l = listing_log rs after in
      record {
        events = l.events;
        pending = l.pending;
        errors = l.errors;
        quiet = record { applies = l.quiet.applies; destroys = l.quiet.destroys };
      }
