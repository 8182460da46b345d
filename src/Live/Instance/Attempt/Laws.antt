-- ===== src/Live/Instance/Attempt/Laws.antt =====
-- What an attempt does to the run: to the images and the context, and which commands it gives.
use Prim.Native.String.{◌++◌ as text_append}
use fptcloud_hc_automation_m.Base.{
  ℕ, ◌+◌, ◌≤◌, String, Bool, true, false, Option, none, some, [], ◌∷◌, ◌++◌, ◌≡◌, ◌&&◌, ◌||◌,
  if◌then◌else◌, ltb, not,
}
use fptcloud_hc_automation_m.Queue.Json.{Json}
use fptcloud_hc_automation_m.Classification.{Failure, is_quota_error}
use fptcloud_hc_automation_m.Live.Commands.{tally, is_apply, is_destroy}
use fptcloud_hc_automation_m.Live.Instance.Attempt.{ImageCreateResult, Creation, Setting}

abbrev pub is_quota_class : Option Failure → Bool
is_quota_class none = false
is_quota_class (some f) = is_quota_error f

module _ (c : Setting) (label : String) where
  -- What an attempt that is in `s` ends with, where `applied` says whether it gave an apply before:
  -- it gives at most `k` applies, and a destroy exactly if it succeeds and the instance is not to
  -- stay; it is a quota's exactly if an apply was given and it fails with a quota's classification;
  -- the run is blocked by a quota, and by nothing else; the image is listed exactly if the attempt
  -- succeeds; only a failure that is no quota may be tried again.
  pub record IsAttempt (applied : Bool) (k : ℕ) (s : Creation) (r : ImageCreateResult)
      (v : Creation) : Type 0 where
    pub grows : tally is_apply s.world.given ≤ tally is_apply v.world.given
    pub applies : tally is_apply v.world.given ≤ tally is_apply s.world.given + k
    pub destroys :
        tally is_destroy v.world.given
        ≡ tally is_destroy s.world.given + (if r.succeeded && c.delete_after_create then 1 else 0)
    pub blocked : v.context.run_blocked ≡ (s.context.run_blocked || r.is_quota)
    pub waits : r.is_quota ≡ true → v.context.user_action_required ≡ true
    pub listed : v.round.successful_images ≡ (
        if r.succeeded then s.round.successful_images ++ label ∷ [] else s.round.successful_images)
    pub quota : r.is_quota ≡ (
        (not r.succeeded
          && (applied || ltb (tally is_apply s.world.given) (tally is_apply v.world.given)))
        && is_quota_class r.classification)
    pub exclusive : (r.succeeded && r.is_quota) ≡ false
    pub retryable : r.retryable ≡ true → (r.succeeded ≡ false) × (r.is_quota ≡ false)
