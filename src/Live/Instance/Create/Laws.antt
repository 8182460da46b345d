-- ===== src/Live/Instance/Create/Laws.antt =====
-- How many attempts the loop makes, where it stops, and what its summary counts.
use fptcloud_hc_automation_m.Base.{ℕ, ◌+◌, ◌*◌, ◌≤◌, Bool, true, false, some, List, [], ◌≡◌, length}
use fptcloud_hc_automation_m.Live.Commands.{tally, is_apply}
use fptcloud_hc_automation_m.Live.Instance.Attempt.{
  Image, ImageCreateResult, Creation, Setting, attempt_image,
}
use fptcloud_hc_automation_m.Live.Instance.Create.Exhausted.{AllUsedUp}
use fptcloud_hc_automation_m.Live.Instance.Create.{
  Summary, Ending, blocked, finished, Pass, stopped, passed, Fate, quota, retried, exhausted,
  Verdict, stop,
}

abbrev pub applies : Creation → ℕ
applies s = tally is_apply s.world.given

module _ (c : Setting) where
  -- A state in which the run is blocked, and which an attempt left that met a quota.
  pub record IsLast (v : Creation) : Type 0 where
    pub run_blocked : v.context.run_blocked ≡ true
    pub waits : v.context.user_action_required ≡ true
    pub number : ℕ
    pub image : Image
    pub rest : List Image
    pub before : Creation
    pub result : ImageCreateResult
    pub ends : attempt_image c number image rest before ≡ some (result, v)
    pub is_quota : result.is_quota ≡ true

  -- From `s`, at most `n` applies, and no quota was met.
  pub record IsOpen (n : ℕ) (s v : Creation) : Type 0 where
    pub within_limit : applies v ≤ applies s + n
    pub same_block : v.context.run_blocked ≡ s.context.run_blocked

  record IsClosed (n : ℕ) (s v : Creation) : Type 0 where
    within_limit : applies v ≤ applies s + n
    last : IsLast v

  IsPassed : List Image → Creation → Pass → Type 0
  IsPassed images s (stopped v) = IsClosed (length images) s v
  IsPassed images s (passed qs v) = IsOpen (length images) s v × (length qs ≤ length images)

  stops : Verdict → Bool
  stops stop = true
  stops _ = false

  IsFate : ℕ → Creation → Fate → Type 0
  IsFate n s (quota v) = IsClosed n s v
  IsFate n s (retried v) = IsOpen n s v
  IsFate n s (exhausted v) = IsOpen n s v

  -- What the summary says, when `n` entries of the queue were left to be tried.
  pub record IsCounted (n : ℕ) (sum t : Summary) : Type 0 where
    pub same_queued : t.queued ≡ sum.queued
    pub all_tried :
        t.retry_succeeded + t.retry_exhausted ≡ sum.retry_succeeded + sum.retry_exhausted + n
    pub left_over :
        length t.remaining + sum.retry_exhausted ≡ length sum.remaining + t.retry_exhausted
    pub used_up : AllUsedUp c sum.remaining → AllUsedUp c t.remaining

  IsEnded : ℕ → ℕ → Summary → Creation → Ending → Type 0
  IsEnded k n sum s (blocked v) = IsClosed k s v
  IsEnded k n sum s (finished t v) = IsOpen k s v × IsCounted n sum t

  -- How the creation of `n` instances from `s` ends. Either the last attempt met a quota, and the
  -- run is blocked; or no attempt did, every failure of the first pass that was queued has been
  -- tried again, and what remains is what used up its attempts: its second and its third one
  -- failed.
  pub IsCreated : ℕ → Creation → Ending → Type 0
  IsCreated n s (blocked v) = (applies v ≤ applies s + 3 * n) × IsLast v
  IsCreated n s (finished t v) =
      (applies v ≤ applies s + 3 * n)
      × (v.context.run_blocked ≡ s.context.run_blocked)
      × (t.queued ≤ n)
      × (t.retry_succeeded + t.retry_exhausted ≡ t.queued)
      × (length t.remaining ≡ t.retry_exhausted)
      × AllUsedUp c t.remaining

  first_summary : ℕ → Summary
  first_summary n = record { queued = n; retry_succeeded = 0; retry_exhausted = 0; remaining = [] }
