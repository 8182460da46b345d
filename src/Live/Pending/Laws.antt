-- ===== src/Live/Pending/Laws.antt =====
-- How the checks that are pending end.
use fptcloud_hc_automation_m.Base.{
  ℕ, zero, suc, ◌+◌, String, Bool, true, false, Option, none, some, List, [], ◌∷◌, ◌++◌, ◌==◌, ◌≡◌,
  refl, count, map, ◌&&◌, if◌then◌else◌, ◌>>=◌, bind_some,
}
use fptcloud_hc_automation_m.Queue.Json.{Json}
use fptcloud_hc_automation_m.Live.{World, Terraform, QueueItem, Event, emit, queue_error}
use fptcloud_hc_automation_m.Live.Commands.{IsQuiet, IsQuiet-trans}
use fptcloud_hc_automation_m.Live.Workspace.{readiness}
use fptcloud_hc_automation_m.Live.Workspace.Laws.{readiness_log}
use fptcloud_hc_automation_m.Live.Pending.{
  or_list, with_pending, time_out, polled, wait_for_pending,
}

-- The number of events that say that the check is ready.
abbrev pub ready_count : String → List Event → ℕ
ready_count c [] = 0
ready_count c (e ∷ es) = (if e.stage == c && e.status == "ready" then 1 else 0) + ready_count c es

abbrev checks : List QueueItem → List String
checks = map (λ q. q.check)

-- How often the check is pending, is in error or was found ready.
abbrev pub total : String → World → ℕ
total c w =
    count c (checks w.pending_queue) + count c (checks w.error_queue) + ready_count c w.events

-- Waiting applies and destroys nothing.
time_out-IsQuiet : (qs : List QueueItem) (w : World) → IsQuiet (time_out qs w) w
unfolding time_out with_pending queue_error emit
time_out-IsQuiet [] w = record { applies = refl; destroys = refl }
time_out-IsQuiet (q ∷ qs) w =
    let m = time_out-IsQuiet qs (queue_error q "" w) in
    record { applies = m.applies; destroys = m.destroys }

module _ (text_of : Json → String) (loads : String → Option Json) (lines : String → List String)
    (tf : Terraform) where
  polled-IsQuiet :
      (q : QueueItem) (o : Option (Bool × List String)) (u v : World)
      → polled text_of loads lines tf q (o, u) ≡ some v
      → IsQuiet v u
  unfolding polled with_pending emit
  polled-IsQuiet q none u v h = cc
  polled-IsQuiet q (some (true, rs)) u v h =
      let same : emit q.check "ready" "" u ≡ v = cc in
      rw (← same) (record { applies = refl; destroys = refl })
  polled-IsQuiet q (some (false, rs)) u v h =
      let again : QueueItem = record {
        check = q.check;
        workspace = q.workspace;
        resources = or_list rs q.resources;
        reason = "";
      } in
      let same : emit q.check "waiting" "" (with_pending (u.pending_queue ++ again ∷ []) u) ≡ v =
        cc in
      rw (← same) (record { applies = refl; destroys = refl })

  next-IsQuiet :
      (n : ℕ) (w v : World)
      → ((u : World) → wait_for_pending text_of loads lines tf n u ≡ some v → IsQuiet v u)
      → (qs : List QueueItem)
      → Path
          (Option World)
          (elim qs [
            | [] ↦ some w
            | q ∷ rest ↦
                polled text_of loads lines tf q
                  (readiness text_of loads lines tf q.workspace (with_pending rest w))
                >>= (λ u. wait_for_pending text_of loads lines tf n u)
          ])
          (some v)
      → IsQuiet v w
  unfolding with_pending
  next-IsQuiet n w v later [] h =
      let same : w ≡ v = cc in rw (← same) (record { applies = refl; destroys = refl })
  next-IsQuiet n w v later (q ∷ rest) h =
      let before : World = with_pending rest w in
      let r = readiness text_of loads lines tf q.workspace before in
      let (u, one, two) = bind_some (polled text_of loads lines tf q r) _ v h in
      let quiet = IsQuiet-trans v u before (later u two) (
        IsQuiet-trans u r.1 before (polled-IsQuiet q r.0 r.1 u one)
          (readiness_log text_of loads lines tf q.workspace before).quiet) in
      record { applies = quiet.applies; destroys = quiet.destroys }

  pub wait-IsQuiet :
      (n : ℕ) (w v : World) → wait_for_pending text_of loads lines tf n w ≡ some v → IsQuiet v w
  unfolding wait_for_pending
  wait-IsQuiet zero w v h =
      let same : time_out w.pending_queue w ≡ v = cc in
      rw (← same) (time_out-IsQuiet w.pending_queue w)
  wait-IsQuiet (suc n) w v h = next-IsQuiet n w v (λ u. wait-IsQuiet n u v) w.pending_queue h
