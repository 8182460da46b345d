-- ===== src/Live/Lock/Tests.antt =====
-- Two checks on one lock: the second is refused while the first holds it.
use fptcloud_hc_automation_m.Base.{◌≤◌, true, none, [], ◌∷◌, ◌≡◌, ◌↔◌, refl, count, mem}
use fptcloud_hc_automation_m.Live.Lock.{enter, exit, Locks, Step, Reachable}
use fptcloud_hc_automation_m.Live.Lock.Laws.{exclusive_lem}

abbrev held : Locks
held = record { files = "a" ∷ []; holders = "a" ∷ [] }

held_reached : Reachable held
unfolding enter exit mem
held_reached =
    Reachable.next (Reachable.next Reachable.start (Step.acquired "a" ("a" ∷ []) refl))
      (Step.refused "a" refl)

exclusive_lem_example :
    (count "a" held.holders ≤ 1) × ((enter "a" held.files ≡ none) ↔ (mem "a" held.holders ≡ true))
exclusive_lem_example = exclusive_lem held "a" held_reached
