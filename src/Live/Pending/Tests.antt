-- ===== src/Live/Pending/Tests.antt =====
-- A check that is still pending at the deadline.
use fptcloud_hc_automation_m.Base.{String, List, [], ◌∷◌}
use fptcloud_hc_automation_m.Live.{World, QueueItem}
use fptcloud_hc_automation_m.Live.Samples.{empty_world}
use fptcloud_hc_automation_m.Live.Pending.{with_pending}

abbrev items : List QueueItem
items =
    record { check = "c"; workspace = "w"; resources = []; reason = "" }
    ∷ record { check = "d"; workspace = "x"; resources = []; reason = "" }
    ∷ []

abbrev before : World
before = with_pending items empty_world

abbrev no_lines : String → List String
no_lines s = []
