-- ===== src/Queue/Producer/Tests.antt =====
-- A file of two checks, of which one is enqueued.
use fptcloud_hc_automation_m.Base.{◌+◌, ◌≤◌, String, true, [], ◌≡◌, refl, length, lookup, strip}
use fptcloud_hc_automation_m.Queue.Json.{
  Json, str, obj, arr, cons, nil, end, member, get, truthy, items,
}
use fptcloud_hc_automation_m.Queue.Task.{Codec}
use fptcloud_hc_automation_m.Queue.Redis.{Db}
use fptcloud_hc_automation_m.Queue.Redis.Reference.{reference}
use fptcloud_hc_automation_m.Queue.Wire.Values.{codec}
use fptcloud_hc_automation_m.Queue.RedisQueue.{enqueue}
use fptcloud_hc_automation_m.Queue.Producer.{
  SpecFile, document, Counts, ok, create_health_checks, load_checks, build_tasks, task_from_check,
  enqueue_all,
}
use fptcloud_hc_automation_m.Queue.Producer.Rerun.{rerun_lem}
use fptcloud_hc_automation_m.Queue.Producer.Laws.{counts_add_up}

abbrev as_text : Json → String
as_text (str s) = s
as_text _ = "{}"

abbrev texts : Codec
texts = record codec { text_of = as_text }

abbrev empty_db : Db
empty_db = record {
  tasks = [];
  dlq = [];
  dedup = [];
  scheduled = [];
  undelivered = [];
  pending = [];
  has_group = true;
}

abbrev file : SpecFile
file = document (
    obj (
      member "checks"
        (arr (
          cons (obj (member "tc_id" (str "TC-001") end))
            (cons (obj (member "id" (str "TC-002") end)) nil)))
        end))

abbrev tally : Counts
tally = record { loaded = 2; enqueued_count = 1; duplicates = 0; deferred = 1 }

abbrev produced : Db
produced = (create_health_checks texts reference 5 file "run-1" "t" 1 empty_db).0

file_counts :
    create_health_checks texts reference 5 file "run-1" "t" 1 empty_db ≡ (produced, ok tally)
unfolding create_health_checks load_checks get items build_tasks task_from_check strip truthy
    enqueue_all enqueue lookup
file_counts = refl

counts_add_up_example : (1 + 0 + 1 ≡ 2) × (1 + 0 ≤ 1) × (length produced.tasks ≡ 0 + 1)
counts_add_up_example =
    counts_add_up texts reference 5 file "run-1" "t" 1 empty_db produced tally file_counts

rerun_lem_example :
    create_health_checks texts reference 9 file "run-1" "t" 1 produced
    ≡ (produced, ok (record { loaded = 2; enqueued_count = 0; duplicates = 1; deferred = 1 }))
rerun_lem_example =
    rerun_lem texts reference 5 9 file "run-1" "t" 1 empty_db produced tally file_counts
