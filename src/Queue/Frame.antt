-- ===== src/Queue/Frame.antt =====
-- What every method of the queue and the reaper keeps: an id that was seen stays seen, and a retry
-- that enters the schedule is within its policy. Proved for each server command, then for each
-- method as a composition of commands.
use fptcloud_hc_automation_m.Base.{
  ℕ, ◌≤◌, String, false, some, ◌≡◌, ◌⊎◌, inl, inr, refl, arith, ◌==◌, eq_iff, lookup, lookup-insert,
  lookup-keep_ne, Bool-cases,
}
use fptcloud_hc_automation_m.Queue.Task.{Codec, Scheduled}
use fptcloud_hc_automation_m.Queue.Redis.{
  Redis, Db, Fields, Key, stream_tasks, stream_dlq, zset_dedup, zset_scheduled, is_none, appended,
}

-- The id is in the dedup set.
abbrev pub Known : String → Db → Type 0
Known id d = is_none (lookup id d.dedup) ≡ false

abbrev pub IsScheduled : String → Db → Type 0
IsScheduled m d = is_none (lookup m d.scheduled) ≡ false

module _ (c : Codec) where
  -- The retry that the member stands for is one that its policy allows.
  abbrev pub Within : String → Type 0
  Within m =
      (s : Scheduled)
      → c.load_scheduled m ≡ some s
      → s.task.attempt ≤ s.task.retry_policy.max_attempts

  pub record Frame (d e : Db) : Type 0 where
    pub known : (id : String) → Known id d → Known id e
    pub retries : (m : String) → IsScheduled m e → IsScheduled m d ⊎ Within m

  pub Frame-refl : (d : Db) → Frame d d
  Frame-refl d = record { known = λ id h. h; retries = λ m h. inl h }

  pub Frame-trans : (d e f : Db) → Frame d e → Frame e f → Frame d f
  Frame-trans d e f a b = record {
    known = λ id h. b.known id (a.known id h);
    retries = λ m h. elim (b.retries m h) [ inl old ↦ a.retries m old | inr w ↦ inr w ];
  }

  -- A command that leaves the dedup set and the schedule alone.
  pub Frame-same : (d e : Db) → e.dedup ≡ d.dedup → e.scheduled ≡ d.scheduled → Frame d e
  Frame-same d e p q = record { known = λ id h. rw p h; retries = λ m h. inl (rw q at h) }

module _ (c : Codec) (r : Redis) where
  pub Frame-xadd : (k : Key) (f : Fields) (d : Db) → Frame c d (r.xadd k f d).0
  Frame-xadd k f d = rw (r.xadd_lem k f d) (kept k)
    where
      kept : (k' : Key) → Frame c d (appended k' (record { id = (r.xadd k f d).1; fields = f }) d)
      kept stream_tasks = Frame-same c d _ refl refl
      kept stream_dlq = Frame-same c d _ refl refl
      kept zset_dedup = Frame-same c d _ refl refl
      kept zset_scheduled = Frame-same c d _ refl refl

  pub Frame-zadd_nx :
      (id : String) (score : ℕ) (d : Db) → Frame c d (r.zadd_nx zset_dedup id score d).0
  Frame-zadd_nx id score d = record {
    known = λ j h.
        ground (arith, r.zadd_nx_lem zset_dedup id score d, lookup-insert id j score d.dedup);
    retries = λ m h. inl (ground (arith, r.zadd_nx_lem zset_dedup id score d));
  }

  pub Frame-xack : (id : String) (d : Db) → Frame c d (r.xack id d)
  Frame-xack id d = rw (r.xack_lem id d) (Frame-same c d _ refl refl)

  pub Frame-group : (d : Db) → Frame c d (r.xgroup_create d)
  Frame-group d =
      Frame-same c d _ (ground (arith, r.xgroup_create_lem d))
        (ground (arith, r.xgroup_create_lem d))

  pub Frame-read : (d : Db) → Frame c d (r.xreadgroup d).0
  Frame-read d =
      Frame-same c d _ (ground (arith, r.xreadgroup_lem d)) (ground (arith, r.xreadgroup_lem d))

  pub Frame-claim : (idle : ℕ) (id : String) (d : Db) → Frame c d (r.xclaim idle id d).0
  Frame-claim idle id d = let (p, e) = r.xclaim_keeps idle id d in rw e (Frame-same c d _ refl refl)

  pub Frame-zrem : (m : String) (d : Db) → Frame c d (r.zrem zset_scheduled m d)
  Frame-zrem m d = record {
    known = λ id h. ground (arith, r.zrem_lem zset_scheduled m d);
    retries =
        λ j h. inl (ground (arith, r.zrem_lem zset_scheduled m d, lookup-keep_ne m j d.scheduled));
  }

  -- A member may be scheduled if its retry is within its policy.
  pub Frame-zadd :
      (m : String) (score : ℕ) (d : Db) → Within c m → Frame c d (r.zadd zset_scheduled m score d)
  Frame-zadd m score d w = record {
    known = λ id h. ground (arith, r.zadd_lem zset_scheduled m score d);
    retries = λ j h. elim (Bool-cases (m == j)) [
      | inl same ↦ inr (rw ((eq_iff m j).0 same) at w)
      | inr other ↦
          inl (
            ground
              (arith, r.zadd_lem zset_scheduled m score d, lookup-insert m j score d.scheduled))
    ];
  }
