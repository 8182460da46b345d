-- ===== src/Queue/Redis/Reference.antt =====
-- A server that meets the record `Redis`: it names entries by their number in the stream.
use Prim.Native.String.{◌++◌ as text_append}
use fptcloud_hc_automation_m.Base.{
  ℕ, zero, suc, String, true, List, [], ◌∷◌, refl, if◌then◌else◌, ◌==◌, take, length, lookup,
  insert,
}
use fptcloud_hc_automation_m.Queue.Redis.{
  Redis, Pending, stream, zset, appended, with_zset, entry_at, without, is_none, zremoved,
  due_members, delivered, claimable,
}

-- 1, 11, 111, …: one more digit for each entry.
abbrev tally : ℕ → String
tally zero = "1"
tally (suc n) = text_append "1" (tally n)

abbrev reset : String → List Pending → List Pending
reset id [] = []
reset id (p ∷ ps) = record p { idle = if p.message_id == id then 0 else p.idle } ∷ reset id ps

abbrev pub reference : Redis
reference = record {
  zadd_nx = λ k m score d.
      if is_none (lookup m (zset k d))
      then (with_zset k (insert m score (zset k d)) d, 1)
      else (d, 0);
  zadd_nx_lem = λ k m score d. refl;
  zadd = λ k m score d. with_zset k (insert m score (zset k d)) d;
  zadd_lem = λ k m score d. refl;
  zrem = λ k m d. with_zset k (zremoved m (zset k d)) d;
  zrem_lem = λ k m d. refl;
  zrangebyscore = λ k now limit d. due_members now limit (zset k d);
  zrangebyscore_lem = λ k now limit d. refl;
  xadd = λ k f d.
      let id = tally (length (stream k d)) in (appended k (record { id = id; fields = f }) d, id);
  xadd_lem = λ k f d. refl;
  xrange = λ k id d. entry_at id (stream k d);
  xrange_lem = λ k id d. refl;
  xack = λ id d. record d { pending = without id d.pending };
  xack_lem = λ id d. refl;
  xgroup_create = λ d.
      if d.has_group then d else record d { has_group = true; undelivered = d.tasks; pending = [] };
  xgroup_create_lem = λ d. refl;
  xreadgroup = λ d. delivered d.undelivered d;
  xreadgroup_lem = λ d. refl;
  xpending_range = λ n d. take n d.pending;
  xpending_range_lem = λ n d. refl;
  xclaim = λ idle id d. (record d { pending = reset id d.pending }, claimable idle id d);
  xclaim_lem = λ idle id d. refl;
  xclaim_keeps = λ idle id d. (reset id d.pending, refl);
}
