-- ===== src/Queue/Redis.antt =====
-- The Redis server as the queue uses it. The server is not part of the program: it is a parameter,
-- the record `Redis` of the commands with the documented effect of each on the data it holds.
-- A transaction (MULTI/EXEC, redis-py's pipeline) is the composition of its commands.
pub mod Reference
use fptcloud_hc_automation_m.Base.{
  ℕ, ◌+◌, String, Bool, true, false, not, Option, none, some, List, [], ◌∷◌, ◌++◌, ◌≡◌, ◌≢◌,
  if◌then◌else◌, leb, ltb, eqb, codes, ◌||◌, ◌==◌, keep, any, take, ◌&&◌, Dict, lookup, insert, map,
}

-- The fields of QueueSettings that name keys.
pub data Key : Type 0 where
  stream_tasks : Key
  stream_dlq : Key
  zset_dedup : Key
  zset_scheduled : Key

-- The fields of a stream entry: a task's payload, or those that `_move_to_dlq` writes.
pub data Fields : Type 0 where
  task_fields : String → Fields
  dlq_fields : String → String → String → ℕ → String → Fields

pub record Entry : Type 0 where
  pub id : String
  pub fields : Fields

-- A delivered entry that is not acknowledged: its id, and how long ago it was delivered.
pub record Pending : Type 0 where
  pub message_id : String
  pub idle : ℕ

-- What the server holds, as one consumer group of the task stream sees it.
pub record Db : Type 0 where
  pub tasks : List Entry
  pub dlq : List Entry
  pub dedup : Dict ℕ
  pub scheduled : Dict ℕ
  pub undelivered : List Entry
  pub pending : List Pending
  pub has_group : Bool

abbrev pub stream : Key → Db → List Entry
stream stream_tasks d = d.tasks
stream stream_dlq d = d.dlq
stream zset_dedup d = []
stream zset_scheduled d = []

abbrev pub zset : Key → Db → Dict ℕ
zset zset_dedup d = d.dedup
zset zset_scheduled d = d.scheduled
zset stream_tasks d = []
zset stream_dlq d = []

-- A new entry at the end of a stream; the group of the task stream has still to be given it.
abbrev pub appended : Key → Entry → Db → Db
appended stream_tasks e d = record d {
  tasks = d.tasks ++ e ∷ [];
  undelivered = d.undelivered ++ e ∷ [];
}
appended stream_dlq e d = record d { dlq = d.dlq ++ e ∷ [] }
appended zset_dedup e d = d
appended zset_scheduled e d = d

abbrev pub with_zset : Key → Dict ℕ → Db → Db
with_zset zset_dedup z d = record d { dedup = z }
with_zset zset_scheduled z d = record d { scheduled = z }
with_zset stream_tasks z d = d
with_zset stream_dlq z d = d

abbrev pub entry_at : String → List Entry → Option Entry
entry_at id [] = none
entry_at id (e ∷ es) = let rest = entry_at id es in if e.id == id then some e else rest

abbrev pub without : String → List Pending → List Pending
without id ps = keep (λ p. not (p.message_id == id)) ps

abbrev pub is_none {ℓ} : {A : Type ℓ} → Option A → Bool
is_none none = true
is_none (some _) = false

-- ZREM key member
abbrev pub zremoved : String → Dict ℕ → Dict ℕ
zremoved m z = keep (λ e. not (e.0 == m)) z

-- The members with a score of at most `now`, at most `limit` of them.
-- Texts in the order of their code points, a prefix first.
abbrev text_leb : List ℕ → List ℕ → Bool
text_leb [] ys = true
text_leb (x ∷ xs) [] = false
text_leb (x ∷ xs) (y ∷ ys) = ltb x y || (eqb x y && text_leb xs ys)

-- The order of a sorted set: by score, and by member where scores are equal.
abbrev pub ranked_leb : String × ℕ → String × ℕ → Bool
ranked_leb (m, s) (n, t) = ltb s t || (eqb s t && text_leb (codes m) (codes n))

unfoldable pub ranked_in : String × ℕ → Dict ℕ → Dict ℕ
ranked_in e [] = e ∷ []
ranked_in e (f ∷ fs) = let rest = f ∷ ranked_in e fs in if ranked_leb e f then e ∷ f ∷ fs else rest

unfoldable pub ranked : Dict ℕ → Dict ℕ
unfolding ranked_in
ranked [] = []
ranked (e ∷ es) = ranked_in e (ranked es)

-- ZRANGEBYSCORE -inf now LIMIT 0 limit
abbrev pub due_members : ℕ → ℕ → Dict ℕ → List String
due_members now limit z = take limit (map (λ e. e.0) (keep (λ e. leb e.1 now) (ranked z)))

-- XREADGROUP with ">" and count 1: the next entry goes to the consumer's pending list.
abbrev pub delivered : List Entry → Db → Db × Option Entry
delivered [] d = (d, none)
delivered (e ∷ es) d = (
  record d { undelivered = es; pending = d.pending ++ record { message_id = e.id; idle = 0 } ∷ [] },
  some e,
)

abbrev pub listed {ℓ} : {A : Type ℓ} → Option A → List A
listed none = []
listed (some a) = a ∷ []

abbrev pub claimable : ℕ → String → Db → List Entry
claimable idle id d =
    if any (λ p. p.message_id == id && leb idle p.idle) d.pending
    then listed (entry_at id d.tasks)
    else []

pub record Redis : Type 0 where
  -- ZADD NX answers how many members it added.
  pub zadd_nx : Key → String → ℕ → Db → Db × ℕ
  pub zadd_nx_lem :
      (k : Key) (m : String) (score : ℕ) (d : Db)
      → zadd_nx k m score d ≡ (
          if is_none (lookup m (zset k d))
          then (with_zset k (insert m score (zset k d)) d, 1)
          else (d, 0))
  pub zadd : Key → String → ℕ → Db → Db
  pub zadd_lem :
      (k : Key) (m : String) (score : ℕ) (d : Db)
      → zadd k m score d ≡ with_zset k (insert m score (zset k d)) d
  pub zrem : Key → String → Db → Db
  pub zrem_lem :
      (k : Key) (m : String) (d : Db) → zrem k m d ≡ with_zset k (zremoved m (zset k d)) d
  pub zrangebyscore : Key → ℕ → ℕ → Db → List String
  pub zrangebyscore_lem :
      (k : Key) (now limit : ℕ) (d : Db)
      → zrangebyscore k now limit d ≡ due_members now limit (zset k d)
  -- XADD answers the id that the server chose.
  pub xadd : Key → Fields → Db → Db × String
  pub xadd_lem :
      (k : Key) (f : Fields) (d : Db)
      → (xadd k f d).0 ≡ appended k (record { id = (xadd k f d).1; fields = f }) d
  pub xrange : Key → String → Db → Option Entry
  pub xrange_lem : (k : Key) (id : String) (d : Db) → xrange k id d ≡ entry_at id (stream k d)
  pub xack : String → Db → Db
  pub xack_lem : (id : String) (d : Db) → xack id d ≡ record d { pending = without id d.pending }
  -- XGROUP CREATE with id 0 and MKSTREAM: an existing group is an error (BUSYGROUP), and is kept.
  pub xgroup_create : Db → Db
  pub xgroup_create_lem :
      (d : Db)
      → xgroup_create d ≡ (
          if d.has_group
          then d
          else record d { has_group = true; undelivered = d.tasks; pending = [] })
  pub xreadgroup : Db → Db × Option Entry
  pub xreadgroup_lem : (d : Db) → xreadgroup d ≡ delivered d.undelivered d
  -- XPENDING: the first entries of the pending list.
  pub xpending_range : ℕ → Db → List Pending
  pub xpending_range_lem : (n : ℕ) (d : Db) → xpending_range n d ≡ take n d.pending
  -- XCLAIM of one id answers the entry if it was pending that long and is still in the stream;
  -- it changes whose the entry is and how long it has been idle, nothing else.
  pub xclaim : ℕ → String → Db → Db × List Entry
  pub xclaim_lem : (idle : ℕ) (id : String) (d : Db) → (xclaim idle id d).1 ≡ claimable idle id d
  pub xclaim_keeps :
      (idle : ℕ) (id : String) (d : Db)
      → (p : List Pending) × ((xclaim idle id d).0 ≡ record d { pending = p })
