-- ===== src/Queue/Wire/Values.antt =====
-- JSON values as instructions of a stack, then tasks and scheduled retries.
use fptcloud_hc_automation_m.Base.{
  ℕ, zero, suc, String, Bool, true, false, Option, none, some, List, [], ◌∷◌, ◌≡◌, refl, ap, ◌∙◌,
}
use fptcloud_hc_automation_m.Queue.Json.{
  Json, null, bool, num, str, arr, obj, Items, nil, cons, Members, end, member,
}
use fptcloud_hc_automation_m.Queue.Task.{RetryPolicy, TaskSpec, Scheduled, Codec}
use fptcloud_hc_automation_m.Queue.Wire.{Wire, nat, text, pair, via, list, optional}

data Token : Type 0 where
  t_null : Token
  t_bool : Bool → Token
  t_num : ℕ → Token
  t_str : String → Token
  t_nil : Token
  t_cons : Token
  t_end : Token
  t_member : String → Token

abbrev to_fields : Token → ℕ × String
to_fields t_null = (0, "")
to_fields (t_bool true) = (1, "")
to_fields (t_bool false) = (2, "")
to_fields (t_str s) = (3, s)
to_fields t_nil = (4, "")
to_fields t_cons = (5, "")
to_fields t_end = (6, "")
to_fields (t_member k) = (7, k)
to_fields (t_num n) = (suc (suc (suc (suc (suc (suc (suc (suc n))))))), "")

abbrev from_fields : ℕ × String → Token
from_fields (zero, s) = t_null
from_fields (suc zero, s) = t_bool true
from_fields (suc (suc zero), s) = t_bool false
from_fields (suc (suc (suc zero)), s) = t_str s
from_fields (suc (suc (suc (suc zero))), s) = t_nil
from_fields (suc (suc (suc (suc (suc zero)))), s) = t_cons
from_fields (suc (suc (suc (suc (suc (suc zero))))), s) = t_end
from_fields (suc (suc (suc (suc (suc (suc (suc zero)))))), s) = t_member s
from_fields (suc (suc (suc (suc (suc (suc (suc (suc n))))))), s) = t_num n

from-to_fields : (t : Token) → from_fields (to_fields t) ≡ t
from-to_fields t_null = refl
from-to_fields (t_bool true) = refl
from-to_fields (t_bool false) = refl
from-to_fields (t_num n) = refl
from-to_fields (t_str s) = refl
from-to_fields t_nil = refl
from-to_fields t_cons = refl
from-to_fields t_end = refl
from-to_fields (t_member k) = refl

-- What an instruction makes of the stack.
abbrev push_on : Token → List Json → List Json
push_on t_null st = null ∷ st
push_on (t_bool b) st = bool b ∷ st
push_on (t_num n) st = num n ∷ st
push_on (t_str s) st = str s ∷ st
push_on t_nil st = arr nil ∷ st
push_on t_end st = obj end ∷ st
push_on t_cons (v ∷ arr vs ∷ st) = arr (cons v vs) ∷ st
push_on (t_member k) (v ∷ obj d ∷ st) = obj (member k v d) ∷ st
push_on _ st = st

run : List Token → List Json → List Json
run [] st = st
run (t ∷ ts) st = run ts (push_on t st)

mutual
  tokens : Json → List Token → List Token
  tokens null ts = t_null ∷ ts
  tokens (bool b) ts = t_bool b ∷ ts
  tokens (num n) ts = t_num n ∷ ts
  tokens (str s) ts = t_str s ∷ ts
  tokens (arr vs) ts = item_tokens vs ts
  tokens (obj d) ts = member_tokens d ts

  item_tokens : Items → List Token → List Token
  item_tokens nil ts = t_nil ∷ ts
  item_tokens (cons v vs) ts = item_tokens vs (tokens v (t_cons ∷ ts))

  member_tokens : Members → List Token → List Token
  member_tokens end ts = t_end ∷ ts
  member_tokens (member k v d) ts = member_tokens d (tokens v (t_member k ∷ ts))

mutual
  unfolding run tokens item_tokens member_tokens

  run-tokens :
      (j : Json) (ts : List Token) (st : List Json) → run (tokens j ts) st ≡ run ts (j ∷ st)
  run-tokens null ts st = refl
  run-tokens (bool b) ts st = refl
  run-tokens (num n) ts st = refl
  run-tokens (str s) ts st = refl
  run-tokens (arr vs) ts st = run-items vs ts st
  run-tokens (obj d) ts st = run-members d ts st

  run-items :
      (vs : Items) (ts : List Token) (st : List Json)
      → run (item_tokens vs ts) st ≡ run ts (arr vs ∷ st)
  run-items nil ts st = refl
  run-items (cons v vs) ts st =
      run-items vs (tokens v (t_cons ∷ ts)) st ∙ run-tokens v (t_cons ∷ ts) (arr vs ∷ st)

  run-members :
      (d : Members) (ts : List Token) (st : List Json)
      → run (member_tokens d ts) st ≡ run ts (obj d ∷ st)
  run-members end ts st = refl
  run-members (member k v d) ts st =
      run-members d (tokens v (t_member k ∷ ts)) st ∙ run-tokens v (t_member k ∷ ts) (obj d ∷ st)

abbrev top : List Json → Json
top [] = null
top (j ∷ _) = j

read_back : (j : Json) → top (run (tokens j []) []) ≡ j
unfolding run
read_back j = ap top (run-tokens j [] [])

abbrev value : Wire Json
value =
    via (λ j. tokens j []) (λ ts. top (run ts [])) read_back
      (list (via to_fields from_fields from-to_fields (pair nat text)))

abbrev policy : Wire RetryPolicy
policy =
    via (λ p. (p.max_attempts, (p.base_seconds, (p.max_seconds, p.jitter))))
      (λ (a, (b, (m, j))). record {
        max_attempts = a;
        base_seconds = b;
        max_seconds = m;
        jitter = j;
      })
      (λ p. refl) (pair nat (pair nat (pair nat nat)))

abbrev task : Wire TaskSpec
task =
    via
      (λ t. (
        t.run_id,
        (
          t.tc_id,
          (
            t.tenant_id,
            (
              t.spec_hash,
              (
                t.task_id,
                (
                  t.category,
                  (
                    t.description,
                    (t.spec, (t.attempt, (t.retry_policy, (t.enqueued_at, t.parent_task_id)))),
                  ),
                ),
              ),
            ),
          ),
        ),
      ))
      (λ (a, (b, (c, (d, (e, (f, (g, (h, (i, (j, (k, l))))))))))). record {
        run_id = a;
        tc_id = b;
        tenant_id = c;
        spec_hash = d;
        task_id = e;
        category = f;
        description = g;
        spec = h;
        attempt = i;
        retry_policy = j;
        enqueued_at = k;
        parent_task_id = l;
      })
      (λ t. refl)
      (pair text (
        pair text (
          pair text (
            pair text (
              pair text (
                pair text (
                  pair text (
                    pair value
                      (pair nat (pair policy (pair (optional nat) (optional text))))))))))))

abbrev scheduled : Wire Scheduled
scheduled =
    via (λ m. (m.entry_id, (m.task, m.reason)))
      (λ (e, (t, m)). record { entry_id = e; task = t; reason = m }) (λ m. refl)
      (pair text (pair task text))

abbrev whole {ℓ} : {A : Type ℓ} → Option (A × String) → Option A
whole none = none
whole (some (a, s)) = some a

-- The texts of this serialiser; the identity stands for the hash.
pub codec : Codec
codec = record {
  dump_json = λ t. task.put t "";
  validate_json = λ s. whole (task.get s);
  validate-dump = λ t. ap whole (task.get-put t "");
  dump_scheduled = λ m. scheduled.put m "";
  load_scheduled = λ s. whole (scheduled.get s);
  load-dump = λ m. ap whole (scheduled.get-put m "");
  sha256 = λ s. s;
  dumps = λ j. value.put j "";
  text_of = λ j. value.put j "";
}
