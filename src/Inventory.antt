-- ===== src/Inventory.antt =====
-- The read-only instance inventory (src/hc/inventory/fptcloud_inventory.py): who may be reclaimed,
-- and which instance is.
pub mod Listing
pub mod Laws
pub mod Names
use fptcloud_hc_automation_m.Base.{
  ℕ, zero, suc, ◌+◌, String, Bool, true, false, not, ◌&&◌, ◌||◌, Option, none, some, List, [], ◌∷◌,
  ◌==◌, if◌then◌else◌, eqb, ltb, leb, any, keep, codes, lower, lower_code, same_codes, is_prefix,
  Dict, lookup,
}

pub record TagEntry : Type 0 where
  pub id : String
  pub key : String
  pub value : String
  pub scope_type : String
  pub color : String

pub record InventoryInstance : Type 0 where
  pub instance_id : String
  pub name : String
  pub status : String
  pub vpc_id : String
  pub created_at : String
  pub os_label : String
  pub tags : List TagEntry

-- [a-z0-9], of a text in lower case.
unfoldable pub alnum : ℕ → Bool
alnum n = (leb b'a' n && leb n b'z') || (leb b'0' n && leb n b'9')

-- The number of leading characters of the class, and what follows them.
alnum_run : List ℕ → ℕ × List ℕ
unfolding alnum
alnum_run [] = (0, [])
alnum_run (n ∷ ns) = let (k, rest) = alnum_run ns in if alnum n then (k + 1, rest) else (0, n ∷ ns)

-- `$`: the end of the text, or before a newline that ends it.
at_end : List ℕ → Bool
at_end [] = true
at_end (n ∷ []) = eqb n 10
at_end (n ∷ m ∷ ns) = false

abbrev after : List ℕ → List ℕ → List ℕ
after [] ns = ns
after (p ∷ ps) [] = []
after (p ∷ ps) (n ∷ ns) = after ps ns

-- `prefix`, then a run of the class whose length and rest meet a test.
starts_run : String → (ℕ → List ℕ → Bool) → List ℕ → Bool
unfolding alnum_run
starts_run prefix test name =
    let (k, rest) = alnum_run (after (codes prefix) name) in
    is_prefix (codes prefix) name && test k rest

-- HC_NAME_RE, which ignores case: ^hc(?:vm-[a-z0-9]|w[a-z0-9]{6,14}$|l-[a-z0-9]{8})
pub is_hc_name : String → Bool
unfolding starts_run at_end
is_hc_name name =
    starts_run "hcvm-" (λ k rest. leb 1 k) (lower name)
    || starts_run "hcw" (λ k rest. leb 6 k && leb k 14 && at_end rest) (lower name)
    || starts_run "hcl-" (λ k rest. leb 8 k) (lower name)

unfoldable pub is_hc_tagged : InventoryInstance → Bool
is_hc_tagged i =
    any
      (λ t.
        (t.key == "managed_by" && t.value == "health-check")
        || (t.key == "health_check" && same_codes (lower t.value) (codes "true")))
      i.tags

unfoldable pub of_run : String → InventoryInstance → Bool
of_run run_id i = any (λ t. t.key == "hc_run_id" && t.value == run_id) i.tags

pub is_eligible : String → InventoryInstance → Bool
is_eligible current_run_id i =
    if not (is_hc_name i.name)
    then false
    else if not (is_hc_tagged i)
    then false
    else if of_run current_run_id i
    then false
    else true

-- The value of the first tag with the key.
first_value : String → List TagEntry → String
first_value key [] = ""
first_value key (t ∷ ts) = let rest = first_value key ts in if t.key == key then t.value else rest

abbrev or_text : String → String → String
or_text s d = if s == "" then d else s

pub age_key : InventoryInstance → String × String
unfolding first_value
age_key i =
    (or_text (first_value "hc_created_at" i.tags) (or_text i.created_at "9999"), i.instance_id)

-- RECLAIM_PRIORITY. The statuses are compared in lower case here, in upper case there.
status_priority : List ℕ → ℕ
status_priority s =
    if same_codes s (codes "powered_off") || same_codes s (codes "stopped")
    then 0
    else if same_codes s (codes "powered_on")
        || same_codes s (codes "active")
        || same_codes s (codes "running")
    then 1
    else 2

pub reclaim_priority : InventoryInstance → ℕ
unfolding status_priority
reclaim_priority i =
    if any (λ t. t.key == "hc_validated") i.tags then 0 else status_priority (lower i.status)

-- Python's order of texts: by code points, a prefix first.
pub lex_leb : List ℕ → List ℕ → Bool
lex_leb [] ys = true
lex_leb (x ∷ xs) [] = false
lex_leb (x ∷ xs) (y ∷ ys) = ltb x y || (eqb x y && lex_leb xs ys)

abbrev lex_ltb : List ℕ → List ℕ → Bool
lex_ltb xs ys = lex_leb xs ys && not (same_codes xs ys)

-- The order of the sort's keys `(i.reclaim_priority(), i.age_key())`.
pub key_leb : InventoryInstance → InventoryInstance → Bool
unfolding lex_leb
key_leb i j =
    let (t, a) = age_key i in
    let (u, b) = age_key j in
    ltb (reclaim_priority i) (reclaim_priority j)
    || (eqb (reclaim_priority i) (reclaim_priority j)
        && (lex_ltb (codes t) (codes u)
            || (same_codes (codes t) (codes u) && lex_leb (codes a) (codes b))))

-- `list.sort`, which is stable.
insert_by : InventoryInstance → List InventoryInstance → List InventoryInstance
insert_by i [] = i ∷ []
insert_by i (j ∷ js) = let rest = insert_by i js in if key_leb i j then i ∷ j ∷ js else j ∷ rest

sort_by_key : List InventoryInstance → List InventoryInstance
sort_by_key [] = []
sort_by_key (i ∷ is_) = insert_by i (sort_by_key is_)

first_of : List InventoryInstance → Option InventoryInstance
first_of [] = none
first_of (i ∷ _) = some i

pub select_oldest_reclaimable : List InventoryInstance → String → Option InventoryInstance
unfolding first_of sort_by_key insert_by
select_oldest_reclaimable instances current_run_id =
    first_of (sort_by_key (keep (is_eligible current_run_id) instances))
