-- ===== src/Live/Instance/Quota/Laws.antt =====
-- What an export sets in a report.
use fptcloud_hc_automation_m.Base.{
  ◌+◌, ◌≤◌, String, Bool, true, false, not, ◌||◌, ◌&&◌, none, some, List, [], ◌∷◌, if◌then◌else◌,
  any, mem, mem-count, count, Dict, keys, insert, lookup, lookup-insert, eq_iff, ◌==◌, Bool-cases,
  inl, inr, ◌≡◌, refl, ◌∙◌, arith,
}
use fptcloud_hc_automation_m.Queue.Json.{Json, str}
use fptcloud_hc_automation_m.Live.Instance.Quota.{
  find_export_value, is_null, noted, fill, available, mappings, apply_quota_export,
}

lookup-noted :
    (f k : String) (v : Json) (s : Dict Json × Bool)
    → lookup k (noted f v s).0 ≡ (if not (is_null v) && (f == k) then some v else lookup k s.0)
unfolding noted
lookup-noted f k v s = elim (Bool-cases (is_null v)) [
  | inl nothing ↦ rw nothing refl
  | inr found ↦ rw found (lookup-insert f k v s.0)
]

found-noted :
    (f : String) (v : Json) (s : Dict Json × Bool) → (noted f v s).1 ≡ (s.1 || not (is_null v))
unfolding noted
found-noted f v s = elim (Bool-cases (is_null v)) [
  | inl nothing ↦ rw nothing (ground arith)
  | inr found ↦ rw found (ground arith)
]

module _ (export : Json) where
  -- Whether the export has a value for a field.
  abbrev pub has_value : String × List String → Bool
  has_value e = not (is_null (find_export_value e.1 export))

  found-fill :
      (ms : Dict (List String)) (s : Dict Json × Bool)
      → (fill ms export s).1 ≡ (s.1 || any has_value ms)
  unfolding fill any
  found-fill [] s = ground arith
  found-fill ((f, cs) ∷ ms) s =
      let v = find_export_value cs export in
      found-fill ms (noted f v s) ∙ rw (found-noted f v s) (ground arith)

  lookup-fill_other :
      (ms : Dict (List String)) (s : Dict Json × Bool) (k : String)
      → mem k (keys ms) ≡ false
      → lookup k (fill ms export s).0 ≡ lookup k s.0
  unfolding fill mem
  lookup-fill_other [] s k absent = refl
  lookup-fill_other ((f, cs) ∷ ms) s k absent =
      let v = find_export_value cs export in
      let rest : mem k (keys ms) ≡ false = ground arith in
      let other : (f == k) ≡ false = ground (arith, eq_iff f k, eq_iff k f) in
      lookup-fill_other ms (noted f v s) k rest ∙ lookup-noted f k v s ∙ rw other (ground arith)

  lookup-fill :
      (ms : Dict (List String)) (s : Dict Json × Bool) (k : String) (cs : List String)
      → count k (keys ms) ≤ 1
      → lookup k ms ≡ some cs
      → lookup k (fill ms export s).0
        ≡ (if has_value (k, cs) then some (find_export_value cs export) else lookup k s.0)
  unfolding fill count lookup
  lookup-fill [] s k cs once there = absurd (cc there)
  lookup-fill ((f, ds) ∷ ms) s k cs once there =
      let v = find_export_value ds export in
      elim (Bool-cases (f == k)) [
        | inl here ↦
            let same : some ds ≡ some cs = rw here at there in
            let one : 1 + count k (keys ms) ≤ 1 = rw here at once in
            let absent : mem k (keys ms) ≡ false = ground (arith, mem-count k (keys ms)) in
            let e : ds ≡ cs = cc in
            lookup-fill_other ms (noted f v s) k absent
            ∙ lookup-noted f k v s
            ∙ rw (here, e) (ground arith)
        | inr other ↦
            let later : lookup k ms ≡ some cs = rw other at there in
            let fewer : count k (keys ms) ≤ 1 = omega arith in
            lookup-fill ms (noted f v s) k cs fewer later
            ∙ rw (lookup-noted f k v s, other) (ground arith)
      ]

abbrev distinct : List String → Bool
distinct [] = true
distinct (x ∷ xs) = not (mem x xs) && distinct xs

count-distinct : (xs : List String) (y : String) → distinct xs ≡ true → count y xs ≤ 1
unfolding count
count-distinct [] y h = omega arith
count-distinct (x ∷ xs) y h =
    ground (arith, count-distinct xs y, mem-count x xs, eq_iff x y, eq_iff y x)

mappings_once : (k : String) → count k (keys mappings) ≤ 1
unfolding mappings mem
mappings_once k = count-distinct (keys mappings) k refl

other_key :
    (j k : String) (cs : List String)
    → lookup j mappings ≡ none
    → lookup k mappings ≡ some cs
    → (j == k) ≡ false
other_key j k cs absent there = elim (Bool-cases (j == k)) [
  | inl same ↦ let e : j ≡ k = (eq_iff j k).0 same in absurd (cc (rw e at absent))
  | inr other ↦ other
]

source_absent : lookup "quota_source" mappings ≡ none
unfolding mappings lookup
source_absent = refl

status_absent : lookup "quota_status" mappings ≡ none
unfolding mappings lookup
status_absent = refl

status_free : mem "quota_status" (keys mappings) ≡ false
unfolding mappings mem
status_free = refl

lookup-available :
    (k : String) (s : Dict Json × Bool)
    → ("quota_source" == k) ≡ false
    → ("quota_status" == k) ≡ false
    → lookup k (available s) ≡ lookup k s.0
unfolding available
lookup-available k (u, false) a b = refl
lookup-available k (u, true) a b =
    let v = insert "quota_source" (str "HC_QUOTA_EXPORT_JSON") u in
    lookup-insert "quota_status" k (str "available") v
    ∙ rw b (lookup-insert "quota_source" k (str "HC_QUOTA_EXPORT_JSON") u ∙ rw a refl)

lookup-available_status :
    (s : Dict Json × Bool)
    → lookup "quota_status" (available s)
      ≡ (if s.1 then some (str "available") else lookup "quota_status" s.0)
unfolding available
lookup-available_status (u, false) = refl
lookup-available_status (u, true) =
    lookup-insert "quota_status" "quota_status" (str "available")
      (insert "quota_source" (str "HC_QUOTA_EXPORT_JSON") u)

-- A field of the report is what the export has for it, if it has something, and else what it was;
-- the status tells of an available quota if the export has a value for any field.
pub export_lem :
    (export : Json) (report : Dict Json) (k : String) (cs : List String)
    → lookup k mappings ≡ some cs
    → (lookup k (apply_quota_export report export) ≡ (
        if has_value export (k, cs) then some (find_export_value cs export) else lookup k report))
      × (lookup "quota_status" (apply_quota_export report export) ≡ (
          if any (has_value export) mappings
          then some (str "available")
          else lookup "quota_status" report))
unfolding apply_quota_export
export_lem export report k cs there =
    let s = fill mappings export (report, false) in
    let a = other_key "quota_source" k cs source_absent there in
    let b = other_key "quota_status" k cs status_absent there in
    let one = lookup-fill export mappings (report, false) k cs (mappings_once k) there in
    let found = found-fill export mappings (report, false) in
    let status = lookup-fill_other export mappings (report, false) "quota_status" status_free in
    (lookup-available k s a b ∙ one, lookup-available_status s ∙ rw (found, status) refl)
