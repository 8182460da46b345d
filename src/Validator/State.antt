-- ===== src/Validator/State.antt =====
-- TFStateValidator: paths into the Terraform state, and ManualValidator. `none` is `_MISSING`.
use mathlib.Core.Path.{subst}
use Prim.Native.Char.{code}
use Prim.Native.String.{◌++◌ as text_append}
use fptcloud_hc_automation_m.Base.{
  ℕ, zero, suc, ◌-◌, String, Bool, true, false, not, ◌&&◌, ◌||◌, Option, none, some, List, [], ◌∷◌,
  ◌++◌, ◌==◌, ◌≡◌, ◌≢◌, ◌↔◌, ◌⊎◌, inl, inr, refl, arith, if◌then◌else◌, eqb, ltb, strip, split_on,
  Bool-cases, keep, map,
}
use fptcloud_hc_automation_m.Queue.Json.{Json, null, arr, obj, Items, nil, cons, get}
use fptcloud_hc_automation_m.Validator.Model.{
  pass, fail, inconclusive, ValidationResult, result, ExpectedAssertion, Runtime, TfState, Index,
  at, back, get_resource_attrs, get_output, state_unavailable, requires_path, path_absent,
  path_not_found, note,
}
use fptcloud_hc_automation_m.Validator.Match.{is_true, string_match, Meets, string_match_iff}

-- s.replace(c, by), for a text `c` of one character.
abbrev replace_char : ℕ → String → String → String
replace_char c by String.[] = String.[]
replace_char c by (String.◌∷◌ d s) =
    let rest = replace_char c by s in
    if eqb (code d) c then text_append by rest else String.◌∷◌ d rest

abbrev starts_code : ℕ → String → Bool
starts_code c String.[] = false
starts_code c (String.◌∷◌ d s) = eqb (code d) c

-- The text without its last character, and whether that is `c`.
abbrev but_last : String → String
but_last String.[] = ""
but_last (String.◌∷◌ d s) = let rest = but_last s in if s == "" then "" else String.◌∷◌ d rest

abbrev ends_code : ℕ → String → Bool
ends_code c String.[] = false
ends_code c (String.◌∷◌ d s) = let rest = ends_code c s in if s == "" then eqb (code d) c else rest

-- A leading bracket is dropped, then quotes that surround the part.
abbrev unbracket : String → String
unbracket String.[] = ""
unbracket (String.◌∷◌ d s) = if eqb (code d) b'[' then s else String.◌∷◌ d s

abbrev unquote : String → String
unquote String.[] = ""
unquote (String.◌∷◌ d s) =
    if (eqb (code d) 39 || eqb (code d) 34) && ends_code (code d) s
    then but_last s
    else String.◌∷◌ d s

pub path_parts : String → List String
path_parts path =
    let trimmed = strip path in
    let normalized =
      if starts_code b'$' trimmed
      then replace_char b']' "" (replace_char b'[' ".[" trimmed)
      else trimmed in
    map (λ p. unquote (unbracket p))
      (keep (λ p. not (p == "")) (map strip (split_on b'.' normalized)))

-- items[i] by a Python index.
unfoldable pub item_at : Items → ℕ → Option Json
item_at nil n = none
item_at (cons v vs) zero = some v
item_at (cons v vs) (suc n) = item_at vs n

unfoldable pub size : Items → ℕ
size nil = 0
size (cons v vs) = suc (size vs)

pub item : Items → Option Index → Option Json
item vs none = none
item vs (some (at n)) = item_at vs n
item vs (some (back n)) = if ltb n (size vs) then item_at vs (size vs - 1 - n) else none

module _ (py : Runtime) where
  -- One step of `_walk`.
  pub walk_step : Json → String → Option Json
  unfolding item
  walk_step null part = none
  walk_step (obj d) part = get part d
  walk_step (arr vs) part = item vs (py.int_of part)
  walk_step v part = py.attribute v part

  pub walk : Json → List String → Option Json
  walk v [] = some v
  walk v (part ∷ parts) = elim (walk_step v part) [ none ↦ none | some w ↦ walk w parts ]

  -- To walk a path is to walk its first parts and then the rest.
  pub walk-append :
      (v : Json) (ps qs : List String)
      → walk v (ps ++ qs) ≡ elim (walk v ps) [ none ↦ none | some w ↦ walk w qs ]
  unfolding walk
  walk-append v [] qs = refl
  walk-append v (p ∷ ps) qs = next (walk_step v p) (λ w. walk-append w ps qs)
    where
      next :
          (s : Option Json)
          → ((w : Json) → walk w (ps ++ qs) ≡ elim (walk w ps) [ none ↦ none | some u ↦ walk u qs ])
          → let whole : Option Json = elim s [ none ↦ none | some w ↦ walk w (ps ++ qs) ] in
            let first : Option Json = elim s [ none ↦ none | some w ↦ walk w ps ] in
            whole ≡ elim first [ none ↦ none | some u ↦ walk u qs ]
      next none h = refl
      next (some w) h = h w

  abbrev outputs_or_raw : TfState → List String → Option Json
  outputs_or_raw st [] = walk (obj st.raw) []
  outputs_or_raw st (p ∷ []) = walk (obj st.raw) (p ∷ [])
  outputs_or_raw st (p ∷ q ∷ rest) =
      if p == "outputs" then walk (get_output q st) rest else walk (obj st.raw) (p ∷ q ∷ rest)

  abbrev resource_path : TfState → List String → Option Json
  resource_path st (type ∷ name ∷ field ∷ rest) = elim (get_resource_attrs type name st) [
    | none ↦ outputs_or_raw st (type ∷ name ∷ field ∷ rest)
    | some attrs ↦ walk (obj attrs) (field ∷ rest)
  ]
  resource_path st parts = outputs_or_raw st parts

  abbrev resolve_parts : TfState → List String → Option Json
  resolve_parts st [] = resource_path st []
  resolve_parts st (p ∷ rest) =
      if p == "$" then walk (obj st.raw) rest else resource_path st (p ∷ rest)

  pub resolve_path : TfState → String → Option Json
  resolve_path st path = resolve_parts st (path_parts path)

  abbrev path_text : Option String → String
  path_text none = ""
  path_text (some p) = p

  resolved_result : Option Json → String → ExpectedAssertion → ValidationResult
  resolved_result none path a =
      if is_true a.absent then result pass (path_absent path) else result fail (path_not_found path)
  resolved_result (some v) path a = string_match py v a

  pub evaluate_state : Option TfState → ExpectedAssertion → ValidationResult
  unfolding resolved_result
  evaluate_state none a = result inconclusive state_unavailable
  evaluate_state (some st) a =
      let path = path_text a.path in
      if path == ""
      then result fail requires_path
      else resolved_result (resolve_path st path) path a

  resolved_iff :
      (o : Option Json) (path : String) (a : ExpectedAssertion)
      → ((resolved_result o path a).verdict ≢ inconclusive)
        × (((resolved_result o path a).verdict ≡ pass) ↔ (
            ((v : Json) × (o ≡ some v) × Meets py v a) ⊎ ((o ≡ none) × (is_true a.absent ≡ true))))
  unfolding resolved_result
  resolved_iff none path a = elim (Bool-cases (is_true a.absent)) [
    | inl gone ↦ (ground arith, (λ h. inr (refl, gone), λ h. rw gone))
    | inr kept ↦ (
      ground arith,
      (λ h. cc (rw kept at h), λ h. elim h [ inl (v, e, m) ↦ cc | inr (e, g) ↦ cc ]),
    )
  ]
  resolved_iff (some v) path a =
      let ((sound, complete), two) = string_match_iff py v a in
      (
        λ h. some_fails (string_match_iff py v a) h,
        (
          λ h. inl (v, refl, sound h),
          λ h. elim h [
            | inl (w, e, m) ↦ let same : w ≡ v = cc in complete (subst (λ u. Meets py u a) same m)
            | inr (e, g) ↦ cc
          ],
        ),
      )
    where
      some_fails :
          (((string_match py v a).verdict ≡ pass) ↔ Meets py v a)
            × (((string_match py v a).verdict ≡ fail) ↔ (¬ Meets py v a))
          → (string_match py v a).verdict ≢ inconclusive
      some_fails ((sound, complete), (f, g)) h =
          let n : ¬ Meets py v a = λ m. let p = complete m in cc in let q = g n in cc

  -- A state assertion is inconclusive exactly without a state. With one it passes exactly if it
  -- has a path, and either the path leads to a value that meets the assertion, or it leads nowhere
  -- and absence was asked for.
  pub evaluate_state_iff :
      (st : TfState) (a : ExpectedAssertion)
      → ((evaluate_state none a).verdict ≡ inconclusive)
        × ((evaluate_state (some st) a).verdict ≢ inconclusive)
        × (((evaluate_state (some st) a).verdict ≡ pass) ↔ (
            ((path_text a.path == "") ≡ false)
            × (((v : Json) × (resolve_path st (path_text a.path) ≡ some v) × Meets py v a)
                ⊎ ((resolve_path st (path_text a.path) ≡ none) × (is_true a.absent ≡ true)))))
  unfolding evaluate_state
  evaluate_state_iff st a =
      let path = path_text a.path in
      let (decided, iff) = resolved_iff (resolve_path st path) path a in
      elim (Bool-cases (path == "")) [
        | inl no_path ↦ (refl, ground arith, (λ h. cc (rw no_path at h), λ h. cc (no_path, h.0)))
        | inr has_path ↦ (
          refl,
          rw has_path decided,
          (λ h. (has_path, iff.0 (rw has_path at h)), λ h. rw has_path (iff.1 h.1)),
        )
      ]

-- ManualValidator: never more than inconclusive.
pub evaluate_manual : ExpectedAssertion → ValidationResult
evaluate_manual a = result inconclusive (
    note (elim (a.manual_note) [
      | none ↦ "manual validation required"
      | some n ↦ if n == "" then "manual validation required" else n
    ]))
