-- ===== src/Validator/Match.antt =====
-- `_string_match`: one value against the conditions of an assertion.
use fptcloud_hc_automation_m.Base.{
  String, Bool, true, false, not, ◌&&◌, Option, none, some, ◌==◌, ◌≡◌, ◌↔◌, ◌⊎◌, inl, inr, refl,
  arith, if◌then◌else◌, codes, within, Bool-cases,
}
use fptcloud_hc_automation_m.Queue.Json.{Json, null, str}
use fptcloud_hc_automation_m.Validator.Model.{
  pass, fail, ValidationResult, result, ExpectedAssertion, Runtime, assertion_passed,
  expected_present, expected_absent, expected_equal, expected_contain, expected_match,
}

-- `flag is True`
abbrev pub is_true : Option Bool → Bool
is_true (some true) = true
is_true (some false) = false
is_true none = false

-- `value in (None, "")`
unfoldable pub is_empty : Json → Bool
is_empty null = true
is_empty (str s) = s == ""
is_empty _ = false

module _ (py : Runtime) where
  unfoldable pub match_text : Json → String
  match_text null = ""
  match_text v = py.text_of v

  equals_ok : Option String → String → Bool
  equals_ok none text = true
  equals_ok (some expected) text = text == expected

  contains_ok : Option String → String → Bool
  contains_ok none text = true
  contains_ok (some part) text = within (codes part) (codes text)

  regex_ok : Option String → String → Bool
  regex_ok none text = true
  regex_ok (some pattern) text = py.re_search pattern text

  abbrev shown : Option String → String
  shown none = ""
  shown (some s) = s

  -- The checks in the order of the source; each failing one returns.
  pub string_match : Json → ExpectedAssertion → ValidationResult
  string_match value a =
      let text = match_text value in
      if is_true a.present && is_empty value
      then result fail expected_present
      else if is_true a.absent
      then (if is_empty value then result pass assertion_passed else result fail expected_absent)
      else if not (equals_ok a.equals text)
      then result fail (expected_equal (shown a.equals) text)
      else if not (contains_ok a.contains text)
      then result fail (expected_contain (shown a.contains) text)
      else if not (regex_ok a.regex_match text)
      then result fail (expected_match (shown a.regex_match) text)
      else result pass assertion_passed

  -- What an assertion asks of a value: to be there, to be absent, or else to meet each of its three
  -- conditions that is given.
  pub record Meets (value : Json) (a : ExpectedAssertion) : Type 0 where
    pub there : is_true a.present ≡ true → is_empty value ≡ false
    pub gone : is_true a.absent ≡ true → is_empty value ≡ true
    pub equal :
        is_true a.absent ≡ false → (s : String) → a.equals ≡ some s → (match_text value == s) ≡ true
    pub contain :
        is_true a.absent ≡ false
        → (s : String) → a.contains ≡ some s
        → within (codes s) (codes (match_text value)) ≡ true
    pub matches :
        is_true a.absent ≡ false
        → (s : String) → a.regex_match ≡ some s
        → py.re_search s (match_text value) ≡ true

  equals_ok_iff :
      (o : Option String) (text : String)
      → ((s : String) → o ≡ some s → (text == s) ≡ true)
      → equals_ok o text ≡ true
  unfolding equals_ok
  equals_ok_iff none text h = refl
  equals_ok_iff (some s) text h = h s refl

  contains_ok_iff :
      (o : Option String) (text : String)
      → ((s : String) → o ≡ some s → within (codes s) (codes text) ≡ true)
      → contains_ok o text ≡ true
  unfolding contains_ok
  contains_ok_iff none text h = refl
  contains_ok_iff (some s) text h = h s refl

  regex_ok_iff :
      (o : Option String) (text : String)
      → ((s : String) → o ≡ some s → py.re_search s text ≡ true)
      → regex_ok o text ≡ true
  unfolding regex_ok
  regex_ok_iff none text h = refl
  regex_ok_iff (some s) text h = h s refl

  match_sound :
      (value : Json) (a : ExpectedAssertion) → (string_match value a).verdict ≡ pass → Meets value a
  unfolding string_match equals_ok contains_ok regex_ok
  match_sound value a h = record {
    there = λ p. ground arith;
    gone = λ p. ground arith;
    equal = λ p s e. ground arith;
    contain = λ p s e. ground arith;
    matches = λ p s e. ground arith;
  }

  match_complete :
      (value : Json) (a : ExpectedAssertion) → Meets value a → (string_match value a).verdict ≡ pass
  unfolding string_match
  match_complete value a m = elim (Bool-cases (is_true a.absent)) [
    | inl gone ↦ ground (arith, m.there, m.gone gone)
    | inr kept ↦ ground (
      arith,
      m.there,
      equals_ok_iff a.equals (match_text value) (m.equal kept),
      contains_ok_iff a.contains (match_text value) (m.contain kept),
      regex_ok_iff a.regex_match (match_text value) (m.matches kept),
    )
  ]

  match_two :
      (value : Json) (a : ExpectedAssertion)
      → ((string_match value a).verdict ≡ pass) ⊎ ((string_match value a).verdict ≡ fail)
  unfolding string_match
  match_two value a = ground arith

  -- A value passes exactly if it meets the assertion; otherwise it fails, and no value is
  -- inconclusive.
  pub string_match_iff :
      (value : Json) (a : ExpectedAssertion)
      → (((string_match value a).verdict ≡ pass) ↔ Meets value a)
        × (((string_match value a).verdict ≡ fail) ↔ (¬ Meets value a))
  string_match_iff value a = (
    (match_sound value a, match_complete value a),
    (
      λ f m. let t = match_complete value a m in cc,
      λ n. elim (match_two value a) [ inl p ↦ absurd (n (match_sound value a p)) | inr f ↦ f ],
    ),
  )
