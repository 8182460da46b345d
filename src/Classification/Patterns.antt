-- ===== src/Classification/Patterns.antt =====
-- ErrorClassifier (src/hc/executor/classifier.py). `re_search` is Python's; logging is left out.
use fptcloud_hc_automation_m.Base.{
  ℕ, zero, suc, String, Bool, true, false, List, [], ◌∷◌, ◌≡◌, ◌↔◌, arith, ◌==◌, if◌then◌else◌, any,
  strip,
}

-- ErrorCategory of src/hc/executor/models.py.
pub data ErrorCategory : Type 0 where
  auth : ErrorCategory
  quota : ErrorCategory
  schema : ErrorCategory
  transient : ErrorCategory
  unknown : ErrorCategory

pub record ClassifiedError : Type 0 where
  pub category : ErrorCategory
  pub message : String
  pub raw : String

abbrev pub auth_patterns : List String
auth_patterns =
    "(?i)401\\b.*unauthorized" ∷ "(?i)403\\b.*forbidden" ∷ "(?i)authentication\\s+failed"
    ∷ "(?i)invalid\\s+(token|credential|api.?key)" ∷ "(?i)access\\s+denied"
    ∷ "(?i)permission\\s+denied" ∷ "(?i)could\\s+not\\s+authenticate" ∷ "(?i)unauthenticated" ∷ []

abbrev pub quota_patterns : List String
quota_patterns =
    "(?i)quota\\s+exceeded" ∷ "(?i)limit\\s+exceeded"
    ∷ "(?i)insufficient\\s+(quota|capacity|resources?)" ∷ "(?i)over\\s+(?:the\\s+)?limit"
    ∷ "(?i)resource\\s+limit\\s+reached" ∷ "(?i)429\\b.*too\\s+many\\s+requests"
    ∷ "(?i)rate\\s+limit" ∷ "(?i)max(imum)?\\s+(?:number|count)\\s+of" ∷ []

abbrev pub schema_patterns : List String
schema_patterns =
    "(?i)invalid\\s+configuration" ∷ "(?i)schema\\s+mismatch" ∷ "(?i)unsupported\\s+argument"
    ∷ "(?i)unexpected\\s+attribute" ∷ "(?i)an\\s+argument\\s+named\\s+.+\\s+is\\s+not\\s+expected"
    ∷ "(?i)unknown\\s+variable" ∷ "(?i)invalid\\s+value\\s+for" ∷ "(?i)expected\\s+type\\s+to\\s+be"
    ∷ "(?i)value\\s+must\\s+be\\s+one\\s+of" ∷ "(?i)no\\s+such\\s+resource\\s+type"
    ∷ "(?i)provider\\s+does\\s+not\\s+support\\s+resource\\s+type" ∷ []

abbrev pub transient_patterns : List String
transient_patterns =
    "(?i)5\\d{2}\\s+(internal\\s+server|bad\\s+gateway|service\\s+unavailable|gateway\\s+timeout)"
    ∷ "(?i)connection\\s+(timed?\\s*out|refused|reset|aborted)"
    ∷ "(?i)network\\s+(timeout|unreachable|error)" ∷ "(?i)i/?o\\s+timeout"
    ∷ "(?i)eof\\s+while\\s+reading" ∷ "(?i)state\\s+(file\\s+)?lock" ∷ "(?i)lock\\s+timeout"
    ∷ "(?i)temporary\\s+(failure|error)" ∷ "(?i)context\\s+deadline\\s+exceeded"
    ∷ "(?i)server\\s+misbehaving" ∷ "(?i)request\\s+timed?\\s*out" ∷ "(?i)dial\\s+tcp\\b"
    ∷ "(?i)unexpected\\s+eof" ∷ []

-- The first category with a pattern that is found.
abbrev pub patterns : List (ErrorCategory × List String)
patterns =
    (auth, auth_patterns)
    ∷ (quota, quota_patterns)
    ∷ (schema, schema_patterns)
    ∷ (transient, transient_patterns)
    ∷ []

first_match : (String → Bool) → List (ErrorCategory × List String) → ErrorCategory
first_match found [] = unknown
first_match found ((category, ps) ∷ rest) =
    let later = first_match found rest in if any found ps then category else later

-- text[:n]
abbrev cut : ℕ → String → String
cut zero s = ""
cut (suc n) String.[] = ""
cut (suc n) (String.◌∷◌ c s) = String.◌∷◌ c (cut n s)

abbrev first_meaningful : List String → String → String
first_meaningful [] text = cut 256 text
first_meaningful (line ∷ lines) text =
    let rest = first_meaningful lines text in
    if strip line == "" then rest else cut 256 (strip line)

-- `splitlines` is Python's.
module _ (re_search : String → String → Bool) (splitlines : String → List String) where
  pub classify : String → ClassifiedError
  unfolding first_match
  classify text = record {
    category = first_match (λ p. re_search p text) patterns;
    message = first_meaningful (splitlines text) text;
    raw = text;
  }

  -- An error is of the first of the four categories that has a pattern that the text matches, and
  -- unknown exactly if no pattern of any category matches.
  pub classify_iff :
      (text : String)
      → let found = λ (ps : List String). any (λ p. re_search p text) ps in
        ((classify text).category ≡ auth ↔ (found auth_patterns ≡ true))
        × ((classify text).category ≡ quota
            ↔ ((found auth_patterns ≡ false) × (found quota_patterns ≡ true)))
        × ((classify text).category ≡ unknown ↔ (
            (found auth_patterns ≡ false)
            × (found quota_patterns ≡ false)
            × (found schema_patterns ≡ false)
            × (found transient_patterns ≡ false)))
  unfolding classify first_match
  classify_iff text =
      categories (any (λ p. re_search p text) auth_patterns)
        (any (λ p. re_search p text) quota_patterns) (any (λ p. re_search p text) schema_patterns)
        (any (λ p. re_search p text) transient_patterns)
    where
      categories :
          (a q s t : Bool)
          → let c =
              if a
              then auth
              else if q
              then quota
              else if s
              then schema
              else if t
              then transient
              else unknown in
            ((c ≡ auth) ↔ (a ≡ true))
            × ((c ≡ quota) ↔ ((a ≡ false) × (q ≡ true)))
            × ((c ≡ unknown) ↔ ((a ≡ false) × (q ≡ false) × (s ≡ false) × (t ≡ false)))
      categories a q s t = (
        (λ h. ground arith, λ h. ground arith),
        (λ h. (ground arith, ground arith), λ h. ground arith),
        (λ h. (ground arith, ground arith, ground arith, ground arith), λ h. ground arith),
      )
