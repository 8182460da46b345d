-- ===== src/Validator/Http.antt =====
-- `_evaluate_http_response` and `APIProbeValidator`, with its retries. What each request gives is
-- an argument: a response (an HTTPError carries one too) or a failure of the connection. The waits
-- between attempts are not modelled; a negative `retries` counts as 0, as in the source.
use mathlib.Core.Path.{subst}
use fptcloud_hc_automation_m.Base.{
  ℕ, zero, suc, ◌+◌, ◌≤◌, ◌<◌, String, Bool, true, false, not, Option, none, some, ◌==◌, ◌≡◌, ◌↔◌,
  ◌⊎◌, inl, inr, arith, if◌then◌else◌, eqb, Bool-cases,
}
use fptcloud_hc_automation_m.Queue.Json.{Json, str}
use fptcloud_hc_automation_m.Validator.Model.{
  Verdict, pass, fail, inconclusive, ValidationResult, result, ExpectedAssertion, Runtime,
  expected_status, http_status, probe_failed, did_not_run, not_configured,
}
use fptcloud_hc_automation_m.Validator.Match.{string_match, Meets, string_match_iff}

pub data Response : Type 0 where
  response : ℕ → String → Response
  failure : String → Response

abbrev pub is_pass : Verdict → Bool
is_pass pass = true
is_pass fail = false
is_pass inconclusive = false

-- `value or default` on an optional number.
abbrev pub or_number : Option ℕ → ℕ → ℕ
or_number none d = d
or_number (some n) d = if eqb n 0 then d else n

-- Where the first of a row of attempts does not do, one of the others does.
shift :
    (P : ℕ → Type 0) (made left : ℕ)
    → ¬ P made
    → ((k : ℕ) × (k < suc left) × P (made + k))
    → (k : ℕ) × (k < left) × P (made + 1 + k)
shift P made left n (zero, lt, p) =
    let e : made + 0 ≡ made = omega arith in absurd (n (subst P e p))
shift P made left n (suc k, lt, p) =
    let e : made + suc k ≡ made + 1 + k = omega arith in (k, omega arith, subst P e p)

module _ (py : Runtime) where
  evaluate_http_response : ExpectedAssertion → ℕ → ℕ → String → ValidationResult
  evaluate_http_response a expected status body =
      let matched = string_match py (str body) a in
      if not (eqb status expected)
      then result fail (expected_status expected status)
      else if not (is_pass matched.verdict)
      then matched
      else result pass (http_status status)

  attempt_result : ExpectedAssertion → Response → ValidationResult
  unfolding evaluate_http_response
  attempt_result a (response status body) =
      evaluate_http_response a (or_number a.status_code 200) status body
  attempt_result a (failure reason) = result fail (probe_failed reason)

  -- `for attempt in range(1, attempts + 1)`: `left` rounds are to come, `made` have been made. The
  -- second part counts the requests.
  http_loop : (ℕ → Response) → ExpectedAssertion → ℕ → ℕ → ValidationResult → ValidationResult × ℕ
  http_loop answer a zero made last = (last, made)
  http_loop answer a (suc left) made last =
      let now = attempt_result a (answer made) in
      let rest = http_loop answer a left (made + 1) now in
      if is_pass now.verdict then (now, made + 1) else rest

  abbrev pub attempts : ExpectedAssertion → ℕ
  attempts a = or_number a.retries 0 + 1

  pub http_probe : (ℕ → Response) → ExpectedAssertion → ValidationResult × ℕ
  unfolding http_loop
  http_probe answer a = http_loop answer a (attempts a) 0 (result fail did_not_run)

  abbrev has_url : Option String → Bool
  has_url none = false
  has_url (some u) = not (u == "")

  -- `runner` is the configured probe, if there is one, applied to the task and the assertion.
  pub evaluate_api : Option Json → (ℕ → Response) → ExpectedAssertion → ValidationResult
  evaluate_api (some value) answer a = string_match py value a
  evaluate_api none answer a =
      if has_url a.url then (http_probe answer a).0 else result inconclusive not_configured

  -- A response that an assertion accepts: the expected status, and a body that meets it.
  pub Accepts : ExpectedAssertion → Response → Type 0
  Accepts a (response status body) = (status ≡ or_number a.status_code 200) × Meets py (str body) a
  Accepts a (failure reason) = ⊥

  attempt_iff :
      (a : ExpectedAssertion) (x : Response)
      → (is_pass (attempt_result a x).verdict ≡ true) ↔ Accepts a x
  unfolding attempt_result Accepts
  attempt_iff a (failure reason) = (λ h. cc, λ h. absurd h)
  attempt_iff a (response status body) =
      let ((sound, complete), two) = string_match_iff py (str body) a in
      (λ h. (ground arith, sound (ground arith)), λ h. let p = complete h.1 in ground (arith, h.0))

  -- What the loop does from an attempt on, if it is not the first to pass.
  http_loop_lem :
      (answer : ℕ → Response) (a : ExpectedAssertion) (left made : ℕ) (last : ValidationResult)
      → let (r, n) = http_loop answer a left made last in
        (((k : ℕ) × (k < left) × Accepts a (answer (made + k))) → is_pass r.verdict ≡ true)
        × (is_pass r.verdict ≡ true
            → (is_pass last.verdict ≡ true)
              ⊎ ((k : ℕ) × (k < left) × Accepts a (answer (made + k)) × (n ≡ made + k + 1)))
        × (n ≤ made + left)
  unfolding http_loop
  http_loop_lem answer a zero made last =
      (λ (k, lt, ok). absurd (omega arith), λ h. inl h, omega arith)
  http_loop_lem answer a (suc left) made last =
      let now = attempt_result a (answer made) in
      let (before, after, few) = http_loop_lem answer a left (made + 1) now in
      let here : made + 0 ≡ made = omega arith in
      elim (Bool-cases (is_pass now.verdict)) [
        | inl yes_ ↦
            rw (yes_, http_loop)
              (
                λ h. yes_,
                λ h.
                    inr
                      (0, omega arith, rw here ((attempt_iff a (answer made)).0 yes_), omega arith),
                omega arith,
              )
        | inr no_ ↦
            rw (no_, http_loop)
              (
                λ h. before (
                    shift (λ k. Accepts a (answer k)) made left
                      (λ x. let p = (attempt_iff a (answer made)).1 x in cc) h),
                λ h. elim (after h) [
                  | inl p ↦ cc
                  | inr (k, lt, x, n) ↦
                      let e : made + 1 + k ≡ made + suc k = omega arith in
                      inr (suc k, omega arith, subst (λ j. Accepts a (answer j)) e x, omega arith)
                ],
                omega arith,
              )
      ]

  -- The probe passes exactly if one of the allowed attempts, one more than `retries`, is given a
  -- response that the assertion accepts.
  pub http_probe_iff :
      (answer : ℕ → Response) (a : ExpectedAssertion)
      → ((http_probe answer a).0.verdict ≡ pass)
        ↔ ((k : ℕ) × (k < attempts a) × Accepts a (answer k))
  unfolding http_probe
  http_probe_iff answer a =
      let (before, after, few) = http_loop_lem answer a (attempts a) 0 (result fail did_not_run) in
      (
        λ h. elim (after (rw h)) [
          | inl p ↦ cc
          | inr (k, lt, x, n) ↦
              let e : 0 + k ≡ k = omega arith in (k, lt, subst (λ j. Accepts a (answer j)) e x)
        ],
        λ (k, lt, x).
            let e : k ≡ 0 + k = omega arith in
            let p = before (k, lt, subst (λ j. Accepts a (answer j)) e x) in ground arith,
      )

  -- No more requests are made than allowed, and when the probe passes the last request made is the
  -- one that was accepted.
  pub http_probe_requests :
      (answer : ℕ → Response) (a : ExpectedAssertion)
      → ((http_probe answer a).1 ≤ attempts a)
        × ((http_probe answer a).0.verdict ≡ pass
            → (k : ℕ) × ((http_probe answer a).1 ≡ k + 1) × Accepts a (answer k))
  unfolding http_probe
  http_probe_requests answer a =
      let (before, after, few) = http_loop_lem answer a (attempts a) 0 (result fail did_not_run) in
      (
        omega arith,
        λ h. elim (after (rw h)) [
          | inl p ↦ cc
          | inr (k, lt, x, n) ↦
              let e : 0 + k ≡ k = omega arith in
              (k, omega arith, subst (λ j. Accepts a (answer j)) e x)
        ],
      )
