-- ===== src/Validator/Tests.antt =====
-- One assertion of each kind.
use fptcloud_hc_automation_m.Base.{
  ℕ, zero, suc, ◌<◌, true, false, none, some, [], ◌∷◌, ◌≡◌, ◌≢◌, ◌↔◌, codes, within, ◌==◌, Dict,
  ◌⊎◌,
}
use fptcloud_hc_automation_m.Queue.Json.{Json, str, end}
use fptcloud_hc_automation_m.Validator.Model.{
  Verdict, pass, fail, inconclusive, ValidationResult, result, ExpectedAssertion, bare, TfState,
  Runtime, assertion_passed,
}
use fptcloud_hc_automation_m.Validator.Match.{Meets, is_true}
use fptcloud_hc_automation_m.Validator.State.{evaluate_state, evaluate_state_iff, resolve_path}
use fptcloud_hc_automation_m.Validator.Http.{
  Response, response, failure, http_probe, Accepts, http_probe_iff,
}
use fptcloud_hc_automation_m.Validator.Composite.{
  evaluate_all, evaluate_all_verdict, verdicts, worst,
}
use fptcloud_hc_automation_m.Validator.InVm.{ssh, file_command}
use fptcloud_hc_automation_m.Validator.InVm.Quoting.{word, plain, drop, file_command_ssh}

-- Of Python's own operations the examples use none but these.
abbrev py : Runtime
py = record {
  text_of = λ v. elim v [ str s ↦ s | _ ↦ "?" ];
  re_search = λ pattern s. within (codes pattern) (codes s);
  int_of = λ s. none;
  attribute = λ v k. none;
}

abbrev says_ok : ExpectedAssertion
says_ok = record (bare "api_probe") { contains = some "ok"; retries = some 2 }

abbrev state : TfState
state = record { resources = []; outputs = ("ip", str "10.0.0.1") ∷ []; raw = end }

abbrev has_ip : ExpectedAssertion
has_ip = record (bare "tf_state") { path = some "outputs.ip"; present = some true }

evaluate_state_iff_example :
    ((evaluate_state py none has_ip).verdict ≡ inconclusive)
    × ((evaluate_state py (some state) has_ip).verdict ≢ inconclusive)
    × (((evaluate_state py (some state) has_ip).verdict ≡ pass) ↔ (
        (("outputs.ip" == "") ≡ false)
        × (((v : Json) × (resolve_path py state "outputs.ip" ≡ some v) × Meets py v has_ip)
            ⊎ ((resolve_path py state "outputs.ip" ≡ none) × (is_true has_ip.absent ≡ true)))))
evaluate_state_iff_example = evaluate_state_iff py state has_ip

-- The first request fails, the later ones answer.
abbrev server : ℕ → Response
server zero = failure "refused"
server (suc n) = response 200 "all ok"

http_probe_iff_example :
    ((http_probe py server says_ok).0.verdict ≡ pass)
    ↔ ((k : ℕ) × (k < 3) × Accepts py says_ok (server k))
http_probe_iff_example = http_probe_iff py server says_ok

abbrev always : Verdict → ExpectedAssertion → ValidationResult
always v a = result v assertion_passed

abbrev validators : Dict (ExpectedAssertion → ValidationResult)
validators = ("yes", always pass) ∷ ("no", always fail) ∷ []

evaluate_all_verdict_example :
    ((evaluate_all validators [] "and").verdict ≡ inconclusive)
    × ((evaluate_all validators (bare "yes" ∷ bare "no" ∷ []) "and").verdict
        ≡ worst (verdicts validators (bare "yes" ∷ bare "no" ∷ [])))
evaluate_all_verdict_example = evaluate_all_verdict validators (bare "yes") (bare "no" ∷ []) "and"

file_command_ssh_example :
    word plain (drop 8 (codes (file_command ssh "/it's"))) ≡ some (codes "/it's")
file_command_ssh_example = file_command_ssh "/it's"
