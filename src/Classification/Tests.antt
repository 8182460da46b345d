-- ===== src/Classification/Tests.antt =====
-- A quota failure, and one of a password.
use fptcloud_hc_automation_m.Base.{
  String, Bool, false, List, [], ◌∷◌, ◌≢◌, refl, within, lower, ◌==◌,
}
use fptcloud_hc_automation_m.Classification.{classify_error, instance_password_policy_invalid}
use fptcloud_hc_automation_m.Classification.Laws.{exceeded_password_lem}

exceeded_password_lem_example :
    classify_error false "exceeded password length" "module.vm" ≢ instance_password_policy_invalid
unfolding lower within
exceeded_password_lem_example =
    exceeded_password_lem false "exceeded password length" "module.vm" refl

abbrev found : String → String → Bool
found pattern text = pattern == "(?i)quota\\s+exceeded"

abbrev one_line : String → List String
one_line text = text ∷ []
