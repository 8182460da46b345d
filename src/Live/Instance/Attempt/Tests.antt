-- ===== src/Live/Instance/Attempt/Tests.antt =====
-- An attempt that creates its instance and deletes it again.
use fptcloud_hc_automation_m.Base.{Option, none, some, [], ◌∷◌}
use fptcloud_hc_automation_m.Live.Instance.Samples.{setting, first_image, second_image, beginning}
use fptcloud_hc_automation_m.Live.Instance.Attempt.{
  ImageCreateResult, Creation, attempt_image, success_result,
}

abbrev outcome : Option (ImageCreateResult × Creation)
outcome = attempt_image setting 1 first_image (second_image ∷ []) beginning

abbrev state_of : Option (ImageCreateResult × Creation) → Creation
state_of none = beginning
state_of (some p) = p.1

abbrev result_of : Option (ImageCreateResult × Creation) → ImageCreateResult
result_of none = success_result setting "" "" []
result_of (some p) = p.0
