-- ===== src/Live/Instance/Create/Tests.antt =====
-- The creation of an instance that is created at once, and of one that uses up its attempts.
use fptcloud_hc_automation_m.Base.{Option, none, some, List, [], ◌∷◌}
use fptcloud_hc_automation_m.Live.Instance.Samples.{setting, first_image, second_image, beginning}
use fptcloud_hc_automation_m.Live.Instance.Attempt.{Image, attempt_image}
use fptcloud_hc_automation_m.Live.Instance.Create.{Ending, blocked, create_images}

abbrev images : List Image
images = first_image ∷ second_image ∷ []

abbrev outcome : Option Ending
outcome = create_images setting.check (attempt_image setting) images beginning

abbrev ending_of : Option Ending → Ending
ending_of none = blocked beginning
ending_of (some e) = e
