-- ===== src/Live/Instance/Samples.antt =====
-- Two images, of which "b" cannot be created.
use fptcloud_hc_automation_m.Base.{true, false, none, []}
use fptcloud_hc_automation_m.Live.Samples.{as_text, empty_world, reading, partly}
use fptcloud_hc_automation_m.Live.Instance.Attempt.{Image, Setting, Creation}

abbrev pub setting : Setting
setting = record {
  check = "compute.create-instance";
  tf = partly;
  text_of = as_text;
  loads = reading;
  lines = λ s. [];
  workspace_of = λ label n. label;
  flavor = record { flavor_id = ""; flavor_name = ""; discover = λ k v. "" };
  delete_after_create = true;
  validated = true;
  rounds = 2;
}

abbrev pub first_image : Image
first_image = record { raw_label = "a"; vars = [] }

abbrev pub second_image : Image
second_image = record { raw_label = "b"; vars = [] }

abbrev pub beginning : Creation
beginning = record {
  world = empty_world;
  round = record {
    successful_images = [];
    failed_image = "";
    failure_reason = none;
    remaining_images_not_attempted = [];
    stop_on_quota_exceeded = true;
  };
  created = [];
  context = record {
    run_status = "running";
    run_blocked = false;
    user_action_required = false;
    failed_image = "";
    failure_reason = none;
    remaining_images_not_attempted = [];
    stop_on_quota_exceeded = true;
  };
}
