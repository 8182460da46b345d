-- ===== src/Live/Instance/Stages/Tests.antt =====
-- Hostnames for a discovered Windows image, and the round of two images.
use fptcloud_hc_automation_m.Base.{true, false, List, [], ◌==◌}
use fptcloud_hc_automation_m.Stage.{StageSpec}
use fptcloud_hc_automation_m.Live.Samples.{empty_world}
use fptcloud_hc_automation_m.Live.Instance.Naming.Policy.{policy, matches_policy}
use fptcloud_hc_automation_m.Live.Instance.Stages.{
  HostnameEntry, resolved_instance_labels, validate_instance_hostname_stage,
}
use fptcloud_hc_automation_m.Live.{World}

abbrev hostname_stage : StageSpec
hostname_stage = record {
  id = "compute.validate-instance-hostname";
  automation_status = "automated";
  required_inputs = [];
  required_cloud_resources = [];
  cleanup_behavior = "";
  dependency_stages = [];
  safe_for_daily_run = true;
}

abbrev outcome : List HostnameEntry × World
outcome =
    validate_instance_hostname_stage (λ l. l) (λ l. "abc123") policy (λ l n. matches_policy n)
      hostname_stage (resolved_instance_labels false (λ l. l == "windows-2019")) empty_world
