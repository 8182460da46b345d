-- ===== src/Live/Instance.antt =====
-- The creation of instances (src/healthcheck/instance_runner.py): one attempt for one image, and
-- the loop over the images with its queue of failures.
pub mod Attempt
pub mod Samples
pub mod Create
pub mod Naming
pub mod Stages
pub mod Quota
