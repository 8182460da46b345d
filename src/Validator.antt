-- ===== src/Validator.antt =====
-- Validation of a task's expected assertions (src/hc/validator/core.py).
pub mod Model
pub mod Match
pub mod State
pub mod Http
pub mod InVm
pub mod Composite
mod Tests
