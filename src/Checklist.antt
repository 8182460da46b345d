-- ===== src/Checklist.antt =====
-- The checklist pipeline (src/hc/checklist): dependency order, loading and the first wave of tasks.
pub mod Resolver
pub mod Loader
pub mod Renderer
pub mod Producer
