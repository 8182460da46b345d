-- ===== src/Queue.antt =====
-- The work queue (src/hc/queue/, src/hc/models/task.py, src/hc/producer.py).
pub mod Json
pub mod Task
pub mod Redis
pub mod Frame
pub mod RedisQueue
pub mod Reaper
pub mod Producer
pub mod Wire
mod Tests
