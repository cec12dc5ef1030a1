-- ===== src/History.antt =====
-- The task history and the stage evidence (ros2_ws/src/runtime_history).
pub mod StageEventLog
pub mod Escape
pub mod Store
pub mod Clean
pub mod Refines
pub mod Tasks
pub mod Recorder
pub mod Drain
pub mod Ranks
pub mod Inserted
