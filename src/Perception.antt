-- ===== src/Perception.antt =====
-- The perception adapter (ros2_ws/src/perception_task_adapter).
pub mod MarkerTrigger
pub mod Confirm
pub mod Calls
