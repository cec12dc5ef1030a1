-- ===== src/Monitor.antt =====
-- The runtime monitor (ros2_ws/src/runtime_monitor).
pub mod HealthAggregator
pub mod Readiness
