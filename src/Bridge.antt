-- ===== src/Bridge.antt =====
-- The device bridge (ros2_ws/src/device_bridge).
pub mod Policy
pub mod Diagnostics
pub mod Host
pub mod Wait
pub mod Answers
pub mod Node
pub mod Worker
pub mod Legal
pub mod Goals
pub mod Latch
pub mod Endings
pub mod Completion
