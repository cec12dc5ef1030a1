-- ===== src/Can.antt =====
-- The classic-CAN wire protocol (ros2_ws/src/runtime_can).
pub mod Protocol
mod Decode
pub mod RoundTrip
