-- ===== src/Device.antt =====
-- The virtual CAN device (ros2_ws/src/virtual_can_device).
pub mod Node
pub mod Cache
pub mod Replay
