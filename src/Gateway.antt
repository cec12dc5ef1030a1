-- ===== src/Gateway.antt =====
-- The gRPC gateway's request identity (ros2_ws/src/runtime_gateway).
pub mod Request
pub mod Fingerprint
pub mod Registry
pub mod Consistency
pub mod Admission
pub mod Rollback
pub mod Ledger
pub mod Durable
pub mod AtMostOnce
pub mod Resolution
pub mod Service
