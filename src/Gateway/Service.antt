-- ===== src/Gateway/Service.antt =====
-- The gRPC service of runtime_gateway/src/gateway_service.cpp.
pub mod Host
pub mod State
pub mod Submit
pub mod Calls
pub mod Shutdown
pub mod Once
pub mod OnceState
pub mod OnceAnswer
pub mod OnceSubmit
pub mod OnceCalls
pub mod OneGoal
