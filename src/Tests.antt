-- ===== src/Tests.antt =====
-- Runs of the definitions at concrete inputs, and the theorems applied to them.
mod Can
mod Bridge
mod Gateway
mod GatewayService
mod Device
mod Perception
mod Monitor
mod Orchestrator
mod Executor
mod ExecutorNode
mod History
mod Durable
