-- ===== src/Orchestrator.antt =====
-- task_orchestrator: the workflows that run a task behind a readiness check.
pub mod ReadyState
pub mod Host
pub mod Node
pub mod Leaves
pub mod Terminal
pub mod Worker
pub mod Trace
pub mod Sound
pub mod SoundEvents
pub mod SoundLeaves
pub mod Justified
pub mod SoundTerminal
pub mod WellEnded
pub mod Goals
