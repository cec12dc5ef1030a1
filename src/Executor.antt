-- ===== src/Executor.antt =====
-- The task executor (ros2_ws/src/task_executor): its diagnostics, its target allowlist and its events.
pub mod TaskDiagnosticState
pub mod TargetValidator
pub mod TaskEvent
pub mod FailureLatch
pub mod Allowlist
pub mod Host
pub mod Node
pub mod Finish
pub mod Child
pub mod Verdict
pub mod Worker
pub mod Trace
pub mod Sound
pub mod SoundChild
pub mod SoundEnd
pub mod SoundWorker
pub mod SoundAwait
pub mod WellEnded
pub mod Commands
