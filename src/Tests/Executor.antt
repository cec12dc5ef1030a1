-- ===== src/Tests/Executor.antt =====
-- The executor's diagnostics and allowlist at concrete calls.
use embodied_agent_runtime.Common.{◌≡◌, ◌↔◌, refl, some, true, false, List, [], ◌∷◌}
use embodied_agent_runtime.Common.Status.{level_error, level_warn}
use embodied_agent_runtime.Common.Text.{Text, text}
use embodied_agent_runtime.Executor.TaskDiagnosticState.{task_snapshot}
use embodied_agent_runtime.Executor.FailureLatch.{
  Call, bridge, fails, cancels, recovers, after, task_snapshot-after,
}
use embodied_agent_runtime.Executor.TargetValidator.{
  TargetValidator, insert_targets, checked, construct_validator,
}

-- A failure, then a cancellation, the latest first.
abbrev calls : List Call
calls = cancels ∷ fails (text "DEVICE_FAULT") 302 ∷ recovers ∷ bridge true ∷ []

task_snapshot-after_example :
    (((task_snapshot (after calls)).level ≡ level_error) ↔ (true ≡ true))
    × (((task_snapshot (after calls)).level ≡ level_warn) ↔ (false ≡ true))
task_snapshot-after_example = task_snapshot-after calls

abbrev allowed : List Text
allowed = text "dock_a" ∷ text " " ∷ []

abbrev validator : TargetValidator
validator = record { targets = text "dock_a" ∷ [] }

constructed : construct_validator allowed ≡ some validator
unfolding construct_validator insert_targets checked text
constructed = refl
