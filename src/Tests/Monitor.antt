-- ===== src/Tests/Monitor.antt =====
-- The health aggregator at concrete statuses.
use embodied_agent_runtime.Common.{◌&&◌, none, max, ◌≡◌, refl, some, true, false, List, [], ◌∷◌}
use embodied_agent_runtime.Common.Int.{pos}
use embodied_agent_runtime.Bridge.Diagnostics.{initial, snapshot}
use embodied_agent_runtime.Executor.TaskDiagnosticState.{initial_diagnostics, task_snapshot}
use embodied_agent_runtime.Monitor.HealthAggregator.{
  device_bridge_name, task_executor_name, HealthAggregator, initial_aggregator,
  construct_aggregator, evaluate,
}
use embodied_agent_runtime.Common.Text.{text, text_eq}
use embodied_agent_runtime.Monitor.Readiness.{
  Report, update_all, last_named, report_level, is_healthy, evaluate_iff, evaluate-snapshot,
}

abbrev aggregator : HealthAggregator
aggregator = initial_aggregator 3000

constructed : construct_aggregator (pos 3000) ≡ some aggregator
unfolding construct_aggregator
constructed = refl

abbrev received : List Report
received = (snapshot true initial, 5000000) ∷ (task_snapshot initial_diagnostics, 6000000) ∷ []

evaluate_iff_example :
    ((evaluate 7000000 (update_all received aggregator)).level
      ≡ max
          (report_level 3000 7000000 (last_named device_bridge_name none received))
          (report_level 3000 7000000 (last_named task_executor_name none received)))
    × ((evaluate 7000000 (update_all received aggregator)).ready ≡ (
        is_healthy 3000 7000000 (last_named device_bridge_name none received)
        && is_healthy 3000 7000000 (last_named task_executor_name none received)))
evaluate_iff_example = evaluate_iff (pos 3000) aggregator received 7000000 constructed

-- The bridge's socket is down; the executor reports later.
abbrev socket_down : List Report
socket_down = (snapshot false initial, 5000000) ∷ (task_snapshot initial_diagnostics, 6000000) ∷ []

bridge_last :
    last_named device_bridge_name none socket_down ≡ some (snapshot false initial, 5000000)
unfolding device_bridge_name snapshot task_snapshot text_eq text
bridge_last = refl

evaluate-snapshot_example : (evaluate 7000000 (update_all socket_down aggregator)).ready ≡ false
evaluate-snapshot_example =
    evaluate-snapshot (pos 3000) aggregator socket_down false initial 5000000 7000000 constructed
      bridge_last refl
