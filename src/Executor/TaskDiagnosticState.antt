-- ===== src/Executor/TaskDiagnosticState.antt =====
-- task_executor/include/task_executor/diagnostic_state.hpp and task_executor/src/diagnostic_state.cpp.
-- The mutex makes each method one step; each returns the new state.
use embodied_agent_runtime.Common.{ℕ, Bool, true, false, not, ◌&&◌, [], ◌∷◌, if◌then◌else◌}
use embodied_agent_runtime.Common.Text.{Text, text}
use embodied_agent_runtime.Common.Decimal.{decimal}
use embodied_agent_runtime.Common.Status.{
  key_value, DiagnosticStatus, level_ok, level_warn, level_error,
}

pub data TaskPhase : Type 0 where
  idle validating running waiting_ack recovering : TaskPhase

pub record TaskDiagnosticState : Type 0 where
  pub phase : TaskPhase
  pub active_task_id : Text
  pub last_outcome : Text
  pub last_error_code : ℕ
  pub bridge_ready : Bool
  pub failure_latched : Bool

unfoldable pub initial_diagnostics : TaskDiagnosticState
initial_diagnostics = record {
  phase = idle;
  active_task_id = text "";
  last_outcome = text "NONE";
  last_error_code = 0;
  bridge_ready = false;
  failure_latched = false;
}

unfoldable pub set_bridge_ready : Bool → TaskDiagnosticState → TaskDiagnosticState
set_bridge_ready ready s = record s { bridge_ready = ready }

unfoldable pub begin_task : Text → TaskDiagnosticState → TaskDiagnosticState
begin_task task_id s = record s { active_task_id = task_id; phase = validating }

unfoldable pub mark_validating : TaskDiagnosticState → TaskDiagnosticState
mark_validating s = record s { phase = validating }

unfoldable pub mark_running : TaskDiagnosticState → TaskDiagnosticState
mark_running s = record s { phase = running }

unfoldable pub mark_task_waiting_ack : TaskDiagnosticState → TaskDiagnosticState
mark_task_waiting_ack s = record s { phase = waiting_ack }

unfoldable pub mark_recovering : TaskDiagnosticState → TaskDiagnosticState
mark_recovering s = record s { phase = recovering }

unfoldable pub record_task_success : Text → TaskDiagnosticState → TaskDiagnosticState
record_task_success outcome s = record s {
  phase = idle;
  active_task_id = text "";
  last_outcome = outcome;
  last_error_code = 0;
  failure_latched = false;
}

unfoldable pub record_task_canceled : TaskDiagnosticState → TaskDiagnosticState
record_task_canceled s = record s {
  phase = idle;
  active_task_id = text "";
  last_outcome = text "CANCELED";
}

unfoldable pub record_failure : Text → ℕ → TaskDiagnosticState → TaskDiagnosticState
record_failure outcome error_code s = record s {
  phase = idle;
  active_task_id = text "";
  last_outcome = outcome;
  last_error_code = error_code;
  failure_latched = true;
}

unfoldable pub task_phase_name : TaskPhase → Text
task_phase_name idle = text "IDLE"
task_phase_name validating = text "VALIDATING"
task_phase_name running = text "RUNNING"
task_phase_name waiting_ack = text "WAITING_ACK"
task_phase_name recovering = text "RECOVERING"

abbrev pub is_recovering : TaskPhase → Bool
is_recovering recovering = true
is_recovering _ = false

-- The level and the message of the published status.
unfoldable pub task_summary : TaskDiagnosticState → ℕ × Text
task_summary s =
    if not s.bridge_ready
    then (level_error, text "bridge unavailable")
    else if s.failure_latched
    then (level_error, text "task failure")
    else if is_recovering s.phase
    then (level_warn, text "recovering")
    else (level_ok, text "ready")

unfoldable pub task_snapshot : TaskDiagnosticState → DiagnosticStatus
task_snapshot s =
    let ready = s.bridge_ready && not s.failure_latched in
    let (level, message) = task_summary s in
    record {
      level = level;
      name = text "runtime/task_executor";
      message = message;
      hardware_id = text "task_runtime";
      values =
          key_value (text "ready") (if ready then text "true" else text "false")
          ∷ key_value (text "state") (task_phase_name s.phase)
          ∷ key_value (text "active_task_id") s.active_task_id
          ∷ key_value (text "bridge_ready") (if s.bridge_ready then text "true" else text "false")
          ∷ key_value (text "last_outcome") s.last_outcome
          ∷ key_value (text "last_error_code") (decimal s.last_error_code)
          ∷ [];
    }
