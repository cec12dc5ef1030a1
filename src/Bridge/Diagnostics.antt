-- ===== src/Bridge/Diagnostics.antt =====
-- device_bridge/include/device_bridge/diagnostic_state.hpp and device_bridge/src/diagnostic_state.cpp.
-- The mutex makes each method one step; each returns the new state.
use embodied_agent_runtime.Common.{ℕ, bump64, Bool, true, false, not, [], ◌∷◌, if◌then◌else◌}
use embodied_agent_runtime.Common.Text.{Text, text}
use embodied_agent_runtime.Common.Decimal.{decimal}
use embodied_agent_runtime.Common.Status.{
  key_value, DiagnosticStatus, level_ok, level_warn, level_error,
}

pub data DevicePhase : Type 0 where
  idle sending waiting_ack retrying stopping : DevicePhase

pub record DeviceDiagnosticState : Type 0 where
  pub phase : DevicePhase
  pub active_command_id : ℕ
  pub last_error_code : ℕ
  pub retry_count : ℕ
  pub ack_timeout_count : ℕ
  pub device_fault_count : ℕ
  pub stop_failure_count : ℕ
  pub error_latched : Bool

abbrev pub initial : DeviceDiagnosticState
initial = record {
  phase = idle;
  active_command_id = 0;
  last_error_code = 0;
  retry_count = 0;
  ack_timeout_count = 0;
  device_fault_count = 0;
  stop_failure_count = 0;
  error_latched = false;
}

unfoldable pub begin_command : ℕ → DeviceDiagnosticState → DeviceDiagnosticState
begin_command command_id s = record s { active_command_id = command_id; phase = sending }

unfoldable pub mark_sending : DeviceDiagnosticState → DeviceDiagnosticState
mark_sending s = record s { phase = sending }

unfoldable pub mark_waiting_ack : DeviceDiagnosticState → DeviceDiagnosticState
mark_waiting_ack s = record s { phase = waiting_ack }

unfoldable pub record_retry : DeviceDiagnosticState → DeviceDiagnosticState
record_retry s = record s { retry_count = bump64 s.retry_count; phase = retrying }

unfoldable pub mark_stopping : DeviceDiagnosticState → DeviceDiagnosticState
mark_stopping s = record s { phase = stopping }

unfoldable pub record_success : DeviceDiagnosticState → DeviceDiagnosticState
record_success s = record s {
  phase = idle;
  active_command_id = 0;
  last_error_code = 0;
  error_latched = false;
}

unfoldable pub record_canceled : DeviceDiagnosticState → DeviceDiagnosticState
unfolding record_success
record_canceled s = record_success s

unfoldable pub record_ack_timeout : ℕ → DeviceDiagnosticState → DeviceDiagnosticState
record_ack_timeout error_code s = record s {
  ack_timeout_count = bump64 s.ack_timeout_count;
  phase = idle;
  active_command_id = 0;
  last_error_code = error_code;
  error_latched = true;
}

unfoldable pub record_device_fault : ℕ → DeviceDiagnosticState → DeviceDiagnosticState
record_device_fault error_code s = record s {
  device_fault_count = bump64 s.device_fault_count;
  phase = idle;
  active_command_id = 0;
  last_error_code = error_code;
  error_latched = true;
}

unfoldable pub record_stop_failure : ℕ → DeviceDiagnosticState → DeviceDiagnosticState
record_stop_failure error_code s = record s {
  stop_failure_count = bump64 s.stop_failure_count;
  phase = idle;
  active_command_id = 0;
  last_error_code = error_code;
  error_latched = true;
}

unfoldable pub record_transport_error : ℕ → DeviceDiagnosticState → DeviceDiagnosticState
record_transport_error error_code s = record s {
  phase = idle;
  active_command_id = 0;
  last_error_code = error_code;
  error_latched = true;
}

unfoldable pub phase_name : DevicePhase → Text
phase_name idle = text "IDLE"
phase_name sending = text "SENDING"
phase_name waiting_ack = text "WAITING_ACK"
phase_name retrying = text "RETRYING"
phase_name stopping = text "STOPPING"

abbrev is_retrying : DevicePhase → Bool
is_retrying retrying = true
is_retrying _ = false

-- The level and the message of the published status.
abbrev summary : Bool → DeviceDiagnosticState → ℕ × Text
summary socket_ready s =
    if not socket_ready
    then (level_error, text "socket unavailable")
    else if s.error_latched
    then (level_error, text "device bridge error")
    else if is_retrying s.phase
    then (level_warn, text "retrying command")
    else (level_ok, text "ready")

unfoldable pub snapshot : Bool → DeviceDiagnosticState → DiagnosticStatus
snapshot socket_ready s =
    let (level, message) = summary socket_ready s in
    record {
      level = level;
      name = text "runtime/device_bridge";
      message = message;
      hardware_id = text "socketcan_bridge";
      values =
          key_value (text "ready") (if socket_ready then text "true" else text "false")
          ∷ key_value (text "state") (phase_name s.phase)
          ∷ key_value (text "active_command_id") (decimal s.active_command_id)
          ∷ key_value (text "retry_count") (decimal s.retry_count)
          ∷ key_value (text "ack_timeout_count") (decimal s.ack_timeout_count)
          ∷ key_value (text "device_fault_count") (decimal s.device_fault_count)
          ∷ key_value (text "stop_failure_count") (decimal s.stop_failure_count)
          ∷ key_value (text "last_error_code") (decimal s.last_error_code)
          ∷ [];
    }
