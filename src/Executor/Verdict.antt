-- ===== src/Executor/Verdict.antt =====
-- How a task ends, by what task_executor/src/task_executor_node.cpp knows of the device command.
use embodied_agent_runtime.Common.{
  ℕ, Bool, true, false, ◌&&◌, none, some, ◌++◌, ◌==◌, if◌then◌else◌,
}
use embodied_agent_runtime.Common.Map.{text_key}
use embodied_agent_runtime.Common.Text.{Text, text}
use embodied_agent_runtime.Bridge.Host.{completed, canceled, safe_stop, device_fault}
use embodied_agent_runtime.Executor.Host.{
  ActionResult, ResultCode, succeeded_code, canceled_code, WrappedResult,
}
use embodied_agent_runtime.Executor.Node.{
  error_bridge_rejected, error_bridge_unavailable, error_task_deadline, error_cancel_unconfirmed,
  error_unexpected_child_result,
}

pub data StopCause : Type 0 where
  no_cause user_cancel deadline_passed shutting_down : StopCause

abbrev pub has_cause : StopCause → Bool
has_cause no_cause = false
has_cause _ = true

abbrev pub is_shutdown : StopCause → Bool
is_shutdown shutting_down = true
is_shutdown _ = false

abbrev pub is_succeeded : ResultCode → Bool
is_succeeded succeeded_code = true
is_succeeded _ = false

abbrev pub is_canceled : ResultCode → Bool
is_canceled canceled_code = true
is_canceled _ = false

-- How a task is to end: completed, canceled with a message, or aborted with an outcome, a code and a
-- message.
pub data Verdict : Type 0 where
  completes : Verdict
  is_ended_by_cancel : Text → Verdict
  fails : ℕ → ℕ → Text → Verdict

-- The branches of `finish_from_child` where there is a result.
unfoldable pub child_verdict : ResultCode → ActionResult → StopCause → Bool → Verdict
child_verdict code result shutting_down cancel_timed_out =
    fails safe_stop error_bridge_unavailable (text "executor shutdown after device command drain")
child_verdict code result user_cancel cancel_timed_out =
    if cancel_timed_out
    then fails safe_stop error_cancel_unconfirmed
        (text "device cancel exceeded confirmation timeout")
    else if is_canceled code && (result.outcome == canceled)
    then is_ended_by_cancel (text "task and device command canceled")
    else if result.outcome == safe_stop
    then fails safe_stop result.error_code
        (text "device stop was not confirmed: " ++ result.message)
    else fails safe_stop error_cancel_unconfirmed
        (text "task cancel ended without confirmed device stop: " ++ result.message)
child_verdict code result deadline_passed cancel_timed_out =
    fails safe_stop error_task_deadline (text "task deadline exceeded: " ++ result.message)
child_verdict code result no_cause cancel_timed_out =
    if is_succeeded code && (result.outcome == completed)
    then completes
    else if result.outcome == device_fault
    then fails device_fault result.error_code (text "device command failed: " ++ result.message)
    else if result.outcome == safe_stop
    then fails safe_stop result.error_code
        (text "device command entered safe stop: " ++ result.message)
    else fails safe_stop error_unexpected_child_result (text "unexpected Device Bridge result")

-- `finish_from_child` as a whole.
unfoldable pub wrapped_verdict : WrappedResult → StopCause → Bool → Verdict
wrapped_verdict child_result cause cancel_timed_out = elim child_result.result [
  | none ↦ fails safe_stop error_unexpected_child_result (text "Device Bridge returned no result")
  | some result ↦ child_verdict child_result.code result cause cancel_timed_out
]

-- A result by which a task without a cause to stop succeeds.
abbrev pub is_success : WrappedResult → Bool
is_success child_result = elim child_result.result [
  | none ↦ false
  | some result ↦ is_succeeded child_result.code && (result.outcome == completed)
]

-- The end of a task whose command the bridge did not accept.
unfoldable pub unaccepted_verdict : StopCause → Bool → Verdict
unaccepted_verdict shutting_down response_received =
    fails safe_stop error_bridge_unavailable
      (text "executor shutdown before Device Bridge accepted command")
unaccepted_verdict no_cause response_received =
    fails device_fault error_bridge_rejected (text "Device Bridge rejected command")
unaccepted_verdict user_cancel response_received =
    if response_received
    then is_ended_by_cancel (text "task canceled before Device Bridge accepted command")
    else fails safe_stop error_cancel_unconfirmed
        (text "device command acceptance was not confirmed before the parent terminal")
unaccepted_verdict deadline_passed response_received =
    if response_received
    then fails safe_stop error_task_deadline
        (text "task deadline expired before bridge rejected command")
    else fails safe_stop error_cancel_unconfirmed
        (text "device command acceptance was not confirmed before the parent terminal")
