-- ===== src/Bridge/Worker.antt =====
-- `execute` and `stop_and_finish` of device_bridge/src/device_bridge_node.cpp: one command from its
-- first frame to its terminal result. `none` means that the fuel of a wait ran out.
use embodied_agent_runtime.Common.{
  ℕ, zero, suc, ◌+◌, ◌%◌, ◌^◌, Bool, true, false, ◌&&◌, Option, none, some, ◌++◌, ◌==◌, ltb,
  if◌then◌else◌,
}
use mathlib.Core.Option
use embodied_agent_runtime.Common.Int.{pos}
use embodied_agent_runtime.Common.Text.{Text, text}
use embodied_agent_runtime.Common.Decimal.{decimal}
use embodied_agent_runtime.Can.Protocol.{Command, Response, encode_command, stop_opcode}
use embodied_agent_runtime.Bridge.Policy.{
  duration_to_milliseconds, device_error_code, error_invalid_goal, error_transport,
  error_ack_timeout, error_shutdown, error_stop_timeout, error_stop_rejected,
}
use embodied_agent_runtime.Bridge.Diagnostics.{
  mark_sending, mark_waiting_ack, record_retry, mark_stopping, record_success, record_ack_timeout,
  record_device_fault, record_stop_failure, record_transport_error,
}
use embodied_agent_runtime.Bridge.Host.{
  Host, Goal, Run, sent, succeeds, completed, safe_stop, device_fault, feedback_sending,
  feedback_waiting_ack, feedback_retrying, feedback_stopping, mode_stopped,
}
use embodied_agent_runtime.Bridge.Wait.{
  WaitResult, response, timeout, canceled, transport_error, shutdown, receive_response,
}
use embodied_agent_runtime.Bridge.Node.{
  say, on_diagnostics, in_world, publish_feedback, publish_diagnostics, emit_stage, finish,
  finish_canceled, finish_aborted, finish_safe_stop, allocate_stop_command_id,
}

abbrev pub max_retries : ℕ
max_retries = 1

module _ {W : Type 0} where
  -- `~ActiveGuard`.
  abbrev pub release : Run W → Run W
  release r = record r { bridge = record r.bridge { active_goal = false } }

  -- The last part of `stop_and_finish`: what the wait for the STOP's answer ended with.
  unfoldable pub after_stop : ℕ → Bool → ℕ → Text → WaitResult → Run W → Run W
  after_stop stop_command_id cancellation_requested safe_stop_error_code safe_stop_message
        (response s) r =
      if s.result_code == 0 && s.device_mode == mode_stopped
      then (let stop_message =
            text "device STOP acknowledged stop_command_id=" ++ decimal stop_command_id in
          if cancellation_requested
          then finish_canceled stop_message r
          else finish_safe_stop safe_stop_error_code
              (safe_stop_message ++ text "; " ++ stop_message) r)
      else finish_safe_stop error_stop_rejected
          (text "device STOP response rejected stop_command_id=" ++ decimal stop_command_id)
          (publish_diagnostics (on_diagnostics (record_stop_failure error_stop_rejected) r))
  after_stop stop_command_id _ _ _ timeout r =
      finish_safe_stop error_stop_timeout
        (text "device STOP ACK timeout stop_command_id=" ++ decimal stop_command_id)
        (publish_diagnostics (on_diagnostics (record_stop_failure error_stop_timeout) r))
  after_stop _ _ _ _ (transport_error e) r =
      finish_safe_stop error_transport (text "device STOP receive failed: " ++ e)
        (publish_diagnostics (on_diagnostics (record_transport_error error_transport) r))
  after_stop _ _ _ _ (shutdown e) r =
      finish_safe_stop error_transport (text "device STOP receive failed: " ++ e)
        (publish_diagnostics (on_diagnostics (record_transport_error error_transport) r))
  after_stop stop_command_id _ _ _ canceled r =
      finish_safe_stop error_stop_rejected
        (text "device STOP response rejected stop_command_id=" ++ decimal stop_command_id)
        (publish_diagnostics (on_diagnostics (record_stop_failure error_stop_rejected) r))

-- The command that `execute` makes of the goal.
abbrev pub command_of : Goal → Command
command_of goal = record {
  command_id = goal.command_id % 2 ^ 16;
  opcode = goal.opcode;
  argument = goal.argument;
}

-- The JSON that marks the stage events of one attempt.
abbrev pub attempt_json : Command → ℕ → Text
attempt_json command attempt =
    text "{\"command_id\":"
    ++ decimal command.command_id
    ++ text ",\"retry_count\":"
    ++ decimal attempt
    ++ text "}"

module _ (h : Host) where
  open h use {World, canceling, send}

  -- `stop_and_finish` after its wait, and after its send; `fuel` is for the wait.
  unfoldable pub after_stop_wait :
      ℕ → Bool → ℕ → Text → Option (WaitResult × World) → Run World → Option (Run World)
  after_stop_wait stop_command_id cancellation_requested error_code message none r = none
  after_stop_wait stop_command_id cancellation_requested error_code message (some (result, w)) r =
      some
        (after_stop stop_command_id cancellation_requested error_code message result (in_world w r))

  unfoldable pub after_stop_send :
      ℕ → Command → Bool → ℕ → Text → Option Text → Run World → Option (Run World)
  after_stop_send fuel stop_command cancellation_requested error_code message (some e) r = some (
      finish_safe_stop error_transport (text "STOP send failed: " ++ e)
        (publish_diagnostics (on_diagnostics (record_transport_error error_transport) r)))
  after_stop_send fuel stop_command cancellation_requested error_code message none r =
      let r' = publish_feedback feedback_stopping 0 (say (sent (encode_command stop_command)) r) in
      after_stop_wait stop_command.command_id cancellation_requested error_code message
        (receive_response h fuel r'.bridge.receive_poll_ms stop_command.command_id
          r'.bridge.stop_timeout_ms false r'.world)
        r'

  unfoldable pub stop_and_finish : ℕ → ℕ → Bool → ℕ → Text → Run World → Option (Run World)
  stop_and_finish fuel original_command_id cancellation_requested error_code message r0 =
      let r1 = on_diagnostics mark_stopping r0 in
      let (stop_command_id, bridge) = allocate_stop_command_id r1.bridge in
      let stop_command : Command = record {
        command_id = stop_command_id;
        opcode = stop_opcode;
        argument = pos original_command_id;
      } in
      let (send_error, w) = send (encode_command stop_command) r1.world in
      after_stop_send fuel stop_command cancellation_requested error_code message send_error
        (record r1 { bridge = bridge; world = w })

  -- `goal_handle->is_canceling()` while a response is at hand, and what the response then means.
  unfoldable pub on_response : ℕ → Goal → Command → Text → Response → Run World → Option (Run World)
  on_response fuel goal command attempt_extra s r0 =
      let (cancel_seen, w) = canceling r0.world in
      let r1 = in_world w r0 in
      if cancel_seen
      then stop_and_finish fuel command.command_id true 0 (text "") r1
      else if s.result_code == 0
      then some (
          finish succeeds completed 0 (text "device acknowledged command") (
            emit_stage goal (text "can_ack_received") attempt_extra
              (publish_diagnostics (on_diagnostics record_success r1))))
      else (let error_code = device_error_code s.result_code in
          some (
            finish_aborted device_fault error_code
              (text "device returned result_code=" ++ decimal s.result_code)
              (publish_diagnostics (on_diagnostics (record_device_fault error_code) r1))))

  -- What one attempt does with the result of its wait; `retry` is the next round of the loop.
  unfoldable pub after_wait :
      ℕ
      → Goal
      → Command
      → ℕ
      → Text
      → (Run World → Option (Run World))
      → WaitResult
      → Run World
      → Option (Run World)
  after_wait fuel goal command attempt attempt_extra retry (response s) r =
      on_response fuel goal command attempt_extra s r
  after_wait fuel goal command attempt attempt_extra retry canceled r =
      stop_and_finish fuel command.command_id true 0 (text "") r
  after_wait fuel goal command attempt attempt_extra retry (transport_error e) r =
      stop_and_finish fuel command.command_id false error_transport
        (text "CAN receive failed: " ++ e ++ text "; attempting device STOP")
        (publish_diagnostics (on_diagnostics (record_transport_error error_transport) r))
  after_wait fuel goal command attempt attempt_extra retry (shutdown e) r =
      stop_and_finish fuel command.command_id false error_shutdown
        (e ++ text "; attempting device STOP") r
  after_wait fuel goal command attempt attempt_extra retry timeout r =
      if ltb attempt max_retries
      then retry (
          publish_diagnostics
            (on_diagnostics record_retry (publish_feedback feedback_retrying (attempt + 1) r)))
      else stop_and_finish fuel command.command_id false error_ack_timeout
          (text "command ACK timeout; attempting device STOP")
          (emit_stage goal (text "can_retry_exhausted") attempt_extra (
            publish_diagnostics (
              on_diagnostics (record_ack_timeout error_ack_timeout)
                (publish_feedback feedback_stopping attempt r))))

  -- The part of an attempt after its send, and what its wait may have run out of.
  unfoldable pub settle :
      ℕ
      → Goal
      → Command
      → ℕ
      → (Run World → Option (Run World))
      → Option (WaitResult × World)
      → Run World
      → Option (Run World)
  settle fuel goal command attempt retry none r = none
  settle fuel goal command attempt retry (some (result, w)) r =
      after_wait fuel goal command attempt (attempt_json command attempt) retry result
        (in_world w r)

  unfoldable pub after_send :
      ℕ
      → Goal
      → Command
      → ℕ
      → ℕ
      → (Run World → Option (Run World))
      → Option Text
      → Run World
      → Option (Run World)
  after_send fuel goal command ack_timeout attempt retry (some e) r = some (
      finish_aborted safe_stop error_transport (text "CAN send failed: " ++ e)
        (publish_diagnostics (on_diagnostics (record_transport_error error_transport) r)))
  after_send fuel goal command ack_timeout attempt retry none r =
      let attempt_extra = attempt_json command attempt in
      let r1 =
        on_diagnostics mark_waiting_ack
          (publish_feedback feedback_waiting_ack attempt (say (sent (encode_command command)) r)) in
      let r2 =
        emit_stage goal (text "can_ack_wait_start") attempt_extra
          (emit_stage goal (text "can_frame_sent") attempt_extra r1) in
      settle fuel goal command attempt retry
        (receive_response h fuel r2.bridge.receive_poll_ms command.command_id ack_timeout true
          r2.world)
        r2

  -- One attempt once it is not canceled: send the command and wait for its answer.
  unfoldable pub send_command :
      ℕ → Goal → Command → ℕ → ℕ → (Run World → Option (Run World)) → Run World → Option (Run World)
  send_command fuel goal command ack_timeout attempt retry r0 =
      let attempt_extra = attempt_json command attempt in
      let r1 = on_diagnostics mark_sending (publish_feedback feedback_sending attempt r0) in
      let r2 =
        emit_stage goal (text "can_encode_end") attempt_extra
          (emit_stage goal (text "can_encode_start") attempt_extra r1) in
      let (send_error, w) = send (encode_command command) r2.world in
      after_send fuel goal command ack_timeout attempt retry send_error (in_world w r2)

  -- The `for` loop with the rounds that it has left; it returns before it runs out of them.
  unfoldable pub attempts : ℕ → ℕ → Goal → Command → ℕ → ℕ → Bool → Run World → Option (Run World)
  attempts zero fuel goal command ack_timeout attempt command_sent r = some r
  attempts (suc rounds) fuel goal command ack_timeout attempt command_sent r0 =
      let (cancel_seen, w) = canceling r0.world in
      let r1 = in_world w r0 in
      if cancel_seen
      then (if command_sent
          then stop_and_finish fuel command.command_id true 0 (text "") r1
          else some (finish_canceled (text "command canceled before CAN send") r1))
      else send_command fuel goal command ack_timeout attempt
          (attempts rounds fuel goal command ack_timeout (attempt + 1) true) r1

  -- `execute`, with the `ActiveGuard` that clears `active_goal_` on every return.
  unfoldable pub execute : ℕ → Goal → Run World → Option (Run World)
  execute fuel goal r =
      elim (duration_to_milliseconds goal.ack_timeout (pos r.bridge.max_ack_timeout_ms)) [
        | none ↦ some (
            release (
              finish_aborted device_fault error_invalid_goal
                (text "ack_timeout became invalid before execution") r))
        | some ack_timeout ↦
            Option.map release
              (attempts (suc max_retries) fuel goal (command_of goal) ack_timeout 0 false r)
      ]
