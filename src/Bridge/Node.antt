-- ===== src/Bridge/Node.antt =====
-- The goal callbacks and the bookkeeping of device_bridge/src/device_bridge_node.cpp. Log lines are
-- left out; joining the previous worker changes no state that is modelled.
use embodied_agent_runtime.Common.{
  ℕ, ◌+◌, ◌%◌, ◌^◌, Bool, true, false, not, ◌||◌, Option, none, some, ◌∷◌, ◌==◌, ltb, if◌then◌else◌,
  is_some, min, max,
}
use embodied_agent_runtime.Common.Int.{ℤ, pos, pos_part}
use embodied_agent_runtime.Common.Text.{Text, is_empty}
use embodied_agent_runtime.Can.Protocol.{stop_command_id_min}
use embodied_agent_runtime.Bridge.Policy.{duration_to_milliseconds, is_nonpositive}
use embodied_agent_runtime.Bridge.Diagnostics.{
  DeviceDiagnosticState, initial, begin_command, record_canceled, snapshot,
}
use embodied_agent_runtime.Bridge.Host.{
  Goal, DeviceBridge, Run, Effect, feedback, diagnostics, stage, finished, Ending, aborts, cancels,
  canceled, safe_stop,
}

-- The parameters of the constructor, as declared: `int64_t`.
pub record Parameters : Type 0 where
  pub max_ack_timeout_ms : ℤ
  pub receive_poll_ms : ℤ
  pub stop_timeout_ms : ℤ
  pub diagnostic_period_ms : ℤ
  pub stage_enabled : Bool

-- The constructor: `none` where it throws. The socket has been opened where it returns.
unfoldable pub construct : Parameters → Option DeviceBridge
construct p =
    if is_nonpositive p.max_ack_timeout_ms
      || (is_nonpositive p.stop_timeout_ms || ltb 60000 (pos_part p.stop_timeout_ms))
    then none
    else if is_nonpositive p.diagnostic_period_ms || ltb 60000 (pos_part p.diagnostic_period_ms)
    then none
    else some (record {
      max_ack_timeout_ms = pos_part p.max_ack_timeout_ms;
      receive_poll_ms = min (max (pos_part p.receive_poll_ms) 1) 1000;
      stop_timeout_ms = pos_part p.stop_timeout_ms;
      socket_open = true;
      stage_enabled = p.stage_enabled;
      active_goal = false;
      next_stop_command_id = stop_command_id_min;
      diagnostic_state = initial;
    })

-- `handle_goal`: whether the goal is accepted, and the node after it.
unfoldable pub handle_goal : Goal → DeviceBridge → Bool × DeviceBridge
handle_goal goal b =
    if goal.command_id == 0 || ltb 0xFFFF goal.command_id
    then (false, b)
    else if not (is_some (duration_to_milliseconds goal.ack_timeout (pos b.max_ack_timeout_ms)))
    then (false, b)
    else if not b.socket_open
    then (false, b)
    else if b.active_goal
    then (false, b)
    else (true, record b { active_goal = true })

-- `handle_accepted`, up to the start of the worker.
unfoldable pub handle_accepted : Goal → DeviceBridge → DeviceBridge
handle_accepted goal b = record b {
  diagnostic_state = begin_command (goal.command_id % 2 ^ 16) b.diagnostic_state;
}

unfoldable pub allocate_stop_command_id : DeviceBridge → ℕ × DeviceBridge
allocate_stop_command_id b =
    let command_id = b.next_stop_command_id in
    if command_id == 0xFFFF
    then (command_id, record b { next_stop_command_id = stop_command_id_min })
    else (command_id, record b { next_stop_command_id = (command_id + 1) % 2 ^ 16 })

module _ {W : Type 0} where
  -- An effect of the worker.
  abbrev pub say : Effect → Run W → Run W
  say e r = record r { log = e ∷ r.log }

  -- A call on `diagnostic_state_`.
  abbrev pub on_diagnostics : (DeviceDiagnosticState → DeviceDiagnosticState) → Run W → Run W
  on_diagnostics f r = record r {
    bridge = record r.bridge { diagnostic_state = f r.bridge.diagnostic_state };
  }

  abbrev pub in_world : W → Run W → Run W
  in_world w r = record r { world = w }

  unfoldable pub publish_feedback : ℕ → ℕ → Run W → Run W
  publish_feedback state retry_count r = say (feedback state retry_count) r

  unfoldable pub publish_diagnostics : Run W → Run W
  publish_diagnostics r =
      say (diagnostics (snapshot r.bridge.socket_open r.bridge.diagnostic_state)) r

  unfoldable pub emit_stage : Goal → Text → Text → Run W → Run W
  emit_stage goal name extra_json r =
      if not r.bridge.stage_enabled || is_empty goal.trace_id
      then r
      else say (stage name extra_json) r

  unfoldable pub finish : Ending → ℕ → ℕ → Text → Run W → Run W
  finish ending outcome error_code message r =
      say
        (finished (record {
          ending = ending;
          outcome = outcome;
          error_code = error_code;
          message = message;
        }))
        r

  unfoldable pub finish_canceled : Text → Run W → Run W
  finish_canceled message r =
      finish cancels canceled 0 message (publish_diagnostics (on_diagnostics record_canceled r))

  unfoldable pub finish_aborted : ℕ → ℕ → Text → Run W → Run W
  finish_aborted outcome error_code message r = finish aborts outcome error_code message r

  unfoldable pub finish_safe_stop : ℕ → Text → Run W → Run W
  finish_safe_stop error_code message r = finish_aborted safe_stop error_code message r
