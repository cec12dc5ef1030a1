-- ===== src/Executor/Node.antt =====
-- The constructor, handle_goal and the command ids of task_executor/src/task_executor_node.cpp.
use embodied_agent_runtime.Common.{
  ℕ, ◌+◌, ◌*◌, ◌%◌, ◌^◌, Bool, true, false, not, ◌&&◌, ◌||◌, Option, none, some, List, [], ◌∷◌,
  length, ◌==◌, ltb, leb, if◌then◌else◌, min,
}
use mathlib.Core.Option
use embodied_agent_runtime.Common.Int.{ℤ, pos, negsuc, pos_part}
use embodied_agent_runtime.Common.Map.{text_key, emplace}
use embodied_agent_runtime.Common.Text.{Text, text}
use embodied_agent_runtime.Bridge.Policy.{Duration, is_negative, is_nonpositive}
use embodied_agent_runtime.Executor.TargetValidator.{
  TargetValidator, construct_validator, has_non_whitespace, is_known,
}
use embodied_agent_runtime.Executor.TaskDiagnosticState.{initial_diagnostics, set_bridge_ready}
use embodied_agent_runtime.Executor.Host.{TaskGoal, TaskExecutor, ChildExecutionState}

abbrev pub error_bridge_rejected : ℕ
error_bridge_rejected = 110

abbrev pub error_bridge_unavailable : ℕ
error_bridge_unavailable = 111

abbrev pub error_task_deadline : ℕ
error_task_deadline = 112

abbrev pub error_cancel_unconfirmed : ℕ
error_cancel_unconfirmed = 113

abbrev pub error_unexpected_child_result : ℕ
error_unexpected_child_result = 114

abbrev pub max_application_command_id : ℕ
max_application_command_id = 0x7FFF

-- The parameters of the constructor that the worker reads, as declared.
pub record TaskParameters : Type 0 where
  pub targets : List Text
  pub target_arguments : List ℤ
  pub device_opcode : ℤ
  pub ack_timeout_ms : ℤ
  pub cancel_timeout_ms : ℤ
  pub validation_delay_ms : ℤ
  pub diagnostic_period_ms : ℤ
  pub task_event_history_depth : ℤ
  pub stage_enabled : Bool

-- `value < low || value > high` for a range of natural numbers from 0 or from 1.
abbrev pub outside : ℕ → ℕ → ℤ → Bool
outside low high (pos n) = ltb n low || ltb high n
outside low high (negsuc n) = true

-- Whether a value is outside of an `int32_t`.
abbrev pub exceeds_int32 : ℤ → Bool
exceeds_int32 (pos n) = leb (2 ^ 31) n
exceeds_int32 (negsuc n) = leb (2 ^ 31) n

-- The loop over the targets; the lists are equally long. `none` is a throw.
unfoldable pub align : List Text → List ℤ → List (Text × ℤ) → Option (List (Text × ℤ))
align [] arguments aligned = some aligned
align (t ∷ ts) [] aligned = some aligned
align (t ∷ ts) (a ∷ arguments) aligned =
    let rest = align ts arguments (emplace t a aligned) in if exceeds_int32 a then none else rest

-- The constructor's checks: `none` where it throws. `first` is the value of `initial_command_id()`.
unfoldable pub construct_executor : ℕ → TaskParameters → Option TaskExecutor
construct_executor first p =
    if not (length p.targets == length p.target_arguments) || (length p.targets == 0)
    then none
    else if outside 0 255 p.device_opcode
    then none
    else if outside 1 60000 p.ack_timeout_ms || outside 1 60000 p.cancel_timeout_ms
    then none
    else if outside 1 60000 p.diagnostic_period_ms
    then none
    else if outside 1 1000 p.task_event_history_depth
    then none
    else elim (align p.targets p.target_arguments []) [
      | none ↦ none
      | some aligned ↦
          Option.map
            (λ (v : TargetValidator). record {
              goal_id = text "";
              validation_delay_ms = min (pos_part p.validation_delay_ms) 60000;
              ack_timeout_ms = pos_part p.ack_timeout_ms;
              cancel_timeout_ms = pos_part p.cancel_timeout_ms;
              device_opcode = pos_part p.device_opcode;
              next_command_id = first;
              validator = v;
              stage_enabled = p.stage_enabled;
              target_arguments = aligned;
              active_goal = false;
              parent_terminal = false;
              terminal_event_published = false;
              started_at = 0;
              workers_active = 0;
              diagnostic_state = initial_diagnostics;
            })
            (construct_validator p.targets)
    ]

unfoldable pub duration_is_valid : Duration → Bool
duration_is_valid d =
    not (is_negative d.sec)
    && (ltb d.nanosec 1000000000 && (not (is_nonpositive d.sec) || not (d.nanosec == 0)))

-- A duration in nanoseconds; the seconds are not negative where it is used.
unfoldable pub to_steady_duration : Duration → ℕ
to_steady_duration d = pos_part d.sec * 1000000000 + d.nanosec

-- `handle_goal`: whether the goal is accepted, and the node after it. `running` and `ready` are what
-- `running_` and `action_server_is_ready()` read.
unfoldable pub handle_task_goal : Bool → Bool → Text → TaskGoal → TaskExecutor → Bool × TaskExecutor
handle_task_goal running ready goal_id goal n =
    if not running
    then (false, n)
    else if not (has_non_whitespace goal.task_id)
    then (false, n)
    else if not (duration_is_valid goal.allowed_duration)
    then (false, n)
    else if not (has_non_whitespace goal.target_id) || not (is_known goal.target_id n.validator)
    then (false, n)
    else if not ready
    then (false, record n { diagnostic_state = set_bridge_ready false n.diagnostic_state })
    else if n.active_goal
    then (false, n)
    else (true, record n { active_goal = true; goal_id = goal_id })

unfoldable pub allocate_command_id : TaskExecutor → ℕ × TaskExecutor
allocate_command_id n =
    let command_id =
      if n.next_command_id == 0 || ltb max_application_command_id n.next_command_id
      then 1
      else n.next_command_id in
    (command_id, record n { next_command_id = (command_id + 1) % 2 ^ 16 })

-- A `ChildExecutionState` as it is initialised.
abbrev pub fresh_child : ChildExecutionState
fresh_child = record {
  dispatch_started = false;
  goal_response_received = false;
  has_handle = false;
  terminal = false;
  result = none;
  cancel_requested = false;
  cancel_dispatched = false;
  cancel_requested_at = 0;
  cancel_started_at = 0;
  cancel_timed_out = false;
}
