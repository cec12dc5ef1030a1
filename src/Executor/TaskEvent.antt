-- ===== src/Executor/TaskEvent.antt =====
-- task_executor/include/task_executor/task_event.hpp and task_executor/src/task_event.cpp.
use embodied_agent_runtime.Common.{ℕ}
use embodied_agent_runtime.Common.Int.{ℤ}
use embodied_agent_runtime.Common.Text.{Text}

-- builtin_interfaces/msg/Time.
pub record Time : Type 0 where
  pub sec : ℤ
  pub nanosec : ℕ

-- robot_task_interfaces/msg/TaskEvent.
pub record TaskEvent : Type 0 where
  pub stamp : Time
  pub task_id : Text
  pub target_id : Text
  pub request_id : Text
  pub workflow_id : Text
  pub goal_id : Text
  pub action_status : ℕ
  pub outcome : ℕ
  pub error_code : ℕ
  pub duration_ms : ℕ
  pub message : Text

unfoldable pub make_task_event :
    Text → Text → Text → Text → Text → ℕ → ℕ → ℕ → ℕ → Text → Time → TaskEvent
make_task_event task_id target_id request_id workflow_id goal_id action_status outcome error_code
      duration_ms message stamp =
    record {
      stamp = stamp;
      task_id = task_id;
      target_id = target_id;
      request_id = request_id;
      workflow_id = workflow_id;
      goal_id = goal_id;
      action_status = action_status;
      outcome = outcome;
      error_code = error_code;
      duration_ms = duration_ms;
      message = message;
    }
