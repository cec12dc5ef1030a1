-- ===== src/Executor/Host.antt =====
-- What task_executor/src/task_executor_node.cpp uses and does not implement (the goal handle of the
-- parent action, the client of the device action, the steady clock, the hook that tests install), and
-- what its worker leaves behind.
use embodied_agent_runtime.Common.{ℕ, Bool, Option, List}
use embodied_agent_runtime.Common.Int.{ℤ}
use embodied_agent_runtime.Common.Text.{Text}
use embodied_agent_runtime.Common.Status.{DiagnosticStatus}
use embodied_agent_runtime.Bridge.Policy.{Duration}
use embodied_agent_runtime.Bridge.Host.{Goal, Ending}
use embodied_agent_runtime.History.StageEventLog.{StageEvent}
use embodied_agent_runtime.Executor.TargetValidator.{TargetValidator}
use embodied_agent_runtime.Executor.TaskDiagnosticState.{TaskDiagnosticState}
use embodied_agent_runtime.Executor.TaskEvent.{Time, TaskEvent}

-- The goal of ExecuteTask.action.
pub record TaskGoal : Type 0 where
  pub task_id : Text
  pub target_id : Text
  pub request_id : Text
  pub workflow_id : Text
  pub allowed_duration : Duration

-- The result of ExecuteTask.action and of ExecuteDeviceCommand.action.
pub record ActionResult : Type 0 where
  pub outcome : ℕ
  pub error_code : ℕ
  pub message : Text

-- rclcpp_action::ResultCode
pub data ResultCode : Type 0 where
  unknown_code succeeded_code canceled_code aborted_code : ResultCode

pub record WrappedResult : Type 0 where
  pub code : ResultCode
  pub result : Option ActionResult

-- The feedback states of ExecuteTask.action.
abbrev pub feedback_validating : ℕ
feedback_validating = 1

abbrev pub feedback_running : ℕ
feedback_running = 2

abbrev pub feedback_task_waiting_ack : ℕ
feedback_task_waiting_ack = 3

abbrev pub feedback_recovering : ℕ
feedback_recovering = 4

-- TaskEvent.msg
abbrev pub status_succeeded : ℕ
status_succeeded = 1

abbrev pub status_canceled : ℕ
status_canceled = 3

abbrev pub status_aborted : ℕ
status_aborted = 2

pub data WorkerPhase : Type 0 where
  before_feedback before_send_goal after_send_goal before_cancel_goal before_success : WorkerPhase
  after_child_accepted before_parent_transition : WorkerPhase

-- A callback of the device action's client: the answer to the goal, with whether there is a handle, or
-- the result.
pub data ChildEvent : Type 0 where
  responds : Bool → ChildEvent
  ends : WrappedResult → ChildEvent

-- The calls out of the worker, each with the world that it leaves. A call that may throw gives the text
-- of its exception. `callbacks` are those that have run since it was last asked, the first first;
-- `pause` waits for at most so many milliseconds; `clock` counts nanoseconds.
pub record TaskHost : Type 1 where
  pub World : Type 0
  pub running : World → Bool × World
  pub context_ok : World → Bool × World
  pub canceling : World → Bool × World
  pub goal_active : World → Bool × World
  pub bridge_ready : World → Bool × World
  pub clock : World → ℕ × World
  pub now : World → Time × World
  pub callbacks : World → List ChildEvent × World
  pub pause : ℕ → World → World
  pub hook : WorkerPhase → World → Option Text × World
  pub send_feedback : ℕ → ℕ → World → Option Text × World
  pub send_goal : Goal → World → Option Text × World
  pub cancel_goal : World → Option Text × World
  pub transition : Ending → ActionResult → World → Option Text × World
  pub publish_event : TaskEvent → World → Option Text × World

pub data TaskEffect : Type 0 where
  told : ℕ → ℕ → TaskEffect
  reported : DiagnosticStatus → TaskEffect
  staged : StageEvent → TaskEffect
  dispatched : Goal → TaskEffect
  delivered : WrappedResult → TaskEffect
  refused cancels_child : TaskEffect
  finished : Ending → ActionResult → TaskEffect
  announced : TaskEvent → TaskEffect

pub record ChildExecutionState : Type 0 where
  pub dispatch_started : Bool
  pub goal_response_received : Bool
  pub has_handle : Bool
  pub terminal : Bool
  pub result : Option WrappedResult
  pub cancel_requested : Bool
  pub cancel_dispatched : Bool
  pub cancel_requested_at : ℕ
  pub cancel_started_at : ℕ
  pub cancel_timed_out : Bool

-- The members of `TaskExecutorNode`.
pub record TaskExecutor : Type 0 where
  pub goal_id : Text
  pub validation_delay_ms : ℕ
  pub ack_timeout_ms : ℕ
  pub cancel_timeout_ms : ℕ
  pub device_opcode : ℕ
  pub next_command_id : ℕ
  pub validator : TargetValidator
  pub stage_enabled : Bool
  pub target_arguments : List (Text × ℤ)
  pub active_goal : Bool
  pub parent_terminal : Bool
  pub terminal_event_published : Bool
  pub started_at : ℕ
  pub workers_active : ℕ
  pub diagnostic_state : TaskDiagnosticState

-- The worker's state: the world, the node, the child's state, and the effects, the latest first.
pub record TaskRun (W : Type 0) : Type 0 where
  pub world : W
  pub node : TaskExecutor
  pub child : ChildExecutionState
  pub log : List TaskEffect
