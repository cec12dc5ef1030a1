-- ===== src/Gateway/Service/Host.antt =====
-- The requests, the replies and the state of runtime_gateway/src/gateway_service.cpp, with the interface to gRPC,
-- ROS 2 and the history store.
use embodied_agent_runtime.Common.{
  ℕ, ◌+◌, ◌*◌, ◌-◌, ◌^◌, Bool, false, not, ◌&&◌, ◌||◌, Option, List, ◌==◌, ltb, leb, if◌then◌else◌,
  ◌⊎◌,
}
use embodied_agent_runtime.Common.Int.{ℤ}
use embodied_agent_runtime.Common.Text.{Text, text, text_eq, is_empty}
use embodied_agent_runtime.Bridge.Policy.{Duration}
use embodied_agent_runtime.Gateway.Request.{RequestRecord}
use embodied_agent_runtime.Gateway.Registry.{RequestRegistry}
use embodied_agent_runtime.Gateway.Durable.{IdempotencyOutcome}
use embodied_agent_runtime.History.Tasks.{TaskRecord}

-- The messages of robot_runtime.proto; `timeout_ms` is a uint64.
pub record SubmitWorkflowRequest : Type 0 where
  pub request_id : Text
  pub workflow_id : Text
  pub task_id : Text
  pub target_id : Text
  pub timeout_ms : ℕ

pub record SubmitWorkflowReply : Type 0 where
  pub accepted : Bool
  pub request_id : Text
  pub task_id : Text
  pub state : Text
  pub outcome : ℕ
  pub error_code : ℕ
  pub message : Text

pub record CancelWorkflowReply : Type 0 where
  pub accepted : Bool
  pub state : Text
  pub outcome : ℕ
  pub error_code : ℕ
  pub message : Text

-- `TaskRecord`.
pub record TaskReply : Type 0 where
  pub found : Bool
  pub task_id : Text
  pub request_id : Text
  pub workflow_id : Text
  pub goal_id : Text
  pub target_id : Text
  pub state : Text
  pub action_status : ℕ
  pub outcome : ℕ
  pub error_code : ℕ
  pub duration_ms : ℕ
  pub message : Text
  pub completed_at_ns : ℤ

pub record ResolveUncertainReply : Type 0 where
  pub resolved : Bool
  pub state : Text
  pub message : Text

-- The codes of grpc::Status that occur.
pub data StatusCode : Type 0 where
  invalid_argument unavailable_code resource_exhausted deadline_exceeded internal : StatusCode

-- OK with a reply, or another status.
pub data Answer (A : Type 0) : Type 0 where
  replies : A → Answer A
  refuses : StatusCode → Text → Answer A

-- ExecuteWorkflow.action
pub record WorkflowGoal : Type 0 where
  pub request_id : Text
  pub workflow_id : Text
  pub task_id : Text
  pub target_id : Text
  pub allowed_duration : Duration

pub record WorkflowResult : Type 0 where
  pub outcome : ℕ
  pub error_code : ℕ
  pub message : Text

-- What other threads do in one step: the two callbacks of a goal, and `stop_accepting`.
pub data GatewayEvent : Type 0 where
  goal_responds : Text → Bool → GatewayEvent
  goal_ends : Text → Option WorkflowResult → GatewayEvent
  stops : GatewayEvent

-- How the wait for the goal's response ends: not within 500 ms, or with whether there is a handle.
pub data GoalFuture : Type 0 where
  late : GoalFuture
  answered : Bool → GoalFuture

-- The calls out of the service, each with the world that it leaves; a call that may throw gives the
-- text of its exception. `events` are those of other threads since it was last asked, `what` the text of an
-- exception that the ledger threw, and `recorded_task` is `Store::get`.
pub record GatewayHost : Type 1 where
  pub World : Type 0
  pub clock_ns : World → ℤ × World
  pub what : World → Text × World
  pub events : World → List GatewayEvent × World
  pub pause : ℕ → World → World
  pub server_ready : World → Bool × World
  pub recorded_task : Text → World → (Text ⊎ Option TaskRecord) × World
  pub before_send : World → Option Text × World
  pub before_cancel_lookup : World → Option Text × World
  pub before_cancel_dispatch : World → Option Text × World
  pub send_workflow : WorkflowGoal → World → Option Text × World
  pub await_response : World → GoalFuture × World
  pub cancel_workflow_goal : Text → World → Option Text × World

-- What the service does to the outside: it claims a request in the ledger, records that it has ended, sends a
-- goal and sends a cancel.
pub data GatewayEffect : Type 0 where
  claims : Text → GatewayEffect
  concludes : Text → GatewayEffect
  sends : WorkflowGoal → GatewayEffect
  cancels_goal : Text → GatewayEffect

pub record PendingGoal : Type 0 where
  pub has_handle : Bool
  pub payload : RequestRecord
  pub pending : Bool
  pub cancel_requested : Bool
  pub cancel_dispatched : Bool
  pub cancel_failed : Bool

-- The members of `State`, with the world, the history store and the effects, the latest first.
pub record GatewayState (W S : Type 0) : Type 0 where
  pub world : W
  pub store : S
  pub registry : RequestRegistry
  pub goals : List (Text × PendingGoal)
  pub stopping : Bool
  pub cancel_dispatches : ℕ
  pub log : List GatewayEffect

abbrev pub max_duration_ms : ℕ
max_duration_ms = (2 ^ 31 - 1) * 1000 + 999

-- `valid`.
unfoldable pub is_valid_submit : SubmitWorkflowRequest → Bool
is_valid_submit request =
    not (is_empty request.request_id)
    && (not (is_empty request.workflow_id)
        && (not (is_empty request.task_id)
            && (not (is_empty request.target_id)
                && (ltb 0 request.timeout_ms && leb request.timeout_ms max_duration_ms))))

-- `allowed`.
unfoldable pub is_allowlisted : Text → Bool
is_allowlisted workflow_id =
    text_eq workflow_id (text "single_task") || text_eq workflow_id (text "ready_then_task")

-- `active`.
unfoldable pub is_active : RequestRecord → Bool
is_active r =
    text_eq r.state (text "SUBMITTING")
    || (text_eq r.state (text "RUNNING") || text_eq r.state (text "CANCELING"))

unfoldable pub fill_submit : RequestRecord → SubmitWorkflowReply
fill_submit r = record {
  accepted = is_active r;
  request_id = r.request_id;
  task_id = r.task_id;
  state = r.state;
  outcome = r.outcome;
  error_code = r.error_code;
  message = r.message;
}

unfoldable pub fill_durable : IdempotencyOutcome → SubmitWorkflowRequest → SubmitWorkflowReply
fill_durable known request = record {
  accepted = false;
  request_id = request.request_id;
  task_id = request.task_id;
  state = known.state;
  outcome = known.outcome;
  error_code = known.error_code;
  message = known.message;
}

unfoldable pub state_for_outcome : ℕ → Text
state_for_outcome outcome =
    if outcome == 0
    then text "COMPLETED"
    else if outcome == 1
    then text "CANCELED"
    else if outcome == 2
    then text "SAFE_STOP"
    else if outcome == 3
    then text "DEVICE_FAULT"
    else text "ABORTED"
