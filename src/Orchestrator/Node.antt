-- ===== src/Orchestrator/Node.antt =====
-- The node of task_orchestrator/src/task_orchestrator_node.cpp: its goal and cancel callbacks, and the flags that
-- say whether a workflow is active.
use embodied_agent_runtime.Common.{
  ℕ, ◌+◌, ◌-◌, ◌*◌, ◌^◌, Bool, true, false, not, ◌||◌, ◌&&◌, Option, none, some, leb, ltb, ◌==◌,
  if◌then◌else◌, bump64,
}
use embodied_agent_runtime.Common.Int.{ℤ, pos, negsuc, pos_part}
use embodied_agent_runtime.Common.Text.{Text, text, text_eq}
use embodied_agent_runtime.Bridge.Policy.{Duration}
use embodied_agent_runtime.Gateway.Service.Host.{WorkflowGoal}
use embodied_agent_runtime.Orchestrator.Host.{TaskOrchestrator, WorkflowState, RetryState}

-- The constructor, of the parameters `ready_stale_ms` and `cancel_timeout_ms`: `none` where it throws.
unfoldable pub construct_orchestrator : ℤ → ℤ → Option TaskOrchestrator
construct_orchestrator (pos ready_stale_ms) (pos cancel_timeout_ms) =
    if ready_stale_ms == 0 || cancel_timeout_ms == 0
    then none
    else some (record {
      accepting = true;
      running = true;
      active = false;
      generation_counter = 0;
      active_generation = 0;
      terminal_started = false;
      fallback_attempted = false;
      terminal_transition_failed = false;
      cancel_accepted = false;
      terminal_reserved = false;
      active_deadline = 0;
      ready = record { received_at = none; ready = false };
      ready_stale_ms = ready_stale_ms;
      cancel_timeout_ms = cancel_timeout_ms;
    })
construct_orchestrator _ _ = none

-- The last time of the steady clock.
abbrev pub steady_max : ℕ
steady_max = 2 ^ 63 - 1

abbrev pub is_before : ℤ → Bool
is_before (pos n) = false
is_before (negsuc n) = true

unfoldable pub is_bad_duration : Duration → Bool
is_bad_duration d =
    is_before d.sec || (leb 1000000000 d.nanosec || (pos_part d.sec == 0 && d.nanosec == 0))

unfoldable pub is_workflow : Text → Bool
is_workflow workflow_id =
    text_eq workflow_id (text "single_task") || text_eq workflow_id (text "ready_then_task")

-- The end of the workflow's time.
unfoldable pub deadline_after : Duration → ℕ → ℕ
deadline_after d started_at =
    let allowed = pos_part d.sec * 1000000000 + d.nanosec in
    if ltb (steady_max - started_at) allowed then steady_max else started_at + allowed

-- `handle_goal`, with what the second read of `accepting_` gives and the time: whether the goal is
-- accepted, and the node after it.
unfoldable pub handle_workflow_goal :
    Bool → ℕ → WorkflowGoal → TaskOrchestrator → Bool × TaskOrchestrator
handle_workflow_goal still_accepting now goal n =
    if not n.accepting || is_bad_duration goal.allowed_duration
    then (false, n)
    else if not (is_workflow goal.workflow_id)
    then (false, n)
    else if n.active
    then (false, n)
    else let generation = bump64 n.generation_counter in
      if not still_accepting
      then (
        false,
        record n {
          generation_counter = generation;
          active_generation = generation;
          active = false;
        },
      )
      else (
        true,
        record n {
          generation_counter = generation;
          active_generation = generation;
          active = true;
          terminal_started = false;
          fallback_attempted = false;
          terminal_transition_failed = false;
          cancel_accepted = false;
          terminal_reserved = false;
          active_deadline = deadline_after goal.allowed_duration now;
        },
      )

-- `handle_cancel`: whether the cancel is accepted.
unfoldable pub handle_workflow_cancel : TaskOrchestrator → Bool × TaskOrchestrator
handle_workflow_cancel n =
    if n.terminal_reserved then (false, n) else (true, record n { cancel_accepted = true })

unfoldable pub request_stop : TaskOrchestrator → TaskOrchestrator
request_stop n = record n { accepting = false; running = false }

unfoldable pub release_active_for_generation : ℕ → TaskOrchestrator → TaskOrchestrator
release_active_for_generation generation n =
    if n.active_generation == generation then record n { active = false } else n

unfoldable pub finish_worker : ℕ → TaskOrchestrator → TaskOrchestrator
unfolding release_active_for_generation
finish_worker generation n =
    if not n.terminal_transition_failed && n.active_generation == generation
    then release_active_for_generation generation n
    else n

-- The constructor of `WorkflowState`.
unfoldable pub start_flow : WorkflowGoal → ℕ → WorkflowState
start_flow goal deadline = record {
  child_goal = record {
    task_id = goal.task_id;
    target_id = goal.target_id;
    request_id = goal.request_id;
    workflow_id = goal.workflow_id;
    allowed_duration = record { sec = pos 0; nanosec = 0 };
  };
  has_handle = false;
  child_result = none;
  deadline = deadline;
  goal_response_received = false;
  child_goal_dispatched = false;
  halt_requested = false;
  cancel_in_flight = false;
  cancel_dispatched = false;
  cancel_timed_out = false;
  active_node = text "RuntimeReady";
  progress = 0;
}

abbrev pub fresh_retry : RetryState
fresh_retry = record { attempts = 0; delay_ms = 0; used = 0; next_check = 0 }
