-- ===== src/Tests/ExecutorNode.antt =====
-- Runs of the task executor's worker.
use embodied_agent_runtime.Common.{
  ℕ, zero, suc, ◌+◌, ◌<◌, true, false, none, some, List, [], ◌∷◌, ◌≡◌, refl, arith,
}
use embodied_agent_runtime.Common.Int.{ℤ, pos, negsuc, IsInt32}
use embodied_agent_runtime.Common.Map.{text_key, find, emplace}
use embodied_agent_runtime.Common.Text.{text, text_eq}
use embodied_agent_runtime.Can.Protocol.{stop_command_id_min}
use embodied_agent_runtime.Bridge.Policy.{duration_to_milliseconds}
use embodied_agent_runtime.Bridge.Host.{DeviceBridge, completed}
use embodied_agent_runtime.Bridge.Diagnostics.{initial}
use embodied_agent_runtime.Bridge.Node.{handle_goal}
use embodied_agent_runtime.Executor.TargetValidator.{
  insert_targets, checked, construct_validator, is_known,
}
use embodied_agent_runtime.Executor.TaskDiagnosticState.{initial_diagnostics}
use embodied_agent_runtime.Executor.Host.{
  TaskGoal, succeeded_code, WrappedResult, ChildEvent, responds, ends, TaskHost, TaskExecutor,
}
use embodied_agent_runtime.Executor.Node.{
  TaskParameters, align, construct_executor, allocate_command_id, to_steady_duration,
}
use embodied_agent_runtime.Executor.Worker.{
  device_goal, child_ack_timeout_ms, obey, halted, find_cause, validate_steps, argument_of,
  dispatch, accept_loop, recover_child, settle_acceptance, new_cause, drain_loop, last_cause,
  result_of, conclude, await_child, execute_worker, release, execute,
}
use embodied_agent_runtime.Executor.Finish.{
  ask, attempt, say, on_diagnostics, emit_stage, run_worker_hook, publish_diagnostics,
  publish_feedback, make_transition, commit_parent_terminal, announce, publish_terminal_event_once,
  end_task, finish_task_completed,
}
use embodied_agent_runtime.Executor.Child.{
  dispatch_cancel, on_goal_response, on_result, on_child_event, run_callbacks, sync, wait_for,
  cancel_child_once, record_cancel_timeout,
}
use embodied_agent_runtime.Executor.Verdict.{child_verdict, wrapped_verdict}
use embodied_agent_runtime.Common.Exec.{pure, throw, gets, change, ◌>>=◌, catching}
use embodied_agent_runtime.Executor.Trace.{has_event, is_well_ended}
use embodied_agent_runtime.Executor.WellEnded.{started, execute-is_well_ended}
use embodied_agent_runtime.Executor.Commands.{device_goal-handle_goal, construct_executor-argument}

abbrev success : WrappedResult
success = record {
  code = succeeded_code;
  result = some (record { outcome = completed; error_code = 0; message = text "ok" });
}

-- The bridge accepts when it is first looked at and succeeds then.
abbrev script : ℕ → List ChildEvent
script zero = responds true ∷ []
script (suc zero) = ends success ∷ []
script _ = []

-- A host where nothing throws and time stands still; its world counts the looks at the callbacks.
abbrev calm_host : TaskHost
calm_host = record {
  World = ℕ;
  running = λ w. (true, w);
  context_ok = λ w. (true, w);
  canceling = λ w. (false, w);
  goal_active = λ w. (true, w);
  bridge_ready = λ w. (true, w);
  clock = λ w. (0, w);
  now = λ w. (record { sec = pos 0; nanosec = 0 }, w);
  callbacks = λ w. (script w, w + 1);
  pause = λ ms w. w;
  hook = λ phase w. (none, w);
  send_feedback = λ state progress w. (none, w);
  send_goal = λ g w. (none, w);
  cancel_goal = λ w. (none, w);
  transition = λ ending result w. (none, w);
  publish_event = λ event w. (none, w);
}

abbrev task : TaskGoal
task = record {
  task_id = text "task-1";
  target_id = text "dock";
  request_id = text "request-1";
  workflow_id = text "";
  allowed_duration = record { sec = pos 5; nanosec = 0 };
}

abbrev parameters : TaskParameters
parameters = record {
  targets = text "dock" ∷ text "home" ∷ [];
  target_arguments = pos 7 ∷ negsuc 2 ∷ [];
  device_opcode = pos 1;
  ack_timeout_ms = pos 500;
  cancel_timeout_ms = pos 2000;
  validation_delay_ms = pos 0;
  diagnostic_period_ms = pos 1000;
  task_event_history_depth = pos 10;
  stage_enabled = true;
}

abbrev made_node : TaskExecutor
made_node = record {
  goal_id = text "";
  validation_delay_ms = 0;
  ack_timeout_ms = 500;
  cancel_timeout_ms = 2000;
  device_opcode = 1;
  next_command_id = 41;
  validator = record { targets = text "home" ∷ text "dock" ∷ [] };
  stage_enabled = true;
  target_arguments = (text "home", negsuc 2) ∷ (text "dock", pos 7) ∷ [];
  active_goal = false;
  parent_terminal = false;
  terminal_event_published = false;
  started_at = 0;
  workers_active = 0;
  diagnostic_state = initial_diagnostics;
}

execute-is_well_ended_example :
    is_well_ended (execute calm_host task 10 (started {W = ℕ} 0 made_node)).1.log ≡ true
execute-is_well_ended_example = execute-is_well_ended calm_host task 10 0 made_node

-- The run reaches its event.
success_announced : has_event (execute calm_host task 10 (started {W = ℕ} 0 made_node)).1.log ≡ true
unfolding ask attempt say on_diagnostics emit_stage run_worker_hook publish_diagnostics
    publish_feedback make_transition commit_parent_terminal announce publish_terminal_event_once
    end_task finish_task_completed dispatch_cancel on_goal_response on_result on_child_event
    run_callbacks sync wait_for cancel_child_once record_cancel_timeout allocate_command_id
    to_steady_duration child_ack_timeout_ms wrapped_verdict child_verdict obey halted find_cause
    validate_steps argument_of dispatch accept_loop recover_child settle_acceptance new_cause
    drain_loop last_cause result_of conclude await_child execute_worker release execute catching
    pure throw gets change ◌>>=◌ find text_eq text
success_announced = refl

abbrev open_bridge : DeviceBridge
open_bridge = record {
  max_ack_timeout_ms = 1000;
  receive_poll_ms = 25;
  stop_timeout_ms = 1000;
  socket_open = true;
  stage_enabled = true;
  active_goal = false;
  next_stop_command_id = stop_command_id_min;
  diagnostic_state = initial;
}

device_goal-handle_goal_example :
    let ack_ms = child_ack_timeout_ms 500 3000 in
    let g = device_goal (allocate_command_id made_node).0 1 (pos 7) ack_ms (text "task-1") in
    ((handle_goal g open_bridge).0 ≡ true)
    × (duration_to_milliseconds g.ack_timeout (pos 1000) ≡ some ack_ms)
    × (g.command_id < stop_command_id_min)
device_goal-handle_goal_example =
    device_goal-handle_goal made_node open_bridge (pos 7) 3000 (text "task-1") (omega arith)
      (omega arith) refl refl

made : construct_executor 41 parameters ≡ some made_node
unfolding construct_executor align emplace find construct_validator insert_targets checked text
    text_eq
made = refl

home_known : is_known (text "home") made_node.validator ≡ true
unfolding is_known text text_eq
home_known = refl

construct_executor-argument_example :
    (a : ℤ) × (find (text "home") made_node.target_arguments ≡ some a) × IsInt32 a
construct_executor-argument_example =
    construct_executor-argument 41 parameters made_node (text "home") made home_known
