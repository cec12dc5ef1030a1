-- ===== src/Executor/Worker.antt =====
-- The worker of one task in task_executor/src/task_executor_node.cpp: handle_accepted, execute and what it calls. Log lines
-- are left out. The loops run on fuel.
use embodied_agent_runtime.Common.{
  ℕ, zero, suc, ◌+◌, ◌-◌, ◌*◌, ◌/◌, ◌%◌, Bool, true, false, not, ◌&&◌, ◌||◌, Option, none, some,
  ◌++◌, ltb, leb, max, min, if◌then◌else◌,
}
use embodied_agent_runtime.Common.Int.{ℤ, pos}
use embodied_agent_runtime.Common.Map.{text_key, find}
use embodied_agent_runtime.Common.Exec.{
  Exec, pure, throw, exhaust, gets, change, ◌>>=◌, ◌>>◌, catching,
}
use embodied_agent_runtime.Common.Decimal.{decimal}
use embodied_agent_runtime.Common.Text.{Text, text}
use embodied_agent_runtime.Bridge.Host.{Goal, safe_stop}
use embodied_agent_runtime.History.StageEventLog.{json_quote}
use embodied_agent_runtime.Executor.TaskDiagnosticState.{begin_task}
use embodied_agent_runtime.Executor.Host.{
  TaskGoal, TaskHost, WrappedResult, TaskRun, before_send_goal, after_send_goal, before_success,
  after_child_accepted, feedback_validating, feedback_running, feedback_task_waiting_ack,
  feedback_recovering, dispatched,
}
use embodied_agent_runtime.Executor.Node.{
  error_bridge_unavailable, error_task_deadline, error_cancel_unconfirmed,
  error_unexpected_child_result, to_steady_duration, allocate_command_id,
}
use embodied_agent_runtime.Executor.Finish.{
  ask, attempt, say, on_diagnostics, emit_stage, run_worker_hook, publish_feedback,
  finish_task_canceled, finish_task_aborted, finish_task_completed,
}
use embodied_agent_runtime.Executor.Child.{
  on_child, sync, wait_for, cancel_child_once, record_cancel_timeout, settle_child_after_exception,
}
use embodied_agent_runtime.Executor.Verdict.{
  StopCause, no_cause, user_cancel, deadline_passed, shutting_down, has_cause, is_shutdown,
  is_success, Verdict, completes, is_ended_by_cancel, fails, wrapped_verdict, unaccepted_verdict,
}

-- The goal for the device: its ACK timeout leaves time for a later STOP.
abbrev pub device_goal : ℕ → ℕ → ℤ → ℕ → Text → Goal
device_goal command_id opcode argument ack_ms trace_id = record {
  command_id = command_id;
  opcode = opcode;
  argument = argument;
  ack_timeout = record { sec = pos (ack_ms / 1000); nanosec = ack_ms % 1000 * 1000000 };
  trace_id = trace_id;
}

unfoldable pub child_ack_timeout_ms : ℕ → ℕ → ℕ
child_ack_timeout_ms ack_timeout_ms remaining = min ack_timeout_ms (max (remaining / 3) 1)

-- The evidence of `can_receive`.
abbrev pub can_receive_json : Goal → ℕ → Text → Text
can_receive_json g ack_ms target_id =
    text "{\"command_id\":"
    ++ decimal g.command_id
    ++ text ",\"opcode\":"
    ++ decimal g.opcode
    ++ text ",\"ack_timeout_ms\":"
    ++ decimal ack_ms
    ++ text ",\"target_id\":"
    ++ json_quote target_id
    ++ text "}"

module _ (h : TaskHost) (goal : TaskGoal) where
  open h use {World, running, context_ok, canceling, goal_active, clock, pause, send_goal}

  unfoldable pub obey : Verdict → Exec (TaskRun World) (Unit {0})
  obey completes = finish_task_completed h goal
  obey (is_ended_by_cancel message) = finish_task_canceled h goal message
  obey (fails outcome error_code message) = finish_task_aborted h goal outcome error_code message

  -- `!running_ || !rclcpp::ok()`.
  unfoldable pub halted : Exec (TaskRun World) Bool
  halted = do r ← ask running; if r then (do ok ← ask context_ok; pure (not ok)) else pure true

  -- The cause that a round of waiting finds.
  unfoldable pub find_cause : ℕ → Exec (TaskRun World) StopCause
  find_cause deadline = do
    stop ← halted
    if stop then pure shutting_down else (do
      cancel ← ask canceling
      if cancel then pure user_cancel else (do
        time ← ask clock
        if leb deadline time then pure deadline_passed else pure no_cause))

  -- How a task ends that is stopped while it is validated.
  abbrev pub validation_verdict : StopCause → Verdict
  validation_verdict shutting_down =
      fails safe_stop error_bridge_unavailable (text "executor shutdown during validation")
  validation_verdict user_cancel = is_ended_by_cancel (text "task canceled before device command")
  validation_verdict _ =
      fails safe_stop error_task_deadline (text "task deadline expired during validation")

  -- The validation steps that are left; the cause that stops them has been obeyed.
  unfoldable pub validate_steps : ℕ → ℕ → ℕ → ℕ → Exec (TaskRun World) Bool
  validate_steps zero step step_ms deadline = pure true
  validate_steps (suc left) step step_ms deadline = do
    cause ← find_cause deadline
    if has_cause cause then (do obey (validation_verdict cause); pure false) else (do
      publish_feedback h feedback_validating (step * 4)
      change (λ r. if ltb 0 step_ms then record r { world = pause step_ms r.world } else r)
      validate_steps left (step + 1) step_ms deadline)

  unfoldable pub argument_of : Option ℤ → Exec (TaskRun World) ℤ
  argument_of none = throw (text "_Map_base::at")
  argument_of (some a) = pure a

  -- From the device goal to its dispatch.
  unfoldable pub dispatch : ℕ → Exec (TaskRun World) (Unit {0})
  dispatch remaining = do
    n ← gets (λ r. r.node)
    let ack_ms = child_ack_timeout_ms n.ack_timeout_ms remaining
    change (λ r. record r { node = (allocate_command_id r.node).1 })
    argument ← argument_of (find goal.target_id n.target_arguments)
    let g = device_goal (allocate_command_id n).0 n.device_opcode argument ack_ms goal.task_id
    emit_stage goal (text "action_execute_end") (text "{}")
    emit_stage goal (text "can_receive") (can_receive_json g ack_ms goal.target_id)
    publish_feedback h feedback_running 25
    run_worker_hook h before_send_goal
    on_child (λ c. record c { dispatch_started = true })
    attempt (send_goal g)
    say (dispatched g)
    run_worker_hook h after_send_goal

  -- The wait for the bridge's answer; `no_cause` means that it came.
  unfoldable pub accept_loop : ℕ → ℕ → ℕ → Exec (TaskRun World) StopCause
  accept_loop zero poll_ms deadline = exhaust
  accept_loop (suc fuel) poll_ms deadline = do
    received ← wait_for h poll_ms (λ c. c.goal_response_received)
    if received then pure no_cause else (do
      cause ← find_cause deadline
      elim (has_cause cause) [
        | true ↦ pure cause
        | false ↦ accept_loop fuel (min (poll_ms * 2) 25) deadline
      ])

  -- A stop: the recovery is told, and the child is to be canceled.
  unfoldable pub recover_child : Exec (TaskRun World) (Unit {0})
  recover_child = do publish_feedback h feedback_recovering 60; cancel_child_once h

  -- After the wait: whether the bridge accepted the command, and whether its answer was seen.
  unfoldable pub settle_acceptance : StopCause → Exec (TaskRun World) (Bool × Bool)
  settle_acceptance cause = do
    sync h
    handle ← gets (λ r. r.child.has_handle)
    if has_cause cause
        then (do
          recover_child
          limit ← gets (λ r. max 2000 r.node.cancel_timeout_ms)
          received ← wait_for h limit (λ c. c.goal_response_received)
          gets (λ r. (r.child.has_handle, r.child.goal_response_received)))
        else pure (handle, false)

  -- What a round of the drain does about a cause that is new.
  unfoldable pub new_cause : StopCause → ℕ → ℕ → Exec (TaskRun World) StopCause
  new_cause cause time deadline = do
    r ← ask running
    if not r && not (is_shutdown cause)
        then (do recover_child; pure shutting_down)
        else if has_cause cause
        then pure cause
        else (do
          cancel ← ask canceling
          if cancel
              then (do recover_child; pure user_cancel)
              else if leb deadline time
              then (do recover_child; pure deadline_passed)
              else pure no_cause)

  -- The wait for the child's result; `none` means that the drain expired and the task has ended.
  unfoldable pub drain_loop : ℕ → StopCause → ℕ → Exec (TaskRun World) (Option StopCause)
  drain_loop zero cause deadline = exhaust
  drain_loop (suc fuel) cause deadline = do
    terminal ← wait_for h 25 (λ c. c.terminal)
    if terminal then pure (some cause) else (do
      time ← ask clock
      record_cancel_timeout h time
      sync h
      expired ← gets (λ r.
          r.child.cancel_requested
          && leb (max r.node.cancel_timeout_ms 1000 * 1000000) (time - r.child.cancel_requested_at))
      elim expired [
        | true ↦ (do
          obey (
              fails safe_stop error_cancel_unconfirmed
                (text "device cancel exceeded drain timeout"))
          pure none)
        | false ↦ (do
          if has_cause cause then cancel_child_once h else pure tt
          cause' ← new_cause cause time deadline
          drain_loop fuel cause' deadline)
      ])

  -- A success that comes too late.
  unfoldable pub last_cause : StopCause → WrappedResult → ℕ → Exec (TaskRun World) StopCause
  last_cause cause child_result deadline =
      if not (has_cause cause) && is_success child_result
      then (do
        run_worker_hook h before_success
        r ← ask running
        if not r then (do cancel_child_once h; pure shutting_down) else (do
          cancel ← ask canceling
          if cancel then (do cancel_child_once h; pure user_cancel) else (do
            time ← ask clock
            if leb deadline time
                then (do cancel_child_once h; pure deadline_passed)
                else pure no_cause)))
      else pure cause

  unfoldable pub result_of : Option WrappedResult → Exec (TaskRun World) WrappedResult
  result_of none = throw (text "child terminal callback returned no result wrapper")
  result_of (some x) = pure x

  -- After the drain.
  unfoldable pub conclude : Option StopCause → ℕ → Exec (TaskRun World) (Unit {0})
  conclude none deadline = pure tt
  conclude (some cause) deadline = do
    time ← ask clock
    record_cancel_timeout h time
    sync h
    c ← gets (λ r. r.child)
    child_result ← result_of c.result
    cause' ← last_cause cause child_result deadline
    obey (wrapped_verdict child_result cause' c.cancel_timed_out)

  -- After the dispatch.
  unfoldable pub await_child : ℕ → ℕ → Exec (TaskRun World) (Unit {0})
  await_child fuel deadline = do
    waited ← accept_loop fuel 5 deadline
    stop ← halted
    let cause = if stop then shutting_down else waited
    (accepted, received) ← settle_acceptance cause
    if not accepted then obey (unaccepted_verdict cause received) else (do
      run_worker_hook h after_child_accepted
      if has_cause cause then recover_child else publish_feedback h feedback_task_waiting_ack 50
      drained ← drain_loop fuel cause deadline
      conclude drained deadline)

  unfoldable pub execute_worker : ℕ → Exec (TaskRun World) (Unit {0})
  execute_worker fuel = do
    time ← ask clock
    delay ← gets (λ r. r.node.validation_delay_ms)
    let deadline = time + to_steady_duration goal.allowed_duration
    emit_stage goal (text "action_execute_start") (text "{}")
    valid ← validate_steps 5 1 (delay / 5) deadline
    if not valid then pure tt else (do
      now ← ask clock
      let remaining = (deadline - now) / 1000000
      if ltb remaining 3
          then obey (
              fails safe_stop error_task_deadline
                (text "insufficient task budget for device command"))
          else (do dispatch remaining; await_child fuel deadline))

  unfoldable pub finish_worker_exception : ℕ → Text → Exec (TaskRun World) (Unit {0})
  finish_worker_exception fuel detail = do
    settle_child_after_exception h fuel
    catching
        (obey (
          fails safe_stop error_unexpected_child_result
            (text "executor worker exception: " ++ detail)))
        (λ e. pure tt)

  -- The guards' destructors.
  unfoldable pub release : Exec (TaskRun World) (Unit {0})
  release = do
    active ← ask goal_active
    change (λ r. record r {
      node = record r.node {
        active_goal = if r.node.parent_terminal || not active then false else r.node.active_goal;
        workers_active = r.node.workers_active - 1;
      };
    })

  unfoldable pub execute : ℕ → Exec (TaskRun World) (Unit {0})
  execute fuel = do catching (execute_worker fuel) (finish_worker_exception fuel); release

  -- `handle_accepted`, up to the start of the worker's thread.
  unfoldable pub handle_task_accepted : Exec (TaskRun World) (Unit {0})
  handle_task_accepted = do
    time ← ask clock
    change (λ r. record r {
      node = record r.node {
        started_at = time;
        parent_terminal = false;
        terminal_event_published = false;
      };
    })
    emit_stage goal (text "action_receive") (text "{}")
    on_diagnostics (begin_task goal.task_id)
    change (λ r. record r { node = record r.node { workers_active = r.node.workers_active + 1 } })
