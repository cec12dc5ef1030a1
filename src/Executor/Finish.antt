-- ===== src/Executor/Finish.antt =====
-- Feedback, diagnostics and the end of a task in task_executor/src/task_executor_node.cpp.
use embodied_agent_runtime.Common.{
  ℕ, ◌-◌, ◌/◌, Bool, true, false, Option, none, some, ◌∷◌, ◌==◌, if◌then◌else◌,
}
use embodied_agent_runtime.Common.Exec.{
  returned, Exec, pure, throw, gets, change, ◌>>=◌, ◌>>◌, catching,
}
use embodied_agent_runtime.Common.Text.{Text, text}
use embodied_agent_runtime.Bridge.Host.{
  Ending, succeeds, aborts, cancels, completed, canceled, device_fault,
}
use embodied_agent_runtime.Executor.TaskDiagnosticState.{
  TaskDiagnosticState, set_bridge_ready, mark_validating, mark_running, mark_task_waiting_ack,
  mark_recovering, record_task_success, record_task_canceled, record_failure, task_snapshot,
}
use embodied_agent_runtime.History.StageEventLog.{StageEvent}
use embodied_agent_runtime.Executor.TaskEvent.{make_task_event}
use embodied_agent_runtime.Executor.Host.{
  TaskGoal, ActionResult, TaskHost, WorkerPhase, before_feedback, before_parent_transition,
  TaskEffect, told, reported, staged, finished, announced, TaskRun, feedback_validating,
  feedback_running, feedback_task_waiting_ack, feedback_recovering, status_succeeded,
  status_canceled, status_aborted,
}

-- The event of a stage; the task id is its trace.
abbrev pub stage_event : TaskGoal → Text → Text → StageEvent
stage_event goal name extra_json = record {
  trace_id = goal.task_id;
  source_node = text "task_executor";
  stage = name;
  event_name = name;
  event_type = text "action";
  duration_ns = 0;
  status = text "observed";
  reason_code = text "";
  extra_json = extra_json;
}

module _ {W : Type 0} where
  -- A read of the world.
  unfoldable pub ask : {A : Type 0} → (W → A × W) → Exec (TaskRun W) A
  ask f r = let (a, w) = f r.world in (returned a, record r { world = w })

  abbrev pub raise : Option Text → Exec (TaskRun W) (Unit {0})
  raise none = pure tt
  raise (some e) = throw e

  -- A call out of the worker that may throw.
  unfoldable pub attempt : (W → Option Text × W) → Exec (TaskRun W) (Unit {0})
  attempt f = do e ← ask f; raise e

  unfoldable pub say : TaskEffect → Exec (TaskRun W) (Unit {0})
  say e r = (returned tt, record r { log = e ∷ r.log })

  unfoldable pub on_diagnostics :
      (TaskDiagnosticState → TaskDiagnosticState) → Exec (TaskRun W) (Unit {0})
  on_diagnostics f r = (
    returned tt,
    record r { node = record r.node { diagnostic_state = f r.node.diagnostic_state } },
  )

  unfoldable pub emit_stage : TaskGoal → Text → Text → Exec (TaskRun W) (Unit {0})
  emit_stage goal name extra_json = do
    enabled ← gets (λ r. r.node.stage_enabled)
    if enabled then say (staged (stage_event goal name extra_json)) else pure tt

module _ (h : TaskHost) where
  open h use {
    World, goal_active, bridge_ready, clock, now, hook, send_feedback, transition, publish_event,
  }

  unfoldable pub run_worker_hook : WorkerPhase → Exec (TaskRun World) (Unit {0})
  run_worker_hook phase = attempt (hook phase)

  -- The publisher's own exceptions are caught; they change nothing that is modelled.
  unfoldable pub publish_diagnostics : Exec (TaskRun World) (Unit {0})
  publish_diagnostics = do
    ready ← ask bridge_ready
    on_diagnostics (set_bridge_ready ready)
    s ← gets (λ r. r.node.diagnostic_state)
    say (reported (task_snapshot s))

  -- The switch of `publish_feedback`.
  abbrev pub note_feedback : ℕ → TaskDiagnosticState → TaskDiagnosticState
  note_feedback state s =
      if state == feedback_validating
      then mark_validating s
      else if state == feedback_running
      then mark_running s
      else if state == feedback_task_waiting_ack
      then mark_task_waiting_ack s
      else if state == feedback_recovering
      then mark_recovering s
      else s

  -- The progress is in hundredths.
  unfoldable pub publish_feedback : ℕ → ℕ → Exec (TaskRun World) (Unit {0})
  publish_feedback state progress = do
    run_worker_hook before_feedback
    attempt (send_feedback state progress)
    say (told state progress)
    on_diagnostics (note_feedback state)
    if state == feedback_recovering then publish_diagnostics else pure tt

  -- After a throw out of the transition: a goal that is not active has ended all the same.
  unfoldable pub transition_failed : Text → Exec (TaskRun World) Bool
  transition_failed e = do
    active ← ask goal_active
    if active
        then (do
          change (λ r. record r { node = record r.node { parent_terminal = false } })
          throw e)
        else pure true

  unfoldable pub make_transition : Ending → ActionResult → Exec (TaskRun World) Bool
  make_transition ending result = do
    run_worker_hook before_parent_transition
    attempt (transition ending result)
    say (finished ending result)
    pure true

  -- `compare_exchange_strong` of `parent_terminal_` is one step.
  unfoldable pub commit_parent_terminal : Ending → ActionResult → Exec (TaskRun World) Bool
  commit_parent_terminal ending result = do
    taken ← gets (λ r. r.node.parent_terminal)
    if taken then pure false else (do
      change (λ r. record r { node = record r.node { parent_terminal = true } })
      catching (make_transition ending result) transition_failed)

  unfoldable pub announce : TaskGoal → ActionResult → ℕ → Exec (TaskRun World) (Unit {0})
  announce goal result action_status = do
    time ← ask clock
    stamp ← ask now
    n ← gets (λ r. r.node)
    let event =
        make_task_event goal.task_id goal.target_id goal.request_id goal.workflow_id n.goal_id
          action_status result.outcome result.error_code ((time - n.started_at) / 1000000)
          result.message stamp
    attempt (publish_event event)
    say (announced event)

  unfoldable pub publish_terminal_event_once :
      TaskGoal → ActionResult → ℕ → Exec (TaskRun World) (Unit {0})
  publish_terminal_event_once goal result action_status = do
    published ← gets (λ r. r.node.terminal_event_published)
    change (λ r. record r { node = record r.node { terminal_event_published = true } })
    if published then pure tt else catching (announce goal result action_status) (λ e. pure tt)

  -- The end that `finish_canceled`, `finish_aborted` and the success of `finish_from_child` share.
  unfoldable pub end_task : TaskGoal → Ending → ActionResult → ℕ → Exec (TaskRun World) (Unit {0})
  end_task goal ending result action_status = do
    committed ← commit_parent_terminal ending result
    if committed then publish_terminal_event_once goal result action_status else pure tt

  unfoldable pub finish_task_canceled : TaskGoal → Text → Exec (TaskRun World) (Unit {0})
  finish_task_canceled goal message = do
    on_diagnostics record_task_canceled
    publish_diagnostics
    end_task goal cancels (record { outcome = canceled; error_code = 0; message = message })
        status_canceled

  unfoldable pub finish_task_aborted : TaskGoal → ℕ → ℕ → Text → Exec (TaskRun World) (Unit {0})
  finish_task_aborted goal outcome error_code message = do
    on_diagnostics (
        record_failure (if outcome == device_fault then text "DEVICE_FAULT" else text "SAFE_STOP")
          error_code)
    publish_diagnostics
    end_task goal aborts (record { outcome = outcome; error_code = error_code; message = message })
        status_aborted

  unfoldable pub finish_task_completed : TaskGoal → Exec (TaskRun World) (Unit {0})
  finish_task_completed goal = do
    on_diagnostics (record_task_success (text "COMPLETED"))
    publish_diagnostics
    end_task goal succeeds
        (record {
          outcome = completed;
          error_code = 0;
          message = text "task completed through Device Bridge";
        })
        status_succeeded
