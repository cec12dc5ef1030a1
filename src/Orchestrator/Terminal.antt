-- ===== src/Orchestrator/Terminal.antt =====
-- How a workflow ends in task_orchestrator/src/task_orchestrator_node.cpp: `finish` and `terminal`.
use embodied_agent_runtime.Common.{
  ℕ, Bool, true, false, not, ◌||◌, ◌&&◌, Option, none, some, leb, ◌==◌, if◌then◌else◌,
}
use embodied_agent_runtime.Common.Exec.{pure, gets, ◌>>=◌, ◌>>◌, catching}
use embodied_agent_runtime.Common.Text.{Text, text}
use embodied_agent_runtime.Bridge.Host.{
  Ending, succeeds, aborts, cancels, completed, canceled, safe_stop, device_fault,
}
use embodied_agent_runtime.Executor.Host.{ActionResult, WrappedResult}
use embodied_agent_runtime.Orchestrator.Host.{
  before_terminal_commit, before_terminal_transition, before_fallback_abort, FlowHost,
  ends_workflow, WorkflowState, TaskOrchestrator,
}
use embodied_agent_runtime.Orchestrator.Node.{release_active_for_generation}
use embodied_agent_runtime.Orchestrator.Leaves.{
  has_succeeded, look, dare, note, on_node, Flow, let_others,
}

abbrev pub error_shutdown : ℕ
error_shutdown = 205

abbrev pub error_precondition : ℕ
error_precondition = 206

abbrev pub error_cancel_unconfirmed : ℕ
error_cancel_unconfirmed = 207

abbrev pub error_internal : ℕ
error_internal = 208

abbrev pub error_deadline : ℕ
error_deadline = 209

-- The arguments of `terminal`.
pub record WorkflowEnd : Type 0 where
  pub ending : Ending
  pub result : ActionResult

abbrev pub safe_end : ℕ → Text → WorkflowEnd
safe_end error_code message = record {
  ending = aborts;
  result = record { outcome = safe_stop; error_code = error_code; message = message };
}

-- The workflow is being canceled and the task has ended.
abbrev pub end_of_canceled : ActionResult → WorkflowEnd
end_of_canceled child =
    if child.outcome == canceled
    then record { ending = cancels; result = child }
    else if child.outcome == safe_stop || child.outcome == device_fault
    then record { ending = aborts; result = child }
    else safe_end error_internal (text "parent cancel raced with non-canceled child result")

-- The task has ended by itself.
abbrev pub end_of_task : Bool → ActionResult → WorkflowEnd
end_of_task succeeded child =
    if child.outcome == completed && succeeded
    then record { ending = succeeds; result = child }
    else if child.outcome == canceled
    then safe_end error_internal (text "child canceled without parent cancellation")
    else record { ending = aborts; result = child }

-- There is no result of the task.
abbrev pub end_without_task : Bool → Bool → WorkflowEnd
end_without_task canceling dispatched =
    if canceling && dispatched
    then safe_end error_cancel_unconfirmed (text "child task cancel was not confirmed in time")
    else if canceling
    then record {
      ending = cancels;
      result = record {
        outcome = canceled;
        error_code = 0;
        message = text "workflow canceled before child task dispatch";
      };
    }
    else safe_end error_precondition (text "workflow precondition failed")

abbrev pub end_of_result : Bool → Bool → Bool → Option ActionResult → WorkflowEnd
end_of_result canceling dispatched succeeded none = end_without_task canceling dispatched
end_of_result canceling dispatched succeeded (some child) =
    if canceling then end_of_canceled child else end_of_task succeeded child

abbrev pub end_with : Bool → Bool → Option WrappedResult → WorkflowEnd
end_with canceling dispatched none = end_without_task canceling dispatched
end_with canceling dispatched (some w) =
    end_of_result canceling dispatched (has_succeeded w.code) w.result

-- `finish`, up to the call of `terminal`.
unfoldable pub end_of_workflow : Bool → WorkflowState → WorkflowEnd
end_of_workflow canceling s =
    if canceling && s.cancel_timed_out
    then safe_end error_cancel_unconfirmed
        (text "child task cancel exceeded the confirmation budget")
    else end_with canceling s.child_goal_dispatched s.child_result

abbrev pub is_success_end : Ending → Bool
is_success_end succeeds = true
is_success_end _ = false

-- What is committed, with whether a cancel was accepted and whether the deadline has passed.
unfoldable pub commit : Bool → Bool → WorkflowEnd → WorkflowEnd
commit cancel_accepted late e =
    if is_success_end e.ending && cancel_accepted
    then safe_end error_internal (text "parent cancel raced with terminal child result")
    else if is_success_end e.ending && late
    then safe_end error_deadline (text "workflow allowed duration exceeded at terminal commit")
    else e

-- `terminal_started_.exchange(true)`.
abbrev pub start_terminal : TaskOrchestrator → Bool × TaskOrchestrator
start_terminal n = (n.terminal_started, record n { terminal_started = true })

abbrev pub start_fallback : TaskOrchestrator → Bool × TaskOrchestrator
start_fallback n = (n.fallback_attempted, record n { fallback_attempted = true })

abbrev pub reserve_terminal : TaskOrchestrator → Unit {0} × TaskOrchestrator
reserve_terminal n = (tt, record n { terminal_reserved = true })

-- `release_active_for_generation(active_generation_.load())`.
abbrev pub release_active : TaskOrchestrator → Unit {0} × TaskOrchestrator
release_active n = (tt, release_active_for_generation n.active_generation n)

abbrev pub fail_transition : TaskOrchestrator → Unit {0} × TaskOrchestrator
fail_transition n = (tt, record n { terminal_transition_failed = true })

module _ (h : FlowHost) (T : Type 0) where
  open h use {World, goal_active, clock, fault_hook, transition}

  -- The transition of the goal handle, behind its hook.
  unfoldable pub end_goal : WorkflowEnd → Flow h T Bool
  end_goal e = do
    dare (transition e.ending e.result)
    note (ends_workflow e.ending e.result)
    on_node release_active
    pure true

  unfoldable pub try_transition : WorkflowEnd → Flow h T Bool
  try_transition e = do
    active ← look goal_active
    if active
        then (do dare (fault_hook before_terminal_transition); let_others h T; end_goal e)
        else pure true

  unfoldable pub try_fallback : Flow h T Bool
  try_fallback = do
    dare (fault_hook before_fallback_abort)
    let_others h T
    end_goal (safe_end error_internal (text "workflow terminal transition fallback"))

  -- After the transition threw.
  unfoldable pub fall_back : Flow h T Bool
  fall_back = do
    active ← look goal_active
    attempted ← if active then on_node start_fallback else pure true
    aborted ← if attempted then pure false else catching try_fallback (λ e. pure false)
    if aborted then pure true else (do
      still_active ← look goal_active
      if still_active then on_node fail_transition else pure tt
      pure (not still_active))

  abbrev pub has_not_failed : Flow h T Bool
  has_not_failed = gets (λ r. not r.node.terminal_transition_failed)

  -- The time at the commit, which only a success reads.
  unfoldable pub commit_time : WorkflowEnd → Flow h T ℕ
  commit_time e = if is_success_end e.ending then look clock else pure 0

  unfoldable pub commit_hook : WorkflowEnd → Flow h T (Unit {0})
  commit_hook e =
      if is_success_end e.ending
      then catching (dare (fault_hook before_terminal_commit)) (λ error. pure tt)
      else pure tt

  -- What is committed, once no other end can be.
  unfoldable pub commit_end : WorkflowEnd → Flow h T Bool
  commit_end e = do
    now ← commit_time e
    committed ← gets (λ r. commit r.node.cancel_accepted (leb r.node.active_deadline now) e)
    on_node reserve_terminal
    let_others h T
    done ← catching (try_transition committed) (λ error. pure false)
    if done then pure true else fall_back

  unfoldable pub terminal : WorkflowEnd → Flow h T Bool
  terminal e = do
    started ← on_node start_terminal
    if started then has_not_failed else (do
      commit_hook e
      let_others h T
      reserved ← gets (λ r. r.node.terminal_reserved)
      if reserved then has_not_failed else commit_end e)
