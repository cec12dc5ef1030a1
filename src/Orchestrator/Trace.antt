-- ===== src/Orchestrator/Trace.antt =====
-- What the effects of a worker of task_orchestrator/src/task_orchestrator_node.cpp say of each other. A log lists
-- the latest effect first.
use embodied_agent_runtime.Common.{Bool, true, false, not, ◌&&◌, ◌||◌, List, [], ◌∷◌, ◌==◌}
use embodied_agent_runtime.Bridge.Host.{Ending, succeeds, aborts, cancels, completed, canceled}
use embodied_agent_runtime.Executor.Host.{ActionResult, WrappedResult}
use embodied_agent_runtime.Orchestrator.Host.{
  FlowEffect, sends_task, task_ended, accepts_cancel, cancels_task, ends_workflow,
}
use embodied_agent_runtime.Orchestrator.Leaves.{has_outcome, is_completed}

-- The task ended as canceled.
abbrev pub is_task_canceled : WrappedResult → Bool
is_task_canceled w = has_outcome canceled w.result

-- Whether the task gave such a result.
unfoldable pub gave : (WrappedResult → Bool) → List FlowEffect → Bool
gave p [] = false
gave p (task_ended w ∷ log) = p w || gave p log
gave p (sends_task g ∷ log) = gave p log
gave p (accepts_cancel ∷ log) = gave p log
gave p (cancels_task ∷ log) = gave p log
gave p (ends_workflow e r ∷ log) = gave p log

abbrev pub is_task_sent : FlowEffect → Bool
is_task_sent (sends_task g) = true
is_task_sent _ = false

abbrev pub is_accept : FlowEffect → Bool
is_accept accepts_cancel = true
is_accept _ = false

abbrev pub is_end : FlowEffect → Bool
is_end (ends_workflow e r) = true
is_end _ = false

-- Whether the log holds such an effect.
unfoldable pub holds : (FlowEffect → Bool) → List FlowEffect → Bool
holds p [] = false
holds p (e ∷ log) = p e || holds p log

-- What the effects before it must hold for a workflow to end so, but for cancels that were accepted: a success is
-- one that the task gave; a cancellation was given by the task, or no task had been sent; nothing else
-- ends as canceled.
unfoldable pub justifies : Ending → ActionResult → List FlowEffect → Bool
justifies succeeds r log = r.outcome == completed && gave is_completed log
justifies cancels r log =
    r.outcome == canceled && (gave is_task_canceled log || not (holds is_task_sent log))
justifies aborts r log = not (r.outcome == canceled)

-- No success after a cancel was accepted.
unfoldable pub is_uncontested : Ending → List FlowEffect → Bool
is_uncontested succeeds log = not (holds is_accept log)
is_uncontested aborts log = true
is_uncontested cancels log = true

-- At most one end, which is justified and not contested.
unfoldable pub is_ended_well : List FlowEffect → Bool
is_ended_well [] = true
is_ended_well (ends_workflow e r ∷ log) =
    justifies e r log && (is_uncontested e log && (not (holds is_end log) && is_ended_well log))
is_ended_well (sends_task g ∷ log) = is_ended_well log
is_ended_well (task_ended w ∷ log) = is_ended_well log
is_ended_well (accepts_cancel ∷ log) = is_ended_well log
is_ended_well (cancels_task ∷ log) = is_ended_well log
