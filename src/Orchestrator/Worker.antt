-- ===== src/Orchestrator/Worker.antt =====
-- The worker of a workflow in task_orchestrator/src/task_orchestrator_node.cpp, over any behaviour trees.
use embodied_agent_runtime.Common.{ℕ, zero, suc, Bool, true, false, leb, if◌then◌else◌}
use embodied_agent_runtime.Common.Exec.{pure, exhaust, gets, change, ◌>>=◌, ◌>>◌, catching}
use embodied_agent_runtime.Common.Text.{Text, text}
use embodied_agent_runtime.Gateway.Service.Host.{WorkflowGoal}
use embodied_agent_runtime.Orchestrator.Host.{
  NodeStatus, success, failure, running_status, FlowHost, TreeEngine,
}
use embodied_agent_runtime.Orchestrator.Node.{finish_worker, start_flow, fresh_retry}
use embodied_agent_runtime.Orchestrator.Leaves.{look, dare, on_node, Flow, let_others, leaves}
use embodied_agent_runtime.Orchestrator.Terminal.{
  error_shutdown, error_internal, error_deadline, safe_end, end_of_workflow, terminal,
}

abbrev pub is_over : NodeStatus → Bool
is_over success = true
is_over failure = true
is_over running_status = false

module _ (h : FlowHost) (b : TreeEngine h.World) (halt_fuel : ℕ) where
  open h use {World, context_ok, canceling, clock, pause, send_feedback}

  abbrev pub Worker : Type 0 → Type 0
  Worker A = Flow h b.Tree A

  unfoldable pub finish_workflow : Worker (Unit {0})
  finish_workflow = do
    parent_canceling ← look canceling
    let_others h b.Tree
    flow ← gets (λ r. r.flow)
    ended ← terminal h b.Tree (end_of_workflow parent_canceling flow)
    pure tt

  -- `haltTree` and the end with the error.
  unfoldable pub halt_with : ℕ → Text → Worker (Unit {0})
  halt_with error_code message = do
    b.halt_tree (leaves h b.Tree halt_fuel)
    ended ← terminal h b.Tree (safe_end error_code message)
    pure tt

  abbrev pub expire : Worker (Unit {0})
  expire = halt_with error_deadline (text "workflow allowed duration exceeded")

  unfoldable pub publish_flow_feedback : Worker (Unit {0})
  publish_flow_feedback = do
    flow ← gets (λ r. r.flow)
    dare (send_feedback flow.active_node flow.progress)

  unfoldable pub is_late : Worker Bool
  is_late = do now ← look clock; gets (λ r. leb r.flow.deadline now)

  -- A tick and what follows it; `again` is the rest of the loop.
  unfoldable pub tick_round : Worker (Unit {0}) → Worker (Unit {0})
  tick_round again = do
    status ← b.tick_once (leaves h b.Tree halt_fuel)
    publish_flow_feedback
    late ← is_late
    if late
        then expire
        else if is_over status
        then finish_workflow
        else (do change (λ r. record r { world = pause 20 r.world }); again)

  -- The body of the loop.
  unfoldable pub work_round : Worker (Unit {0}) → Worker (Unit {0})
  work_round again = do
    parent_canceling ← look canceling
    if parent_canceling
        then (do b.halt_tree (leaves h b.Tree halt_fuel); finish_workflow)
        else (do late ← is_late; if late then expire else tick_round again)

  -- `running_ && rclcpp::ok()`.
  unfoldable pub goes_on : Worker Bool
  goes_on = do
    let_others h b.Tree
    running ← gets (λ r. r.node.running)
    if running then look context_ok else pure false

  unfoldable pub work_loop : ℕ → Worker (Unit {0})
  work_loop zero = exhaust
  work_loop (suc fuel) = do
    let again = work_loop fuel
    going ← goes_on
    if going then work_round again else halt_with error_shutdown (text "orchestrator shutdown")

  unfoldable pub execute_workflow : ℕ → WorkflowGoal → Worker (Unit {0})
  execute_workflow fuel goal = do
    change (λ r. record r { flow = start_flow goal r.node.active_deadline; retry = fresh_retry })
    b.create_tree goal.workflow_id
    work_loop fuel

  -- After an exception.
  unfoldable pub work_threw : Worker (Unit {0})
  work_threw = do
    ended ← terminal h b.Tree (safe_end error_internal (text "workflow worker internal error"))
    pure tt

  unfoldable pub run_worker : ℕ → WorkflowGoal → ℕ → Worker (Unit {0})
  run_worker fuel goal generation = do
    catching (execute_workflow fuel goal) (λ e. work_threw)
    let_others h b.Tree
    on_node (λ n. (tt, finish_worker generation n))
