-- ===== src/Orchestrator/WellEnded.antt =====
-- A workflow of task_orchestrator/src/task_orchestrator_node.cpp ends at most once, with a reason.
use embodied_agent_runtime.Common.{ℕ, zero, suc, true, false, [], ◌≡◌, refl, arith}
use embodied_agent_runtime.Common.Exec.{pure, exhaust, ◌>>=◌}
use embodied_agent_runtime.Common.Exec.Ensures.{
  Ensures, Keeps, Keeps-Ensures, bind-Ensures, gets-Ensures, pure-Ensures, if-Ensures,
  change-Ensures, catching-Ensures, weaken-Ensures, pure-Keeps, if-Keeps, gets-Keeps, bind-Keeps,
  Ensures_after,
}
use embodied_agent_runtime.Common.Text.{Text}
use embodied_agent_runtime.Gateway.Service.Host.{WorkflowGoal}
use embodied_agent_runtime.Orchestrator.Host.{FlowHost, FlowRun, TreeEngine, IsTreeEngine}
use embodied_agent_runtime.Orchestrator.Node.{finish_worker, start_flow, fresh_retry}
use embodied_agent_runtime.Orchestrator.Leaves.{look, on_node, let_others, leaves}
use embodied_agent_runtime.Orchestrator.Terminal.{
  safe_end, end_of_workflow, error_shutdown, error_internal, error_deadline, terminal,
}
use embodied_agent_runtime.Orchestrator.Worker.{
  is_over, Worker, finish_workflow, halt_with, publish_flow_feedback, is_late, tick_round,
  work_round, goes_on, work_loop, execute_workflow, work_threw, run_worker,
}
use embodied_agent_runtime.Orchestrator.Trace.{holds, justifies, is_ended_well}
use embodied_agent_runtime.Orchestrator.Sound.{
  is_given, Fact, anything, anything-IsStable, look-Sound, dare-Sound, world-Sound,
}
use embodied_agent_runtime.Orchestrator.SoundEvents.{others-Sound}
use embodied_agent_runtime.Orchestrator.SoundLeaves.{
  Open, runtime_ready-Safe, retry_start-Safe, retry_running-Safe, task_start-Safe,
  task_running-Safe, task_halted-Safe,
}
use embodied_agent_runtime.Orchestrator.Justified.{justified, end_of_workflow-justified}
use embodied_agent_runtime.Orchestrator.SoundTerminal.{Known, Done, known-Done, terminal-Done}

module _ (h : FlowHost) (b : TreeEngine h.World) (lawful : IsTreeEngine b) (halt_fuel : ℕ) where
  open h use {World, context_ok, canceling, clock}

  abbrev Opened : FlowRun World b.Tree → Type 0
  Opened = Open h b.Tree

  -- An action that keeps the invariant until it ends the workflow.
  abbrev Ends : {A : Type 0} → Worker h b halt_fuel A → Type 0
  Ends m = Ensures Opened m (λ _. Done h b.Tree) Opened

  -- A step before the end.
  steps :
      {A B : Type 0} (m : Worker h b halt_fuel A) (f : A → Worker h b halt_fuel B)
      → Keeps Opened m
      → ((a : A) → Ends (f a))
      → Ends (m >>= f)
  steps m f km kf = bind-Ensures m f (Keeps-Ensures km) kf

  others : Keeps Opened (let_others h b.Tree)
  others = others-Sound h b.Tree true anything anything-IsStable

  reads : {A : Type 0} (f : World → A × World) → Keeps Opened (look f)
  reads f = look-Sound true anything anything-IsStable f

  regrow : (r : FlowRun World b.Tree) (t : b.Tree) → Opened r → Opened (record r { tree = t })
  regrow r t k = record { ended_well = k.ended_well; is_live = k.is_live }

  -- The invariant with a fact that holds.
  refine :
      (fact : Fact) (r : FlowRun World b.Tree)
      → Opened r
      → fact r.node.terminal_reserved r.log ≡ true
      → Known h b.Tree fact r
  refine fact r k holds_now = record {
    ended_well = k.ended_well;
    is_live = λ l.
        let p = k.is_live l in
        record {
          open_end = p.open_end;
          given = p.given;
          sent = p.sent;
          accepted = p.accepted;
          active = p.active;
          known = holds_now;
        };
  }

  -- The end with an error of the node's own.
  safe-Ends :
      (error_code : ℕ) (message : Text)
      → Ends (do ended ← terminal h b.Tree (safe_end error_code message); pure tt)
  unfolding justifies
  safe-Ends error_code message =
      bind-Ensures _ _
        (weaken-Ensures _ (λ r k. refine (justified (safe_end error_code message)) r k refl)
          (λ a r q. q) (λ r q. q) (terminal-Done h b.Tree (safe_end error_code message)))
        (λ ended. pure-Ensures tt (λ r k. k))

  finish-Ends : Ends (finish_workflow h b halt_fuel)
  unfolding finish_workflow
  finish-Ends = steps _ _ (reads canceling) (λ parent_canceling. steps _ _ others (λ _.
      bind-Ensures _ _
        (gets-Ensures _ {Q = λ f. Known h b.Tree (justified (end_of_workflow parent_canceling f))}
          (λ r k.
            let p = k.is_live refl in
            refine (justified (end_of_workflow parent_canceling r.flow)) r k
              (end_of_workflow-justified parent_canceling r.flow r.log p.given p.sent)))
        (λ f.
          bind-Ensures _ _ (terminal-Done h b.Tree (end_of_workflow parent_canceling f))
            (λ ended. pure-Ensures tt (λ r k. k)))))

  halt-Opened : Keeps Opened (b.halt_tree (leaves h b.Tree halt_fuel))
  halt-Opened =
      lawful.halt_keeps Opened regrow (leaves h b.Tree halt_fuel)
        (task_halted-Safe h b.Tree halt_fuel)

  tick-Opened : Keeps Opened (b.tick_once (leaves h b.Tree halt_fuel))
  tick-Opened =
      lawful.tick_keeps Opened regrow (leaves h b.Tree halt_fuel) (runtime_ready-Safe h b.Tree)
        (retry_start-Safe h b.Tree) (retry_running-Safe h b.Tree) (task_start-Safe h b.Tree)
        (task_running-Safe h b.Tree) (task_halted-Safe h b.Tree halt_fuel)

  halt_with-Ends :
      (error_code : ℕ) (message : Text) → Ends (halt_with h b halt_fuel error_code message)
  unfolding halt_with
  halt_with-Ends error_code message = steps _ _ halt-Opened (λ _. safe-Ends error_code message)

  feedback-Opened : Keeps Opened (publish_flow_feedback h b halt_fuel)
  unfolding publish_flow_feedback
  feedback-Opened =
      bind-Keeps _ _ (gets-Keeps _) (λ flow. dare-Sound true anything anything-IsStable _)

  late-Opened : Keeps Opened (is_late h b halt_fuel)
  unfolding is_late
  late-Opened = bind-Keeps _ _ (reads clock) (λ now. gets-Keeps _)

  tick_round-Ends :
      (again : Worker h b halt_fuel (Unit {0})) → Ends again → Ends (tick_round h b halt_fuel again)
  unfolding tick_round
  tick_round-Ends again k = steps _ _ tick-Opened (λ status. steps _ _ feedback-Opened (λ _.
      steps _ _ late-Opened (λ late. if-Ensures late _ _ (halt_with-Ends error_deadline _) (
        if-Ensures (is_over status) _ _ finish-Ends (
          steps _ _ (world-Sound true anything anything-IsStable _ (λ r. (refl, refl, refl)))
            (λ _. k))))))

  work_round-Ends :
      (again : Worker h b halt_fuel (Unit {0})) → Ends again → Ends (work_round h b halt_fuel again)
  unfolding work_round
  work_round-Ends again k = steps _ _ (reads canceling) (λ parent_canceling.
      if-Ensures parent_canceling _ _ (steps _ _ halt-Opened (λ _. finish-Ends)) (
        steps _ _ late-Opened (λ late.
          if-Ensures late _ _ (halt_with-Ends error_deadline _) (tick_round-Ends again k))))

  goes_on-Opened : Keeps Opened (goes_on h b halt_fuel)
  unfolding goes_on
  goes_on-Opened = bind-Keeps _ _ others (λ _.
      bind-Keeps _ _ (gets-Keeps _)
        (λ running. if-Keeps running _ _ (reads context_ok) (pure-Keeps false)))

  work_loop-Ends : (fuel : ℕ) → Ends (work_loop h b halt_fuel fuel)
  unfolding work_loop exhaust
  work_loop-Ends zero = record { at = λ r k. k }
  work_loop-Ends (suc fuel) = steps _ _ goes_on-Opened (λ going.
      if-Ensures going _ _ (work_round-Ends _ (work_loop-Ends fuel))
        (halt_with-Ends error_shutdown _))

  -- An active node, and no effect yet.
  abbrev IsFresh : FlowRun World b.Tree → Type 0
  IsFresh r = (r.log ≡ []) × (r.node.active ≡ true)

  start-Opened :
      (goal : WorkflowGoal) (r : FlowRun World b.Tree)
      → IsFresh r
      → Opened (record r { flow = start_flow goal r.node.active_deadline; retry = fresh_retry })
  unfolding start_flow is_ended_well holds is_given
  start-Opened goal r (new, active) = record {
    ended_well = rw new refl;
    is_live = λ l. record {
      open_end = rw new refl;
      given = refl;
      sent = rw new refl;
      accepted = ground (arith, new);
      active = active;
      known = refl;
    };
  }

  execute-Ends :
      (fuel : ℕ) (goal : WorkflowGoal)
      → Ensures IsFresh (execute_workflow h b halt_fuel fuel goal) (λ _. Done h b.Tree) Opened
  unfolding execute_workflow
  execute-Ends fuel goal =
      bind-Ensures _ _ (change-Ensures _ {Q = λ _. Opened} (start-Opened goal)) (λ _.
        steps _ _ (lawful.create_keeps Opened regrow goal.workflow_id) (λ _. work_loop-Ends fuel))

  threw-Ends : Ends (work_threw h b halt_fuel)
  unfolding work_threw
  threw-Ends = safe-Ends error_internal _

  finish_worker-Done :
      (generation : ℕ)
      → Keeps
          (Done h b.Tree)
          (on_node {W = World} {T = b.Tree} (λ n. (tt, finish_worker generation n)))
  unfolding on_node
  finish_worker-Done generation = record {
    at = λ r k. record { ended_well = k.ended_well; is_live = λ l. absurd cc };
  }

  run_worker-Done :
      (fuel generation : ℕ) (goal : WorkflowGoal)
      → Ensures IsFresh
          (run_worker h b halt_fuel fuel goal generation)
          (λ _. Done h b.Tree)
          (Done h b.Tree)
  unfolding run_worker
  run_worker-Done fuel generation goal =
      bind-Ensures _ _
        (catching-Ensures _ _ (known-Done h b.Tree anything) (execute-Ends fuel goal)
          (λ e. weaken-Ensures _ (λ r k. k) (λ a r q. q) (known-Done h b.Tree anything) threw-Ends))
        (λ _. Keeps-Ensures (
          bind-Keeps _ _ (others-Sound h b.Tree false anything anything-IsStable)
            (λ _. finish_worker-Done generation)))

  -- Whatever the host answers and wherever it throws, and over any behaviour trees that reach the workflow
  -- through its leaves alone: a worker that starts for an active node with any fuel leaves effects in which the
  -- workflow ends at most once; a success comes after a completed result of the task and after no accepted
  -- cancel; an end as canceled comes after a canceled result of the task, or with no task sent; an
  -- abort does not carry the outcome CANCELED.
  pub run_worker-is_ended_well :
      (fuel generation : ℕ) (goal : WorkflowGoal) (s : FlowRun World b.Tree)
      → s.log ≡ []
      → s.node.active ≡ true
      → is_ended_well (run_worker h b halt_fuel fuel goal generation s).1.log ≡ true
  run_worker-is_ended_well fuel generation goal s new active =
      (Ensures_after _ _ s (run_worker-Done fuel generation goal) (new, active)).ended_well
