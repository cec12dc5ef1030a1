-- ===== src/Orchestrator/SoundEvents.antt =====
-- What other threads do in task_orchestrator/src/task_orchestrator_node.cpp keeps the worker's invariant.
use embodied_agent_runtime.Common.{
  ℕ, Bool, true, false, not, ◌||◌, some, List, [], ◌∷◌, if◌then◌else◌, ◌≡◌, ◌∙◌, refl, arith,
}
use embodied_agent_runtime.Common.Exec.{Exec, pure, change, ◌>>=◌}
use embodied_agent_runtime.Common.Exec.Ensures.{
  Ensures, Keeps, Ensures-Keeps, bind-Ensures, pure-Ensures, pure-Keeps, if-Keeps, gets-Keeps,
  bind-Keeps, catching-Keeps,
}
use embodied_agent_runtime.Executor.Host.{WrappedResult}
use embodied_agent_runtime.Gateway.Service.Host.{WorkflowGoal}
use embodied_agent_runtime.Orchestrator.Host.{
  FlowEvent, child_responds, child_progresses, child_ends, ready_told, cancel_requested,
  stop_requested, goal_offered, FlowHost, FlowEffect, task_ended, accepts_cancel, TaskOrchestrator,
  FlowRun,
}
use embodied_agent_runtime.Orchestrator.Node.{
  handle_workflow_goal, handle_workflow_cancel, request_stop,
}
use embodied_agent_runtime.Orchestrator.Leaves.{
  note, on_node, try_cancel, dispatch_task_cancel, on_task_response, on_task_result,
  on_cancel_request, on_flow_event, run_flow_events, let_others,
}
use embodied_agent_runtime.Orchestrator.Trace.{gave, is_accept, holds, is_ended_well}
use embodied_agent_runtime.Orchestrator.Sound.{
  is_given, Fact, FlowSound, IsStable, is_given_same, look-Sound, dare-Sound, on_flow-Sound,
  mark-Sound, cancels_task-Sound, on_node-Sound,
}

-- An active node takes no goal.
busy_lem :
    (still : Bool) (now : ℕ) (goal : WorkflowGoal) (n : TaskOrchestrator)
    → n.active ≡ true
    → (handle_workflow_goal still now goal n).1 ≡ n
unfolding handle_workflow_goal
busy_lem still now goal n a = ground (arith, a)

given_lem :
    (w : WrappedResult) (log : List FlowEffect) → is_given (some w) (task_ended w ∷ log) ≡ true
unfolding is_given gave
given_lem w log = ground arith

cancel_lem :
    (n : TaskOrchestrator)
    → let (accepted, n') = handle_workflow_cancel n in
      (n'.active ≡ n.active)
      × (n'.terminal_reserved ≡ n.terminal_reserved)
      × ((b : Bool) → n.cancel_accepted || not b ≡ true → n'.cancel_accepted || not b ≡ true)
unfolding handle_workflow_cancel
cancel_lem n = (ground arith, ground arith, λ b e. ground (arith, e))

cancel_flags :
    (n : TaskOrchestrator)
    → (handle_workflow_cancel n).0 ≡ true
    → ((handle_workflow_cancel n).1.cancel_accepted ≡ true)
      × ((handle_workflow_cancel n).1.terminal_reserved ≡ false)
unfolding handle_workflow_cancel
cancel_flags n e = (ground (arith, e), ground (arith, e))

stop_lem :
    (n : TaskOrchestrator)
    → n.active ≡ true
    → ((request_stop n).active ≡ true)
      × ((request_stop n).cancel_accepted ≡ n.cancel_accepted)
      × ((request_stop n).terminal_reserved ≡ n.terminal_reserved)
unfolding request_stop
stop_lem n a = (a, refl, refl)

module _ (h : FlowHost) (T : Type 0) (live : Bool) (fact : Fact) (stable : IsStable fact) where
  open h use {World, events, fault_hook, cancel_goal}

  abbrev pub Kept : {A : Type 0} → Exec (FlowRun World T) A → Type 0
  Kept m = Keeps (FlowSound live fact) m

  try_cancel-Sound : Kept (try_cancel h T)
  unfolding try_cancel
  try_cancel-Sound = bind-Keeps _ _ (dare-Sound live fact stable _) (λ _.
      bind-Keeps _ _ (dare-Sound live fact stable cancel_goal)
        (λ _. bind-Keeps _ _ (cancels_task-Sound live fact stable) (λ _. pure-Keeps true)))

  pub dispatch-Sound : Kept (dispatch_task_cancel h T)
  unfolding dispatch_task_cancel
  dispatch-Sound =
      bind-Keeps _ _ (catching-Keeps _ _ try_cancel-Sound (λ e. pure-Keeps false)) (λ dispatched.
        bind-Keeps _ _ (on_flow-Sound live fact stable _ (λ s. (refl, refl)))
          (λ _. pure-Keeps dispatched))

  response-Sound : (handle : Bool) → Kept (on_task_response h T handle)
  unfolding on_task_response
  response-Sound handle = bind-Keeps _ _ (gets-Keeps _) (λ due.
      bind-Keeps _ _ (on_flow-Sound live fact stable _ (λ s. (refl, refl))) (λ _.
        if-Keeps due _ _ (bind-Keeps _ _ dispatch-Sound (λ _. pure-Keeps tt)) (pure-Keeps tt)))

  result-Sound : (w : WrappedResult) → Kept (on_task_result h T w)
  unfolding on_task_result note change ◌>>=◌ is_ended_well holds
  result-Sound w = record {
    at = λ r k. record {
      ended_well = k.ended_well;
      is_live = λ l.
          let p = k.is_live l in
          record {
            open_end = p.open_end;
            given = given_lem w r.log;
            sent = p.sent;
            accepted = p.accepted;
            active = p.active;
            known = stable r.node.terminal_reserved (task_ended w) r.log refl p.known;
          };
    };
  }

  -- With what is known once a cancel has been accepted.
  record Accepting (accepted : Bool) (r : FlowRun World T) : Type 0 where
    pub sound : FlowSound live fact r
    pub flags :
        accepted ≡ true → (r.node.cancel_accepted ≡ true) × (r.node.terminal_reserved ≡ false)

  cancel-Accepting :
      Ensures
        (FlowSound live fact)
        (on_node {W = World} {T = T} handle_workflow_cancel)
        Accepting
        (FlowSound live fact)
  unfolding on_node
  cancel-Accepting = record {
    at = λ r k.
        let (x, y, z) = cancel_lem r.node in
        record {
          sound = record {
            ended_well = k.ended_well;
            is_live = λ l.
                let p = k.is_live l in
                record {
                  open_end = p.open_end;
                  given = p.given;
                  sent = p.sent;
                  accepted = z (holds is_accept r.log) p.accepted;
                  active = x ∙ p.active;
                  known = rw y p.known;
                };
          };
          flags = λ e. cancel_flags r.node e;
        };
  }

  accepts-Sound :
      (accepted : Bool)
      → Ensures
          (Accepting accepted)
          (if accepted then note accepts_cancel else pure tt)
          (λ _. FlowSound live fact)
          (FlowSound live fact)
  unfolding note is_ended_well holds gave
  accepts-Sound false = pure-Ensures tt (λ r k. k.sound)
  accepts-Sound true = record {
    at = λ r k.
        let (x, y) = k.flags refl in
        record {
          ended_well = k.sound.ended_well;
          is_live = λ l.
              let p = k.sound.is_live l in
              record {
                open_end = p.open_end;
                given = is_given_same accepts_cancel r.flow.child_result r.log (λ q. refl) p.given;
                sent = p.sent;
                accepted = ground (arith, x);
                active = p.active;
                known =
                    stable r.node.terminal_reserved accepts_cancel r.log (ground (arith, y))
                      p.known;
              };
        };
  }

  cancel-Sound : Kept (on_cancel_request h T)
  unfolding on_cancel_request
  cancel-Sound = Ensures-Keeps (bind-Ensures _ _ cancel-Accepting accepts-Sound)

  event-Sound : (e : FlowEvent) → Kept (on_flow_event h T e)
  unfolding on_flow_event
  event-Sound (child_responds handle) = response-Sound handle
  event-Sound (child_progresses value) = mark-Sound live fact stable _ value
  event-Sound (child_ends w) = result-Sound w
  event-Sound (ready_told ready at) = on_node-Sound live fact stable _ (λ n a. (a, refl, refl))
  event-Sound cancel_requested = cancel-Sound
  event-Sound stop_requested = on_node-Sound live fact stable _ (stop_lem)
  event-Sound (goal_offered goal at) =
      bind-Keeps _ _
        (on_node-Sound live fact stable _ (λ n a. rw (busy_lem true at goal n a) (a, refl, refl)))
        (λ accepted. pure-Keeps tt)

  events-Sound : (es : List FlowEvent) → Kept (run_flow_events h T es)
  unfolding run_flow_events
  events-Sound [] = pure-Keeps tt
  events-Sound (e ∷ es) = bind-Keeps _ _ (event-Sound e) (λ _. events-Sound es)

  pub others-Sound : Kept (let_others h T)
  unfolding let_others
  others-Sound = bind-Keeps _ _ (look-Sound live fact stable events) events-Sound
