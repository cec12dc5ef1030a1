-- ===== src/Orchestrator/Goals.antt =====
-- The goals that task_orchestrator/src/task_orchestrator_node.cpp takes from runtime_gateway and passes on to
-- task_executor.
use embodied_agent_runtime.Common.{
  ◌∙◌, ap, Option, ◌∷◌, List, ◌⊎◌, inl, inr, Option-cases, Bool-cases, ltb, leb, ◌-◌, ◌^◌, ℕ, ◌+◌,
  ◌*◌, ◌/◌, ◌%◌, ◌<◌, ◌≤◌, true, false, ◌≡◌, refl, arith,
}
use embodied_agent_runtime.Common.Int.{pos, signed32}
use embodied_agent_runtime.Executor.Host.{TaskGoal}
use embodied_agent_runtime.Executor.Node.{duration_is_valid, to_steady_duration}
use embodied_agent_runtime.Gateway.Service.Host.{
  SubmitWorkflowRequest, is_valid_submit, is_allowlisted,
}
use embodied_agent_runtime.Gateway.Service.Submit.{workflow_goal}
use embodied_agent_runtime.Orchestrator.Host.{
  running_status, FlowHost, FlowEffect, FlowRun, sends_task, TaskOrchestrator,
}
use embodied_agent_runtime.Orchestrator.Node.{
  steady_max, is_bad_duration, is_workflow, deadline_after, handle_workflow_goal,
}
use embodied_agent_runtime.Orchestrator.Leaves.{
  look, dare, note, mark, with_duration, dispatch_task, task_on_start,
}
use embodied_agent_runtime.Common.Exec.{
  Result, returned, thrown, exhausted, resume, pure, throw, gets, change, ◌>>=◌,
}
use embodied_agent_runtime.Common.Text.{Text, text}

-- The duration of a valid request.
duration_lem :
    (n : ℕ)
    → 0 < n
    → is_bad_duration (record { sec = pos (n / 1000); nanosec = n % 1000 * 1000000 }) ≡ false
unfolding is_bad_duration
duration_lem n p = grind arith

deadline_lem :
    (n now : ℕ)
    → now + n * 1000000 ≤ steady_max
    → deadline_after (record { sec = pos (n / 1000); nanosec = n % 1000 * 1000000 }) now
      ≡ now + n * 1000000
unfolding deadline_after
deadline_lem n now p = grind arith

-- The goal of a request that the gateway finds valid and allowlisted is accepted by an orchestrator that
-- accepts goals and has no active workflow, which becomes active, with no cancel accepted and no
-- end reserved, and with the request's milliseconds from now as its deadline, if the steady clock lasts
-- that long.
pub workflow_goal-handle_workflow_goal :
    (request : SubmitWorkflowRequest) (n : TaskOrchestrator) (now : ℕ)
    → is_valid_submit request ≡ true
    → is_allowlisted request.workflow_id ≡ true
    → n.accepting ≡ true
    → n.active ≡ false
    → now + request.timeout_ms * 1000000 ≤ steady_max
    → let (accepted, n') = handle_workflow_goal true now (workflow_goal request) n in
      (accepted ≡ true)
      × (n'.active ≡ true)
      × (n'.cancel_accepted ≡ false)
      × (n'.terminal_reserved ≡ false)
      × (n'.active_deadline ≡ now + request.timeout_ms * 1000000)
unfolding handle_workflow_goal is_valid_submit is_allowlisted is_workflow
workflow_goal-handle_workflow_goal request n now valid listed accepting idle lasts =
    let some_time : 0 < request.timeout_ms = ground (arith, valid) in
    rw (accepting, duration_lem request.timeout_ms some_time, listed, idle)
      (refl, refl, refl, refl, deadline_lem request.timeout_ms now lasts)

duration-with_duration :
    (h : FlowHost) (T : Type 0) (remaining : ℕ) (goal : TaskGoal)
    → 0 < remaining
    → remaining / 1000000000 < 2 ^ 31
    → (duration_is_valid (with_duration h T remaining goal).allowed_duration ≡ true)
      × (to_steady_duration (with_duration h T remaining goal).allowed_duration ≡ remaining)
unfolding with_duration duration_is_valid to_steady_duration signed32
duration-with_duration h T remaining goal some_time fits =
    let whole : remaining / 1000000000 % 2 ^ 32 ≡ remaining / 1000000000 = omega arith in
    let rest : remaining % 1000000000 % 2 ^ 32 ≡ remaining % 1000000000 = omega arith in
    let small : ltb (remaining / 1000000000) (2 ^ 31) ≡ true = ground arith in
    rw (whole, rest, small) (grind arith, omega arith)

log-dare : {W T : Type 0} (f : W → Option Text × W) (r : FlowRun W T) → (dare f r).1.log ≡ r.log
unfolding dare look pure throw ◌>>=◌
log-dare f r = elim (Option-cases (f r.world).0) [
  | inl silent ↦ rw silent refl
  | inr (e, raised) ↦ rw raised refl
]

resumed :
    {S A B : Type 0} (b : B) (x : Result A × S)
    → (resume x.0 (λ (a : A). pure {S = S} b) x.1).1 ≡ x.1
unfolding pure
resumed b (returned a, s) = refl
resumed b (thrown t, s) = refl
resumed b (exhausted, s) = refl

-- What the start of the task leaves in the log: nothing, where no time or too much of it remains, or a
-- goal whose duration the executor reads as the time that remains.
abbrev pub Started : ℕ → ℕ → List FlowEffect → List FlowEffect → Type 0
Started now deadline old log =
    (((deadline ≤ now) ⊎ (2 ^ 31 * 1000000000 ≤ deadline - now)) × (log ≡ old))
    ⊎ ((goal : TaskGoal) × (log ≡ sends_task goal ∷ old)
        × (duration_is_valid goal.allowed_duration ≡ true)
        × (now + to_steady_duration goal.allowed_duration ≡ deadline))

module _ (h : FlowHost) (T : Type 0) where
  log-dispatch_task :
      (remaining : ℕ) (r : FlowRun h.World T)
      → (dispatch_task h T remaining r).1.log
        ≡ sends_task (with_duration h T remaining r.flow.child_goal) ∷ r.log
  unfolding dispatch_task note gets change pure ◌>>=◌
  log-dispatch_task remaining r =
      let sending = with_duration h T remaining r.flow.child_goal in
      let r' = record r {
        flow = record r.flow { child_goal = sending; child_goal_dispatched = true };
        log = sends_task sending ∷ r.log;
      } in
      ap (λ s. s.log) (resumed running_status (dare {T = T} (h.send_goal sending) r'))
      ∙ log-dare (h.send_goal sending) r'

  -- At the start of the task, with the clock read as `now`: nothing is sent if the deadline has been
  -- reached or lies 2 ^ 31 seconds ahead or more, and else one goal, with a duration that the
  -- executor's test accepts and that the executor reads as exactly the time from now to the deadline.
  pub task_on_start-to_steady_duration :
      (r : FlowRun h.World T)
      → Started (h.clock r.world).0 r.flow.deadline r.log (task_on_start h T r).1.log
  unfolding task_on_start mark look gets change pure ◌>>=◌
  task_on_start-to_steady_duration r =
      let now = (h.clock r.world).0 in
      let left = r.flow.deadline - now in
      elim (Bool-cases (leb r.flow.deadline now)) [
        | inl late ↦ inl (inl (ground arith), rw late refl)
        | inr early ↦ elim (Bool-cases (ltb (2 ^ 31 - 1) (left / 1000000000))) [
          | inl far ↦ inl (inr (ground arith), rw (early, far) refl)
          | inr near ↦
              let (valid, read) =
                duration-with_duration h T left r.flow.child_goal (ground arith) (ground arith) in
              inr (
                with_duration h T left r.flow.child_goal,
                rw (early, near)
                    (log-dispatch_task left (record r {
                      world = (h.clock r.world).1;
                      flow = record r.flow { active_node = text "ExecuteTask"; progress = 25 };
                    })),
                valid,
                ground (arith, early, read),
              )
        ]
      ]
