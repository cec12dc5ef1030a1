-- ===== src/Orchestrator/SoundLeaves.antt =====
-- The leaves of the workflows in task_orchestrator/src/task_orchestrator_node.cpp keep the worker's invariant.
use embodied_agent_runtime.Common.{
  ℕ, zero, suc, Bool, true, false, ◌||◌, ◌-◌, ◌/◌, leb, ltb, ◌≡◌, refl, arith,
}
use embodied_agent_runtime.Common.Exec.{Exec, change}
use embodied_agent_runtime.Common.Exec.Ensures.{
  Ensures, Keeps, Ensures-Keeps, Keeps-Ensures, bind-Ensures, gets-Ensures, pure-Keeps, if-Keeps,
  gets-Keeps, bind-Keeps, exhaust-Keeps,
}
use embodied_agent_runtime.Executor.Host.{TaskGoal}
use embodied_agent_runtime.Orchestrator.Host.{FlowHost, sends_task, WorkflowState, FlowRun}
use embodied_agent_runtime.Orchestrator.Leaves.{
  look, let_others, note, on_flow, is_usable, runtime_ready_tick, check_later, retry_on_start,
  retry_check, retry_on_running, int32_max, dispatch_task, task_on_start, task_on_running,
  mark_timeout, cancel_once, give_up, await_cancel, cancel_task_loop, task_on_halted,
}
use embodied_agent_runtime.Orchestrator.Trace.{gave, holds, is_ended_well}
use embodied_agent_runtime.Orchestrator.Sound.{
  anything, anything-IsStable, FlowSound, is_given_same, look-Sound, dare-Sound, world-Sound,
  on_flow-Sound, on_retry-Sound, mark-Sound,
}
use embodied_agent_runtime.Orchestrator.SoundEvents.{others-Sound, dispatch-Sound}

module _ (h : FlowHost) (T : Type 0) where
  open h use {World, clock, wait_until, send_goal}

  abbrev pub Open : FlowRun World T → Type 0
  Open = FlowSound true anything

  abbrev Safe : {A : Type 0} → Exec (FlowRun World T) A → Type 0
  Safe m = Keeps Open m

  others : Safe (let_others h T)
  others = others-Sound h T true anything anything-IsStable

  reads : {A : Type 0} (f : World → A × World) → Safe (look f)
  reads f = look-Sound true anything anything-IsStable f

  alters :
      (f : WorkflowState → WorkflowState)
      → ((s : WorkflowState)
          → ((f s).child_result ≡ s.child_result)
            × ((f s).child_goal_dispatched ≡ s.child_goal_dispatched))
      → Safe (on_flow f)
  alters f same = on_flow-Sound true anything anything-IsStable f same

  passes :
      (f : FlowRun World T → FlowRun World T)
      → ((r : FlowRun World T)
          → ((f r).log ≡ r.log) × ((f r).node ≡ r.node) × ((f r).flow ≡ r.flow))
      → Safe (change f)
  passes f same = world-Sound true anything anything-IsStable f same

  usable-Safe : Safe (is_usable h T)
  unfolding is_usable
  usable-Safe = bind-Keeps _ _ others (λ _. bind-Keeps _ _ (reads clock) (λ now. gets-Keeps _))

  pub runtime_ready-Safe : Safe (runtime_ready_tick h T)
  unfolding runtime_ready_tick
  runtime_ready-Safe = bind-Keeps _ _ usable-Safe (λ ready. pure-Keeps _)

  check_later-Safe : Safe (check_later h T)
  unfolding check_later
  check_later-Safe =
      bind-Keeps _ _ (reads clock) (λ now.
        bind-Keeps _ _ (on_retry-Sound true anything anything-IsStable _) (λ _. pure-Keeps _))

  pub retry_start-Safe : (attempts delay_ms : ℕ) → Safe (retry_on_start h T attempts delay_ms)
  unfolding retry_on_start
  retry_start-Safe attempts delay_ms =
      bind-Keeps _ _ (on_retry-Sound true anything anything-IsStable _) (λ _.
        bind-Keeps _ _ usable-Safe (λ ready.
          if-Keeps ready _ _ (pure-Keeps _)
            (if-Keeps (leb attempts 1) _ _ (pure-Keeps _) check_later-Safe)))

  retry_check-Safe : Safe (retry_check h T)
  unfolding retry_check
  retry_check-Safe = bind-Keeps _ _ (on_retry-Sound true anything anything-IsStable _) (λ _.
      bind-Keeps _ _ usable-Safe (λ ready. bind-Keeps _ _ (gets-Keeps _) (λ spent.
        if-Keeps ready _ _ (pure-Keeps _) (if-Keeps spent _ _ (pure-Keeps _) check_later-Safe))))

  pub retry_running-Safe : Safe (retry_on_running h T)
  unfolding retry_on_running
  retry_running-Safe = bind-Keeps _ _ (reads clock) (λ now.
      bind-Keeps _ _ (gets-Keeps _) (λ early. if-Keeps early _ _ (pure-Keeps _) retry_check-Safe))

  -- The dispatch is marked.
  record Marked (r : FlowRun World T) : Type 0 where
    pub sound : Open r
    pub marked : r.flow.child_goal_dispatched ≡ true

  mark-Marked :
      Ensures Open (on_flow (λ s. record s { child_goal_dispatched = true })) (λ _. Marked) Open
  unfolding change
  mark-Marked = record {
    at = λ r k. record {
      sound = record {
        ended_well = k.ended_well;
        is_live = λ l.
            let p = k.is_live l in
            record {
              open_end = p.open_end;
              given = p.given;
              sent = refl;
              accepted = p.accepted;
              active = p.active;
              known = refl;
            };
      };
      marked = refl;
    };
  }

  sends-Marked : (goal : TaskGoal) → Ensures Marked (note (sends_task goal)) (λ _. Open) Open
  unfolding note is_ended_well holds gave
  sends-Marked goal = record {
    at = λ r k. record {
      ended_well = k.sound.ended_well;
      is_live = λ l.
          let p = k.sound.is_live l in
          record {
            open_end = p.open_end;
            given = is_given_same (sends_task goal) r.flow.child_result r.log (λ q. refl) p.given;
            sent = ground (arith, k.marked);
            accepted = p.accepted;
            active = p.active;
            known = refl;
          };
    };
  }

  dispatch_task-Safe : (remaining : ℕ) → Safe (dispatch_task h T remaining)
  unfolding dispatch_task
  dispatch_task-Safe remaining = bind-Keeps _ _ (alters _ (λ s. (refl, refl))) (λ _. Ensures-Keeps (
      bind-Ensures _ _ mark-Marked (λ _.
        bind-Ensures _ _ (gets-Ensures _ {Q = λ goal. Marked} (λ r k. k)) (λ goal.
          bind-Ensures _ _ (sends-Marked goal) (λ _.
            Keeps-Ensures (
              bind-Keeps _ _ (dare-Sound true anything anything-IsStable _)
                (λ _. pure-Keeps _)))))))

  pub task_start-Safe : Safe (task_on_start h T)
  unfolding task_on_start
  task_start-Safe = bind-Keeps _ _ (mark-Sound true anything anything-IsStable _ 25) (λ _.
      bind-Keeps _ _ (reads clock) (λ now. bind-Keeps _ _ (gets-Keeps _) (λ deadline.
        if-Keeps (leb deadline now) _ _ (pure-Keeps _) (
          if-Keeps (ltb (int32_max h T) ((deadline - now) / 1000000000)) _ _ (pure-Keeps _)
            (dispatch_task-Safe (deadline - now))))))

  pub task_running-Safe : Safe (task_on_running h T)
  unfolding task_on_running
  task_running-Safe = bind-Keeps _ _ others (λ _. gets-Keeps _)

  mark_timeout-Safe :
      (deadline : ℕ) (test : WorkflowState → Bool) → Safe (mark_timeout h T deadline test)
  unfolding mark_timeout
  mark_timeout-Safe deadline test = bind-Keeps _ _ (gets-Keeps _) (λ settled.
      if-Keeps settled _ _ (pure-Keeps tt) (
        bind-Keeps _ _ (passes _ (λ r. (refl, refl, refl)))
          (λ _. bind-Keeps _ _ others (λ _. alters _ (λ s. (refl, refl))))))

  cancel_once-Safe : Safe (cancel_once h T)
  unfolding cancel_once
  cancel_once-Safe = bind-Keeps _ _ (alters _ (λ s. (refl, refl))) (λ _. bind-Keeps _ _ others (λ _.
      bind-Keeps _ _ (dispatch-Sound h T true anything anything-IsStable) (λ dispatched.
        bind-Keeps _ _ others (λ _. bind-Keeps _ _ (gets-Keeps _) (λ ended.
          if-Keeps (dispatched || ended) _ _ (pure-Keeps tt)
            (bind-Keeps _ _ (passes _ (λ r. (refl, refl, refl))) (λ _. others)))))))

  give_up-Safe : Safe (give_up h T)
  give_up-Safe = bind-Keeps _ _ (alters _ (λ s. (refl, refl))) (λ _. pure-Keeps false)

  await_cancel-Safe : (deadline : ℕ) → Safe (await_cancel h T deadline)
  unfolding await_cancel
  await_cancel-Safe deadline =
      bind-Keeps _ _ (passes _ (λ r. (refl, refl, refl)))
        (λ _. bind-Keeps _ _ others (λ _. gets-Keeps _))

  cancel_loop-Safe : (fuel deadline : ℕ) → Safe (cancel_task_loop h T fuel deadline)
  unfolding cancel_task_loop
  cancel_loop-Safe zero deadline = exhaust-Keeps
  cancel_loop-Safe (suc fuel) deadline = bind-Keeps _ _ (gets-Keeps _) (λ finished.
      bind-Keeps _ _ (gets-Keeps _) (λ in_flight. if-Keeps finished _ _ (pure-Keeps true) (
        if-Keeps in_flight _ _
          (bind-Keeps _ _ (await_cancel-Safe deadline)
            (λ over. if-Keeps over _ _ (cancel_loop-Safe fuel deadline) give_up-Safe))
          (bind-Keeps _ _ (reads clock) (λ now.
            if-Keeps (leb deadline now) _ _ give_up-Safe
              (bind-Keeps _ _ cancel_once-Safe (λ _. cancel_loop-Safe fuel deadline)))))))

  pub task_halted-Safe : (fuel : ℕ) → Safe (task_on_halted h T fuel)
  unfolding task_on_halted
  task_halted-Safe fuel = bind-Keeps _ _ (reads clock) (λ now.
      bind-Keeps _ _ (gets-Keeps _) (λ budget_ms. bind-Keeps _ _ others (λ _.
        bind-Keeps _ _ (alters _ (λ s. (refl, refl))) (λ _.
          bind-Keeps _ _ (mark_timeout-Safe _ _) (λ _. bind-Keeps _ _ (gets-Keeps _) (λ skips.
            if-Keeps skips _ _ (pure-Keeps tt) (
              bind-Keeps _ _ (cancel_loop-Safe fuel _)
                (λ goes_on. if-Keeps goes_on _ _ (mark_timeout-Safe _ _) (pure-Keeps tt)))))))))
