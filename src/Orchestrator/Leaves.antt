-- ===== src/Orchestrator/Leaves.antt =====
-- The leaves of the workflows in task_orchestrator/src/task_orchestrator_node.cpp, and the callbacks of the task
-- action's client, which other threads run between the steps.
use embodied_agent_runtime.Common.{
  ℕ, zero, suc, ◌+◌, ◌-◌, ◌*◌, ◌/◌, ◌%◌, ◌^◌, Bool, true, false, not, ◌||◌, ◌&&◌, Option, none,
  some, List, [], ◌∷◌, is_some, leb, ltb, ◌==◌, if◌then◌else◌,
}
use embodied_agent_runtime.Common.Int.{signed32}
use embodied_agent_runtime.Common.Exec.{
  returned, Exec, pure, throw, exhaust, gets, change, ◌>>=◌, ◌>>◌, catching,
}
use embodied_agent_runtime.Common.Text.{Text, text}
use embodied_agent_runtime.Bridge.Host.{completed}
use embodied_agent_runtime.Executor.Host.{
  TaskGoal, ActionResult, ResultCode, succeeded_code, WrappedResult,
}
use embodied_agent_runtime.Orchestrator.ReadyState.{update_ready, usable}
use embodied_agent_runtime.Orchestrator.Host.{
  before_cancel_dispatch, NodeStatus, success, failure, running_status, FlowEvent, child_responds,
  child_progresses, child_ends, ready_told, cancel_requested, stop_requested, goal_offered,
  FlowHost, FlowEffect, sends_task, task_ended, accepts_cancel, cancels_task, WorkflowState,
  RetryState, TaskOrchestrator, FlowRun, Leaves,
}
use embodied_agent_runtime.Orchestrator.Node.{
  handle_workflow_goal, handle_workflow_cancel, request_stop,
}

abbrev pub has_succeeded : ResultCode → Bool
has_succeeded succeeded_code = true
has_succeeded _ = false

abbrev pub has_outcome : ℕ → Option ActionResult → Bool
has_outcome outcome none = false
has_outcome outcome (some r) = r.outcome == outcome

-- The task's result is a success.
unfoldable pub is_completed : WrappedResult → Bool
is_completed w = has_succeeded w.code && has_outcome completed w.result

-- `onRunning`.
abbrev pub status_of : Option WrappedResult → Bool → NodeStatus
status_of (some w) refused = if is_completed w then success else failure
status_of none refused = if refused then failure else running_status

unfoldable pub task_status : WorkflowState → NodeStatus
task_status s = status_of s.child_result (s.goal_response_received && not s.has_handle)

module _ {W T : Type 0} where
  -- A read of the world.
  unfoldable pub look : {A : Type 0} → (W → A × W) → Exec (FlowRun W T) A
  look f r = let (a, w) = f r.world in (returned a, record r { world = w })

  -- A call out of the worker that may throw.
  unfoldable pub dare : (W → Option Text × W) → Exec (FlowRun W T) (Unit {0})
  dare f = do error ← look f; elim error [ none ↦ pure tt | some e ↦ throw e ]

  unfoldable pub note : FlowEffect → Exec (FlowRun W T) (Unit {0})
  note e r = (returned tt, record r { log = e ∷ r.log })

  abbrev pub on_flow : (WorkflowState → WorkflowState) → Exec (FlowRun W T) (Unit {0})
  on_flow f = change (λ r. record r { flow = f r.flow })

  abbrev pub on_retry : (RetryState → RetryState) → Exec (FlowRun W T) (Unit {0})
  on_retry f = change (λ r. record r { retry = f r.retry })

  -- A call on the node.
  unfoldable pub on_node :
      {A : Type 0} → (TaskOrchestrator → A × TaskOrchestrator) → Exec (FlowRun W T) A
  on_node f r = let (a, n) = f r.node in (returned a, record r { node = n })

  unfoldable pub mark : Text → ℕ → Exec (FlowRun W T) (Unit {0})
  mark name value = on_flow (λ s. record s { active_node = name; progress = value })

module _ (h : FlowHost) (T : Type 0) where
  open h use {World, clock, events, wait_until, pause, fault_hook, send_goal, cancel_goal}

  abbrev pub Flow : Type 0 → Type 0
  Flow A = Exec (FlowRun World T) A

  -- `dispatch_cancel` throws nothing: whether the cancel went out.
  unfoldable pub try_cancel : Flow Bool
  try_cancel = do
    dare (fault_hook before_cancel_dispatch)
    dare cancel_goal
    note cancels_task
    pure true

  unfoldable pub dispatch_task_cancel : Flow Bool
  dispatch_task_cancel = do
    dispatched ← catching try_cancel (λ e. pure false)
    on_flow (λ s. record s { cancel_in_flight = false; cancel_dispatched = dispatched })
    pure dispatched

  -- Whether a handle that arrives has to be canceled at once.
  abbrev pub is_cancel_due : Bool → WorkflowState → Bool
  is_cancel_due handle s =
      handle && (s.halt_requested && (not s.cancel_dispatched && not s.cancel_in_flight))

  -- `goal_response_callback`.
  unfoldable pub on_task_response : Bool → Flow (Unit {0})
  on_task_response handle = do
    due ← gets (λ r. is_cancel_due handle r.flow)
    on_flow (λ s. record s {
      goal_response_received = true;
      has_handle = handle;
      cancel_in_flight = if due then true else s.cancel_in_flight;
    })
    if due then (do dispatched ← dispatch_task_cancel; pure tt) else pure tt

  -- `result_callback`.
  unfoldable pub on_task_result : WrappedResult → Flow (Unit {0})
  on_task_result result = do
    note (task_ended result)
    on_flow (λ s. record s { child_result = some result })

  unfoldable pub on_cancel_request : Flow (Unit {0})
  on_cancel_request = do
    accepted ← on_node handle_workflow_cancel
    if accepted then note accepts_cancel else pure tt

  unfoldable pub on_flow_event : FlowEvent → Flow (Unit {0})
  on_flow_event (child_responds handle) = on_task_response handle
  on_flow_event (child_progresses value) = mark (text "ExecuteTask") value
  on_flow_event (child_ends result) = on_task_result result
  on_flow_event (ready_told ready at) =
      on_node (λ n. (tt, record n { ready = update_ready ready at n.ready }))
  on_flow_event cancel_requested = on_cancel_request
  on_flow_event stop_requested = on_node (λ n. (tt, request_stop n))
  on_flow_event (goal_offered goal at) = do
    accepted ← on_node (handle_workflow_goal true at goal)
    pure tt

  unfoldable pub run_flow_events : List FlowEvent → Flow (Unit {0})
  run_flow_events [] = pure tt
  run_flow_events (e ∷ es) = do on_flow_event e; run_flow_events es

  -- The other threads' turn.
  unfoldable pub let_others : Flow (Unit {0})
  let_others = do es ← look events; run_flow_events es

  -- What `usable` says now.
  unfoldable pub is_usable : Flow Bool
  is_usable = do
    let_others
    now ← look clock
    gets (λ r. usable now r.node.ready_stale_ms r.node.ready)

  unfoldable pub runtime_ready_tick : Flow NodeStatus
  runtime_ready_tick = do ready ← is_usable; pure (if ready then success else failure)

  -- The next check, after the delay.
  unfoldable pub check_later : Flow NodeStatus
  check_later = do
    now ← look clock
    on_retry (λ s. record s { next_check = now + s.delay_ms * 1000000 })
    pure running_status

  unfoldable pub retry_on_start : ℕ → ℕ → Flow NodeStatus
  retry_on_start attempts delay_ms = do
    on_retry (λ s. record s { attempts = attempts; delay_ms = delay_ms; used = 1 })
    ready ← is_usable
    if ready then pure success else if leb attempts 1 then pure failure else check_later

  unfoldable pub retry_check : Flow NodeStatus
  retry_check = do
    on_retry (λ s. record s { used = (s.used + 1) % 2 ^ 32 })
    ready ← is_usable
    spent ← gets (λ r. leb r.retry.attempts r.retry.used)
    if ready then pure success else if spent then pure failure else check_later

  unfoldable pub retry_on_running : Flow NodeStatus
  retry_on_running = do
    now ← look clock
    early ← gets (λ r. ltb now r.retry.next_check)
    if early then pure running_status else retry_check

  -- `std::numeric_limits<std::int32_t>::max()`.
  abbrev pub int32_max : ℕ
  int32_max = 2 ^ 31 - 1

  -- The goal for the task executor with the time that remains, in nanoseconds; the casts to `int32_t` and
  -- `uint32_t` keep the lowest 32 bits.
  unfoldable pub with_duration : ℕ → TaskGoal → TaskGoal
  with_duration remaining goal = record goal {
    allowed_duration = record {
      sec = signed32 (remaining / 1000000000 % 2 ^ 32);
      nanosec = remaining % 1000000000 % 2 ^ 32;
    };
  }

  -- The dispatch; a throw passes through.
  unfoldable pub dispatch_task : ℕ → Flow NodeStatus
  dispatch_task remaining = do
    on_flow (λ s. record s { child_goal = with_duration remaining s.child_goal })
    on_flow (λ s. record s { child_goal_dispatched = true })
    goal ← gets (λ r. r.flow.child_goal)
    note (sends_task goal)
    dare (send_goal goal)
    pure running_status

  unfoldable pub task_on_start : Flow NodeStatus
  task_on_start = do
    mark (text "ExecuteTask") 25
    now ← look clock
    deadline ← gets (λ r. r.flow.deadline)
    if leb deadline now
        then pure failure
        else if ltb int32_max ((deadline - now) / 1000000000)
        then pure failure
        else dispatch_task (deadline - now)

  unfoldable pub task_on_running : Flow NodeStatus
  task_on_running = do let_others; gets (λ r. task_status r.flow)

  -- `mark_timeout`: waits until the test holds, and notes if it does not.
  unfoldable pub mark_timeout : ℕ → (WorkflowState → Bool) → Flow (Unit {0})
  mark_timeout deadline test = do
    settled ← gets (λ r. r.flow.cancel_timed_out || test r.flow)
    if settled then pure tt else (do
      change (λ r. record r { world = wait_until deadline r.world })
      let_others
      on_flow (λ s. record s { cancel_timed_out = not (test s) }))

  abbrev pub response_ready : WorkflowState → Bool
  response_ready s = is_some s.child_result || s.goal_response_received

  abbrev pub has_ended : WorkflowState → Bool
  has_ended s = is_some s.child_result

  -- One attempt to cancel.
  unfoldable pub cancel_once : Flow (Unit {0})
  cancel_once = do
    on_flow (λ s. record s { cancel_in_flight = true })
    let_others
    dispatched ← dispatch_task_cancel
    let_others
    ended ← gets (λ r. has_ended r.flow)
    if dispatched || ended
        then pure tt
        else (do change (λ r. record r { world = pause 20 r.world }); let_others)

  abbrev pub give_up : Flow Bool
  give_up = do on_flow (λ s. record s { cancel_timed_out = true }); pure false

  -- The wait for a cancel that another thread is sending: whether it is over in time.
  unfoldable pub await_cancel : ℕ → Flow Bool
  await_cancel deadline = do
    change (λ r. record r { world = wait_until deadline r.world })
    let_others
    gets (λ r. has_ended r.flow || not r.flow.cancel_in_flight)

  -- The loop of `onHalted`: whether it ends by its own test.
  unfoldable pub cancel_task_loop : ℕ → ℕ → Flow Bool
  cancel_task_loop zero deadline = exhaust
  cancel_task_loop (suc fuel) deadline = do
    let again = cancel_task_loop fuel deadline
    finished ← gets (λ r. has_ended r.flow || r.flow.cancel_dispatched)
    in_flight ← gets (λ r. r.flow.cancel_in_flight)
    if finished
        then pure true
        else if in_flight
        then (do over ← await_cancel deadline; if over then again else give_up)
        else (do now ← look clock; if leb deadline now then give_up else (do cancel_once; again))

  unfoldable pub task_on_halted : ℕ → Flow (Unit {0})
  task_on_halted fuel = do
    now ← look clock
    budget_ms ← gets (λ r. r.node.cancel_timeout_ms)
    let deadline = now + budget_ms * 1000000
    let_others
    on_flow (λ s. record s { halt_requested = true })
    mark_timeout deadline response_ready
    skips ← gets (λ r. not (response_ready r.flow) || (has_ended r.flow || not r.flow.has_handle))
    if skips then pure tt else (do
      goes_on ← cancel_task_loop fuel deadline
      if goes_on then mark_timeout deadline has_ended else pure tt)

  abbrev pub leaves : ℕ → Leaves (FlowRun World T)
  leaves fuel = record {
    runtime_ready = runtime_ready_tick;
    retry_start = retry_on_start;
    retry_running = retry_on_running;
    task_start = task_on_start;
    task_running = task_on_running;
    task_halted = task_on_halted fuel;
  }
