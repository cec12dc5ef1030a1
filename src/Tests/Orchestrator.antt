-- ===== src/Tests/Orchestrator.antt =====
-- The orchestrator's worker over a scripted host and a sequence of two leaves.
use embodied_agent_runtime.Common.{
  ◌*◌, ◌+◌, Bool, true, false, none, some, List, [], ◌∷◌, if◌then◌else◌, ◌≡◌, refl, arith,
}
use embodied_agent_runtime.Common.Int.{signed32}
use embodied_agent_runtime.Common.Exec.{Exec, pure, gets, change, ◌>>=◌, ◌>>◌, catching, exhaust}
use embodied_agent_runtime.Common.Exec.Ensures.{Keeps, pure-Keeps, gets-Keeps, if-Keeps, bind-Keeps}
use embodied_agent_runtime.Common.Text.{text, text_eq}
use embodied_agent_runtime.Bridge.Host.{succeeds}
use embodied_agent_runtime.Executor.Host.{succeeded_code, WrappedResult}
use embodied_agent_runtime.Gateway.Service.Host.{is_valid_submit, is_allowlisted}
use embodied_agent_runtime.Gateway.Service.Submit.{workflow_goal}
use embodied_agent_runtime.Orchestrator.Host.{
  NodeStatus, success, FlowEvent, child_responds, child_ends, FlowHost, FlowRun, Leaves, TreeEngine,
  IsTreeEngine, TaskOrchestrator, ends_workflow, task_ended, sends_task,
}
use embodied_agent_runtime.Orchestrator.Node.{
  handle_workflow_goal, start_flow, fresh_retry, release_active_for_generation, finish_worker,
}
use embodied_agent_runtime.Orchestrator.Leaves.{
  with_duration, is_completed, task_status, look, dare, note, on_node, mark, try_cancel,
  dispatch_task_cancel, on_task_response, on_task_result, on_cancel_request, on_flow_event,
  run_flow_events, let_others, is_usable, runtime_ready_tick, check_later, retry_on_start,
  retry_check, retry_on_running, dispatch_task, task_on_start, task_on_running, mark_timeout,
  cancel_once, await_cancel, cancel_task_loop, task_on_halted,
}
use embodied_agent_runtime.Orchestrator.Worker.{
  run_worker, finish_workflow, halt_with, publish_flow_feedback, is_late, tick_round, work_round,
  goes_on, work_loop, execute_workflow, work_threw,
}
use embodied_agent_runtime.Orchestrator.Trace.{is_ended_well}
use embodied_agent_runtime.Orchestrator.Terminal.{
  end_of_workflow, commit, end_goal, try_transition, try_fallback, fall_back, commit_time,
  commit_hook, commit_end, terminal,
}
use embodied_agent_runtime.Orchestrator.ReadyState.{usable}
use embodied_agent_runtime.Orchestrator.WellEnded.{run_worker-is_ended_well}
use embodied_agent_runtime.Orchestrator.Goals.{
  workflow_goal-handle_workflow_goal, Started, task_on_start-to_steady_duration,
}
use embodied_agent_runtime.Tests.GatewayService.{pick_request}

-- The world is the events that are to come; the clock stands still.
abbrev World : Type 0
World = List (List FlowEvent)

abbrev next_events : World → List FlowEvent × World
next_events [] = ([], [])
next_events (now ∷ later) = (now, later)

abbrev host : FlowHost
host = record {
  World = World;
  context_ok = λ w. (true, w);
  canceling = λ w. (false, w);
  goal_active = λ w. (true, w);
  clock = λ w. (1000, w);
  events = next_events;
  wait_until = λ t w. w;
  pause = λ ms w. w;
  fault_hook = λ p w. (none, w);
  send_goal = λ g w. (none, w);
  cancel_goal = λ w. (none, w);
  send_feedback = λ name value w. (none, w);
  transition = λ e r w. (none, w);
}

-- Which leaf of `single_task` runs: none, or the task.
abbrev Tree : Type 0
Tree = Bool

abbrev is_success_status : NodeStatus → Bool
is_success_status success = true
is_success_status _ = false

abbrev Run : Type 0
Run = FlowRun World Tree

abbrev set_tree : Bool → Exec Run (Unit {0})
set_tree t = change (λ r. record r { tree = t })

abbrev start_task : Leaves Run → Exec Run NodeStatus
start_task leaves = do set_tree true; leaves.task_start

abbrev tick_sequence : Leaves Run → Exec Run NodeStatus
tick_sequence leaves = do
  started ← gets (λ r. r.tree)
  if started then leaves.task_running else (do
    ready ← leaves.runtime_ready
    if is_success_status ready then start_task leaves else pure ready)

abbrev halt_sequence : Leaves Run → Exec Run (Unit {0})
halt_sequence leaves = do
  started ← gets (λ r. r.tree)
  if started then leaves.task_halted else pure tt

abbrev sequence : TreeEngine World
sequence = record {
  Tree = Bool;
  create_tree = λ id. set_tree false;
  tick_once = tick_sequence;
  halt_tree = halt_sequence;
}

set_tree-Keeps :
    (P : Run → Type 0)
    → ((s : Run) (t : Bool) → P s → P (record s { tree = t }))
    → (t : Bool) → Keeps P (set_tree t)
unfolding change
set_tree-Keeps P closed t = record { at = λ s k. closed s t k }

sequence-IsTreeEngine : IsTreeEngine sequence
sequence-IsTreeEngine = record {
  create_keeps = λ P closed id. set_tree-Keeps P closed false;
  tick_keeps = λ P closed leaves ready start again task_start task_running task_halted.
      bind-Keeps _ _ (gets-Keeps _) (λ started. if-Keeps started _ _ task_running (
        bind-Keeps _ _ ready (λ status.
          if-Keeps (is_success_status status) _ _
            (bind-Keeps _ _ (set_tree-Keeps P closed true) (λ _. task_start))
            (pure-Keeps status))));
  halt_keeps = λ P closed leaves task_halted.
      bind-Keeps _ _ (gets-Keeps _) (λ started. if-Keeps started _ _ task_halted (pure-Keeps tt));
}

abbrev idle_node : TaskOrchestrator
idle_node = record {
  accepting = true;
  running = true;
  active = false;
  generation_counter = 0;
  active_generation = 0;
  terminal_started = false;
  fallback_attempted = false;
  terminal_transition_failed = false;
  cancel_accepted = false;
  terminal_reserved = false;
  active_deadline = 0;
  ready = record { received_at = some 900; ready = true };
  ready_stale_ms = 2000;
  cancel_timeout_ms = 1000;
}

abbrev busy_node : TaskOrchestrator
busy_node = record idle_node {
  active = true;
  generation_counter = 1;
  active_generation = 1;
  active_deadline = 1500000000;
}

abbrev task_success : WrappedResult
task_success = record {
  code = succeeded_code;
  result = some (record { outcome = 0; error_code = 0; message = text "done" });
}

-- The task answers and ends between the first tick and the second.
abbrev begin : Run
begin = record {
  world = [] ∷ [] ∷ (child_responds true ∷ child_ends task_success ∷ []) ∷ [];
  node = busy_node;
  flow = start_flow (workflow_goal pick_request) 0;
  retry = fresh_retry;
  tree = false;
  log = [];
}

begin-runs :
    (run_worker host sequence 5 5 (workflow_goal pick_request) 1 begin).1.log
    ≡ ends_workflow succeeds (record { outcome = 0; error_code = 0; message = text "done" })
      ∷ task_ended task_success
      ∷ sends_task (
          with_duration host Tree 1499999000 (start_flow (workflow_goal pick_request) 0).child_goal)
      ∷ []
unfolding is_completed task_status look dare note on_node mark try_cancel dispatch_task_cancel
    on_task_response on_task_result on_cancel_request on_flow_event run_flow_events let_others
    is_usable runtime_ready_tick check_later retry_on_start retry_check retry_on_running
    with_duration signed32 dispatch_task task_on_start task_on_running mark_timeout cancel_once
    await_cancel cancel_task_loop task_on_halted end_of_workflow commit end_goal try_transition
    try_fallback fall_back commit_time commit_hook commit_end terminal finish_workflow halt_with
    publish_flow_feedback is_late tick_round work_round goes_on work_loop execute_workflow
    work_threw run_worker usable start_flow release_active_for_generation finish_worker pure gets
    change ◌>>=◌ catching exhaust
begin-runs = refl

run_worker-is_ended_well_example :
    is_ended_well (run_worker host sequence 5 5 (workflow_goal pick_request) 1 begin).1.log ≡ true
run_worker-is_ended_well_example =
    run_worker-is_ended_well host sequence sequence-IsTreeEngine 5 5 1 (workflow_goal pick_request)
      begin refl refl

workflow_goal-handle_workflow_goal_example :
    let (accepted, n') = handle_workflow_goal true 10 (workflow_goal pick_request) idle_node in
    (accepted ≡ true)
    × (n'.active ≡ true)
    × (n'.cancel_accepted ≡ false)
    × (n'.terminal_reserved ≡ false)
    × (n'.active_deadline ≡ 10 + 1500 * 1000000)
unfolding is_valid_submit is_allowlisted text text_eq
workflow_goal-handle_workflow_goal_example =
    workflow_goal-handle_workflow_goal pick_request idle_node 10 refl refl refl refl (omega arith)

task_on_start-to_steady_duration_example :
    Started 1000
      (start_flow (workflow_goal pick_request) 1500000000).deadline
      []
      (task_on_start host Tree
        (record begin { flow = start_flow (workflow_goal pick_request) 1500000000 })).1.log
task_on_start-to_steady_duration_example =
    task_on_start-to_steady_duration host Tree
      (record begin { flow = start_flow (workflow_goal pick_request) 1500000000 })
