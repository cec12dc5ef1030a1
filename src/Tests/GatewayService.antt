-- ===== src/Tests/GatewayService.antt =====
-- The gateway's service over a ledger in memory and a scripted host.
use embodied_agent_runtime.Common.{
  ◌+◌, ◌≤◌, true, false, Option, none, some, List, [], ◌∷◌, inr, ◌≡◌, refl,
}
use embodied_agent_runtime.Common.Int.{pos}
use embodied_agent_runtime.Common.Text.{Text, text, text_eq}
use embodied_agent_runtime.Common.Decimal.{decimal}
use embodied_agent_runtime.Gateway.Ledger.{IdempotencyRecord}
use embodied_agent_runtime.Gateway.Service.Host.{
  SubmitWorkflowRequest, GatewayEvent, goal_responds, goal_ends, WorkflowResult, answered,
  GatewayHost, claims, concludes, sends, GatewayState, is_valid_submit, is_allowlisted, is_active,
  fill_submit, state_for_outcome,
}
use embodied_agent_runtime.Gateway.Service.Submit.{
  workflow_goal, current_reply, reply_current, answer_goal, response_seen, await_goal, try_send,
  send_request, enter_goal, dispatch_request, follow, admit_request, after_row, reserve,
  after_insert, submit_workflow,
}
use embodied_agent_runtime.Gateway.Service.Once.{is_once}
use embodied_agent_runtime.Gateway.Service.OneGoal.{
  ServiceCall, submits, clears, happens, count_sends, count_concludes, serve_all, serve_all-is_once,
  count_sends_le, serve,
}
use embodied_agent_runtime.Gateway.Service.State.{
  consult, venture, on_store, on_registry, tell, persist, on_accepted, on_workflow_result, on_event,
  run_events, yield_turn,
}
use embodied_agent_runtime.Gateway.Service.Shutdown.{clear_requests}
use embodied_agent_runtime.Gateway.Registry.{
  insert, insert_new, add, has_task, get_by_request_id, update_terminal, clear,
}
use embodied_agent_runtime.Gateway.Durable.{
  admit, admit_found, admit_new, admit_counted, claim, complete, admit_existing, horizon_start,
}
use embodied_agent_runtime.Common.Exec.{pure, gets, change, ◌>>=◌, catching}
use embodied_agent_runtime.Common.Map.{find, emplace, erase, modify}
use embodied_agent_runtime.Gateway.Request.{prefixed, fingerprint, is_terminal_state}
use embodied_agent_runtime.Tests.Durable.{memory, memory-IsLedger, fresh}

-- The first events, and the rest.
abbrev next_events : List (List GatewayEvent) → List GatewayEvent × List (List GatewayEvent)
next_events [] = ([], [])
next_events (now ∷ later) = (now, later)

-- A host that answers every goal; its world is the events that are to come.
abbrev scripted : GatewayHost
scripted = record {
  World = List (List GatewayEvent);
  clock_ns = λ w. (pos 10, w);
  what = λ w. (text "", w);
  events = next_events;
  pause = λ ms w. w;
  server_ready = λ w. (true, w);
  recorded_task = λ id w. (inr none, w);
  before_send = λ w. (none, w);
  before_cancel_lookup = λ w. (none, w);
  before_cancel_dispatch = λ w. (none, w);
  send_workflow = λ goal w. (none, w);
  await_response = λ w. (answered true, w);
  cancel_workflow_goal = λ id w. (none, w);
}

abbrev pub pick_request : SubmitWorkflowRequest
pick_request = record {
  request_id = text "r1";
  workflow_id = text "single_task";
  task_id = text "t1";
  target_id = text "dock_a";
  timeout_ms = 1500;
}

abbrev success : WorkflowResult
success = record { outcome = 0; error_code = 0; message = text "done" }

abbrev quiet_start : GatewayState (List (List GatewayEvent)) (Text → Option IdempotencyRecord)
quiet_start = record {
  world = [] ∷ [] ∷ [] ∷ [] ∷ [] ∷ [] ∷ [] ∷ (goal_responds (text "r1") true ∷ []) ∷ [];
  store = fresh;
  registry = record { capacity = 4; insertion_order = []; records = [] };
  goals = [];
  stopping = false;
  cancel_dispatches = 0;
  log = [];
}

-- The request, its end, and the same request after the registry was cleared.
abbrev repeated : List ServiceCall
repeated =
    submits pick_request
    ∷ happens (goal_ends (text "r1") (some success))
    ∷ clears
    ∷ submits pick_request
    ∷ []

repeated-log :
    (serve_all memory scripted 8 repeated quiet_start).log
    ≡ concludes (text "r1") ∷ sends (workflow_goal pick_request) ∷ claims (text "r1") ∷ []
unfolding consult venture on_store on_registry tell persist on_accepted on_workflow_result on_event
    run_events yield_turn current_reply reply_current answer_goal response_seen await_goal try_send
    send_request enter_goal dispatch_request follow admit_request after_row reserve after_insert
    submit_workflow clear_requests serve serve_all is_valid_submit is_allowlisted is_active
    fill_submit state_for_outcome insert insert_new add has_task get_by_request_id update_terminal
    clear admit admit_found admit_new admit_counted claim complete admit_existing horizon_start pure
    gets change ◌>>=◌ catching find emplace erase modify text text_eq fingerprint is_terminal_state
    prefixed decimal
repeated-log = refl

serve_all-is_once_example : is_once (serve_all memory scripted 8 repeated quiet_start).log ≡ true
serve_all-is_once_example =
    serve_all-is_once memory scripted 8 memory-IsLedger repeated quiet_start refl

count_sends_le_example :
    count_sends (text "r1") (serve_all memory scripted 8 repeated quiet_start).log
    ≤ count_concludes (text "r1") (serve_all memory scripted 8 repeated quiet_start).log + 1
count_sends_le_example =
    count_sends_le memory scripted 8 memory-IsLedger repeated quiet_start (text "r1") refl
