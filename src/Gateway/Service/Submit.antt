-- ===== src/Gateway/Service/Submit.antt =====
-- SubmitWorkflow of runtime_gateway/src/gateway_service.cpp.
use embodied_agent_runtime.Common.{
  ℕ, ◌*◌, ◌/◌, ◌%◌, Bool, true, false, not, Option, none, some, ◌==◌, if◌then◌else◌, ◌⊎◌, inl, inr,
}
use embodied_agent_runtime.Common.Int.{pos}
use embodied_agent_runtime.Common.Map.{text_key, find, emplace}
use embodied_agent_runtime.Common.Exec.{Exec, pure, throw, gets, change, ◌>>=◌, ◌>>◌, catching}
use embodied_agent_runtime.Common.Text.{Text, text, is_empty}
use embodied_agent_runtime.Gateway.Request.{RequestRecord}
use embodied_agent_runtime.Gateway.Registry.{
  InsertResult, duplicate, conflict, capacity_reached, insert, get_by_request_id, erase_request,
}
use embodied_agent_runtime.Gateway.Ledger.{Ledger}
use embodied_agent_runtime.Gateway.Durable.{
  IdempotencyDecision, proceed, replay, conflict_found, uncertain, unavailable, IdempotencyOutcome,
  admit, lookup,
}
use embodied_agent_runtime.History.Tasks.{TaskRecord}
use embodied_agent_runtime.Gateway.Service.Host.{
  SubmitWorkflowRequest, SubmitWorkflowReply, StatusCode, invalid_argument, unavailable_code,
  resource_exhausted, deadline_exceeded, Answer, replies, refuses, WorkflowGoal, GoalFuture, late,
  answered, GatewayHost, claims, sends, PendingGoal, GatewayState, is_valid_submit, is_allowlisted,
  fill_submit, fill_durable,
}
use embodied_agent_runtime.Gateway.Service.State.{
  consult, venture, on_store, on_registry, tell, on_goal, erase_goal, record_state, persist,
  dispatch_workflow_cancel, reject_request, yield_turn,
}

-- `initial`.
abbrev pub initial_record : SubmitWorkflowRequest → RequestRecord
initial_record request = record {
  request_id = request.request_id;
  task_id = request.task_id;
  target_id = request.target_id;
  workflow_id = request.workflow_id;
  timeout_ms = request.timeout_ms;
  state = text "SUBMITTING";
  outcome = 0;
  error_code = 0;
  message = text "";
}

-- The goal for the orchestrator.
abbrev pub workflow_goal : SubmitWorkflowRequest → WorkflowGoal
workflow_goal request = record {
  request_id = request.request_id;
  workflow_id = request.workflow_id;
  task_id = request.task_id;
  target_id = request.target_id;
  allowed_duration = record {
    sec = pos (request.timeout_ms / 1000);
    nanosec = request.timeout_ms % 1000 * 1000000;
  };
}

-- The goal as it is entered, before there is a handle.
abbrev pub pending_goal : RequestRecord → PendingGoal
pending_goal payload = record {
  has_handle = false;
  payload = payload;
  pending = true;
  cancel_requested = false;
  cancel_dispatched = false;
  cancel_failed = false;
}

abbrev pub is_proceed : IdempotencyDecision → Bool
is_proceed proceed = true
is_proceed _ = false

module _ (l : Ledger) (h : GatewayHost) (capacity : ℕ) where
  open h use {
    World, clock_ns, what, pause, server_ready, recorded_task, before_send, send_workflow,
    await_response,
  }

  abbrev Submission : Type 0
  Submission = Exec (GatewayState World l.Store) (Answer SubmitWorkflowReply)

  -- The reply about the registry's record, which is read with no test that there is one.
  unfoldable pub current_reply : Text → Exec (GatewayState World l.Store) SubmitWorkflowReply
  current_reply id = do
    yield_turn l h capacity
    current ← gets (λ s. get_by_request_id id s.registry)
    elim current [ none ↦ throw (text "bad optional access") | some r ↦ pure (fill_submit r) ]

  unfoldable pub reply_current : Text → Submission
  reply_current id = do reply ← current_reply id; pure (replies reply)

  -- `registry.erase`, before a refusal.
  unfoldable pub withdraw : Text → StatusCode → Text → Submission
  withdraw id code message = do
    yield_turn l h capacity
    erased ← on_registry (erase_request id)
    pure (refuses code message)

  -- The registry is full.
  unfoldable pub replay_known : SubmitWorkflowRequest → Submission
  replay_known request = do
    yield_turn l h capacity
    known ← on_store (lookup l capacity request.request_id)
    elim known [
      | none ↦ (do error ← consult what; throw error)
      | some none ↦ pure (refuses resource_exhausted (text "request registry capacity reached"))
      | some (some outcome) ↦ pure (replies (fill_durable outcome request))
    ]

  -- `async_send_goal` threw.
  unfoldable pub send_failed : SubmitWorkflowRequest → Text → Submission
  send_failed request error = do
    yield_turn l h capacity
    erase_goal request.request_id
    marked ← record_state request.request_id (text "REJECTED") 0 503 error
    yield_turn l h capacity
    written ← persist l h capacity (initial_record request) (text "REJECTED") 0 503 error
    pure (refuses unavailable_code error)

  -- No response within 500 ms, with what stands under the id.
  unfoldable pub response_late : Text → Option PendingGoal → Submission
  response_late id none = pure (refuses deadline_exceeded (text "goal response exceeded 500ms"))
  response_late id (some g) = do
    on_goal id (λ g. record g { cancel_requested = true })
    if g.cancel_requested then pure tt else (do
      marked ← record_state id (text "TIMED_OUT") 0 504 (text "goal response exceeded 500ms")
      pure tt)
    if g.has_handle
        then (do yield_turn l h capacity; sent ← dispatch_workflow_cancel l h capacity id; pure tt)
        else pure tt
    pure (refuses deadline_exceeded (text "goal response exceeded 500ms"))

  -- The reply to a goal that was answered in time.
  abbrev pub answered_reply : Bool → SubmitWorkflowReply → SubmitWorkflowReply
  answered_reply true reply = record reply { accepted = true }
  answered_reply false reply = record reply {
    accepted = false;
    state = text "REJECTED";
    error_code = 400;
    message = text "goal rejected";
  }

  -- Whether `changed.wait_for` has to wait.
  abbrev pub is_awaited : Option PendingGoal → Bool
  is_awaited none = false
  is_awaited (some g) = g.pending

  unfoldable pub response_seen : Text → Bool → Submission
  response_seen id handle = do
    awaited ← gets (λ s. is_awaited (find id s.goals))
    if awaited
        then (do change (λ s. record s { world = pause 50 s.world }); yield_turn l h capacity)
        else pure tt
    reply ← current_reply id
    pure (replies (answered_reply handle reply))

  unfoldable pub answer_goal : Text → Option PendingGoal → GoalFuture → Submission
  answer_goal id goal late = response_late id goal
  answer_goal id goal (answered handle) = response_seen id handle

  unfoldable pub await_goal : Text → Submission
  await_goal id = do
    future ← consult await_response
    yield_turn l h capacity
    goal ← gets (λ s. find id s.goals)
    answer_goal id goal future

  -- `before_send` and `async_send_goal`: the text of what was thrown.
  unfoldable pub try_send : WorkflowGoal → Exec (GatewayState World l.Store) (Option Text)
  try_send goal =
      catching
        (do
          yield_turn l h capacity
          venture before_send
          yield_turn l h capacity
          tell (sends goal)
          venture (send_workflow goal)
          pure none)
        (λ e. pure (some e))

  unfoldable pub send_request : SubmitWorkflowRequest → Submission
  send_request request = do
    change (λ s. record s {
      goals = emplace request.request_id (pending_goal (initial_record request)) s.goals;
    })
    thrown_text ← try_send (workflow_goal request)
    elim thrown_text [ some e ↦ send_failed request e | none ↦ await_goal request.request_id ]

  -- The orchestrator's server is there.
  unfoldable pub enter_goal : SubmitWorkflowRequest → Submission
  enter_goal request = do
    yield_turn l h capacity
    stopping ← gets (λ s. s.stopping)
    if stopping
        then (do
          written ←
              reject_request l h capacity (initial_record request) (text "REJECTED") 503
                (text "gateway is shutting down")
          pure (refuses unavailable_code (text "gateway is shutting down")))
        else send_request request

  -- The request was claimed.
  unfoldable pub dispatch_request : SubmitWorkflowRequest → Submission
  dispatch_request request =
      if not (is_allowlisted request.workflow_id)
      then (do
        yield_turn l h capacity
        written ←
            reject_request l h capacity (initial_record request) (text "REJECTED") 400
              (text "workflow is not allowlisted")
        reply_current request.request_id)
      else (do
        ready ← consult server_ready
        if ready then enter_goal request else (do
          yield_turn l h capacity
          written ←
              reject_request l h capacity (initial_record request) (text "REJECTED") 503
                (text "orchestrator unavailable")
          pure (refuses unavailable_code (text "orchestrator unavailable"))))

  -- What follows each decision of the ledger.
  unfoldable pub follow :
      SubmitWorkflowRequest → IdempotencyOutcome → IdempotencyDecision → Submission
  follow request admission unavailable =
      withdraw request.request_id unavailable_code admission.message
  follow request admission conflict_found =
      withdraw request.request_id invalid_argument
        (text "request_id conflicts with a durable request")
  follow request admission uncertain = do
    yield_turn l h capacity
    marked ←
        record_state request.request_id (text "UNCERTAIN") 0
          (if admission.error_code == 0 then 409 else admission.error_code)
          (if is_empty admission.message
            then text "prior dispatch outcome unknown"
            else admission.message)
    reply_current request.request_id
  follow request admission replay = do
    yield_turn l h capacity
    marked ←
        record_state request.request_id admission.state admission.outcome admission.error_code
          admission.message
    reply_current request.request_id
  follow request admission proceed = dispatch_request request

  unfoldable pub admit_request : SubmitWorkflowRequest → Submission
  admit_request request = do
    yield_turn l h capacity
    now ← consult clock_ns
    admission ← on_store (admit l capacity (initial_record request) now)
    if is_proceed admission.decision then tell (claims request.request_id) else pure tt
    follow request admission admission.decision

  -- Whether the history already has the task.
  unfoldable pub after_row : SubmitWorkflowRequest → Text ⊎ Option TaskRecord → Submission
  after_row request (inl error) = withdraw request.request_id unavailable_code error
  after_row request (inr (some r)) =
      withdraw request.request_id invalid_argument
        (text "task_id already belongs to a recorded task")
  after_row request (inr none) = admit_request request

  -- The registry has taken the request.
  unfoldable pub reserve : SubmitWorkflowRequest → Submission
  reserve request = do
    yield_turn l h capacity
    row ← consult (recorded_task request.task_id)
    after_row request row

  unfoldable pub after_insert : SubmitWorkflowRequest → InsertResult → Submission
  after_insert request duplicate = reply_current request.request_id
  after_insert request conflict =
      pure (refuses invalid_argument (text "request_id conflicts with an existing request"))
  after_insert request capacity_reached = replay_known request
  after_insert request _ = reserve request

  unfoldable pub submit_workflow : SubmitWorkflowRequest → Submission
  submit_workflow request = do
    yield_turn l h capacity
    stopping ← gets (λ s. s.stopping)
    if stopping
        then pure (refuses unavailable_code (text "gateway is shutting down"))
        else if not (is_valid_submit request)
        then pure (refuses invalid_argument (text "required fields and timeout_ms must be valid"))
        else (do
          yield_turn l h capacity
          result ← on_registry (insert (initial_record request))
          after_insert request result)
