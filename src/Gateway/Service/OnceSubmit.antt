-- ===== src/Gateway/Service/OnceSubmit.antt =====
-- SubmitWorkflow of runtime_gateway/src/gateway_service.cpp keeps what was claimed and sent in order: the goal that
-- it sends uses the claim that it has made.
use embodied_agent_runtime.Common.{ℕ, not, ◌||◌, Option, none, some, ◌⊎◌, inl, inr, refl}
use embodied_agent_runtime.Common.Exec.{Exec}
use embodied_agent_runtime.Common.Exec.Ensures.{
  Ensures, Keeps, bind-Ensures, Keeps-Ensures, Ensures-Keeps, weaken-Ensures, catching-Ensures,
  if-Ensures, pure-Keeps, if-Keeps, gets-Keeps, bind-Keeps, option-Keeps,
}
use embodied_agent_runtime.Common.Text.{Text}
use embodied_agent_runtime.Gateway.Request.{RequestRecord}
use embodied_agent_runtime.Gateway.Registry.{
  InsertResult, inserted, duplicate, conflict, invalid, capacity_reached,
}
use embodied_agent_runtime.Gateway.Ledger.{Ledger, IsLedger}
use embodied_agent_runtime.History.Tasks.{TaskRecord}
use embodied_agent_runtime.Gateway.Durable.{
  IdempotencyDecision, proceed, replay, conflict_found, uncertain, unavailable, IdempotencyOutcome,
}
use embodied_agent_runtime.Gateway.Service.Host.{
  SubmitWorkflowRequest, WorkflowGoal, GatewayHost, GatewayState, is_valid_submit, is_allowlisted,
}
use embodied_agent_runtime.Gateway.Service.State.{reject_request, yield_turn}
use embodied_agent_runtime.Gateway.Service.Submit.{
  initial_record, workflow_goal, is_proceed, try_send, send_request, enter_goal, dispatch_request,
  follow, admit_request, after_row, reserve, after_insert, submit_workflow,
}
use embodied_agent_runtime.Gateway.Service.Once.{
  anything, anything-IsStable, is_unspent, unspent-IsStable, Tracked, forget, consult-Tracked,
  on_registry-Tracked, change-Tracked, venture-Tracked, on_store-Claimed, claims-Tracked,
  sends-Tracked,
}
use embodied_agent_runtime.Gateway.Service.OnceState.{reject_request-Tracked, yield_turn-Tracked}
use embodied_agent_runtime.Gateway.Service.OnceAnswer.{
  Any, yield_turn-Any, record_state-Any, consult-Any, reply_current-Any, withdraw-Any,
  replay_known-Any, send_failed-Any, await_goal-Any,
}

module _ (l : Ledger) (lawful : IsLedger l) (capacity : ℕ) (h : GatewayHost) where
  open h use {
    World, what, server_ready, recorded_task, before_send, send_workflow, await_response, clock_ns,
  }

  abbrev Kept : GatewayState World l.Store → Type 0
  Kept = Any l lawful capacity h

  abbrev Unspent : Text → GatewayState World l.Store → Type 0
  Unspent id = Tracked l lawful capacity (is_unspent id)

  -- A step that keeps every stable fact, before the goal is sent.
  holds_claim :
      {A : Type 0} (id : Text) (m : Exec (GatewayState World l.Store) A)
      → Keeps (Unspent id) m
      → Ensures (Unspent id) m (λ _. Unspent id) Kept
  holds_claim id m k =
      weaken-Ensures m (λ s p. p) (λ a s q. q) (forget l lawful capacity (is_unspent id))
        (Keeps-Ensures k)

  -- What needs no claim.
  needs_no_claim :
      {A : Type 0} (id : Text) (m : Exec (GatewayState World l.Store) A)
      → Keeps Kept m
      → Ensures (Unspent id) m (λ _. Kept) Kept
  needs_no_claim id m k =
      weaken-Ensures m (forget l lawful capacity (is_unspent id)) (λ a s q. q) (λ s r. r)
        (Keeps-Ensures k)

  -- The other threads' turn, before the goal is sent.
  holds_turn : (id : Text) → Ensures (Unspent id) (yield_turn l h capacity) (λ _. Unspent id) Kept
  holds_turn id =
      holds_claim id _
        (yield_turn-Tracked l lawful capacity h (is_unspent id) (unspent-IsStable id))

  try_send-Any :
      (goal : WorkflowGoal)
      → Ensures (Unspent goal.request_id) (try_send l h capacity goal) (λ _. Kept) Kept
  unfolding try_send
  try_send-Any goal =
      catching-Ensures _ _ (λ s r. r)
        (bind-Ensures _ _ (holds_turn goal.request_id) (λ _.
          bind-Ensures _ _
            (holds_claim goal.request_id _
              (venture-Tracked l lawful capacity (is_unspent goal.request_id) before_send))
            (λ _. bind-Ensures _ _ (holds_turn goal.request_id) (λ _.
              bind-Ensures _ _ (sends-Tracked l lawful capacity goal) (λ _. Keeps-Ensures (
                bind-Keeps _ _ (venture-Tracked l lawful capacity anything _)
                  (λ _. pure-Keeps _)))))))
        (λ t. Keeps-Ensures (pure-Keeps _))

  send_request-Any :
      (request : SubmitWorkflowRequest)
      → Ensures (Unspent request.request_id) (send_request l h capacity request) (λ _. Kept) Kept
  unfolding send_request
  send_request-Any request =
      bind-Ensures _ _
        (holds_claim request.request_id _
          (change-Tracked l lawful capacity (is_unspent request.request_id) _ (λ s. (refl, refl))))
        (λ _. bind-Ensures _ _ (try_send-Any (workflow_goal request)) (λ thrown_text.
          Keeps-Ensures (
            option-Keeps thrown_text _ _ (await_goal-Any l lawful capacity h request.request_id)
              (λ e. send_failed-Any l lawful capacity h request e))))

  reject_request-Any :
      (r : RequestRecord) (state : Text) (error_code : ℕ) (message : Text)
      → Keeps Kept (reject_request l h capacity r state error_code message)
  reject_request-Any = reject_request-Tracked l lawful capacity h anything anything-IsStable

  enter_goal-Any :
      (request : SubmitWorkflowRequest)
      → Ensures (Unspent request.request_id) (enter_goal l h capacity request) (λ _. Kept) Kept
  unfolding enter_goal
  enter_goal-Any request = bind-Ensures _ _ (holds_turn request.request_id) (λ _.
      bind-Ensures _ _ (holds_claim request.request_id _ (gets-Keeps _)) (λ stopping.
        if-Ensures stopping _ _
          (needs_no_claim request.request_id _ (
            bind-Keeps _ _ (reject_request-Any (initial_record request) _ 503 _)
              (λ _. pure-Keeps _)))
          (send_request-Any request)))

  dispatch_request-Any :
      (request : SubmitWorkflowRequest)
      → Ensures
          (Unspent request.request_id)
          (dispatch_request l h capacity request)
          (λ _. Kept)
          Kept
  unfolding dispatch_request
  dispatch_request-Any request =
      if-Ensures (not (is_allowlisted request.workflow_id)) _ _
        (needs_no_claim request.request_id _ (
          bind-Keeps _ _ (yield_turn-Any l lawful capacity h) (λ _.
            bind-Keeps _ _ (reject_request-Any (initial_record request) _ 400 _)
              (λ _. reply_current-Any l lawful capacity h request.request_id))))
        (bind-Ensures _ _
          (holds_claim request.request_id _
            (consult-Tracked l lawful capacity (is_unspent request.request_id) server_ready))
          (λ ready. if-Ensures ready _ _ (enter_goal-Any request) (
            needs_no_claim request.request_id _ (
              bind-Keeps _ _ (yield_turn-Any l lawful capacity h) (λ _.
                bind-Keeps _ _ (reject_request-Any (initial_record request) _ 503 _)
                  (λ _. pure-Keeps _))))))

  -- With what is known of the claim once the decision is.
  follow-Any :
      (request : SubmitWorkflowRequest) (admission : IdempotencyOutcome) (d : IdempotencyDecision)
      → Ensures
          (Tracked l lawful capacity
            (λ log. not (is_proceed d) || is_unspent request.request_id log))
          (follow l h capacity request admission d)
          (λ _. Kept)
          Kept
  unfolding follow
  follow-Any request admission proceed = dispatch_request-Any request
  follow-Any request admission replay = Keeps-Ensures (
      bind-Keeps _ _ (yield_turn-Any l lawful capacity h) (λ _.
        bind-Keeps _ _ (record_state-Any l lawful capacity h request.request_id _ _ _ _)
          (λ _. reply_current-Any l lawful capacity h request.request_id)))
  follow-Any request admission conflict_found =
      Keeps-Ensures (withdraw-Any l lawful capacity h request.request_id _ _)
  follow-Any request admission uncertain = Keeps-Ensures (
      bind-Keeps _ _ (yield_turn-Any l lawful capacity h) (λ _.
        bind-Keeps _ _ (record_state-Any l lawful capacity h request.request_id _ _ _ _)
          (λ _. reply_current-Any l lawful capacity h request.request_id)))
  follow-Any request admission unavailable =
      Keeps-Ensures (withdraw-Any l lawful capacity h request.request_id _ _)

  admit_request-Any :
      (request : SubmitWorkflowRequest) → Keeps Kept (admit_request l h capacity request)
  unfolding admit_request
  admit_request-Any request = bind-Keeps _ _ (yield_turn-Any l lawful capacity h) (λ _.
      bind-Keeps _ _ (consult-Any l lawful capacity h clock_ns) (λ now. Ensures-Keeps (
        bind-Ensures _ _ (on_store-Claimed l lawful capacity (initial_record request) now)
          (λ admission.
            bind-Ensures _ _
              (claims-Tracked l lawful capacity request.request_id (is_proceed admission.decision))
              (λ _. follow-Any request admission admission.decision)))))

  after_row-Any :
      (request : SubmitWorkflowRequest) (row : Text ⊎ Option TaskRecord)
      → Keeps Kept (after_row l h capacity request row)
  unfolding after_row
  after_row-Any request (inl error) = withdraw-Any l lawful capacity h request.request_id _ error
  after_row-Any request (inr (some r)) = withdraw-Any l lawful capacity h request.request_id _ _
  after_row-Any request (inr none) = admit_request-Any request

  reserve-Any : (request : SubmitWorkflowRequest) → Keeps Kept (reserve l h capacity request)
  unfolding reserve
  reserve-Any request = bind-Keeps _ _ (yield_turn-Any l lawful capacity h) (λ _.
      bind-Keeps _ _ (consult-Any l lawful capacity h (recorded_task request.task_id))
        (after_row-Any request))

  after_insert-Any :
      (request : SubmitWorkflowRequest) (result : InsertResult)
      → Keeps Kept (after_insert l h capacity request result)
  unfolding after_insert
  after_insert-Any request duplicate = reply_current-Any l lawful capacity h request.request_id
  after_insert-Any request conflict = pure-Keeps _
  after_insert-Any request capacity_reached = replay_known-Any l lawful capacity h request
  after_insert-Any request inserted = reserve-Any request
  after_insert-Any request invalid = reserve-Any request

  pub submit_workflow-Any :
      (request : SubmitWorkflowRequest) → Keeps Kept (submit_workflow l h capacity request)
  unfolding submit_workflow
  submit_workflow-Any request = bind-Keeps _ _ (yield_turn-Any l lawful capacity h) (λ _.
      bind-Keeps _ _ (gets-Keeps _) (λ stopping. if-Keeps stopping _ _ (pure-Keeps _) (
        if-Keeps (not (is_valid_submit request)) _ _ (pure-Keeps _) (
          bind-Keeps _ _ (yield_turn-Any l lawful capacity h) (λ _.
            bind-Keeps _ _ (on_registry-Tracked l lawful capacity anything _)
              (after_insert-Any request))))))
