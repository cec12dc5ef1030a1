-- ===== src/Gateway/Service/Calls.antt =====
-- The other calls of runtime_gateway/src/gateway_service.cpp: CancelWorkflow, GetTask and
-- ResolveUncertain. GetStats, which only copies fields, is left out.
use embodied_agent_runtime.Common.{
  ℕ, Bool, true, false, not, Option, none, some, if◌then◌else◌, ◌⊎◌, inl, inr,
}
use embodied_agent_runtime.Common.Int.{pos}
use embodied_agent_runtime.Common.Map.{text_key, find}
use embodied_agent_runtime.Common.Exec.{Exec, pure, gets, ◌>>=◌, ◌>>◌}
use embodied_agent_runtime.Common.Text.{Text, text, text_eq, is_empty}
use embodied_agent_runtime.Gateway.Request.{RequestRecord, is_terminal_state}
use embodied_agent_runtime.Gateway.Registry.{get_by_request_id, get_by_task_id}
use embodied_agent_runtime.Gateway.Ledger.{IdempotencyRecord, Ledger}
use embodied_agent_runtime.Gateway.Durable.{resolve_stored}
use embodied_agent_runtime.History.Tasks.{TaskRecord}
use embodied_agent_runtime.Gateway.Service.Host.{
  CancelWorkflowReply, TaskReply, ResolveUncertainReply, invalid_argument, unavailable_code,
  internal, Answer, replies, refuses, GatewayHost, concludes, PendingGoal, GatewayState,
  state_for_outcome, is_active,
}
use embodied_agent_runtime.Gateway.Service.State.{
  consult, venture, on_store, tell, on_goal, record_state, dispatch_workflow_cancel, yield_turn,
}

abbrev pub cancel_reply : Bool → Text → ℕ → ℕ → Text → CancelWorkflowReply
cancel_reply accepted state outcome error_code message = record {
  accepted = accepted;
  state = state;
  outcome = outcome;
  error_code = error_code;
  message = message;
}

abbrev pub not_found_reply : CancelWorkflowReply
not_found_reply = cancel_reply false (text "NOT_FOUND") 0 0 (text "request not found")

abbrev pub canceling_reply : CancelWorkflowReply
canceling_reply = cancel_reply true (text "CANCELING") 0 0 (text "cancel requested")

-- The reply that says how the request stands.
abbrev pub standing_reply : RequestRecord → CancelWorkflowReply
standing_reply r = cancel_reply false r.state r.outcome r.error_code r.message

abbrev pub holds_handle : Option PendingGoal → Bool
holds_handle none = false
holds_handle (some g) = g.has_handle

-- An empty `TaskRecord` for a task id.
abbrev pub missing_task : Text → TaskReply
missing_task task_id = record {
  found = false;
  task_id = task_id;
  request_id = text "";
  workflow_id = text "";
  goal_id = text "";
  target_id = text "";
  state = text "NOT_FOUND";
  action_status = 0;
  outcome = 0;
  error_code = 0;
  duration_ms = 0;
  message = text "";
  completed_at_ns = pos 0;
}

unfoldable pub fill_task : RequestRecord → TaskReply
fill_task r = record (missing_task r.task_id) {
  found = true;
  target_id = r.target_id;
  state = r.state;
  outcome = r.outcome;
  error_code = r.error_code;
  message = r.message;
}

unfoldable pub fill_stored : TaskRecord → TaskReply
fill_stored r = record {
  found = true;
  task_id = r.task_id;
  request_id = r.request_id;
  workflow_id = r.workflow_id;
  goal_id = r.goal_id;
  target_id = r.target_id;
  state = state_for_outcome r.outcome;
  action_status = r.action_status;
  outcome = r.outcome;
  error_code = r.error_code;
  duration_ms = r.duration_ms;
  message = r.message;
  completed_at_ns = r.completed_at_ns;
}

-- `ResolveResult`.
pub record ResolveResult : Type 0 where
  pub ok : Bool
  pub fatal : Bool
  pub state : Text
  pub message : Text

-- The task that the registry holds, if it is active.
abbrev pub active_task : Option RequestRecord → Option RequestRecord
active_task none = none
active_task (some r) = if is_active r then some r else none

-- The task as the registry knows it, if the history has no row.
abbrev pub task_or_missing : Text → Option RequestRecord → TaskReply
task_or_missing task_id none = missing_task task_id
task_or_missing task_id (some r) = fill_task r

module _ (l : Ledger) (h : GatewayHost) (capacity : ℕ) where
  open h use {
    World, clock_ns, what, pause, recorded_task, before_cancel_lookup, before_cancel_dispatch,
  }

  abbrev Reply : Type 0 → Type 0
  Reply A = Exec (GatewayState World l.Store) (Answer A)

  -- No handle stands under the id.
  abbrev pub without_handle : Option RequestRecord → CancelWorkflowReply
  without_handle none = not_found_reply
  without_handle (some r) =
      if text_eq r.state (text "CANCELING") then canceling_reply else standing_reply r

  -- The cancel was dispatched.
  abbrev pub after_cancel : Option RequestRecord → CancelWorkflowReply
  after_cancel none = canceling_reply
  after_cancel (some r) = if is_active r then canceling_reply else standing_reply r

  unfoldable pub cancel_handle : Text → Reply CancelWorkflowReply
  cancel_handle id = do
    venture before_cancel_dispatch
    yield_turn l h capacity
    sent ← dispatch_workflow_cancel l h capacity id
    if sent
        then (do
          yield_turn l h capacity
          latest ← gets (λ s. get_by_request_id id s.registry)
          pure (replies (after_cancel latest)))
        else pure (refuses internal (text "failed to dispatch workflow cancel"))

  -- The mark under the lock, and the record that it leaves.
  unfoldable pub request_cancel :
      Text → RequestRecord → Option PendingGoal → Exec (GatewayState World l.Store) Bool
  request_cancel id r none = pure false
  request_cancel id r (some g) = do
    on_goal id (λ g. record g { cancel_requested = true })
    record_state id (text "CANCELING") r.outcome r.error_code (text "cancel requested")

  unfoldable pub cancel_known : Text → RequestRecord → Reply CancelWorkflowReply
  cancel_known id r = do
    venture before_cancel_lookup
    yield_turn l h capacity
    goal ← gets (λ s. find id s.goals)
    marked ← request_cancel id r goal
    if holds_handle goal then cancel_handle id else (do
      yield_turn l h capacity
      latest ← gets (λ s. get_by_request_id id s.registry)
      pure (replies (without_handle latest)))

  unfoldable pub cancel_workflow : Text → Reply CancelWorkflowReply
  cancel_workflow id =
      if is_empty id then pure (refuses invalid_argument (text "request_id is required")) else (do
        yield_turn l h capacity
        known ← gets (λ s. get_by_request_id id s.registry)
        elim known [ none ↦ pure (replies not_found_reply) | some r ↦ cancel_known id r ])

  -- The answer from the history.
  abbrev pub stored_reply :
      Text → Option RequestRecord → Text ⊎ Option TaskRecord → Answer TaskReply
  stored_reply task_id memory (inl error) = refuses internal error
  stored_reply task_id memory (inr none) = replies (task_or_missing task_id memory)
  stored_reply task_id memory (inr (some row)) = replies (fill_stored row)

  unfoldable pub get_task : Text → Reply TaskReply
  get_task task_id =
      if is_empty task_id then pure (refuses invalid_argument (text "task_id is required")) else (do
        yield_turn l h capacity
        memory ← gets (λ s. get_by_task_id task_id s.registry)
        elim (active_task memory) [
          | some r ↦ pure (replies (fill_task r))
          | none ↦ (do
            yield_turn l h capacity
            row ← consult (recorded_task task_id)
            pure (stored_reply task_id memory row))
        ])

  unfoldable pub after_resolve :
      Text → Text → Text → Bool → Exec (GatewayState World l.Store) ResolveResult
  after_resolve id state message true = do
    tell (concludes id)
    yield_turn l h capacity
    marked ← record_state id state 0 0 message
    pure (record { ok = true; fatal = false; state = state; message = message })
  after_resolve id state message false = pure (record {
    ok = false;
    fatal = false;
    state = state;
    message = text "the stored row could not be updated";
  })

  -- `State::resolve`, once the row has been read.
  unfoldable pub resolve_known :
      Text → Text → Text → IdempotencyRecord → Exec (GatewayState World l.Store) ResolveResult
  resolve_known id state message stored =
      if is_terminal_state stored.state
      then pure (record {
        ok = false;
        fatal = false;
        state = stored.state;
        message = text "request already has a terminal outcome";
      })
      else (do
        yield_turn l h capacity
        now ← consult clock_ns
        ok ← on_store (resolve_stored l capacity id stored.fingerprint state 0 message now)
        after_resolve id state message ok)

  unfoldable pub resolve : Text → Text → Text → Exec (GatewayState World l.Store) ResolveResult
  resolve id state message = do
    found ← on_store (l.get_idempotency id)
    elim found [
      | none ↦ (do
        error ← consult what
        pure (record { ok = false; fatal = true; state = state; message = error }))
      | some none ↦ pure (record {
        ok = false;
        fatal = false;
        state = text "NOT_FOUND";
        message = text "no durable record for this request_id";
      })
      | some (some stored) ↦ resolve_known id state message stored
    ]

  abbrev pub resolve_answer : ResolveResult → Answer ResolveUncertainReply
  resolve_answer r =
      if r.fatal
      then refuses unavailable_code r.message
      else replies (record { resolved = r.ok; state = r.state; message = r.message })

  -- ResolveUncertain.
  unfoldable pub resolve_request : Text → Text → Text → Reply ResolveUncertainReply
  resolve_request id state message =
      if is_empty id
      then pure (refuses invalid_argument (text "request_id is required"))
      else if not (is_terminal_state state)
      then pure (
          refuses invalid_argument (
            text
              "state must be a terminal outcome: COMPLETED, CANCELED, SAFE_STOP, DEVICE_FAULT, ABORTED or REJECTED"))
      else (do
        yield_turn l h capacity
        resolved ← resolve id state message
        pure (resolve_answer resolved))
