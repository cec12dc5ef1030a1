-- ===== src/Gateway/Service/State.antt =====
-- GatewayService::State of runtime_gateway/src/gateway_service.cpp, and the callbacks of a goal, which other threads run
-- between the steps of a call. Each access under the mutex, of the service, the registry or the
-- store, is one step. Log lines are left out.
use embodied_agent_runtime.Common.{
  ℕ, Bool, true, false, ◌||◌, Option, none, some, List, [], ◌∷◌, is_some, bump64, if◌then◌else◌,
}
use embodied_agent_runtime.Common.Map.{text_key, find, erase, modify}
use embodied_agent_runtime.Common.Exec.{
  returned, Exec, pure, throw, gets, change, ◌>>=◌, ◌>>◌, catching,
}
use embodied_agent_runtime.Common.Text.{Text, text, is_empty}
use embodied_agent_runtime.Gateway.Request.{RequestRecord}
use embodied_agent_runtime.Gateway.Registry.{RequestRegistry, update_terminal}
use embodied_agent_runtime.Gateway.Ledger.{Ledger}
use embodied_agent_runtime.Gateway.Durable.{complete}
use embodied_agent_runtime.Gateway.Service.Host.{
  GatewayEvent, goal_responds, goal_ends, stops, WorkflowResult, GatewayHost, GatewayEffect,
  concludes, cancels_goal, PendingGoal, GatewayState, state_for_outcome,
}

module _ {W S : Type 0} where
  unfoldable pub consult : {A : Type 0} → (W → A × W) → Exec (GatewayState W S) A
  consult f s = let (a, w) = f s.world in (returned a, record s { world = w })

  -- A call out of the service that may throw.
  unfoldable pub venture : (W → Option Text × W) → Exec (GatewayState W S) (Unit {0})
  venture f = do error ← consult f; elim error [ none ↦ pure tt | some t ↦ throw t ]

  -- A call on the store.
  unfoldable pub on_store : {A : Type 0} → (S → A × S) → Exec (GatewayState W S) A
  on_store f s = let (a, t) = f s.store in (returned a, record s { store = t })

  -- A call on the registry.
  unfoldable pub on_registry :
      {A : Type 0} → (RequestRegistry → A × RequestRegistry) → Exec (GatewayState W S) A
  on_registry f s = let (a, g) = f s.registry in (returned a, record s { registry = g })

  unfoldable pub tell : GatewayEffect → Exec (GatewayState W S) (Unit {0})
  tell e s = (returned tt, record s { log = e ∷ s.log })

  -- A change of the goal under an id, if there is one.
  abbrev pub on_goal : Text → (PendingGoal → PendingGoal) → Exec (GatewayState W S) (Unit {0})
  on_goal id f = change (λ s. record s { goals = modify id f s.goals })

  abbrev pub erase_goal : Text → Exec (GatewayState W S) (Unit {0})
  erase_goal id = change (λ s. record s { goals = erase id s.goals })

  -- `registry.update_terminal`, whose result the service does not read.
  abbrev pub record_state : Text → Text → ℕ → ℕ → Text → Exec (GatewayState W S) Bool
  record_state id state outcome error_code message =
      on_registry (update_terminal id state outcome error_code message)

module _ (l : Ledger) (h : GatewayHost) (capacity : ℕ) where
  open h use {World, clock_ns, what, events, cancel_workflow_goal}

  abbrev pub Service : Type 0 → Type 0
  Service A = Exec (GatewayState World l.Store) A

  -- `durable.complete` at the present time.
  unfoldable pub persist : RequestRecord → Text → ℕ → ℕ → Text → Service Bool
  persist payload state outcome error_code message = do
    now ← consult clock_ns
    written ← on_store (complete l capacity payload state outcome error_code message now)
    if written then tell (concludes payload.request_id) else pure tt
    pure written

  -- After `async_cancel_goal` threw.
  unfoldable pub cancel_threw : Text → Text → Service Bool
  cancel_threw id error = do
    known ← gets (λ s. is_some (find id s.goals))
    on_goal id (λ g. record g { cancel_dispatched = false; cancel_failed = true })
    marked ← if known then record_state id (text "CANCEL_FAILED") 0 500 error else pure false
    pure false

  unfoldable pub send_cancel : Text → Service Bool
  send_cancel id = do venture (cancel_workflow_goal id); tell (cancels_goal id); pure true

  -- Whether no cancel has to be sent for the goal.
  abbrev pub is_cancel_settled : Option PendingGoal → Bool
  is_cancel_settled none = true
  is_cancel_settled (some g) = g.cancel_dispatched

  unfoldable pub dispatch_workflow_cancel : Text → Service Bool
  dispatch_workflow_cancel id = do
    settled ← gets (λ s. is_cancel_settled (find id s.goals))
    if settled then pure true else (do
      on_goal id (λ g. record g { cancel_dispatched = true; cancel_failed = false })
      change (λ s. record s { cancel_dispatches = bump64 s.cancel_dispatches })
      catching (send_cancel id) (cancel_threw id))

  unfoldable pub reject_request : RequestRecord → Text → ℕ → Text → Service Bool
  reject_request payload state error_code message = do
    marked ← record_state payload.request_id state 0 error_code message
    persist payload state 0 error_code message

  -- `goal_response_callback` with a handle.
  abbrev pub wants_cancel : Bool → PendingGoal → Bool
  wants_cancel stopping g = stopping || g.cancel_requested

  unfoldable pub on_accepted : Text → Service (Unit {0})
  on_accepted id = do
    goal ← gets (λ s. find id s.goals)
    stopping ← gets (λ s. s.stopping)
    elim goal [
      | none ↦ pure tt
      | some g ↦ (do
        on_goal id (λ g. record g { pending = false; has_handle = true })
        marked ←
            record_state id (if wants_cancel stopping g then text "CANCELING" else text "RUNNING") 0
              0 (if wants_cancel stopping g then text "cancel requested" else text "accepted")
        if wants_cancel stopping g
            then (do sent ← dispatch_workflow_cancel id; pure tt)
            else pure tt)
    ]

  -- `goal_response_callback` without a handle.
  unfoldable pub on_refused : Text → Service (Unit {0})
  on_refused id = do
    goal ← gets (λ s. find id s.goals)
    elim goal [
      | none ↦ pure tt
      | some g ↦ (do
        erase_goal id
        if is_empty g.payload.request_id then pure tt else (do
          written ← persist g.payload (text "REJECTED") 0 400 (text "goal rejected")
          marked ← record_state id (text "REJECTED") 0 400 (text "goal rejected")
          pure tt))
    ]

  -- What `result_callback` reads of a result that is missing.
  abbrev pub result_or_stop : Option WorkflowResult → WorkflowResult
  result_or_stop (some r) = r
  result_or_stop none = record {
    outcome = 2;
    error_code = 500;
    message = text "workflow result unavailable";
  }

  unfoldable pub on_workflow_result : Text → Option WorkflowResult → Service (Unit {0})
  on_workflow_result id result = do
    let r = result_or_stop result
    marked ← record_state id (state_for_outcome r.outcome) r.outcome r.error_code r.message
    goal ← gets (λ s. find id s.goals)
    erase_goal id
    elim goal [
      | none ↦ pure tt
      | some g ↦ if is_empty g.payload.request_id then pure tt else (do
        written ← persist g.payload (state_for_outcome r.outcome) r.outcome r.error_code r.message
        pure tt)
    ]

  unfoldable pub stop_accepting : Service (Unit {0})
  stop_accepting = change (λ s. record s { stopping = true })

  unfoldable pub on_event : GatewayEvent → Service (Unit {0})
  on_event (goal_responds id true) = on_accepted id
  on_event (goal_responds id false) = on_refused id
  on_event (goal_ends id result) = on_workflow_result id result
  on_event stops = stop_accepting

  unfoldable pub run_events : List GatewayEvent → Service (Unit {0})
  run_events [] = pure tt
  run_events (e ∷ es) = do on_event e; run_events es

  -- The other threads' turn.
  unfoldable pub yield_turn : Service (Unit {0})
  yield_turn = do es ← consult events; run_events es
