-- ===== src/Gateway/Service/OnceState.antt =====
-- The callbacks and the helpers of runtime_gateway/src/gateway_service.cpp keep what was claimed and sent in order.
use embodied_agent_runtime.Common.{
  ℕ, true, false, ◌&&◌, Option, some, List, [], ◌∷◌, ◌≡◌, ◌∙◌, refl, arith, inl, inr, Bool-cases,
}
use embodied_agent_runtime.Common.Int.{ℤ}
use embodied_agent_runtime.Common.Exec.Ensures.{
  Keeps, bind-Ensures, Keeps-Ensures, Ensures-Keeps, pure-Keeps, if-Keeps, gets-Keeps, bind-Keeps,
  option-Keeps, catching-Keeps,
}
use embodied_agent_runtime.Common.Text.{Text, text_eq, is_empty}
use embodied_agent_runtime.Gateway.Request.{RequestRecord, is_terminal_state}
use embodied_agent_runtime.Gateway.Ledger.{IdempotencyRecord, Ledger, IsLedger}
use embodied_agent_runtime.Gateway.Durable.{complete, resolve_stored, resolvable}
use embodied_agent_runtime.Gateway.AtMostOnce.{IsHeld, keep-IsHeld}
use embodied_agent_runtime.Gateway.Service.Host.{
  GatewayEvent, goal_responds, goal_ends, stops, WorkflowResult, GatewayHost, PendingGoal,
  GatewayState,
}
use embodied_agent_runtime.Gateway.Service.State.{
  on_goal, erase_goal, record_state, persist, cancel_threw, send_cancel, wants_cancel,
  dispatch_workflow_cancel, reject_request, on_accepted, on_refused, on_workflow_result,
  stop_accepting, on_event, run_events, yield_turn,
}
use embodied_agent_runtime.Gateway.Service.Once.{
  Fact, IsStable, Tracked, consult-Tracked, on_registry-Tracked, change-Tracked, venture-Tracked,
  on_store-Written, cancels_goal-Tracked, concludes-Tracked,
}

module _ (l : Ledger) (lawful : IsLedger l) (capacity : ℕ) where
  open l use {Store, row, get_idempotency, put_idempotency}

  -- A write gives up no other id's row, and none when it fails.
  put-IsHeld_other :
      (r : IdempotencyRecord) (j : Text) (t : Store)
      → (put_idempotency r t).0 && text_eq j r.request_id ≡ false
      → IsHeld l lawful capacity j t
      → IsHeld l lawful capacity j (put_idempotency r t).1
  put-IsHeld_other r j t other h = elim (Bool-cases (put_idempotency r t).0) [
    | inl written ↦
        let apart : text_eq j r.request_id ≡ false = ground (arith, other, written) in
        keep-IsHeld l lawful capacity j t (put_idempotency r t).1
          (lawful.put_writes j r t written ∙ rw apart refl) h
    | inr refused ↦
        keep-IsHeld l lawful capacity j t (put_idempotency r t).1 (lawful.put_refuses j r t refused)
          h
  ]

  complete-IsHeld_other :
      (r : RequestRecord) (state : Text) (outcome error_code : ℕ) (message : Text) (now : ℤ)
      (j : Text) (t : Store)
      → (complete l capacity r state outcome error_code message now t).0 && text_eq j r.request_id
        ≡ false
      → IsHeld l lawful capacity j t
      → IsHeld l lawful capacity j (complete l capacity r state outcome error_code message now t).1
  unfolding complete
  complete-IsHeld_other r state outcome error_code message now j t other h =
      put-IsHeld_other _ j t other h

  pub resolve_stored-IsHeld_other :
      (id identity state : Text) (outcome : ℕ) (message : Text) (now : ℤ) (j : Text) (t : Store)
      → (resolve_stored l capacity id identity state outcome message now t).0 && text_eq j id
        ≡ false
      → IsHeld l lawful capacity j t
      → IsHeld l lawful capacity j
          (resolve_stored l capacity id identity state outcome message now t).1
  unfolding resolve_stored
  resolve_stored-IsHeld_other id identity state outcome message now j t =
      let (found, t') = get_idempotency id t in
      let kept : IsHeld l lawful capacity j t → IsHeld l lawful capacity j t' =
        keep-IsHeld l lawful capacity j t t' (lawful.get_keeps j id t) in
      elim (Bool-cases (is_terminal_state state)) [
        | inr n ↦ rw n (λ _ h. h)
        | inl y ↦ elim (Bool-cases (resolvable (some identity) found)) [
          | inl found_open ↦ rw (y, found_open) (λ other h. put-IsHeld_other _ j t' other (kept h))
          | inr found_closed ↦ rw (y, found_closed) (λ _ h. kept h)
        ]
      ]

  module _ (h : GatewayHost) (fact : Fact) (stable : IsStable fact) where
    open h use {World, clock_ns, cancel_workflow_goal, events}

    abbrev pub Holding : GatewayState World Store → Type 0
    Holding = Tracked l lawful capacity fact

    pub on_goal-Tracked : (id : Text) (f : PendingGoal → PendingGoal) → Keeps Holding (on_goal id f)
    on_goal-Tracked id f = change-Tracked l lawful capacity fact _ (λ s. (refl, refl))

    pub erase_goal-Tracked : (id : Text) → Keeps Holding (erase_goal id)
    erase_goal-Tracked id = change-Tracked l lawful capacity fact _ (λ s. (refl, refl))

    pub record_state-Tracked :
        (id state : Text) (outcome error_code : ℕ) (message : Text)
        → Keeps Holding (record_state id state outcome error_code message)
    record_state-Tracked id state outcome error_code message =
        on_registry-Tracked l lawful capacity fact _

    pub persist-Tracked :
        (r : RequestRecord) (state : Text) (outcome error_code : ℕ) (message : Text)
        → Keeps Holding (persist l h capacity r state outcome error_code message)
    unfolding persist
    persist-Tracked r state outcome error_code message =
        bind-Keeps _ _ (consult-Tracked l lawful capacity fact clock_ns) (λ now. Ensures-Keeps (
          bind-Ensures _ _
            (on_store-Written l lawful capacity fact r.request_id _
              (complete-IsHeld_other r state outcome error_code message now))
            (λ written.
              bind-Ensures _ _
                (concludes-Tracked l lawful capacity fact stable r.request_id written)
                (λ _. Keeps-Ensures (pure-Keeps written)))))

    cancel_threw-Tracked : (id error : Text) → Keeps Holding (cancel_threw l h capacity id error)
    unfolding cancel_threw
    cancel_threw-Tracked id error = bind-Keeps _ _ (gets-Keeps _) (λ known.
        bind-Keeps _ _ (on_goal-Tracked id _) (λ _.
          bind-Keeps _ _ (if-Keeps known _ _ (record_state-Tracked id _ 0 500 error) (pure-Keeps _))
            (λ _. pure-Keeps _)))

    send_cancel-Tracked : (id : Text) → Keeps Holding (send_cancel l h capacity id)
    unfolding send_cancel
    send_cancel-Tracked id = bind-Keeps _ _ (venture-Tracked l lawful capacity fact _) (λ _.
        bind-Keeps _ _ (cancels_goal-Tracked l lawful capacity fact stable id) (λ _. pure-Keeps _))

    pub dispatch_cancel-Tracked :
        (id : Text) → Keeps Holding (dispatch_workflow_cancel l h capacity id)
    unfolding dispatch_workflow_cancel
    dispatch_cancel-Tracked id = bind-Keeps _ _ (gets-Keeps _) (λ settled.
        if-Keeps settled _ _ (pure-Keeps _) (
          bind-Keeps _ _ (on_goal-Tracked id _) (λ _.
            bind-Keeps _ _ (change-Tracked l lawful capacity fact _ (λ s. (refl, refl)))
              (λ _. catching-Keeps _ _ (send_cancel-Tracked id) (cancel_threw-Tracked id)))))

    pub reject_request-Tracked :
        (r : RequestRecord) (state : Text) (error_code : ℕ) (message : Text)
        → Keeps Holding (reject_request l h capacity r state error_code message)
    unfolding reject_request
    reject_request-Tracked r state error_code message =
        bind-Keeps _ _ (record_state-Tracked r.request_id state 0 error_code message)
          (λ _. persist-Tracked r state 0 error_code message)

    on_accepted-Tracked : (id : Text) → Keeps Holding (on_accepted l h capacity id)
    unfolding on_accepted
    on_accepted-Tracked id = bind-Keeps _ _ (gets-Keeps _) (λ goal.
        bind-Keeps _ _ (gets-Keeps _) (λ stopping. option-Keeps goal _ _ (pure-Keeps tt) (λ g.
          bind-Keeps _ _ (on_goal-Tracked id _) (λ _.
            bind-Keeps _ _ (record_state-Tracked id _ 0 0 _) (λ _.
              if-Keeps (wants_cancel l h capacity stopping g) _ _
                (bind-Keeps _ _ (dispatch_cancel-Tracked id) (λ _. pure-Keeps tt))
                (pure-Keeps tt))))))

    on_refused-Tracked : (id : Text) → Keeps Holding (on_refused l h capacity id)
    unfolding on_refused
    on_refused-Tracked id = bind-Keeps _ _ (gets-Keeps _) (λ goal.
        option-Keeps goal _ _ (pure-Keeps tt) (λ g. bind-Keeps _ _ (erase_goal-Tracked id) (λ _.
          if-Keeps (is_empty g.payload.request_id) _ _ (pure-Keeps tt) (
            bind-Keeps _ _ (persist-Tracked g.payload _ 0 400 _)
              (λ _. bind-Keeps _ _ (record_state-Tracked id _ 0 400 _) (λ _. pure-Keeps tt))))))

    on_result-Tracked :
        (id : Text) (result : Option WorkflowResult)
        → Keeps Holding (on_workflow_result l h capacity id result)
    unfolding on_workflow_result
    on_result-Tracked id result = bind-Keeps _ _ (record_state-Tracked id _ _ _ _) (λ _.
        bind-Keeps _ _ (gets-Keeps _) (λ goal. bind-Keeps _ _ (erase_goal-Tracked id) (λ _.
          option-Keeps goal _ _ (pure-Keeps tt) (λ g.
            if-Keeps (is_empty g.payload.request_id) _ _ (pure-Keeps tt)
              (bind-Keeps _ _ (persist-Tracked g.payload _ _ _ _) (λ _. pure-Keeps tt))))))

    pub stop_accepting-Tracked : Keeps Holding (stop_accepting l h capacity)
    unfolding stop_accepting
    stop_accepting-Tracked = change-Tracked l lawful capacity fact _ (λ s. (refl, refl))

    pub on_event-Tracked : (e : GatewayEvent) → Keeps Holding (on_event l h capacity e)
    unfolding on_event
    on_event-Tracked (goal_responds id true) = on_accepted-Tracked id
    on_event-Tracked (goal_responds id false) = on_refused-Tracked id
    on_event-Tracked (goal_ends id result) = on_result-Tracked id result
    on_event-Tracked stops = stop_accepting-Tracked

    run_events-Tracked : (es : List GatewayEvent) → Keeps Holding (run_events l h capacity es)
    unfolding run_events
    run_events-Tracked [] = pure-Keeps tt
    run_events-Tracked (e ∷ es) = bind-Keeps _ _ (on_event-Tracked e) (λ _. run_events-Tracked es)

    pub yield_turn-Tracked : Keeps Holding (yield_turn l h capacity)
    unfolding yield_turn
    yield_turn-Tracked =
        bind-Keeps _ _ (consult-Tracked l lawful capacity fact events) run_events-Tracked
