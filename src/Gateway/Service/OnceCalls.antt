-- ===== src/Gateway/Service/OnceCalls.antt =====
-- The other calls of runtime_gateway/src/gateway_service.cpp keep what was claimed and sent in order.
use embodied_agent_runtime.Common.{
  ℕ, Bool, true, false, not, Option, none, some, List, [], ◌∷◌, refl,
}
use embodied_agent_runtime.Common.Exec.{Exec}
use embodied_agent_runtime.Common.Exec.Ensures.{
  Ensures, Keeps, pure-Ensures, bind-Ensures, Keeps-Ensures, Ensures-Keeps, pure-Keeps, throw-Keeps,
  if-Keeps, gets-Keeps, bind-Keeps, option-Keeps,
}
use embodied_agent_runtime.Common.Text.{Text, is_empty}
use embodied_agent_runtime.Gateway.Request.{RequestRecord, is_terminal_state}
use embodied_agent_runtime.Gateway.Ledger.{IdempotencyRecord, Ledger, IsLedger}
use embodied_agent_runtime.Gateway.AtMostOnce.{keep-IsHeld}
use embodied_agent_runtime.Gateway.Service.Host.{GatewayHost, PendingGoal, GatewayState}
use embodied_agent_runtime.Gateway.Service.State.{dispatch_workflow_cancel, yield_turn}
use embodied_agent_runtime.Gateway.Service.Calls.{
  holds_handle, active_task, cancel_handle, request_cancel, after_resolve, cancel_known,
  cancel_workflow, get_task, resolve_known, resolve, resolve_request,
}
use embodied_agent_runtime.Gateway.Service.Shutdown.{
  request_ids, to_cancel, all_failed, record_canceling, dispatch_cancels, drain_outcome,
  cancel_active, clear_requests,
}
use embodied_agent_runtime.Gateway.Service.Once.{
  anything, anything-IsStable, Written, unwritten-Tracked, change-Tracked, venture-Tracked,
  on_store-Tracked, on_store-Written, concludes-Tracked,
}
use embodied_agent_runtime.Gateway.Service.OnceState.{
  resolve_stored-IsHeld_other, on_goal-Tracked, dispatch_cancel-Tracked,
}
use embodied_agent_runtime.Gateway.Service.OnceAnswer.{
  Any, yield_turn-Any, record_state-Any, consult-Any,
}

module _ (l : Ledger) (lawful : IsLedger l) (capacity : ℕ) (h : GatewayHost) where
  open h use {World, what, clock_ns, recorded_task, before_cancel_lookup, before_cancel_dispatch}

  abbrev Kept : {A : Type 0} → Exec (GatewayState World l.Store) A → Type 0
  Kept m = Keeps (Any l lawful capacity h) m

  yield-Kept : Kept (yield_turn l h capacity)
  yield-Kept = yield_turn-Any l lawful capacity h

  dispatch-Kept : (id : Text) → Kept (dispatch_workflow_cancel l h capacity id)
  dispatch-Kept id = dispatch_cancel-Tracked l lawful capacity h anything anything-IsStable id

  cancel_handle-Kept : (id : Text) → Kept (cancel_handle l h capacity id)
  unfolding cancel_handle
  cancel_handle-Kept id =
      bind-Keeps _ _ (venture-Tracked l lawful capacity anything before_cancel_dispatch) (λ _.
        bind-Keeps _ _ yield-Kept (λ _. bind-Keeps _ _ (dispatch-Kept id) (λ sent.
          if-Keeps sent _ _
            (bind-Keeps _ _ yield-Kept
              (λ _. bind-Keeps _ _ (gets-Keeps _) (λ latest. pure-Keeps _)))
            (pure-Keeps _))))

  request_cancel-Kept :
      (id : Text) (r : RequestRecord) (goal : Option PendingGoal)
      → Kept (request_cancel l h capacity id r goal)
  unfolding request_cancel
  request_cancel-Kept id r none = pure-Keeps false
  request_cancel-Kept id r (some g) =
      bind-Keeps _ _ (on_goal-Tracked l lawful capacity h anything anything-IsStable id _)
        (λ _. record_state-Any l lawful capacity h id _ r.outcome r.error_code _)

  cancel_known-Kept : (id : Text) (r : RequestRecord) → Kept (cancel_known l h capacity id r)
  unfolding cancel_known
  cancel_known-Kept id r =
      bind-Keeps _ _ (venture-Tracked l lawful capacity anything before_cancel_lookup) (λ _.
        bind-Keeps _ _ yield-Kept (λ _. bind-Keeps _ _ (gets-Keeps _) (λ goal.
          bind-Keeps _ _ (request_cancel-Kept id r goal) (λ _.
            if-Keeps (holds_handle goal) _ _ (cancel_handle-Kept id) (
              bind-Keeps _ _ yield-Kept
                (λ _. bind-Keeps _ _ (gets-Keeps _) (λ latest. pure-Keeps _)))))))

  pub cancel_workflow-Kept : (id : Text) → Kept (cancel_workflow l h capacity id)
  unfolding cancel_workflow
  cancel_workflow-Kept id = if-Keeps (is_empty id) _ _ (pure-Keeps _) (
      bind-Keeps _ _ yield-Kept (λ _.
        bind-Keeps _ _ (gets-Keeps _)
          (λ known. option-Keeps known _ _ (pure-Keeps _) (cancel_known-Kept id))))

  pub get_task-Kept : (task_id : Text) → Kept (get_task l h capacity task_id)
  unfolding get_task
  get_task-Kept task_id = if-Keeps (is_empty task_id) _ _ (pure-Keeps _) (
      bind-Keeps _ _ yield-Kept (λ _. bind-Keeps _ _ (gets-Keeps _) (λ memory.
        option-Keeps (active_task memory) _ _
          (bind-Keeps _ _ yield-Kept (λ _.
            bind-Keeps _ _ (consult-Any l lawful capacity h (recorded_task task_id))
              (λ row. pure-Keeps _)))
          (λ r. pure-Keeps _))))

  after_resolve-Kept :
      (id state message : Text) (written : Bool)
      → Ensures
          (Written l lawful capacity anything id written)
          (after_resolve l h capacity id state message written)
          (λ _. Any l lawful capacity h)
          (Any l lawful capacity h)
  unfolding after_resolve
  after_resolve-Kept id state message true =
      bind-Ensures _ _ (concludes-Tracked l lawful capacity anything anything-IsStable id true)
        (λ _. Keeps-Ensures (
          bind-Keeps _ _ yield-Kept (λ _.
            bind-Keeps _ _ (record_state-Any l lawful capacity h id state 0 0 message)
              (λ marked. pure-Keeps _))))
  after_resolve-Kept id state message false =
      pure-Ensures _ (unwritten-Tracked l lawful capacity anything id)

  resolve_known-Kept :
      (id state message : Text) (stored : IdempotencyRecord)
      → Kept (resolve_known l h capacity id state message stored)
  unfolding resolve_known
  resolve_known-Kept id state message stored =
      if-Keeps (is_terminal_state stored.state) _ _ (pure-Keeps _) (
        bind-Keeps _ _ yield-Kept (λ _.
          bind-Keeps _ _ (consult-Any l lawful capacity h clock_ns) (λ now. Ensures-Keeps (
            bind-Ensures _ _
              (on_store-Written l lawful capacity anything id _ (
                resolve_stored-IsHeld_other l lawful capacity id stored.fingerprint state 0 message
                  now))
              (after_resolve-Kept id state message)))))

  resolve-Kept : (id state message : Text) → Kept (resolve l h capacity id state message)
  unfolding resolve
  resolve-Kept id state message =
      bind-Keeps _ _
        (on_store-Tracked l lawful capacity anything _ (λ j t.
          keep-IsHeld l lawful capacity j t (l.get_idempotency id t).1 (lawful.get_keeps j id t)))
        (λ found.
          option-Keeps found _ _
            (bind-Keeps _ _ (consult-Any l lawful capacity h what) (λ error. pure-Keeps _))
            (λ o. option-Keeps o _ _ (pure-Keeps _) (resolve_known-Kept id state message)))

  pub resolve_request-Kept :
      (id state message : Text) → Kept (resolve_request l h capacity id state message)
  unfolding resolve_request
  resolve_request-Kept id state message = if-Keeps (is_empty id) _ _ (pure-Keeps _) (
      if-Keeps (not (is_terminal_state state)) _ _ (pure-Keeps _) (
        bind-Keeps _ _ yield-Kept
          (λ _. bind-Keeps _ _ (resolve-Kept id state message) (λ resolved. pure-Keeps _))))

  record_canceling-Kept : (ids : List Text) → Kept (record_canceling l h capacity ids)
  unfolding record_canceling
  record_canceling-Kept [] = pure-Keeps tt
  record_canceling-Kept (id ∷ ids) =
      bind-Keeps _ _ (record_state-Any l lawful capacity h id _ 0 0 _)
        (λ _. record_canceling-Kept ids)

  dispatch_cancels-Kept : (ids : List Text) → Kept (dispatch_cancels l h capacity ids)
  unfolding dispatch_cancels
  dispatch_cancels-Kept [] = pure-Keeps tt
  dispatch_cancels-Kept (id ∷ ids) =
      bind-Keeps _ _ yield-Kept
        (λ _. bind-Keeps _ _ (dispatch-Kept id) (λ sent. dispatch_cancels-Kept ids))

  drain_outcome-Kept : (goals : List (Text × PendingGoal)) → Kept (drain_outcome l h capacity goals)
  drain_outcome-Kept [] = pure-Keeps tt
  drain_outcome-Kept ((id, g) ∷ goals) =
      if-Keeps (all_failed ((id, g) ∷ goals)) _ _ (throw-Keeps _) (throw-Keeps _)

  pub cancel_active-Kept : Kept (cancel_active l h capacity)
  unfolding cancel_active
  cancel_active-Kept = bind-Keeps _ _ yield-Kept (λ _. bind-Keeps _ _ (gets-Keeps _) (λ goals.
      bind-Keeps _ _ (change-Tracked l lawful capacity anything _ (λ s. (refl, refl))) (λ _.
        bind-Keeps _ _ (record_canceling-Kept (request_ids goals)) (λ _.
          bind-Keeps _ _ (dispatch_cancels-Kept (to_cancel goals)) (λ _.
            bind-Keeps _ _ yield-Kept (λ _. bind-Keeps _ _ (gets-Keeps _) (λ drained.
              bind-Keeps _ _
                (if-Keeps drained _ _ (pure-Keeps tt) (
                  bind-Keeps _ _ (change-Tracked l lawful capacity anything _ (λ s. (refl, refl)))
                    (λ _. yield-Kept)))
                (λ _. bind-Keeps _ _ (gets-Keeps _) drain_outcome-Kept))))))))

  pub clear_requests-Kept : Kept (clear_requests l h capacity)
  unfolding clear_requests
  clear_requests-Kept =
      bind-Keeps _ _ yield-Kept
        (λ _. change-Tracked l lawful capacity anything _ (λ s. (refl, refl)))
