-- ===== src/Gateway/Service/OnceAnswer.antt =====
-- The replies and the waits of SubmitWorkflow in runtime_gateway/src/gateway_service.cpp keep what was claimed and
-- sent in order.
use embodied_agent_runtime.Common.{ℕ, Bool, Option, none, some, refl}
use embodied_agent_runtime.Common.Exec.Ensures.{
  Keeps, pure-Keeps, throw-Keeps, if-Keeps, gets-Keeps, bind-Keeps, option-Keeps,
}
use embodied_agent_runtime.Common.Text.{Text}
use embodied_agent_runtime.Gateway.Ledger.{Ledger, IsLedger}
use embodied_agent_runtime.Gateway.Durable.{lookup}
use embodied_agent_runtime.Gateway.AtMostOnce.{IsHeld, keep-IsHeld}
use embodied_agent_runtime.Gateway.Service.Host.{
  SubmitWorkflowRequest, StatusCode, GoalFuture, late, answered, GatewayHost, PendingGoal,
  GatewayState,
}
use embodied_agent_runtime.Gateway.Service.State.{consult, record_state, yield_turn}
use embodied_agent_runtime.Gateway.Service.Submit.{
  initial_record, current_reply, reply_current, withdraw, replay_known, send_failed, response_late,
  response_seen, answer_goal, await_goal,
}
use embodied_agent_runtime.Gateway.Service.Once.{
  anything, anything-IsStable, Tracked, consult-Tracked, on_registry-Tracked, change-Tracked,
  on_store-Tracked,
}
use embodied_agent_runtime.Gateway.Service.OnceState.{
  on_goal-Tracked, erase_goal-Tracked, record_state-Tracked, persist-Tracked,
  dispatch_cancel-Tracked, yield_turn-Tracked,
}

module _ (l : Ledger) (lawful : IsLedger l) (capacity : ℕ) (h : GatewayHost) where
  open h use {
    World, what, server_ready, recorded_task, before_send, send_workflow, await_response, clock_ns,
  }

  abbrev pub Any : GatewayState World l.Store → Type 0
  Any = Tracked l lawful capacity anything

  pub yield_turn-Any : Keeps Any (yield_turn l h capacity)
  yield_turn-Any = yield_turn-Tracked l lawful capacity h anything anything-IsStable

  pub record_state-Any :
      (id state : Text) (outcome error_code : ℕ) (message : Text)
      → Keeps Any (record_state id state outcome error_code message)
  record_state-Any = record_state-Tracked l lawful capacity h anything anything-IsStable

  pub consult-Any : {A : Type 0} (f : World → A × World) → Keeps Any (consult f)
  consult-Any f = consult-Tracked l lawful capacity anything f

  pub current_reply-Any : (id : Text) → Keeps Any (current_reply l h capacity id)
  unfolding current_reply
  current_reply-Any id = bind-Keeps _ _ yield_turn-Any (λ _.
      bind-Keeps _ _ (gets-Keeps _)
        (λ current. option-Keeps current _ _ (throw-Keeps _) (λ r. pure-Keeps _)))

  pub reply_current-Any : (id : Text) → Keeps Any (reply_current l h capacity id)
  unfolding reply_current
  reply_current-Any id = bind-Keeps _ _ (current_reply-Any id) (λ reply. pure-Keeps _)

  pub withdraw-Any :
      (id : Text) (code : StatusCode) (message : Text)
      → Keeps Any (withdraw l h capacity id code message)
  unfolding withdraw
  withdraw-Any id code message = bind-Keeps _ _ yield_turn-Any (λ _.
      bind-Keeps _ _ (on_registry-Tracked l lawful capacity anything _) (λ erased. pure-Keeps _))

  lookup-IsHeld :
      (key id : Text) (t : l.Store)
      → IsHeld l lawful capacity id t
      → IsHeld l lawful capacity id (lookup l capacity key t).1
  unfolding lookup
  lookup-IsHeld key id t =
      keep-IsHeld l lawful capacity id t (l.get_idempotency key t).1 (lawful.get_keeps id key t)

  pub replay_known-Any :
      (request : SubmitWorkflowRequest) → Keeps Any (replay_known l h capacity request)
  unfolding replay_known
  replay_known-Any request = bind-Keeps _ _ yield_turn-Any (λ _.
      bind-Keeps _ _
        (on_store-Tracked l lawful capacity anything _ (lookup-IsHeld request.request_id))
        (λ known.
          option-Keeps known _ _ (bind-Keeps _ _ (consult-Any what) (λ error. throw-Keeps _))
            (λ o. option-Keeps o _ _ (pure-Keeps _) (λ outcome. pure-Keeps _))))

  pub send_failed-Any :
      (request : SubmitWorkflowRequest) (error : Text)
      → Keeps Any (send_failed l h capacity request error)
  unfolding send_failed
  send_failed-Any request error = bind-Keeps _ _ yield_turn-Any (λ _.
      bind-Keeps _ _
        (erase_goal-Tracked l lawful capacity h anything anything-IsStable request.request_id)
        (λ _. bind-Keeps _ _ (record_state-Any request.request_id _ 0 503 error) (λ _.
          bind-Keeps _ _ yield_turn-Any (λ _.
            bind-Keeps _ _
              (persist-Tracked l lawful capacity h anything anything-IsStable
                (initial_record request) _ 0 503 error)
              (λ _. pure-Keeps _)))))

  pub response_late-Any :
      (id : Text) (goal : Option PendingGoal) → Keeps Any (response_late l h capacity id goal)
  unfolding response_late
  response_late-Any id none = pure-Keeps _
  response_late-Any id (some g) =
      bind-Keeps _ _ (on_goal-Tracked l lawful capacity h anything anything-IsStable id _) (λ _.
        bind-Keeps _ _
          (if-Keeps g.cancel_requested _ _ (pure-Keeps tt)
            (bind-Keeps _ _ (record_state-Any id _ 0 504 _) (λ _. pure-Keeps tt)))
          (λ _.
            bind-Keeps _ _
              (if-Keeps g.has_handle _ _
                (bind-Keeps _ _ yield_turn-Any (λ _.
                  bind-Keeps _ _
                    (dispatch_cancel-Tracked l lawful capacity h anything anything-IsStable id)
                    (λ _. pure-Keeps tt)))
                (pure-Keeps tt))
              (λ _. pure-Keeps _)))

  pub response_seen-Any :
      (id : Text) (handle : Bool) → Keeps Any (response_seen l h capacity id handle)
  unfolding response_seen
  response_seen-Any id handle = bind-Keeps _ _ (gets-Keeps _) (λ awaited.
      bind-Keeps _ _
        (if-Keeps awaited _ _
          (bind-Keeps _ _ (change-Tracked l lawful capacity anything _ (λ s. (refl, refl)))
            (λ _. yield_turn-Any))
          (pure-Keeps tt))
        (λ _. bind-Keeps _ _ (current_reply-Any id) (λ reply. pure-Keeps _)))

  pub answer_goal-Any :
      (id : Text) (goal : Option PendingGoal) (future : GoalFuture)
      → Keeps Any (answer_goal l h capacity id goal future)
  unfolding answer_goal
  answer_goal-Any id goal late = response_late-Any id goal
  answer_goal-Any id goal (answered handle) = response_seen-Any id handle

  pub await_goal-Any : (id : Text) → Keeps Any (await_goal l h capacity id)
  unfolding await_goal
  await_goal-Any id = bind-Keeps _ _ (consult-Any await_response) (λ future.
      bind-Keeps _ _ yield_turn-Any
        (λ _. bind-Keeps _ _ (gets-Keeps _) (λ goal. answer_goal-Any id goal future)))
