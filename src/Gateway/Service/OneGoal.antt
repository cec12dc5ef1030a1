-- ===== src/Gateway/Service/OneGoal.antt =====
-- Runs of the calls of runtime_gateway/src/gateway_service.cpp, and how often a request's goal is sent in one.
use embodied_agent_runtime.Common.{
  ℕ, ◌+◌, ◌≤◌, true, false, List, [], ◌∷◌, if◌then◌else◌, ◌≡◌, refl, arith, inl, inr, Bool-cases,
}
use embodied_agent_runtime.Common.Exec.{Exec}
use embodied_agent_runtime.Common.Exec.Ensures.{Keeps, Keeps_after}
use embodied_agent_runtime.Common.Text.{Text, text_eq, text_eq_sound}
use embodied_agent_runtime.Gateway.Ledger.{Ledger, IsLedger}
use embodied_agent_runtime.Gateway.Service.Host.{
  SubmitWorkflowRequest, GatewayEvent, GatewayHost, GatewayEffect, claims, concludes, sends,
  cancels_goal, GatewayState,
}
use embodied_agent_runtime.Gateway.Service.State.{stop_accepting, on_event}
use embodied_agent_runtime.Gateway.Service.Submit.{submit_workflow}
use embodied_agent_runtime.Gateway.Service.Calls.{cancel_workflow, get_task, resolve_request}
use embodied_agent_runtime.Gateway.Service.Shutdown.{cancel_active, clear_requests}
use embodied_agent_runtime.Gateway.Service.Once.{
  is_open, is_unspent, is_once, anything, anything-IsStable,
}
use embodied_agent_runtime.Gateway.Service.OnceState.{on_event-Tracked, stop_accepting-Tracked}
use embodied_agent_runtime.Gateway.Service.OnceSubmit.{submit_workflow-Any}
use embodied_agent_runtime.Gateway.Service.OnceAnswer.{Any}
use embodied_agent_runtime.Gateway.Service.OnceCalls.{
  cancel_workflow-Kept, get_task-Kept, resolve_request-Kept, cancel_active-Kept,
  clear_requests-Kept,
}

-- A call of the service, or what another thread does between two calls.
pub data ServiceCall : Type 0 where
  submits : SubmitWorkflowRequest → ServiceCall
  cancels : Text → ServiceCall
  gets_task : Text → ServiceCall
  resolves : Text → Text → Text → ServiceCall
  stops_accepting : ServiceCall
  cancels_active : ServiceCall
  clears : ServiceCall
  happens : GatewayEvent → ServiceCall

unfoldable pub count_sends : Text → List GatewayEffect → ℕ
count_sends id [] = 0
count_sends id (sends g ∷ log) = (if text_eq id g.request_id then 1 else 0) + count_sends id log
count_sends id (claims j ∷ log) = count_sends id log
count_sends id (concludes j ∷ log) = count_sends id log
count_sends id (cancels_goal j ∷ log) = count_sends id log

unfoldable pub count_claims : Text → List GatewayEffect → ℕ
count_claims id [] = 0
count_claims id (claims j ∷ log) = (if text_eq id j then 1 else 0) + count_claims id log
count_claims id (sends g ∷ log) = count_claims id log
count_claims id (concludes j ∷ log) = count_claims id log
count_claims id (cancels_goal j ∷ log) = count_claims id log

unfoldable pub count_concludes : Text → List GatewayEffect → ℕ
count_concludes id [] = 0
count_concludes id (concludes j ∷ log) = (if text_eq id j then 1 else 0) + count_concludes id log
count_concludes id (sends g ∷ log) = count_concludes id log
count_concludes id (claims j ∷ log) = count_concludes id log
count_concludes id (cancels_goal j ∷ log) = count_concludes id log

sends_le :
    (id : Text) (log : List GatewayEffect)
    → is_once log ≡ true
    → count_sends id log + (if is_unspent id log then 1 else 0) ≤ count_claims id log
unfolding count_sends count_claims is_once is_unspent
sends_le id [] once = omega arith
sends_le id (claims j ∷ log) once =
    let rest : is_once log ≡ true = ground (arith, once) in ground (arith, sends_le id log rest)
sends_le id (concludes j ∷ log) once = sends_le id log once
sends_le id (sends g ∷ log) once =
    let rest : is_once log ≡ true = ground (arith, once) in
    let unspent : is_unspent g.request_id log ≡ true = ground (arith, once) in
    elim (Bool-cases (text_eq id g.request_id)) [
      | inl same ↦
          let here : is_unspent id log ≡ true = rw (text_eq_sound id g.request_id same) unspent in
          ground (arith, sends_le id log rest, here, same)
      | inr other ↦ ground (arith, sends_le id log rest, other)
    ]
sends_le id (cancels_goal j ∷ log) once = sends_le id log once

claims_le :
    (id : Text) (log : List GatewayEffect)
    → is_once log ≡ true
    → count_claims id log ≤ count_concludes id log + (if is_open id log then 1 else 0)
unfolding count_concludes count_claims is_once is_open
claims_le id [] once = omega arith
claims_le id (claims j ∷ log) once =
    let rest : is_once log ≡ true = ground (arith, once) in
    let fresh : is_open j log ≡ false = ground (arith, once) in
    elim (Bool-cases (text_eq id j)) [
      | inl same ↦
          let here : is_open id log ≡ false = rw (text_eq_sound id j same) fresh in
          ground (arith, claims_le id log rest, here, same)
      | inr other ↦ ground (arith, claims_le id log rest, other)
    ]
claims_le id (concludes j ∷ log) once = ground (arith, claims_le id log once)
claims_le id (sends g ∷ log) once = claims_le id log (ground (arith, once))
claims_le id (cancels_goal j ∷ log) once = claims_le id log once

module _ (l : Ledger) (h : GatewayHost) (capacity : ℕ) where
  open h use {World}

  abbrev State : Type 0
  State = GatewayState World l.Store

  -- What a call leaves, whether it returns or throws.
  abbrev left_by : {A : Type 0} → Exec State A → State → State
  left_by m s = (m s).1

  unfoldable pub serve : ServiceCall → State → State
  serve (submits request) = left_by (submit_workflow l h capacity request)
  serve (cancels id) = left_by (cancel_workflow l h capacity id)
  serve (gets_task task_id) = left_by (get_task l h capacity task_id)
  serve (resolves id state message) = left_by (resolve_request l h capacity id state message)
  serve stops_accepting = left_by (stop_accepting l h capacity)
  serve cancels_active = left_by (cancel_active l h capacity)
  serve clears = left_by (clear_requests l h capacity)
  serve (happens e) = left_by (on_event l h capacity e)

  unfoldable pub serve_all : List ServiceCall → State → State
  serve_all [] s = s
  serve_all (call ∷ calls) s = serve_all calls (serve call s)

  module _ (lawful : IsLedger l) where
    left_by-Kept :
        {A : Type 0} (m : Exec State A) (s : State)
        → Keeps (Any l lawful capacity h) m
        → Any l lawful capacity h s
        → Any l lawful capacity h (left_by m s)
    left_by-Kept m s k p = Keeps_after _ m s k p

    serve-Kept :
        (call : ServiceCall) (s : State)
        → Any l lawful capacity h s
        → Any l lawful capacity h (serve call s)
    unfolding serve
    serve-Kept (submits request) s =
        left_by-Kept _ s (submit_workflow-Any l lawful capacity h request)
    serve-Kept (cancels id) s = left_by-Kept _ s (cancel_workflow-Kept l lawful capacity h id)
    serve-Kept (gets_task task_id) s = left_by-Kept _ s (get_task-Kept l lawful capacity h task_id)
    serve-Kept (resolves id state message) s =
        left_by-Kept _ s (resolve_request-Kept l lawful capacity h id state message)
    serve-Kept stops_accepting s =
        left_by-Kept _ s (stop_accepting-Tracked l lawful capacity h anything anything-IsStable)
    serve-Kept cancels_active s = left_by-Kept _ s (cancel_active-Kept l lawful capacity h)
    serve-Kept clears s = left_by-Kept _ s (clear_requests-Kept l lawful capacity h)
    serve-Kept (happens e) s =
        left_by-Kept _ s (on_event-Tracked l lawful capacity h anything anything-IsStable e)

    serve_all-Kept :
        (calls : List ServiceCall) (s : State)
        → Any l lawful capacity h s
        → Any l lawful capacity h (serve_all calls s)
    unfolding serve_all
    serve_all-Kept [] s k = k
    serve_all-Kept (call ∷ calls) s k = serve_all-Kept calls (serve call s) (serve-Kept call s k)

    start-Any : (s : State) → s.log ≡ [] → Any l lawful capacity h s
    unfolding is_once is_open
    start-Any s new = record {
      once = rw new refl;
      held = λ id o. absurd (ground (arith, new, o));
      known = refl;
    }

    -- Over every ledger that keeps the store's promises, with any host, after any run of calls, one after
    -- another, that starts with an empty log, whatever callbacks of goals and stops other threads run
    -- between the steps of a call: no request id was claimed again
    -- before its row was concluded, and every goal was sent on a claim of its own.
    pub serve_all-is_once :
        (calls : List ServiceCall) (s : State) → s.log ≡ [] → is_once (serve_all calls s).log ≡ true
    serve_all-is_once calls s new = (serve_all-Kept calls s (start-Any s new)).once

    -- Over every ledger that keeps the store's promises, with any host, after any run of calls, one after
    -- another, that starts with an empty log, whatever callbacks of goals and stops other threads run
    -- between the steps of a call: the goals sent for a request id
    -- are at most one more than the writes that concluded its row.
    pub count_sends_le :
        (calls : List ServiceCall) (s : State) (id : Text)
        → s.log ≡ []
        → count_sends id (serve_all calls s).log ≤ count_concludes id (serve_all calls s).log + 1
    count_sends_le calls s id new =
        let once = serve_all-is_once calls s new in
        ground (
          arith,
          sends_le id (serve_all calls s).log once,
          claims_le id (serve_all calls s).log once,
        )
