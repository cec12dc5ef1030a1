-- ===== src/Gateway/Service/Shutdown.antt =====
-- The shutdown of runtime_gateway/src/gateway_service.cpp, and its counters.
use embodied_agent_runtime.Common.{ℕ, Bool, true, not, ◌&&◌, List, [], ◌∷◌, ◌++◌, if◌then◌else◌}
use embodied_agent_runtime.Common.Map.{text_key}
use embodied_agent_runtime.Common.Exec.{pure, throw, gets, change, ◌>>=◌, ◌>>◌}
use embodied_agent_runtime.Common.Text.{Text, text}
use embodied_agent_runtime.Gateway.Registry.{clear, size}
use embodied_agent_runtime.Gateway.Ledger.{Ledger}
use embodied_agent_runtime.Gateway.Service.Host.{GatewayHost, PendingGoal, GatewayState}
use embodied_agent_runtime.Gateway.Service.State.{
  record_state, Service, dispatch_workflow_cancel, yield_turn,
}

-- Every goal is marked.
abbrev pub mark_all : List (Text × PendingGoal) → List (Text × PendingGoal)
mark_all [] = []
mark_all ((id, g) ∷ goals) = (id, record g { cancel_requested = true }) ∷ mark_all goals

-- The goals to cancel.
unfoldable pub to_cancel : List (Text × PendingGoal) → List Text
to_cancel [] = []
to_cancel ((id, g) ∷ goals) =
    if g.has_handle && not g.cancel_dispatched then id ∷ to_cancel goals else to_cancel goals

abbrev pub request_ids : List (Text × PendingGoal) → List Text
request_ids [] = []
request_ids ((id, g) ∷ goals) = id ∷ request_ids goals

-- The ids, separated by commas.
unfoldable pub join_ids : List Text → Text
join_ids [] = text ""
join_ids (id ∷ []) = id
join_ids (id ∷ ids) = id ++ (text "," ++ join_ids ids)

-- Whether the wait for the cancellations is over.
unfoldable pub all_failed : List (Text × PendingGoal) → Bool
all_failed [] = true
all_failed ((id, g) ∷ goals) = g.cancel_failed && all_failed goals

module _ (l : Ledger) (h : GatewayHost) (capacity : ℕ) where
  open h use {World, pause}

  -- The records of the goals that `cancel_active` marks.
  unfoldable pub record_canceling : List Text → Service l h capacity (Unit {0})
  record_canceling [] = pure tt
  record_canceling (id ∷ ids) = do
    marked ← record_state id (text "CANCELING") 0 0 (text "shutdown cancel requested")
    record_canceling ids

  unfoldable pub dispatch_cancels : List Text → Service l h capacity (Unit {0})
  dispatch_cancels [] = pure tt
  dispatch_cancels (id ∷ ids) = do
    yield_turn l h capacity
    sent ← dispatch_workflow_cancel l h capacity id
    dispatch_cancels ids

  abbrev pub drain_outcome : List (Text × PendingGoal) → Service l h capacity (Unit {0})
  drain_outcome [] = pure tt
  drain_outcome ((id, g) ∷ goals) =
      if all_failed ((id, g) ∷ goals)
      then throw (text "failed to dispatch cancel for request " ++ id)
      else throw (
          text "timed out waiting for workflow cancellation: "
          ++ join_ids (request_ids ((id, g) ∷ goals)))

  -- The order in which the map is run through is left open: here it is that of the list.
  unfoldable pub cancel_active : Service l h capacity (Unit {0})
  cancel_active = do
    yield_turn l h capacity
    goals ← gets (λ s. s.goals)
    change (λ s. record s { stopping = true; goals = mark_all s.goals })
    record_canceling (request_ids goals)
    dispatch_cancels (to_cancel goals)
    yield_turn l h capacity
    drained ← gets (λ s. all_failed s.goals)
    if drained
        then pure tt
        else (do change (λ s. record s { world = pause 5000 s.world }); yield_turn l h capacity)
    rest ← gets (λ s. s.goals)
    drain_outcome rest

  unfoldable pub clear_requests : Service l h capacity (Unit {0})
  clear_requests = do
    yield_turn l h capacity
    change (λ s. record s { registry = clear s.registry })

  unfoldable pub active_request_count : GatewayState World l.Store → ℕ
  active_request_count s = size s.registry

  unfoldable pub cancel_dispatch_count : GatewayState World l.Store → ℕ
  cancel_dispatch_count s = s.cancel_dispatches
