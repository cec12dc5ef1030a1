-- ===== src/Orchestrator/ReadyState.antt =====
-- task_orchestrator/src/ready_state.cpp, with times in nanoseconds of the steady clock.
use embodied_agent_runtime.Common.{ℕ, ◌-◌, ◌*◌, Bool, false, ◌&&◌, Option, none, some, leb}

pub record ReadyState : Type 0 where
  pub received_at : Option ℕ
  pub ready : Bool

unfoldable pub update_ready : Bool → ℕ → ReadyState → ReadyState
update_ready ready received_at r = record { received_at = some received_at; ready = ready }

-- `usable`; a message from after `now` has a negative age, which here is 0.
abbrev pub is_recent : ℕ → ℕ → Option ℕ → Bool
is_recent now stale_after_ms none = false
is_recent now stale_after_ms (some received_at) = leb (now - received_at) (stale_after_ms * 1000000)

unfoldable pub usable : ℕ → ℕ → ReadyState → Bool
usable now stale_after_ms r = r.ready && is_recent now stale_after_ms r.received_at
