-- ===== src/Bridge/Wait.antt =====
-- `receive_response` of device_bridge/src/device_bridge_node.cpp: wait for the answer to one command.
use embodied_agent_runtime.Common.{
  ℕ, zero, suc, ◌+◌, ◌-◌, ◌*◌, ◌/◌, min, Bool, true, false, not, Option, none, some, ◌==◌, leb,
  if◌then◌else◌,
}
use embodied_agent_runtime.Common.Text.{Text, text}
use embodied_agent_runtime.Can.Protocol.{Response, decode_response}
use embodied_agent_runtime.Bridge.Host.{Host, Arrival, nothing, failed, arrived}

-- `WaitResult`, with the out-parameters `response` and `error` in the cases that set them.
pub data WaitResult : Type 0 where
  response : Response → WaitResult
  timeout : WaitResult
  canceled : WaitResult
  transport_error : Text → WaitResult
  shutdown : Text → WaitResult

-- What the loop does with a decoded frame; `none` is `continue`.
unfoldable pub match_response : ℕ → Option Response → Option WaitResult
match_response expected none = none
match_response expected (some r) = if r.command_id == expected then some (response r) else none

-- What the loop does with the outcome of one `receive`.
unfoldable pub classify : ℕ → Arrival → Option WaitResult
classify expected nothing = none
classify expected (failed e) = some (transport_error e)
classify expected (arrived frame) = match_response expected (decode_response frame).0

module _ (h : Host) where
  open h use {World, alive, canceling, clock, receive}

  -- `observe_cancel && goal_handle->is_canceling()`.
  abbrev pub observed : Bool → World → Bool × World
  observed true w = canceling w
  observed false w = (false, w)

  -- One round of the `while` loop; `none` is `continue`.
  unfoldable pub wait_round : ℕ → ℕ → ℕ → Bool → World → Option WaitResult × World
  wait_round poll_ms expected deadline observe_cancel w =
      let (running, w1) = alive w in
      let (cancel_seen, w2) = observed observe_cancel w1 in
      let (now, w3) = clock w2 in
      let remaining = (deadline - now) / 1000000 in
      let (arrival, w4) = receive (min remaining poll_ms) w3 in
      if not running
      then (some (shutdown (text "bridge is shutting down")), w1)
      else if cancel_seen
      then (some canceled, w2)
      else if leb deadline now
      then (some timeout, w3)
      else (classify expected arrival, w4)

  -- The loop; `none` means that the fuel ran out.
  unfoldable pub wait_loop : ℕ → ℕ → ℕ → ℕ → Bool → World → Option (WaitResult × World)
  wait_loop zero poll_ms expected deadline observe_cancel w = none
  wait_loop (suc fuel) poll_ms expected deadline observe_cancel w =
      let (result, w') = wait_round poll_ms expected deadline observe_cancel w in
      elim result [
        | some r ↦ some (r, w')
        | none ↦ wait_loop fuel poll_ms expected deadline observe_cancel w'
      ]

  unfoldable pub receive_response : ℕ → ℕ → ℕ → ℕ → Bool → World → Option (WaitResult × World)
  receive_response fuel poll_ms expected timeout_ms observe_cancel w =
      let (now, w1) = clock w in
      wait_loop fuel poll_ms expected (now + timeout_ms * 1000000) observe_cancel w1
