-- ===== src/Bridge/Goals.antt =====
-- Which goals device_bridge/src/device_bridge_node.cpp accepts, and how its STOP ids keep apart from
-- the ids of commands.
use embodied_agent_runtime.Common.{
  ℕ, ◌*◌, ◌||◌, ◌≤◌, ◌≡◌, ◌≢◌, ◌↔◌, true, false, none, some, arith, ◌∙◌,
}
use embodied_agent_runtime.Common.Int.{pos}
use embodied_agent_runtime.Can.Protocol.{
  Response, IsResponse, encode_response, application_command_id_max, stop_command_id_min,
}
use embodied_agent_runtime.Can.RoundTrip.{decode_response-encode_response}
use embodied_agent_runtime.Bridge.Policy.{duration_to_milliseconds, IsPositive, nanoseconds}
use embodied_agent_runtime.Bridge.Host.{Goal, DeviceBridge, arrived}
use embodied_agent_runtime.Bridge.Wait.{response, classify, match_response}
use embodied_agent_runtime.Bridge.Node.{
  Parameters, construct, handle_goal, allocate_stop_command_id,
}

-- A goal is accepted exactly when its command id is in [1, 65535], its timeout is a well-formed
-- duration that rounds up to at most the limit, the socket is open and no command is active. An
-- accepted goal makes the bridge active, and nothing else about the bridge changes.
pub handle_goal_iff :
    (goal : Goal) (b : DeviceBridge)
    → (((handle_goal goal b).0 ≡ true) ↔ (
        (1 ≤ goal.command_id)
        × (goal.command_id ≤ 0xFFFF)
        × IsPositive goal.ack_timeout
        × (nanoseconds goal.ack_timeout ≤ b.max_ack_timeout_ms * 1000000)
        × (b.socket_open ≡ true)
        × (b.active_goal ≡ false)))
      × ((handle_goal goal b).1
          ≡ record b { active_goal = b.active_goal || (handle_goal goal b).0 })
unfolding handle_goal duration_to_milliseconds
handle_goal_iff goal b = (ground arith, ground arith)

-- After a goal was accepted every further goal is refused and changes nothing.
handle_goal-handle_goal :
    (goal next : Goal) (b : DeviceBridge)
    → (handle_goal goal b).0 ≡ true
    → handle_goal next (handle_goal goal b).1 ≡ (false, (handle_goal goal b).1)
unfolding handle_goal
handle_goal-handle_goal goal next b h = ground arith

-- The ids from which STOP commands take theirs.
abbrev pub IsStopId : ℕ → Type 0
IsStopId n = (stop_command_id_min ≤ n) × (n ≤ 0xFFFF)

-- A bridge starts in the range of STOP ids and each allocation stays in it, gives the id that it
-- started from, and moves on to another one.
pub allocate_stop_command_id-IsStopId :
    (p : Parameters) (b c : DeviceBridge)
    → construct p ≡ some c
    → IsStopId b.next_stop_command_id
    → IsStopId c.next_stop_command_id
      × IsStopId (allocate_stop_command_id b).0
      × ((allocate_stop_command_id b).0 ≡ b.next_stop_command_id)
      × IsStopId (allocate_stop_command_id b).1.next_stop_command_id
      × ((allocate_stop_command_id b).1.next_stop_command_id ≢ (allocate_stop_command_id b).0)
unfolding construct allocate_stop_command_id
allocate_stop_command_id-IsStopId p b c made h =
    (ground arith, ground arith, ground arith, ground arith, ground arith)

classify-encode_response :
    (expected : ℕ) (r : Response)
    → IsResponse r
    → classify expected (arrived (encode_response r)) ≡ match_response expected (some r)
unfolding classify
classify-encode_response expected r h = rw (decode_response-encode_response r h)

-- While a STOP is out, no answer to a command of the application's range is taken for the STOP's.
pub classify-stop :
    (b : DeviceBridge) (r : Response)
    → IsStopId b.next_stop_command_id
    → IsResponse r
    → r.command_id ≤ application_command_id_max
    → classify (allocate_stop_command_id b).0 (arrived (encode_response r)) ≡ none
unfolding match_response allocate_stop_command_id
classify-stop b r s h low =
    classify-encode_response (allocate_stop_command_id b).0 r h ∙ ground arith

-- A goal whose command id is the bridge's next STOP id is accepted like any other, and then every
-- answer to that command would be taken for the answer to the STOP.
pub classify-stop_overlap :
    (goal : Goal) (b : DeviceBridge) (r : Response) (ms : ℕ)
    → IsStopId b.next_stop_command_id
    → goal.command_id ≡ b.next_stop_command_id
    → duration_to_milliseconds goal.ack_timeout (pos b.max_ack_timeout_ms) ≡ some ms
    → b.socket_open ≡ true
    → b.active_goal ≡ false
    → IsResponse r
    → r.command_id ≡ goal.command_id
    → ((handle_goal goal b).0 ≡ true)
      × (classify (allocate_stop_command_id (handle_goal goal b).1).0 (arrived (encode_response r))
          ≡ some (response r))
unfolding handle_goal match_response allocate_stop_command_id
classify-stop_overlap goal b r ms s same valid open_socket idle h mine =
    (ground arith, classify-encode_response _ r h ∙ ground arith)
