-- ===== src/Device/Node.antt =====
-- virtual_can_device/src/virtual_can_device_node.cpp: the constructor's checks and the handling of one
-- frame. The delay of mode delay_ack changes no state; log lines are left out.
use embodied_agent_runtime.Common.{
  ℕ, ◌+◌, ◌%◌, ◌^◌, Bool, not, ◌&&◌, ◌||◌, Option, none, some, List, [], ◌∷◌, ◌++◌, length, ltb,
  leb, ◌==◌, if◌then◌else◌,
}
use mathlib.Core.Option
use embodied_agent_runtime.Common.Int.{ℤ, pos_part, same_integer}
use embodied_agent_runtime.Common.Map.{nat_key, find, erase, emplace}
use embodied_agent_runtime.Common.Text.{Text, text, text_eq}
use embodied_agent_runtime.Can.Protocol.{
  RawFrame, Command, Response, encode_response, decode_command, stop_opcode,
}
use embodied_agent_runtime.Bridge.Policy.{is_nonpositive}
use embodied_agent_runtime.Bridge.Host.{mode_normal, mode_busy, mode_fault, mode_stopped}

-- The values of `mode_` that the constructor lets pass.
pub data Mode : Type 0 where
  normal delay_ack drop_ack drop_stop_ack reject fault : Mode

-- `is_supported_mode`, with the mode that the text names.
unfoldable pub supported_mode : Text → Option Mode
supported_mode mode =
    if text_eq mode (text "normal")
    then some normal
    else if text_eq mode (text "delay_ack")
    then some delay_ack
    else if text_eq mode (text "drop_ack")
    then some drop_ack
    else if text_eq mode (text "drop_stop_ack")
    then some drop_stop_ack
    else if text_eq mode (text "reject")
    then some reject
    else if text_eq mode (text "fault")
    then some fault
    else none

pub record CacheEntry : Type 0 where
  pub command : Command
  pub response : Option Response

pub record VirtualCanDevice : Type 0 where
  pub mode : Mode
  pub replay_cache_capacity : ℕ
  pub response_count : ℕ
  pub cache_order : List ℕ
  pub cache : List (ℕ × CacheEntry)

-- The members as they are initialised.
abbrev pub initial_device : ℕ → Mode → VirtualCanDevice
initial_device capacity mode = record {
  mode = mode;
  replay_cache_capacity = capacity;
  response_count = 0;
  cache_order = [];
  cache = [];
}

-- The constructor: `none` where it throws over its parameters.
unfoldable pub construct_device : Text → ℤ → Option VirtualCanDevice
construct_device mode configured_cache_capacity =
    if is_nonpositive configured_cache_capacity || ltb 65536 (pos_part configured_cache_capacity)
    then none
    else Option.map (initial_device (pos_part configured_cache_capacity)) (supported_mode mode)

-- What the node lets out: a response frame, and a DeviceState message.
pub data Output : Type 0 where
  answers : RawFrame → Output
  publishes : ℕ → ℕ → ℕ → Output

-- `Command::operator==`.
unfoldable pub same_command : Command → Command → Bool
same_command a b =
    a.command_id == b.command_id && (a.opcode == b.opcode && same_integer a.argument b.argument)

-- The eviction of the oldest entry; the order is never empty where the cache is full.
unfoldable pub evict_front : List ℕ → VirtualCanDevice → VirtualCanDevice
evict_front [] d = d
evict_front (oldest ∷ order) d = record d { cache = erase oldest d.cache; cache_order = order }

unfoldable pub cache_command : Command → Option Response → VirtualCanDevice → VirtualCanDevice
cache_command command response d =
    let d' =
      if leb d.replay_cache_capacity (length d.cache) then evict_front d.cache_order d else d in
    record d' {
      cache =
          emplace command.command_id (record { command = command; response = response }) d'.cache;
      cache_order = d'.cache_order ++ (command.command_id ∷ []);
    }

-- `written` says whether the socket took the frame.
unfoldable pub send_response : Bool → Response → VirtualCanDevice → VirtualCanDevice × List Output
send_response written response d =
    if written
    then (
      record d { response_count = (d.response_count + 1) % 2 ^ 32 },
      answers (encode_response response) ∷ [],
    )
    else (d, [])

-- A response with no detail bytes.
abbrev pub plain : ℕ → ℕ → ℕ → Response
plain command_id result_code device_mode = record {
  command_id = command_id;
  result_code = result_code;
  device_mode = device_mode;
  detail0 = 0;
  detail1 = 0;
  detail2 = 0;
}

-- The rest of `process_command` once the response is decided: cache, send and publish, or only cache
-- and publish where the answer is dropped.
unfoldable pub reply :
    Bool → Command → Option Response → VirtualCanDevice → VirtualCanDevice × List Output
reply written command none d =
    (cache_command command none d, publishes command.command_id mode_busy 0 ∷ [])
reply written command (some response) d =
    let (d', sent) = send_response written response (cache_command command (some response) d) in
    let fault_code = if response.result_code == 2 then 1 else 0 in
    (d', sent ++ (publishes command.command_id response.device_mode fault_code ∷ []))

-- The answer to a command that is not cached; `none` where the mode drops it.
unfoldable pub stop_answer : Mode → Command → Option Response
stop_answer drop_stop_ack command = none
stop_answer _ command = some (plain command.command_id 0 mode_stopped)

unfoldable pub other_answer : Mode → Command → Option Response
other_answer drop_ack command = none
other_answer drop_stop_ack command = none
other_answer reject command = some (plain command.command_id 1 mode_normal)
other_answer fault command = some (plain command.command_id 2 mode_fault)
other_answer _ command = some (plain command.command_id 0 mode_normal)

abbrev pub resend : Bool → Option Response → VirtualCanDevice → VirtualCanDevice × List Output
resend written none d = (d, [])
resend written (some r) d = send_response written r d

-- Another command under a cached id.
unfoldable pub conflict_reply : Bool → Command → VirtualCanDevice → VirtualCanDevice × List Output
conflict_reply written command d =
    let (d', sent) = send_response written (plain command.command_id 3 mode_fault) d in
    (d', sent ++ (publishes command.command_id mode_fault 3 ∷ []))

-- A command whose id is cached.
unfoldable pub process_cached :
    Bool → Command → CacheEntry → VirtualCanDevice → VirtualCanDevice × List Output
process_cached written command cached d =
    if not (same_command cached.command command)
    then conflict_reply written command d
    else resend written cached.response d

-- A command whose id is not cached.
unfoldable pub answer : Mode → Command → Option Response
answer mode command =
    if command.opcode == stop_opcode then stop_answer mode command else other_answer mode command

unfoldable pub process_new : Bool → Command → VirtualCanDevice → VirtualCanDevice × List Output
process_new written command d = reply written command (answer d.mode command) d

unfoldable pub process_command : Bool → Command → VirtualCanDevice → VirtualCanDevice × List Output
process_command written command d = elim (find command.command_id d.cache) [
  | some cached ↦ process_cached written command cached d
  | none ↦ process_new written command d
]

abbrev pub on_command : Bool → Option Command → VirtualCanDevice → VirtualCanDevice × List Output
on_command written none d = (d, [])
on_command written (some c) d = process_command written c d

-- One round of `receive_loop` with a frame: one that does not decode is ignored.
unfoldable pub receive_frame : Bool → RawFrame → VirtualCanDevice → VirtualCanDevice × List Output
receive_frame written frame d = on_command written (decode_command frame).0 d
