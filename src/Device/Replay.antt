-- ===== src/Device/Replay.antt =====
-- What virtual_can_device/src/virtual_can_device_node.cpp answers when a command id comes again, and what
-- the device bridge makes of its answers.
use embodied_agent_runtime.Common.{
  List, ◌++◌, if◌then◌else◌, ℕ, ◌<◌, ◌^◌, Bool, true, false, Option, none, some, [], ◌∷◌, leb,
  length, ◌==◌, ◌≡◌, ◌≢◌, ◌↔◌, ◌∙◌, refl, ap, arith, inl, inr, Bool-cases, ==_iff,
}
use embodied_agent_runtime.Common.Int.{same_integer_iff}
use embodied_agent_runtime.Common.Map.{nat_key, find, emplace}
use embodied_agent_runtime.Can.Protocol.{
  Command, Response, IsResponse, encode_response, stop_opcode,
}
use embodied_agent_runtime.Can.RoundTrip.{decode_response-encode_response}
use embodied_agent_runtime.Bridge.Host.{arrived, mode_busy, mode_fault, mode_stopped}
use embodied_agent_runtime.Bridge.Wait.{response, classify, match_response}
use embodied_agent_runtime.Device.Node.{
  Mode, normal, delay_ack, drop_ack, drop_stop_ack, reject, fault, CacheEntry, VirtualCanDevice,
  Output, answers, publishes, plain, same_command, cache_command, send_response, stop_answer,
  answer, reply, resend, process_cached, conflict_reply, process_new, process_command,
}
use embodied_agent_runtime.Device.Cache.{find-evict_front-none}

same_command_iff : (a b : Command) → (same_command a b ≡ true) ↔ (a ≡ b)
unfolding same_command
same_command_iff a b = ground (
  arith,
  ==_iff a.command_id b.command_id,
  ==_iff a.opcode b.opcode,
  same_integer_iff a.argument b.argument,
)

-- The entry that a command leaves in the cache.
cached_after :
    (c : Command) (o : Option Response) (d : VirtualCanDevice)
    → find c.command_id d.cache ≡ none
    → find c.command_id (cache_command c o d).cache ≡ some (record { command = c; response = o })
unfolding cache_command find emplace
cached_after c o d new = elim (Bool-cases (leb d.replay_cache_capacity (length d.cache))) [
  | inr room ↦ rw (room, new) (ground (arith, ==_iff c.command_id c.command_id))
  | inl full ↦
      rw (full, find-evict_front-none c.command_id d.cache_order d new)
        (ground (arith, ==_iff c.command_id c.command_id))
]

cache-send_response :
    (w : Bool) (r : Response) (d : VirtualCanDevice) → (send_response w r d).0.cache ≡ d.cache
unfolding send_response
cache-send_response true r d = refl
cache-send_response false r d = refl

cached-reply :
    (w : Bool) (c : Command) (o : Option Response) (d : VirtualCanDevice)
    → find c.command_id d.cache ≡ none
    → find c.command_id (reply w c o d).0.cache ≡ some (record { command = c; response = o })
unfolding reply
cached-reply w c none d new = cached_after c none d new
cached-reply w c (some r) d new =
    ap (find c.command_id) (cache-send_response w r (cache_command c (some r) d))
    ∙ cached_after c (some r) d new

process_command-new :
    (w : Bool) (c : Command) (d : VirtualCanDevice)
    → find c.command_id d.cache ≡ none
    → process_command w c d ≡ process_new w c d
unfolding process_command
process_command-new w c d new = rw (new, process_command) refl

process_command-cached :
    (w : Bool) (c : Command) (cached : CacheEntry) (d : VirtualCanDevice)
    → find c.command_id d.cache ≡ some cached
    → process_command w c d ≡ process_cached w c cached d
unfolding process_command
process_command-cached w c cached d old = rw (old, process_command) refl

process_cached-same :
    (w : Bool) (c : Command) (o : Option Response) (d : VirtualCanDevice)
    → process_cached w c (record { command = c; response = o }) d ≡ resend w o d
unfolding process_cached
process_cached-same w c o d = rw ((same_command_iff c c).1 refl) refl

process_cached-other :
    (w : Bool) (c other : Command) (o : Option Response) (d : VirtualCanDevice)
    → other ≢ c
    → process_cached w other (record { command = c; response = o }) d ≡ conflict_reply w other d
unfolding process_cached conflict_reply
process_cached-other w c other o d differs =
    let differ : same_command c other ≡ false = ground (arith, same_command_iff c other) in
    rw differ refl

cached-process_command :
    (w : Bool) (c : Command) (d : VirtualCanDevice)
    → find c.command_id d.cache ≡ none
    → find c.command_id (process_command w c d).0.cache
      ≡ some (record { command = c; response = answer d.mode c })
unfolding process_new
cached-process_command w c d new =
    ap (λ x. find c.command_id x.0.cache) (process_command-new w c d new)
    ∙ cached-reply w c (answer d.mode c) d new

-- What a frame that the socket takes, or does not, adds to the outputs.
abbrev pub sent : Bool → Option Response → List Output
sent written none = []
sent written (some r) = if written then answers (encode_response r) ∷ [] else []

-- The state that is published after an answer: its mode, with fault code 1 beside result 2; BUSY where
-- the answer is dropped.
abbrev pub state_after : ℕ → Option Response → Output
state_after id none = publishes id mode_busy 0
state_after id (some r) = publishes id r.device_mode (if r.result_code == 2 then 1 else 0)

outputs-reply :
    (w : Bool) (c : Command) (o : Option Response) (d : VirtualCanDevice)
    → (reply w c o d).1 ≡ sent w o ++ (state_after c.command_id o ∷ [])
unfolding reply send_response
outputs-reply w c none d = refl
outputs-reply true c (some r) d = refl
outputs-reply false c (some r) d = refl

outputs-resend :
    (w : Bool) (o : Option Response) (d : VirtualCanDevice) → (resend w o d).1 ≡ sent w o
unfolding send_response
outputs-resend w none d = refl
outputs-resend true (some r) d = refl
outputs-resend false (some r) d = refl

resent_lem :
    (w again : Bool) (c : Command) (d : VirtualCanDevice)
    → find c.command_id d.cache ≡ none
    → process_command again c (process_command w c d).0
      ≡ resend again (answer d.mode c) (process_command w c d).0
resent_lem w again c d new =
    process_command-cached again c (record { command = c; response = answer d.mode c })
      (process_command w c d).0 (cached-process_command w c d new)
    ∙ process_cached-same again c (answer d.mode c) (process_command w c d).0

cache-resend :
    (w : Bool) (o : Option Response) (d : VirtualCanDevice) → (resend w o d).0.cache ≡ d.cache
cache-resend w none d = refl
cache-resend w (some r) d = cache-send_response w r d

-- A command whose id the device does not hold is answered by its mode: the first time by the response of the mode,
-- if it has one and the socket takes the frame, and by a state; sent again as it was, by the same
-- response under the same conditions and by no state, and the cache stays as it is.
pub process_command-process_command :
    (w again : Bool) (c : Command) (d : VirtualCanDevice)
    → find c.command_id d.cache ≡ none
    → ((process_command w c d).1
        ≡ sent w (answer d.mode c) ++ (state_after c.command_id (answer d.mode c) ∷ []))
      × ((process_command again c (process_command w c d).0).1 ≡ sent again (answer d.mode c))
      × ((process_command again c (process_command w c d).0).0.cache
          ≡ (process_command w c d).0.cache)
unfolding process_new
process_command-process_command w again c d new =
    let d' = (process_command w c d).0 in
    let resent = resent_lem w again c d new in
    (
      ap (λ x. x.1) (process_command-new w c d new) ∙ outputs-reply w c (answer d.mode c) d,
      ap (λ x. x.1) resent ∙ outputs-resend again (answer d.mode c) d',
      ap (λ x. x.0.cache) resent ∙ cache-resend again (answer d.mode c) d',
    )

conflict_lem :
    (c : Command) (d : VirtualCanDevice) (w : Bool)
    → ((conflict_reply true c d).1
        ≡ answers (encode_response (plain c.command_id 3 mode_fault))
          ∷ publishes c.command_id mode_fault 3
          ∷ [])
      × ((conflict_reply w c d).0.cache ≡ d.cache)
      × ((conflict_reply w c d).0.cache_order ≡ d.cache_order)
unfolding conflict_reply send_response
conflict_lem c d true = (refl, refl, refl)
conflict_lem c d false = (refl, refl, refl)

other_lem :
    (w again : Bool) (c other : Command) (d : VirtualCanDevice)
    → find c.command_id d.cache ≡ none
    → other.command_id ≡ c.command_id
    → other ≢ c
    → process_command again other (process_command w c d).0
      ≡ conflict_reply again other (process_command w c d).0
other_lem w again c other d new same differs =
    process_command-cached again other (record { command = c; response = answer d.mode c })
      (process_command w c d).0
      (ap (λ k. find k (process_command w c d).0.cache) same ∙ cached-process_command w c d new)
    ∙ process_cached-other again c other (answer d.mode c) (process_command w c d).0 differs

-- Another command under an id that the device has just taken is answered, when the socket takes the
-- frame, by result 3 in mode FAULT, and in any case leaves the cache and its order as they are.
process_command-conflict :
    (w again : Bool) (c other : Command) (d : VirtualCanDevice)
    → find c.command_id d.cache ≡ none
    → other.command_id ≡ c.command_id
    → other ≢ c
    → ((process_command true other (process_command w c d).0).1
        ≡ answers (encode_response (plain other.command_id 3 mode_fault))
          ∷ publishes other.command_id mode_fault 3
          ∷ [])
      × ((process_command again other (process_command w c d).0).0.cache
          ≡ (process_command w c d).0.cache)
      × ((process_command again other (process_command w c d).0).0.cache_order
          ≡ (process_command w c d).0.cache_order)
process_command-conflict w again c other d new same differs =
    let (said, kept, ordered) = conflict_lem other (process_command w c d).0 again in
    (
      ap (λ x. x.1) (other_lem w true c other d new same differs) ∙ said,
      ap (λ x. x.0.cache) (other_lem w again c other d new same differs) ∙ kept,
      ap (λ x. x.0.cache_order) (other_lem w again c other d new same differs) ∙ ordered,
    )

acknowledgement : (id : ℕ) → id < 2 ^ 16 → IsResponse (plain id 0 mode_stopped)
acknowledgement id h = record {
  command_id_u16 = h;
  result_code_u8 = omega arith;
  device_mode_u8 = omega arith;
  detail0_u8 = omega arith;
  detail1_u8 = omega arith;
  detail2_u8 = omega arith;
}

stop_answered :
    (m : Mode) (stop : Command)
    → m ≢ drop_stop_ack
    → stop_answer m stop ≡ some (plain stop.command_id 0 mode_stopped)
unfolding stop_answer
stop_answered drop_stop_ack stop h = absurd (h refl)
stop_answered normal stop h = refl
stop_answered delay_ack stop h = refl
stop_answered drop_ack stop h = refl
stop_answered reject stop h = refl
stop_answered fault stop h = refl

-- A STOP whose id the device does not hold is answered, in every mode but drop_stop_ack and when the
-- socket takes the frame, by one frame, and the device bridge that waits for the answer to that STOP
-- takes this frame for its acknowledgement.
pub process_command-acknowledged :
    (stop : Command) (d : VirtualCanDevice)
    → find stop.command_id d.cache ≡ none
    → stop.opcode ≡ stop_opcode
    → stop.command_id < 2 ^ 16
    → d.mode ≢ drop_stop_ack
    → ((process_command true stop d).1
        ≡ answers (encode_response (plain stop.command_id 0 mode_stopped))
          ∷ publishes stop.command_id mode_stopped 0
          ∷ [])
      × (classify stop.command_id (arrived (encode_response (plain stop.command_id 0 mode_stopped)))
          ≡ some (response (plain stop.command_id 0 mode_stopped)))
unfolding process_new answer reply send_response classify match_response
process_command-acknowledged stop d new is_stop fits mode =
    let r = plain stop.command_id 0 mode_stopped in
    let opcode : (stop.opcode == stop_opcode) ≡ true = (==_iff stop.opcode stop_opcode).1 is_stop in
    (
      ap (λ x. x.1) (process_command-new true stop d new)
          ∙ rw (opcode, stop_answered d.mode stop mode) refl,
      rw (decode_response-encode_response r (acknowledgement stop.command_id fits))
          (ground (arith, ==_iff stop.command_id stop.command_id)),
    )
