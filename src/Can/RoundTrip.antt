-- ===== src/Can/RoundTrip.antt =====
-- Encoding and decoding of runtime_can/src/protocol.cpp undo one another.
use embodied_agent_runtime.Common.{ℕ, is_some, true, ◌≡◌, some, arith, ◌↔◌}
use embodied_agent_runtime.Common.Int.{bits32, signed32-bits32, bits32-signed32, bits32-lt}
use embodied_agent_runtime.Can.Decode.{decode_u16_lem, decode_u32_lem}
use embodied_agent_runtime.Can.Protocol.{
  RawFrame, Command, Response, IsPayload, IsCommand, IsResponse, no_error, command_frame_id,
  response_frame_id, payload_size, protocol_version, encode_command, encode_response,
  decode_command, decode_response, decode_u16, decode_u32,
}

encode_command-IsPayload : (c : Command) → IsCommand c → IsPayload (encode_command c).payload
unfolding encode_command
encode_command-IsPayload c h = omega (arith, bits32-lt c.argument h.argument_i32)

encode_response-IsPayload : (r : Response) → IsResponse r → IsPayload (encode_response r).payload
unfolding encode_response
encode_response-IsPayload r h = omega arith

decode_u32-encode_command :
    (c : Command) → IsCommand c → decode_u32 (encode_command c).payload ≡ bits32 c.argument
unfolding encode_command
decode_u32-encode_command c h = omega (
  arith,
  decode_u32_lem (encode_command c).payload (encode_command-IsPayload c h),
  bits32-lt c.argument h.argument_i32,
)

decode_u16-encode_command :
    (c : Command) → IsCommand c → decode_u16 (encode_command c).payload ≡ c.command_id
unfolding encode_command
decode_u16-encode_command c h =
    omega (arith, decode_u16_lem (encode_command c).payload (encode_command-IsPayload c h))

decode_u16-encode_response :
    (r : Response) → IsResponse r → decode_u16 (encode_response r).payload ≡ r.command_id
unfolding encode_response
decode_u16-encode_response r h =
    omega (arith, decode_u16_lem (encode_response r).payload (encode_response-IsPayload r h))

-- Every command within the ranges of its C++ types is decoded from its own frame unchanged.
pub decode_command-encode_command :
    (c : Command) → IsCommand c → decode_command (encode_command c) ≡ (some c, no_error)
unfolding decode_command encode_command
decode_command-encode_command c h = ground (
  arith,
  decode_u16-encode_command c h,
  decode_u32-encode_command c h,
  signed32-bits32 c.argument h.argument_i32,
)

-- Every response within the ranges of its C++ types is decoded from its own frame unchanged.
pub decode_response-encode_response :
    (r : Response) → IsResponse r → decode_response (encode_response r) ≡ (some r, no_error)
unfolding decode_response encode_response
decode_response-encode_response r h = ground (arith, decode_u16-encode_response r h)

-- A frame of bytes that decodes as a command is the one frame that encodes that command.
encode_command-decode_command :
    (f : RawFrame) (c : Command)
    → IsPayload f.payload
    → decode_command f ≡ (some c, no_error)
    → encode_command c ≡ f
unfolding decode_command encode_command
encode_command-decode_command f c h e = ground (
  arith,
  decode_u16_lem f.payload h,
  decode_u32_lem f.payload h,
  bits32-signed32 (decode_u32 f.payload),
)

-- A command frame has the id, the size and the version that the decoder asks for.
abbrev pub HasHeader : ℕ → RawFrame → Type 0
HasHeader frame_id f =
    (f.id ≡ frame_id) × (f.size ≡ payload_size) × (f.payload.b0 ≡ protocol_version)

-- Both decoders accept exactly the frames with their id, size 8 and version 1, and only then
-- report no error; so no frame is accepted by both.
pub decode-HasHeader :
    (f : RawFrame)
    → ((is_some (decode_command f).0 ≡ true) ↔ HasHeader command_frame_id f)
      × (((decode_command f).1 ≡ no_error) ↔ HasHeader command_frame_id f)
      × ((is_some (decode_response f).0 ≡ true) ↔ HasHeader response_frame_id f)
      × (((decode_response f).1 ≡ no_error) ↔ HasHeader response_frame_id f)
unfolding decode_command decode_response
decode-HasHeader f = ground arith
