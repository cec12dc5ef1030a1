-- ===== src/Can/Protocol.antt =====
-- runtime_can/include/runtime_can/protocol.hpp and runtime_can/src/protocol.cpp. A `uint8_t` array
-- of eight is a record; a decoder's out-parameter `error` is the second part of its result.
use embodied_agent_runtime.Common.{
  ℕ, ◌*◌, ◌/◌, ◌%◌, ◌^◌, ◌<◌, bit_or, not, Option, none, some, ◌==◌, if◌then◌else◌,
}
use embodied_agent_runtime.Common.Int.{ℤ, bits32, signed32, IsInt32}
use embodied_agent_runtime.Common.Text.{Text, text}

abbrev pub command_frame_id : ℕ
command_frame_id = 0x100

abbrev pub response_frame_id : ℕ
response_frame_id = 0x101

abbrev pub protocol_version : ℕ
protocol_version = 1

abbrev pub payload_size : ℕ
payload_size = 8

abbrev pub stop_opcode : ℕ
stop_opcode = 0xFF

abbrev pub application_command_id_max : ℕ
application_command_id_max = 0x7FFF

abbrev pub stop_command_id_min : ℕ
stop_command_id_min = 0x8000

-- `std::array<std::uint8_t, kPayloadSize>`.
pub record Payload : Type 0 where
  pub b0 : ℕ
  pub b1 : ℕ
  pub b2 : ℕ
  pub b3 : ℕ
  pub b4 : ℕ
  pub b5 : ℕ
  pub b6 : ℕ
  pub b7 : ℕ

pub record RawFrame : Type 0 where
  pub id : ℕ
  pub size : ℕ
  pub payload : Payload

pub record Command : Type 0 where
  pub command_id : ℕ
  pub opcode : ℕ
  pub argument : ℤ

pub record Response : Type 0 where
  pub command_id : ℕ
  pub result_code : ℕ
  pub device_mode : ℕ
  pub detail0 : ℕ
  pub detail1 : ℕ
  pub detail2 : ℕ

pub data DecodeError : Type 0 where
  no_error wrong_frame_id wrong_payload_size unsupported_version : DecodeError

-- `static_cast<std::uint8_t>` and `static_cast<std::uint16_t>`.
abbrev pub to_u8 : ℕ → ℕ
to_u8 n = n % 2 ^ 8

abbrev pub to_u16 : ℕ → ℕ
to_u16 n = n % 2 ^ 16

-- `<<` on a `std::uint32_t`.
abbrev shl32 : ℕ → ℕ → ℕ
shl32 n k = n * 2 ^ k % 2 ^ 32

unfoldable pub encode_command : Command → RawFrame
encode_command c =
    let argument_bits = bits32 c.argument in
    record {
      id = command_frame_id;
      size = payload_size;
      payload = record {
        b0 = protocol_version;
        b1 = to_u8 (c.command_id / 2 ^ 8);
        b2 = to_u8 c.command_id;
        b3 = c.opcode;
        b4 = to_u8 (argument_bits / 2 ^ 24);
        b5 = to_u8 (argument_bits / 2 ^ 16);
        b6 = to_u8 (argument_bits / 2 ^ 8);
        b7 = to_u8 argument_bits;
      };
    }

unfoldable pub encode_response : Response → RawFrame
encode_response r = record {
  id = response_frame_id;
  size = payload_size;
  payload = record {
    b0 = protocol_version;
    b1 = to_u8 (r.command_id / 2 ^ 8);
    b2 = to_u8 r.command_id;
    b3 = r.result_code;
    b4 = r.device_mode;
    b5 = r.detail0;
    b6 = r.detail1;
    b7 = r.detail2;
  };
}

unfoldable pub decode_u16 : Payload → ℕ
decode_u16 p = to_u16 (bit_or (p.b1 * 2 ^ 8) p.b2)

-- The shifts and ors of `decode_command` that put the argument's bits together.
unfoldable pub decode_u32 : Payload → ℕ
decode_u32 p = bit_or (bit_or (bit_or (shl32 p.b4 24) (shl32 p.b5 16)) (shl32 p.b6 8)) p.b7

unfoldable pub decode_command : RawFrame → Option Command × DecodeError
decode_command frame =
    if not (frame.id == command_frame_id)
    then (none, wrong_frame_id)
    else if not (frame.size == payload_size)
    then (none, wrong_payload_size)
    else if not (frame.payload.b0 == protocol_version)
    then (none, unsupported_version)
    else (
      some (record {
        command_id = decode_u16 frame.payload;
        opcode = frame.payload.b3;
        argument = signed32 (decode_u32 frame.payload);
      }),
      no_error,
    )

unfoldable pub decode_response : RawFrame → Option Response × DecodeError
decode_response frame =
    if not (frame.id == response_frame_id)
    then (none, wrong_frame_id)
    else if not (frame.size == payload_size)
    then (none, wrong_payload_size)
    else if not (frame.payload.b0 == protocol_version)
    then (none, unsupported_version)
    else (
      some (record {
        command_id = decode_u16 frame.payload;
        result_code = frame.payload.b3;
        device_mode = frame.payload.b4;
        detail0 = frame.payload.b5;
        detail1 = frame.payload.b6;
        detail2 = frame.payload.b7;
      }),
      no_error,
    )

-- `to_string(DecodeError)`.
unfoldable pub decode_error_name : DecodeError → Text
decode_error_name no_error = text "none"
decode_error_name wrong_frame_id = text "wrong_frame_id"
decode_error_name wrong_payload_size = text "wrong_payload_size"
decode_error_name unsupported_version = text "unsupported_version"

-- The ranges of the C++ types.
pub record IsPayload (p : Payload) : Type 0 where
  pub r0 : p.b0 < 2 ^ 8
  pub r1 : p.b1 < 2 ^ 8
  pub r2 : p.b2 < 2 ^ 8
  pub r3 : p.b3 < 2 ^ 8
  pub r4 : p.b4 < 2 ^ 8
  pub r5 : p.b5 < 2 ^ 8
  pub r6 : p.b6 < 2 ^ 8
  pub r7 : p.b7 < 2 ^ 8

pub record IsCommand (c : Command) : Type 0 where
  pub command_id_u16 : c.command_id < 2 ^ 16
  pub opcode_u8 : c.opcode < 2 ^ 8
  pub argument_i32 : IsInt32 c.argument

pub record IsResponse (r : Response) : Type 0 where
  pub command_id_u16 : r.command_id < 2 ^ 16
  pub result_code_u8 : r.result_code < 2 ^ 8
  pub device_mode_u8 : r.device_mode < 2 ^ 8
  pub detail0_u8 : r.detail0 < 2 ^ 8
  pub detail1_u8 : r.detail1 < 2 ^ 8
  pub detail2_u8 : r.detail2 < 2 ^ 8
