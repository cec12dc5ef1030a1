-- ===== src/Tests/Can.antt =====
-- The wire protocol of runtime_can at concrete frames.
use embodied_agent_runtime.Common.{◌≡◌, ◌↔◌, refl, some, none, true, is_some, arith}
use embodied_agent_runtime.Common.Int.{negsuc, bits32, signed32}
use embodied_agent_runtime.Can.Protocol.{
  RawFrame, Command, Response, encode_command, encode_response, decode_command, decode_response,
  decode_u16, decode_u32, no_error, wrong_frame_id, command_frame_id, response_frame_id,
}
use embodied_agent_runtime.Can.RoundTrip.{
  decode_command-encode_command, decode_response-encode_response, decode-HasHeader, HasHeader,
}

-- The command of test_protocol.cpp: a negative argument.
abbrev sample : Command
sample = record { command_id = 0x1234; opcode = 7; argument = negsuc 1 }

sample_frame :
    (encode_command sample).payload
    ≡ record { b0 = 1; b1 = 0x12; b2 = 0x34; b3 = 7; b4 = 0xFF; b5 = 0xFF; b6 = 0xFF; b7 = 0xFE }
unfolding encode_command bits32
sample_frame = refl

sample_decoded : decode_command (encode_command sample) ≡ (some sample, no_error)
unfolding encode_command decode_command bits32 signed32 decode_u16 decode_u32
sample_decoded = refl

abbrev reply : Response
reply = record {
  command_id = 0x8001;
  result_code = 0;
  device_mode = 3;
  detail0 = 1;
  detail1 = 2;
  detail2 = 3;
}

reply_is_no_command : decode_command (encode_response reply) ≡ (none, wrong_frame_id)
unfolding encode_response decode_command
reply_is_no_command = refl

decode_command-encode_command_example :
    decode_command (encode_command sample) ≡ (some sample, no_error)
decode_command-encode_command_example = decode_command-encode_command sample (omega arith)

decode_response-encode_response_example :
    decode_response (encode_response reply) ≡ (some reply, no_error)
decode_response-encode_response_example = decode_response-encode_response reply (omega arith)

abbrev sample_raw : RawFrame
sample_raw = record {
  id = 0x100;
  size = 8;
  payload = record {
    b0 = 1;
    b1 = 0x12;
    b2 = 0x34;
    b3 = 7;
    b4 = 0xFF;
    b5 = 0xFF;
    b6 = 0xFF;
    b7 = 0xFE;
  };
}

sample_raw_decoded : decode_command sample_raw ≡ (some sample, no_error)
unfolding decode_command decode_u16 decode_u32 signed32
sample_raw_decoded = refl

abbrev extended : RawFrame
extended = record {
  id = 0x102;
  size = 8;
  payload = record { b0 = 1; b1 = 0; b2 = 0; b3 = 0; b4 = 0; b5 = 0; b6 = 0; b7 = 0 };
}

decode-HasHeader_example :
    ((is_some (decode_command extended).0 ≡ true) ↔ HasHeader command_frame_id extended)
    × (((decode_command extended).1 ≡ no_error) ↔ HasHeader command_frame_id extended)
    × ((is_some (decode_response extended).0 ≡ true) ↔ HasHeader response_frame_id extended)
    × (((decode_response extended).1 ≡ no_error) ↔ HasHeader response_frame_id extended)
decode-HasHeader_example = decode-HasHeader extended
