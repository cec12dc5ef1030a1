-- ===== src/History/StageEventLog.antt =====
-- runtime_history/include/runtime_history/stage_event_log.hpp: the line of one stage event. What
-- `write`, `getpid`, `gettid` and `gethostname` give is an argument.
use embodied_agent_runtime.Common.{
  ℕ, ◌*◌, ◌/◌, ◌%◌, ◌^◌, ◌+◌, [], ◌∷◌, ◌++◌, ◌==◌, ltb, if◌then◌else◌,
}
use Prim.Native.Nat.{bit_xor}
use embodied_agent_runtime.Common.Text.{Text, text}
use embodied_agent_runtime.Common.Decimal.{decimal}

pub record StageEvent : Type 0 where
  pub trace_id : Text
  pub source_node : Text
  pub stage : Text
  pub event_name : Text
  pub event_type : Text
  pub duration_ns : ℕ
  pub status : Text
  pub reason_code : Text
  pub extra_json : Text

-- The loop of `stage_sequence_id`, from a hash so far.
unfoldable pub hash_from : ℕ → Text → ℕ
hash_from hash [] = hash
hash_from hash (character ∷ rest) =
    hash_from ((bit_xor hash character * 1099511628211) % 2 ^ 64) rest

unfoldable pub stage_sequence_id : Text → ℕ
stage_sequence_id trace_id = hash_from 14695981039346656037 trace_id / 2

-- `kHexDigits[digit]`.
abbrev pub hex_digit : ℕ → ℕ
hex_digit digit = if ltb digit 10 then 48 + digit else 87 + digit

-- What one character is written as.
unfoldable pub escape_character : ℕ → Text
escape_character character =
    if character == 34
    then 92 ∷ 34 ∷ []
    else if character == 92
    then 92 ∷ 92 ∷ []
    else if character == 10
    then 92 ∷ b'n' ∷ []
    else if character == 13
    then 92 ∷ b'r' ∷ []
    else if character == 9
    then 92 ∷ b't' ∷ []
    else if ltb character 32
    then 92 ∷ b'u' ∷ 48 ∷ 48 ∷ hex_digit (character / 16) ∷ hex_digit (character % 16) ∷ []
    else character ∷ []

unfoldable pub json_escape : Text → Text
json_escape [] = []
json_escape (character ∷ rest) = escape_character character ++ json_escape rest

unfoldable pub json_quote : Text → Text
json_quote value = 34 ∷ (json_escape value ++ 34 ∷ [])

-- The pieces of the line around the values, each after a value in quotes or after a number.
abbrev pub field : Text → Text → Text
field name value = text ",\"" ++ name ++ text "\":\"" ++ json_escape value ++ text "\""

abbrev pub number_field : Text → ℕ → Text
number_field name value = text ",\"" ++ name ++ text "\":" ++ decimal value

-- The line that `emit` writes.
unfoldable pub line : ℕ → ℕ → ℕ → Text → StageEvent → Text
line timestamp_ns pid tid host_id event =
    text "{\"trace_id\":\""
    ++ json_escape event.trace_id
    ++ text "\""
    ++ number_field (text "sequence_id") (stage_sequence_id event.trace_id)
    ++ field (text "source_node") event.source_node
    ++ field (text "stage") event.stage
    ++ number_field (text "timestamp_ns") timestamp_ns
    ++ field (text "event_name") event.event_name
    ++ field (text "event_type") event.event_type
    ++ number_field (text "pid") pid
    ++ number_field (text "tid") tid
    ++ field (text "host_id") host_id
    ++ field (text "clock_id") (text "monotonic")
    ++ number_field (text "duration_ns") event.duration_ns
    ++ field (text "status") event.status
    ++ field (text "reason_code") event.reason_code
    ++ field (text "extra_json") event.extra_json
    ++ text "}\n"
