-- ===== src/Bridge/Policy.antt =====
-- device_bridge/include/device_bridge/command_policy.hpp and device_bridge/src/command_policy.cpp.
use embodied_agent_runtime.Common.{
  ℕ, ◌+◌, ◌-◌, ◌*◌, ◌/◌, ◌≤◌, ◌<◌, ◌≡◌, ◌↔◌, Option, none, some, arith, Bool, true, false, ◌||◌,
  ◌==◌, ltb, leb, if◌then◌else◌, ◌^◌,
}
use embodied_agent_runtime.Common.Int.{ℤ, pos, negsuc, pos_part}

abbrev pub error_invalid_goal : ℕ
error_invalid_goal = 100

abbrev pub error_transport : ℕ
error_transport = 200

abbrev pub error_ack_timeout : ℕ
error_ack_timeout = 201

abbrev pub error_shutdown : ℕ
error_shutdown = 202

abbrev pub error_canceled : ℕ
error_canceled = 203

abbrev pub error_stop_timeout : ℕ
error_stop_timeout = 204

abbrev pub error_stop_rejected : ℕ
error_stop_rejected = 205

abbrev pub error_device_rejected_base : ℕ
error_device_rejected_base = 300

-- builtin_interfaces/msg/Duration: an `int32` and a `uint32`.
pub record Duration : Type 0 where
  pub sec : ℤ
  pub nanosec : ℕ

abbrev pub is_negative : ℤ → Bool
is_negative (pos n) = false
is_negative (negsuc n) = true

-- `z <= 0`.
abbrev pub is_nonpositive : ℤ → Bool
is_nonpositive (pos n) = n == 0
is_nonpositive (negsuc n) = true

-- The milliseconds that the source writes to `result`, or `none` where it returns false. The
-- seconds are not negative where they are used, and no `int64_t` sum reaches 2 ^ 63.
unfoldable pub duration_to_milliseconds : Duration → ℤ → Option ℕ
duration_to_milliseconds d max_milliseconds =
    if is_nonpositive max_milliseconds || (is_negative d.sec || leb 1000000000 d.nanosec)
    then none
    else let total_nanoseconds = pos_part d.sec * 1000000000 + d.nanosec in
      if total_nanoseconds == 0
      then none
      else let rounded_milliseconds = (total_nanoseconds + 1000000 - 1) / 1000000 in
        if rounded_milliseconds == 0 || ltb (pos_part max_milliseconds) rounded_milliseconds
        then none
        else some rounded_milliseconds

unfoldable pub device_error_code : ℕ → ℕ
device_error_code result_code =
    let code = error_device_rejected_base + result_code in
    if ltb (2 ^ 16 - 1) code then 2 ^ 16 - 1 else code

-- The length of a duration in nanoseconds.
abbrev pub nanoseconds : Duration → ℕ
nanoseconds d = pos_part d.sec * 1000000000 + d.nanosec

-- A duration that the wire format allows and that is longer than nothing.
abbrev pub IsPositive : Duration → Type 0
IsPositive d = (is_negative d.sec ≡ false) × (d.nanosec < 1000000000) × (0 < nanoseconds d)

-- The timeout is accepted exactly when the duration is well formed and longer than nothing, and the
-- result `ms` is its length rounded up to whole milliseconds, at least 1 and at most the limit.
pub duration_to_milliseconds_iff :
    (d : Duration) (limit ms : ℕ)
    → (duration_to_milliseconds d (pos limit) ≡ some ms) ↔ (
        IsPositive d
        × ((ms ≤ limit)
            × (nanoseconds d ≤ ms * 1000000)
            × (ms * 1000000 < nanoseconds d + 1000000)))
unfolding duration_to_milliseconds
duration_to_milliseconds_iff d limit ms = (λ h. ground arith, λ h. ground arith)

-- A `uint8_t` result code keeps its own error code, from 300 to 555, apart from all others.
device_error_code_lem :
    (a b : ℕ)
    → a < 2 ^ 8
    → b < 2 ^ 8
    → (device_error_code a ≡ 300 + a)
      × (device_error_code a ≤ 555)
      × ((device_error_code a ≡ device_error_code b) ↔ (a ≡ b))
unfolding device_error_code
device_error_code_lem a b ha hb = ground arith
