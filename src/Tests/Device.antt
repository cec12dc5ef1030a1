-- ===== src/Tests/Device.antt =====
-- The virtual CAN device at concrete commands.
use embodied_agent_runtime.Common.{◌++◌, ℕ, ◌≡◌, ◌≢◌, refl, ap, some, none, true, [], ◌∷◌, arith}
use embodied_agent_runtime.Common.Int.{pos, negsuc}
use embodied_agent_runtime.Common.Map.{nat_key, find}
use embodied_agent_runtime.Common.Text.{text, text_eq}
use embodied_agent_runtime.Can.Protocol.{Command, encode_command, encode_response}
use embodied_agent_runtime.Bridge.Host.{mode_stopped, arrived}
use embodied_agent_runtime.Bridge.Wait.{response, classify}
use embodied_agent_runtime.Device.Node.{
  VirtualCanDevice, normal, drop_stop_ack, initial_device, construct_device, supported_mode,
  answers, publishes, plain, process_command, answer,
}
use embodied_agent_runtime.Device.Cache.{IsBounded, receive_all, construct_device-IsBounded}
use embodied_agent_runtime.Device.Replay.{
  sent, state_after, process_command-process_command, process_command-acknowledged,
}

abbrev lift_arm : Command
lift_arm = record { command_id = 7; opcode = 3; argument = pos 90 }

abbrev drop_arm : Command
drop_arm = record { command_id = 7; opcode = 3; argument = negsuc 0 }

abbrev stop_arm : Command
stop_arm = record { command_id = 40000; opcode = 255; argument = pos 7 }

abbrev device : VirtualCanDevice
device = initial_device 1 normal

constructed : construct_device (text "normal") (pos 1) ≡ some device
unfolding construct_device supported_mode text_eq text
constructed = refl

absent : (k : ℕ) → find k device.cache ≡ none
unfolding find
absent k = refl

construct_device-IsBounded_example :
    IsBounded
      (receive_all ((true, encode_command lift_arm) ∷ (true, encode_command stop_arm) ∷ []) device)
construct_device-IsBounded_example =
    construct_device-IsBounded (text "normal") (pos 1) device
      ((true, encode_command lift_arm) ∷ (true, encode_command stop_arm) ∷ []) constructed

process_command-process_command_example :
    ((process_command true lift_arm device).1
      ≡ sent true (answer normal lift_arm) ++ (state_after 7 (answer normal lift_arm) ∷ []))
    × ((process_command true lift_arm (process_command true lift_arm device).0).1
        ≡ sent true (answer normal lift_arm))
    × ((process_command true lift_arm (process_command true lift_arm device).0).0.cache
        ≡ (process_command true lift_arm device).0.cache)
process_command-process_command_example =
    process_command-process_command true true lift_arm device (absent 7)

arguments_differ : drop_arm ≢ lift_arm
arguments_differ e = absurd (ground (arith, ap (λ c. c.argument) e))

not_dropped : device.mode ≢ drop_stop_ack
not_dropped e = absurd cc

process_command-acknowledged_example :
    ((process_command true stop_arm device).1
      ≡ answers (encode_response (plain 40000 0 mode_stopped))
        ∷ publishes 40000 mode_stopped 0
        ∷ [])
    × (classify 40000 (arrived (encode_response (plain 40000 0 mode_stopped)))
        ≡ some (response (plain 40000 0 mode_stopped)))
process_command-acknowledged_example =
    process_command-acknowledged stop_arm device (absent 40000) refl (omega arith) not_dropped
