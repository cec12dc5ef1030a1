-- ===== src/Bridge/Host.antt =====
-- What the command worker of device_bridge/src/device_bridge_node.cpp uses and does not implement
-- (ROS 2 goal handles, the steady clock, the CAN socket of runtime_can), and what it leaves behind.
use embodied_agent_runtime.Common.{ℕ, ◌≤◌, ◌<◌, Bool, Option, List, ◌≡◌}
use embodied_agent_runtime.Common.Text.{Text}
use embodied_agent_runtime.Common.Int.{ℤ}
use embodied_agent_runtime.Common.Status.{DiagnosticStatus}
use embodied_agent_runtime.Can.Protocol.{RawFrame}
use embodied_agent_runtime.Bridge.Policy.{Duration}
use embodied_agent_runtime.Bridge.Diagnostics.{DeviceDiagnosticState}

-- What one call of `SocketCan::receive` ends with.
pub data Arrival : Type 0 where
  nothing : Arrival
  failed : Text → Arrival
  arrived : RawFrame → Arrival

-- The calls out of the worker, each with the world that it leaves. `send` gives the error text, if
-- the frame was not written; `clock` counts nanoseconds.
pub record Host : Type 1 where
  pub World : Type 0
  pub alive : World → Bool × World
  pub canceling : World → Bool × World
  pub clock : World → ℕ × World
  pub send : RawFrame → World → Option Text × World
  pub receive : ℕ → World → Arrival × World

-- The steady clock never goes back, and a `poll` with its `read` takes at least a nanosecond.
pub record IsSteady (h : Host) : Type 0 where
  pub time : h.World → ℕ
  pub clock_reads : (w : h.World) → (h.clock w).0 ≡ time w
  pub clock_keeps : (w : h.World) → time w ≤ time (h.clock w).1
  pub alive_keeps : (w : h.World) → time w ≤ time (h.alive w).1
  pub canceling_keeps : (w : h.World) → time w ≤ time (h.canceling w).1
  pub receive_advances : (t : ℕ) (w : h.World) → time w < time (h.receive t w).1

-- ExecuteDeviceCommand.action: the goal, the outcomes and the feedback states.
pub record Goal : Type 0 where
  pub command_id : ℕ
  pub opcode : ℕ
  pub argument : ℤ
  pub ack_timeout : Duration
  pub trace_id : Text

abbrev pub completed : ℕ
completed = 0

abbrev pub canceled : ℕ
canceled = 1

abbrev pub safe_stop : ℕ
safe_stop = 2

abbrev pub device_fault : ℕ
device_fault = 3

abbrev pub feedback_sending : ℕ
feedback_sending = 1

abbrev pub feedback_waiting_ack : ℕ
feedback_waiting_ack = 2

abbrev pub feedback_retrying : ℕ
feedback_retrying = 3

abbrev pub feedback_stopping : ℕ
feedback_stopping = 4

-- DeviceState.msg
abbrev pub mode_normal : ℕ
mode_normal = 0

abbrev pub mode_busy : ℕ
mode_busy = 1

abbrev pub mode_fault : ℕ
mode_fault = 2

abbrev pub mode_stopped : ℕ
mode_stopped = 3

-- The terminal call on the goal handle: `succeed`, `abort` or `canceled`.
pub data Ending : Type 0 where
  succeeds aborts cancels : Ending

pub record Terminal : Type 0 where
  pub ending : Ending
  pub outcome : ℕ
  pub error_code : ℕ
  pub message : Text

pub data Effect : Type 0 where
  sent : RawFrame → Effect
  feedback : ℕ → ℕ → Effect
  diagnostics : DiagnosticStatus → Effect
  stage : Text → Text → Effect
  finished : Terminal → Effect

-- The members of `DeviceBridgeNode` that outlive a command.
pub record DeviceBridge : Type 0 where
  pub max_ack_timeout_ms : ℕ
  pub receive_poll_ms : ℕ
  pub stop_timeout_ms : ℕ
  pub socket_open : Bool
  pub stage_enabled : Bool
  pub active_goal : Bool
  pub next_stop_command_id : ℕ
  pub diagnostic_state : DeviceDiagnosticState

-- The worker's state: the world, the node, and the effects so far, the latest first.
pub record Run (W : Type 0) : Type 0 where
  pub world : W
  pub bridge : DeviceBridge
  pub log : List Effect
