-- ===== src/Common/Status.antt =====
-- diagnostic_msgs/msg/DiagnosticStatus, the message that the nodes publish and the monitor reads.
use Prim.Native.Nat.{ℕ}
use mathlib.Core.List.{List}
use embodied_agent_runtime.Common.Text.{Text}

abbrev pub level_ok : ℕ
level_ok = 0

abbrev pub level_warn : ℕ
level_warn = 1

abbrev pub level_error : ℕ
level_error = 2

abbrev pub level_stale : ℕ
level_stale = 3

pub record KeyValue : Type 0 where
  pub key : Text
  pub value : Text

pub record DiagnosticStatus : Type 0 where
  pub level : ℕ
  pub name : Text
  pub message : Text
  pub hardware_id : Text
  pub values : List KeyValue

abbrev pub key_value : Text → Text → KeyValue
key_value key value = record { key = key; value = value }
