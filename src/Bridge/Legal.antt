-- ===== src/Bridge/Legal.antt =====
-- What a command of device_bridge/src/device_bridge_node.cpp may end with: the specification that
-- `execute` is held to.
use embodied_agent_runtime.Common.{ℕ, ◌<◌, List, [], ◌∷◌, ◌≡◌, ◌⊎◌}
use embodied_agent_runtime.Common.Int.{pos}
use embodied_agent_runtime.Can.Protocol.{RawFrame, encode_command, stop_opcode}
use embodied_agent_runtime.Bridge.Policy.{
  error_transport, error_ack_timeout, error_shutdown, error_stop_timeout, error_stop_rejected,
}
use embodied_agent_runtime.Bridge.Host.{
  Effect, sent, feedback, diagnostics, stage, finished, Terminal, succeeds, aborts, cancels,
  completed, canceled as canceled_outcome, safe_stop, device_fault,
}

-- The frames written, and the terminal results reported, the latest first.
abbrev pub frames : List Effect → List RawFrame
frames [] = []
frames (sent f ∷ l) = f ∷ frames l
frames (feedback s n ∷ l) = frames l
frames (diagnostics d ∷ l) = frames l
frames (stage n x ∷ l) = frames l
frames (finished t ∷ l) = frames l

abbrev pub results : List Effect → List Terminal
results [] = []
results (sent f ∷ l) = results l
results (feedback s n ∷ l) = results l
results (diagnostics d ∷ l) = results l
results (stage n x ∷ l) = results l
results (finished t ∷ l) = t ∷ results l

-- The STOP frame for an original command.
abbrev pub stop_frame : ℕ → ℕ → RawFrame
stop_frame stop_id original =
    encode_command (record { command_id = stop_id; opcode = stop_opcode; argument = pos original })

-- The promised endings: how many command frames went out before it, which STOP frames, and the
-- result. A command that was canceled after it was sent, and one whose fate is unknown, was
-- followed by STOP; error 201 means that both attempts went out.
pub data Legal (stop : RawFrame) (commands : ℕ) (stops : List RawFrame) (t : Terminal)
    : Type 0 where
  acknowledged :
      stops ≡ []
      → 0 < commands
      → t.ending ≡ succeeds
      → t.outcome ≡ completed
      → t.error_code ≡ 0
      → Legal stop commands stops t
  faulted :
      stops ≡ []
      → 0 < commands
      → t.ending ≡ aborts
      → t.outcome ≡ device_fault
      → 300 < t.error_code
      → Legal stop commands stops t
  withdrawn :
      stops ≡ []
      → commands ≡ 0
      → t.ending ≡ cancels
      → t.outcome ≡ canceled_outcome
      → t.error_code ≡ 0
      → Legal stop commands stops t
  stopped :
      stops ≡ stop ∷ []
      → 0 < commands
      → t.ending ≡ cancels
      → t.outcome ≡ canceled_outcome
      → t.error_code ≡ 0
      → Legal stop commands stops t
  not_sent :
      stops ≡ []
      → t.ending ≡ aborts
      → t.outcome ≡ safe_stop
      → t.error_code ≡ error_transport
      → Legal stop commands stops t
  made_safe :
      stops ≡ stop ∷ []
      → 0 < commands
      → t.ending ≡ aborts
      → t.outcome ≡ safe_stop
      → (t.error_code ≡ error_transport)
        ⊎ (t.error_code ≡ error_shutdown)
        ⊎ (t.error_code ≡ error_stop_timeout)
        ⊎ (t.error_code ≡ error_stop_rejected)
        ⊎ ((t.error_code ≡ error_ack_timeout) × (commands ≡ 2))
      → Legal stop commands stops t
