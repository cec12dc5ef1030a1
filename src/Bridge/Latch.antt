-- ===== src/Bridge/Latch.antt =====
-- The error latch of device_bridge/src/diagnostic_state.cpp over any sequence of its calls, and the
-- phase that a STOP leaves behind.
use embodied_agent_runtime.Common.{ℕ, Bool, true, false, List, [], ◌∷◌, ◌≡◌, refl, arith, any}
use embodied_agent_runtime.Common.Status.{level_error}
use embodied_agent_runtime.Bridge.Diagnostics.{
  DeviceDiagnosticState, begin_command, mark_sending, mark_waiting_ack, record_retry, mark_stopping,
  record_success, record_canceled, record_ack_timeout, record_device_fault, record_stop_failure,
  record_transport_error, snapshot,
}

-- One call of the class, with its argument.
pub data Call : Type 0 where
  begins : ℕ → Call
  sends awaits retries stops succeeds cancels : Call
  times_out faults stop_fails transport_fails : ℕ → Call

pub apply : Call → DeviceDiagnosticState → DeviceDiagnosticState
apply (begins id) s = begin_command id s
apply sends s = mark_sending s
apply awaits s = mark_waiting_ack s
apply retries s = record_retry s
apply stops s = mark_stopping s
apply succeeds s = record_success s
apply cancels s = record_canceled s
apply (times_out e) s = record_ack_timeout e s
apply (faults e) s = record_device_fault e s
apply (stop_fails e) s = record_stop_failure e s
apply (transport_fails e) s = record_transport_error e s

pub apply_all : List Call → DeviceDiagnosticState → DeviceDiagnosticState
unfolding apply
apply_all [] s = s
apply_all (c ∷ cs) s = apply_all cs (apply c s)

abbrev pub clears : Call → Bool
clears succeeds = true
clears cancels = true
clears _ = false

apply-latched :
    (c : Call) (s : DeviceDiagnosticState)
    → clears c ≡ false
    → s.error_latched ≡ true
    → (apply c s).error_latched ≡ true
unfolding apply begin_command mark_sending mark_waiting_ack record_retry mark_stopping
    record_success record_canceled record_ack_timeout record_device_fault record_stop_failure
    record_transport_error
apply-latched (begins id) s c l = l
apply-latched _ s c l = ground arith

apply_all-latched :
    (cs : List Call) (s : DeviceDiagnosticState) (socket_ready : Bool)
    → any clears cs ≡ false
    → s.error_latched ≡ true
    → (snapshot socket_ready (apply_all cs s)).level ≡ level_error
unfolding apply_all snapshot
apply_all-latched [] s ready c l = ground arith
apply_all-latched (x ∷ cs) s ready c l =
    apply_all-latched cs (apply x s) ready (ground arith) (apply-latched x s (ground arith) l)

-- The calls that record an error.
abbrev pub is_error : Call → Bool
is_error (times_out e) = true
is_error (faults e) = true
is_error (stop_fails e) = true
is_error (transport_fails e) = true
is_error _ = false

apply-is_error :
    (c : Call) (s : DeviceDiagnosticState) → is_error c ≡ true → (apply c s).error_latched ≡ true
unfolding apply record_ack_timeout record_device_fault record_stop_failure record_transport_error
apply-is_error (times_out e) s h = refl
apply-is_error _ s h = ground arith

-- After a call that records an error every status is an ERROR, with the socket open or not and
-- whatever is called next, as long as no success and no cancel is recorded.
pub snapshot-apply_all :
    (c : Call) (cs : List Call) (s : DeviceDiagnosticState) (socket_ready : Bool)
    → is_error c ≡ true
    → any clears cs ≡ false
    → (snapshot socket_ready (apply_all (c ∷ cs) s)).level ≡ level_error
unfolding apply_all
snapshot-apply_all c cs s ready e h =
    apply_all-latched cs (apply c s) ready h (apply-is_error c s e)
