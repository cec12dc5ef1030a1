-- ===== src/Bridge/Completion.antt =====
-- `execute` of device_bridge/src/device_bridge_node.cpp ends, with one of the promised endings.
use mathlib.Core.Option
use embodied_agent_runtime.Common.{
  ℕ, zero, suc, ◌*◌, ◌≤◌, ◌<◌, Bool, true, false, not, ◌||◌, Option, none, some, List, [], ◌∷◌,
  ◌==◌, ◌≡◌, refl, ap, ap₂, ◌∙◌, ◌⊎◌, inl, inr, arith, Bool-cases,
}
use embodied_agent_runtime.Common.Int.{pos}
use embodied_agent_runtime.Common.Text.{Text, is_empty}
use embodied_agent_runtime.Can.Protocol.{RawFrame, Command, Response, encode_command}
use embodied_agent_runtime.Bridge.Policy.{
  duration_to_milliseconds, device_error_code, error_transport, error_ack_timeout, error_shutdown,
}
use embodied_agent_runtime.Bridge.Diagnostics.{
  DeviceDiagnosticState, mark_sending, mark_waiting_ack, record_retry, mark_stopping,
  record_success, record_ack_timeout, record_device_fault, record_transport_error,
}
use embodied_agent_runtime.Bridge.Host.{
  Host, IsSteady, Goal, Run, DeviceBridge, Effect, sent, succeeds, aborts, completed, safe_stop,
  device_fault, feedback_sending, feedback_stopping, feedback_waiting_ack, feedback_retrying,
}
use embodied_agent_runtime.Bridge.Wait.{
  WaitResult, response, timeout, canceled, transport_error, shutdown,
}
use embodied_agent_runtime.Bridge.Legal.{stop_frame, acknowledged, faulted, withdrawn, not_sent}
use embodied_agent_runtime.Bridge.Answers.{receive_response-Settles, Settles}
use embodied_agent_runtime.Bridge.Node.{
  say, on_diagnostics, in_world, publish_feedback, publish_diagnostics, emit_stage, finish_aborted,
  finish_safe_stop, allocate_stop_command_id,
}
use embodied_agent_runtime.Bridge.Worker.{
  stop_and_finish, after_stop_wait, after_stop_send, settle, after_send, on_response, after_wait,
  send_command, attempts, execute, release, command_of,
}
use embodied_agent_runtime.Bridge.Endings.{
  Written, Done, Finishes, finish-Done, publish-Written, finish_canceled-Done, after_stop-Done,
}

module _ (h : Host) (steady : IsSteady h) (base : List Effect) (goal : Goal)
    (stop_id stop_timeout ack_timeout fuel : ℕ) (fuel_for_ack : ack_timeout * 1000000 < fuel)
    (fuel_for_stop : stop_timeout * 1000000 < fuel) where
  open h use {World, canceling, send}

  abbrev command : Command
  command = command_of goal

  abbrev command_frame : RawFrame
  command_frame = encode_command command

  abbrev stop : RawFrame
  stop = stop_frame stop_id command.command_id

  -- The worker before the STOP: `commands` frames are out, and the members that it reads stand.
  record Ready (commands : ℕ) (r : Run World) : Type 0 where
    written : Written base command_frame stop commands [] r
    stop_id_kept : r.bridge.next_stop_command_id ≡ stop_id
    stop_timeout_kept : r.bridge.stop_timeout_ms ≡ stop_timeout

  allocated : (b : DeviceBridge) → (allocate_stop_command_id b).0 ≡ b.next_stop_command_id
  unfolding allocate_stop_command_id
  allocated b = ground arith

  allocate_keeps :
      (b : DeviceBridge) → (allocate_stop_command_id b).1.stop_timeout_ms ≡ b.stop_timeout_ms
  unfolding allocate_stop_command_id
  allocate_keeps b = ground arith

  fault_code : (c : ℕ) → (c == 0) ≡ false → 300 < device_error_code c
  unfolding device_error_code
  fault_code c e = ground arith

  after_stop_wait-Finishes :
      {k : ℕ} (stop_command_id : ℕ) (cancel : Bool) (code : ℕ) (message : Text)
      (w : Option (WaitResult × World)) (r : Run World) (deadline : ℕ) (observe : Bool)
      → Settles h steady stop_command_id deadline observe w
      → Written base command_frame stop k (stop ∷ []) r
      → 0 < k
      → k ≤ 2
      → (cancel ≡ true)
        ⊎ (code ≡ error_transport)
        ⊎ (code ≡ error_shutdown)
        ⊎ ((code ≡ error_ack_timeout) × (k ≡ 2))
      → Finishes base command_frame stop (after_stop_wait h stop_command_id cancel code message w r)
  unfolding after_stop_wait
  after_stop_wait-Finishes i b c m none r d o st s p q cause = elim st [ ]
  after_stop_wait-Finishes i b c m (some (x, w)) r d o st s p q cause =
      after_stop-Done base command_frame stop p q i b c m x (in_world w r)
        (record { results_kept = s.results_kept; frames_kept = s.frames_kept }) cause

  after_stop_send-Finishes :
      {k : ℕ} (stop_command : Command) (cancel : Bool) (code : ℕ) (message : Text) (e : Option Text)
      (r : Run World)
      → encode_command stop_command ≡ stop
      → Written base command_frame stop k [] r
      → r.bridge.stop_timeout_ms ≡ stop_timeout
      → 0 < k
      → k ≤ 2
      → (cancel ≡ true)
        ⊎ (code ≡ error_transport)
        ⊎ (code ≡ error_shutdown)
        ⊎ ((code ≡ error_ack_timeout) × (k ≡ 2))
      → Finishes base command_frame stop
          (after_stop_send h fuel stop_command cancel code message e r)
  unfolding after_stop_send publish_feedback finish_safe_stop finish_aborted
  after_stop_send-Finishes sc b c m (some e) r is_stop s t p q cause =
      finish-Done base command_frame stop _ aborts safe_stop error_transport _
        (publish-Written base command_frame stop (record_transport_error error_transport) r s) q
        (not_sent refl refl refl refl)
  after_stop_send-Finishes sc b c m none r is_stop s t p q cause =
      after_stop_wait-Finishes sc.command_id b c m _ _ _ false
        (receive_response-Settles h steady fuel r.bridge.receive_poll_ms sc.command_id
          r.bridge.stop_timeout_ms false r.world (omega arith))
        (record { results_kept = s.results_kept; frames_kept = ap₂ ◌∷◌ is_stop s.frames_kept }) p q
        cause

  stop_and_finish-Finishes :
      {k : ℕ} (r : Run World) (cancel : Bool) (code : ℕ) (message : Text)
      → Ready k r
      → 0 < k
      → k ≤ 2
      → (cancel ≡ true)
        ⊎ (code ≡ error_transport)
        ⊎ (code ≡ error_shutdown)
        ⊎ ((code ≡ error_ack_timeout) × (k ≡ 2))
      → Finishes base command_frame stop
          (stop_and_finish h fuel command.command_id cancel code message r)
  unfolding stop_and_finish publish_feedback finish_safe_stop finish_aborted
  stop_and_finish-Finishes r cancel code message ready p q cause =
      let b = r.bridge in
      let same : (allocate_stop_command_id (on_diagnostics mark_stopping r).bridge).0 ≡ stop_id =
        allocated _ ∙ ready.stop_id_kept in
      after_stop_send-Finishes _ cancel code message _ _
        (ap (λ (i : ℕ). stop_frame i command.command_id) same)
        (record {
          results_kept = ready.written.results_kept;
          frames_kept = ready.written.frames_kept;
        })
        (allocate_keeps _ ∙ ready.stop_timeout_kept) p q cause

  Ready-in_world : {k : ℕ} {r : Run World} (w : World) → Ready k r → Ready k (in_world w r)
  Ready-in_world w s = record {
    written = record { results_kept = s.written.results_kept; frames_kept = s.written.frames_kept };
    stop_id_kept = s.stop_id_kept;
    stop_timeout_kept = s.stop_timeout_kept;
  }

  Ready-on_diagnostics :
      {k : ℕ} {r : Run World} (f : DeviceDiagnosticState → DeviceDiagnosticState)
      → Ready k r
      → Ready k (on_diagnostics f r)
  Ready-on_diagnostics f s = record {
    written = record { results_kept = s.written.results_kept; frames_kept = s.written.frames_kept };
    stop_id_kept = s.stop_id_kept;
    stop_timeout_kept = s.stop_timeout_kept;
  }

  Ready-publish : {k : ℕ} {r : Run World} → Ready k r → Ready k (publish_diagnostics r)
  unfolding publish_diagnostics
  Ready-publish s = record {
    written = record { results_kept = s.written.results_kept; frames_kept = s.written.frames_kept };
    stop_id_kept = s.stop_id_kept;
    stop_timeout_kept = s.stop_timeout_kept;
  }

  Ready-feedback :
      {k : ℕ} {r : Run World} (state n : ℕ) → Ready k r → Ready k (publish_feedback state n r)
  unfolding publish_feedback
  Ready-feedback state n s = record {
    written = record { results_kept = s.written.results_kept; frames_kept = s.written.frames_kept };
    stop_id_kept = s.stop_id_kept;
    stop_timeout_kept = s.stop_timeout_kept;
  }

  Ready-emit_stage :
      {k : ℕ} {r : Run World} (name extra : Text)
      → Ready k r
      → Ready k (emit_stage goal name extra r)
  unfolding emit_stage
  Ready-emit_stage {r = r} name extra s =
      elim (Bool-cases (not r.bridge.stage_enabled || is_empty goal.trace_id)) [
        | inl off ↦ rw off s
        | inr on ↦ rw on (record {
          written = record {
            results_kept = s.written.results_kept;
            frames_kept = s.written.frames_kept;
          };
          stop_id_kept = s.stop_id_kept;
          stop_timeout_kept = s.stop_timeout_kept;
        })
      ]

  Ready-sent : {k : ℕ} {r : Run World} → Ready k r → Ready (suc k) (say (sent command_frame) r)
  Ready-sent s = record {
    written = record {
      results_kept = s.written.results_kept;
      frames_kept = ap (◌∷◌ command_frame) s.written.frames_kept;
    };
    stop_id_kept = s.stop_id_kept;
    stop_timeout_kept = s.stop_timeout_kept;
  }

  on_response-Finishes :
      {k : ℕ} (s : Response) (r : Run World)
      → Ready k r
      → 0 < k
      → k ≤ 2
      → (extra : Text)
      → Finishes base command_frame stop (on_response h fuel goal command extra s r)
  unfolding on_response finish_aborted
  on_response-Finishes s r ready p q extra = elim (Bool-cases (canceling r.world).0) [
    | inl seen ↦
        rw seen (stop_and_finish-Finishes _ true 0 _ (Ready-in_world _ ready) p q (inl refl))
    | inr unseen ↦ rw unseen (elim (Bool-cases (s.result_code == 0)) [
      | inl good ↦ rw good (
          finish-Done base command_frame stop _ succeeds completed 0 _
            (Ready-emit_stage _ _ (
              Ready-publish (Ready-on_diagnostics record_success (Ready-in_world _ ready)))).written
            q (acknowledged refl p refl refl refl))
      | inr bad ↦ rw bad (
          finish-Done base command_frame stop _ aborts device_fault _ _
            (Ready-publish (
              Ready-on_diagnostics (record_device_fault (device_error_code s.result_code))
                (Ready-in_world _ ready))).written
            q (faulted refl p refl refl (fault_code s.result_code bad)))
    ])
  ]

  after_wait-Finishes :
      (attempt : ℕ) (extra : Text) (retry : Run World → Option (Run World)) (x : WaitResult)
      (r : Run World)
      → Ready (suc attempt) r
      → attempt < 2
      → (attempt ≡ 0 → (r' : Run World) → Ready 1 r' → Finishes base command_frame stop (retry r'))
      → Finishes base command_frame stop (after_wait h fuel goal command attempt extra retry x r)
  unfolding after_wait
  after_wait-Finishes a extra retry (response x) r ready q again =
      on_response-Finishes x r ready (omega arith) (omega arith) extra
  after_wait-Finishes a extra retry canceled r ready q again =
      stop_and_finish-Finishes r true 0 _ ready (omega arith) (omega arith) (inl refl)
  after_wait-Finishes a extra retry (transport_error e) r ready q again =
      stop_and_finish-Finishes _ false error_transport _
        (Ready-publish (Ready-on_diagnostics (record_transport_error error_transport) ready))
        (omega arith) (omega arith) (inr (inl refl))
  after_wait-Finishes a extra retry (shutdown e) r ready q again =
      stop_and_finish-Finishes r false error_shutdown _ ready (omega arith) (omega arith)
        (inr (inr (inl refl)))
  after_wait-Finishes zero extra retry timeout r ready q again =
      again refl _ (
        Ready-publish
          (Ready-on_diagnostics record_retry (Ready-feedback feedback_retrying _ ready)))
  after_wait-Finishes (suc zero) extra retry timeout r ready q again =
      stop_and_finish-Finishes _ false error_ack_timeout _
        (Ready-emit_stage _ _ (
          Ready-publish (
            Ready-on_diagnostics (record_ack_timeout error_ack_timeout)
              (Ready-feedback feedback_stopping _ ready))))
        (omega arith) (omega arith) (inr (inr (inr (refl, refl))))
  after_wait-Finishes (suc (suc a)) extra retry timeout r ready q again = absurd (omega arith)

  settle-Finishes :
      (attempt : ℕ) (retry : Run World → Option (Run World)) (w : Option (WaitResult × World))
      (r : Run World) (deadline : ℕ)
      → Settles h steady command.command_id deadline true w
      → Ready (suc attempt) r
      → attempt < 2
      → (attempt ≡ 0 → (r' : Run World) → Ready 1 r' → Finishes base command_frame stop (retry r'))
      → Finishes base command_frame stop (settle h fuel goal command attempt retry w r)
  unfolding settle
  settle-Finishes a retry none r d st ready q again = elim st [ ]
  settle-Finishes a retry (some (x, w)) r d st ready q again =
      after_wait-Finishes a _ retry x (in_world w r) (Ready-in_world w ready) q again

  after_send-Finishes :
      (attempt : ℕ) (retry : Run World → Option (Run World)) (e : Option Text) (r : Run World)
      → Ready attempt r
      → attempt < 2
      → (attempt ≡ 0 → (r' : Run World) → Ready 1 r' → Finishes base command_frame stop (retry r'))
      → Finishes base command_frame stop
          (after_send h fuel goal command ack_timeout attempt retry e r)
  unfolding after_send finish_aborted
  after_send-Finishes a retry (some e) r ready q again =
      finish-Done base command_frame stop _ aborts safe_stop error_transport _
        (Ready-publish
          (Ready-on_diagnostics (record_transport_error error_transport) ready)).written
        (omega arith) (not_sent refl refl refl refl)
  after_send-Finishes a retry none r ready q again =
      settle-Finishes a retry _ _ _
        (receive_response-Settles h steady fuel _ command.command_id ack_timeout true _
          fuel_for_ack)
        (Ready-emit_stage _ _ (
          Ready-emit_stage _ _ (
            Ready-on_diagnostics mark_waiting_ack
              (Ready-feedback feedback_waiting_ack _ (Ready-sent ready)))))
        q again

  send_command-Finishes :
      (attempt : ℕ) (retry : Run World → Option (Run World)) (r : Run World)
      → Ready attempt r
      → attempt < 2
      → (attempt ≡ 0 → (r' : Run World) → Ready 1 r' → Finishes base command_frame stop (retry r'))
      → Finishes base command_frame stop
          (send_command h fuel goal command ack_timeout attempt retry r)
  unfolding send_command
  send_command-Finishes a retry r ready q again =
      after_send-Finishes a retry _ _
        (Ready-in_world _ (
          Ready-emit_stage _ _ (
            Ready-emit_stage _ _
              (Ready-on_diagnostics mark_sending (Ready-feedback feedback_sending _ ready)))))
        q again

  second_attempt-Finishes :
      (r : Run World)
      → Ready 1 r
      → Finishes base command_frame stop (attempts h 1 fuel goal command ack_timeout 1 true r)
  unfolding attempts
  second_attempt-Finishes r ready = elim (Bool-cases (canceling r.world).0) [
    | inr unseen ↦ rw unseen (
        send_command-Finishes 1 _ _ (Ready-in_world _ ready) (omega arith)
          (λ e. absurd (omega arith)))
    | inl seen ↦ rw seen (
        stop_and_finish-Finishes _ true 0 _ (Ready-in_world _ ready) (omega arith) (omega arith)
          (inl refl))
  ]

  attempts-Finishes :
      (r : Run World)
      → Ready 0 r
      → Finishes base command_frame stop (attempts h 2 fuel goal command ack_timeout 0 false r)
  unfolding attempts
  attempts-Finishes r ready = elim (Bool-cases (canceling r.world).0) [
    | inr unseen ↦ rw unseen (
        send_command-Finishes 0 _ _ (Ready-in_world _ ready) (omega arith)
          (λ e r' ready'. second_attempt-Finishes r' ready'))
    | inl seen ↦ rw seen (
        finish_canceled-Done base command_frame stop _ _ (Ready-in_world _ ready).written
          (omega arith) (withdrawn refl refl refl refl refl))
  ]

module _ {W : Type 0} (base : List Effect) (command stop : RawFrame) where
  Finishes-some :
      (o : Option (Run W))
      → Finishes base command stop o
      → (r : Run W) × (o ≡ some r) × Done base command stop r
  Finishes-some none f = elim f [ ]
  Finishes-some (some r) f = (r, refl, f)

execute-attempts :
    (h : Host) (goal : Goal) (r : Run h.World) (ack_timeout fuel : ℕ)
    → duration_to_milliseconds goal.ack_timeout (pos r.bridge.max_ack_timeout_ms) ≡ some ack_timeout
    → execute h fuel goal r
      ≡ Option.map release (attempts h 2 fuel goal (command_of goal) ack_timeout 0 false r)
unfolding execute
execute-attempts h goal r t fuel valid = rw (valid, execute)

-- Under a steady clock the worker of an accepted goal returns, given fuel beyond its two timeouts in
-- nanoseconds, and the bridge is free again. It has reported exactly one result, has written at
-- most two frames, both the goal's command, and after them at most one STOP, with the bridge's next
-- STOP id; the result and these frames fit one another as `Legal` lists it.
pub execute-Done :
    (h : Host) (steady : IsSteady h) (goal : Goal) (r : Run h.World) (ack_timeout fuel : ℕ)
    → duration_to_milliseconds goal.ack_timeout (pos r.bridge.max_ack_timeout_ms) ≡ some ack_timeout
    → ack_timeout * 1000000 < fuel
    → r.bridge.stop_timeout_ms * 1000000 < fuel
    → (r' : Run h.World) × (execute h fuel goal r ≡ some r')
      × Done r.log
          (encode_command (command_of goal))
          (stop_frame r.bridge.next_stop_command_id (command_of goal).command_id)
          r'
      × (r'.bridge.active_goal ≡ false)
execute-Done h steady goal r t fuel valid for_ack for_stop =
    let (r', returned, done) = Finishes-some _ _ _ _ (
      attempts-Finishes h steady r.log goal r.bridge.next_stop_command_id r.bridge.stop_timeout_ms t
        fuel for_ack for_stop r
        (record {
          written = record { results_kept = refl; frames_kept = refl };
          stop_id_kept = refl;
          stop_timeout_kept = refl;
        })) in
    (
      release r',
      execute-attempts h goal r t fuel valid ∙ ap (Option.map release) returned,
      record {
        commands = done.commands;
        stops = done.stops;
        terminal = done.terminal;
        bounded = done.bounded;
        one_result = done.one_result;
        written = done.written;
        legal = done.legal;
      },
      refl,
    )
