-- ===== src/Bridge/Endings.antt =====
-- How a STOP ends in device_bridge/src/device_bridge_node.cpp, over every behaviour of the world.
use embodied_agent_runtime.Common.{
  ℕ, ◌≤◌, ◌<◌, Bool, true, false, ◌&&◌, Option, none, some, List, [], ◌∷◌, ◌++◌, ◌==◌,
  if◌then◌else◌, ◌≡◌, refl, ap, ◌⊎◌, inl, inr, arith, Bool-cases, replicate,
}
use embodied_agent_runtime.Common.Text.{Text}
use embodied_agent_runtime.Can.Protocol.{RawFrame}
use embodied_agent_runtime.Bridge.Policy.{
  error_transport, error_ack_timeout, error_shutdown, error_stop_timeout, error_stop_rejected,
}
use embodied_agent_runtime.Bridge.Diagnostics.{
  DeviceDiagnosticState, record_canceled, record_stop_failure, record_transport_error,
}
use embodied_agent_runtime.Bridge.Host.{
  Run, Effect, Terminal, Ending, aborts, cancels, canceled as canceled_outcome, safe_stop,
  mode_stopped,
}
use embodied_agent_runtime.Bridge.Wait.{
  WaitResult, response, timeout, canceled, transport_error, shutdown,
}
use embodied_agent_runtime.Bridge.Legal.{frames, results, Legal, stopped, made_safe}
use embodied_agent_runtime.Bridge.Node.{
  on_diagnostics, publish_diagnostics, finish, finish_canceled, finish_aborted, finish_safe_stop,
}
use embodied_agent_runtime.Bridge.Worker.{after_stop}

module _ {W : Type 0} (base : List Effect) (command stop : RawFrame) where
  -- Since `base`, `commands` frames of the command and then `stops` were written, and no result yet.
  pub record Written (commands : ℕ) (stops : List RawFrame) (r : Run W) : Type 0 where
    pub results_kept : results r.log ≡ results base
    pub frames_kept : frames r.log ≡ stops ++ (replicate commands command ++ frames base)

  -- Since `base` exactly one result was reported, and it fits the frames that were written.
  pub record Done (r : Run W) : Type 0 where
    pub commands : ℕ
    pub stops : List RawFrame
    pub terminal : Terminal
    pub bounded : commands ≤ 2
    pub one_result : results r.log ≡ terminal ∷ results base
    pub written : frames r.log ≡ stops ++ (replicate commands command ++ frames base)
    pub legal : Legal stop commands stops terminal

  abbrev pub Finishes : Option (Run W) → Type 0
  Finishes none = ⊥
  Finishes (some r) = Done r

  pub finish-Done :
      {k : ℕ} {stops : List RawFrame} (r : Run W) (e : Ending) (outcome code : ℕ) (message : Text)
      → Written k stops r
      → k ≤ 2
      → Legal stop k stops
          (record { ending = e; outcome = outcome; error_code = code; message = message })
      → Done (finish e outcome code message r)
  unfolding finish
  finish-Done {k} {stops} r e o c m s b l = record {
    commands = k;
    stops = stops;
    terminal = record { ending = e; outcome = o; error_code = c; message = m };
    bounded = b;
    one_result =
        ap (◌∷◌ (record { ending = e; outcome = o; error_code = c; message = m })) s.results_kept;
    written = s.frames_kept;
    legal = l;
  }

  pub publish-Written :
      {k : ℕ} {stops : List RawFrame} (f : DeviceDiagnosticState → DeviceDiagnosticState)
      (r : Run W)
      → Written k stops r
      → Written k stops (publish_diagnostics (on_diagnostics f r))
  unfolding publish_diagnostics
  publish-Written f r s = record { results_kept = s.results_kept; frames_kept = s.frames_kept }

  pub finish_canceled-Done :
      {k : ℕ} {stops : List RawFrame} (r : Run W) (message : Text)
      → Written k stops r
      → k ≤ 2
      → Legal stop k stops (record {
        ending = cancels;
        outcome = canceled_outcome;
        error_code = 0;
        message = message;
      })
      → Done (finish_canceled message r)
  unfolding finish_canceled
  finish_canceled-Done r m s b l =
      finish-Done _ cancels canceled_outcome 0 m (publish-Written record_canceled r s) b l

  module _ {k : ℕ} (sent_some : 0 < k) (at_most : k ≤ 2) where
    pub safe_stop-Done :
        (r : Run W) (code : ℕ) (message : Text)
        → Written k (stop ∷ []) r
        → (code ≡ error_transport)
          ⊎ (code ≡ error_shutdown)
          ⊎ (code ≡ error_stop_timeout)
          ⊎ (code ≡ error_stop_rejected)
          ⊎ ((code ≡ error_ack_timeout) × (k ≡ 2))
        → Done (finish_safe_stop code message r)
    unfolding finish_safe_stop finish_aborted
    safe_stop-Done r c m s l =
        finish-Done r aborts safe_stop c m s at_most (made_safe refl sent_some refl refl l)

    stop_acknowledged-Done :
        (cancel : Bool) (code : ℕ) (stop_message message : Text) (r : Run W)
        → Written k (stop ∷ []) r
        → (cancel ≡ true)
          ⊎ (code ≡ error_transport)
          ⊎ (code ≡ error_shutdown)
          ⊎ ((code ≡ error_ack_timeout) × (k ≡ 2))
        → Done (if cancel then finish_canceled stop_message r else finish_safe_stop code message r)
    stop_acknowledged-Done true c n m r s a =
        finish_canceled-Done r n s at_most (stopped refl sent_some refl refl refl)
    stop_acknowledged-Done false c n m r s a = safe_stop-Done r c m s (ground arith)

    -- The five ways in which the wait for the STOP's answer ends.
    pub after_stop-Done :
        (stop_id : ℕ) (cancel : Bool) (code : ℕ) (message : Text) (result : WaitResult) (r : Run W)
        → Written k (stop ∷ []) r
        → (cancel ≡ true)
          ⊎ (code ≡ error_transport)
          ⊎ (code ≡ error_shutdown)
          ⊎ ((code ≡ error_ack_timeout) × (k ≡ 2))
        → Done (after_stop stop_id cancel code message result r)
    unfolding after_stop
    after_stop-Done i b c m timeout r s a =
        safe_stop-Done _ _ _ (publish-Written (record_stop_failure error_stop_timeout) r s)
          (ground arith)
    after_stop-Done i b c m (transport_error e) r s a =
        safe_stop-Done _ _ _ (publish-Written (record_transport_error error_transport) r s)
          (ground arith)
    after_stop-Done i b c m (shutdown e) r s a =
        safe_stop-Done _ _ _ (publish-Written (record_transport_error error_transport) r s)
          (ground arith)
    after_stop-Done i b c m canceled r s a =
        safe_stop-Done _ _ _ (publish-Written (record_stop_failure error_stop_rejected) r s)
          (ground arith)
    after_stop-Done i b c m (response x) r s a =
        elim (Bool-cases (x.result_code == 0 && x.device_mode == mode_stopped)) [
          | inr refused ↦ rw refused (
              safe_stop-Done _ _ _ (publish-Written (record_stop_failure error_stop_rejected) r s)
                (ground arith))
          | inl acked ↦ rw acked (stop_acknowledged-Done b c _ _ r s a)
        ]
