-- ===== src/Tests/Bridge.antt =====
-- The device bridge at concrete goals, over a small world: a clock, and answers that arrive.
use embodied_agent_runtime.Common.{
  ℕ, ◌+◌, ◌*◌, ◌≤◌, ◌≡◌, ◌≢◌, ◌↔◌, true, false, Option, some, none, List, [], ◌∷◌, refl, arith,
  ◌||◌,
}
use embodied_agent_runtime.Common.Int.{pos, negsuc}
use embodied_agent_runtime.Common.Text.{text}
use embodied_agent_runtime.Common.Decimal.{decimal}
use embodied_agent_runtime.Common.Status.{level_error}
use embodied_agent_runtime.Can.Protocol.{RawFrame, Response, encode_command, encode_response}
use embodied_agent_runtime.Bridge.Policy.{
  Duration, duration_to_milliseconds, IsPositive, nanoseconds,
}
use embodied_agent_runtime.Bridge.Diagnostics.{initial, snapshot}
use embodied_agent_runtime.Bridge.Host.{
  Host, IsSteady, Goal, DeviceBridge, Run, nothing, arrived, Terminal, aborts, safe_stop,
}
use embodied_agent_runtime.Bridge.Wait.{classify, response, receive_response, wait_loop, wait_round}
use embodied_agent_runtime.Bridge.Answers.{Settles, receive_response-Settles}
use embodied_agent_runtime.Bridge.Node.{
  handle_goal, allocate_stop_command_id, publish_feedback, publish_diagnostics, emit_stage, finish,
  finish_safe_stop, finish_aborted, Parameters, construct,
}
use embodied_agent_runtime.Bridge.Goals.{
  handle_goal_iff, allocate_stop_command_id-IsStopId, IsStopId, classify-stop,
  classify-stop_overlap,
}
use embodied_agent_runtime.Bridge.Latch.{
  begins, sends, times_out, stops, apply_all, snapshot-apply_all,
}
use embodied_agent_runtime.Bridge.Legal.{stop_frame, results, frames}
use embodied_agent_runtime.Bridge.Endings.{Done}
use embodied_agent_runtime.Bridge.Worker.{
  execute, command_of, attempts, send_command, after_send, settle, after_wait, stop_and_finish,
  after_stop_send, after_stop_wait, after_stop,
}
use embodied_agent_runtime.Bridge.Completion.{execute-Done}

-- A world that is its own clock, in nanoseconds: a silent bus, where each poll takes 600 ms.
abbrev silent : Host
silent = record {
  World = ℕ;
  alive = λ w. (true, w);
  canceling = λ w. (false, w);
  clock = λ w. (w, w);
  send = λ f w. (none, w);
  receive = λ t w. (nothing, w + 600000000);
}

abbrev silent-IsSteady : IsSteady silent
silent-IsSteady = record {
  time = λ w. w;
  clock_reads = λ w. refl;
  clock_keeps = λ w. omega arith;
  alive_keeps = λ w. omega arith;
  canceling_keeps = λ w. omega arith;
  receive_advances = λ t w. omega arith;
}

abbrev one_second : Duration
one_second = record { sec = pos 1; nanosec = 0 }

abbrev goal : Goal
goal = record {
  command_id = 7;
  opcode = 2;
  argument = negsuc 4;
  ack_timeout = one_second;
  trace_id = text "";
}

abbrev bridge : DeviceBridge
bridge = record {
  max_ack_timeout_ms = 5000;
  receive_poll_ms = 25;
  stop_timeout_ms = 500;
  socket_open = true;
  stage_enabled = false;
  active_goal = true;
  next_stop_command_id = 0x8000;
  diagnostic_state = initial;
}

abbrev idle_bridge : DeviceBridge
idle_bridge = record bridge { active_goal = false }

abbrev start : Run ℕ
start = record { world = 0; bridge = bridge; log = [] }

one_second_ms : duration_to_milliseconds one_second (pos 5000) ≡ some 1000
unfolding duration_to_milliseconds
one_second_ms = refl

-- What `execute` calls on this path.
silent_parts : Unit {0}
unfolding attempts send_command after_send settle after_wait stop_and_finish after_stop_send
    after_stop_wait after_stop receive_response wait_loop wait_round classify publish_feedback
    publish_diagnostics emit_stage finish finish_safe_stop finish_aborted allocate_stop_command_id
silent_parts = tt

abbrev results_of : Option (Run ℕ) → List Terminal
results_of none = []
results_of (some r) = results r.log

abbrev frames_of : Option (Run ℕ) → List RawFrame
frames_of none = []
frames_of (some r) = frames r.log

-- Nobody answers: two sends, one STOP, and its answer is missing too.
silent_frames :
    frames_of (execute silent 2000000000 goal start)
    ≡ stop_frame 0x8000 7 ∷ encode_command (command_of goal) ∷ encode_command (command_of goal) ∷ []
unfolding execute text duration_to_milliseconds silent_parts
silent_frames = refl

silent_result :
    results_of (execute silent 2000000000 goal start)
    ≡ record {
      ending = aborts;
      outcome = safe_stop;
      error_code = 204;
      message = text "device STOP ACK timeout stop_command_id=32768";
    }
      ∷ []
unfolding execute text duration_to_milliseconds decimal silent_parts
silent_result = refl

execute-Done_example :
    (r : Run ℕ) × (execute silent 2000000000 goal start ≡ some r)
    × Done start.log (encode_command (command_of goal)) (stop_frame 0x8000 7) r
    × (r.bridge.active_goal ≡ false)
execute-Done_example =
    execute-Done silent silent-IsSteady goal start 1000 2000000000 one_second_ms (omega arith)
      (omega arith)

receive_response-Settles_example :
    Settles silent silent-IsSteady 7 1000000000 true
      (receive_response silent 1000000001 25 7 1000 true 0)
receive_response-Settles_example =
    receive_response-Settles silent silent-IsSteady 1000000001 25 7 1000 true 0 (omega arith)

goal_accepted : (handle_goal goal idle_bridge).0 ≡ true
unfolding handle_goal duration_to_milliseconds
goal_accepted = refl

handle_goal_iff_example :
    (((handle_goal goal idle_bridge).0 ≡ true) ↔ (
      (1 ≤ 7)
      × (7 ≤ 0xFFFF)
      × IsPositive goal.ack_timeout
      × (nanoseconds goal.ack_timeout ≤ 5000 * 1000000)
      × (idle_bridge.socket_open ≡ true)
      × (idle_bridge.active_goal ≡ false)))
    × ((handle_goal goal idle_bridge).1
        ≡ record idle_bridge { active_goal = false || (handle_goal goal idle_bridge).0 })
handle_goal_iff_example = handle_goal_iff goal idle_bridge

abbrev defaults : Parameters
defaults = record {
  max_ack_timeout_ms = pos 5000;
  receive_poll_ms = pos 25;
  stop_timeout_ms = pos 500;
  diagnostic_period_ms = pos 1000;
  stage_enabled = false;
}

constructed : construct defaults ≡ some idle_bridge
unfolding construct
constructed = refl

abbrev wrapping : DeviceBridge
wrapping = record bridge { next_stop_command_id = 0xFFFF }

allocate_stop_command_id-IsStopId_example :
    IsStopId 0x8000
    × IsStopId (allocate_stop_command_id wrapping).0
    × ((allocate_stop_command_id wrapping).0 ≡ 0xFFFF)
    × IsStopId (allocate_stop_command_id wrapping).1.next_stop_command_id
    × ((allocate_stop_command_id wrapping).1.next_stop_command_id
        ≢ (allocate_stop_command_id wrapping).0)
allocate_stop_command_id-IsStopId_example =
    allocate_stop_command_id-IsStopId defaults wrapping idle_bridge constructed (omega arith)

abbrev ack : ℕ → Response
ack id = record {
  command_id = id;
  result_code = 0;
  device_mode = 0;
  detail0 = 0;
  detail1 = 0;
  detail2 = 0;
}

classify-stop_example :
    classify (allocate_stop_command_id bridge).0 (arrived (encode_response (ack 7))) ≡ none
classify-stop_example = classify-stop bridge (ack 7) (omega arith) (omega arith) (omega arith)

abbrev high_goal : Goal
high_goal = record goal { command_id = 0x8000 }

classify-stop_overlap_example :
    ((handle_goal high_goal idle_bridge).0 ≡ true)
    × (classify
          (allocate_stop_command_id (handle_goal high_goal idle_bridge).1).0
          (arrived (encode_response (ack 0x8000)))
        ≡ some (response (ack 0x8000)))
classify-stop_overlap_example =
    classify-stop_overlap high_goal idle_bridge (ack 0x8000) 1000 (omega arith) refl one_second_ms
      refl refl (omega arith) refl

snapshot-apply_all_example :
    (snapshot true (apply_all (times_out 201 ∷ stops ∷ begins 8 ∷ sends ∷ []) initial)).level
    ≡ level_error
snapshot-apply_all_example =
    snapshot-apply_all (times_out 201) (stops ∷ begins 8 ∷ sends ∷ []) initial true refl refl
