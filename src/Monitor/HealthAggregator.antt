-- ===== src/Monitor/HealthAggregator.antt =====
-- runtime_monitor/include/runtime_monitor/health_aggregator.hpp and
-- runtime_monitor/src/health_aggregator.cpp. Times of the steady clock are nanoseconds.
use embodied_agent_runtime.Common.{
  ℕ, ◌-◌, ◌/◌, Bool, true, false, not, ◌||◌, Option, none, some, ltb, leb, ◌==◌, if◌then◌else◌,
}
use embodied_agent_runtime.Common.Int.{ℤ, pos, negsuc, pos_part}
use embodied_agent_runtime.Common.Text.{Text, text, text_eq}
use embodied_agent_runtime.Common.Status.{
  DiagnosticStatus, level_ok, level_warn, level_error, level_stale,
}
use embodied_agent_runtime.Bridge.Policy.{is_nonpositive}

unfoldable pub device_bridge_name : Text
device_bridge_name = text "runtime/device_bridge"

unfoldable pub task_executor_name : Text
task_executor_name = text "runtime/task_executor"

pub record ComponentHealth : Type 0 where
  pub seen : Bool
  pub level : ℕ
  pub message : Text
  pub age_ms : ℤ

pub record SystemHealth : Type 0 where
  pub ready : Bool
  pub level : ℕ
  pub message : Text
  pub device_bridge : ComponentHealth
  pub task_executor : ComponentHealth

pub record StoredStatus : Type 0 where
  pub seen : Bool
  pub level : ℕ
  pub message : Text
  pub received_at : ℕ

pub record HealthAggregator : Type 0 where
  pub stale_timeout : ℕ
  pub device_bridge : StoredStatus
  pub task_executor : StoredStatus

abbrev pub not_received : StoredStatus
not_received = record {
  seen = false;
  level = level_stale;
  message = text "not received";
  received_at = 0;
}

-- The members as they are initialised.
abbrev pub initial_aggregator : ℕ → HealthAggregator
initial_aggregator stale_timeout = record {
  stale_timeout = stale_timeout;
  device_bridge = not_received;
  task_executor = not_received;
}

-- The constructor: `none` where it throws. The timeout is in milliseconds.
unfoldable pub construct_aggregator : ℤ → Option HealthAggregator
construct_aggregator stale_timeout =
    if is_nonpositive stale_timeout
    then none
    else some (initial_aggregator (pos_part stale_timeout))

-- What `update` writes to its target.
unfoldable pub stored : DiagnosticStatus → ℕ → StoredStatus
stored status received_at = record {
  seen = true;
  level = if leb status.level level_stale then status.level else level_error;
  message = status.message;
  received_at = received_at;
}

unfoldable pub update : DiagnosticStatus → ℕ → HealthAggregator → Bool × HealthAggregator
update status received_at h =
    if text_eq status.name device_bridge_name
    then (true, record h { device_bridge = stored status received_at })
    else if text_eq status.name task_executor_name
    then (true, record h { task_executor = stored status received_at })
    else (false, h)

-- `age` is the difference in whole milliseconds, and 0 where the clock reads earlier than the status.
unfoldable pub evaluate_component : ℕ → StoredStatus → ℕ → ComponentHealth
evaluate_component stale_timeout s now =
    let age = (now - s.received_at) / 1000000 in
    if not s.seen
    then record {
      seen = false;
      level = level_stale;
      message = text "not received";
      age_ms = negsuc 0;
    }
    else if ltb stale_timeout age
    then record {
      seen = true;
      level = level_stale;
      message = text "diagnostics stale";
      age_ms = pos age;
    }
    else record { seen = true; level = s.level; message = s.message; age_ms = pos age }

-- The cascade of `evaluate` over the two components.
unfoldable pub combine : ComponentHealth → ComponentHealth → SystemHealth
combine bridge executor =
    let verdict : Bool → ℕ → Text → SystemHealth = λ ready level message. record {
      ready = ready;
      level = level;
      message = message;
      device_bridge = bridge;
      task_executor = executor;
    } in
    if not bridge.seen
      || (not executor.seen || (bridge.level == level_stale || executor.level == level_stale))
    then verdict false level_stale (text "core diagnostics missing or stale")
    else if bridge.level == level_error || executor.level == level_error
    then verdict false level_error (text "core component error")
    else if bridge.level == level_warn || executor.level == level_warn
    then verdict true level_warn (text "runtime degraded")
    else verdict true level_ok (text "runtime ready")

unfoldable pub evaluate : ℕ → HealthAggregator → SystemHealth
evaluate now h =
    combine (evaluate_component h.stale_timeout h.device_bridge now)
      (evaluate_component h.stale_timeout h.task_executor now)
