-- ===== src/Monitor/Readiness.antt =====
-- When runtime_monitor/src/health_aggregator.cpp calls the system ready, in terms of the statuses that
-- it has received, and what the device bridge's published state means for it.
use embodied_agent_runtime.Common.{
  ℕ, ◌-◌, ◌/◌, ◌≤◌, max, Bool, true, false, not, ◌&&◌, ◌||◌, Option, none, some, List, [], ◌∷◌, leb,
  if◌then◌else◌, ◌≡◌, ◌∙◌, refl, sym, ap, ap₂, subst, arith, inl, inr, Bool-cases,
}
use mathlib.Core.Option.{some_inj}
use embodied_agent_runtime.Bridge.Policy.{is_nonpositive}
use embodied_agent_runtime.Common.Int.{ℤ, pos_part}
use embodied_agent_runtime.Common.Text.{Text, text, text_eq, text_eq_iff}
use embodied_agent_runtime.Common.Status.{DiagnosticStatus, level_warn, level_error, level_stale}
use embodied_agent_runtime.Bridge.Diagnostics.{DeviceDiagnosticState, snapshot}
use embodied_agent_runtime.Monitor.HealthAggregator.{
  ComponentHealth, StoredStatus, HealthAggregator, device_bridge_name, task_executor_name,
  not_received, initial_aggregator, construct_aggregator, stored, update, evaluate_component,
  combine, evaluate,
}

-- A status with the time at which it was received.
abbrev pub Report : Type 0
Report = DiagnosticStatus × ℕ

abbrev pub update_all : List Report → HealthAggregator → HealthAggregator
update_all [] h = h
update_all ((s, at) ∷ rest) h = update_all rest (update s at h).1

-- The last report under a name, and `last` if there is none.
abbrev pub last_named : Text → Option Report → List Report → Option Report
last_named name last [] = last
last_named name last ((s, at) ∷ rest) =
    last_named name (if text_eq s.name name then some (s, at) else last) rest

-- The level that a last report stands for: STALE if there is none or it is older than the timeout,
-- and ERROR for a level that is none of the message's.
abbrev pub report_level : ℕ → ℕ → Option Report → ℕ
report_level timeout now none = level_stale
report_level timeout now (some (s, at)) =
    if not (leb ((now - at) / 1000000) timeout)
    then level_stale
    else if leb s.level level_stale
    then s.level
    else level_error

-- A last report that is at most the timeout old and no worse than WARN.
abbrev pub is_healthy : ℕ → ℕ → Option Report → Bool
is_healthy timeout now none = false
is_healthy timeout now (some (s, at)) = leb ((now - at) / 1000000) timeout && leb s.level level_warn

slot : Option Report → StoredStatus
slot none = not_received
slot (some (s, at)) = stored s at

-- The aggregator whose slots hold the two reports.
abbrev holding : ℕ → Option Report → Option Report → HealthAggregator
holding timeout bridge executor = record {
  stale_timeout = timeout;
  device_bridge = slot bridge;
  task_executor = slot executor;
}

names_differ : text_eq device_bridge_name task_executor_name ≡ false
unfolding device_bridge_name task_executor_name text_eq text
names_differ = refl

update-holding :
    (s : DiagnosticStatus) (at timeout : ℕ) (b e : Option Report)
    → (update s at (holding timeout b e)).1
      ≡ holding timeout
          (if text_eq s.name device_bridge_name then some (s, at) else b)
          (if text_eq s.name task_executor_name then some (s, at) else e)
unfolding update slot
update-holding s at timeout b e = elim (Bool-cases (text_eq s.name device_bridge_name)) [
  | inl is_bridge ↦
      let other : text_eq s.name task_executor_name ≡ false =
        ap (λ n. text_eq n task_executor_name) ((text_eq_iff s.name device_bridge_name).0 is_bridge)
        ∙ names_differ in
      rw (is_bridge, other) refl
  | inr not_bridge ↦ elim (Bool-cases (text_eq s.name task_executor_name)) [
    | inl is_executor ↦ rw (not_bridge, is_executor) refl
    | inr not_executor ↦ rw (not_bridge, not_executor) refl
  ]
]

-- Each slot holds the last report under its own name.
update_all-holding :
    (us : List Report) (timeout : ℕ) (b e : Option Report)
    → update_all us (holding timeout b e)
      ≡ holding timeout (last_named device_bridge_name b us) (last_named task_executor_name e us)
update_all-holding [] timeout b e = refl
update_all-holding ((s, at) ∷ us) timeout b e =
    ap (update_all us) (update-holding s at timeout b e)
    ∙ update_all-holding us timeout (if text_eq s.name device_bridge_name then some (s, at) else b)
        (if text_eq s.name task_executor_name then some (s, at) else e)

made_lem :
    (b : Bool) (n : ℕ) (h : HealthAggregator)
    → (if b then none else some (initial_aggregator n)) ≡ some h
    → holding n none none ≡ h
unfolding slot
made_lem true n h e = absurd cc
made_lem false n h e = some_inj.0 e

constructed_lem :
    (timeout : ℤ) (h : HealthAggregator)
    → construct_aggregator timeout ≡ some h
    → holding (pos_part timeout) none none ≡ h
unfolding construct_aggregator
constructed_lem timeout h made = made_lem (is_nonpositive timeout) (pos_part timeout) h made

-- The level of a component, with its sight: what `combine` reads.
component_level :
    (timeout : ℕ) (o : Option Report) (now : ℕ)
    → ((evaluate_component timeout (slot o) now).level ≡ report_level timeout now o)
      × (((evaluate_component timeout (slot o) now).seen ≡ false)
          → (evaluate_component timeout (slot o) now).level ≡ level_stale)
unfolding evaluate_component slot stored
component_level timeout none now = (refl, λ unseen. refl)
component_level timeout (some (s, at)) now = (ground arith, ground arith)

report_level_lem :
    (timeout : ℕ) (o : Option Report) (now : ℕ)
    → (report_level timeout now o ≤ level_stale)
      × (leb (report_level timeout now o) level_warn ≡ is_healthy timeout now o)
report_level_lem timeout none now = (omega arith, refl)
report_level_lem timeout (some (s, at)) now = (ground arith, ground arith)

combine_lem :
    (b e : ComponentHealth)
    → b.level ≤ level_stale
    → e.level ≤ level_stale
    → (b.seen ≡ false → b.level ≡ level_stale)
    → (e.seen ≡ false → e.level ≡ level_stale)
    → ((combine b e).level ≡ max b.level e.level)
      × ((combine b e).ready ≡ (leb b.level level_warn && leb e.level level_warn))
unfolding combine
combine_lem b e lb le sb se = (ground arith, ground arith)

evaluate-holding :
    (timeout now : ℕ) (b e : Option Report)
    → ((evaluate now (holding timeout b e)).level
        ≡ max (report_level timeout now b) (report_level timeout now e))
      × ((evaluate now (holding timeout b e)).ready
          ≡ (is_healthy timeout now b && is_healthy timeout now e))
unfolding evaluate
evaluate-holding timeout now b e =
    let (b_level, b_unseen) = component_level timeout b now in
    let (e_level, e_unseen) = component_level timeout e now in
    let (b_known, b_healthy) = report_level_lem timeout b now in
    let (e_known, e_healthy) = report_level_lem timeout e now in
    let (worst, ready) =
      combine_lem (evaluate_component timeout (slot b) now)
        (evaluate_component timeout (slot e) now)
        (subst (λ l. l ≤ level_stale) (sym b_level) b_known)
        (subst (λ l. l ≤ level_stale) (sym e_level) e_known) b_unseen e_unseen in
    (
      worst ∙ ap₂ max b_level e_level,
      ready
          ∙ ap₂ (λ x y. leb x level_warn && leb y level_warn) b_level e_level
          ∙ ap₂ (λ x y. x && y) b_healthy e_healthy,
    )

-- After any series of statuses received, the level of the system is the worse of the levels that the
-- last status under the bridge's name and the last under the executor's stand for, and the system is
-- ready exactly if both names have reported, the last time no longer ago than the timeout and with a
-- level no worse than WARN.
pub evaluate_iff :
    (timeout : ℤ) (h : HealthAggregator) (received : List Report) (now : ℕ)
    → construct_aggregator timeout ≡ some h
    → ((evaluate now (update_all received h)).level
        ≡ max
            (report_level (pos_part timeout) now (last_named device_bridge_name none received))
            (report_level (pos_part timeout) now (last_named task_executor_name none received)))
      × ((evaluate now (update_all received h)).ready ≡ (
          is_healthy (pos_part timeout) now (last_named device_bridge_name none received)
          && is_healthy (pos_part timeout) now (last_named task_executor_name none received)))
evaluate_iff timeout h received now made =
    let n = pos_part timeout in
    let b = last_named device_bridge_name none received in
    let e = last_named task_executor_name none received in
    let held : holding n b e ≡ update_all received h =
      sym (update_all-holding received n none none)
      ∙ ap (update_all received) (constructed_lem timeout h made) in
    subst
      (λ g.
        ((evaluate now g).level ≡ max (report_level n now b) (report_level n now e))
        × ((evaluate now g).ready ≡ (is_healthy n now b && is_healthy n now e)))
      held (evaluate-holding n now b e)

snapshot-error :
    (socket_ready : Bool) (s : DeviceDiagnosticState)
    → not socket_ready || s.error_latched ≡ true
    → (snapshot socket_ready s).level ≡ level_error
unfolding snapshot
snapshot-error socket_ready s broken = ground arith

unhealthy :
    (timeout now at : ℕ) (s : DiagnosticStatus)
    → s.level ≡ level_error
    → is_healthy timeout now (some (s, at)) ≡ false
unhealthy timeout now at s broken = ground arith

-- Where the last status that the aggregator received under the bridge's name is that of a device
-- bridge whose socket is down or whose error is latched, whatever it received before, and after that
-- under other names, it does not call the system ready at any time.
pub evaluate-snapshot :
    (timeout : ℤ) (h : HealthAggregator) (received : List Report) (socket_ready : Bool)
    (s : DeviceDiagnosticState) (at now : ℕ)
    → construct_aggregator timeout ≡ some h
    → last_named device_bridge_name none received ≡ some (snapshot socket_ready s, at)
    → not socket_ready || s.error_latched ≡ true
    → (evaluate now (update_all received h)).ready ≡ false
evaluate-snapshot timeout h received socket_ready s at now made last broken =
    let n = pos_part timeout in
    let sick =
      unhealthy n now at (snapshot socket_ready s) (snapshot-error socket_ready s broken) in
    (evaluate_iff timeout h received now made).1
    ∙ ap (λ o. is_healthy n now o && is_healthy n now (last_named task_executor_name none received))
        last
    ∙ ap (λ b. b && is_healthy n now (last_named task_executor_name none received)) sick
