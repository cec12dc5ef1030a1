-- ===== src/Executor/Commands.antt =====
-- The device commands that task_executor/src/task_executor_node.cpp builds, and what
-- device_bridge/src/device_bridge_node.cpp makes of them.
use embodied_agent_runtime.Common.{
  ℕ, ◌*◌, ◌/◌, ◌%◌, ◌≤◌, ◌<◌, Bool, true, false, not, ◌||◌, Option, none, some, List, [], ◌∷◌,
  length, is_some, ◌≡◌, refl, inl, inr, Bool-cases, Option-cases, arith, ap, ◌∙◌, sym,
}
use mathlib.Core.Option.{some_inj}
use embodied_agent_runtime.Common.Int.{ℤ, pos, negsuc, IsInt32}
use embodied_agent_runtime.Common.Map.{text_key, find, emplace, find-emplace}
use embodied_agent_runtime.Common.Text.{Text, text_eq, text_eq_iff}
use embodied_agent_runtime.Bridge.Policy.{duration_to_milliseconds, duration_to_milliseconds_iff}
use embodied_agent_runtime.Bridge.Host.{DeviceBridge}
use embodied_agent_runtime.Bridge.Node.{handle_goal}
use embodied_agent_runtime.Can.Protocol.{stop_command_id_min}
use embodied_agent_runtime.Executor.TargetValidator.{contains, construct_validator, is_known}
use embodied_agent_runtime.Executor.Allowlist.{is_known_iff}
use embodied_agent_runtime.Executor.Host.{TaskExecutor}
use embodied_agent_runtime.Executor.Node.{
  TaskParameters, exceeds_int32, align, construct_executor, allocate_command_id,
}
use embodied_agent_runtime.Executor.Worker.{device_goal, child_ack_timeout_ms}

timeout-roundtrip :
    (ms limit : ℕ)
    → 1 ≤ ms
    → ms ≤ limit
    → duration_to_milliseconds
        (record { sec = pos (ms / 1000); nanosec = ms % 1000 * 1000000 })
        (pos limit)
      ≡ some ms
timeout-roundtrip ms limit low high =
    (duration_to_milliseconds_iff (record { sec = pos (ms / 1000); nanosec = ms % 1000 * 1000000 })
        limit ms).1
      ((refl, omega arith, omega arith), (high, omega arith, omega arith))

child_ack_timeout_ms-bounds :
    (ack_timeout_ms remaining : ℕ)
    → 1 ≤ ack_timeout_ms
    → (1 ≤ child_ack_timeout_ms ack_timeout_ms remaining)
      × (child_ack_timeout_ms ack_timeout_ms remaining ≤ ack_timeout_ms)
unfolding child_ack_timeout_ms
child_ack_timeout_ms-bounds ack_timeout_ms remaining h = (ground arith, ground arith)

-- What the executor sends with an id of its own is accepted by an idle bridge with an open socket whose
-- limit is no lower than the executor's, which reads
-- back the timeout that was meant; the id is below the bridge's STOP ids.
pub device_goal-handle_goal :
    (n : TaskExecutor) (b : DeviceBridge) (argument : ℤ) (remaining : ℕ) (trace : Text)
    → 1 ≤ n.ack_timeout_ms
    → n.ack_timeout_ms ≤ b.max_ack_timeout_ms
    → b.socket_open ≡ true
    → b.active_goal ≡ false
    → let ack_ms = child_ack_timeout_ms n.ack_timeout_ms remaining in
      let g = device_goal (allocate_command_id n).0 n.device_opcode argument ack_ms trace in
      ((handle_goal g b).0 ≡ true)
      × (duration_to_milliseconds g.ack_timeout (pos b.max_ack_timeout_ms) ≡ some ack_ms)
      × (g.command_id < stop_command_id_min)
unfolding handle_goal allocate_command_id
device_goal-handle_goal n b argument remaining trace low high open_socket idle =
    let (above, below) = child_ack_timeout_ms-bounds n.ack_timeout_ms remaining low in
    let valid =
      timeout-roundtrip (child_ack_timeout_ms n.ack_timeout_ms remaining) b.max_ack_timeout_ms above
        (omega (arith, below, high)) in
    (ground (arith, valid, open_socket, idle), valid, ground arith)

-- Whether an argument that is found is an `int32_t`.
abbrev in_range : Option ℤ → Bool
in_range none = true
in_range (some a) = not (exceeds_int32 a)

in_range-IsInt32 : (a : ℤ) → in_range (some a) ≡ true → IsInt32 a
in_range-IsInt32 (pos n) h = ground arith
in_range-IsInt32 (negsuc n) h = ground arith

is_some-emplace :
    (t x : Text) (a : ℤ) (m : List (Text × ℤ))
    → is_some (find t (emplace x a m)) ≡ (text_eq t x || is_some (find t m))
is_some-emplace t x a m = elim (Bool-cases (text_eq t x)) [
  | inr other ↦ ground (arith, find-emplace t x a m, other)
  | inl same ↦
      ground (arith, find-emplace t x a m, same, ap (λ y. find y m) ((text_eq_iff t x).0 same))
]

align-find :
    (t : Text) (ts : List Text) (arguments : List ℤ) (aligned out : List (Text × ℤ))
    → length ts ≡ length arguments
    → align ts arguments aligned ≡ some out
    → (is_some (find t out) ≡ (contains t ts || is_some (find t aligned)))
      × ((in_range (find t aligned) ≡ true) → in_range (find t out) ≡ true)
unfolding align
align-find t [] arguments aligned out l e = rw (some_inj.0 e) (refl, λ k. k)
align-find t (x ∷ ts) [] aligned out l e = absurd (omega (arith, l))
align-find t (x ∷ ts) (a ∷ arguments) aligned out l e =
    let held = find-emplace t x a aligned in
    let (there, range) =
      align-find t ts arguments (emplace x a aligned) out (omega (arith, l)) (ground (arith, e)) in
    (there ∙ ground (arith, is_some-emplace t x a aligned), λ k. range (ground (arith, held, k, e)))

-- What the constructor has done where it returns.
construct_executor-parts :
    (first : ℕ) (p : TaskParameters) (n : TaskExecutor)
    → construct_executor first p ≡ some n
    → (length p.targets ≡ length p.target_arguments)
      × (align p.targets p.target_arguments [] ≡ some n.target_arguments)
      × (construct_validator p.targets ≡ some n.validator)
unfolding construct_executor
construct_executor-parts first p n made =
    elim (Option-cases (align p.targets p.target_arguments [])) [
      | inl e ↦ absurd (ground (arith, made, e))
      | inr (aligned, e) ↦ elim (Option-cases (construct_validator p.targets)) [
        | inl f ↦ absurd (ground (arith, made, e, f))
        | inr (v, f) ↦
            (ground (arith, made), e ∙ ground (arith, made, e, f), f ∙ ground (arith, made, e, f))
      ]
    ]

-- A target that the executor lets through has an argument, so the look-up before the dispatch does not
-- throw, and the argument is an `int32_t`.
pub construct_executor-argument :
    (first : ℕ) (p : TaskParameters) (n : TaskExecutor) (t : Text)
    → construct_executor first p ≡ some n
    → is_known t n.validator ≡ true
    → (a : ℤ) × (find t n.target_arguments ≡ some a) × IsInt32 a
unfolding find
construct_executor-argument first p n t made known =
    let (l, e, f) = construct_executor-parts first p n made in
    let (there, range) = align-find t p.targets p.target_arguments [] n.target_arguments l e in
    let listed = (is_known_iff p.targets n.validator t f).0 known in
    elim (Option-cases (find t n.target_arguments)) [
      | inl missing ↦ absurd (ground (arith, there, listed, missing))
      | inr (a, found) ↦ (a, found, in_range-IsInt32 a (sym (ap in_range found) ∙ range refl))
    ]
