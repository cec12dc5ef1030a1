-- ===== src/Executor/Trace.antt =====
-- What the effects of a worker of task_executor/src/task_executor_node.cpp say of each other. A log lists the
-- latest effect first.
use embodied_agent_runtime.Common.{
  ℕ, Bool, true, false, not, ◌&&◌, ◌||◌, none, some, List, [], ◌∷◌, ◌==◌,
}
use embodied_agent_runtime.Common.Text.{Text, text_eq}
use embodied_agent_runtime.Bridge.Host.{Ending, succeeds, aborts, cancels, canceled}
use embodied_agent_runtime.Executor.Host.{
  WrappedResult, TaskEffect, dispatched, delivered, refused, finished, announced,
}
use embodied_agent_runtime.Executor.Verdict.{is_success, is_canceled}

-- A result by which the bridge confirms a cancellation.
abbrev pub is_confirmed : WrappedResult → Bool
is_confirmed x = elim x.result [
  | none ↦ false
  | some result ↦ is_canceled x.code && (result.outcome == canceled)
]

-- Whether the log holds such an effect.
abbrev pub delivers : (WrappedResult → Bool) → List TaskEffect → Bool
delivers p [] = false
delivers p (delivered x ∷ l) = p x || delivers p l
delivers p (_ ∷ l) = delivers p l

abbrev pub has_refusal : List TaskEffect → Bool
has_refusal [] = false
has_refusal (refused ∷ l) = true
has_refusal (_ ∷ l) = has_refusal l

abbrev pub has_dispatch : List TaskEffect → Bool
has_dispatch [] = false
has_dispatch (dispatched g ∷ l) = true
has_dispatch (_ ∷ l) = has_dispatch l

abbrev pub has_end : List TaskEffect → Bool
has_end [] = false
has_end (finished e r ∷ l) = true
has_end (_ ∷ l) = has_end l

abbrev pub has_event : List TaskEffect → Bool
has_event [] = false
has_event (announced e ∷ l) = true
has_event (_ ∷ l) = has_event l

-- Whether the results that ended the task carry this outcome, error code and message.
abbrev pub ends_as : ℕ → ℕ → Text → List TaskEffect → Bool
ends_as outcome error_code message [] = true
ends_as outcome error_code message (finished e r ∷ l) =
    (r.outcome == outcome && (r.error_code == error_code && text_eq r.message message))
    && ends_as outcome error_code message l
ends_as outcome error_code message (_ ∷ l) = ends_as outcome error_code message l

-- What the effects before it must hold for a task to end so: a success is one that the bridge
-- delivered; a cancellation was confirmed by the bridge, or the bridge had refused the command, or no
-- command had been sent.
abbrev pub justifies : Ending → List TaskEffect → Bool
justifies succeeds l = delivers is_success l
justifies aborts l = true
justifies cancels l = delivers is_confirmed l || (has_refusal l || not (has_dispatch l))

-- At most one end, which is justified, and at most one event, which carries the result of the end.
abbrev pub is_well_ended : List TaskEffect → Bool
is_well_ended [] = true
is_well_ended (finished e r ∷ l) = justifies e l && (not (has_end l) && is_well_ended l)
is_well_ended (announced ev ∷ l) =
    ends_as ev.outcome ev.error_code ev.message l && (not (has_event l) && is_well_ended l)
is_well_ended (_ ∷ l) = is_well_ended l

-- The effects that say nothing of the end: all but the end, the event and the dispatch.
abbrev pub is_benign : TaskEffect → Bool
is_benign (dispatched g) = false
is_benign (finished e r) = false
is_benign (announced e) = false
is_benign _ = true
