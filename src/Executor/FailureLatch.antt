-- ===== src/Executor/FailureLatch.antt =====
-- What the published status of task_executor/src/diagnostic_state.cpp says of the calls before it.
use embodied_agent_runtime.Common.{
  ℕ, Bool, true, false, not, ◌&&◌, ◌||◌, List, [], ◌∷◌, ◌≡◌, ◌↔◌, refl, arith,
}
use embodied_agent_runtime.Common.Text.{Text}
use embodied_agent_runtime.Common.Status.{level_warn, level_error}
use embodied_agent_runtime.Executor.TaskDiagnosticState.{
  TaskDiagnosticState, initial_diagnostics, set_bridge_ready, begin_task, mark_validating,
  mark_running, mark_task_waiting_ack, mark_recovering, record_task_success, record_task_canceled,
  record_failure, is_recovering, task_summary, task_snapshot,
}

pub data Call : Type 0 where
  bridge : Bool → Call
  begins : Text → Call
  validates runs waits recovers : Call
  succeeds : Text → Call
  cancels : Call
  fails : Text → ℕ → Call

abbrev pub apply : Call → TaskDiagnosticState → TaskDiagnosticState
apply (bridge ready) s = set_bridge_ready ready s
apply (begins id) s = begin_task id s
apply validates s = mark_validating s
apply runs s = mark_running s
apply waits s = mark_task_waiting_ack s
apply recovers s = mark_recovering s
apply (succeeds outcome) s = record_task_success outcome s
apply cancels s = record_task_canceled s
apply (fails outcome code) s = record_failure outcome code s

-- The calls, the latest first.
abbrev pub after : List Call → TaskDiagnosticState
after [] = initial_diagnostics
after (c ∷ earlier) = apply c (after earlier)

-- What the latest call that says it says of the bridge, of the last task to end but by cancellation, and of
-- whether a task is recovering.
abbrev pub bridge_up : List Call → Bool
bridge_up [] = false
bridge_up (bridge ready ∷ earlier) = ready
bridge_up (_ ∷ earlier) = bridge_up earlier

abbrev pub last_failed : List Call → Bool
last_failed [] = false
last_failed (succeeds outcome ∷ earlier) = false
last_failed (fails outcome code ∷ earlier) = true
last_failed (_ ∷ earlier) = last_failed earlier

abbrev pub now_recovering : List Call → Bool
now_recovering [] = false
now_recovering (bridge ready ∷ earlier) = now_recovering earlier
now_recovering (recovers ∷ earlier) = true
now_recovering (_ ∷ earlier) = false

after_lem :
    (calls : List Call)
    → ((after calls).bridge_ready ≡ bridge_up calls)
      × ((after calls).failure_latched ≡ last_failed calls)
      × (is_recovering (after calls).phase ≡ now_recovering calls)
unfolding initial_diagnostics set_bridge_ready begin_task mark_validating mark_running
    mark_task_waiting_ack mark_recovering record_task_success record_task_canceled record_failure
after_lem [] = (refl, refl, refl)
after_lem (bridge ready ∷ earlier) = let (b, f, r) = after_lem earlier in (refl, f, r)
after_lem (begins id ∷ earlier) = let (b, f, r) = after_lem earlier in (b, f, refl)
after_lem (validates ∷ earlier) = let (b, f, r) = after_lem earlier in (b, f, refl)
after_lem (runs ∷ earlier) = let (b, f, r) = after_lem earlier in (b, f, refl)
after_lem (waits ∷ earlier) = let (b, f, r) = after_lem earlier in (b, f, refl)
after_lem (recovers ∷ earlier) = let (b, f, r) = after_lem earlier in (b, f, refl)
after_lem (succeeds outcome ∷ earlier) = let (b, f, r) = after_lem earlier in (b, refl, refl)
after_lem (cancels ∷ earlier) = let (b, f, r) = after_lem earlier in (b, f, refl)
after_lem (fails outcome code ∷ earlier) = let (b, f, r) = after_lem earlier in (b, refl, refl)

-- Through any calls, the status is an error exactly if the bridge was last said not to be ready, or was
-- never spoken of, or the last task that was not canceled failed; it is a warning exactly if neither
-- holds and a recovery is the latest that was said of the task.
pub task_snapshot-after :
    (calls : List Call)
    → (((task_snapshot (after calls)).level ≡ level_error)
        ↔ (not (bridge_up calls) || last_failed calls ≡ true))
      × (((task_snapshot (after calls)).level ≡ level_warn)
          ↔ (bridge_up calls && (not (last_failed calls) && now_recovering calls) ≡ true))
unfolding task_snapshot task_summary
task_snapshot-after calls =
    let (b, f, r) = after_lem calls in rw (b, f, r) (ground arith, ground arith)
