-- ===== src/Executor/WellEnded.antt =====
-- How the tasks of task_executor/src/task_executor_node.cpp end.
use embodied_agent_runtime.Common.{
  ℕ, Bool, true, false, not, Option, none, some, List, [], if◌then◌else◌, ◌≡◌, refl, arith,
}
use embodied_agent_runtime.Common.Exec.{Result, returned, thrown, exhausted, Exec}
use embodied_agent_runtime.Common.Exec.Ensures.{
  Holds, Ensures, Keeps, bind-Ensures, weaken-Ensures, Keeps-Ensures, Ensures-Keeps, pure-Ensures,
  throw-Ensures, gets-Ensures, catching-Ensures, pure-Keeps, if-Keeps, gets-Keeps, bind-Keeps,
  catching-Keeps,
}
use embodied_agent_runtime.Common.Text.{Text}
use embodied_agent_runtime.Executor.Host.{
  TaskGoal, TaskHost, WrappedResult, TaskEffect, TaskExecutor, TaskRun, after_child_accepted,
  feedback_task_waiting_ack,
}
use embodied_agent_runtime.Executor.Node.{fresh_child}
use embodied_agent_runtime.Executor.Verdict.{
  StopCause, no_cause, user_cancel, deadline_passed, shutting_down, child_verdict, wrapped_verdict,
  unaccepted_verdict,
}
use embodied_agent_runtime.Executor.Trace.{justifies, is_well_ended}
use embodied_agent_runtime.Executor.Worker.{
  obey, result_of, conclude, await_child, execute_worker, finish_worker_exception, release, execute,
}
use embodied_agent_runtime.Executor.Sound.{
  is_backed, is_backed_mono, Fact, Sound, IsStable, ask-Sound, quiet-Sound, emit_stage-Sound,
  run_worker_hook-Sound, publish_feedback-Sound,
}
use embodied_agent_runtime.Executor.SoundChild.{
  sync-Sound, record_cancel_timeout-Sound, settle_child_after_exception-Sound,
}
use embodied_agent_runtime.Executor.SoundEnd.{anything, anything-IsStable, Sound-anything}
use embodied_agent_runtime.Executor.SoundWorker.{
  ending_of, kept, forgotten, obey-Sound, obey_failure-Sound, halted-Sound, validate_steps-Sound,
  undispatched, undispatched-IsStable,
}
use embodied_agent_runtime.Executor.SoundAwait.{
  dispatch-Sound, settle_acceptance-Sound, unaccepted-wanted, drain_loop-Sound, recover_child-Sound,
  accept_loop-Sound, last_cause-Sound, answered,
}

-- A verdict on a result that was delivered has what it wants.
child-wanted :
    (x : WrappedResult) (cause : StopCause) (timed_out : Bool) (l : List TaskEffect)
    → is_backed (some x) l ≡ true
    → justifies (ending_of (wrapped_verdict x cause timed_out)) l ≡ true
unfolding wrapped_verdict child_verdict
child-wanted x no_cause timed_out l k = ground (arith, k)
child-wanted x user_cancel timed_out l k = ground (arith, k)
child-wanted x deadline_passed timed_out l k = ground (arith, k)
child-wanted x shutting_down timed_out l k = ground (arith, k)

module _ (h : TaskHost) (goal : TaskGoal) where
  open h use {World, running, context_ok, canceling, goal_active, clock, send_goal}

  -- What the child's result is backed by, once it is read.
  abbrev backs : Option WrappedResult → Fact
  backs o p q l = is_backed o l

  backs-IsStable : (o : Option WrappedResult) → IsStable (backs o)
  backs-IsStable o p q e l b k = is_backed_mono e o l k

  result_of-Sound :
      (o : Option WrappedResult)
      → Ensures {S = TaskRun World}
          (Sound (backs o))
          (result_of h goal o)
          (λ x. Sound (backs (some x)))
          (Sound anything)
  unfolding result_of
  result_of-Sound none = throw-Ensures _ Sound-anything
  result_of-Sound (some x) = pure-Ensures x (λ r k. k)

  conclude-Sound :
      (drained : Option StopCause) (deadline : ℕ)
      → Keeps (Sound anything) (conclude h goal drained deadline)
  unfolding conclude
  conclude-Sound none deadline = pure-Keeps _
  conclude-Sound (some cause) deadline =
      let stable = anything-IsStable in
      bind-Keeps _ _ (ask-Sound _ stable clock) (λ time.
        bind-Keeps _ _ (record_cancel_timeout-Sound h _ stable time) (λ _.
          bind-Keeps _ _ (sync-Sound h _ stable) (λ _. Ensures-Keeps (
            bind-Ensures _ _
              (gets-Ensures _ {Q = λ c. Sound (backs c.result)}
                (λ r k. record { sound = k.sound; known = k.sound.result_backed }))
              (λ c. bind-Ensures _ _ (result_of-Sound c.result) (λ x.
                bind-Ensures _ _
                  (kept (last_cause-Sound h goal _ (backs-IsStable (some x)) cause x deadline))
                  (λ cause'.
                    weaken-Ensures _
                      (λ r k. record {
                        sound = k.sound;
                        known = child-wanted x cause' c.cancel_timed_out r.log k.known;
                      })
                      (λ a r s. s) (λ r s. s) (obey-Sound h goal _))))))))

  accepted-Sound :
      (cause : StopCause) (received accepted : Bool) (m : Exec (TaskRun World) (Unit {0}))
      → Keeps (Sound anything) m
      → Ensures
          (Sound (answered h goal (accepted, received)))
          (if not accepted then obey h goal (unaccepted_verdict cause received) else m)
          (λ _. Sound anything)
          (Sound anything)
  accepted-Sound cause received true m k = forgotten k
  accepted-Sound cause received false m k =
      weaken-Ensures _ (unaccepted-wanted h goal cause received) (λ a r s. s) (λ r s. s)
        (obey-Sound h goal _)

  await_child-Sound :
      (fuel deadline : ℕ) → Keeps (Sound anything) (await_child h goal fuel deadline)
  unfolding await_child
  await_child-Sound fuel deadline =
      let stable = anything-IsStable in
      bind-Keeps _ _ (accept_loop-Sound h goal _ stable fuel 5 deadline) (λ waited.
        bind-Keeps _ _ (halted-Sound h goal _ stable) (λ stop. Ensures-Keeps (
          bind-Ensures _ _ (settle_acceptance-Sound h goal _) (λ (accepted, received).
            accepted-Sound _ received accepted _ (
              bind-Keeps _ _ (run_worker_hook-Sound h _ stable after_child_accepted) (λ _.
                bind-Keeps _ _
                  (if-Keeps _ _ _ (recover_child-Sound h goal _ stable)
                    (publish_feedback-Sound h _ stable feedback_task_waiting_ack 50))
                  (λ _.
                    bind-Keeps _ _ (drain_loop-Sound h goal fuel _ deadline)
                      (λ drained. conclude-Sound drained deadline))))))))

  execute_worker-Sound :
      (fuel : ℕ)
      → Ensures
          (Sound (undispatched h goal))
          (execute_worker h goal fuel)
          (λ _. Sound anything)
          (Sound anything)
  unfolding execute_worker
  execute_worker-Sound fuel =
      let stable = undispatched-IsStable h goal in
      bind-Ensures _ _ (kept (ask-Sound _ stable clock)) (λ time.
        bind-Ensures _ _ (kept (gets-Keeps _)) (λ delay.
          bind-Ensures _ _ (kept (emit_stage-Sound _ stable _ _ _)) (λ _.
            bind-Ensures _ _ (validate_steps-Sound h goal 5 1 _ _) (λ valid. Keeps-Ensures (
              if-Keeps _ _ _ (pure-Keeps _) (
                bind-Keeps _ _ (ask-Sound _ anything-IsStable clock) (λ now.
                  if-Keeps _ _ _ (obey_failure-Sound h goal _ _ _) (
                    bind-Keeps _ _ (dispatch-Sound h goal _) (λ _. await_child-Sound fuel _)))))))))

  finish_worker_exception-Sound :
      (fuel : ℕ) (detail : Text)
      → Keeps (Sound anything) (finish_worker_exception h goal fuel detail)
  unfolding finish_worker_exception
  finish_worker_exception-Sound fuel detail =
      bind-Keeps _ _ (settle_child_after_exception-Sound h _ anything-IsStable fuel)
        (λ _. catching-Keeps _ _ (obey_failure-Sound h goal _ _ _) (λ e. pure-Keeps _))

  release-Sound : Keeps (Sound anything) (release h goal)
  unfolding release
  release-Sound =
      bind-Keeps _ _ (ask-Sound _ anything-IsStable goal_active)
        (λ active. quiet-Sound _ anything-IsStable _ (λ r. (refl, refl, refl, refl)))

  execute-Sound :
      (fuel : ℕ)
      → Ensures
          (Sound (undispatched h goal))
          (execute h goal fuel)
          (λ _. Sound anything)
          (Sound anything)
  unfolding execute
  execute-Sound fuel =
      bind-Ensures _ _
        (catching-Ensures _ _ (λ r k. k) (execute_worker-Sound fuel)
          (λ e. Keeps-Ensures (finish_worker_exception-Sound fuel e)))
        (λ _. Keeps-Ensures release-Sound)

-- An invariant holds of the state whatever comes of the action.
Holds-anything :
    {W A : Type 0} (x : Result A × TaskRun W)
    → Holds (λ _. Sound anything) (Sound anything) x
    → is_well_ended x.1.log ≡ true
Holds-anything (returned a, r) k = k.sound.well_ended
Holds-anything (thrown t, r) k = k.sound.well_ended
Holds-anything (exhausted, r) k = k.sound.well_ended

-- A worker as `handle_accepted` starts it.
abbrev pub started : {W : Type 0} → W → TaskExecutor → TaskRun W
started world node = record { world = world; node = node; child = fresh_child; log = [] }

started-Sound :
    (h : TaskHost) (goal : TaskGoal) (world : h.World) (node : TaskExecutor)
    → Sound (undispatched h goal) (started world node)
started-Sound h goal world node = record {
  sound = record {
    well_ended = refl;
    end_marked = ground arith;
    event_marked = ground arith;
    result_backed = refl;
    refusal_backed = refl;
  };
  known = refl;
}

-- Whatever the host answers and wherever it throws, a worker with any fuel leaves effects that end the
-- task at most once and tell its event at most once: an event carries the outcome, the error code and
-- the message of the end; a success comes after a completed result from the bridge; a cancellation
-- comes after a canceled result from the bridge, or after its refusal, or before any command.
pub execute-is_well_ended :
    (h : TaskHost) (goal : TaskGoal) (fuel : ℕ) (world : h.World) (node : TaskExecutor)
    → is_well_ended (execute h goal fuel (started world node)).1.log ≡ true
execute-is_well_ended h goal fuel world node =
    Holds-anything (execute h goal fuel (started world node))
      ((execute-Sound h goal fuel).at (started world node) (started-Sound h goal world node))
