-- ===== src/Executor/SoundWorker.antt =====
-- The worker of task_executor/src/task_executor_node.cpp: what it knows where it ends its task.
use embodied_agent_runtime.Common.{
  ℕ, zero, suc, ◌+◌, Bool, true, false, not, ltb, if◌then◌else◌, ◌≡◌, refl, arith,
}
use embodied_agent_runtime.Common.Exec.{Exec, ◌>>◌}
use embodied_agent_runtime.Common.Exec.Ensures.{
  Ensures, Keeps, bind-Ensures, weaken-Ensures, Keeps-Ensures, Ensures-Keeps, pure-Ensures,
  if-Ensures, pure-Keeps, if-Keeps, bind-Keeps,
}
use embodied_agent_runtime.Common.Text.{Text}
use embodied_agent_runtime.Bridge.Host.{Ending, succeeds, aborts, cancels}
use embodied_agent_runtime.Executor.TaskDiagnosticState.{TaskDiagnosticState}
use embodied_agent_runtime.Executor.Host.{
  TaskGoal, TaskHost, ActionResult, told, TaskRun, feedback_validating,
}
use embodied_agent_runtime.Executor.Finish.{
  on_diagnostics, publish_diagnostics, end_task, finish_task_canceled, finish_task_aborted,
  finish_task_completed,
}
use embodied_agent_runtime.Executor.Verdict.{
  StopCause, no_cause, user_cancel, deadline_passed, shutting_down, Verdict, completes,
  is_ended_by_cancel, fails,
}
use embodied_agent_runtime.Executor.Trace.{has_dispatch, justifies}
use embodied_agent_runtime.Executor.Worker.{
  obey, halted, find_cause, validation_verdict, validate_steps,
}
use embodied_agent_runtime.Executor.Sound.{
  Fact, Sound, IsStable, ask-Sound, quiet-Sound, on_diagnostics-Sound, publish_diagnostics-Sound,
  publish_feedback-Sound,
}
use embodied_agent_runtime.Executor.SoundEnd.{
  anything, justifies-IsStable, Sound-anything, end_task-Sound,
}

abbrev pub ending_of : Verdict → Ending
ending_of completes = succeeds
ending_of (is_ended_by_cancel message) = cancels
ending_of (fails outcome error_code message) = aborts

-- The evidence that a verdict wants.
abbrev pub wants : Verdict → Fact
wants v p q = justifies (ending_of v)

-- A step that keeps a fact also keeps the invariant where it throws.
pub kept :
    {W A : Type 0} {fact : Fact} {m : Exec (TaskRun W) A}
    → Keeps (Sound fact) m
    → Ensures (Sound fact) m (λ _. Sound fact) (Sound anything)
kept k = weaken-Ensures _ (λ r s. s) (λ a r s. s) Sound-anything (Keeps-Ensures k)

-- A fact that is no longer needed.
pub forgotten :
    {W A : Type 0} {fact : Fact} {m : Exec (TaskRun W) A}
    → Keeps (Sound anything) m
    → Ensures (Sound fact) m (λ _. Sound anything) (Sound anything)
forgotten k = weaken-Ensures _ Sound-anything (λ a r s. s) (λ r s. s) (Keeps-Ensures k)

module _ (h : TaskHost) (goal : TaskGoal) where
  open h use {World, running, context_ok, canceling, clock, pause, send_goal}

  -- An end after a note in the diagnostics.
  noted-Sound :
      (note : TaskDiagnosticState → TaskDiagnosticState) (ending : Ending) (result : ActionResult)
      (action_status : ℕ)
      → Ensures
          (Sound (λ p q. justifies ending))
          (do
            on_diagnostics note
            publish_diagnostics h
            end_task h goal ending result action_status)
          (λ _. Sound anything)
          (Sound anything)
  noted-Sound note ending result action_status =
      let stable = justifies-IsStable ending in
      bind-Ensures _ _ (kept (on_diagnostics-Sound _ stable note)) (λ _.
        bind-Ensures _ _ (kept (publish_diagnostics-Sound h _ stable))
          (λ _. end_task-Sound h goal ending result action_status))

  pub obey-Sound :
      (v : Verdict)
      → Ensures (Sound (wants v)) (obey h goal v) (λ _. Sound anything) (Sound anything)
  unfolding obey finish_task_completed finish_task_canceled finish_task_aborted
  obey-Sound completes = noted-Sound _ _ _ _
  obey-Sound (is_ended_by_cancel message) = noted-Sound _ _ _ _
  obey-Sound (fails outcome error_code message) = noted-Sound _ _ _ _

  pub obey_failure-Sound :
      (outcome error_code : ℕ) (message : Text)
      → Keeps (Sound anything) (obey h goal (fails outcome error_code message))
  obey_failure-Sound outcome error_code message =
      Ensures-Keeps (obey-Sound (fails outcome error_code message))

  module _ (fact : Fact) (stable : IsStable fact) where
    pub halted-Sound : Keeps (Sound fact) (halted h goal)
    unfolding halted
    halted-Sound = bind-Keeps _ _ (ask-Sound fact stable running) (λ r.
        if-Keeps _ _ _ (bind-Keeps _ _ (ask-Sound fact stable context_ok) (λ ok. pure-Keeps _))
          (pure-Keeps _))

    pub find_cause-Sound : (deadline : ℕ) → Keeps (Sound fact) (find_cause h goal deadline)
    unfolding find_cause
    find_cause-Sound deadline = bind-Keeps _ _ halted-Sound (λ stop. if-Keeps _ _ _ (pure-Keeps _) (
        bind-Keeps _ _ (ask-Sound fact stable canceling) (λ cancel. if-Keeps _ _ _ (pure-Keeps _) (
          bind-Keeps _ _ (ask-Sound fact stable clock)
            (λ time. if-Keeps _ _ _ (pure-Keeps _) (pure-Keeps _))))))

  paused_quiet :
      (b : Bool) (ms : ℕ) (r : TaskRun World)
      → let r' = if b then record r { world = pause ms r.world } else r in
        (r'.node.parent_terminal ≡ r.node.parent_terminal)
        × (r'.node.terminal_event_published ≡ r.node.terminal_event_published)
        × (r'.child ≡ r.child)
        × (r'.log ≡ r.log)
  paused_quiet true ms r = (refl, refl, refl, refl)
  paused_quiet false ms r = (refl, refl, refl, refl)

  -- No command has been sent.
  abbrev pub undispatched : Fact
  undispatched p q l = not (has_dispatch l)

  pub undispatched-IsStable : IsStable undispatched
  undispatched-IsStable p q (told s n) l b k = k
  undispatched-IsStable p q e l b k = ground (arith, b, k)

  -- Before a command, nothing more is wanted.
  validation-wanted :
      (cause : StopCause) (r : TaskRun World)
      → Sound undispatched r
      → Sound (wants (validation_verdict h goal cause)) r
  validation-wanted shutting_down r k = record { sound = k.sound; known = refl }
  validation-wanted user_cancel r k = record { sound = k.sound; known = ground (arith, k.known) }
  validation-wanted deadline_passed r k = record { sound = k.sound; known = refl }
  validation-wanted no_cause r k = record { sound = k.sound; known = refl }

  pub validate_steps-Sound :
      (left step step_ms deadline : ℕ)
      → Ensures
          (Sound undispatched)
          (validate_steps h goal left step step_ms deadline)
          (λ _. Sound anything)
          (Sound anything)
  unfolding validate_steps
  validate_steps-Sound zero step step_ms deadline = pure-Ensures true Sound-anything
  validate_steps-Sound (suc left) step step_ms deadline =
      let stable = undispatched-IsStable in
      bind-Ensures _ _ (kept (find_cause-Sound _ stable deadline)) (λ cause.
        if-Ensures _ _ _
          (bind-Ensures _ _
            (weaken-Ensures _ (validation-wanted cause) (λ a r s. s) (λ r s. s)
              (obey-Sound (validation_verdict h goal cause)))
            (λ _. pure-Ensures false (λ r k. k)))
          (bind-Ensures _ _ (kept (publish_feedback-Sound h _ stable feedback_validating _)) (λ _.
            bind-Ensures _ _
              (kept (
                quiet-Sound _ stable
                  (λ r. if ltb 0 step_ms then record r { world = pause step_ms r.world } else r)
                  (λ r. paused_quiet (ltb 0 step_ms) step_ms r)))
              (λ _. validate_steps-Sound left (step + 1) step_ms deadline))))
