-- ===== src/Executor/SoundAwait.antt =====
-- The wait for the device command in task_executor/src/task_executor_node.cpp keeps the invariant.
use embodied_agent_runtime.Common.{
  ℕ, zero, suc, Bool, true, false, not, ◌&&◌, ◌||◌, Option, none, some, refl, arith,
}
use embodied_agent_runtime.Common.Int.{ℤ}
use embodied_agent_runtime.Common.Exec.{pure, ◌>>◌}
use embodied_agent_runtime.Common.Exec.Ensures.{
  Ensures, Keeps, bind-Ensures, Keeps-Ensures, pure-Ensures, gets-Ensures, if-Ensures, pure-Keeps,
  throw-Keeps, exhaust-Keeps, if-Keeps, cases-Keeps, gets-Keeps, bind-Keeps,
}
use embodied_agent_runtime.Bridge.Host.{Goal}
use embodied_agent_runtime.Executor.Host.{
  TaskGoal, TaskHost, WrappedResult, dispatched, TaskRun, before_send_goal, after_send_goal,
  before_success, feedback_running, feedback_recovering,
}
use embodied_agent_runtime.Executor.Node.{allocate_command_id}
use embodied_agent_runtime.Executor.Finish.{say}
use embodied_agent_runtime.Executor.Child.{cancel_child_once}
use embodied_agent_runtime.Executor.Verdict.{
  StopCause, no_cause, user_cancel, deadline_passed, shutting_down, unaccepted_verdict,
}
use embodied_agent_runtime.Executor.Trace.{has_refusal}
use embodied_agent_runtime.Executor.Worker.{
  argument_of, dispatch, accept_loop, recover_child, settle_acceptance, new_cause, drain_loop,
  last_cause,
}
use embodied_agent_runtime.Executor.Sound.{
  is_backed_mono, Fact, Sound, IsStable, ask-Sound, attempt-Sound, quiet-Sound, emit_stage-Sound,
  run_worker_hook-Sound, publish_feedback-Sound,
}
use embodied_agent_runtime.Executor.SoundChild.{
  on_child-Sound, sync-Sound, wait_for-Sound, cancel_child_once-Sound, record_cancel_timeout-Sound,
}
use embodied_agent_runtime.Executor.SoundEnd.{anything, anything-IsStable}
use embodied_agent_runtime.Executor.SoundWorker.{wants, obey_failure-Sound, find_cause-Sound}

module _ (h : TaskHost) (goal : TaskGoal) where
  open h use {World, running, context_ok, canceling, goal_active, clock, send_goal}

  dispatched-Sound : (g : Goal) → Keeps (Sound {W = World} anything) (say (dispatched g))
  unfolding say
  dispatched-Sound g = record {
    at = λ r k. record {
      sound = record {
        well_ended = ground (arith, k.sound.well_ended);
        end_marked = ground (arith, k.sound.end_marked);
        event_marked = ground (arith, k.sound.event_marked);
        result_backed = is_backed_mono (dispatched g) r.child.result r.log k.sound.result_backed;
        refusal_backed = ground (arith, k.sound.refusal_backed);
      };
      known = refl;
    };
  }

  argument_of-Sound : (o : Option ℤ) → Keeps (Sound anything) (argument_of h goal o)
  unfolding argument_of
  argument_of-Sound none = throw-Keeps _
  argument_of-Sound (some a) = pure-Keeps a

  pub dispatch-Sound : (remaining : ℕ) → Keeps (Sound anything) (dispatch h goal remaining)
  unfolding dispatch allocate_command_id
  dispatch-Sound remaining =
      let stable = anything-IsStable in
      bind-Keeps _ _ (gets-Keeps _) (λ n.
        bind-Keeps _ _
          (quiet-Sound _ stable (λ r. record r { node = (allocate_command_id r.node).1 })
            (λ r. (refl, refl, refl, refl)))
          (λ _. bind-Keeps _ _ (argument_of-Sound _) (λ argument.
            bind-Keeps _ _ (emit_stage-Sound _ stable _ _ _) (λ _.
              bind-Keeps _ _ (emit_stage-Sound _ stable _ _ _) (λ _.
                bind-Keeps _ _ (publish_feedback-Sound h _ stable feedback_running 25) (λ _.
                  bind-Keeps _ _ (run_worker_hook-Sound h _ stable before_send_goal) (λ _.
                    bind-Keeps _ _
                      (on_child-Sound h _ stable (λ c. record c { dispatch_started = true })
                        (λ c. (refl, refl, refl)))
                      (λ _. bind-Keeps _ _ (attempt-Sound _ stable (send_goal _)) (λ _.
                        bind-Keeps _ _ (dispatched-Sound _)
                          (λ _. run_worker_hook-Sound h _ stable after_send_goal))))))))))

  module _ (fact : Fact) (stable : IsStable fact) where
    pub recover_child-Sound : Keeps (Sound fact) (recover_child h goal)
    unfolding recover_child
    recover_child-Sound =
        bind-Keeps _ _ (publish_feedback-Sound h fact stable feedback_recovering 60)
          (λ _. cancel_child_once-Sound h fact stable)

    pub accept_loop-Sound :
        (fuel poll_ms deadline : ℕ) → Keeps (Sound fact) (accept_loop h goal fuel poll_ms deadline)
    unfolding accept_loop
    accept_loop-Sound zero poll_ms deadline = exhaust-Keeps
    accept_loop-Sound (suc fuel) poll_ms deadline =
        bind-Keeps _ _ (wait_for-Sound h fact stable poll_ms _) (λ received.
          if-Keeps _ _ _ (pure-Keeps _) (
            bind-Keeps _ _ (find_cause-Sound h goal fact stable deadline)
              (λ cause. cases-Keeps _ _ _ (pure-Keeps _) (accept_loop-Sound fuel _ deadline))))

    recovers-Sound : (c : StopCause) → Keeps (Sound fact) (do recover_child h goal; pure c)
    recovers-Sound c = bind-Keeps _ _ recover_child-Sound (λ _. pure-Keeps _)

    cancels-Sound :
        (c : StopCause) → Keeps {S = TaskRun World} (Sound fact) (do cancel_child_once h; pure c)
    cancels-Sound c = bind-Keeps _ _ (cancel_child_once-Sound h fact stable) (λ _. pure-Keeps _)

    new_cause-Sound :
        (cause : StopCause) (time deadline : ℕ)
        → Keeps (Sound fact) (new_cause h goal cause time deadline)
    unfolding new_cause
    new_cause-Sound cause time deadline = bind-Keeps _ _ (ask-Sound fact stable running) (λ r.
        if-Keeps _ _ _ (recovers-Sound shutting_down) (
          if-Keeps _ _ _ (pure-Keeps _) (
            bind-Keeps _ _ (ask-Sound fact stable canceling) (λ cancel.
              if-Keeps _ _ _ (recovers-Sound user_cancel)
                (if-Keeps _ _ _ (recovers-Sound deadline_passed) (pure-Keeps _))))))

    pub last_cause-Sound :
        (cause : StopCause) (x : WrappedResult) (deadline : ℕ)
        → Keeps (Sound fact) (last_cause h goal cause x deadline)
    unfolding last_cause
    last_cause-Sound cause x deadline =
        if-Keeps _ _ _
          (bind-Keeps _ _ (run_worker_hook-Sound h fact stable before_success) (λ _.
            bind-Keeps _ _ (ask-Sound fact stable running) (λ r.
              if-Keeps _ _ _ (cancels-Sound shutting_down) (
                bind-Keeps _ _ (ask-Sound fact stable canceling) (λ cancel.
                  if-Keeps _ _ _ (cancels-Sound user_cancel) (
                    bind-Keeps _ _ (ask-Sound fact stable clock)
                      (λ time. if-Keeps _ _ _ (cancels-Sound deadline_passed) (pure-Keeps _))))))))
          (pure-Keeps _)

  -- Where the command was not accepted and an answer was seen, the answer was a refusal.
  abbrev pub answered : Bool × Bool → Fact
  answered (accepted, received) p q l = not (not accepted && received) || has_refusal l

  pub settle_acceptance-Sound :
      (cause : StopCause)
      → Ensures
          (Sound anything)
          (settle_acceptance h goal cause)
          (λ a. Sound (answered a))
          (Sound anything)
  unfolding settle_acceptance
  settle_acceptance-Sound cause =
      let stable = anything-IsStable in
      bind-Ensures _ _ (Keeps-Ensures (sync-Sound h _ stable)) (λ _.
        bind-Ensures _ _ (Keeps-Ensures (gets-Keeps _)) (λ handle.
          if-Ensures _ _ _
            (bind-Ensures _ _ (Keeps-Ensures (recover_child-Sound _ stable)) (λ _.
              bind-Ensures _ _ (Keeps-Ensures (gets-Keeps _)) (λ limit.
                bind-Ensures _ _ (Keeps-Ensures (wait_for-Sound h _ stable limit _)) (λ _.
                  gets-Ensures _ (λ r k. record {
                    sound = k.sound;
                    known = ground (arith, k.sound.refusal_backed);
                  })))))
            (pure-Ensures _ (λ r k. record { sound = k.sound; known = ground arith }))))

  pub unaccepted-wanted :
      (cause : StopCause) (received : Bool) (r : TaskRun World)
      → Sound (answered (false, received)) r
      → Sound (wants (unaccepted_verdict cause received)) r
  unfolding unaccepted_verdict
  unaccepted-wanted user_cancel true r k = record {
    sound = k.sound;
    known = ground (arith, k.known);
  }
  unaccepted-wanted user_cancel false r k = record { sound = k.sound; known = refl }
  unaccepted-wanted deadline_passed true r k = record { sound = k.sound; known = refl }
  unaccepted-wanted deadline_passed false r k = record { sound = k.sound; known = refl }
  unaccepted-wanted shutting_down received r k = record { sound = k.sound; known = refl }
  unaccepted-wanted no_cause received r k = record { sound = k.sound; known = refl }

  pub drain_loop-Sound :
      (fuel : ℕ) (cause : StopCause) (deadline : ℕ)
      → Keeps (Sound anything) (drain_loop h goal fuel cause deadline)
  unfolding drain_loop
  drain_loop-Sound zero cause deadline = exhaust-Keeps
  drain_loop-Sound (suc fuel) cause deadline =
      let stable = anything-IsStable in
      bind-Keeps _ _ (wait_for-Sound h _ stable 25 _) (λ terminal. if-Keeps _ _ _ (pure-Keeps _) (
        bind-Keeps _ _ (ask-Sound _ stable clock) (λ time.
          bind-Keeps _ _ (record_cancel_timeout-Sound h _ stable time) (λ _.
            bind-Keeps _ _ (sync-Sound h _ stable) (λ _. bind-Keeps _ _ (gets-Keeps _) (λ expired.
              cases-Keeps _ _ _
                (bind-Keeps _ _ (obey_failure-Sound h goal _ _ _) (λ _. pure-Keeps _))
                (bind-Keeps _ _ (if-Keeps _ _ _ (cancel_child_once-Sound h _ stable) (pure-Keeps _))
                  (λ _.
                    bind-Keeps _ _ (new_cause-Sound _ stable cause time deadline)
                      (λ cause'. drain_loop-Sound fuel cause' deadline)))))))))
