-- ===== src/Executor/SoundChild.antt =====
-- The callbacks and the cancellation of the device command in
-- task_executor/src/task_executor_node.cpp keep the worker's invariant.
use embodied_agent_runtime.Common.{
  ℕ, zero, suc, Bool, true, false, ◌&&◌, ◌||◌, some, List, [], ◌∷◌, if◌then◌else◌, ◌≡◌, refl, arith,
}
use embodied_agent_runtime.Common.Exec.{pure, change}
use embodied_agent_runtime.Common.Exec.Ensures.{
  Ensures, Keeps, bind-Ensures, Keeps-Ensures, Ensures-Keeps, exhaust-Keeps, pure-Ensures,
  change-Ensures, pure-Keeps, if-Keeps, cases-Keeps, gets-Keeps, bind-Keeps, catching-Keeps,
}
use embodied_agent_runtime.Executor.Host.{
  TaskHost, WrappedResult, ChildEvent, responds, ends, before_cancel_goal, ChildExecutionState,
  delivered, refused, cancels_child,
}
use embodied_agent_runtime.Executor.Finish.{say}
use embodied_agent_runtime.Executor.Child.{
  on_child, dispatch_cancel, on_goal_response, on_result, on_child_event, run_callbacks, sync,
  wait_for, cancel_child_once, record_cancel_timeout, settle_loop, settle_child_after_exception,
}
use embodied_agent_runtime.Executor.Trace.{has_refusal}
use embodied_agent_runtime.Executor.Sound.{
  is_backed, Fact, Sound, IsStable, say_lem, ask-Sound, attempt-Sound, say-Sound, quiet-Sound,
  run_worker_hook-Sound,
}

module _ (h : TaskHost) (fact : Fact) (stable : IsStable fact) where
  open h use {World, callbacks, pause, clock, cancel_goal}

  -- A change of the child's state that leaves what came from the bridge.
  pub on_child-Sound :
      (f : ChildExecutionState → ChildExecutionState)
      → ((c : ChildExecutionState)
          → ((f c).result ≡ c.result)
            × ((f c).goal_response_received ≡ c.goal_response_received)
            × ((f c).has_handle ≡ c.has_handle))
      → Keeps (Sound {W = World} fact) (on_child f)
  unfolding change
  on_child-Sound f same = record {
    at = λ r k.
        let (x, g, b) = same r.child in
        record {
          sound = record {
            well_ended = k.sound.well_ended;
            end_marked = k.sound.end_marked;
            event_marked = k.sound.event_marked;
            result_backed = rw x k.sound.result_backed;
            refusal_backed = rw (g, b) k.sound.refusal_backed;
          };
          known = k.known;
        };
  }

  dispatch_cancel-Sound : Keeps (Sound fact) (dispatch_cancel h)
  unfolding dispatch_cancel
  dispatch_cancel-Sound =
      catching-Keeps _ _
        (bind-Keeps _ _ (run_worker_hook-Sound h fact stable before_cancel_goal) (λ _.
          bind-Keeps _ _ (attempt-Sound fact stable cancel_goal)
            (λ _. say-Sound fact stable cancels_child refl)))
        (λ e.
          on_child-Sound (λ c. record c { cancel_dispatched = false }) (λ c. (refl, refl, refl)))

  -- The answer is kept with what it was.
  answer-Sound :
      (handle : Bool)
      → Ensures
          (Sound (λ p q l. fact p q l && (handle || has_refusal l)))
          (on_child (λ c. record c { goal_response_received = true; has_handle = handle }))
          (λ _. Sound {W = World} fact)
          (Sound fact)
  answer-Sound handle = change-Ensures _ (λ r k. record {
    sound = record {
      well_ended = k.sound.well_ended;
      end_marked = k.sound.end_marked;
      event_marked = k.sound.event_marked;
      result_backed = k.sound.result_backed;
      refusal_backed = ground (arith, k.known);
    };
    known = ground (arith, k.known);
  })

  refusal-Sound :
      (handle : Bool)
      → Ensures
          (Sound fact)
          (if handle then pure tt else say refused)
          (λ _. Sound {W = World} (λ p q l. fact p q l && (handle || has_refusal l)))
          (Sound fact)
  unfolding say
  refusal-Sound true =
      pure-Ensures tt (λ r k. record { sound = k.sound; known = ground (arith, k.known) })
  refusal-Sound false = record {
    at = λ r k. record {
      sound = say_lem refused refl k.sound;
      known = ground (arith, stable _ _ refused r.log refl k.known);
    };
  }

  on_goal_response-Sound : (handle : Bool) → Keeps (Sound fact) (on_goal_response h handle)
  unfolding on_goal_response
  on_goal_response-Sound handle = bind-Keeps _ _ (gets-Keeps _) (λ due. Ensures-Keeps (
      bind-Ensures _ _ (refusal-Sound handle) (λ _. bind-Ensures _ _ (answer-Sound handle) (λ _.
        Keeps-Ensures (
          if-Keeps _ _ _
            (bind-Keeps _ _ (ask-Sound fact stable clock) (λ time.
              bind-Keeps _ _
                (on_child-Sound
                  (λ c. record c { cancel_dispatched = true; cancel_started_at = time })
                  (λ c. (refl, refl, refl)))
                (λ _. dispatch_cancel-Sound)))
            (pure-Keeps _))))))

  delivered-Sound :
      (x : WrappedResult)
      → Ensures
          (Sound fact)
          (say (delivered x))
          (λ _. Sound {W = World} (λ p q l. fact p q l && is_backed (some x) l))
          (Sound fact)
  unfolding say
  delivered-Sound x = record {
    at = λ r k. record {
      sound = say_lem (delivered x) refl k.sound;
      known = ground (arith, stable _ _ (delivered x) r.log refl k.known);
    };
  }

  result-Sound :
      (x : WrappedResult)
      → Ensures
          (Sound (λ p q l. fact p q l && is_backed (some x) l))
          (on_child (λ c. record c { result = some x; terminal = true }))
          (λ _. Sound {W = World} fact)
          (Sound fact)
  result-Sound x = change-Ensures _ (λ r k. record {
    sound = record {
      well_ended = k.sound.well_ended;
      end_marked = k.sound.end_marked;
      event_marked = k.sound.event_marked;
      result_backed = ground (arith, k.known);
      refusal_backed = k.sound.refusal_backed;
    };
    known = ground (arith, k.known);
  })

  on_result-Sound : (x : WrappedResult) → Keeps (Sound fact) (on_result h x)
  unfolding on_result
  on_result-Sound x = Ensures-Keeps (bind-Ensures _ _ (delivered-Sound x) (λ _. result-Sound x))

  on_child_event-Sound : (e : ChildEvent) → Keeps (Sound fact) (on_child_event h e)
  unfolding on_child_event
  on_child_event-Sound (responds handle) = on_goal_response-Sound handle
  on_child_event-Sound (ends x) = on_result-Sound x

  run_callbacks-Sound : (es : List ChildEvent) → Keeps (Sound fact) (run_callbacks h es)
  unfolding run_callbacks
  run_callbacks-Sound [] = pure-Keeps _
  run_callbacks-Sound (e ∷ es) =
      bind-Keeps _ _ (on_child_event-Sound e) (λ _. run_callbacks-Sound es)

  pub sync-Sound : Keeps (Sound fact) (sync h)
  unfolding sync
  sync-Sound = bind-Keeps _ _ (ask-Sound fact stable callbacks) run_callbacks-Sound

  pub wait_for-Sound :
      (ms : ℕ) (test : ChildExecutionState → Bool) → Keeps (Sound fact) (wait_for h ms test)
  unfolding wait_for
  wait_for-Sound ms test =
      bind-Keeps _ _
        (quiet-Sound fact stable (λ r. record r { world = pause ms r.world })
          (λ r. (refl, refl, refl, refl)))
        (λ _. bind-Keeps _ _ sync-Sound (λ _. gets-Keeps _))

  pub cancel_child_once-Sound : Keeps (Sound fact) (cancel_child_once h)
  unfolding cancel_child_once
  cancel_child_once-Sound = bind-Keeps _ _ sync-Sound (λ _.
      bind-Keeps _ _ (gets-Keeps _) (λ requested.
        bind-Keeps _ _
          (if-Keeps _ _ _ (pure-Keeps _) (
            bind-Keeps _ _ (ask-Sound fact stable clock) (λ time.
              on_child-Sound (λ c. record c { cancel_requested = true; cancel_requested_at = time })
                (λ c. (refl, refl, refl)))))
          (λ _. bind-Keeps _ _ (gets-Keeps _) (λ c. if-Keeps _ _ _ (pure-Keeps _) (
            bind-Keeps _ _ (ask-Sound fact stable clock) (λ started.
              bind-Keeps _ _
                (on_child-Sound
                  (λ c'. record c' { cancel_dispatched = true; cancel_started_at = started })
                  (λ c'. (refl, refl, refl)))
                (λ _. dispatch_cancel-Sound)))))))

  -- Only the mark that the cancellation timed out may change.
  time_out_quiet :
      (b : Bool) (c : ChildExecutionState)
      → let c' = if b then record c { cancel_timed_out = true } else c in
        (c'.result ≡ c.result)
        × (c'.goal_response_received ≡ c.goal_response_received)
        × (c'.has_handle ≡ c.has_handle)
  time_out_quiet true c = (refl, refl, refl)
  time_out_quiet false c = (refl, refl, refl)

  pub record_cancel_timeout-Sound : (time : ℕ) → Keeps (Sound fact) (record_cancel_timeout h time)
  unfolding record_cancel_timeout
  record_cancel_timeout-Sound time =
      bind-Keeps _ _ sync-Sound
        (λ _. bind-Keeps _ _ (gets-Keeps _) (λ limit. on_child-Sound _ (λ c. time_out_quiet _ c)))

  settle_loop-Sound : (fuel deadline : ℕ) → Keeps (Sound fact) (settle_loop h fuel deadline)
  unfolding settle_loop
  settle_loop-Sound zero deadline = exhaust-Keeps
  settle_loop-Sound (suc fuel) deadline = bind-Keeps _ _ cancel_child_once-Sound (λ _.
      bind-Keeps _ _ (wait_for-Sound 25 (λ c. c.terminal)) (λ terminal.
        bind-Keeps _ _ (ask-Sound fact stable clock)
          (λ time. cases-Keeps _ _ _ (pure-Keeps _) (settle_loop-Sound fuel deadline))))

  pub settle_child_after_exception-Sound :
      (fuel : ℕ) → Keeps (Sound fact) (settle_child_after_exception h fuel)
  unfolding settle_child_after_exception
  settle_child_after_exception-Sound fuel = bind-Keeps _ _ cancel_child_once-Sound (λ _.
      bind-Keeps _ _ (ask-Sound fact stable clock) (λ time. bind-Keeps _ _ (gets-Keeps _) (λ limit.
        bind-Keeps _ _ (gets-Keeps _) (λ started. if-Keeps _ _ _ (pure-Keeps _) (
          bind-Keeps _ _ (wait_for-Sound limit (λ c. c.goal_response_received)) (λ received.
            bind-Keeps _ _ (gets-Keeps _)
              (λ c. if-Keeps _ _ _ (pure-Keeps _) (settle_loop-Sound fuel _))))))))
