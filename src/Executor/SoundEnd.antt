-- ===== src/Executor/SoundEnd.antt =====
-- The end of a task in task_executor/src/task_executor_node.cpp: the transition of the goal, and the event.
use embodied_agent_runtime.Common.{
  ℕ, Bool, true, false, not, ◌&&◌, ◌||◌, List, [], ◌∷◌, if◌then◌else◌, ◌≡◌, refl, arith,
}
use embodied_agent_runtime.Common.Exec.{pure, change, ◌>>◌, catching}
use embodied_agent_runtime.Common.Exec.Ensures.{
  Ensures, bind-Ensures, weaken-Ensures, Keeps-Ensures, pure-Ensures, throw-Ensures, change-Ensures,
  gets-Ensures, if-Ensures, catching-Ensures, gets-Keeps,
}
use embodied_agent_runtime.Common.Text.{Text, text_eq_refl}
use embodied_agent_runtime.Bridge.Host.{Ending, succeeds, aborts, cancels}
use embodied_agent_runtime.Executor.TaskEvent.{TaskEvent, make_task_event}
use embodied_agent_runtime.Executor.Host.{
  TaskGoal, ActionResult, TaskHost, before_parent_transition, TaskEffect, told, finished, announced,
  TaskRun,
}
use embodied_agent_runtime.Executor.Finish.{
  say, transition_failed, make_transition, commit_parent_terminal, announce,
  publish_terminal_event_once, end_task,
}
use embodied_agent_runtime.Executor.Trace.{is_confirmed, has_end, has_event, ends_as, justifies}
use embodied_agent_runtime.Executor.Verdict.{is_success}
use embodied_agent_runtime.Executor.Sound.{
  Fact, Sound, IsStable, delivers_mono, is_backed_mono, ask-Sound, attempt-Sound,
  run_worker_hook-Sound,
}

-- Nothing more is known.
abbrev pub anything : Fact
anything p q l = true

-- The goal's transition has been taken, but not made.
abbrev is_ending : Ending → Fact
is_ending ending p q l = p && (justifies ending l && not (has_end l))

-- The transition was made with this result, if it was made.
abbrev ended_with : ActionResult → Fact
ended_with result p q l = p && ends_as result.outcome result.error_code result.message l

-- The event is still to be published.
abbrev is_announcing : ActionResult → Fact
is_announcing result p q l =
    q && (ends_as result.outcome result.error_code result.message l && not (has_event l))

pub justifies-IsStable : (ending : Ending) → IsStable (λ p q. justifies ending)
justifies-IsStable succeeds p q e l b h = delivers_mono is_success e l h
justifies-IsStable aborts p q e l b h = refl
justifies-IsStable cancels p q (told s n) l b h = h
justifies-IsStable cancels p q e l b h = ground (arith, b, h, delivers_mono is_confirmed e l)

is_ending-IsStable : (ending : Ending) → IsStable (is_ending ending)
is_ending-IsStable ending p q (told s n) l b h =
    ground (arith, h, justifies-IsStable ending p q (told s n) l refl)
is_ending-IsStable ending p q e l b h = ground (arith, b, h, justifies-IsStable ending p q e l b)

ended_with-IsStable : (result : ActionResult) → IsStable (ended_with result)
ended_with-IsStable result p q (told s n) l b h = h
ended_with-IsStable result p q e l b h = ground (arith, b, h)

is_announcing-IsStable : (result : ActionResult) → IsStable (is_announcing result)
is_announcing-IsStable result p q (told s n) l b h = h
is_announcing-IsStable result p q e l b h = ground (arith, b, h)

pub anything-IsStable : IsStable anything
anything-IsStable p q e l b h = refl

-- A log without an end has no end with another result.
none-ends_as :
    (outcome error_code : ℕ) (message : Text) (l : List TaskEffect)
    → not (has_end l) ≡ true
    → ends_as outcome error_code message l ≡ true
none-ends_as outcome error_code message [] h = refl
none-ends_as outcome error_code message (told s n ∷ l) h =
    none-ends_as outcome error_code message l h
none-ends_as outcome error_code message (e ∷ l) h =
    ground (arith, h, none-ends_as outcome error_code message l)

pub Sound-anything : {W : Type 0} {fact : Fact} (r : TaskRun W) → Sound fact r → Sound anything r
Sound-anything r k = record { sound = k.sound; known = refl }

module _ (h : TaskHost) (ending : Ending) (result : ActionResult) where
  open h use {World, goal_active, transition}

  -- The transition is taken by the first that asks for it.
  take-Sound :
      Ensures {S = TaskRun World}
        (Sound (λ p q l. not p && justifies ending l))
        (change (λ r. record r { node = record r.node { parent_terminal = true } }))
        (λ _. Sound (is_ending ending))
        (Sound anything)
  take-Sound = change-Ensures _ (λ r k. record {
    sound = record {
      well_ended = k.sound.well_ended;
      end_marked = refl;
      event_marked = k.sound.event_marked;
      result_backed = k.sound.result_backed;
      refusal_backed = k.sound.refusal_backed;
    };
    known = ground (arith, k.known, k.sound.end_marked);
  })

  finished-Sound :
      Ensures
        (Sound (is_ending ending))
        (say (finished ending result))
        (λ _. Sound {W = World} (ended_with result))
        (Sound (is_ending ending))
  unfolding say
  finished-Sound = record {
    at = λ r k. record {
      sound = record {
        well_ended = ground (arith, k.known, k.sound.well_ended);
        end_marked = ground (arith, k.known);
        event_marked = k.sound.event_marked;
        result_backed =
            is_backed_mono (finished ending result) r.child.result r.log k.sound.result_backed;
        refusal_backed = ground (arith, k.sound.refusal_backed);
      };
      known = ground (
        arith,
        k.known,
        text_eq_refl result.message,
        none-ends_as result.outcome result.error_code result.message r.log,
      );
    };
  }

  -- Put back after a throw, while the goal is active.
  put_back-Sound :
      Ensures {S = TaskRun World}
        (Sound (is_ending ending))
        (change (λ r. record r { node = record r.node { parent_terminal = false } }))
        (λ _. Sound anything)
        (Sound anything)
  put_back-Sound = change-Ensures _ (λ r k. record {
    sound = record {
      well_ended = k.sound.well_ended;
      end_marked = ground (arith, k.known);
      event_marked = k.sound.event_marked;
      result_backed = k.sound.result_backed;
      refusal_backed = k.sound.refusal_backed;
    };
    known = refl;
  })

  make_transition-Sound :
      Ensures
        (Sound (is_ending ending))
        (make_transition h ending result)
        (λ _. Sound (ended_with result))
        (Sound (is_ending ending))
  unfolding make_transition
  make_transition-Sound =
      bind-Ensures _ _
        (Keeps-Ensures
          (run_worker_hook-Sound h _ (is_ending-IsStable ending) before_parent_transition))
        (λ _.
          bind-Ensures _ _
            (Keeps-Ensures (attempt-Sound _ (is_ending-IsStable ending) (transition ending result)))
            (λ _. bind-Ensures _ _ finished-Sound (λ _. pure-Ensures true (λ r k. k))))

  -- An end that was not made has no other result.
  unmade-Sound : (r : TaskRun World) → Sound (is_ending ending) r → Sound (ended_with result) r
  unmade-Sound r k = record {
    sound = k.sound;
    known =
        ground (arith, k.known, none-ends_as result.outcome result.error_code result.message r.log);
  }

  -- Where the transition came about, the result is the end's.
  abbrev committed_as : Bool → Fact
  committed_as committed p q l = not committed || ended_with result p q l

  transition_failed-Sound :
      (e : Text)
      → Ensures
          (Sound (is_ending ending))
          (transition_failed h e)
          (λ committed. Sound (committed_as committed))
          (Sound anything)
  unfolding transition_failed
  transition_failed-Sound e =
      bind-Ensures _ _
        (weaken-Ensures _ (λ r k. k) (λ _ r k. k) Sound-anything
          (Keeps-Ensures (ask-Sound _ (is_ending-IsStable ending) goal_active)))
        (λ active.
          if-Ensures _ _ _ (bind-Ensures _ _ put_back-Sound (λ _. throw-Ensures e (λ r k. k)))
            (pure-Ensures true unmade-Sound))

  taken-Sound :
      (taken : Bool)
      → Ensures
          (Sound (λ p q l. (taken || not p) && justifies ending l))
          (if taken then pure false else (do
            change (λ r. record r { node = record r.node { parent_terminal = true } })
            catching (make_transition h ending result) (transition_failed h)))
          (λ committed. Sound (committed_as committed))
          (Sound anything)
  taken-Sound true = pure-Ensures false (λ r k. record { sound = k.sound; known = refl })
  taken-Sound false = bind-Ensures _ _ take-Sound (λ _.
      catching-Ensures _ _ Sound-anything
        (weaken-Ensures _ (λ r k. k)
          (λ made r k. record { sound = k.sound; known = ground (arith, k.known) }) (λ r k. k)
          make_transition-Sound)
        transition_failed-Sound)

  commit_parent_terminal-Sound :
      Ensures
        (Sound (λ p q. justifies ending))
        (commit_parent_terminal h ending result)
        (λ committed. Sound (committed_as committed))
        (Sound anything)
  unfolding commit_parent_terminal
  commit_parent_terminal-Sound =
      bind-Ensures _ _
        (gets-Ensures _ {Q = λ taken. Sound (λ p q l. (taken || not p) && justifies ending l)}
          (λ r k. record { sound = k.sound; known = ground (arith, k.known) }))
        taken-Sound

module _ (h : TaskHost) (goal : TaskGoal) (result : ActionResult) where
  open h use {World, clock, now, publish_event}

  same_result :
      (event : TaskEvent) (l : List TaskEffect)
      → event.outcome ≡ result.outcome
      → event.error_code ≡ result.error_code
      → event.message ≡ result.message
      → ends_as event.outcome event.error_code event.message l
        ≡ ends_as result.outcome result.error_code result.message l
  same_result event l o c m = rw (o, c, m) refl

  announced-Sound :
      (event : TaskEvent)
      → event.outcome ≡ result.outcome
      → event.error_code ≡ result.error_code
      → event.message ≡ result.message
      → Ensures
          (Sound (is_announcing result))
          (say (announced event))
          (λ _. Sound {W = World} anything)
          (Sound (is_announcing result))
  unfolding say
  announced-Sound event o c m = record {
    at = λ r k. record {
      sound = record {
        well_ended = ground (arith, k.known, k.sound.well_ended, same_result event r.log o c m);
        end_marked = ground (arith, k.sound.end_marked);
        event_marked = ground (arith, k.known);
        result_backed = is_backed_mono (announced event) r.child.result r.log k.sound.result_backed;
        refusal_backed = ground (arith, k.sound.refusal_backed);
      };
      known = refl;
    };
  }

  announce-Sound :
      (action_status : ℕ)
      → Ensures
          (Sound (is_announcing result))
          (announce h goal result action_status)
          (λ _. Sound anything)
          (Sound (is_announcing result))
  unfolding announce make_task_event
  announce-Sound action_status =
      let stable = is_announcing-IsStable result in
      bind-Ensures _ _ (Keeps-Ensures (ask-Sound _ stable clock)) (λ time.
        bind-Ensures _ _ (Keeps-Ensures (ask-Sound _ stable now)) (λ stamp.
          bind-Ensures _ _ (Keeps-Ensures (gets-Keeps _)) (λ n.
            bind-Ensures _ _ (Keeps-Ensures (attempt-Sound _ stable (publish_event _)))
              (λ _. announced-Sound _ refl refl refl))))

  -- The event is taken by the first that asks for it.
  once-Sound :
      (published : Bool)
      → Ensures {S = TaskRun World}
          (Sound (λ p q l. (published || not q) && ended_with result p q l))
          (change (λ r. record r { node = record r.node { terminal_event_published = true } }))
          (λ _. Sound (λ p q l. published || is_announcing result p q l))
          (Sound anything)
  once-Sound published = change-Ensures _ (λ r k. record {
    sound = record {
      well_ended = k.sound.well_ended;
      end_marked = k.sound.end_marked;
      event_marked = refl;
      result_backed = k.sound.result_backed;
      refusal_backed = k.sound.refusal_backed;
    };
    known = ground (arith, k.known, k.sound.event_marked);
  })

  published-Sound :
      (action_status : ℕ) (published : Bool)
      → Ensures
          (Sound (λ p q l. published || is_announcing result p q l))
          (if published
            then pure tt
            else catching (announce h goal result action_status) (λ e. pure tt))
          (λ _. Sound anything)
          (Sound anything)
  published-Sound action_status true = pure-Ensures tt Sound-anything
  published-Sound action_status false =
      catching-Ensures _ _ Sound-anything (announce-Sound action_status)
        (λ e. pure-Ensures tt Sound-anything)

  publish_terminal_event_once-Sound :
      (action_status : ℕ)
      → Ensures
          (Sound (ended_with result))
          (publish_terminal_event_once h goal result action_status)
          (λ _. Sound anything)
          (Sound anything)
  unfolding publish_terminal_event_once
  publish_terminal_event_once-Sound action_status =
      bind-Ensures _ _
        (gets-Ensures _
          {Q = λ published. Sound (λ p q l. (published || not q) && ended_with result p q l)}
          (λ r k. record { sound = k.sound; known = ground (arith, k.known) }))
        (λ published.
          bind-Ensures _ _ (once-Sound published) (λ _. published-Sound action_status published))

module _ (h : TaskHost) (goal : TaskGoal) where
  committed-Sound :
      (ending : Ending) (result : ActionResult) (action_status : ℕ) (committed : Bool)
      → Ensures
          (Sound (committed_as h ending result committed))
          (if committed then publish_terminal_event_once h goal result action_status else pure tt)
          (λ _. Sound anything)
          (Sound anything)
  committed-Sound ending result action_status true =
      publish_terminal_event_once-Sound h goal result action_status
  committed-Sound ending result action_status false = pure-Ensures tt Sound-anything

  pub end_task-Sound :
      (ending : Ending) (result : ActionResult) (action_status : ℕ)
      → Ensures
          (Sound (λ p q. justifies ending))
          (end_task h goal ending result action_status)
          (λ _. Sound anything)
          (Sound anything)
  unfolding end_task
  end_task-Sound ending result action_status =
      bind-Ensures _ _ (commit_parent_terminal-Sound h ending result)
        (committed-Sound ending result action_status)
