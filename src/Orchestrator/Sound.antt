-- ===== src/Orchestrator/Sound.antt =====
-- The invariant of a worker of task_orchestrator/src/task_orchestrator_node.cpp, and the steps that keep it.
use embodied_agent_runtime.Common.{
  ℕ, Bool, true, false, not, ◌&&◌, ◌||◌, Option, none, some, List, ◌∷◌, ◌≡◌, refl, arith,
}
use embodied_agent_runtime.Common.Exec.{Exec, pure, throw, change}
use embodied_agent_runtime.Common.Exec.Ensures.{Keeps, pure-Keeps, throw-Keeps, bind-Keeps}
use embodied_agent_runtime.Common.Text.{Text}
use embodied_agent_runtime.Executor.Host.{WrappedResult}
use embodied_agent_runtime.Orchestrator.Host.{
  FlowEffect, sends_task, task_ended, accepts_cancel, cancels_task, WorkflowState, RetryState,
  TaskOrchestrator, FlowRun,
}
use embodied_agent_runtime.Orchestrator.Leaves.{
  is_completed, look, dare, note, on_flow, on_retry, on_node, mark,
}
use embodied_agent_runtime.Orchestrator.Trace.{
  is_task_canceled, gave, is_task_sent, is_accept, is_end, holds, is_ended_well,
}

-- What the workflow says of the task's result was given by the task.
unfoldable pub is_given : Option WrappedResult → List FlowEffect → Bool
is_given none log = true
is_given (some w) log =
    (not (is_completed w) || gave is_completed log)
    && (not (is_task_canceled w) || gave is_task_canceled log)

-- Something known of `terminal_reserved` and the log.
abbrev pub Fact : Type 0
Fact = Bool → List FlowEffect → Bool

-- Before the end: the flags of the node, the workflow's state and the log fit one another.
pub record IsLive (fact : Fact) (n : TaskOrchestrator) (f : WorkflowState) (log : List FlowEffect)
    : Type 0 where
  pub open_end : holds is_end log ≡ false
  pub given : is_given f.child_result log ≡ true
  pub sent : f.child_goal_dispatched || not (holds is_task_sent log) ≡ true
  pub accepted : n.cancel_accepted || not (holds is_accept log) ≡ true
  pub active : n.active ≡ true
  pub known : fact n.terminal_reserved log ≡ true

-- The invariant, whose second part holds as long as the worker is live.
pub record FlowSound {W T : Type 0} (live : Bool) (fact : Fact) (r : FlowRun W T) : Type 0 where
  pub ended_well : is_ended_well r.log ≡ true
  pub is_live : live ≡ true → IsLive fact r.node r.flow r.log

-- What another thread may enter in the log, given `terminal_reserved`.
abbrev pub is_allowed : Bool → FlowEffect → Bool
is_allowed reserved (sends_task g) = false
is_allowed reserved (task_ended w) = true
is_allowed reserved accepts_cancel = not reserved
is_allowed reserved cancels_task = true
is_allowed reserved _ = false

-- A fact that such an effect does not take back.
abbrev pub IsStable : Fact → Type 0
IsStable fact =
    (b : Bool) (e : FlowEffect) (log : List FlowEffect)
    → is_allowed b e ≡ true
    → fact b log ≡ true
    → fact b (e ∷ log) ≡ true

abbrev pub anything : Fact
anything reserved log = true

pub anything-IsStable : IsStable anything
anything-IsStable b e log a k = refl

pub is_given_weaken :
    (w : WrappedResult) (o : Option WrappedResult) (log : List FlowEffect)
    → is_given o log ≡ true
    → is_given o (task_ended w ∷ log) ≡ true
unfolding is_given gave
is_given_weaken w none log h = refl
is_given_weaken w (some v) log h = ground (arith, h)

pub is_given_same :
    (e : FlowEffect) (o : Option WrappedResult) (log : List FlowEffect)
    → ((p : WrappedResult → Bool) → gave p (e ∷ log) ≡ gave p log)
    → is_given o log ≡ true
    → is_given o (e ∷ log) ≡ true
unfolding is_given
is_given_same e none log s h = refl
is_given_same e (some v) log s h = rw (s is_completed, s is_task_canceled) h

module _ {W T : Type 0} (live : Bool) (fact : Fact) (stable : IsStable fact) where
  abbrev pub Held : FlowRun W T → Type 0
  Held = FlowSound live fact

  pub look-Sound : {A : Type 0} (f : W → A × W) → Keeps Held (look f)
  unfolding look
  look-Sound f = record { at = λ r k. record { ended_well = k.ended_well; is_live = k.is_live } }

  raise-Sound :
      (e : Option Text)
      → Keeps Held
          (elim e as (λ _. Exec (FlowRun W T) (Unit {0})) [ none ↦ pure tt | some t ↦ throw t ])
  raise-Sound none = pure-Keeps tt
  raise-Sound (some t) = throw-Keeps t

  pub dare-Sound : (f : W → Option Text × W) → Keeps Held (dare f)
  unfolding dare
  dare-Sound f = bind-Keeps _ _ (look-Sound f) raise-Sound

  -- A change of none of the parts that the invariant reads.
  pub world-Sound :
      (f : FlowRun W T → FlowRun W T)
      → ((r : FlowRun W T) → ((f r).log ≡ r.log) × ((f r).node ≡ r.node) × ((f r).flow ≡ r.flow))
      → Keeps Held (change f)
  unfolding change
  world-Sound f same = record {
    at = λ r k.
        let (x, y, z) = same r in
        record { ended_well = rw x k.ended_well; is_live = rw (x, y, z) k.is_live };
  }

  -- A change of the workflow's state but for the result and the flag of the dispatch.
  pub on_flow-Sound :
      (f : WorkflowState → WorkflowState)
      → ((s : WorkflowState)
          → ((f s).child_result ≡ s.child_result)
            × ((f s).child_goal_dispatched ≡ s.child_goal_dispatched))
      → Keeps Held (on_flow f)
  unfolding change
  on_flow-Sound f same = record {
    at = λ r k.
        let (x, y) = same r.flow in
        record {
          ended_well = k.ended_well;
          is_live = λ l.
              let p = k.is_live l in
              record {
                open_end = p.open_end;
                given = rw x p.given;
                sent = rw y p.sent;
                accepted = p.accepted;
                active = p.active;
                known = p.known;
              };
        };
  }

  pub on_retry-Sound : (f : RetryState → RetryState) → Keeps Held (on_retry f)
  on_retry-Sound f = world-Sound _ (λ r. (refl, refl, refl))

  pub mark-Sound : (name : Text) (value : ℕ) → Keeps Held (mark name value)
  unfolding mark
  mark-Sound name value = on_flow-Sound _ (λ s. (refl, refl))

  pub cancels_task-Sound : Keeps Held (note cancels_task)
  unfolding note is_ended_well holds gave
  cancels_task-Sound = record {
    at = λ r k. record {
      ended_well = k.ended_well;
      is_live = λ l.
          let p = k.is_live l in
          record {
            open_end = p.open_end;
            given = is_given_same cancels_task r.flow.child_result r.log (λ q. refl) p.given;
            sent = p.sent;
            accepted = p.accepted;
            active = p.active;
            known = stable r.node.terminal_reserved cancels_task r.log refl p.known;
          };
    };
  }

  -- A call on the node that changes no flag of the invariant while the worker is live.
  pub on_node-Sound :
      {A : Type 0} (f : TaskOrchestrator → A × TaskOrchestrator)
      → ((n : TaskOrchestrator)
          → n.active ≡ true
          → ((f n).1.active ≡ true)
            × ((f n).1.cancel_accepted ≡ n.cancel_accepted)
            × ((f n).1.terminal_reserved ≡ n.terminal_reserved))
      → Keeps Held (on_node f)
  unfolding on_node
  on_node-Sound f same = record {
    at = λ r k. record {
      ended_well = k.ended_well;
      is_live = λ l.
          let p = k.is_live l in
          let (x, y, z) = same r.node p.active in
          record {
            open_end = p.open_end;
            given = p.given;
            sent = p.sent;
            accepted = rw y p.accepted;
            active = x;
            known = rw z p.known;
          };
    };
  }
