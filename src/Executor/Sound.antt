-- ===== src/Executor/Sound.antt =====
-- The invariant of a worker of task_executor/src/task_executor_node.cpp, and the steps that keep it.
use embodied_agent_runtime.Common.{
  ℕ, Bool, true, not, ◌&&◌, ◌||◌, Option, none, some, List, ◌∷◌, ◌≡◌, refl, arith,
}
use embodied_agent_runtime.Common.Exec.{change}
use embodied_agent_runtime.Common.Exec.Ensures.{
  Keeps, pure-Keeps, if-Keeps, gets-Keeps, bind-Keeps, keeps_rules,
}
use embodied_agent_runtime.Common.Text.{Text}
use embodied_agent_runtime.Executor.TaskDiagnosticState.{TaskDiagnosticState, task_snapshot}
use embodied_agent_runtime.Executor.Host.{
  TaskGoal, TaskHost, WrappedResult, WorkerPhase, before_feedback, ChildExecutionState, TaskEffect,
  told, reported, staged, TaskRun,
}
use embodied_agent_runtime.Executor.Finish.{
  ask, raise, attempt, say, on_diagnostics, stage_event, emit_stage, run_worker_hook,
  publish_diagnostics, note_feedback, publish_feedback,
}
use embodied_agent_runtime.Executor.Verdict.{is_success}
use embodied_agent_runtime.Executor.Trace.{
  is_confirmed, delivers, has_refusal, has_end, has_event, is_well_ended, is_benign,
}

-- What the child's result says was delivered.
abbrev pub is_backed : Option WrappedResult → List TaskEffect → Bool
is_backed none l = true
is_backed (some x) l =
    (not (is_success x) || delivers is_success l)
    && (not (is_confirmed x) || delivers is_confirmed l)

-- The two flags of the node, the child's state and the log fit one another.
pub record IsSound (parent_terminal published : Bool) (c : ChildExecutionState)
    (l : List TaskEffect) : Type 0 where
  pub well_ended : is_well_ended l ≡ true
  pub end_marked : parent_terminal || not (has_end l) ≡ true
  pub event_marked : published || not (has_event l) ≡ true
  pub result_backed : is_backed c.result l ≡ true
  pub refusal_backed : not (c.goal_response_received && not c.has_handle) || has_refusal l ≡ true

-- Something known of the two flags and the log.
abbrev pub Fact : Type 0
Fact = Bool → Bool → List TaskEffect → Bool

-- The invariant, with a fact.
pub record Sound {W : Type 0} (fact : Fact) (r : TaskRun W) : Type 0 where
  pub sound : IsSound r.node.parent_terminal r.node.terminal_event_published r.child r.log
  pub known : fact r.node.parent_terminal r.node.terminal_event_published r.log ≡ true

-- A fact that no benign effect takes back.
abbrev pub IsStable : Fact → Type 0
IsStable fact =
    (p q : Bool) (e : TaskEffect) (l : List TaskEffect)
    → is_benign e ≡ true
    → fact p q l ≡ true
    → fact p q (e ∷ l) ≡ true

pub delivers_mono :
    (p : WrappedResult → Bool) (e : TaskEffect) (l : List TaskEffect)
    → delivers p l ≡ true
    → delivers p (e ∷ l) ≡ true
delivers_mono p (told s n) l h = h
delivers_mono p e l h = ground (arith, h)

pub is_backed_mono :
    (e : TaskEffect) (o : Option WrappedResult) (l : List TaskEffect)
    → is_backed o l ≡ true
    → is_backed o (e ∷ l) ≡ true
is_backed_mono e none l h = refl
is_backed_mono e (some x) l h =
    ground (arith, h, delivers_mono is_success e l, delivers_mono is_confirmed e l)

pub say_lem :
    (e : TaskEffect) {p q : Bool} {c : ChildExecutionState} {l : List TaskEffect}
    → is_benign e ≡ true
    → IsSound p q c l
    → IsSound p q c (e ∷ l)
say_lem (told s n) {c = c} {l = l} b h = record {
  well_ended = ground (arith, h.well_ended);
  end_marked = ground (arith, h.end_marked);
  event_marked = ground (arith, h.event_marked);
  result_backed = is_backed_mono (told s n) c.result l h.result_backed;
  refusal_backed = ground (arith, h.refusal_backed);
}
say_lem e {c = c} {l = l} b h = record {
  well_ended = ground (arith, h.well_ended);
  end_marked = ground (arith, h.end_marked);
  event_marked = ground (arith, h.event_marked);
  result_backed = is_backed_mono e c.result l h.result_backed;
  refusal_backed = ground (arith, h.refusal_backed);
}

module _ {W : Type 0} (fact : Fact) (stable : IsStable fact) where
  pub ask-Sound : {A : Type 0} (f : W → A × W) → Keeps (Sound fact) (ask f)
  unfolding ask
  ask-Sound f = record { at = λ r h. record { sound = h.sound; known = h.known } }

  pub raise-Sound : (e : Option Text) → Keeps (Sound {W = W} fact) (raise e)
  raise-Sound none = search keeps_rules
  raise-Sound (some e) = search keeps_rules

  pub attempt-Sound : (f : W → Option Text × W) → Keeps (Sound fact) (attempt f)
  unfolding attempt
  attempt-Sound f = search (keeps_rules, ask-Sound, raise-Sound)

  pub say-Sound : (e : TaskEffect) → is_benign e ≡ true → Keeps (Sound {W = W} fact) (say e)
  unfolding say
  say-Sound e b = record {
    at = λ r h. record { sound = say_lem e b h.sound; known = stable _ _ e r.log b h.known };
  }

  -- A change of the world, or of members of the node that the invariant does not read.
  pub quiet-Sound :
      (f : TaskRun W → TaskRun W)
      → ((r : TaskRun W)
          → ((f r).node.parent_terminal ≡ r.node.parent_terminal)
            × ((f r).node.terminal_event_published ≡ r.node.terminal_event_published)
            × ((f r).child ≡ r.child)
            × ((f r).log ≡ r.log))
      → Keeps (Sound fact) (change f)
  unfolding change
  quiet-Sound f same = record {
    at = λ r h.
        let (p, q, c, l) = same r in
        record { sound = rw (p, q, c, l) h.sound; known = rw (p, q, l) h.known };
  }

  pub on_diagnostics-Sound :
      (f : TaskDiagnosticState → TaskDiagnosticState)
      → Keeps (Sound {W = W} fact) (on_diagnostics f)
  unfolding on_diagnostics
  on_diagnostics-Sound f = record { at = λ r h. record { sound = h.sound; known = h.known } }

  pub emit_stage-Sound :
      (goal : TaskGoal) (name extra : Text)
      → Keeps (Sound {W = W} fact) (emit_stage goal name extra)
  unfolding emit_stage
  emit_stage-Sound goal name extra =
      bind-Keeps _ _ (gets-Keeps _)
        (λ b. if-Keeps _ _ _ (say-Sound (staged (stage_event goal name extra)) refl) (pure-Keeps _))

module _ (h : TaskHost) (fact : Fact) (stable : IsStable fact) where
  open h use {World, bridge_ready, hook, send_feedback}

  pub run_worker_hook-Sound : (phase : WorkerPhase) → Keeps (Sound fact) (run_worker_hook h phase)
  unfolding run_worker_hook
  run_worker_hook-Sound phase = attempt-Sound fact stable (hook phase)

  pub publish_diagnostics-Sound : Keeps (Sound fact) (publish_diagnostics h)
  unfolding publish_diagnostics
  publish_diagnostics-Sound = search (
    keeps_rules,
    ask-Sound fact stable,
    on_diagnostics-Sound fact stable,
    λ (s : TaskDiagnosticState).
        say-Sound {W = World} fact stable (reported (task_snapshot s)) refl,
  )

  pub publish_feedback-Sound :
      (state progress : ℕ) → Keeps (Sound fact) (publish_feedback h state progress)
  unfolding publish_feedback
  publish_feedback-Sound state progress =
      bind-Keeps _ _ (run_worker_hook-Sound before_feedback) (λ _.
        bind-Keeps _ _ (attempt-Sound fact stable (send_feedback state progress)) (λ _.
          bind-Keeps _ _ (say-Sound fact stable (told state progress) refl) (λ _.
            bind-Keeps _ _ (on_diagnostics-Sound fact stable (note_feedback h state))
              (λ _. if-Keeps _ _ _ publish_diagnostics-Sound (pure-Keeps _)))))
