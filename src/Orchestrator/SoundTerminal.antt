-- ===== src/Orchestrator/SoundTerminal.antt =====
-- `terminal` of task_orchestrator/src/task_orchestrator_node.cpp ends a live workflow well, or not at all.
use embodied_agent_runtime.Common.{
  ℕ, Bool, true, false, not, ◌&&◌, List, leb, if◌then◌else◌, ◌≡◌, ◌∙◌, refl, arith,
}
use embodied_agent_runtime.Common.Exec.{Exec, pure, ◌>>=◌, ◌>>◌, catching}
use embodied_agent_runtime.Common.Exec.Ensures.{
  Ensures, Keeps, Keeps-Ensures, bind-Ensures, gets-Ensures, pure-Ensures, if-Ensures,
  catching-Ensures, weaken-Ensures, pure-Keeps, if-Keeps, gets-Keeps, bind-Keeps, catching-Keeps,
}
use embodied_agent_runtime.Orchestrator.Host.{
  FlowHost, FlowEffect, ends_workflow, TaskOrchestrator, FlowRun,
}
use embodied_agent_runtime.Orchestrator.Leaves.{note, on_node, look}
use embodied_agent_runtime.Orchestrator.Terminal.{
  WorkflowEnd, commit, reserve_terminal, release_active, fail_transition, end_goal, try_transition,
  try_fallback, fall_back, has_not_failed, commit_time, commit_hook, commit_end, terminal,
  is_success_end,
}
use embodied_agent_runtime.Orchestrator.Trace.{justifies, is_uncontested, is_ended_well}
use embodied_agent_runtime.Orchestrator.Sound.{
  Fact, IsStable, anything, anything-IsStable, FlowSound, look-Sound, dare-Sound, on_node-Sound,
}
use embodied_agent_runtime.Orchestrator.SoundEvents.{others-Sound}
use embodied_agent_runtime.Orchestrator.SoundLeaves.{Open}
use embodied_agent_runtime.Orchestrator.Justified.{
  justified, committed, justified-IsStable, committed-IsStable, commit_lem,
}

module _ (h : FlowHost) (T : Type 0) where
  open h use {World, goal_active, clock, fault_hook, transition}

  abbrev pub Known : Fact → FlowRun World T → Type 0
  Known fact = FlowSound true fact

  -- The log is as it should be, whatever else.
  abbrev pub Done : FlowRun World T → Type 0
  Done = FlowSound false anything

  pub known-Done : (fact : Fact) (r : FlowRun World T) → Known fact r → Done r
  known-Done fact r k = record { ended_well = k.ended_well; is_live = λ l. absurd cc }

  pub known-Open : (fact : Fact) (r : FlowRun World T) → Known fact r → Open h T r
  known-Open fact r k = record {
    ended_well = k.ended_well;
    is_live = λ l.
        let p = k.is_live l in
        record {
          open_end = p.open_end;
          given = p.given;
          sent = p.sent;
          accepted = p.accepted;
          active = p.active;
          known = refl;
        };
  }

  -- The worker is done, or it stands where it did.
  abbrev Settled : Fact → Bool → FlowRun World T → Type 0
  Settled fact true = Done
  Settled fact false = Known fact

  -- A step that keeps what is known.
  pub carries_on :
      {A : Type 0} (fact : Fact) (m : Exec (FlowRun World T) A)
      → Keeps (Known fact) m
      → Ensures (Known fact) m (λ _. Known fact) (Open h T)
  carries_on fact m k = weaken-Ensures m (λ r p. p) (λ a r q. q) (known-Open fact) (Keeps-Ensures k)

  -- A last step, after which only the log counts.
  pub closes_with :
      {A : Type 0} (fact : Fact) (m : Exec (FlowRun World T) A)
      → Keeps (Known fact) m
      → Ensures (Known fact) m (λ _. Done) (Open h T)
  closes_with fact m k =
      weaken-Ensures m (λ r p. p) (λ a r q. known-Done fact r q) (known-Open fact) (Keeps-Ensures k)

  module _ (fact : Fact) (stable : IsStable fact) (e : WorkflowEnd)
      (enough : (b : Bool) (log : List FlowEffect)
        → fact b log ≡ true
        → justifies e.ending e.result log && is_uncontested e.ending log ≡ true) where
    ends_workflow-Done :
        Ensures
          (Known fact)
          (note {W = World} {T = T} (ends_workflow e.ending e.result))
          (λ _. Done)
          (Known fact)
    unfolding note is_ended_well
    ends_workflow-Done = record {
      at = λ r k.
          let p = k.is_live refl in
          record {
            ended_well =
                ground
                  (arith, enough r.node.terminal_reserved r.log p.known, p.open_end, k.ended_well);
            is_live = λ l. absurd cc;
          };
    }

    release-Done :
        Ensures Done (on_node {W = World} {T = T} release_active) (λ _. Done) (Known fact)
    unfolding on_node
    release-Done = record {
      at = λ r k. record { ended_well = k.ended_well; is_live = λ l. absurd cc };
    }

    pub end_goal-Settled : Ensures (Known fact) (end_goal h T e) (Settled fact) (Known fact)
    unfolding end_goal
    end_goal-Settled = bind-Ensures _ _ (Keeps-Ensures (dare-Sound true fact stable _)) (λ _.
        bind-Ensures _ _ ends_workflow-Done
          (λ _. bind-Ensures _ _ release-Done (λ _. pure-Ensures true (λ r k. k))))

    pub try_transition-Settled :
        Ensures (Known fact) (try_transition h T e) (Settled fact) (Known fact)
    unfolding try_transition
    try_transition-Settled =
        bind-Ensures _ _ (Keeps-Ensures (look-Sound true fact stable goal_active)) (λ active.
          if-Ensures active _ _
            (bind-Ensures _ _ (Keeps-Ensures (dare-Sound true fact stable _)) (λ _.
              bind-Ensures _ _ (Keeps-Ensures (others-Sound h T true fact stable))
                (λ _. end_goal-Settled)))
            (pure-Ensures true (known-Done fact)))

  -- A call on the node that sets a flag which the invariant does not read.
  flag-Known :
      {A : Type 0} (fact : Fact) (stable : IsStable fact)
      (f : TaskOrchestrator → A × TaskOrchestrator)
      → ((n : TaskOrchestrator)
          → ((f n).1.active ≡ n.active)
            × ((f n).1.cancel_accepted ≡ n.cancel_accepted)
            × ((f n).1.terminal_reserved ≡ n.terminal_reserved))
      → Keeps (Known fact) (on_node f)
  flag-Known fact stable f same =
      on_node-Sound true fact stable f (λ n a. let (x, y, z) = same n in (x ∙ a, y, z))

  try_fallback-Settled : Ensures (Open h T) (try_fallback h T) (Settled anything) (Open h T)
  unfolding try_fallback justifies is_uncontested
  try_fallback-Settled =
      bind-Ensures _ _ (Keeps-Ensures (dare-Sound true anything anything-IsStable _)) (λ _.
        bind-Ensures _ _ (Keeps-Ensures (others-Sound h T true anything anything-IsStable))
          (λ _. end_goal-Settled anything anything-IsStable _ (λ b log k. refl)))

  -- What follows an attempt to end.
  settle :
      (fact : Fact) (m : Exec (FlowRun World T) Bool)
      → Ensures (Known fact) m (λ _. Done) (Open h T)
      → (done : Bool)
      → Ensures (Settled fact done) (if done then pure true else m) (λ _. Done) (Open h T)
  settle fact m k true = pure-Ensures true (λ r p. p)
  settle fact m k false = k

  failed-Done :
      Ensures
        (Open h T)
        (do
          still_active ← look goal_active
          if still_active then on_node fail_transition else pure tt
          pure (not still_active))
        (λ _. Done)
        (Open h T)
  failed-Done = closes_with anything _ (
      bind-Keeps _ _ (look-Sound true anything anything-IsStable goal_active) (λ still_active.
        bind-Keeps _ _
          (if-Keeps still_active _ _
            (flag-Known anything anything-IsStable _ (λ n. (refl, refl, refl))) (pure-Keeps tt))
          (λ _. pure-Keeps _)))

  fall_back-Done : Ensures (Open h T) (fall_back h T) (λ _. Done) (Open h T)
  unfolding fall_back
  fall_back-Done =
      bind-Ensures _ _ (Keeps-Ensures (look-Sound true anything anything-IsStable goal_active))
        (λ active.
          bind-Ensures _ _
            (Keeps-Ensures (
              if-Keeps active _ _
                (flag-Known anything anything-IsStable _ (λ n. (refl, refl, refl)))
                (pure-Keeps true)))
            (λ attempted.
              bind-Ensures _ _
                (if-Ensures attempted _ _ (pure-Ensures false (λ r k. k)) (
                  catching-Ensures _ _ (λ r k. k) try_fallback-Settled
                    (λ error. pure-Ensures false (λ r k. k))))
                (settle anything _ failed-Done)))

  not_failed-Done : (fact : Fact) → Ensures (Known fact) (has_not_failed h T) (λ _. Done) (Open h T)
  not_failed-Done fact = closes_with fact _ (gets-Keeps _)

  -- What is committed, before it is reserved.
  record Ready (e : WorkflowEnd) (r : FlowRun World T) : Type 0 where
    pub sound : Open h T r
    pub ready : justifies e.ending e.result r.log && is_uncontested e.ending r.log ≡ true

  ready_lem :
      (e : WorkflowEnd) (now : ℕ) (r : FlowRun World T)
      → Known (justified e) r
      → Ready (commit r.node.cancel_accepted (leb r.node.active_deadline now) e) r
  ready_lem e now r k =
      let p = k.is_live refl in
      record {
        sound = known-Open (justified e) r k;
        ready = commit_lem r.node.cancel_accepted _ e.ending e.result r.log p.known p.accepted;
      }

  reserve-Known :
      (e : WorkflowEnd)
      → Ensures (Ready e) (on_node reserve_terminal) (λ _. Known (committed e)) (Open h T)
  unfolding on_node
  reserve-Known e = record {
    at = λ r k. record {
      ended_well = k.sound.ended_well;
      is_live = λ l.
          let p = k.sound.is_live l in
          record {
            open_end = p.open_end;
            given = p.given;
            sent = p.sent;
            accepted = p.accepted;
            active = p.active;
            known = k.ready;
          };
    };
  }

  try_committed :
      (e : WorkflowEnd)
      → Ensures
          (Known (committed e))
          (catching (try_transition h T e) (λ error. pure false))
          (Settled (committed e))
          (Open h T)
  try_committed e =
      catching-Ensures _ _ (known-Open (committed e))
        (try_transition-Settled (committed e) (committed-IsStable e) e
          (λ b log k. ground (arith, k)))
        (λ error. pure-Ensures false (λ r k. k))

  commit_end-Done :
      (e : WorkflowEnd) → Ensures (Known (justified e)) (commit_end h T e) (λ _. Done) (Open h T)
  unfolding commit_end commit_time
  commit_end-Done e =
      bind-Ensures _ _
        (carries_on (justified e) _ (
          if-Keeps (is_success_end e.ending) _ _
            (look-Sound true (justified e) (justified-IsStable e) clock) (pure-Keeps 0)))
        (λ now. bind-Ensures _ _ (gets-Ensures _ {Q = Ready} (ready_lem e now)) (λ chosen.
          bind-Ensures _ _ (reserve-Known chosen) (λ _.
            bind-Ensures _ _
              (carries_on (committed chosen) _
                (others-Sound h T true (committed chosen) (committed-IsStable chosen)))
              (λ _. bind-Ensures _ _ (try_committed chosen) (
                settle (committed chosen) _ (
                  weaken-Ensures _ (known-Open (committed chosen)) (λ b r q. q) (λ r q. q)
                    fall_back-Done))))))

  -- Whatever the host answers, `terminal` leaves the log as it should be.
  pub terminal-Done :
      (e : WorkflowEnd) → Ensures (Known (justified e)) (terminal h T e) (λ _. Done) (Open h T)
  unfolding terminal commit_hook
  terminal-Done e =
      let keep : IsStable (justified e) = justified-IsStable e in
      bind-Ensures _ _
        (carries_on (justified e) _ (flag-Known (justified e) keep _ (λ n. (refl, refl, refl))))
        (λ started. if-Ensures started _ _ (not_failed-Done (justified e)) (
          bind-Ensures _ _
            (carries_on (justified e) _ (
              if-Keeps (is_success_end e.ending) _ _
                (catching-Keeps _ _ (dare-Sound true (justified e) keep _) (λ error. pure-Keeps tt))
                (pure-Keeps tt)))
            (λ _.
              bind-Ensures _ _
                (carries_on (justified e) _ (others-Sound h T true (justified e) keep))
                (λ _. bind-Ensures _ _ (carries_on (justified e) _ (gets-Keeps _)) (λ reserved.
                  if-Ensures reserved _ _ (not_failed-Done (justified e)) (commit_end-Done e))))))
