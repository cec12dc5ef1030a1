-- ===== src/Orchestrator/Justified.antt =====
-- What `finish` and `terminal` of task_orchestrator/src/task_orchestrator_node.cpp choose is justified by the effects
-- before it.
use embodied_agent_runtime.Common.{
  Bool, true, false, not, ◌&&◌, ◌||◌, Option, none, some, List, ◌∷◌, ◌≡◌, refl, arith,
}
use embodied_agent_runtime.Bridge.Host.{Ending, succeeds, aborts, cancels, completed, canceled}
use embodied_agent_runtime.Executor.Host.{ActionResult, WrappedResult}
use embodied_agent_runtime.Orchestrator.Host.{
  FlowEffect, sends_task, task_ended, accepts_cancel, cancels_task, ends_workflow, WorkflowState,
}
use embodied_agent_runtime.Orchestrator.Leaves.{has_succeeded, has_outcome, is_completed}
use embodied_agent_runtime.Orchestrator.Terminal.{
  WorkflowEnd, end_of_result, end_with, end_of_workflow, commit,
}
use embodied_agent_runtime.Orchestrator.Trace.{
  is_task_canceled, gave, is_task_sent, is_accept, holds, justifies, is_uncontested,
}
use embodied_agent_runtime.Orchestrator.Sound.{is_given, is_allowed, Fact, IsStable}

abbrev pub justified : WorkflowEnd → Fact
justified e reserved log = justifies e.ending e.result log

-- The end is justified, and no other end or cancel can come in between.
abbrev pub committed : WorkflowEnd → Fact
committed e reserved log =
    reserved && (justifies e.ending e.result log && is_uncontested e.ending log)

justifies_weaken :
    (d : Ending) (r : ActionResult) (b : Bool) (e : FlowEffect) (log : List FlowEffect)
    → is_allowed b e ≡ true
    → justifies d r log ≡ true
    → justifies d r (e ∷ log) ≡ true
unfolding justifies gave holds
justifies_weaken d r b (sends_task g) log a k = absurd cc
justifies_weaken d r b (ends_workflow x y) log a k = absurd cc
justifies_weaken aborts r b e log a k = k
justifies_weaken succeeds r b (task_ended w) log a k = ground (arith, k)
justifies_weaken succeeds r b accepts_cancel log a k = k
justifies_weaken succeeds r b cancels_task log a k = k
justifies_weaken cancels r b (task_ended w) log a k = ground (arith, k)
justifies_weaken cancels r b accepts_cancel log a k = k
justifies_weaken cancels r b cancels_task log a k = k

uncontested_weaken :
    (d : Ending) (e : FlowEffect) (log : List FlowEffect)
    → is_allowed true e ≡ true
    → is_uncontested d log ≡ true
    → is_uncontested d (e ∷ log) ≡ true
unfolding is_uncontested holds
uncontested_weaken aborts e log a k = refl
uncontested_weaken cancels e log a k = refl
uncontested_weaken succeeds (sends_task g) log a k = absurd cc
uncontested_weaken succeeds (ends_workflow x y) log a k = absurd cc
uncontested_weaken succeeds (task_ended w) log a k = k
uncontested_weaken succeeds accepts_cancel log a k = absurd cc
uncontested_weaken succeeds cancels_task log a k = k

pub justified-IsStable : (e : WorkflowEnd) → IsStable (justified e)
justified-IsStable e b x log a k = justifies_weaken e.ending e.result b x log a k

pub committed-IsStable : (e : WorkflowEnd) → IsStable (committed e)
committed-IsStable e false x log a k = absurd cc
committed-IsStable e true x log a k = ground (
  arith,
  justifies_weaken e.ending e.result true x log a (ground (arith, k)),
  uncontested_weaken e.ending x log a (ground (arith, k)),
)

-- What `finish` chooses is justified.
result_lem :
    (canceling dispatched succeeded : Bool) (o : Option ActionResult) (log : List FlowEffect)
    → not (succeeded && has_outcome completed o) || gave is_completed log ≡ true
    → not (has_outcome canceled o) || gave is_task_canceled log ≡ true
    → dispatched || not (holds is_task_sent log) ≡ true
    → let e = end_of_result canceling dispatched succeeded o in
      justifies e.ending e.result log ≡ true
unfolding justifies
result_lem canceling dispatched succeeded none log c x s = ground (arith, s)
result_lem canceling dispatched succeeded (some child) log c x s = ground (arith, c, x)

child_lem :
    (canceling dispatched : Bool) (o : Option WrappedResult) (log : List FlowEffect)
    → is_given o log ≡ true
    → dispatched || not (holds is_task_sent log) ≡ true
    → justifies
        (end_with canceling dispatched o).ending
        (end_with canceling dispatched o).result
        log
      ≡ true
unfolding is_given justifies is_completed
child_lem canceling dispatched none log g s = ground (arith, s)
child_lem canceling dispatched (some w) log g s =
    result_lem canceling dispatched (has_succeeded w.code) w.result log (ground (arith, g))
      (ground (arith, g)) s

pub end_of_workflow-justified :
    (canceling : Bool) (f : WorkflowState) (log : List FlowEffect)
    → is_given f.child_result log ≡ true
    → f.child_goal_dispatched || not (holds is_task_sent log) ≡ true
    → justifies (end_of_workflow canceling f).ending (end_of_workflow canceling f).result log ≡ true
unfolding end_of_workflow justifies
end_of_workflow-justified canceling f log g s =
    ground (arith, child_lem canceling f.child_goal_dispatched f.child_result log g s)

-- So is what `terminal` commits, and no accepted cancel contests it.
pub commit_lem :
    (accepted late : Bool) (d : Ending) (r : ActionResult) (log : List FlowEffect)
    → justifies d r log ≡ true
    → accepted || not (holds is_accept log) ≡ true
    → let e = commit accepted late (record { ending = d; result = r }) in
      justifies e.ending e.result log && is_uncontested e.ending log ≡ true
unfolding commit justifies is_uncontested
commit_lem true late succeeds r log j c = refl
commit_lem false true succeeds r log j c = refl
commit_lem false false succeeds r log j c = ground (arith, j, c)
commit_lem accepted late aborts r log j c = ground (arith, j)
commit_lem accepted late cancels r log j c = ground (arith, j)
