-- ===== src/Orchestrator/Host.antt =====
-- The state of a workflow in task_orchestrator/src/task_orchestrator_node.cpp, what the code there uses and does
-- not implement (the goal handle of the workflow, the client of the task action, the clock, the behaviour
-- trees), and what a worker leaves behind.
use embodied_agent_runtime.Common.{ℕ, Bool, Option, List}
use embodied_agent_runtime.Common.Text.{Text}
use embodied_agent_runtime.Common.Exec.{Exec}
use embodied_agent_runtime.Common.Exec.Ensures.{Keeps}
use embodied_agent_runtime.Bridge.Host.{Ending}
use embodied_agent_runtime.Executor.Host.{TaskGoal, ActionResult, WrappedResult}
use embodied_agent_runtime.Gateway.Service.Host.{WorkflowGoal}
use embodied_agent_runtime.Orchestrator.ReadyState.{ReadyState}

pub data FaultPoint : Type 0 where
  before_cancel_dispatch before_terminal_commit : FaultPoint
  before_terminal_transition before_fallback_abort : FaultPoint

-- BT::NodeStatus, of the statuses that occur.
pub data NodeStatus : Type 0 where
  success failure running_status : NodeStatus

-- What other threads do in one step: the callbacks of the task action's client, a message on
-- /runtime/ready with the time of its arrival, and calls on the node. The progress is in hundredths.
pub data FlowEvent : Type 0 where
  child_responds : Bool → FlowEvent
  child_progresses : ℕ → FlowEvent
  child_ends : WrappedResult → FlowEvent
  ready_told : Bool → ℕ → FlowEvent
  cancel_requested : FlowEvent
  stop_requested : FlowEvent
  goal_offered : WorkflowGoal → ℕ → FlowEvent

-- The calls out of the worker, each with the world that it leaves. A call that may throw gives the text
-- of its exception. `events` are those of other threads since it was last asked; the waits end at the
-- given time, or after the given number of milliseconds, at the latest; `clock` counts nanoseconds.
pub record FlowHost : Type 1 where
  pub World : Type 0
  pub context_ok : World → Bool × World
  pub canceling : World → Bool × World
  pub goal_active : World → Bool × World
  pub clock : World → ℕ × World
  pub events : World → List FlowEvent × World
  pub wait_until : ℕ → World → World
  pub pause : ℕ → World → World
  pub fault_hook : FaultPoint → World → Option Text × World
  pub send_goal : TaskGoal → World → Option Text × World
  pub cancel_goal : World → Option Text × World
  pub send_feedback : Text → ℕ → World → Option Text × World
  pub transition : Ending → ActionResult → World → Option Text × World

-- The task's goal was sent, its result came in, the workflow's cancel was accepted, or the workflow ended.
pub data FlowEffect : Type 0 where
  sends_task : TaskGoal → FlowEffect
  task_ended : WrappedResult → FlowEffect
  accepts_cancel cancels_task : FlowEffect
  ends_workflow : Ending → ActionResult → FlowEffect

pub record WorkflowState : Type 0 where
  pub child_goal : TaskGoal
  pub has_handle : Bool
  pub child_result : Option WrappedResult
  pub deadline : ℕ
  pub goal_response_received : Bool
  pub child_goal_dispatched : Bool
  pub halt_requested : Bool
  pub cancel_in_flight : Bool
  pub cancel_dispatched : Bool
  pub cancel_timed_out : Bool
  pub active_node : Text
  pub progress : ℕ

-- The members of `RetryReadyNode`.
pub record RetryState : Type 0 where
  pub attempts : ℕ
  pub delay_ms : ℕ
  pub used : ℕ
  pub next_check : ℕ

-- The members of `TaskOrchestratorNode`.
pub record TaskOrchestrator : Type 0 where
  pub accepting : Bool
  pub running : Bool
  pub active : Bool
  pub generation_counter : ℕ
  pub active_generation : ℕ
  pub terminal_started : Bool
  pub fallback_attempted : Bool
  pub terminal_transition_failed : Bool
  pub cancel_accepted : Bool
  pub terminal_reserved : Bool
  pub active_deadline : ℕ
  pub ready : ReadyState
  pub ready_stale_ms : ℕ
  pub cancel_timeout_ms : ℕ

-- A worker's state: the world, the node, the workflow, the behaviour tree with its retry node, and the
-- effects, the latest first.
pub record FlowRun (W T : Type 0) : Type 0 where
  pub world : W
  pub node : TaskOrchestrator
  pub flow : WorkflowState
  pub retry : RetryState
  pub tree : T
  pub log : List FlowEffect

-- The leaves of the workflows; `retry_start` has the ports `attempts` and `delay_ms`.
pub record Leaves (S : Type 0) : Type 0 where
  pub runtime_ready : Exec S NodeStatus
  pub retry_start : ℕ → ℕ → Exec S NodeStatus
  pub retry_running : Exec S NodeStatus
  pub task_start : Exec S NodeStatus
  pub task_running : Exec S NodeStatus
  pub task_halted : Exec S (Unit {0})

-- The behaviour trees of BehaviorTree.CPP and of config/workflows.xml, over any leaves.
pub record TreeEngine (W : Type 0) : Type 1 where
  pub Tree : Type 0
  pub create_tree : Text → Exec (FlowRun W Tree) (Unit {0})
  pub tick_once : Leaves (FlowRun W Tree) → Exec (FlowRun W Tree) NodeStatus
  pub halt_tree : Leaves (FlowRun W Tree) → Exec (FlowRun W Tree) (Unit {0})

-- A tree reaches the workflow's state through its leaves alone: what every leaf keeps, whatever becomes of the
-- tree's own state, creating, ticking and halting the tree keep.
pub record IsTreeEngine {W : Type 0} (b : TreeEngine W) : Type 1 where
  pub create_keeps :
      (P : FlowRun W b.Tree → Type 0)
      → ((s : FlowRun W b.Tree) (t : b.Tree) → P s → P (record s { tree = t }))
      → (workflow_id : Text) → Keeps P (b.create_tree workflow_id)
  pub tick_keeps :
      (P : FlowRun W b.Tree → Type 0)
      → ((s : FlowRun W b.Tree) (t : b.Tree) → P s → P (record s { tree = t }))
      → (leaves : Leaves (FlowRun W b.Tree)) → Keeps P leaves.runtime_ready
      → ((attempts delay_ms : ℕ) → Keeps P (leaves.retry_start attempts delay_ms))
      → Keeps P leaves.retry_running
      → Keeps P leaves.task_start
      → Keeps P leaves.task_running
      → Keeps P leaves.task_halted
      → Keeps P (b.tick_once leaves)
  pub halt_keeps :
      (P : FlowRun W b.Tree → Type 0)
      → ((s : FlowRun W b.Tree) (t : b.Tree) → P s → P (record s { tree = t }))
      → (leaves : Leaves (FlowRun W b.Tree)) → Keeps P leaves.task_halted
      → Keeps P (b.halt_tree leaves)
