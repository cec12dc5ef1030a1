-- ===== src/Executor/Child.antt =====
-- The state of the device command in task_executor/src/task_executor_node.cpp: its callbacks, which other
-- threads run between the worker's steps, and its cancellation. Each access under the child's mutex is
-- one step, before which the callbacks that have run by then are seen.
use embodied_agent_runtime.Common.{
  ℕ, zero, suc, ◌+◌, ◌-◌, ◌*◌, Bool, true, false, not, ◌&&◌, ◌||◌, some, List, [], ◌∷◌, leb, max,
  if◌then◌else◌,
}
use embodied_agent_runtime.Common.Exec.{Exec, pure, exhaust, gets, change, ◌>>=◌, ◌>>◌, catching}
use embodied_agent_runtime.Executor.Host.{
  TaskHost, WrappedResult, ChildEvent, responds, ends, ChildExecutionState, TaskRun,
  before_cancel_goal, delivered, refused, cancels_child,
}
use embodied_agent_runtime.Executor.Finish.{ask, attempt, say, run_worker_hook}

abbrev pub on_child :
    {W : Type 0} → (ChildExecutionState → ChildExecutionState) → Exec (TaskRun W) (Unit {0})
on_child f = change (λ r. record r { child = f r.child })

module _ (h : TaskHost) where
  open h use {World, clock, callbacks, pause, cancel_goal}

  -- `async_cancel_goal` behind its hook; a throw takes the mark back.
  unfoldable pub dispatch_cancel : Exec (TaskRun World) (Unit {0})
  dispatch_cancel =
      catching (do run_worker_hook h before_cancel_goal; attempt cancel_goal; say cancels_child)
        (λ e. on_child (λ c. record c { cancel_dispatched = false }))

  -- The part of `goal_response_callback` under the mutex: whether a cancel is due now.
  abbrev pub late_cancel : Bool → ChildExecutionState → Bool
  late_cancel handle c = handle && (c.cancel_requested && not c.cancel_dispatched)

  unfoldable pub on_goal_response : Bool → Exec (TaskRun World) (Unit {0})
  on_goal_response handle = do
    due ← gets (λ r. late_cancel handle r.child)
    if handle then pure tt else say refused
    on_child (λ c. record c { goal_response_received = true; has_handle = handle })
    if due
        then (do
          time ← ask clock
          on_child (λ c. record c { cancel_dispatched = true; cancel_started_at = time })
          dispatch_cancel)
        else pure tt

  unfoldable pub on_result : WrappedResult → Exec (TaskRun World) (Unit {0})
  on_result result = do
    say (delivered result)
    on_child (λ c. record c { result = some result; terminal = true })

  unfoldable pub on_child_event : ChildEvent → Exec (TaskRun World) (Unit {0})
  on_child_event (responds handle) = on_goal_response handle
  on_child_event (ends result) = on_result result

  unfoldable pub run_callbacks : List ChildEvent → Exec (TaskRun World) (Unit {0})
  run_callbacks [] = pure tt
  run_callbacks (e ∷ es) = do on_child_event e; run_callbacks es

  unfoldable pub sync : Exec (TaskRun World) (Unit {0})
  sync = do es ← ask callbacks; run_callbacks es

  -- `changed.wait_for(lock, ms, test)`.
  unfoldable pub wait_for : ℕ → (ChildExecutionState → Bool) → Exec (TaskRun World) Bool
  wait_for ms test = do
    change (λ r. record r { world = pause ms r.world })
    sync
    gets (λ r. test r.child)

  unfoldable pub cancel_child_once : Exec (TaskRun World) (Unit {0})
  cancel_child_once = do
    sync
    requested ← gets (λ r. r.child.cancel_requested)
    if requested then pure tt else (do
      time ← ask clock
      on_child (λ c. record c { cancel_requested = true; cancel_requested_at = time }))
    c ← gets (λ r. r.child)
    if not c.has_handle || c.cancel_dispatched then pure tt else (do
      started ← ask clock
      on_child (λ c'. record c' { cancel_dispatched = true; cancel_started_at = started })
      dispatch_cancel)

  unfoldable pub record_cancel_timeout : ℕ → Exec (TaskRun World) (Unit {0})
  record_cancel_timeout time = do
    sync
    limit ← gets (λ r. r.node.cancel_timeout_ms * 1000000)
    on_child (λ c.
        if c.cancel_dispatched && (not c.cancel_timed_out && leb limit (time - c.cancel_started_at))
        then record c { cancel_timed_out = true }
        else c)

  -- The loop of `settle_child_after_exception`, on fuel; the loop ends at the deadline.
  unfoldable pub settle_loop : ℕ → ℕ → Exec (TaskRun World) (Unit {0})
  settle_loop zero deadline = exhaust
  settle_loop (suc fuel) deadline = do
    cancel_child_once
    terminal ← wait_for 25 (λ c. c.terminal)
    time ← ask clock
    elim (terminal || leb deadline time) [ true ↦ pure tt | false ↦ settle_loop fuel deadline ]

  unfoldable pub settle_child_after_exception : ℕ → Exec (TaskRun World) (Unit {0})
  settle_child_after_exception fuel = do
    cancel_child_once
    time ← ask clock
    limit ← gets (λ r. max r.node.cancel_timeout_ms 1000)
    let deadline = time + limit * 1000000
    started ← gets (λ r. r.child.dispatch_started)
    if not started then pure tt else (do
      received ← wait_for limit (λ c. c.goal_response_received)
      c ← gets (λ r. r.child)
      if not c.has_handle || c.terminal then pure tt else settle_loop fuel deadline)
