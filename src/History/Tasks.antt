-- ===== src/History/Tasks.antt =====
-- The rows of finished tasks in runtime_history/src/store.cpp, over the same calls of SQLite.
use embodied_agent_runtime.Common.{
  ℕ, ◌+◌, ◌*◌, ◌-◌, ◌/◌, ◌%◌, ◌^◌, Bool, false, not, ◌&&◌, ◌||◌, Option, none, some, List, [], ◌∷◌,
  is_some, ◌==◌, leb, if◌then◌else◌,
}
use mathlib.Core.Option
use embodied_agent_runtime.Common.Int.{ℤ, pos, negsuc}
use embodied_agent_runtime.Common.Exec.{
  returned, thrown, Exec, pure, throw, gets, change, ◌>>=◌, ◌>>◌, catching,
}
use embodied_agent_runtime.Common.Text.{Text, text_eq}
use embodied_agent_runtime.History.Store.{Sqlite, c_string}

pub record TaskRecord : Type 0 where
  pub task_id : Text
  pub request_id : Text
  pub workflow_id : Text
  pub goal_id : Text
  pub target_id : Text
  pub action_status : ℕ
  pub outcome : ℕ
  pub error_code : ℕ
  pub duration_ms : ℕ
  pub message : Text
  pub completed_at_ns : ℤ

abbrev pub same_int : ℤ → ℤ → Bool
same_int (pos a) (pos b) = a == b
same_int (pos a) (negsuc b) = false
same_int (negsuc a) (pos b) = false
same_int (negsuc a) (negsuc b) = a == b

-- `same`.
unfoldable pub same_task : TaskRecord → TaskRecord → Bool
same_task left right =
    text_eq left.task_id right.task_id
    && (text_eq left.target_id right.target_id
        && (left.action_status == right.action_status
            && (left.outcome == right.outcome
                && (left.error_code == right.error_code
                    && (left.duration_ms == right.duration_ms
                        && (text_eq left.message right.message
                            && same_int left.completed_at_ns right.completed_at_ns))))))

-- `task_runs`, with the world of SQLite.
pub record TaskTable (W : Type 0) : Type 0 where
  pub world : W
  pub tasks : List TaskRecord

-- The record that `get_unlocked` makes of a row: a text column is read as a C string.
unfoldable pub read_task : TaskRecord → TaskRecord
read_task x = record x {
  task_id = c_string x.task_id;
  request_id = c_string x.request_id;
  workflow_id = c_string x.workflow_id;
  goal_id = c_string x.goal_id;
  target_id = c_string x.target_id;
  message = c_string x.message;
}

-- WHERE task_id=?
unfoldable pub task_of : Text → List TaskRecord → Option TaskRecord
task_of id [] = none
task_of id (x ∷ tasks) = if text_eq id x.task_id then some x else task_of id tasks

-- INSERT OR IGNORE, of a table with the task id as its key.
abbrev pub insert_or_ignore : TaskRecord → List TaskRecord → List TaskRecord
insert_or_ignore record' tasks =
    if is_some (task_of record'.task_id tasks) then tasks else record' ∷ tasks

abbrev pub accepts : TaskRecord → Bool → Option TaskRecord → Bool
accepts record' inserted none = inserted
accepts record' inserted (some existing) = inserted || same_task existing record'

module _ (q : Sqlite) where
  open q use {World, call, step}

  unfoldable pub run_task : Exec (TaskTable World) (Unit {0})
  run_task s =
      let (e, w) = call s.world in
      (elim e [ none ↦ returned tt | some t ↦ thrown t ], record s { world = w })

  unfoldable pub step_task : Exec (TaskTable World) (Option Text)
  step_task s = let (e, w) = step s.world in (returned e, record s { world = w })

  unfoldable pub get_unlocked : Text → Exec (TaskTable World) (Option TaskRecord)
  get_unlocked task_id = do
    run_task
    failed ← step_task
    elim failed [
      | some e ↦ throw e
      | none ↦ gets (λ s. Option.map read_task (task_of task_id s.tasks))
    ]

  -- The last ROLLBACK, whose result the code ignores, is taken to have its effect: SQLite documents that a
  -- transaction that fails is rolled back by itself or is still open, and an open one can be rolled back.
  unfoldable pub rollback_tasks : List TaskRecord → Exec (TaskTable World) Bool
  rollback_tasks saved = do change (λ s. record s { tasks = saved }); pure false

  -- After the INSERT: whether the record now stands in the table as it is.
  unfoldable pub confirm : TaskRecord → Exec (TaskTable World) Bool
  confirm record' = do
    inserted ← gets (λ s. not (is_some (task_of record'.task_id s.tasks)))
    change (λ s. record s { tasks = insert_or_ignore record' s.tasks })
    existing ← if inserted then pure none else get_unlocked record'.task_id
    run_task
    pure (accepts record' inserted existing)

  -- From BEGIN to COMMIT.
  unfoldable pub insert_task : TaskRecord → List TaskRecord → Exec (TaskTable World) Bool
  insert_task record' saved = do
    run_task
    run_task
    failed ← step_task
    elim failed [ some e ↦ (do run_task; rollback_tasks saved) | none ↦ confirm record' ]

  unfoldable pub store_insert : TaskRecord → Exec (TaskTable World) Bool
  store_insert record' = if leb (2 ^ 63) record'.duration_ms then pure false else (do
    saved ← gets (λ s. s.tasks)
    catching (insert_task record' saved) (λ e. rollback_tasks saved))

-- Unsigned, of 64 bits: for a count of 0 it wraps round.
unfoldable pub nearest_rank_offset : ℕ → ℕ → ℕ
nearest_rank_offset count percent = ((percent * count + 99) % 2 ^ 64 / 100 + (2 ^ 64 - 1)) % 2 ^ 64
