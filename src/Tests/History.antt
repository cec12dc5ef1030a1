-- ===== src/Tests/History.antt =====
-- Lines of the stage event log, and the idempotency rows.
use embodied_agent_runtime.Common.{
  Bool, ℕ, zero, suc, ◌+◌, ◌*◌, ◌≤◌, ◌<◌, arith, true, false, Option, none, some, [], ◌∷◌, ◌++◌,
  ◌≡◌, refl, length,
}
use embodied_agent_runtime.Common.Exec.{returned, pure, throw, gets, change, ◌>>=◌, catching}
use embodied_agent_runtime.Common.Int.{pos}
use embodied_agent_runtime.Common.Text.{Text, text, text_eq}
use embodied_agent_runtime.Gateway.Ledger.{IdempotencyRecord, IsLedgerWhile}
use embodied_agent_runtime.History.Recorder.{
  joined, Recorder, construct_recorder, enqueue, begin_stop, wake, end_write, enqueues, stops,
  wakes, writes, Reachable, start, after,
}
use embodied_agent_runtime.History.Drain.{Reachable-in_order}
use embodied_agent_runtime.History.Store.{
  Sqlite, c_string, HistoryStore, row_of, upsert, replace_row, run, step_statement, put_row,
  store_put, delete_rows, rollback, reclaim, store_prune, history_ledger,
}
use embodied_agent_runtime.History.Refines.{history_ledger-IsLedgerWhile}
use embodied_agent_runtime.History.Clean.{IsClean, AreClean}
use embodied_agent_runtime.History.Tasks.{
  TaskRecord, read_task, TaskTable, task_of, same_task, run_task, step_task, get_unlocked,
  rollback_tasks, confirm, insert_task, store_insert, nearest_rank_offset,
}
use embodied_agent_runtime.History.Inserted.{Inserted, store_insert-Inserted}
use embodied_agent_runtime.History.Ranks.{nearest_rank_offset-rank}
use embodied_agent_runtime.History.StageEventLog.{json_escape}
use embodied_agent_runtime.History.Escape.{plain, read_string, read_string-json_escape}

-- A quote, a line feed, a control character and a letter.
abbrev awkward : Text
awkward = text "a\"\n" ++ (1 ∷ text "z")

read_string-json_escape_example :
    read_string plain (json_escape awkward ++ 34 ∷ text "}") ≡ some (awkward, text "}")
read_string-json_escape_example = read_string-json_escape awkward (text "}")

-- The third call fails, with the database busy.
abbrev busy : ℕ → Option Text
busy zero = none
busy (suc zero) = none
busy (suc (suc zero)) = some (text "database is locked")
busy (suc (suc (suc n))) = none

abbrev busy_sqlite : Sqlite
busy_sqlite = record {
  World = ℕ;
  call = λ w. (busy w, w + 1);
  step = λ w. (none, w);
  newest = λ rows. rows;
}

history_ledger-IsLedgerWhile_example :
    IsLedgerWhile (history_ledger busy_sqlite) IsClean (λ s. AreClean s.rows)
history_ledger-IsLedgerWhile_example = history_ledger-IsLedgerWhile busy_sqlite

abbrev old_row : IdempotencyRecord
old_row = record {
  request_id = text "r1";
  fingerprint = text "f";
  state = text "COMPLETED";
  outcome = 0;
  error_code = 0;
  message = text "";
  updated_at_ns = pos 5;
}

abbrev one_row : ℕ → HistoryStore ℕ
one_row w = record { world = w; rows = old_row ∷ [] }

-- The commit that fails brings the deleted row back; the one that does not removes it.
pruned_rows :
    ((store_prune busy_sqlite (pos 9) 10 (text "COMPLETED" ∷ []) (one_row 0)).1.rows ≡ old_row ∷ [])
    × ((store_prune busy_sqlite (pos 9) 10 (text "COMPLETED" ∷ []) (one_row 3)).1.rows ≡ [])
unfolding store_prune reclaim rollback delete_rows run step_statement pure throw gets change ◌>>=◌
    catching text text_eq
pruned_rows = (refl, refl)

-- A changed payload under the same id changes no row.
put_conflict :
    store_put busy_sqlite (record old_row { fingerprint = text "g" }) (one_row 3)
    ≡ (returned false, one_row 4)
unfolding store_put put_row upsert row_of replace_row run step_statement pure throw gets change
    ◌>>=◌ catching text text_eq
put_conflict = refl

-- The 95th percentile of 40 durations is the 38th.
nearest_rank_offset-rank_example :
    (nearest_rank_offset 40 95 < 40)
    × (95 * 40 ≤ 100 * (nearest_rank_offset 40 95 + 1))
    × (100 * nearest_rank_offset 40 95 < 95 * 40)
nearest_rank_offset-rank_example =
    nearest_rank_offset-rank 40 95 (omega arith) (omega arith) (omega arith) (omega arith)

abbrev done_task : TaskRecord
done_task = record {
  task_id = text "t1";
  request_id = text "r1";
  workflow_id = text "";
  goal_id = text "g1";
  target_id = text "dock";
  action_status = 1;
  outcome = 0;
  error_code = 0;
  duration_ms = 12;
  message = text "";
  completed_at_ns = pos 9;
}

abbrev calm_table : TaskTable ℕ
calm_table = record { world = 3; tasks = [] }

store_insert-Inserted_example :
    (ok : Bool) × ((store_insert busy_sqlite done_task calm_table).0 ≡ returned ok)
    × Inserted done_task [] ok (store_insert busy_sqlite done_task calm_table).1.tasks
store_insert-Inserted_example = store_insert-Inserted busy_sqlite done_task calm_table

-- A task is kept once; a report of it with another outcome is refused.
insert_runs :
    ((store_insert busy_sqlite done_task calm_table).0 ≡ returned true)
    × ((store_insert busy_sqlite done_task (store_insert busy_sqlite done_task calm_table).1).0
        ≡ returned true)
    × ((store_insert busy_sqlite
          (record done_task { outcome = 2 })
          (store_insert busy_sqlite done_task calm_table).1).0
        ≡ returned false)
    × ((store_insert busy_sqlite
          (record done_task { outcome = 2 })
          (store_insert busy_sqlite done_task calm_table).1).1.tasks
        ≡ done_task ∷ [])
unfolding store_insert insert_task confirm get_unlocked rollback_tasks same_task task_of run_task
    step_task read_task c_string pure throw gets change ◌>>=◌ catching text text_eq
insert_runs = (refl, refl, refl, refl)

-- One record is accepted, the recorder is stopped, and the worker writes it and returns.
abbrev stopped_recorder : Recorder
stopped_recorder = begin_stop (enqueue done_task (construct_recorder 2)).1

abbrev drained_recorder : Recorder
drained_recorder = wake (end_write true (wake stopped_recorder))

drained_recorder-Reachable : Reachable 2 drained_recorder
unfolding construct_recorder enqueue begin_stop wake end_write
drained_recorder-Reachable =
    let first = construct_recorder 2 in
    let filled = (enqueue done_task first).1 in
    after (end_write true (wake stopped_recorder)) drained_recorder
      (after (wake stopped_recorder) (end_write true (wake stopped_recorder))
        (after stopped_recorder (wake stopped_recorder)
          (after filled stopped_recorder (after first filled start (enqueues done_task first))
            (stops filled))
          (wakes stopped_recorder refl refl refl))
        (writes true done_task (wake stopped_recorder) refl))
      (wakes (end_write true (wake stopped_recorder)) refl refl refl)

Reachable-in_order_example :
    (drained_recorder.accepted ≡ drained_recorder.handed ++ drained_recorder.queue)
    × (length drained_recorder.queue ≤ drained_recorder.capacity)
    × (drained_recorder.has_returned ≡ true
        → (drained_recorder.accepted ≡ drained_recorder.handed)
          × (drained_recorder.stopping ≡ true))
    × (drained_recorder.join_state ≡ joined → drained_recorder.has_returned ≡ true)
Reachable-in_order_example = Reachable-in_order 2 drained_recorder drained_recorder-Reachable
