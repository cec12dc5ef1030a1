-- ===== src/History/Recorder.antt =====
-- Recorder of runtime_history/src/recorder.cpp, as a step relation: each step is what one thread does under the
-- mutex, and the write, which runs without the mutex, ends in a step of its own.
use embodied_agent_runtime.Common.{
  ℕ, Bool, true, false, ◌||◌, Option, none, some, List, [], ◌∷◌, ◌++◌, length, leb, if◌then◌else◌,
  bump64, ◌≡◌, ◌≢◌,
}
use embodied_agent_runtime.History.Tasks.{TaskRecord}

pub data JoinState : Type 0 where
  idle joining joined : JoinState

-- The members, the record that the worker is writing, whether `run` has returned, and all the records that were
-- accepted and all that were handed to `write_`, the first first.
pub record Recorder : Type 0 where
  pub capacity : ℕ
  pub queue : List TaskRecord
  pub stopping : Bool
  pub join_state : JoinState
  pub persisted : ℕ
  pub write_errors : ℕ
  pub in_hand : Option TaskRecord
  pub has_returned : Bool
  pub accepted : List TaskRecord
  pub handed : List TaskRecord

unfoldable pub construct_recorder : ℕ → Recorder
construct_recorder capacity = record {
  capacity = capacity;
  queue = [];
  stopping = false;
  join_state = idle;
  persisted = 0;
  write_errors = 0;
  in_hand = none;
  has_returned = false;
  accepted = [];
  handed = [];
}

unfoldable pub enqueue : TaskRecord → Recorder → Bool × Recorder
enqueue record' s = if s.stopping || leb s.capacity (length s.queue) then (false, s) else (
  true,
  record s { queue = s.queue ++ (record' ∷ []); accepted = s.accepted ++ (record' ∷ []) },
)

-- `stop`, up to its wait.
unfoldable pub begin_stop : Recorder → Recorder
begin_stop s = record s { stopping = true }

-- `stop`, once no other thread is joining; a thread that finds the worker joined returns.
abbrev pub next_join : JoinState → JoinState
next_join idle = joining
next_join joining = joining
next_join joined = joined

unfoldable pub begin_join : Recorder → Recorder
begin_join s = record s { join_state = next_join s.join_state }

unfoldable pub end_join : Recorder → Recorder
end_join s = record s { join_state = joined }

-- `run`, after its wait.
abbrev pub wake_with : List TaskRecord → Recorder → Recorder
wake_with [] s = record s { has_returned = true }
wake_with (front ∷ rest) s = record s {
  queue = rest;
  in_hand = some front;
  handed = s.handed ++ (front ∷ []);
}

unfoldable pub wake : Recorder → Recorder
wake s = wake_with s.queue s

-- `run`, after the write: false also where it threw.
unfoldable pub end_write : Bool → Recorder → Recorder
end_write written s = record s {
  in_hand = none;
  persisted = if written then bump64 s.persisted else s.persisted;
  write_errors = if written then s.write_errors else bump64 s.write_errors;
}

abbrev pub has_records : List TaskRecord → Bool
has_records [] = false
has_records (x ∷ queue) = true

pub data Step : Recorder → Recorder → Type 0 where
  enqueues : (x : TaskRecord) (s : Recorder) → Step s (enqueue x s).1
  stops : (s : Recorder) → Step s (begin_stop s)
  starts_join : (s : Recorder) → s.stopping ≡ true → s.join_state ≢ joining → Step s (begin_join s)
  ends_join : (s : Recorder) → s.join_state ≡ joining → s.has_returned ≡ true → Step s (end_join s)
  wakes :
      (s : Recorder)
      → s.has_returned ≡ false
      → s.in_hand ≡ none
      → s.stopping || has_records s.queue ≡ true
      → Step s (wake s)
  writes :
      (written : Bool) (x : TaskRecord) (s : Recorder)
      → s.in_hand ≡ some x
      → Step s (end_write written s)

-- The states that a recorder of that capacity can reach.
pub data Reachable (capacity : ℕ) : Recorder → Type 0 where
  start : Reachable capacity (construct_recorder capacity)
  after : (s t : Recorder) → Reachable capacity s → Step s t → Reachable capacity t
