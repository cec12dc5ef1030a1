-- ===== src/History/Store.antt =====
-- The idempotency rows of runtime_history/src/store.cpp. SQLite is a parameter: which of its calls fail, and
-- how it breaks ties of ORDER BY. A text column is read as a C string, so up to its first NUL byte.
use embodied_agent_runtime.Common.{
  ℕ, zero, suc, ◌-◌, ◌^◌, Bool, true, false, not, ◌&&◌, ◌||◌, Option, none, some, List, [], ◌∷◌,
  any, filter, length, ltb, ◌==◌, if◌then◌else◌,
}
use mathlib.Core.Option
use embodied_agent_runtime.Common.Int.{ℤ, pos, negsuc}
use embodied_agent_runtime.Common.Exec.{
  Result, returned, thrown, exhausted, Exec, pure, throw, gets, change, ◌>>=◌, ◌>>◌, catching,
}
use embodied_agent_runtime.Common.Text.{Text, text_eq, is_empty}
use embodied_agent_runtime.Gateway.Ledger.{IdempotencyRecord, Ledger}

-- `call` is a call that `check` guards, with the error's text where it fails; so is `step` for a statement,
-- which changes nothing where it fails; `newest` is ORDER BY updated_at_ns DESC.
pub record Sqlite : Type 1 where
  pub World : Type 0
  pub call : World → Option Text × World
  pub step : World → Option Text × World
  pub newest : List IdempotencyRecord → List IdempotencyRecord

pub record HistoryStore (W : Type 0) : Type 0 where
  pub world : W
  pub rows : List IdempotencyRecord

-- WHERE request_id=?
unfoldable pub row_of : Text → List IdempotencyRecord → Option IdempotencyRecord
row_of id [] = none
row_of id (x ∷ rows) = if text_eq id x.request_id then some x else row_of id rows

unfoldable pub replace_row : IdempotencyRecord → List IdempotencyRecord → List IdempotencyRecord
replace_row r [] = []
replace_row r (x ∷ rows) =
    if text_eq r.request_id x.request_id then r ∷ rows else x ∷ replace_row r rows

-- INSERT with ON CONFLICT DO UPDATE WHERE the fingerprints agree: the rows after it, and whether
-- one has changed.
unfoldable pub upsert : IdempotencyRecord → List IdempotencyRecord → Bool × List IdempotencyRecord
upsert r rows = elim (row_of r.request_id rows) [
  | none ↦ (true, r ∷ rows)
  | some existing ↦
      if text_eq existing.fingerprint r.fingerprint
      then (true, replace_row r rows)
      else (false, rows)
]

-- `std::string(const char *)`, of a text column.
unfoldable pub c_string : Text → Text
c_string [] = []
c_string (b ∷ bytes) = if b == 0 then [] else b ∷ c_string bytes

-- The record that `get_idempotency` makes of a row.
unfoldable pub read_row : IdempotencyRecord → IdempotencyRecord
read_row x = record x {
  request_id = c_string x.request_id;
  fingerprint = c_string x.fingerprint;
  state = c_string x.state;
  message = c_string x.message;
}

-- `<` on integers.
abbrev pub before : ℤ → ℤ → Bool
before (pos a) (pos b) = ltb a b
before (pos a) (negsuc b) = false
before (negsuc a) (pos b) = true
before (negsuc a) (negsuc b) = ltb b a

-- LIMIT, of a `std::size_t` that is bound as an `int64_t`; a negative limit is none.
abbrev pub first_rows : ℕ → List IdempotencyRecord → List IdempotencyRecord
first_rows n [] = []
first_rows zero (x ∷ rows) = []
first_rows (suc n) (x ∷ rows) = x ∷ first_rows n rows

abbrev pub limit : ℕ → List IdempotencyRecord → List IdempotencyRecord
limit n rows = if ltb n (2 ^ 63) then first_rows n rows else rows

abbrev pub has_id : Text → List IdempotencyRecord → Bool
has_id id rows = any (λ (x : IdempotencyRecord). text_eq id x.request_id) rows

-- A row that the DELETE takes; `kept` are the rows of the inner SELECT.
abbrev pub is_reclaimed : ℤ → List Text → List IdempotencyRecord → IdempotencyRecord → Bool
is_reclaimed older_than_ns states kept x =
    before x.updated_at_ns older_than_ns
    && (any (text_eq x.state) states && not (has_id x.request_id kept))

module _ (q : Sqlite) where
  open q use {World, call, step, newest}

  unfoldable pub run : Exec (HistoryStore World) (Unit {0})
  run s =
      let (e, w) = call s.world in
      (elim e [ none ↦ returned tt | some t ↦ thrown t ], record s { world = w })

  -- `sqlite3_step`, with the error where it fails.
  unfoldable pub step_statement : Exec (HistoryStore World) (Option Text)
  step_statement s = let (e, w) = step s.world in (returned e, record s { world = w })

  -- The rows after `sqlite3_step` of the upsert, and `sqlite3_changes(db_) > 0`.
  unfoldable pub put_row : IdempotencyRecord → Exec (HistoryStore World) Bool
  put_row r = do
    changed ← gets (λ s. (upsert r s.rows).0)
    change (λ s. record s { rows = (upsert r s.rows).1 })
    pure changed

  unfoldable pub store_put : IdempotencyRecord → Exec (HistoryStore World) Bool
  store_put r =
      if is_empty r.request_id || is_empty r.fingerprint
      then pure false
      else catching
          (do run; failed ← step_statement; elim failed [ some e ↦ pure false | none ↦ put_row r ])
          (λ e. pure false)

  unfoldable pub store_get : Text → Exec (HistoryStore World) (Option IdempotencyRecord)
  store_get request_id = do
    run
    failed ← step_statement
    elim failed [
      | some e ↦ throw e
      | none ↦ gets (λ s. Option.map read_row (row_of request_id s.rows))
    ]

  -- The rows that the inner SELECT of the DELETE keeps.
  abbrev pub protected_rows : ℤ → ℕ → List IdempotencyRecord → List IdempotencyRecord
  protected_rows older_than_ns keep_at_least rows =
      limit keep_at_least (newest (filter (λ x. not (before x.updated_at_ns older_than_ns)) rows))

  -- The DELETE, and how many rows it took.
  unfoldable pub delete_rows : ℤ → ℕ → List Text → List IdempotencyRecord → List IdempotencyRecord
  delete_rows older_than_ns keep_at_least states rows =
      let kept = protected_rows older_than_ns keep_at_least rows in
      filter (λ x. not (is_reclaimed older_than_ns states kept x)) rows

  -- The last ROLLBACK, whose result the code ignores, is taken to have its effect: SQLite documents that a
  -- transaction that fails is rolled back by itself or is still open, and an open one can be rolled back.
  unfoldable pub rollback : List IdempotencyRecord → Exec (HistoryStore World) ℕ
  rollback saved = do change (λ s. record s { rows = saved }); pure 0

  -- From BEGIN to COMMIT; `saved` are the rows before it.
  unfoldable pub reclaim : ℤ → ℕ → List Text → List IdempotencyRecord → Exec (HistoryStore World) ℕ
  reclaim older_than_ns keep_at_least states saved = do
    run
    run
    failed ← step_statement
    elim failed [
      | some e ↦ (do run; rollback saved)
      | none ↦ (do
        change (λ s. record s { rows = delete_rows older_than_ns keep_at_least states s.rows })
        removed ← gets (λ s. length saved - length s.rows)
        run
        pure removed)
    ]

  unfoldable pub store_prune : ℤ → ℕ → List Text → Exec (HistoryStore World) ℕ
  store_prune older_than_ns keep_at_least states = do
    saved ← gets (λ s. s.rows)
    catching (reclaim older_than_ns keep_at_least states saved) (λ e. rollback saved)

  unfoldable pub store_count : ℤ → Exec (HistoryStore World) ℕ
  store_count not_older_than_ns = do
    run
    failed ← step_statement
    elim failed [
      | some e ↦ throw e
      | none ↦
          gets (λ s. length (filter (λ x. not (before x.updated_at_ns not_older_than_ns)) s.rows))
    ]

abbrev pub result_or : {A : Type 0} → A → Result A → A
result_or a (returned x) = x
result_or a (thrown t) = a
result_or a exhausted = a

abbrev pub as_option : {A : Type 0} → Result A → Option A
as_option (returned x) = some x
as_option (thrown t) = none
as_option exhausted = none

-- The store as the gateway uses it.
abbrev pub history_ledger : Sqlite → Ledger
history_ledger q = record {
  Store = HistoryStore q.World;
  row = λ id s. row_of id s.rows;
  get_idempotency = λ id s. let (r, s') = store_get q id s in (as_option r, s');
  put_idempotency = λ r s. let (x, s') = store_put q r s in (result_or false x, s');
  prune_idempotency =
      λ older keep states s. let (x, s') = store_prune q older keep states s in (result_or 0 x, s');
  count_idempotency = λ from s. let (x, s') = store_count q from s in (as_option x, s');
}
