-- ===== src/Tests/Durable.antt =====
-- The durable admission over a ledger that is a map in memory.
use embodied_agent_runtime.Common.{
  true, false, Option, none, some, [], ◌∷◌, ◌≡◌, ◌≢◌, refl, sym, if◌then◌else◌,
}
use mathlib.Core.Option.{some_inj}
use embodied_agent_runtime.Common.Int.{pos}
use embodied_agent_runtime.Common.Text.{Text, text, text_eq}
use embodied_agent_runtime.Gateway.Request.{RequestRecord, fingerprint, is_terminal_state}
use embodied_agent_runtime.Gateway.Ledger.{IdempotencyRecord, Ledger, IsLedger}
use embodied_agent_runtime.Gateway.Durable.{
  proceed, claim, admit_counted, admit_new, admit_found, admit, resolve_stored,
}
use embodied_agent_runtime.Gateway.Resolution.{resolved_row, resolve_stored-row}
use embodied_agent_runtime.Gateway.AtMostOnce.{admits, prunes, apply_all, admit-admit}

-- The rows as a function; a row that is put replaces the one under its id.
abbrev put_row :
    IdempotencyRecord → (Text → Option IdempotencyRecord) → Text → Option IdempotencyRecord
put_row r s j = if text_eq j r.request_id then some r else s j

-- A ledger that never fails and never prunes.
abbrev pub memory : Ledger
memory = record {
  Store = Text → Option IdempotencyRecord;
  row = λ j s. s j;
  get_idempotency = λ k s. (some (s k), s);
  put_idempotency = λ r s. (true, put_row r s);
  prune_idempotency = λ from keep states s. (0, s);
  count_idempotency = λ from s. (some 0, s);
}

pub memory-IsLedger : IsLedger memory
memory-IsLedger = record {
  get_keeps = λ j k s. refl;
  get_reads = λ k s o e. sym (some_inj.0 e);
  count_keeps = λ j from s. refl;
  put_writes = λ j r s e. refl;
  put_refuses = λ j r s e. absurd cc;
  prune_keeps = λ j from keep states s v h n. h;
}

abbrev pick : RequestRecord
pick = record {
  request_id = text "r1";
  task_id = text "t1";
  target_id = text "dock_a";
  workflow_id = text "single_task";
  timeout_ms = 1000;
  state = text "ACCEPTED";
  outcome = 0;
  error_code = 0;
  message = text "";
}

abbrev other : RequestRecord
other = record pick { request_id = text "r2" }

abbrev pub fresh : Text → Option IdempotencyRecord
fresh j = none

proceeds : (admit memory 1 pick (pos 10) fresh).0.decision ≡ proceed
unfolding admit admit_found admit_new admit_counted claim
proceeds = refl

admit-admit_example :
    (admit memory 1 pick (pos 90) (
      apply_all memory memory-IsLedger 1
        (admits other (pos 20) ∷ prunes (pos 30) ∷ [])
        (admit memory 1 pick (pos 10) fresh).1)).0.decision
    ≢ proceed
admit-admit_example =
    admit-admit memory memory-IsLedger 1 pick pick (pos 10) (pos 90)
      (admits other (pos 20) ∷ prunes (pos 30) ∷ []) fresh proceeds refl

-- The identity of a request, as the ledger keeps it.
abbrev identity : Text
identity = text "identity"

abbrev unresolved : IdempotencyRecord
unresolved = record {
  request_id = text "r1";
  fingerprint = identity;
  state = text "TIMED_OUT";
  outcome = 4;
  error_code = 201;
  message = text "";
  updated_at_ns = pos 10;
}

abbrev stored : Text → Option IdempotencyRecord
stored j = put_row unresolved fresh j

resolved :
    (resolve_stored memory 1
      (text "r1")
      identity
      (text "ABORTED")
      5
      (text "operator")
      (pos 50)
      stored).0
    ≡ true
unfolding resolve_stored is_terminal_state text text_eq
resolved = refl

resolve_stored-row_example :
    ((v : IdempotencyRecord) × (stored (text "r1") ≡ some v)
      × (v.fingerprint ≡ identity)
      × (is_terminal_state v.state ≡ false))
    × (is_terminal_state (text "ABORTED") ≡ true)
    × ((resolve_stored memory 1
            (text "r1")
            identity
            (text "ABORTED")
            5
            (text "operator")
            (pos 50)
            stored).1
          (text "r1")
        ≡ some (resolved_row (text "r1") identity (text "ABORTED") 5 (text "operator") (pos 50)))
resolve_stored-row_example =
    resolve_stored-row memory memory-IsLedger 1 (text "r1") identity (text "ABORTED")
      (text "operator") 5 (pos 50) stored resolved

-- The same request as the ledger holds it unresolved, with its own fingerprint.
abbrev unresolved_pick : Text → Option IdempotencyRecord
unresolved_pick j = put_row (record unresolved { fingerprint = fingerprint pick }) fresh j
