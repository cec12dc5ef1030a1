-- ===== src/Gateway/Ledger.antt =====
-- The idempotency rows of runtime_history (runtime_history/include/runtime_history/store.hpp) as
-- runtime_gateway uses them: an interface, with the store's state a parameter.
use embodied_agent_runtime.Common.{
  ℕ, Bool, true, false, Option, some, List, any, if◌then◌else◌, ◌≡◌,
}
use embodied_agent_runtime.Common.Int.{ℤ}
use embodied_agent_runtime.Common.Text.{Text, text_eq}

pub record IdempotencyRecord : Type 0 where
  pub request_id : Text
  pub fingerprint : Text
  pub state : Text
  pub outcome : ℕ
  pub error_code : ℕ
  pub message : Text
  pub updated_at_ns : ℤ

-- The four operations, each with the state that it leaves. `none` is a thrown exception; put and prune
-- catch theirs. `row` is the row that stands under an id.
pub record Ledger : Type 1 where
  pub Store : Type 0
  pub row : Text → Store → Option IdempotencyRecord
  pub get_idempotency : Text → Store → Option (Option IdempotencyRecord) × Store
  pub put_idempotency : IdempotencyRecord → Store → Bool × Store
  pub prune_idempotency : ℤ → ℕ → List Text → Store → ℕ × Store
  pub count_idempotency : ℤ → Store → Option ℕ × Store

-- What the store's comments promise: a read reads the row and changes none, a write that reports success
-- puts the one row and no other, one that fails changes none, and pruning keeps
-- every row whose state is not listed.
pub record IsLedger (l : Ledger) : Type 0 where
  pub get_keeps : (j k : Text) (s : l.Store) → l.row j (l.get_idempotency k s).1 ≡ l.row j s
  pub get_reads :
      (k : Text) (s : l.Store) (o : Option IdempotencyRecord)
      → (l.get_idempotency k s).0 ≡ some o
      → o ≡ l.row k s
  pub count_keeps :
      (j : Text) (from : ℤ) (s : l.Store) → l.row j (l.count_idempotency from s).1 ≡ l.row j s
  pub put_writes :
      (j : Text) (r : IdempotencyRecord) (s : l.Store)
      → (l.put_idempotency r s).0 ≡ true
      → l.row j (l.put_idempotency r s).1 ≡ (if text_eq j r.request_id then some r else l.row j s)
  pub put_refuses :
      (j : Text) (r : IdempotencyRecord) (s : l.Store)
      → (l.put_idempotency r s).0 ≡ false
      → l.row j (l.put_idempotency r s).1 ≡ l.row j s
  pub prune_keeps :
      (j : Text) (from : ℤ) (keep : ℕ) (states : List Text) (s : l.Store) (v : IdempotencyRecord)
      → l.row j s ≡ some v
      → any (text_eq v.state) states ≡ false
      → l.row j (l.prune_idempotency from keep states s).1 ≡ some v

-- The same promises where a read is only right in the sound states, which the operations keep, a write as
-- long as it writes a sound record.
pub record IsLedgerWhile (l : Ledger) (IsSoundRecord : IdempotencyRecord → Type 0)
    (IsSound : l.Store → Type 0) : Type 0 where
  pub get_sound : (k : Text) (s : l.Store) → IsSound s → IsSound (l.get_idempotency k s).1
  pub put_sound :
      (r : IdempotencyRecord) (s : l.Store)
      → IsSoundRecord r
      → IsSound s
      → IsSound (l.put_idempotency r s).1
  pub prune_sound :
      (from : ℤ) (keep : ℕ) (states : List Text) (s : l.Store)
      → IsSound s
      → IsSound (l.prune_idempotency from keep states s).1
  pub count_sound : (from : ℤ) (s : l.Store) → IsSound s → IsSound (l.count_idempotency from s).1
  pub get_keeps : (j k : Text) (s : l.Store) → l.row j (l.get_idempotency k s).1 ≡ l.row j s
  pub get_reads :
      (k : Text) (s : l.Store) (o : Option IdempotencyRecord)
      → IsSound s
      → (l.get_idempotency k s).0 ≡ some o
      → o ≡ l.row k s
  pub count_keeps :
      (j : Text) (from : ℤ) (s : l.Store) → l.row j (l.count_idempotency from s).1 ≡ l.row j s
  pub put_writes :
      (j : Text) (r : IdempotencyRecord) (s : l.Store)
      → (l.put_idempotency r s).0 ≡ true
      → l.row j (l.put_idempotency r s).1 ≡ (if text_eq j r.request_id then some r else l.row j s)
  pub put_refuses :
      (j : Text) (r : IdempotencyRecord) (s : l.Store)
      → (l.put_idempotency r s).0 ≡ false
      → l.row j (l.put_idempotency r s).1 ≡ l.row j s
  pub prune_keeps :
      (j : Text) (from : ℤ) (keep : ℕ) (states : List Text) (s : l.Store) (v : IdempotencyRecord)
      → l.row j s ≡ some v
      → any (text_eq v.state) states ≡ false
      → l.row j (l.prune_idempotency from keep states s).1 ≡ some v
