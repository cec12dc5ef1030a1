-- ===== src/Gateway/Durable.antt =====
-- runtime_gateway/include/runtime_gateway/durable_idempotency.hpp and
-- runtime_gateway/src/durable_idempotency.cpp, over the ledger of the history store.
use embodied_agent_runtime.Common.{
  ℕ, ◌+◌, ◌-◌, Bool, false, not, Option, none, some, List, [], ◌∷◌, ltb, leb, if◌then◌else◌,
}
use embodied_agent_runtime.Common.Int.{ℤ, pos, negsuc}
use embodied_agent_runtime.Common.Text.{Text, text, text_eq, is_empty}
use embodied_agent_runtime.Gateway.Request.{RequestRecord, fingerprint, is_terminal_state}
use embodied_agent_runtime.Gateway.Ledger.{IdempotencyRecord, Ledger}

abbrev pub retry_horizon_ns : ℕ
retry_horizon_ns = 86400000000000

-- The difference of an integer and a natural number.
abbrev pub minus : ℤ → ℕ → ℤ
minus (pos a) n = if ltb a n then negsuc (n - a - 1) else pos (a - n)
minus (negsuc a) n = negsuc (a + n)

unfoldable pub horizon_start : ℤ → ℤ
horizon_start now_ns = minus now_ns retry_horizon_ns

unfoldable pub reclaimable_states : List Text
reclaimable_states =
    text "COMPLETED"
    ∷ text "CANCELED"
    ∷ text "SAFE_STOP"
    ∷ text "DEVICE_FAULT"
    ∷ text "ABORTED"
    ∷ text "REJECTED"
    ∷ []

abbrev pub is_uncertain_state : Text → Bool
is_uncertain_state state = not (is_terminal_state state)

pub data IdempotencyDecision : Type 0 where
  proceed replay conflict_found uncertain unavailable : IdempotencyDecision

pub record IdempotencyOutcome : Type 0 where
  pub decision : IdempotencyDecision
  pub state : Text
  pub outcome : ℕ
  pub error_code : ℕ
  pub message : Text

abbrev pub refuse : IdempotencyDecision → ℕ → Text → IdempotencyOutcome
refuse decision error_code message = record {
  decision = decision;
  state = text "";
  outcome = 0;
  error_code = error_code;
  message = message;
}

-- The outcome that carries what is stored.
abbrev pub recall : IdempotencyDecision → Text → IdempotencyRecord → IdempotencyOutcome
recall decision message existing = record {
  decision = decision;
  state = existing.state;
  outcome = existing.outcome;
  error_code = existing.error_code;
  message = message;
}

-- What `admit` answers where a row stands under the id.
unfoldable pub admit_existing : Text → IdempotencyRecord → IdempotencyOutcome
admit_existing value existing =
    if not (text_eq existing.fingerprint value)
    then refuse conflict_found 409 (text "request_id conflicts with a durable request")
    else if is_uncertain_state existing.state
    then recall uncertain
        (if is_empty existing.message
          then text "prior dispatch outcome unknown"
          else existing.message)
        existing
    else recall replay existing.message existing

-- The row by which `admit` claims an id.
abbrev pub admitted_row : RequestRecord → ℤ → IdempotencyRecord
admitted_row r now_ns = record {
  request_id = r.request_id;
  fingerprint = fingerprint r;
  state = text "ADMITTED";
  outcome = 0;
  error_code = 0;
  message = text "admitted";
  updated_at_ns = now_ns;
}

-- Whether the row that was read may be resolved; the second test is that of the form with a fingerprint.
abbrev pub resolvable : Option Text → Option (Option IdempotencyRecord) → Bool
resolvable identity none = false
resolvable identity (some none) = false
resolvable none (some (some existing)) = is_uncertain_state existing.state
resolvable (some identity) (some (some existing)) =
    if is_uncertain_state existing.state then text_eq existing.fingerprint identity else false

module _ (l : Ledger) (capacity : ℕ) where
  open l use {Store, get_idempotency, put_idempotency, prune_idempotency, count_idempotency}

  unfoldable pub claim : RequestRecord → ℤ → Store → IdempotencyOutcome × Store
  claim r now_ns s =
      let (written, s') = put_idempotency (admitted_row r now_ns) s in
      (
        if written
            then refuse proceed 0 (text "")
            else refuse unavailable 503 (text "failed to persist idempotency admission"),
        s',
      )

  -- After the count; `none` is an exception, which `admit` ignores.
  unfoldable pub admit_counted : RequestRecord → ℤ → Option ℕ → Store → IdempotencyOutcome × Store
  admit_counted r now_ns none s = claim r now_ns s
  admit_counted r now_ns (some n) s =
      if leb capacity n
      then (refuse unavailable 429 (text "durable idempotency ledger is at capacity"), s)
      else claim r now_ns s

  -- Where no row stands under the id.
  unfoldable pub admit_new : RequestRecord → ℤ → Store → IdempotencyOutcome × Store
  admit_new r now_ns s =
      let (removed, s1) = prune_idempotency (horizon_start now_ns) capacity reclaimable_states s in
      let (counted, s2) = count_idempotency (horizon_start now_ns) s1 in
      admit_counted r now_ns counted s2

  -- After the lookup.
  unfoldable pub admit_found :
      RequestRecord → ℤ → Option (Option IdempotencyRecord) → Store → IdempotencyOutcome × Store
  admit_found r now_ns none s =
      (refuse unavailable 503 (text "durable idempotency ledger unavailable"), s)
  admit_found r now_ns (some (some existing)) s = (admit_existing (fingerprint r) existing, s)
  admit_found r now_ns (some none) s = admit_new r now_ns s

  unfoldable pub admit : RequestRecord → ℤ → Store → IdempotencyOutcome × Store
  admit r now_ns s =
      let (found, s') = get_idempotency r.request_id s in admit_found r now_ns found s'

  unfoldable pub complete : RequestRecord → Text → ℕ → ℕ → Text → ℤ → Store → Bool × Store
  complete r state outcome error_code message now_ns s =
      put_idempotency
        (record {
          request_id = r.request_id;
          fingerprint = fingerprint r;
          state = state;
          outcome = outcome;
          error_code = error_code;
          message = message;
          updated_at_ns = now_ns;
        })
        s

  -- `lookup`: an exception passes through, as `none`.
  unfoldable pub lookup : Text → Store → Option (Option IdempotencyOutcome) × Store
  lookup request_id s =
      let (found, s') = get_idempotency request_id s in
      (
        elim found [
          | none ↦ none
          | some none ↦ some none
          | some (some existing) ↦ some (
              some (
                recall (if is_uncertain_state existing.state then uncertain else replay)
                  existing.message existing))
        ],
        s',
      )

  -- `resolve_uncertain` of a full record.
  unfoldable pub resolve_uncertain : RequestRecord → Text → ℕ → ℕ → Text → ℤ → Store → Bool × Store
  resolve_uncertain r state outcome error_code message now_ns s =
      let (found, s') = get_idempotency r.request_id s in
      if not (is_terminal_state state)
      then (false, s)
      else if resolvable none found
      then complete r state outcome error_code message now_ns s'
      else (false, s')

  -- `resolve_uncertain` by the stored identity.
  unfoldable pub resolve_stored : Text → Text → Text → ℕ → Text → ℤ → Store → Bool × Store
  resolve_stored request_id identity state outcome message now_ns s =
      let (found, s') = get_idempotency request_id s in
      if not (is_terminal_state state)
      then (false, s)
      else if resolvable (some identity) found
      then put_idempotency
          (record {
            request_id = request_id;
            fingerprint = identity;
            state = state;
            outcome = outcome;
            error_code = 0;
            message = message;
            updated_at_ns = now_ns;
          })
          s'
      else (false, s')

  unfoldable pub prune : ℤ → Store → ℕ × Store
  prune now_ns s = prune_idempotency (horizon_start now_ns) capacity reclaimable_states s
