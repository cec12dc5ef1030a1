-- ===== src/Gateway/Resolution.antt =====
-- What a resolution by runtime_gateway/src/durable_idempotency.cpp has found and leaves behind.
use embodied_agent_runtime.Common.{
  ℕ, true, false, Option, none, some, ◌≡◌, ◌∙◌, refl, sym, ap, arith, inl, inr, Bool-cases,
}
use embodied_agent_runtime.Common.Int.{ℤ}
use embodied_agent_runtime.Common.Text.{Text, text_eq_iff, text_eq_refl}
use embodied_agent_runtime.Gateway.Request.{fingerprint, is_terminal_state}
use embodied_agent_runtime.Gateway.Ledger.{IdempotencyRecord, Ledger, IsLedger}
use embodied_agent_runtime.Gateway.Durable.{resolvable, resolve_stored}

-- The row that a resolution writes.
abbrev pub resolved_row : Text → Text → Text → ℕ → Text → ℤ → IdempotencyRecord
resolved_row request_id identity state outcome message now_ns = record {
  request_id = request_id;
  fingerprint = identity;
  state = state;
  outcome = outcome;
  error_code = 0;
  message = message;
  updated_at_ns = now_ns;
}

resolvable_lem :
    (identity : Text) (o : Option (Option IdempotencyRecord))
    → resolvable (some identity) o ≡ true
    → (v : IdempotencyRecord) × (o ≡ some (some v))
      × (v.fingerprint ≡ identity)
      × (is_terminal_state v.state ≡ false)
resolvable_lem identity none h = absurd cc
resolvable_lem identity (some none) h = absurd cc
resolvable_lem identity (some (some v)) h =
    (v, refl, ground (arith, text_eq_iff v.fingerprint identity), ground arith)

module _ (l : Ledger) (lawful : IsLedger l) where
  open l use {Store, row, get_idempotency, put_idempotency}

  -- A resolution by the stored identity that reports success has found a row under the id, with the given
  -- fingerprint and a state that is not terminal; the state that it was given is terminal, and
  -- its row now stands under the id, over every ledger that keeps the store's promises.
  pub resolve_stored-row :
      (capacity : ℕ) (id identity state message : Text) (outcome : ℕ) (now : ℤ) (s : Store)
      → (resolve_stored l capacity id identity state outcome message now s).0 ≡ true
      → ((v : IdempotencyRecord) × (row id s ≡ some v)
          × (v.fingerprint ≡ identity)
          × (is_terminal_state v.state ≡ false))
        × (is_terminal_state state ≡ true)
        × (row id (resolve_stored l capacity id identity state outcome message now s).1
            ≡ some (resolved_row id identity state outcome message now))
  unfolding resolve_stored
  resolve_stored-row capacity id identity state message outcome now s ok =
      elim (Bool-cases (is_terminal_state state)) [
        | inr pending ↦ absurd (ground (arith, pending, ok))
        | inl ended ↦ elim (Bool-cases (resolvable (some identity) (get_idempotency id s).0)) [
          | inr refused ↦ absurd (ground (arith, ended, refused, ok))
          | inl allowed ↦
              let r = resolved_row id identity state outcome message now in
              let s' = (get_idempotency id s).1 in
              let step : resolve_stored l capacity id identity state outcome message now s
                  ≡ put_idempotency r s' =
                rw (ended, allowed) refl in
              let (v, found, same, open_state) =
                resolvable_lem identity (get_idempotency id s).0 allowed in
              (
                (v, sym (lawful.get_reads id s (some v) found), same, open_state),
                ended,
                ap (λ x. row id x.1) step
                    ∙ (lawful.put_writes id r s' (sym (ap (λ x. x.0) step) ∙ ok)
                        ∙ rw (text_eq_refl id) refl),
              )
        ]
      ]
