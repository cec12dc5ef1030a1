-- ===== src/Gateway/AtMostOnce.antt =====
-- A request that runtime_gateway/src/durable_idempotency.cpp let proceed is not let proceed again.
use embodied_agent_runtime.Common.{
  ℕ, false, Option, none, some, List, [], ◌∷◌, any, leb, ◌≡◌, ◌≢◌, ◌∙◌, refl, sym, ap, subst, arith,
  inl, inr, Bool-cases,
}
use embodied_agent_runtime.Common.Int.{ℤ}
use embodied_agent_runtime.Common.Text.{Text, text, text_eq, text_eq_refl}
use embodied_agent_runtime.Gateway.Request.{RequestRecord, fingerprint, is_terminal_state}
use embodied_agent_runtime.Gateway.Ledger.{IdempotencyRecord, Ledger, IsLedger}
use embodied_agent_runtime.Gateway.Durable.{
  horizon_start, reclaimable_states, proceed, admitted_row, admit_existing, claim, admit_counted,
  admit_new, admit_found, admit, prune,
}

-- A state is reclaimable exactly if it is terminal.
not_reclaimable :
    (state : Text)
    → is_terminal_state state ≡ false
    → any (text_eq state) reclaimable_states ≡ false
unfolding reclaimable_states is_terminal_state
not_reclaimable state h = ground (arith, h)

existing_lem : (value : Text) (v : IdempotencyRecord) → (admit_existing value v).decision ≢ proceed
unfolding admit_existing
existing_lem value v e = absurd (ground (arith, e))

pub data Call : Type 0 where
  admits : RequestRecord → ℤ → Call
  prunes : ℤ → Call

module _ (l : Ledger) (lawful : IsLedger l) (capacity : ℕ) where
  open l use {Store, row, get_idempotency, put_idempotency, prune_idempotency, count_idempotency}

  -- A row stands under the id, and its state is not terminal.
  abbrev pub IsHeld : Text → Store → Type 0
  IsHeld id s = (v : IdempotencyRecord) × (row id s ≡ some v) × (is_terminal_state v.state ≡ false)

  prune-IsHeld :
      (id : Text) (now : ℤ) (s : Store) → IsHeld id s → IsHeld id (prune l capacity now s).1
  unfolding prune
  prune-IsHeld id now s (v, held, open_state) = (
    v,
    lawful.prune_keeps id (horizon_start now) capacity reclaimable_states s v held
        (not_reclaimable v.state open_state),
    open_state,
  )

  pub put-IsHeld :
      (id : Text) (r : IdempotencyRecord) (s : Store)
      → is_terminal_state r.state ≡ false
      → IsHeld id s
      → IsHeld id (put_idempotency r s).1
  put-IsHeld id r s fresh (v, held, open_state) = elim (Bool-cases (put_idempotency r s).0) [
    | inr refused ↦ (v, lawful.put_refuses id r s refused ∙ held, open_state)
    | inl written ↦ elim (Bool-cases (text_eq id r.request_id)) [
      | inl same ↦ (r, lawful.put_writes id r s written ∙ rw same refl, fresh)
      | inr other ↦ (v, lawful.put_writes id r s written ∙ rw other held, open_state)
    ]
  ]

  claim-IsHeld :
      (id : Text) (r : RequestRecord) (now : ℤ) (s : Store)
      → IsHeld id s
      → IsHeld id (claim l capacity r now s).1
  unfolding claim is_terminal_state text text_eq
  claim-IsHeld id r now s h = put-IsHeld id (admitted_row r now) s refl h

  admit_counted-IsHeld :
      (id : Text) (r : RequestRecord) (now : ℤ) (o : Option ℕ) (s : Store)
      → IsHeld id s
      → IsHeld id (admit_counted l capacity r now o s).1
  unfolding admit_counted
  admit_counted-IsHeld id r now none s h = claim-IsHeld id r now s h
  admit_counted-IsHeld id r now (some n) s h = elim (Bool-cases (leb capacity n)) [
    | inl full ↦ rw full h
    | inr room ↦ rw room (claim-IsHeld id r now s h)
  ]

  pub keep-IsHeld : (id : Text) (s s' : Store) → row id s' ≡ row id s → IsHeld id s → IsHeld id s'
  keep-IsHeld id s s' same (v, held, open_state) = (v, same ∙ held, open_state)

  admit_new-IsHeld :
      (id : Text) (r : RequestRecord) (now : ℤ) (s : Store)
      → IsHeld id s
      → IsHeld id (admit_new l capacity r now s).1
  unfolding admit_new prune
  admit_new-IsHeld id r now s h =
      let s1 = (prune l capacity now s).1 in
      let from = horizon_start now in
      admit_counted-IsHeld id r now (count_idempotency from s1).0 (count_idempotency from s1).1 (
        keep-IsHeld id s1 (count_idempotency from s1).1 (lawful.count_keeps id from s1)
          (prune-IsHeld id now s h))

  admit_found-IsHeld :
      (id : Text) (r : RequestRecord) (now : ℤ) (o : Option (Option IdempotencyRecord)) (s : Store)
      → IsHeld id s
      → IsHeld id (admit_found l capacity r now o s).1
  unfolding admit_found
  admit_found-IsHeld id r now none s h = h
  admit_found-IsHeld id r now (some none) s h = admit_new-IsHeld id r now s h
  admit_found-IsHeld id r now (some (some v)) s h = h

  pub admit-IsHeld :
      (id : Text) (r : RequestRecord) (now : ℤ) (s : Store)
      → IsHeld id s
      → IsHeld id (admit l capacity r now s).1
  unfolding admit
  admit-IsHeld id r now s h =
      admit_found-IsHeld id r now (get_idempotency r.request_id s).0
        (get_idempotency r.request_id s).1
        (keep-IsHeld id s (get_idempotency r.request_id s).1 (lawful.get_keeps id r.request_id s) h)

  -- What proceeds was claimed.
  claim-proceeds :
      (r : RequestRecord) (now : ℤ) (s : Store)
      → (claim l capacity r now s).0.decision ≡ proceed
      → IsHeld r.request_id (claim l capacity r now s).1
  unfolding claim is_terminal_state text text_eq
  claim-proceeds r now s e = elim (Bool-cases (put_idempotency (admitted_row r now) s).0) [
    | inl written ↦ (
      admitted_row r now,
      lawful.put_writes r.request_id (admitted_row r now) s written
          ∙ rw (text_eq_refl r.request_id) refl,
      refl,
    )
    | inr refused ↦ absurd (ground (arith, refused, e))
  ]

  admit_counted-proceeds :
      (r : RequestRecord) (now : ℤ) (o : Option ℕ) (s : Store)
      → (admit_counted l capacity r now o s).0.decision ≡ proceed
      → IsHeld r.request_id (admit_counted l capacity r now o s).1
  unfolding admit_counted
  admit_counted-proceeds r now none s e = claim-proceeds r now s e
  admit_counted-proceeds r now (some n) s e = elim (Bool-cases (leb capacity n)) [
    | inl full ↦ absurd (ground (arith, full, e))
    | inr room ↦
        let step : admit_counted l capacity r now (some n) s ≡ claim l capacity r now s =
          rw room refl in
        subst (λ x. IsHeld r.request_id x.1) (sym step)
          (claim-proceeds r now s (ap (λ x. x.0.decision) (sym step) ∙ e))
  ]

  admit_found-proceeds :
      (r : RequestRecord) (now : ℤ) (o : Option (Option IdempotencyRecord)) (s : Store)
      → (admit_found l capacity r now o s).0.decision ≡ proceed
      → IsHeld r.request_id (admit_found l capacity r now o s).1
  unfolding admit_found admit_new
  admit_found-proceeds r now none s e = absurd cc
  admit_found-proceeds r now (some none) s e =
      let from = horizon_start now in
      let s1 = (prune_idempotency from capacity reclaimable_states s).1 in
      admit_counted-proceeds r now (count_idempotency from s1).0 (count_idempotency from s1).1 e
  admit_found-proceeds r now (some (some v)) s e = absurd (existing_lem (fingerprint r) v e)

  found_lem :
      (r : RequestRecord) (now : ℤ) (o : Option (Option IdempotencyRecord)) (s : Store)
      → o ≢ some none
      → (admit_found l capacity r now o s).0.decision ≢ proceed
  unfolding admit_found
  found_lem r now none s h e = absurd cc
  found_lem r now (some none) s h e = absurd (h refl)
  found_lem r now (some (some v)) s h e = existing_lem (fingerprint r) v e

  -- A held id is not let proceed.
  pub held_lem :
      (r : RequestRecord) (now : ℤ) (s : Store)
      → IsHeld r.request_id s
      → (admit l capacity r now s).0.decision ≢ proceed
  unfolding admit
  held_lem r now s (v, held, open_state) =
      found_lem r now (get_idempotency r.request_id s).0 (get_idempotency r.request_id s).1
        (λ e. absurd (ground (arith, lawful.get_reads r.request_id s none e, held)))

  pub admit-proceeds :
      (r : RequestRecord) (now : ℤ) (s : Store)
      → (admit l capacity r now s).0.decision ≡ proceed
      → IsHeld r.request_id (admit l capacity r now s).1
  unfolding admit
  admit-proceeds r now s e =
      admit_found-proceeds r now (get_idempotency r.request_id s).0
        (get_idempotency r.request_id s).1 e

  -- The store after calls of `admit` and `prune` at given times.
  abbrev pub apply_all : List (Call) → Store → Store
  apply_all [] s = s
  apply_all (admits r now ∷ calls) s = apply_all calls (admit l capacity r now s).1
  apply_all (prunes now ∷ calls) s = apply_all calls (prune l capacity now s).1

  apply_all-IsHeld :
      (id : Text) (calls : List Call) (s : Store) → IsHeld id s → IsHeld id (apply_all calls s)
  apply_all-IsHeld id [] s h = h
  apply_all-IsHeld id (admits r now ∷ calls) s h =
      apply_all-IsHeld id calls (admit l capacity r now s).1 (admit-IsHeld id r now s h)
  apply_all-IsHeld id (prunes now ∷ calls) s h =
      apply_all-IsHeld id calls (prune l capacity now s).1 (prune-IsHeld id now s h)

  -- A request that was let proceed once is not let proceed a second time, at any time, with any
  -- payload and whether or not the ledger can be read, after any admissions and prunings that came in
  -- between, over every ledger that keeps the store's promises.
  pub admit-admit :
      (r again : RequestRecord) (now later : ℤ) (calls : List Call) (s : Store)
      → (admit l capacity r now s).0.decision ≡ proceed
      → again.request_id ≡ r.request_id
      → (admit l capacity again later (apply_all calls (admit l capacity r now s).1)).0.decision
        ≢ proceed
  admit-admit r again now later calls s e same =
      let held = admit-proceeds r now s e in
      held_lem again later (apply_all calls (admit l capacity r now s).1) (
        subst (λ id. IsHeld id (apply_all calls (admit l capacity r now s).1)) (sym same)
          (apply_all-IsHeld r.request_id calls (admit l capacity r now s).1 held))
