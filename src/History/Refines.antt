-- ===== src/History/Refines.antt =====
-- The idempotency rows of runtime_history/src/store.cpp keep the promises of the ledger, whatever call of SQLite
-- fails.
use embodied_agent_runtime.Common.{
  ℕ, Bool, true, false, Option, none, some, List, [], ◌∷◌, any, filter, length, ◌-◌, is_some,
  if◌then◌else◌, ◌≡◌, ◌∙◌, refl, sym, ap, subst, inl, inr, Bool-cases, Option-cases, arith,
}
use mathlib.Core.Option
use mathlib.Core.Option.{some_inj}
use embodied_agent_runtime.Common.Int.{ℤ}
use embodied_agent_runtime.Common.Exec.{
  Result, returned, thrown, exhausted, pure, throw, gets, change, ◌>>=◌, ◌>>◌,
}
use embodied_agent_runtime.Common.Exec.Ensures.{
  Holds, Ensures, Keeps, bind-Ensures, Keeps-Ensures, Ensures-Keeps, weaken-Ensures, if-Ensures,
  catching-Keeps, pure-Ensures, throw-Ensures, change-Ensures, gets-Ensures, catching-Ensures,
  pure-Keeps, throw-Keeps, gets-Keeps, bind-Keeps,
}
use embodied_agent_runtime.Common.Text.{Text, text_eq, text_eq_iff}
use embodied_agent_runtime.Gateway.Ledger.{IdempotencyRecord, IsLedgerWhile}
use embodied_agent_runtime.History.Clean.{
  IsClean, AreClean, read_row-row_of, upsert-AreClean, filter-AreClean,
}
use embodied_agent_runtime.History.Store.{
  Sqlite, HistoryStore, read_row, row_of, replace_row, upsert, run, step_statement, put_row,
  store_put, store_get, delete_rows, rollback, reclaim, store_prune, store_count, result_or,
  as_option, history_ledger,
}

row_of-replace_row :
    (j : Text) (r : IdempotencyRecord) (rows : List IdempotencyRecord)
    → is_some (row_of r.request_id rows) ≡ true
    → row_of j (replace_row r rows) ≡ (if text_eq j r.request_id then some r else row_of j rows)
unfolding row_of replace_row
row_of-replace_row j r [] h = absurd cc
row_of-replace_row j r (x ∷ rows) h = ground (
  arith,
  h,
  row_of-replace_row j r rows,
  text_eq_iff j r.request_id,
  text_eq_iff r.request_id x.request_id,
  text_eq_iff j x.request_id,
)

-- A row that is put replaces the one under its id.
row_of-upsert :
    (j : Text) (r : IdempotencyRecord) (rows : List IdempotencyRecord)
    → (upsert r rows).0 ≡ true
    → row_of j (upsert r rows).1 ≡ (if text_eq j r.request_id then some r else row_of j rows)
unfolding upsert row_of
row_of-upsert j r rows h = elim (Option-cases (row_of r.request_id rows)) [
  | inl new ↦ rw (new, upsert) refl
  | inr (x, found) ↦ elim (Bool-cases (text_eq x.fingerprint r.fingerprint)) [
    | inl same ↦ rw (found, same, upsert) (row_of-replace_row j r rows (ap is_some found))
    | inr other ↦ absurd (ground (arith, h, found, other))
  ]
]

upsert_unchanged :
    (r : IdempotencyRecord) (rows : List IdempotencyRecord)
    → (upsert r rows).0 ≡ false
    → (upsert r rows).1 ≡ rows
unfolding upsert
upsert_unchanged r rows h = elim (Option-cases (row_of r.request_id rows)) [
  | inl new ↦ absurd (ground (arith, h, new))
  | inr (x, found) ↦ ground (arith, h, found)
]

row_of-filter :
    (j : Text) (p : IdempotencyRecord → Bool) (rows : List IdempotencyRecord)
    (v : IdempotencyRecord)
    → row_of j rows ≡ some v
    → p v ≡ true
    → row_of j (filter p rows) ≡ some v
unfolding row_of
row_of-filter j p [] v h k = absurd cc
row_of-filter j p (x ∷ rows) v h k = elim (Bool-cases (text_eq j x.request_id)) [
  | inl here ↦
      let same : x ≡ v = some_inj.0 (sym (rw here refl) ∙ h) in
      rw (ap p same ∙ k, here) (ap some same)
  | inr later ↦
      let kept = row_of-filter j p rows v (sym (rw later refl) ∙ h) k in
      elim (Bool-cases (p x)) [ inl stays ↦ rw (stays, later) kept | inr goes ↦ rw goes kept ]
]

module _ (q : Sqlite) where
  open q use {World}

  -- A call of SQLite leaves the rows.
  run-Keeps : (P : List IdempotencyRecord → Type 0) → Keeps (λ s. P s.rows) (run q)
  unfolding run
  run-Keeps P = record { at = λ s held. called (q.call s.world).0 (q.call s.world).1 s held }
    where
      called :
          (e : Option Text) (w : World) (s : HistoryStore World)
          → P s.rows
          → Holds
              (λ _ s. P s.rows)
              (λ s. P s.rows)
              (elim e [ none ↦ returned tt | some t ↦ thrown t ], record s { world = w })
      called none w s held = held
      called (some t) w s held = held

  step_statement-Keeps :
      (P : List IdempotencyRecord → Type 0) → Keeps (λ s. P s.rows) (step_statement q)
  unfolding step_statement
  step_statement-Keeps P = record { at = λ s held. held }

  -- What a write leaves, by whether it reports success.
  abbrev Left : IdempotencyRecord → List IdempotencyRecord → Bool → HistoryStore World → Type 0
  Left r old true s = ((upsert r old).0 ≡ true) × (s.rows ≡ (upsert r old).1)
  Left r old false s = s.rows ≡ old

  left_lem :
      (r : IdempotencyRecord) (old : List IdempotencyRecord) (ok : Bool) (s : HistoryStore World)
      → (ok ≡ (upsert r old).0) × (s.rows ≡ (upsert r old).1)
      → Left r old ok s
  left_lem r old true s (c, e) = (sym c, e)
  left_lem r old false s (c, e) = e ∙ upsert_unchanged r old (sym c)

  put_row-Ensures :
      (r : IdempotencyRecord) (old : List IdempotencyRecord)
      → Ensures
          (λ s. s.rows ≡ old)
          (put_row q r)
          (λ ok s. (ok ≡ (upsert r old).0) × (s.rows ≡ (upsert r old).1))
          (λ s. s.rows ≡ old)
  unfolding put_row
  put_row-Ensures r old =
      bind-Ensures _ _
        (gets-Ensures _ {Q = λ ok s. (ok ≡ (upsert r old).0) × (s.rows ≡ old)}
          (λ s e. (ap (λ x. (upsert r x).0) e, e)))
        (λ ok.
          bind-Ensures _ _
            (change-Ensures _ {Q = λ _ s. (ok ≡ (upsert r old).0) × (s.rows ≡ (upsert r old).1)}
              (λ s (c, e). (c, ap (λ x. (upsert r x).1) e)))
            (λ _. pure-Ensures ok (λ s k. k)))

  after_step-Ensures :
      (r : IdempotencyRecord) (old : List IdempotencyRecord) (failed : Option Text)
      → Ensures
          (λ s. s.rows ≡ old)
          (elim failed [ some e ↦ pure false | none ↦ put_row q r ])
          (Left r old)
          (λ s. s.rows ≡ old)
  after_step-Ensures r old none =
      weaken-Ensures _ (λ s e. e) (left_lem r old) (λ s e. e) (put_row-Ensures r old)
  after_step-Ensures r old (some e) = pure-Ensures false (λ s k. k)

  store_put-Ensures :
      (r : IdempotencyRecord) (old : List IdempotencyRecord)
      → Ensures (λ s. s.rows ≡ old) (store_put q r) (Left r old) (λ s. s.rows ≡ old)
  unfolding store_put
  store_put-Ensures r old =
      let same = λ (rows : List IdempotencyRecord). rows ≡ old in
      if-Ensures _ _ _ (pure-Ensures false (λ s k. k)) (
        catching-Ensures _ _ (λ s k. k)
          (bind-Ensures _ _ (Keeps-Ensures (run-Keeps same)) (λ _.
            bind-Ensures _ _ (Keeps-Ensures (step_statement-Keeps same))
              (after_step-Ensures r old)))
          (λ e. pure-Ensures false (λ s k. k)))

  found-Ensures :
      (k : Text) (old : List IdempotencyRecord) (failed : Option Text)
      → Ensures
          (λ s. s.rows ≡ old)
          (elim failed [
            | some e ↦ throw e
            | none ↦ gets {S = HistoryStore World} (λ s. Option.map read_row (row_of k s.rows))
          ])
          (λ o s. (o ≡ Option.map read_row (row_of k old)) × (s.rows ≡ old))
          (λ s. s.rows ≡ old)
  found-Ensures k old none =
      gets-Ensures _ (λ s e. (ap (λ x. Option.map read_row (row_of k x)) e, e))
  found-Ensures k old (some e) = throw-Ensures e (λ s h. h)

  store_get-Ensures :
      (k : Text) (old : List IdempotencyRecord)
      → Ensures
          (λ s. s.rows ≡ old)
          (store_get q k)
          (λ o s. (o ≡ Option.map read_row (row_of k old)) × (s.rows ≡ old))
          (λ s. s.rows ≡ old)
  unfolding store_get
  store_get-Ensures k old =
      let same = λ (rows : List IdempotencyRecord). rows ≡ old in
      bind-Ensures _ _ (Keeps-Ensures (run-Keeps same))
        (λ _. bind-Ensures _ _ (Keeps-Ensures (step_statement-Keeps same)) (found-Ensures k old))

  counted-Keeps :
      (P : List IdempotencyRecord → Type 0) (f : HistoryStore World → ℕ) (failed : Option Text)
      → Keeps (λ s. P s.rows) (elim failed [ some e ↦ throw e | none ↦ gets f ])
  counted-Keeps P f none = gets-Keeps f
  counted-Keeps P f (some e) = throw-Keeps e

  store_count-Keeps :
      (P : List IdempotencyRecord → Type 0) (from : ℤ) → Keeps (λ s. P s.rows) (store_count q from)
  unfolding store_count
  store_count-Keeps P from =
      bind-Keeps _ _ (run-Keeps P)
        (λ _. bind-Keeps _ _ (step_statement-Keeps P) (counted-Keeps P _))

  -- A row whose state is not listed is not deleted.
  row_of-delete_rows :
      (j : Text) (older : ℤ) (keep : ℕ) (states : List Text) (rows : List IdempotencyRecord)
      (v : IdempotencyRecord)
      → any (text_eq v.state) states ≡ false
      → row_of j rows ≡ some v
      → row_of j (delete_rows q older keep states rows) ≡ some v
  unfolding delete_rows
  row_of-delete_rows j older keep states rows v unlisted held =
      row_of-filter j _ rows v held (ground (arith, unlisted))

  delete_rows-AreClean :
      (older : ℤ) (keep : ℕ) (states : List Text) (rows : List IdempotencyRecord)
      → AreClean rows
      → AreClean (delete_rows q older keep states rows)
  unfolding delete_rows
  delete_rows-AreClean older keep states rows h = filter-AreClean _ rows h

  -- What the DELETE keeps, a pruning keeps.
  module _ (older : ℤ) (keep : ℕ) (states : List Text) (Stands : List IdempotencyRecord → Type 0)
      (spared : (rows : List IdempotencyRecord)
        → Stands rows
        → Stands (delete_rows q older keep states rows)) where
    rollback-Keeps :
        (saved : List IdempotencyRecord)
        → Stands saved
        → Keeps (λ s. Stands s.rows) (rollback q saved)
    unfolding rollback
    rollback-Keeps saved held = Ensures-Keeps (
        bind-Ensures _ _ (change-Ensures _ {Q = λ _ s. Stands s.rows} (λ s k. held))
          (λ _. Keeps-Ensures (pure-Keeps 0)))

    deleted-Keeps :
        (saved : List IdempotencyRecord) (failed : Option Text)
        → Stands saved
        → Keeps
            (λ s. Stands s.rows)
            (elim failed [
              | some e ↦ (do run q; rollback q saved)
              | none ↦ (do
                change (λ s. record s { rows = delete_rows q older keep states s.rows })
                removed ← gets (λ s. length saved - length s.rows)
                run q
                pure removed)
            ])
    deleted-Keeps saved none held = Ensures-Keeps (
        bind-Ensures _ _ (change-Ensures _ {Q = λ _ s. Stands s.rows} (λ s k. spared s.rows k))
          (λ _. Keeps-Ensures (
            bind-Keeps _ _ (gets-Keeps _)
              (λ removed. bind-Keeps _ _ (run-Keeps Stands) (λ _. pure-Keeps removed)))))
    deleted-Keeps saved (some e) held =
        bind-Keeps _ _ (run-Keeps Stands) (λ _. rollback-Keeps saved held)

    reclaim-Keeps :
        (saved : List IdempotencyRecord)
        → Stands saved
        → Keeps (λ s. Stands s.rows) (reclaim q older keep states saved)
    unfolding reclaim
    reclaim-Keeps saved held = bind-Keeps _ _ (run-Keeps Stands) (λ _.
        bind-Keeps _ _ (run-Keeps Stands) (λ _.
          bind-Keeps _ _ (step_statement-Keeps Stands) (λ failed. deleted-Keeps saved failed held)))

    store_prune-Keeps : Keeps (λ s. Stands s.rows) (store_prune q older keep states)
    unfolding store_prune
    store_prune-Keeps = Ensures-Keeps (
        bind-Ensures _ _
          (gets-Ensures _ {Q = λ saved s. Stands saved × Stands s.rows} (λ s k. (k, k)))
          (λ saved. record {
            at = λ s (held, k).
                (catching-Keeps _ _ (reclaim-Keeps saved held) (λ e. rollback-Keeps saved held)).at
                  s k;
          }))

  -- What an operation leaves whether it returns or throws.
  put_result :
      (r : IdempotencyRecord) (old : List IdempotencyRecord) (x : Result Bool × HistoryStore World)
      → Holds (Left r old) (λ s. s.rows ≡ old) x
      → Left r old (result_or false x.0) x.1
  put_result r old (returned ok, s) k = k
  put_result r old (thrown e, s) k = k
  put_result r old (exhausted, s) k = k

  put-Left :
      (r : IdempotencyRecord) (s : HistoryStore World)
      → Left r s.rows (result_or false (store_put q r s).0) (store_put q r s).1
  put-Left r s = put_result r s.rows (store_put q r s) ((store_put-Ensures r s.rows).at s refl)

  upserted_lem :
      (r : IdempotencyRecord) (old : List IdempotencyRecord) (ok : Bool) (s : HistoryStore World)
      → IsClean r
      → AreClean old
      → Left r old ok s
      → AreClean s.rows
  upserted_lem r old true s clean h (c, e) = subst AreClean (sym e) (upsert-AreClean r old clean h)
  upserted_lem r old false s clean h e = subst AreClean (sym e) h

  left-AreClean :
      (r : IdempotencyRecord) (s : HistoryStore World)
      → IsClean r
      → AreClean s.rows
      → AreClean (store_put q r s).1.rows
  left-AreClean r s clean h =
      upserted_lem r s.rows (result_or false (store_put q r s).0) (store_put q r s).1 clean h
        (put-Left r s)

  get_result :
      (k : Text) (old : List IdempotencyRecord)
      (x : Result (Option IdempotencyRecord) × HistoryStore World)
      → Holds
          (λ o s. (o ≡ Option.map read_row (row_of k old)) × (s.rows ≡ old))
          (λ s. s.rows ≡ old)
          x
      → (x.1.rows ≡ old)
        × ((o : Option IdempotencyRecord)
            → as_option x.0 ≡ some o
            → o ≡ Option.map read_row (row_of k old))
  get_result k old (returned found, s) (e, same) = (same, λ o h. sym (some_inj.0 h) ∙ e)
  get_result k old (thrown e, s) same = (same, λ o h. absurd cc)
  get_result k old (exhausted, s) same = (same, λ o h. absurd cc)

  get-Reads :
      (k : Text) (s : HistoryStore World)
      → ((store_get q k s).1.rows ≡ s.rows)
        × ((o : Option IdempotencyRecord)
            → as_option (store_get q k s).0 ≡ some o
            → o ≡ Option.map read_row (row_of k s.rows))
  get-Reads k s = get_result k s.rows (store_get q k s) ((store_get-Ensures k s.rows).at s refl)

  kept_result :
      {A : Type 0} (P : List IdempotencyRecord → Type 0) (x : Result A × HistoryStore World)
      → Holds (λ _ s. P s.rows) (λ s. P s.rows) x
      → P x.1.rows
  kept_result P (returned a, s) k = k
  kept_result P (thrown e, s) k = k
  kept_result P (exhausted, s) k = k

-- Whichever calls of SQLite fail, the store keeps every promise that the gateway's ledger makes: where no
-- row holds a NUL byte in a text, which every operation keeps so, a write if its record holds none, a
-- read that does not throw gives the row; and in any state, a read and a count change no row, a write
-- that reports success puts the one row and no other, a write that does not changes none, and pruning
-- keeps every row whose state is not listed.
pub history_ledger-IsLedgerWhile :
    (q : Sqlite) → IsLedgerWhile (history_ledger q) IsClean (λ s. AreClean s.rows)
history_ledger-IsLedgerWhile q = record {
  get_sound = λ k s h. subst AreClean (sym (get-Reads q k s).0) h;
  put_sound = λ r s clean h. left-AreClean q r s clean h;
  prune_sound = λ from keep states s h. kept_result q AreClean (store_prune q from keep states s) (
      (store_prune-Keeps q from keep states AreClean (delete_rows-AreClean q from keep states)).at s
        h);
  count_sound = λ from s h.
      kept_result q AreClean (store_count q from s) ((store_count-Keeps q AreClean from).at s h);
  get_keeps = λ j k s. ap (row_of j) (get-Reads q k s).0;
  get_reads = λ k s o h e. (get-Reads q k s).1 o e ∙ read_row-row_of k s.rows h;
  count_keeps = λ j from s.
      kept_result q (λ rows. row_of j rows ≡ row_of j s.rows) (store_count q from s)
        ((store_count-Keeps q (λ rows. row_of j rows ≡ row_of j s.rows) from).at s refl);
  put_writes = λ j r s ok.
      let (c, e) = subst (λ b. Left q r s.rows b (store_put q r s).1) ok (put-Left q r s) in
      ap (row_of j) e ∙ row_of-upsert j r s.rows c;
  put_refuses = λ j r s ok.
      ap (row_of j) (subst (λ b. Left q r s.rows b (store_put q r s).1) ok (put-Left q r s));
  prune_keeps = λ j from keep states s v held unlisted.
      kept_result q (λ rows. row_of j rows ≡ some v) (store_prune q from keep states s)
        ((store_prune-Keeps q from keep states (λ rows. row_of j rows ≡ some v)
            (λ rows k. row_of-delete_rows q j from keep states rows v unlisted k)).at
          s held);
}
