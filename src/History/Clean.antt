-- ===== src/History/Clean.antt =====
-- Rows of runtime_history/src/store.cpp whose texts hold no NUL byte, so that they are read back as they are.
use mathlib.Core.Option
use embodied_agent_runtime.Common.{
  ◌==◌, ◌||◌, Bool, false, some, List, [], ◌∷◌, any, filter, ◌≡◌, refl, ap, inl, inr, Bool-cases,
  Option-cases, arith,
}
use embodied_agent_runtime.Common.Text.{Text, text_eq}
use embodied_agent_runtime.Gateway.Ledger.{IdempotencyRecord}
use embodied_agent_runtime.History.Store.{c_string, read_row, row_of, replace_row, upsert}

abbrev pub has_nul : Text → Bool
has_nul bytes = any (λ b. b == 0) bytes

-- A record one of whose texts holds a NUL byte.
abbrev pub holds_nul : IdempotencyRecord → Bool
holds_nul r =
    has_nul r.request_id || (has_nul r.fingerprint || (has_nul r.state || has_nul r.message))

abbrev pub IsClean : IdempotencyRecord → Type 0
IsClean r = holds_nul r ≡ false

abbrev pub AreClean : List IdempotencyRecord → Type 0
AreClean rows = any holds_nul rows ≡ false

c_string-clean : (t : Text) → has_nul t ≡ false → c_string t ≡ t
unfolding c_string
c_string-clean [] h = refl
c_string-clean (b ∷ t) h = ground (arith, c_string-clean t)

-- A row without NUL bytes is read back as it is.
read_row-clean : (r : IdempotencyRecord) → IsClean r → read_row r ≡ r
unfolding read_row
read_row-clean r h =
    rw
      (
        c_string-clean r.request_id (ground arith),
        c_string-clean r.fingerprint (ground arith),
        c_string-clean r.state (ground arith),
        c_string-clean r.message (ground arith),
      )
      refl

pub read_row-row_of :
    (k : Text) (rows : List IdempotencyRecord)
    → AreClean rows
    → Option.map read_row (row_of k rows) ≡ row_of k rows
unfolding row_of
read_row-row_of k [] h = refl
read_row-row_of k (x ∷ rows) h = elim (Bool-cases (text_eq k x.request_id)) [
  | inl here ↦ rw here (ap some (read_row-clean x (ground arith)))
  | inr later ↦ rw later (read_row-row_of k rows (ground arith))
]

replace_row-AreClean :
    (r : IdempotencyRecord) (rows : List IdempotencyRecord)
    → IsClean r
    → AreClean rows
    → AreClean (replace_row r rows)
unfolding replace_row
replace_row-AreClean r [] h k = refl
replace_row-AreClean r (x ∷ rows) h k = ground (arith, replace_row-AreClean r rows)

pub upsert-AreClean :
    (r : IdempotencyRecord) (rows : List IdempotencyRecord)
    → IsClean r
    → AreClean rows
    → AreClean (upsert r rows).1
unfolding upsert
upsert-AreClean r rows h k = elim (Option-cases (row_of r.request_id rows)) [
  | inl new ↦ rw (new, upsert) (ground arith)
  | inr (x, found) ↦ elim (Bool-cases (text_eq x.fingerprint r.fingerprint)) [
    | inl same ↦ rw (found, same, upsert) (replace_row-AreClean r rows h k)
    | inr other ↦ rw (found, other, upsert) k
  ]
]

pub filter-AreClean :
    (p : IdempotencyRecord → Bool) (rows : List IdempotencyRecord)
    → AreClean rows
    → AreClean (filter p rows)
filter-AreClean p [] h = refl
filter-AreClean p (x ∷ rows) h = elim (Bool-cases (p x)) [
  | inl stays ↦ rw stays (ground (arith, filter-AreClean p rows))
  | inr goes ↦ rw goes (filter-AreClean p rows (ground arith))
]
