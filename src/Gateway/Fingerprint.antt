-- ===== src/Gateway/Fingerprint.antt =====
-- The fingerprint of runtime_gateway/src/request_registry.cpp tells requests apart.
use embodied_agent_runtime.Common.{◌≡◌, refl, sym, ap, ◌∙◌, ◌↔◌, [], ◌∷◌, ◌++◌, length, All, arith}
use mathlib.Core.List.{append_assoc}
use embodied_agent_runtime.Common.Text.{Text}
use embodied_agent_runtime.Common.Decimal.{decimal, decimal-injective, decimal-IsDigit, IsDigit}
use embodied_agent_runtime.Gateway.Request.{RequestRecord, prefixed, fingerprint}

-- Two digit strings, each followed by a colon, agree if the whole texts do.
split_at_colon :
    (a b x y : Text)
    → All IsDigit a
    → All IsDigit b
    → a ++ (b':' ∷ x) ≡ b ++ (b':' ∷ y)
    → (a ≡ b) × (x ≡ y)
split_at_colon [] [] x y p q e = (refl, cc)
split_at_colon [] (d ∷ b) x y p q e = absurd (let h : 58 ≡ d = cc in omega arith)
split_at_colon (c ∷ a) [] x y p q e = absurd (let h : c ≡ 58 = cc in omega arith)
split_at_colon (c ∷ a) (d ∷ b) x y p q e =
    let (same, rest) = split_at_colon a b x y p.1 q.1 (cc) in (cc same, rest)

-- Two texts of one length, each followed by a rest, agree if the whole texts do.
split_at_length : (v w x y : Text) → length v ≡ length w → v ++ x ≡ w ++ y → (v ≡ w) × (x ≡ y)
split_at_length [] [] x y l e = (refl, e)
split_at_length [] (d ∷ w) x y l e = absurd (omega arith)
split_at_length (c ∷ v) [] x y l e = absurd (omega arith)
split_at_length (c ∷ v) (d ∷ w) x y l e =
    let (same, rest) = split_at_length v w x y (omega arith) (cc) in (cc same, rest)

-- A length-prefixed field is read back from the front of a text.
prefixed_split : (v w x y : Text) → prefixed v ++ x ≡ prefixed w ++ y → (v ≡ w) × (x ≡ y)
unfolding prefixed
prefixed_split v w x y e =
    let e' : decimal (length v) ++ (b':' ∷ (v ++ x)) ≡ decimal (length w) ++ (b':' ∷ (w ++ y)) =
      sym (append_assoc (decimal (length v)) (b':' ∷ v) x)
      ∙ e
      ∙ append_assoc (decimal (length w)) (b':' ∷ w) y in
    let (digits, rest) =
      split_at_colon _ _ _ _ (decimal-IsDigit (length v)) (decimal-IsDigit (length w)) e' in
    split_at_length v w x y (decimal-injective _ _ digits) rest

-- The fields that say what the device is asked to do.
abbrev pub SameRequest : RequestRecord → RequestRecord → Type 0
SameRequest a b =
    (a.request_id ≡ b.request_id)
    × (a.task_id ≡ b.task_id)
    × (a.target_id ≡ b.target_id)
    × (a.workflow_id ≡ b.workflow_id)
    × (a.timeout_ms ≡ b.timeout_ms)

fingerprint-injective : (a b : RequestRecord) → fingerprint a ≡ fingerprint b → SameRequest a b
unfolding fingerprint
fingerprint-injective a b e =
    let (request, e1) = prefixed_split a.request_id b.request_id _ _ e in
    let (task, e2) = prefixed_split a.task_id b.task_id _ _ e1 in
    let (target, e3) = prefixed_split a.target_id b.target_id _ _ e2 in
    let (workflow, e4) = prefixed_split a.workflow_id b.workflow_id _ _ e3 in
    let last : prefixed (decimal a.timeout_ms) ++ [] ≡ prefixed (decimal b.timeout_ms) ++ [] =
      ap (λ (t : Text). t ++ []) e4 in
    let (timeout, _) = prefixed_split (decimal a.timeout_ms) (decimal b.timeout_ms) [] [] last in
    (request, task, target, workflow, decimal-injective _ _ timeout)

-- Two requests have one fingerprint exactly when they agree in all five fields of their identity,
-- whatever bytes the fields hold; state, outcome, error code and message play no part.
pub fingerprint_iff : (a b : RequestRecord) → (fingerprint a ≡ fingerprint b) ↔ SameRequest a b
unfolding fingerprint
fingerprint_iff a b = (fingerprint-injective a b, λ h. ground arith)
