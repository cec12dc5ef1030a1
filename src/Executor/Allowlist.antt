-- ===== src/Executor/Allowlist.antt =====
-- What the allowlist of task_executor/src/target_validator.cpp lets through.
use embodied_agent_runtime.Common.{
  true, false, ◌&&◌, ◌||◌, none, some, List, [], ◌∷◌, any, if◌then◌else◌, ◌≡◌, ◌≢◌, ◌↔◌, inl, inr,
  Bool-cases, ◌∙◌, refl, sym, ap, arith,
}
use mathlib.Core.Option.{some_inj}
use embodied_agent_runtime.Common.Map.{text_key}
use embodied_agent_runtime.Common.Text.{Text, text_eq, text_eq_iff}
use embodied_agent_runtime.Executor.TargetValidator.{
  has_non_whitespace, TargetValidator, contains, insert_target, insert_targets, checked,
  construct_validator, is_known,
}

contains-insert_target :
    (t target : Text) (kept : List Text)
    → contains t (insert_target target kept) ≡ (text_eq t target || contains t kept)
contains-insert_target t target kept = elim (Bool-cases (contains target kept)) [
  | inr new ↦ rw new refl
  | inl held ↦ elim (Bool-cases (text_eq t target)) [
    | inr other ↦ rw (held, other) refl
    | inl same ↦
        let here : contains t kept ≡ true =
          ap (λ x. contains x kept) ((text_eq_iff t target).0 same) ∙ held in
        rw (held, same, here) refl
  ]
]

kept_lem :
    (t target : Text) (kept : List Text)
    → contains t (if has_non_whitespace target then insert_target target kept else kept)
      ≡ ((has_non_whitespace t && text_eq t target) || contains t kept)
kept_lem t target kept = elim (Bool-cases (text_eq t target)) [
  | inr other ↦ ground (arith, other, contains-insert_target t target kept)
  | inl same ↦ ground (
    arith,
    same,
    ap has_non_whitespace ((text_eq_iff t target).0 same),
    contains-insert_target t target kept,
  )
]

contains-insert_targets :
    (t : Text) (targets kept : List Text)
    → contains t (insert_targets targets kept)
      ≡ ((has_non_whitespace t && contains t targets) || contains t kept)
unfolding insert_targets
contains-insert_targets t [] kept = ground arith
contains-insert_targets t (target ∷ rest) kept =
    contains-insert_targets t rest
      (if has_non_whitespace target then insert_target target kept else kept)
    ∙ ground (arith, kept_lem t target kept)

checked_lem : (kept : List Text) (v : TargetValidator) → checked kept ≡ some v → kept ≡ v.targets
unfolding checked
checked_lem [] v e = absurd cc
checked_lem (target ∷ rest) v e = ap (λ x. x.targets) (some_inj.0 e)

-- A validator that the constructor makes knows exactly the targets of the list it was made from that
-- hold a character other than white space.
pub is_known_iff :
    (targets : List Text) (v : TargetValidator) (t : Text)
    → construct_validator targets ≡ some v
    → (is_known t v ≡ true) ↔ (has_non_whitespace t && contains t targets ≡ true)
unfolding construct_validator is_known
is_known_iff targets v t made =
    let same = checked_lem (insert_targets targets []) v made in
    let held : contains t v.targets ≡ ((has_non_whitespace t && contains t targets) || false) =
      ap (contains t) (sym same) ∙ contains-insert_targets t targets [] in
    ground (arith, held)

throws_lem : (kept : List Text) → (checked kept ≡ none) ↔ (kept ≡ [])
unfolding checked
throws_lem [] = ground arith
throws_lem (target ∷ rest) = ground arith

-- An insertion never empties the set.
grows :
    (targets : List Text) (target : Text) (kept : List Text)
    → insert_targets targets (target ∷ kept) ≢ []
grows targets target kept e = absurd (
    ground (
      arith,
      ap (contains target) e,
      contains-insert_targets target targets (target ∷ kept),
      (text_eq_iff target target).1 refl,
    ))

empty_lem :
    (targets : List Text)
    → (insert_targets targets [] ≡ []) ↔ (any has_non_whitespace targets ≡ false)
unfolding insert_targets
empty_lem [] = ground arith
empty_lem (target ∷ rest) = elim (Bool-cases (has_non_whitespace target)) [
  | inl real ↦ rw real (λ e. absurd (grows rest target [] e), λ e. absurd cc)
  | inr blank ↦ rw blank (empty_lem rest)
]

-- The constructor throws exactly if every target of the list is white space only.
construct_validator_iff :
    (targets : List Text)
    → (construct_validator targets ≡ none) ↔ (any has_non_whitespace targets ≡ false)
unfolding construct_validator
construct_validator_iff targets =
    ground (arith, throws_lem (insert_targets targets []), empty_lem targets)
