-- ===== src/Executor/TargetValidator.antt =====
-- task_executor/include/task_executor/target_validator.hpp and task_executor/src/target_validator.cpp.
-- The set is a list without repetitions.
use embodied_agent_runtime.Common.{
  ℕ, Bool, not, ◌&&◌, ◌||◌, Option, none, some, List, [], ◌∷◌, any, length, leb, ◌==◌,
  if◌then◌else◌,
}
use embodied_agent_runtime.Common.Text.{Text, text_eq}

-- `std::isspace` in the "C" locale.
abbrev pub is_space : ℕ → Bool
is_space character = character == 32 || (leb 9 character && leb character 13)

abbrev pub has_non_whitespace : Text → Bool
has_non_whitespace value = any (λ character. not (is_space character)) value

-- The allowlist, `targets_`.
pub record TargetValidator : Type 0 where
  pub targets : List Text

abbrev pub contains : Text → List Text → Bool
contains target targets = any (text_eq target) targets

-- `targets_.insert`.
abbrev pub insert_target : Text → List Text → List Text
insert_target target targets = if contains target targets then targets else target ∷ targets

-- The constructor's loop over what is left of `targets`.
unfoldable pub insert_targets : List Text → List Text → List Text
insert_targets [] kept = kept
insert_targets (target ∷ rest) kept =
    insert_targets rest (if has_non_whitespace target then insert_target target kept else kept)

-- `throw` where the set is empty.
unfoldable pub checked : List Text → Option TargetValidator
checked [] = none
checked (target ∷ rest) = some (record { targets = target ∷ rest })

unfoldable pub construct_validator : List Text → Option TargetValidator
construct_validator targets = checked (insert_targets targets [])

unfoldable pub is_known : Text → TargetValidator → Bool
is_known target_id v = has_non_whitespace target_id && contains target_id v.targets

unfoldable pub target_count : TargetValidator → ℕ
target_count v = length v.targets
