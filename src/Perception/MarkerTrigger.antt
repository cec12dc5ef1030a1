-- ===== src/Perception/MarkerTrigger.antt =====
-- perception_task_adapter/include/perception_task_adapter/marker_trigger.hpp and
-- perception_task_adapter/src/marker_trigger.cpp.
use embodied_agent_runtime.Common.{
  ℕ, bump64, Bool, true, false, not, ◌&&◌, Option, none, some, List, [], ◌∷◌, any, filter, ltb, leb,
  ◌==◌, if◌then◌else◌,
}
use embodied_agent_runtime.Common.Int.{ℤ, pos, negsuc, same_integer}
use embodied_agent_runtime.Common.Text.{Text, text, is_empty}

pub record MarkerMapping : Type 0 where
  pub marker_id : ℤ
  pub workflow_id : Text
  pub target_id : Text

pub record MarkerTrigger : Type 0 where
  pub mappings : List MarkerMapping
  pub confirm_frames : ℕ
  pub rearm_missing_frames : ℕ
  pub streak_id : Option ℤ
  pub streak_frames : ℕ
  pub missing_frames : ℕ
  pub armed : Bool

-- `marker_id < 0 || marker_id > 49`.
abbrev out_of_range : ℤ → Bool
out_of_range (pos n) = ltb 49 n
out_of_range (negsuc n) = true

-- The loop of `validate`, with the ids that it has seen; the text is empty where all is right.
unfoldable pub validate_mappings : List ℤ → List MarkerMapping → Text
validate_mappings seen [] = text ""
validate_mappings seen (mapping ∷ rest) =
    let later = validate_mappings (mapping.marker_id ∷ seen) rest in
    if out_of_range mapping.marker_id
    then text "marker_id must be between 0 and 49"
    else if any (same_integer mapping.marker_id) seen
    then text "marker_id values must be unique"
    else if is_empty mapping.workflow_id
    then text "workflow_id must not be empty"
    else if is_empty mapping.target_id
    then text "target_id must not be empty"
    else later

unfoldable pub validate : List MarkerMapping → ℕ → ℕ → Text
validate [] confirm_frames rearm_missing_frames = text "marker mappings must not be empty"
validate (mapping ∷ rest) confirm_frames rearm_missing_frames =
    if confirm_frames == 0
    then text "confirm_frames must be greater than zero"
    else if rearm_missing_frames == 0
    then text "rearm_missing_frames must be greater than zero"
    else validate_mappings [] (mapping ∷ rest)

-- The members as they are initialised.
abbrev pub initial_trigger : List MarkerMapping → ℕ → ℕ → MarkerTrigger
initial_trigger mappings confirm_frames rearm_missing_frames = record {
  mappings = mappings;
  confirm_frames = confirm_frames;
  rearm_missing_frames = rearm_missing_frames;
  streak_id = none;
  streak_frames = 0;
  missing_frames = 0;
  armed = true;
}

-- The constructor: `none` where it throws.
unfoldable pub construct_trigger : List MarkerMapping → ℕ → ℕ → Option MarkerTrigger
construct_trigger mappings confirm_frames rearm_missing_frames =
    if is_empty (validate mappings confirm_frames rearm_missing_frames)
    then some (initial_trigger mappings confirm_frames rearm_missing_frames)
    else none

unfoldable pub visible_mappings : List ℤ → List MarkerMapping → List MarkerMapping
visible_mappings visible_ids mappings =
    filter (λ mapping. any (same_integer mapping.marker_id) visible_ids) mappings

abbrev pub no_streak : MarkerTrigger → MarkerTrigger
no_streak t = record t { streak_id = none; streak_frames = 0 }

-- `streak_id_ == mapping.marker_id`.
abbrev pub holds_id : Option ℤ → ℤ → Bool
holds_id none id = false
holds_id (some streak) id = same_integer streak id

-- No mapped marker is visible.
unfoldable pub observe_none : MarkerTrigger → MarkerTrigger
observe_none t =
    let missing = bump64 t.missing_frames in
    if t.armed
    then no_streak t
    else if leb t.rearm_missing_frames missing
    then record t { streak_id = none; streak_frames = 0; missing_frames = 0; armed = true }
    else record t { streak_id = none; streak_frames = 0; missing_frames = missing }

-- Exactly one mapped marker is visible.
unfoldable pub observe_one :
    Bool → MarkerMapping → MarkerTrigger → Option MarkerMapping × MarkerTrigger
observe_one immediate mapping t =
    let frames = if holds_id t.streak_id mapping.marker_id then bump64 t.streak_frames else 1 in
    if not t.armed
    then (none, record t { missing_frames = 0 })
    else if not immediate && ltb frames t.confirm_frames
    then (
      none,
      record t { streak_id = some mapping.marker_id; streak_frames = frames; missing_frames = 0 },
    )
    else (
      some mapping,
      record t { streak_id = none; streak_frames = 0; missing_frames = 0; armed = false },
    )

unfoldable pub observe_mappings :
    Bool → List MarkerMapping → MarkerTrigger → Option MarkerMapping × MarkerTrigger
observe_mappings immediate [] t = (none, observe_none t)
observe_mappings immediate (mapping ∷ []) t = observe_one immediate mapping t
observe_mappings immediate (mapping ∷ _ ∷ _) t = (none, no_streak t)

unfoldable pub observe : List ℤ → Bool → Bool → MarkerTrigger → Option MarkerMapping × MarkerTrigger
observe visible_ids workflow_active immediate t =
    if workflow_active
    then (none, record t { streak_id = none; streak_frames = 0; missing_frames = 0 })
    else observe_mappings immediate (visible_mappings visible_ids t.mappings) t

unfoldable pub on_terminal : MarkerTrigger → MarkerTrigger
on_terminal t = record t { streak_id = none; streak_frames = 0; missing_frames = 0; armed = false }
