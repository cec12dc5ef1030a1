-- ===== src/Tests/Perception.antt =====
-- The marker trigger at concrete frames.
use embodied_agent_runtime.Common.{List, ◌≡◌, refl, some, false, [], ◌∷◌, arith}
use embodied_agent_runtime.Common.Int.{ℤ, pos}
use embodied_agent_runtime.Common.Text.{text}
use embodied_agent_runtime.Perception.MarkerTrigger.{
  MarkerMapping, MarkerTrigger, initial_trigger, construct_trigger, validate, validate_mappings,
  visible_mappings,
}
use embodied_agent_runtime.Perception.Confirm.{IsCounting, Shows, watch, watch_one}
use embodied_agent_runtime.Perception.Calls.{
  observes, ends, apply_all, construct_trigger-IsCounting,
}

abbrev dock : MarkerMapping
dock = record { marker_id = pos 3; workflow_id = text "single_task"; target_id = text "dock_a" }

abbrev trigger : MarkerTrigger
trigger = initial_trigger (dock ∷ []) 3 2

constructed : construct_trigger (dock ∷ []) 3 2 ≡ some trigger
unfolding construct_trigger validate validate_mappings text
constructed = refl

counting : IsCounting trigger
counting = record {
  confirm_size = omega arith;
  rearm_size = omega arith;
  streak_below = omega arith;
  missing_below = omega arith;
}

dock_missing : visible_mappings (pos 7 ∷ []) (dock ∷ []) ≡ []
unfolding visible_mappings
dock_missing = refl

-- The marker between changing ids that no mapping has.
abbrev frames : List (List ℤ)
frames = (pos 7 ∷ pos 3 ∷ []) ∷ (pos 3 ∷ []) ∷ (pos 3 ∷ pos 9 ∷ []) ∷ (pos 3 ∷ []) ∷ []

frames_show : Shows (dock ∷ []) (dock ∷ []) frames
unfolding visible_mappings
frames_show = (refl, (refl, (refl, (refl, tt))))

watch_one_example : (watch frames trigger).0 ≡ dock ∷ []
watch_one_example = watch_one frames dock trigger frames_show counting

construct_trigger-IsCounting_example :
    IsCounting
      (apply_all (observes (pos 3 ∷ []) false false ∷ ends ∷ observes [] false false ∷ []) trigger)
construct_trigger-IsCounting_example =
    construct_trigger-IsCounting (dock ∷ []) 3 2 trigger
      (observes (pos 3 ∷ []) false false ∷ ends ∷ observes [] false false ∷ []) constructed
      (omega arith) (omega arith)
