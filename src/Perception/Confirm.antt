-- ===== src/Perception/Confirm.antt =====
-- When perception_task_adapter/src/marker_trigger.cpp fires, and when it is armed again.
use embodied_agent_runtime.Common.{
  length, ℕ, suc, ◌+◌, ◌≤◌, ◌<◌, ◌^◌, bump64, Bool, true, false, ◌&&◌, ◌||◌, ◌⊎◌, Option, none,
  some, List, [], ◌∷◌, leb, if◌then◌else◌, ◌≡◌, ◌↔◌, ◌∙◌, refl, sym, subst, arith,
}
use embodied_agent_runtime.Common.Int.{ℤ, same_integer_iff}
use embodied_agent_runtime.Perception.MarkerTrigger.{
  MarkerMapping, MarkerTrigger, visible_mappings, no_streak, holds_id, observe_none, observe_one,
  observe_mappings, observe,
}

-- The length of the streak that a marker brings.
abbrev pub next_streak : ℤ → MarkerTrigger → ℕ
next_streak id t = if holds_id t.streak_id id then bump64 t.streak_frames else 1

observe_one-same :
    (immediate : Bool) (m mapping : MarkerMapping) (t : MarkerTrigger)
    → (observe_one immediate m t).0 ≡ some mapping
    → m ≡ mapping
unfolding observe_one
observe_one-same immediate m mapping t = ground arith

observe_one-fires :
    (immediate : Bool) (m : MarkerMapping) (t : MarkerTrigger)
    → ((observe_one immediate m t).0 ≡ some m)
      ↔ ((t.armed ≡ true) × ((immediate ≡ true) ⊎ (t.confirm_frames ≤ next_streak m.marker_id t)))
unfolding observe_one
observe_one-fires immediate m t = ground arith

observe_one_iff :
    (immediate : Bool) (m mapping : MarkerMapping) (t : MarkerTrigger)
    → ((observe_one immediate m t).0 ≡ some mapping) ↔ (
        (m ≡ mapping)
        × (t.armed ≡ true)
        × ((immediate ≡ true) ⊎ (t.confirm_frames ≤ next_streak mapping.marker_id t)))
observe_one_iff immediate m mapping t = (
  λ e.
      let same = observe_one-same immediate m mapping t e in
      let (ready, reached) =
        (observe_one-fires immediate mapping t).0
          (subst (λ x. (observe_one immediate x t).0 ≡ some mapping) same e) in
      (same, ready, reached),
  λ (same, ready, reached).
      subst (λ x. (observe_one immediate x t).0 ≡ some mapping) (sym same)
        ((observe_one-fires immediate mapping t).1 (ready, reached)),
)

observe_mappings_iff :
    (immediate : Bool) (ms : List MarkerMapping) (mapping : MarkerMapping) (t : MarkerTrigger)
    → ((observe_mappings immediate ms t).0 ≡ some mapping) ↔ (
        (ms ≡ mapping ∷ [])
        × (t.armed ≡ true)
        × ((immediate ≡ true) ⊎ (t.confirm_frames ≤ next_streak mapping.marker_id t)))
unfolding observe_mappings
observe_mappings_iff immediate [] mapping t = ground arith
observe_mappings_iff immediate (m ∷ []) mapping t =
    ground (arith, observe_one_iff immediate m mapping t)
observe_mappings_iff immediate (m ∷ m' ∷ ms) mapping t = ground arith

-- An observation fires a mapping exactly when no workflow is active, the mapping is the only one whose
-- marker is visible, the trigger is armed, and either the observation is immediate or the streak of
-- the marker, this frame included, has reached the number of frames that confirm it.
observe_iff :
    (visible : List ℤ) (active immediate : Bool) (mapping : MarkerMapping) (t : MarkerTrigger)
    → ((observe visible active immediate t).0 ≡ some mapping) ↔ (
        (active ≡ false)
        × (visible_mappings visible t.mappings ≡ mapping ∷ [])
        × (t.armed ≡ true)
        × ((immediate ≡ true) ⊎ (t.confirm_frames ≤ next_streak mapping.marker_id t)))
unfolding observe
observe_iff visible active immediate mapping t =
    ground (arith, observe_mappings_iff immediate (visible_mappings visible t.mappings) mapping t)

-- The counters stay below the numbers of frames that they are compared with, so no `++` wraps round.
pub record IsCounting (t : MarkerTrigger) : Type 0 where
  pub confirm_size : t.confirm_frames < 2 ^ 64
  pub rearm_size : t.rearm_missing_frames < 2 ^ 64
  pub streak_below : t.streak_frames < t.confirm_frames
  pub missing_below : t.missing_frames < t.rearm_missing_frames

-- What a call changes: the mappings and the two limits stay.
pub record IsStep (t t' : MarkerTrigger) : Type 0 where
  pub mappings_stay : t'.mappings ≡ t.mappings
  pub confirm_stays : t'.confirm_frames ≡ t.confirm_frames
  pub rearm_stays : t'.rearm_missing_frames ≡ t.rearm_missing_frames
  pub counting : IsCounting t'

pub observe_none-IsStep : (t : MarkerTrigger) → IsCounting t → IsStep t (observe_none t)
unfolding observe_none
observe_none-IsStep t h = record {
  mappings_stay = ground arith;
  confirm_stays = ground arith;
  rearm_stays = ground arith;
  counting = record {
    confirm_size = ground (arith, h.confirm_size);
    rearm_size = ground (arith, h.rearm_size);
    streak_below = ground (arith, h.streak_below);
    missing_below = ground (arith, h.missing_below, h.rearm_size);
  };
}

pub observe_one-IsStep :
    (immediate : Bool) (m : MarkerMapping) (t : MarkerTrigger)
    → IsCounting t
    → IsStep t (observe_one immediate m t).1
unfolding observe_one
observe_one-IsStep immediate m t h = record {
  mappings_stay = ground arith;
  confirm_stays = ground arith;
  rearm_stays = ground arith;
  counting = record {
    confirm_size = ground (arith, h.confirm_size);
    rearm_size = ground (arith, h.rearm_size);
    streak_below = ground (arith, h.streak_below, h.confirm_size);
    missing_below = ground (arith, h.missing_below);
  };
}

pub no_streak-IsStep : (t : MarkerTrigger) → IsCounting t → IsStep t (no_streak t)
no_streak-IsStep t h = record {
  mappings_stay = refl;
  confirm_stays = refl;
  rearm_stays = refl;
  counting = record {
    confirm_size = h.confirm_size;
    rearm_size = h.rearm_size;
    streak_below = omega (arith, h.streak_below);
    missing_below = h.missing_below;
  };
}

-- Video frames, none of them immediate, with the ids that each shows, while no workflow is active: what they
-- fire, in order.
abbrev pub fired : Option MarkerMapping → List MarkerMapping → List MarkerMapping
fired none later = later
fired (some m) later = m ∷ later

abbrev pub watch : List (List ℤ) → MarkerTrigger → List MarkerMapping × MarkerTrigger
watch [] t = ([], t)
watch (visible ∷ frames) t =
    let (event, t') = observe visible false false t in
    let (later, t'') = watch frames t' in (fired event later, t'')

-- Each frame shows the markers of exactly these mappings.
abbrev pub Shows : List MarkerMapping → List MarkerMapping → List (List ℤ) → Type 0
Shows ms mappings [] = Unit {0}
Shows ms mappings (visible ∷ frames) =
    (visible_mappings visible mappings ≡ ms) × Shows ms mappings frames

-- The frames of the current streak that show the marker.
abbrev pub progress : ℤ → MarkerTrigger → ℕ
progress id t = if holds_id t.streak_id id then t.streak_frames else 0

-- One frame that shows exactly one mapped marker, and the events of those after it.
event_lem :
    (n : ℕ) (m : MarkerMapping) (t : MarkerTrigger)
    → IsCounting t
    → fired (observe_one false m t).0 (
        if (observe_one false m t).1.armed
          && leb
              (observe_one false m t).1.confirm_frames
              (progress m.marker_id (observe_one false m t).1 + n)
        then m ∷ []
        else [])
      ≡ (if t.armed && leb t.confirm_frames (progress m.marker_id t + suc n) then m ∷ [] else [])
unfolding observe_one
event_lem n m t h =
    ground
      (arith, (same_integer_iff m.marker_id m.marker_id).1 refl, h.streak_below, h.confirm_size)

observe-one :
    (visible : List ℤ) (m : MarkerMapping) (t : MarkerTrigger)
    → visible_mappings visible t.mappings ≡ m ∷ []
    → observe visible false false t ≡ observe_one false m t
unfolding observe observe_mappings
observe-one visible m t one = rw one refl

observe-none :
    (visible : List ℤ) (t : MarkerTrigger)
    → visible_mappings visible t.mappings ≡ []
    → observe visible false false t ≡ (none, observe_none t)
unfolding observe observe_mappings
observe-none visible t none_seen = rw none_seen refl

-- Over video frames, none of them immediate, that each show exactly one mapped marker, the same in all,
-- whatever other ids they show, while no workflow is active and from counters below their limits: the
-- trigger, if it is armed, fires that mapping once if there are frames enough for its streak to reach the
-- number that confirms it, and not at all if there are not. A trigger that is not armed does not fire at all.
pub watch_one :
    (frames : List (List ℤ)) (m : MarkerMapping) (t : MarkerTrigger)
    → Shows (m ∷ []) t.mappings frames
    → IsCounting t
    → (watch frames t).0 ≡ (
        if t.armed && leb t.confirm_frames (progress m.marker_id t + length frames)
        then m ∷ []
        else [])
watch_one [] m t one h = ground (arith, h.streak_below)
watch_one (visible ∷ frames) m t (one, more) h =
    let step = observe_one-IsStep false m t h in
    let later =
      watch_one frames m (observe_one false m t).1
        (subst (λ ms. Shows (m ∷ []) ms frames) (sym step.mappings_stay) more) step.counting in
    rw (observe-one visible m t one, later) (event_lem (length frames) m t h)

armed_lem :
    (n : ℕ) (t : MarkerTrigger)
    → IsCounting t
    → ((observe_none t).armed
        || leb (observe_none t).rearm_missing_frames ((observe_none t).missing_frames + n))
      ≡ (t.armed || leb t.rearm_missing_frames (t.missing_frames + suc n))
unfolding observe_none
armed_lem n t h = ground (arith, h.missing_below, h.rearm_size)

-- While no mapped marker is visible and no workflow is active, the trigger fires nothing, and it is
-- armed again as soon as the marker has been missing in the number of frames that rearm it.
watch_none :
    (frames : List (List ℤ)) (t : MarkerTrigger)
    → Shows [] t.mappings frames
    → IsCounting t
    → ((watch frames t).0 ≡ [])
      × ((watch frames t).1.armed
          ≡ (t.armed || leb t.rearm_missing_frames (t.missing_frames + length frames)))
watch_none [] t none_seen h = (refl, ground (arith, h.missing_below))
watch_none (visible ∷ frames) t (none_seen, more) h =
    let step = observe_none-IsStep t h in
    let (silent, later) =
      watch_none frames (observe_none t)
        (subst (λ ms. Shows [] ms frames) (sym step.mappings_stay) more) step.counting in
    rw (observe-none visible t none_seen) (silent, later ∙ armed_lem (length frames) t h)
