-- ===== src/Perception/Calls.antt =====
-- The counters of perception_task_adapter/src/marker_trigger.cpp under any sequence of calls.
use embodied_agent_runtime.Common.{
  ℕ, ◌<◌, ◌^◌, Bool, true, false, none, some, List, [], ◌∷◌, if◌then◌else◌, ◌≡◌, refl, subst, arith,
}
use mathlib.Core.Option.{some_inj}
use embodied_agent_runtime.Common.Int.{ℤ}
use embodied_agent_runtime.Common.Text.{text, is_empty}
use embodied_agent_runtime.Perception.MarkerTrigger.{
  MarkerMapping, MarkerTrigger, validate, initial_trigger, construct_trigger, visible_mappings,
  observe_mappings, observe, on_terminal,
}
use embodied_agent_runtime.Perception.Confirm.{
  IsCounting, observe_none-IsStep, observe_one-IsStep, no_streak-IsStep,
}

pub data Call : Type 0 where
  observes : List ℤ → Bool → Bool → Call
  ends : Call

abbrev pub apply : Call → MarkerTrigger → MarkerTrigger
apply (observes visible active immediate) t = (observe visible active immediate t).1
apply ends t = on_terminal t

abbrev pub apply_all : List Call → MarkerTrigger → MarkerTrigger
apply_all [] t = t
apply_all (c ∷ cs) t = apply_all cs (apply c t)

cleared :
    (t : MarkerTrigger) (armed : Bool)
    → IsCounting t
    → IsCounting
        (record t { streak_id = none; streak_frames = 0; missing_frames = 0; armed = armed })
cleared t armed h = record {
  confirm_size = h.confirm_size;
  rearm_size = h.rearm_size;
  streak_below = omega (arith, h.streak_below);
  missing_below = omega (arith, h.missing_below);
}

observe_mappings-IsCounting :
    (immediate : Bool) (ms : List MarkerMapping) (t : MarkerTrigger)
    → IsCounting t
    → IsCounting (observe_mappings immediate ms t).1
unfolding observe_mappings
observe_mappings-IsCounting immediate [] t h = (observe_none-IsStep t h).counting
observe_mappings-IsCounting immediate (m ∷ []) t h = (observe_one-IsStep immediate m t h).counting
observe_mappings-IsCounting immediate (m ∷ m' ∷ ms) t h = (no_streak-IsStep t h).counting

observe-IsCounting :
    (visible : List ℤ) (active immediate : Bool) (t : MarkerTrigger)
    → IsCounting t
    → IsCounting (observe visible active immediate t).1
unfolding observe
observe-IsCounting visible true immediate t h = cleared t t.armed h
observe-IsCounting visible false immediate t h =
    observe_mappings-IsCounting immediate (visible_mappings visible t.mappings) t h

apply_all-IsCounting :
    (cs : List Call) (t : MarkerTrigger) → IsCounting t → IsCounting (apply_all cs t)
unfolding on_terminal
apply_all-IsCounting [] t h = h
apply_all-IsCounting (observes visible active immediate ∷ cs) t h =
    apply_all-IsCounting cs (observe visible active immediate t).1
      (observe-IsCounting visible active immediate t h)
apply_all-IsCounting (ends ∷ cs) t h = apply_all-IsCounting cs (on_terminal t) (cleared t false h)

guarded :
    (b : Bool) (t t' : MarkerTrigger)
    → (if b then some t else none) ≡ some t'
    → (b ≡ true) × (t ≡ t')
guarded true t t' e = (refl, some_inj.0 e)
guarded false t t' e = absurd cc

validate-positive :
    (ms : List MarkerMapping) (confirm rearm : ℕ)
    → is_empty (validate ms confirm rearm) ≡ true
    → (0 < confirm) × (0 < rearm)
unfolding validate text
validate-positive [] confirm rearm h = absurd cc
validate-positive (m ∷ ms) confirm rearm h = ground arith

constructed-IsCounting :
    (ms : List MarkerMapping) (confirm rearm : ℕ) (t : MarkerTrigger)
    → construct_trigger ms confirm rearm ≡ some t
    → confirm < 2 ^ 64
    → rearm < 2 ^ 64
    → IsCounting t
unfolding construct_trigger
constructed-IsCounting ms confirm rearm t made c r =
    let (valid, same) =
      guarded (is_empty (validate ms confirm rearm)) (initial_trigger ms confirm rearm) t made in
    let (confirms, rearms) = validate-positive ms confirm rearm valid in
    subst IsCounting same
      (record { confirm_size = c; rearm_size = r; streak_below = confirms; missing_below = rearms })

-- From a constructor that does not throw, through any calls of observe and on_terminal, the streak stays
-- shorter than the number of frames that confirm a marker and the count of missing frames below the
-- number that rearms, so neither counter, of 64 bits, wraps round.
pub construct_trigger-IsCounting :
    (ms : List MarkerMapping) (confirm rearm : ℕ) (t : MarkerTrigger) (calls : List Call)
    → construct_trigger ms confirm rearm ≡ some t
    → confirm < 2 ^ 64
    → rearm < 2 ^ 64
    → IsCounting (apply_all calls t)
construct_trigger-IsCounting ms confirm rearm t calls made c r =
    apply_all-IsCounting calls t (constructed-IsCounting ms confirm rearm t made c r)
