-- ===== src/Gateway/Service/Once.antt =====
-- What the log of runtime_gateway/src/gateway_service.cpp shows of the claims and the sent goals, and the
-- invariant that ties it to the rows of the ledger, with one lemma for each kind of step.
use embodied_agent_runtime.Common.{
  ℕ, Bool, true, false, not, ◌&&◌, ◌||◌, Option, none, some, List, [], ◌∷◌, if◌then◌else◌, ◌≡◌, ◌∙◌,
  refl, sym, ap, arith, inl, inr, Bool-cases,
}
use embodied_agent_runtime.Common.Int.{ℤ}
use embodied_agent_runtime.Common.Exec.{Exec, pure, throw, change}
use embodied_agent_runtime.Common.Exec.Ensures.{
  Ensures, Keeps, bind-Keeps, pure-Keeps, throw-Keeps, pure-Ensures,
}
use embodied_agent_runtime.Common.Text.{Text, text_eq, text_eq_refl, text_eq_sound}
use embodied_agent_runtime.Gateway.Registry.{RequestRegistry}
use embodied_agent_runtime.Gateway.Request.{RequestRecord}
use embodied_agent_runtime.Gateway.Ledger.{Ledger, IsLedger}
use embodied_agent_runtime.Gateway.Durable.{
  IdempotencyDecision, proceed, replay, conflict_found, uncertain, unavailable, admit,
}
use embodied_agent_runtime.Gateway.AtMostOnce.{IsHeld, admit-IsHeld, admit-proceeds, held_lem}
use embodied_agent_runtime.Gateway.Service.Host.{
  WorkflowGoal, GatewayEffect, claims, concludes, sends, cancels_goal, GatewayState,
}
use embodied_agent_runtime.Gateway.Service.State.{consult, venture, on_store, on_registry, tell}
use embodied_agent_runtime.Gateway.Service.Submit.{is_proceed}

-- The id was claimed and not concluded since.
unfoldable pub is_open : Text → List GatewayEffect → Bool
is_open id [] = false
is_open id (claims j ∷ log) = text_eq id j || is_open id log
is_open id (concludes j ∷ log) = not (text_eq id j) && is_open id log
is_open id (sends g ∷ log) = is_open id log
is_open id (cancels_goal j ∷ log) = is_open id log

-- The id was claimed and no goal was sent for it since.
unfoldable pub is_unspent : Text → List GatewayEffect → Bool
is_unspent id [] = false
is_unspent id (claims j ∷ log) = text_eq id j || is_unspent id log
is_unspent id (concludes j ∷ log) = is_unspent id log
is_unspent id (sends g ∷ log) = not (text_eq id g.request_id) && is_unspent id log
is_unspent id (cancels_goal j ∷ log) = is_unspent id log

-- No id is claimed while it is open, and each goal that is sent has a claim of its own.
unfoldable pub is_once : List GatewayEffect → Bool
is_once [] = true
is_once (claims j ∷ log) = not (is_open j log) && is_once log
is_once (concludes j ∷ log) = is_once log
is_once (sends g ∷ log) = is_unspent g.request_id log && is_once log
is_once (cancels_goal j ∷ log) = is_once log

abbrev pub is_send : GatewayEffect → Bool
is_send (sends g) = true
is_send _ = false

abbrev pub Fact : Type 0
Fact = List GatewayEffect → Bool

-- A fact of the log that only a goal that is sent can end.
abbrev pub IsStable : Fact → Type 0
IsStable fact =
    (e : GatewayEffect) (log : List GatewayEffect)
    → is_send e ≡ false
    → fact log ≡ true
    → fact (e ∷ log) ≡ true

abbrev pub anything : Fact
anything log = true

pub anything-IsStable : IsStable anything
anything-IsStable e log quiet known = refl

pub unspent-IsStable : (id : Text) → IsStable (is_unspent id)
unfolding is_unspent
unspent-IsStable id (claims j) log quiet known = ground (arith, known)
unspent-IsStable id (concludes j) log quiet known = known
unspent-IsStable id (sends g) log quiet known = absurd cc
unspent-IsStable id (cancels_goal j) log quiet known = known

proceed_lem : (d : IdempotencyDecision) → is_proceed d ≡ true → d ≡ proceed
proceed_lem proceed p = refl
proceed_lem replay p = absurd cc
proceed_lem conflict_found p = absurd cc
proceed_lem uncertain p = absurd cc
proceed_lem unavailable p = absurd cc

module _ (l : Ledger) (lawful : IsLedger l) (capacity : ℕ) where
  pub record Tracked {W : Type 0} (fact : Fact) (s : GatewayState W l.Store) : Type 0 where
    pub once : is_once s.log ≡ true
    pub held : (id : Text) → is_open id s.log ≡ true → IsHeld l lawful capacity id s.store
    pub known : fact s.log ≡ true

  -- Once a write for `id` has succeeded, the invariant holds but for `id`.
  pub record Written {W : Type 0} (fact : Fact) (id : Text) (written : Bool)
      (s : GatewayState W l.Store) : Type 0 where
    pub once : is_once s.log ≡ true
    pub held :
        (j : Text)
        → is_open j s.log ≡ true
        → written && text_eq j id ≡ false
        → IsHeld l lawful capacity j s.store
    pub known : fact s.log ≡ true

  -- Once `admit` has let `id` proceed, its row is held and it was not open.
  pub record Claimed {W : Type 0} (id : Text) (proceeds : Bool) (s : GatewayState W l.Store)
      : Type 0 where
    pub tracked : Tracked anything s
    pub claimed : proceeds ≡ true → (is_open id s.log ≡ false) × IsHeld l lawful capacity id s.store

  module _ {W : Type 0} (fact : Fact) where
    pub forget : (s : GatewayState W l.Store) → Tracked fact s → Tracked anything s
    forget s k = record { once = k.once; held = k.held; known = refl }

    pub consult-Tracked :
        {A : Type 0} (f : W → A × W) → Keeps (Tracked fact) (consult {S = l.Store} f)
    unfolding consult
    consult-Tracked f = record {
      at = λ s k. record { once = k.once; held = k.held; known = k.known };
    }

    pub on_registry-Tracked :
        {A : Type 0} (f : RequestRegistry → A × RequestRegistry)
        → Keeps (Tracked {W = W} fact) (on_registry f)
    unfolding on_registry
    on_registry-Tracked f = record {
      at = λ s k. record { once = k.once; held = k.held; known = k.known };
    }

    -- A change of neither the store nor the log.
    pub change-Tracked :
        (f : GatewayState W l.Store → GatewayState W l.Store)
        → ((s : GatewayState W l.Store) → ((f s).store ≡ s.store) × ((f s).log ≡ s.log))
        → Keeps (Tracked fact) (change f)
    unfolding change
    change-Tracked f same = record {
      at = λ s k.
          let (x, y) = same s in
          record {
            once = rw y k.once;
            held = λ id o. rw x (k.held id (ap (is_open id) (sym y) ∙ o));
            known = rw y k.known;
          };
    }

    raise-Tracked :
        (e : Option Text)
        → Keeps (Tracked {W = W} fact) (elim e as (λ _. Exec (GatewayState W l.Store) (Unit {0})) [
          | none ↦ pure tt
          | some t ↦ throw t
        ])
    raise-Tracked none = pure-Keeps tt
    raise-Tracked (some t) = throw-Keeps t

    pub venture-Tracked : (f : W → Option Text × W) → Keeps (Tracked fact) (venture {S = l.Store} f)
    unfolding venture
    venture-Tracked f = bind-Keeps _ _ (consult-Tracked f) raise-Tracked

    -- A call on the store that gives up no held row.
    pub on_store-Tracked :
        {A : Type 0} (f : l.Store → A × l.Store)
        → ((id : Text) (t : l.Store)
            → IsHeld l lawful capacity id t
            → IsHeld l lawful capacity id (f t).1)
        → Keeps (Tracked {W = W} fact) (on_store f)
    unfolding on_store
    on_store-Tracked f keeps = record {
      at = λ s k. record {
        once = k.once;
        held = λ id o. keeps id s.store (k.held id o);
        known = k.known;
      };
    }

    -- A write for one id.
    pub on_store-Written :
        (id : Text) (f : l.Store → Bool × l.Store)
        → ((j : Text) (t : l.Store)
            → (f t).0 && text_eq j id ≡ false
            → IsHeld l lawful capacity j t
            → IsHeld l lawful capacity j (f t).1)
        → Ensures (Tracked {W = W} fact) (on_store f) (λ b. Written fact id b) (Tracked fact)
    unfolding on_store
    on_store-Written id f keeps = record {
      at = λ s k. record {
        once = k.once;
        held = λ j o other. keeps j s.store other (k.held j o);
        known = k.known;
      };
    }

    pub unwritten-Tracked :
        (id : Text) (s : GatewayState W l.Store) → Written fact id false s → Tracked fact s
    unwritten-Tracked id s k = record {
      once = k.once;
      held = λ j o. k.held j o refl;
      known = k.known;
    }

    module _ (stable : IsStable fact) where
      pub cancels_goal-Tracked : (id : Text) → Keeps (Tracked {W = W} fact) (tell (cancels_goal id))
      unfolding tell is_once is_open
      cancels_goal-Tracked id = record {
        at = λ s k. record {
          once = k.once;
          held = k.held;
          known = stable (cancels_goal id) s.log refl k.known;
        };
      }

      -- The write is entered in the log.
      pub concludes-Tracked :
          (id : Text) (written : Bool)
          → Ensures
              (Written {W = W} fact id written)
              (if written then tell (concludes id) else pure tt)
              (λ _. Tracked fact)
              (Tracked fact)
      unfolding tell is_once is_open
      concludes-Tracked id true = record {
        at = λ s k. record {
          once = k.once;
          held = λ j o. k.held j (ground (arith, o)) (ground (arith, o));
          known = stable (concludes id) s.log refl k.known;
        };
      }
      concludes-Tracked id false = pure-Ensures tt (λ s k. unwritten-Tracked id s k)

  module _ {W : Type 0} where
    -- What proceeds was not open.
    fresh_lem :
        (r : RequestRecord) (now : ℤ) (s : GatewayState W l.Store)
        → Tracked anything s
        → (admit l capacity r now s.store).0.decision ≡ proceed
        → is_open r.request_id s.log ≡ false
    fresh_lem r now s k p = elim (Bool-cases (is_open r.request_id s.log)) [
      | inl o ↦ absurd (held_lem l lawful capacity r now s.store (k.held r.request_id o) p)
      | inr fresh ↦ fresh
    ]

    -- `admit`, at some time.
    pub on_store-Claimed :
        (r : RequestRecord) (now : ℤ)
        → Ensures
            (Tracked {W = W} anything)
            (on_store (admit l capacity r now))
            (λ a. Claimed r.request_id (is_proceed a.decision))
            (Tracked anything)
    unfolding on_store
    on_store-Claimed r now = record {
      at = λ s k. record {
        tracked = record {
          once = k.once;
          held = λ id o. admit-IsHeld l lawful capacity id r now s.store (k.held id o);
          known = refl;
        };
        claimed = λ p. (
          fresh_lem r now s k (proceed_lem _ p),
          admit-proceeds l lawful capacity r now s.store (proceed_lem _ p),
        );
      };
    }

    -- The claim is entered in the log.
    pub claims-Tracked :
        (id : Text) (proceeds : Bool)
        → Ensures
            (Claimed {W = W} id proceeds)
            (if proceeds then tell (claims id) else pure tt)
            (λ _. Tracked (λ log. not proceeds || is_unspent id log))
            (Tracked anything)
    unfolding tell is_once is_open is_unspent
    claims-Tracked id true = record {
      at = λ s k.
          let (fresh, held) = k.claimed refl in
          record {
            once = ground (arith, fresh, k.tracked.once);
            held = λ j o. elim (Bool-cases (text_eq j id)) [
              | inl same ↦ rw (text_eq_sound j id same) held
              | inr other ↦ k.tracked.held j (ground (arith, o, other))
            ];
            known = rw (text_eq_refl id) refl;
          };
    }
    claims-Tracked id false =
        pure-Ensures tt
          (λ s k. record { once = k.tracked.once; held = k.tracked.held; known = refl })

    -- The goal uses the claim.
    pub sends-Tracked :
        (g : WorkflowGoal)
        → Ensures
            (Tracked {W = W} (is_unspent g.request_id))
            (tell (sends g))
            (λ _. Tracked anything)
            (Tracked anything)
    unfolding tell is_once is_open
    sends-Tracked g = record {
      at = λ s k. record { once = ground (arith, k.known, k.once); held = k.held; known = refl };
    }
