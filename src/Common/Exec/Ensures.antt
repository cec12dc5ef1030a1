-- ===== src/Common/Exec/Ensures.antt =====
-- What holds after an action, with one rule for each way to build an action.
use mathlib.Core.Bool.{Bool, true, false}
use mathlib.Core.Option.{Option, none, some}
use embodied_agent_runtime.Common.Tests.{if◌then◌else◌}
use embodied_agent_runtime.Common.Text.{Text}
use embodied_agent_runtime.Common.Exec.{
  Result, returned, thrown, exhausted, Exec, pure, throw, exhaust, gets, change, resume, ◌>>=◌,
  recover, catching,
}

-- `Q` of the value and the state where an action returns, `R` of the state where it throws.
abbrev pub Holds : {S A : Type 0} → (A → S → Type 0) → (S → Type 0) → Result A × S → Type 0
Holds Q R (returned a, s) = Q a s
Holds Q R (thrown t, s) = R s
Holds Q R (exhausted, s) = R s

pub record Ensures {S A : Type 0} (P : S → Type 0) (m : Exec S A) (Q : A → S → Type 0)
    (R : S → Type 0) : Type 0 where
  pub at : (s : S) → P s → Holds Q R (m s)

-- `m` keeps `P`, whether it returns or throws.
pub record Keeps {S A : Type 0} (P : S → Type 0) (m : Exec S A) : Type 0 where
  pub at : (s : S) → P s → Holds (λ _. P) P (m s)

module _ {S A : Type 0} {P : S → Type 0} where
  -- Actions that leave the state as it is.
  pub exhaust-Keeps : Keeps P (exhaust {S = S} {A = A})
  unfolding exhaust
  exhaust-Keeps = record { at = λ s held. held }

  pub throw-Keeps : (e : Text) → Keeps P (throw {S = S} {A = A} e)
  unfolding throw
  throw-Keeps e = record { at = λ s held. held }

  pub pure-Keeps : (x : A) → Keeps P (pure {S = S} x)
  unfolding pure
  pure-Keeps x = record { at = λ s held. held }

  pub gets-Keeps : (read : S → A) → Keeps P (gets read)
  unfolding gets
  gets-Keeps read = record { at = λ s held. held }

  pub if-Keeps :
      (test : Bool) (this that : Exec S A)
      → Keeps P this
      → Keeps P that
      → Keeps P (if test then this else that)
  if-Keeps true this that k l = k
  if-Keeps false this that k l = l

module _ {S A B : Type 0} {M : A → S → Type 0} {Q : B → S → Type 0} {R : S → Type 0} where
  resume-Holds :
      (x : Result A × S) (f : A → Exec S B)
      → Holds M R x
      → ((a : A) → Ensures (M a) (f a) Q R)
      → Holds Q R (resume x.0 f x.1)
  resume-Holds (returned a, s) f h k = (k a).at s h
  resume-Holds (thrown t, s) f h k = h
  resume-Holds (exhausted, s) f h k = h

  pub bind-Ensures :
      {P : S → Type 0} (m : Exec S A) (f : A → Exec S B)
      → Ensures P m M R
      → ((a : A) → Ensures (M a) (f a) Q R)
      → Ensures P (m >>= f) Q R
  unfolding ◌>>=◌
  bind-Ensures m f km kf = record { at = λ s h. resume-Holds (m s) f (km.at s h) kf }

module _ {S A : Type 0} {P : S → Type 0} where
  pub Keeps-Ensures : {m : Exec S A} → Keeps P m → Ensures P m (λ _. P) P
  Keeps-Ensures k = record { at = k.at }

  pub Ensures-Keeps : {m : Exec S A} → Ensures P m (λ _. P) P → Keeps P m
  Ensures-Keeps k = record { at = k.at }

module _ {S A B : Type 0} {P : S → Type 0} where
  pub bind-Keeps :
      (first : Exec S A) (next : A → Exec S B)
      → Keeps P first
      → ((x : A) → Keeps P (next x))
      → Keeps P (first >>= next)
  bind-Keeps first next f n =
      Ensures-Keeps (bind-Ensures first next (Keeps-Ensures f) (λ x. Keeps-Ensures (n x)))

module _ {S A : Type 0} {P : S → Type 0} where
  recover-Holds :
      (x : Result A × S) (handler : Text → Exec S A)
      → Holds (λ _. P) P x
      → ((t : Text) → Keeps P (handler t))
      → Holds (λ _. P) P (recover x.0 handler x.1)
  recover-Holds (returned a, s) handler h k = h
  recover-Holds (thrown t, s) handler h k = (k t).at s h
  recover-Holds (exhausted, s) handler h k = h

  pub catching-Keeps :
      (m : Exec S A) (handler : Text → Exec S A)
      → Keeps P m
      → ((t : Text) → Keeps P (handler t))
      → Keeps P (catching m handler)
  unfolding catching
  catching-Keeps m handler km kh = record { at = λ s h. recover-Holds (m s) handler (km.at s h) kh }

pub ruleset keeps_rules =
    (pure-Keeps, throw-Keeps, exhaust-Keeps, gets-Keeps, if-Keeps, bind-Keeps, catching-Keeps)

-- Weaker conclusions, from stronger assumptions.
module _ {S A : Type 0} {Q Q' : A → S → Type 0} {R R' : S → Type 0} where
  Holds-weaken :
      (x : Result A × S)
      → ((a : A) (s : S) → Q a s → Q' a s)
      → ((s : S) → R s → R' s)
      → Holds Q R x
      → Holds Q' R' x
  Holds-weaken (returned a, s) q r h = q a s h
  Holds-weaken (thrown t, s) q r h = r s h
  Holds-weaken (exhausted, s) q r h = r s h

  pub weaken-Ensures :
      {P P' : S → Type 0} (m : Exec S A)
      → ((s : S) → P' s → P s)
      → ((a : A) (s : S) → Q a s → Q' a s)
      → ((s : S) → R s → R' s)
      → Ensures P m Q R
      → Ensures P' m Q' R'
  weaken-Ensures m p q r k = record { at = λ s h. Holds-weaken (m s) q r (k.at s (p s h)) }

module _ {S A : Type 0} {P : S → Type 0} where
  -- What is read is known of the state that it is read from.
  pub gets-Ensures :
      (f : S → A) {Q : A → S → Type 0} {R : S → Type 0}
      → ((s : S) → P s → Q (f s) s)
      → Ensures P (gets f) Q R
  unfolding gets
  gets-Ensures f k = record { at = k }

  pub pure-Ensures :
      (a : A) {Q : A → S → Type 0} {R : S → Type 0}
      → ((s : S) → P s → Q a s)
      → Ensures P (pure a) Q R
  unfolding pure
  pure-Ensures a k = record { at = k }

  pub throw-Ensures :
      (t : Text) {Q : A → S → Type 0} {R : S → Type 0}
      → ((s : S) → P s → R s)
      → Ensures P (throw {A = A} t) Q R
  unfolding throw
  throw-Ensures t k = record { at = k }

pub change-Ensures :
    {S : Type 0} {P : S → Type 0} (f : S → S) {Q : Unit {0} → S → Type 0} {R : S → Type 0}
    → ((s : S) → P s → Q tt (f s))
    → Ensures P (change f) Q R
unfolding change
change-Ensures f k = record { at = k }

module _ {S A : Type 0} {R R' : S → Type 0} {Q : A → S → Type 0} where
  recover-Ensures :
      (x : Result A × S) (handler : Text → Exec S A)
      → ((s : S) → R s → R' s)
      → Holds Q R x
      → ((t : Text) → Ensures R (handler t) Q R')
      → Holds Q R' (recover x.0 handler x.1)
  recover-Ensures (returned a, s) handler w h k = h
  recover-Ensures (thrown t, s) handler w h k = (k t).at s h
  recover-Ensures (exhausted, s) handler w h k = w s h

  pub catching-Ensures :
      {P : S → Type 0} (m : Exec S A) (handler : Text → Exec S A)
      → ((s : S) → R s → R' s)
      → Ensures P m Q R
      → ((t : Text) → Ensures R (handler t) Q R')
      → Ensures P (catching m handler) Q R'
  unfolding catching
  catching-Ensures m handler w km kh = record {
    at = λ s h. recover-Ensures (m s) handler w (km.at s h) kh;
  }

module _ {S A : Type 0} {P : S → Type 0} {Q : A → S → Type 0} {R : S → Type 0} where
  pub if-Ensures :
      (b : Bool) (m n : Exec S A)
      → Ensures P m Q R
      → Ensures P n Q R
      → Ensures P (if b then m else n) Q R
  if-Ensures true m n km kn = km
  if-Ensures false m n km kn = kn

  -- A test that is an `elim`, whose other branch is not computed.
  pub cases-Ensures :
      (b : Bool) (m n : Exec S A)
      → Ensures P m Q R
      → Ensures P n Q R
      → Ensures P (elim b [ true ↦ m | false ↦ n ]) Q R
  cases-Ensures true m n km kn = km
  cases-Ensures false m n km kn = kn

module _ {S A : Type 0} {P : S → Type 0} where
  pub cases-Keeps :
      (b : Bool) (m n : Exec S A)
      → Keeps P m
      → Keeps P n
      → Keeps P (elim b [ true ↦ m | false ↦ n ])
  cases-Keeps true m n km kn = km
  cases-Keeps false m n km kn = kn

-- A case on an option.
module _ {S A B : Type 0} {P : S → Type 0} where
  pub option-Keeps :
      (o : Option A) (m : Exec S B) (f : A → Exec S B)
      → Keeps P m
      → ((a : A) → Keeps P (f a))
      → Keeps P (elim o [ none ↦ m | some a ↦ f a ])
  option-Keeps none m f km kf = km
  option-Keeps (some a) m f km kf = kf a

-- The state that an action leaves, whether it returns or throws.
module _ {S A : Type 0} (P : S → Type 0) where
  Holds_after : (x : Result A × S) → Holds (λ _. P) P x → P x.1
  Holds_after (returned a, s) k = k
  Holds_after (thrown t, s) k = k
  Holds_after (exhausted, s) k = k

  pub Keeps_after : (m : Exec S A) (s : S) → Keeps P m → P s → P (m s).1
  Keeps_after m s k held = Holds_after (m s) (k.at s held)

  pub Ensures_after :
      {P' : S → Type 0} (m : Exec S A) (s : S) → Ensures P' m (λ _. P) P → P' s → P (m s).1
  Ensures_after m s k held = Holds_after (m s) (k.at s held)
