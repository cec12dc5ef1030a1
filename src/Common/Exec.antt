-- ===== src/Common/Exec.antt =====
-- Methods that change the state of an object and may throw. What was written before a throw stays
-- written, so the state comes back beside the exception too.
pub mod Ensures
use embodied_agent_runtime.Common.Text.{Text}

-- An exception carries the text of its `what()`; `exhausted` says that a loop ran out of fuel, and
-- nothing catches it.
pub data Result (A : Type 0) : Type 0 where
  returned : A → Result A
  thrown : Text → Result A
  exhausted : Result A

abbrev pub Exec : Type 0 → Type 0 → Type 0
Exec S A = S → Result A × S

module _ {S A : Type 0} where
  unfoldable pub pure : A → Exec S A
  pure a s = (returned a, s)

  unfoldable pub throw : Text → Exec S A
  throw t s = (thrown t, s)

  unfoldable pub exhaust : Exec S A
  exhaust s = (exhausted, s)

  -- A value read from the state.
  unfoldable pub gets : (S → A) → Exec S A
  gets f s = (returned (f s), s)

-- A change of the state.
unfoldable pub change : {S : Type 0} → (S → S) → Exec S (Unit {0})
change f s = (returned tt, f s)

module _ {S A B : Type 0} where
  abbrev pub resume : Result A → (A → Exec S B) → Exec S B
  resume (returned a) f s = f a s
  resume (thrown t) f s = (thrown t, s)
  resume exhausted f s = (exhausted, s)

  infixl 10 ◌>>=◌
  unfoldable pub ◌>>=◌ : Exec S A → (A → Exec S B) → Exec S B
  unfolding pure throw exhaust gets change
  ◌>>=◌ action next s = let (result, after) = action s in resume result next after

  infixl 10 ◌>>◌
  abbrev pub ◌>>◌ : Exec S A → Exec S B → Exec S B
  first >> second = first >>= λ _. second

module _ {S A : Type 0} where
  abbrev pub recover : Result A → (Text → Exec S A) → Exec S A
  recover (returned a) handler s = (returned a, s)
  recover (thrown t) handler s = handler t s
  recover exhausted handler s = (exhausted, s)

  -- `try { m } catch (...) { handler }`.
  unfoldable pub catching : Exec S A → (Text → Exec S A) → Exec S A
  catching m handler s = let (r, s') = m s in recover r handler s'
