-- ===== src/Common/Decimal.antt =====
-- `std::to_string` of an unsigned number, and reading it back.
use Prim.Native.Nat.{ℕ, zero, suc, ◌+◌, ◌-◌, ◌*◌, ◌/◌, ◌%◌, ◌≤◌, ◌<◌}
use mathlib.Core.Path.{◌≡◌, sym, ap, ◌∙◌}
use mathlib.Core.List.{[], ◌∷◌}
use native.Mathlib.Omega.{arith}
use embodied_agent_runtime.Common.Tests.{ltb, if◌then◌else◌, Bool-cases}
use embodied_agent_runtime.Common.Lists.{All}
use embodied_agent_runtime.Common.Text.{Text}
use mathlib.Core.Logic.{inl, inr}

-- The digits of `n` in front of those already written; `rounds` is fuel.
decimal_from : ℕ → ℕ → Text → Text
decimal_from zero n written = written
decimal_from (suc rounds) n written =
    let rest = decimal_from rounds (n / 10) ((48 + n % 10) ∷ written) in
    if ltb n 10 then (48 + n) ∷ written else rest

-- A number has fewer digits than its successor has units, so the fuel is enough.
unfoldable pub decimal : ℕ → Text
unfolding decimal_from
decimal n = decimal_from (suc n) n []

read : ℕ → Text → ℕ
read value [] = value
read value (c ∷ cs) = read (value * 10 + (c - 48)) cs

read-decimal_from :
    (rounds n : ℕ) (written : Text)
    → n < rounds
    → read 0 (decimal_from rounds n written) ≡ read n written
unfolding decimal_from read
read-decimal_from zero n w h = absurd (omega arith)
read-decimal_from (suc r) n w h = elim (Bool-cases (ltb n 10)) [
  | inl last ↦ rw last (let e : 0 + (48 + n - 48) ≡ n = omega arith in ap (λ (v : ℕ). read v w) e)
  | inr more ↦ rw more (
      read-decimal_from r (n / 10) ((48 + n % 10) ∷ w) (ground arith)
      ∙ (let e : n / 10 * 10 + (48 + n % 10 - 48) ≡ n = omega arith in ap (λ (v : ℕ). read v w) e))
]

pub decimal-injective : (m n : ℕ) → decimal m ≡ decimal n → m ≡ n
unfolding decimal read
decimal-injective m n e =
    sym (read-decimal_from (suc m) m [] (omega arith))
    ∙ ap (read 0) e
    ∙ read-decimal_from (suc n) n [] (omega arith)

abbrev pub IsDigit : ℕ → Type 0
IsDigit c = (48 ≤ c) × (c < 58)

decimal_from-IsDigit :
    (rounds n : ℕ) (written : Text)
    → All IsDigit written
    → All IsDigit (decimal_from rounds n written)
unfolding decimal_from
decimal_from-IsDigit zero n w h = h
decimal_from-IsDigit (suc r) n w h =
    ground
      (arith, decimal_from-IsDigit r (n / 10) ((48 + n % 10) ∷ w) ((omega arith, omega arith), h))

pub decimal-IsDigit : (n : ℕ) → All IsDigit (decimal n)
unfolding decimal
decimal-IsDigit n = decimal_from-IsDigit (suc n) n [] tt
