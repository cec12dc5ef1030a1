-- ===== src/Common/Bits.antt =====
-- `bit_or` of a shifted value and of bits below it is their sum.
use Prim.Native.Nat.{
  ℕ, zero, suc, ◌+◌, ◌*◌, ◌/◌, ◌%◌, ◌^◌, ◌≤◌, ◌<◌, max, bit_or, digits, bit_or-bitwise,
}
use mathlib.Core.Path.{◌≡◌, refl, ap}
use native.Mathlib.Nat.{pow-suc}
use native.Mathlib.Omega.{arith}

abbrev or_digits : ℕ → ℕ → ℕ → ℕ
or_digits = digits (λ b. b) max

-- More rounds than the first number has digits change nothing.
or_digits_rounds :
    (rounds more a b : ℕ) → a ≤ rounds → a ≤ more → or_digits rounds a b ≡ or_digits more a b
or_digits_rounds zero zero a b p q = refl
or_digits_rounds zero (suc m) zero b p q = refl
or_digits_rounds zero (suc m) (suc a) b p q = absurd (omega arith)
or_digits_rounds (suc r) zero zero b p q = refl
or_digits_rounds (suc r) zero (suc a) b p q = absurd (omega arith)
or_digits_rounds (suc r) (suc m) zero b p q = refl
or_digits_rounds (suc r) (suc m) (suc a) b p q =
    omega (arith, or_digits_rounds r m (suc a / 2) (b / 2) (omega arith) (omega arith))

pub zero-bit_or : (b : ℕ) → bit_or 0 b ≡ b
zero-bit_or b = bit_or-bitwise 0 b

pub bit_or_step : (a b : ℕ) → bit_or a b ≡ bit_or (a / 2) (b / 2) * 2 + max (a % 2) (b % 2)
bit_or_step zero b = omega (arith, zero-bit_or b, zero-bit_or (b / 2))
bit_or_step (suc a) b = omega (
  arith,
  bit_or-bitwise (suc a) b,
  bit_or-bitwise (suc a / 2) (b / 2),
  or_digits_rounds a (suc a / 2) (suc a / 2) (b / 2) (omega arith) (omega arith),
)

bit_or-zero_rounds : (n a : ℕ) → a ≤ n → bit_or a 0 ≡ a
bit_or-zero_rounds n zero h = zero-bit_or 0
bit_or-zero_rounds zero (suc a) h = absurd (omega arith)
bit_or-zero_rounds (suc n) (suc a) h =
    omega (arith, bit_or_step (suc a) 0, bit_or-zero_rounds n (suc a / 2) (omega arith))

bit_or_double : (a b : ℕ) → bit_or (a * 2) b ≡ bit_or a (b / 2) * 2 + b % 2
bit_or_double a b =
    let half : a * 2 / 2 ≡ a = omega arith in
    omega (arith, bit_or_step (a * 2) b, ap (λ (n : ℕ). bit_or n (b / 2)) half)

pow-shift : (k hi : ℕ) → hi * 2 ^ suc k ≡ hi * 2 ^ k * 2
pow-shift k hi = omega (arith, ap (λ (n : ℕ). hi * n) (pow-suc 2 k))

-- `(hi << k) | lo` with `lo` below `2 ^ k`.
pub bit_or-shift : (k hi lo : ℕ) → lo < 2 ^ k → bit_or (hi * 2 ^ k) lo ≡ hi * 2 ^ k + lo
bit_or-shift zero hi lo h =
    let none_left : lo ≡ 0 = omega arith in
    rw none_left (omega (arith, bit_or-zero_rounds (hi * 1) (hi * 1) (omega arith)))
bit_or-shift (suc k) hi lo h = rw (pow-shift k hi) (
    omega (
      arith,
      bit_or_double (hi * 2 ^ k) lo,
      bit_or-shift k hi (lo / 2) (omega (arith, pow-suc 2 k)),
    ))
