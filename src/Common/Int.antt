-- ===== src/Common/Int.antt =====
-- Signed 32-bit integers: an integer and the bits that `memcpy` shows of it.
use Prim.Native.Nat.{ℕ, suc, ◌-◌, ◌^◌, ◌<◌}
use mathlib.Core.Path.{◌≡◌}
use mathlib.Core.Logic.{◌↔◌}
use mathlib.Core.Bool.{Bool, true, false}
use native.Mathlib.Omega.{arith}
use embodied_agent_runtime.Common.Tests.{ltb, ◌==◌, ==_iff, if◌then◌else◌}

-- `negsuc n` is -(n + 1).
pub data ℤ : Type 0 where
  pos : ℕ → ℤ
  negsuc : ℕ → ℤ

abbrev pub pos_part : ℤ → ℕ
pos_part (pos n) = n
pos_part (negsuc n) = 0

abbrev pub neg_part : ℤ → ℕ
neg_part (pos n) = 0
neg_part (negsuc n) = suc n

-- The values of an `int32_t`.
abbrev pub IsInt32 : ℤ → Type 0
IsInt32 (pos n) = n < 2 ^ 31
IsInt32 (negsuc n) = n < 2 ^ 31

-- The two's complement bits of an `int32_t`.
unfoldable pub bits32 : ℤ → ℕ
bits32 (pos n) = n
bits32 (negsuc n) = 2 ^ 32 - 1 - n

-- The `int32_t` with these bits.
unfoldable pub signed32 : ℕ → ℤ
signed32 w = if ltb w (2 ^ 31) then pos w else negsuc (2 ^ 32 - 1 - w)

pub signed32-bits32 : (z : ℤ) → IsInt32 z → signed32 (bits32 z) ≡ z
unfolding signed32 bits32
signed32-bits32 (pos n) h = ground arith
signed32-bits32 (negsuc n) h = ground arith

pub bits32-signed32 : (w : ℕ) → w < 2 ^ 32 → bits32 (signed32 w) ≡ w
unfolding signed32 bits32
bits32-signed32 w h = ground arith

pub bits32-lt : (z : ℤ) → IsInt32 z → bits32 z < 2 ^ 32
unfolding bits32
bits32-lt (pos n) h = omega arith
bits32-lt (negsuc n) h = omega arith

pub signed32-IsInt32 : (w : ℕ) → w < 2 ^ 32 → IsInt32 (signed32 w)
unfolding signed32
signed32-IsInt32 w h = ground arith

-- `==` on integers.
abbrev pub same_integer : ℤ → ℤ → Bool
same_integer (pos a) (pos b) = a == b
same_integer (pos a) (negsuc b) = false
same_integer (negsuc a) (pos b) = false
same_integer (negsuc a) (negsuc b) = a == b

pub same_integer_iff : (a b : ℤ) → (same_integer a b ≡ true) ↔ (a ≡ b)
same_integer_iff (pos a) (pos b) = ground (arith, ==_iff a b)
same_integer_iff (pos a) (negsuc b) = ground arith
same_integer_iff (negsuc a) (pos b) = ground arith
same_integer_iff (negsuc a) (negsuc b) = ground (arith, ==_iff a b)
