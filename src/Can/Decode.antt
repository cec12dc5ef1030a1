-- ===== src/Can/Decode.antt =====
-- What the bit arithmetic of the decoders in runtime_can/src/protocol.cpp computes.
use embodied_agent_runtime.Common.{ℕ, ◌+◌, ◌*◌, ◌%◌, ◌^◌, ◌<◌, ◌≡◌, refl, arith, ap, ◌∙◌, bit_or}
use embodied_agent_runtime.Common.Bits.{bit_or-shift}
use embodied_agent_runtime.Can.Protocol.{Payload, IsPayload, decode_u16, decode_u32}

pub decode_u16_lem : (p : Payload) → IsPayload p → decode_u16 p ≡ p.b1 * 2 ^ 8 + p.b2
unfolding decode_u16
decode_u16_lem p h = omega (arith, bit_or-shift 8 p.b1 p.b2 h.r2)

-- One more field of `width` bits below a number that is a multiple of `2 ^ width`.
or_field : (a n hi lo k : ℕ) → n ≡ hi * 2 ^ k → lo < 2 ^ k → a ≡ lo → bit_or n a ≡ hi * 2 ^ k + lo
or_field a n hi lo k e h f =
    ap (λ (m : ℕ). bit_or m a) e ∙ ap (bit_or (hi * 2 ^ k)) f ∙ bit_or-shift k hi lo h

or_two :
    (p : Payload)
    → IsPayload p
    → bit_or (p.b4 * 2 ^ 24 % 2 ^ 32) (p.b5 * 2 ^ 16 % 2 ^ 32) ≡ (p.b4 * 2 ^ 8 + p.b5) * 2 ^ 16
or_two p h = omega (
  arith,
  or_field (p.b5 * 2 ^ 16 % 2 ^ 32) (p.b4 * 2 ^ 24 % 2 ^ 32) p.b4 (p.b5 * 2 ^ 16) 24 (omega arith)
      (omega arith) (omega arith),
)

or_three :
    (p : Payload)
    → IsPayload p
    → bit_or (bit_or (p.b4 * 2 ^ 24 % 2 ^ 32) (p.b5 * 2 ^ 16 % 2 ^ 32)) (p.b6 * 2 ^ 8 % 2 ^ 32)
      ≡ ((p.b4 * 2 ^ 8 + p.b5) * 2 ^ 8 + p.b6) * 2 ^ 8
or_three p h = omega (
  arith,
  or_field (p.b6 * 2 ^ 8 % 2 ^ 32) (bit_or (p.b4 * 2 ^ 24 % 2 ^ 32) (p.b5 * 2 ^ 16 % 2 ^ 32))
      (p.b4 * 2 ^ 8 + p.b5) (p.b6 * 2 ^ 8) 16 (or_two p h) (omega arith) (omega arith),
)

pub decode_u32_lem :
    (p : Payload) → IsPayload p → decode_u32 p ≡ p.b4 * 2 ^ 24 + p.b5 * 2 ^ 16 + p.b6 * 2 ^ 8 + p.b7
unfolding decode_u32
decode_u32_lem p h = omega (
  arith,
  or_field p.b7
      (bit_or (bit_or (p.b4 * 2 ^ 24 % 2 ^ 32) (p.b5 * 2 ^ 16 % 2 ^ 32)) (p.b6 * 2 ^ 8 % 2 ^ 32))
      ((p.b4 * 2 ^ 8 + p.b5) * 2 ^ 8 + p.b6) p.b7 8 (or_three p h) h.r7 refl,
)
