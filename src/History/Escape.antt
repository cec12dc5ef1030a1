-- ===== src/History/Escape.antt =====
-- A JSON reader takes back what runtime_history/include/runtime_history/stage_event_log.hpp escapes.
use embodied_agent_runtime.Common.{
  ℕ, zero, suc, ◌+◌, ◌-◌, ◌*◌, ◌/◌, ◌%◌, ◌<◌, Option, none, some, [], ◌∷◌, ◌++◌, ◌==◌, ltb,
  if◌then◌else◌, ◌≡◌, ◌∙◌, refl, ap, arith, ==_iff,
}
use mathlib.Core.Option
use mathlib.Core.List.{append_assoc}
use embodied_agent_runtime.Common.Text.{Text}
use embodied_agent_runtime.History.StageEventLog.{hex_digit, escape_character, json_escape}

-- The value of a lower-case hexadecimal digit.
abbrev pub hex_value : ℕ → ℕ
hex_value c = if ltb c 58 then c - 48 else c - 87

-- A character in front of what was read.
abbrev pub before : ℕ → Option (Text × Text) → Option (Text × Text)
before c o = Option.map (λ (x : Text × Text). (c ∷ x.0, x.1)) o

-- Where the reader stands: in plain text, after a backslash, or in the digits of a code, with those
-- that follow the next one and the value so far.
pub data Mode : Type 0 where
  plain escaped : Mode
  unicode : ℕ → ℕ → Mode

-- What a character does: it ends the string, it is not allowed, it changes the mode, or it completes
-- a character of the value.
pub data Move : Type 0 where
  closes rejects : Move
  enters : Mode → Move
  emits : ℕ → Move

-- RFC 8259, for codes of control characters.
unfoldable pub read_move : Mode → ℕ → Move
read_move plain c =
    if c == 34
    then closes
    else if c == 92
    then enters escaped
    else if ltb c 32
    then rejects
    else emits c
read_move escaped c =
    if c == 34
    then emits 34
    else if c == 92
    then emits 92
    else if c == 47
    then emits 47
    else if c == b'b'
    then emits 8
    else if c == b'f'
    then emits 12
    else if c == b'n'
    then emits 10
    else if c == b'r'
    then emits 13
    else if c == b't'
    then emits 9
    else if c == b'u'
    then enters (unicode 3 0)
    else rejects
read_move (unicode zero value) c = emits (value * 16 + hex_value c)
read_move (unicode (suc left) value) c = enters (unicode left (value * 16 + hex_value c))

-- The inside of a JSON string up to its closing quote, and what follows it.
unfoldable pub read_string : Mode → Text → Option (Text × Text)
read_string mode [] = none
read_string mode (c ∷ rest) = elim (read_move mode c) [
  | closes ↦ some ([], rest)
  | rejects ↦ none
  | enters mode' ↦ read_string mode' rest
  | emits v ↦ before v (read_string plain rest)
]

hex_digit_lem : (d : ℕ) → d < 16 → hex_value (hex_digit d) ≡ d
hex_digit_lem d h = ground arith

code_lem :
    (c : ℕ) (rest : Text)
    → c < 32
    → read_string plain (92 ∷ b'u' ∷ 48 ∷ 48 ∷ hex_digit (c / 16) ∷ hex_digit (c % 16) ∷ rest)
      ≡ before c (read_string plain rest)
unfolding read_string read_move
code_lem c rest h =
    ap (λ v. before v (read_string plain rest))
      (omega (arith, hex_digit_lem (c / 16), hex_digit_lem (c % 16)))

escape_character_lem :
    (c : ℕ) (rest : Text)
    → read_string plain (escape_character c ++ rest) ≡ before c (read_string plain rest)
unfolding escape_character read_string read_move
escape_character_lem c rest =
    ground (arith, ==_iff c 34, ==_iff c 92, ==_iff c 10, ==_iff c 13, ==_iff c 9, code_lem c rest)

-- Reading a quoted text behind its opening quote gives the text back, whatever bytes it holds, and
-- what stands behind its closing quote.
pub read_string-json_escape :
    (value rest : Text) → read_string plain (json_escape value ++ 34 ∷ rest) ≡ some (value, rest)
unfolding json_escape read_string read_move
read_string-json_escape [] rest = refl
read_string-json_escape (c ∷ cs) rest =
    ap (read_string plain) (append_assoc (escape_character c) (json_escape cs) (34 ∷ rest))
    ∙ escape_character_lem c (json_escape cs ++ 34 ∷ rest)
    ∙ ap (before c) (read_string-json_escape cs rest)
