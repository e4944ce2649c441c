-- ===== src/Escape.antt =====
-- src/adapters/common/escape_value.h: a field's value as it is written in a log line.
pub mod Lines
pub mod Reader
use tpmkit.Base.{
  ℕ, ◌/◌, Bool, true, false, ◌||◌, List, [], ◌∷◌, ◌++◌, bit_and, codes, get_or, ltb, ◌==◌,
  if◌then◌else◌,
}

abbrev pub needs_quoting_byte : ℕ → Bool
needs_quoting_byte c = ltb c 0x20 || c == b' ' || c == b'=' || c == 34 || c == 92

-- The first loop, up to its `break`.
abbrev pub needs_quoting : List ℕ → Bool
needs_quoting [] = false
needs_quoting (c ∷ cs) = if needs_quoting_byte c then true else needs_quoting cs

abbrev pub hex : List ℕ
hex = codes "0123456789abcdef"

-- `\x` and two digits; 92 is the backslash.
unfoldable pub escape_control : ℕ → List ℕ
escape_control c =
    92 ∷ b'x' ∷ get_or hex (bit_and (c / 16) 0x0f) 0 ∷ get_or hex (bit_and c 0x0f) 0 ∷ []

-- What the second loop appends for a character; 34 is the double quote.
unfoldable pub escape_byte : ℕ → List ℕ
unfolding escape_control
escape_byte c =
    if c == 34
    then 92 ∷ 34 ∷ []
    else if c == 92
    then 92 ∷ 92 ∷ []
    else if c == 10
    then 92 ∷ b'n' ∷ []
    else if c == 13
    then 92 ∷ b'r' ∷ []
    else if c == 9
    then 92 ∷ b't' ∷ []
    else if ltb c 0x20
    then escape_control c
    else c ∷ []

unfoldable pub escape_loop : List ℕ → List ℕ
unfolding escape_byte
escape_loop [] = []
escape_loop (c ∷ cs) = escape_byte c ++ escape_loop cs

unfoldable pub escape_value : List ℕ → List ℕ
unfolding escape_loop
escape_value value = if needs_quoting value then 34 ∷ (escape_loop value ++ (34 ∷ [])) else value
