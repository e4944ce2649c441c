-- ===== src/Hex.antt =====
-- include/tpmkit/encoding/hex.h and src/domain/encoding/hex.cpp. A text is the list of its
-- bytes. The largest sizes of a `std::string` and of a `std::vector` are arguments, since the
-- standard library sets them.
pub mod RoundTrip
pub mod Accepts
use tpmkit.Base.{
  ℕ, ◌+◌, ◌-◌, ◌*◌, ◌/◌, ◌%◌, ◌^◌, List, [], ◌∷◌, ◌++◌, Option, none, some, ◌&&◌, ltb, leb, ◌==◌,
  if◌then◌else◌, not, length, get_or, codes, bit_and, bit_or,
}
use tpmkit.Outcome.{
  Outcome, ok, unexpected, fails, input_error, Throws, returns, throws, length_error,
}

-- `std::numeric_limits<std::size_t>::max()`
abbrev pub size_max : ℕ
size_max = 2 ^ 64 - 1

abbrev pub hex_digits : List ℕ
hex_digits = codes "0123456789abcdef"

abbrev pub hex_digits_per_byte : ℕ
hex_digits_per_byte = 2

unfoldable pub decode_hex_digit : ℕ → Option ℕ
decode_hex_digit ch =
    if leb b'0' ch && leb ch b'9'
    then some ((ch - b'0') % 256)
    else if leb b'a' ch && leb ch b'f'
    then some ((10 + (ch - b'a')) % 256)
    else if leb b'A' ch && leb ch b'F'
    then some ((10 + (ch - b'A')) % 256)
    else none

-- The loop of `encode_hex`, which appends to `text`.
unfoldable pub encode_loop : List ℕ → List ℕ → List ℕ
encode_loop text [] = text
encode_loop text (byte ∷ bytes) =
    let high = get_or hex_digits (bit_and (byte / 16) 0x0f) 0 in
    let low = get_or hex_digits (bit_and byte 0x0f) 0 in
    encode_loop (text ++ (high ∷ low ∷ [])) bytes

unfoldable pub encode_hex : ℕ → List ℕ → Throws (List ℕ)
unfolding encode_loop
encode_hex string_max bytes =
    if ltb (size_max / hex_digits_per_byte) (length bytes)
    then throws (length_error "hex output size overflow")
    else if ltb string_max (length bytes * hex_digits_per_byte)
    then throws (length_error "hex output size overflow")
    else returns (encode_loop [] bytes)

pair_value : Option ℕ → Option ℕ → Option ℕ
pair_value (some high) (some low) = some (bit_or (high * 2 ^ 4) low % 256)
pair_value (some high) none = none
pair_value none low = none

-- The loop of `decode_hex`, two digits a round. The size is even, so no digit is left over.
unfoldable pub decode_loop : List ℕ → List ℕ → Outcome (List ℕ)
unfolding pair_value
decode_loop bytes [] = ok bytes
decode_loop bytes (high ∷ []) = fails input_error "hex input contains a non-hex character"
decode_loop bytes (high ∷ low ∷ text) =
    elim (pair_value (decode_hex_digit high) (decode_hex_digit low)) [
      | none ↦ fails input_error "hex input contains a non-hex character"
      | some value ↦ decode_loop (bytes ++ (value ∷ [])) text
    ]

unfoldable pub decode_hex : ℕ → List ℕ → Outcome (List ℕ)
unfolding decode_loop
decode_hex vector_max text =
    if not (length text % hex_digits_per_byte == 0)
    then fails input_error "hex input must contain an even number of digits"
    else if ltb vector_max (length text / hex_digits_per_byte)
    then fails input_error "hex input is too large"
    else decode_loop [] text
