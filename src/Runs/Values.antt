-- ===== src/Runs/Values.antt =====
-- Runs of the value types and of the hexadecimal encoding.
use tpmkit.Base.{
  ℕ, ◌/◌, ◌%◌, ◌≤◌, ◌<◌, ◌≡◌, refl, ◌↔◌, true, List, [], ◌∷◌, All, arith, codes, length, map,
}
use tpmkit.Outcome.{ok, returns, IsOk}
use tpmkit.Domain.Index.{make_index_range}
use tpmkit.Domain.Index.Range.{make_index_range_lem, interval}
use tpmkit.Domain.Values.{ReadResult, EventResult, read_result_eq}
use tpmkit.Domain.Values.Equality.{read_result_eq-Decides}
use tpmkit.Runs.Wire.{values, zero_and_nine, zeros}
use tpmkit.Escape.{escape_value}
use tpmkit.Escape.Reader.{read_value, read_value-escape_value}
use tpmkit.Hex.{encode_hex, decode_hex, decode_loop, decode_hex_digit}
use tpmkit.Hex.RoundTrip.{decode_hex-encode_hex, encode_hex-decode_hex, lower}
use tpmkit.Hex.Accepts.{decode_hex-IsOk, all_hex}

decoded : decode_hex 100 (codes "aB01") ≡ ok (0xab ∷ 0x01 ∷ [])
unfolding decode_hex decode_loop decode_hex_digit
decoded = refl

make_index_range_lem_example :
    make_index_range 22 2 ≡ returns (record { value = 22 } ∷ record { value = 23 } ∷ [])
unfolding interval
make_index_range_lem_example = make_index_range_lem 22 2 (omega arith) (omega arith)

decode_hex-encode_hex_example :
    (text : List ℕ) × (encode_hex 100 (0xab ∷ 0x01 ∷ []) ≡ returns text)
    × (length text ≡ 4)
    × (decode_hex 100 text ≡ ok (0xab ∷ 0x01 ∷ []))
decode_hex-encode_hex_example =
    decode_hex-encode_hex 100 100 (0xab ∷ 0x01 ∷ []) (omega arith) (omega arith) (omega arith)
      (omega arith)

encode_hex-decode_hex_example :
    All (λ b. b < 256) (0xab ∷ 0x01 ∷ [])
    × (encode_hex 100 (0xab ∷ 0x01 ∷ []) ≡ returns (map lower (codes "aB01")))
encode_hex-decode_hex_example =
    encode_hex-decode_hex 100 100 (codes "aB01") (0xab ∷ 0x01 ∷ []) decoded (omega arith)
      (omega arith)

decode_hex-IsOk_example :
    IsOk (decode_hex 100 (codes "aB0"))
    ↔ ((3 % 2 ≡ 0) × (3 / 2 ≤ 100) × (all_hex (codes "aB0") ≡ true))
decode_hex-IsOk_example = decode_hex-IsOk 100 (codes "aB0")

abbrev read_at : ℕ → ReadResult
read_at counter = record {
  actual_selection = zero_and_nine;
  update_counter = counter;
  values = values;
}

read_result_eq-Decides_example :
    (read_result_eq (read_at 7) (read_at 8) ≡ true) ↔ (read_at 7 ≡ read_at 8)
read_result_eq-Decides_example = read_result_eq-Decides (read_at 7) (read_at 8)

abbrev one_digest : EventResult
one_digest = record { digests = zeros ∷ [] }

read_value-escape_value_example :
    read_value (escape_value (34 ∷ 7 ∷ b'a' ∷ [])) ≡ 34 ∷ 7 ∷ b'a' ∷ []
read_value-escape_value_example = read_value-escape_value (34 ∷ 7 ∷ b'a' ∷ [])
