-- ===== src/Hex/RoundTrip.antt =====
-- What `encode_hex` writes and what `decode_hex` reads.
use tpmkit.Base.{
  ℕ, suc, ◌+◌, ◌-◌, ◌*◌, ◌/◌, ◌%◌, ◌≤◌, ◌<◌, ◌≡◌, refl, sym, ◌∙◌, ap, inl, inr, List, [], ◌∷◌, ◌++◌,
  some, ◌&&◌, true, ltb, leb, ◌==◌, if◌then◌else◌, length, get_or, All, arith, append_assoc,
  append-nil, Option-cases, ==_iff, map,
}
use tpmkit.Base.Bits.{passes, passes_lem, high_nibble, low_nibble, join_nibbles}
use tpmkit.Outcome.{ok, returns}
use tpmkit.Hex.{
  size_max, hex_digits, decode_hex_digit, pair_value, encode_loop, encode_hex, decode_loop,
  decode_hex,
}

-- The two lowercase digits of a byte.
abbrev digit : ℕ → ℕ
digit d = if ltb d 10 then b'0' + d else b'a' + (d - 10)

abbrev pub digits : List ℕ → List ℕ
digits [] = []
digits (b ∷ bs) = digit (b / 16) ∷ digit (b % 16) ∷ digits bs

digit_table : passes (λ d. get_or hex_digits d 0 == digit d) 16 ≡ true
unfolding passes
digit_table = refl

hex_digit : (d : ℕ) → d < 16 → get_or hex_digits d 0 ≡ digit d
hex_digit d h = (==_iff _ _).0 (passes_lem _ 16 _ digit_table h)

decode_hex_digit-digit : (d : ℕ) → d < 16 → decode_hex_digit (digit d) ≡ some d
unfolding decode_hex_digit
decode_hex_digit-digit d h = ground arith

encode_loop-digits :
    (text bytes : List ℕ) → All (λ b. b < 256) bytes → encode_loop text bytes ≡ text ++ digits bytes
unfolding encode_loop
encode_loop-digits text [] h = sym (append-nil text)
encode_loop-digits text (b ∷ bs) (h, hs) =
    rw
      (
        high_nibble b h,
        low_nibble b h,
        hex_digit (b / 16) (omega arith),
        hex_digit (b % 16) (omega arith),
      )
      (encode_loop-digits (text ++ (digit (b / 16) ∷ digit (b % 16) ∷ [])) bs hs
        ∙ append_assoc text (digit (b / 16) ∷ digit (b % 16) ∷ []) _)

pair_value-digits :
    (b : ℕ)
    → b < 256
    → pair_value (decode_hex_digit (digit (b / 16))) (decode_hex_digit (digit (b % 16))) ≡ some b
unfolding pair_value
pair_value-digits b h =
    rw
      (
        decode_hex_digit-digit (b / 16) (omega arith),
        decode_hex_digit-digit (b % 16) (omega arith),
        join_nibbles (b / 16) (b % 16) (omega arith) (omega arith),
      )
      (ground arith)

decode_loop-digits :
    (bytes rest : List ℕ)
    → All (λ b. b < 256) rest
    → decode_loop bytes (digits rest) ≡ ok (bytes ++ rest)
unfolding decode_loop
decode_loop-digits bytes [] h = ap ok (sym (append-nil bytes))
decode_loop-digits bytes (b ∷ bs) (h, hs) =
    rw (pair_value-digits b h, decode_loop)
      (decode_loop-digits (bytes ++ (b ∷ [])) bs hs ∙ ap ok (append_assoc bytes (b ∷ []) bs))

length-digits : (bytes : List ℕ) → length (digits bytes) ≡ length bytes * 2
length-digits [] = refl
length-digits (b ∷ bs) = omega (arith, length-digits bs)

-- Whenever the text of a list of bytes fits a string and the list fits a vector, `encode_hex`
-- returns a text of two characters for each byte, and `decode_hex` reads exactly the bytes back.
pub decode_hex-encode_hex :
    (string_max vector_max : ℕ) (bytes : List ℕ)
    → All (λ b. b < 256) bytes
    → length bytes * 2 ≤ size_max
    → length bytes * 2 ≤ string_max
    → length bytes ≤ vector_max
    → (text : List ℕ) × (encode_hex string_max bytes ≡ returns text)
      × (length text ≡ length bytes * 2)
      × (decode_hex vector_max text ≡ ok bytes)
unfolding encode_hex decode_hex
decode_hex-encode_hex string_max vector_max bytes h small fits room = (
  digits bytes,
  ground (arith, encode_loop-digits [] bytes h),
  length-digits bytes,
  ground (arith, length-digits bytes, decode_loop-digits [] bytes h),
)

-- The ASCII lowercase of a character.
abbrev pub lower : ℕ → ℕ
lower c = if leb b'A' c && leb c b'Z' then c + 32 else c

digit-decode_hex_digit : (c d : ℕ) → decode_hex_digit c ≡ some d → (digit d ≡ lower c) × (d < 16)
unfolding decode_hex_digit
digit-decode_hex_digit c d h = ground arith

pair_value_digits :
    (c e v : ℕ)
    → pair_value (decode_hex_digit c) (decode_hex_digit e) ≡ some v
    → (digit (v / 16) ≡ lower c) × (digit (v % 16) ≡ lower e) × (v < 256)
unfolding pair_value
pair_value_digits c e v h = elim (Option-cases (decode_hex_digit c)) [
  | inl bad ↦ cc (rw (bad, pair_value) at h)
  | inr (x, high) ↦ elim (Option-cases (decode_hex_digit e)) [
    | inl bad ↦ cc (rw (high, bad, pair_value) at h)
    | inr (y, low) ↦
        let (dx, bx) = digit-decode_hex_digit c x high in
        let (dy, by) = digit-decode_hex_digit e y low in
        let value : v ≡ x * 16 + y =
          ground (arith, join_nibbles x y bx by, rw (high, low, pair_value) at h) in
        let hi : v / 16 ≡ x = omega arith in
        let lo : v % 16 ≡ y = omega arith in (rw hi dx, rw lo dy, omega arith)
  ]
]

decode_loop_eq-ok :
    (bytes text out : List ℕ)
    → decode_loop bytes text ≡ ok out
    → (rest : List ℕ) × (out ≡ bytes ++ rest)
      × (digits rest ≡ map lower text)
      × All (λ b. b < 256) rest
unfolding decode_loop
decode_loop_eq-ok bytes [] out h = ([], ground (arith, append-nil bytes), refl, tt)
decode_loop_eq-ok bytes (c ∷ []) out h = cc
decode_loop_eq-ok bytes (c ∷ e ∷ text) out h =
    elim (Option-cases (pair_value (decode_hex_digit c) (decode_hex_digit e))) [
      | inl bad ↦ cc (rw (bad, decode_loop) at h)
      | inr (v, good) ↦
          let (rest, whole, spelled, small) =
            decode_loop_eq-ok (bytes ++ (v ∷ [])) text out (rw (good, decode_loop) at h) in
          let (hi, lo, byte) = pair_value_digits c e v good in
          (v ∷ rest, whole ∙ append_assoc bytes (v ∷ []) rest, cc (hi, lo, spelled), (byte, small))
    ]

decode_hex-decode_loop :
    (vector_max : ℕ) (text bytes : List ℕ)
    → decode_hex vector_max text ≡ ok bytes
    → decode_loop [] text ≡ ok bytes
unfolding decode_hex
decode_hex-decode_loop vector_max text bytes h = ground arith

length-map-lower : (text : List ℕ) → length (map lower text) ≡ length text
length-map-lower [] = refl
length-map-lower (c ∷ text) = ap suc (length-map-lower text)

-- When `decode_hex` accepts a text, its result consists of bytes, and `encode_hex` gives back
-- the text in lowercase, provided that a text of that length fits a string.
pub encode_hex-decode_hex :
    (string_max vector_max : ℕ) (text bytes : List ℕ)
    → decode_hex vector_max text ≡ ok bytes
    → length text ≤ size_max
    → length text ≤ string_max
    → All (λ b. b < 256) bytes × (encode_hex string_max bytes ≡ returns (map lower text))
unfolding encode_hex
encode_hex-decode_hex string_max vector_max text bytes h small fits =
    let (rest, whole, spelled, range) =
      decode_loop_eq-ok [] text bytes (decode_hex-decode_loop vector_max text bytes h) in
    let size : length rest * 2 ≡ length text =
      sym (length-digits rest) ∙ ap length spelled ∙ length-map-lower text in
    rw whole (range, ground (arith, encode_loop-digits [] rest range))
