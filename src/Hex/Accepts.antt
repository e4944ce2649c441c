-- ===== src/Hex/Accepts.antt =====
-- Which texts `decode_hex` of src/domain/encoding/hex.cpp accepts.
use tpmkit.Base.{
  ℕ, ◌/◌, ◌%◌, ◌≤◌, ◌≡◌, ◌≢◌, refl, ◌↔◌, inl, inr, List, [], ◌∷◌, ◌++◌, none, some, ◌&&◌, ◌||◌,
  Bool, true, false, leb, length, arith, Option-cases, Bool-cases,
}
use tpmkit.Outcome.{IsOk}
use tpmkit.Hex.{decode_hex_digit, pair_value, decode_loop, decode_hex}

abbrev pub is_hex : ℕ → Bool
is_hex c = (leb b'0' c && leb c b'9') || (leb b'a' c && leb c b'f') || (leb b'A' c && leb c b'F')

abbrev pub all_hex : List ℕ → Bool
all_hex [] = true
all_hex (c ∷ cs) = is_hex c && all_hex cs

pair_value_some :
    (c e : ℕ)
    → is_hex c ≡ true
    → is_hex e ≡ true
    → pair_value (decode_hex_digit c) (decode_hex_digit e) ≢ none
unfolding pair_value decode_hex_digit
pair_value_some c e h k = ground arith

pair_value_hex :
    (c e : ℕ)
    → is_hex c ≡ true
    → is_hex e ≡ true
    → (v : ℕ) × (pair_value (decode_hex_digit c) (decode_hex_digit e) ≡ some v)
pair_value_hex c e h k =
    elim (Option-cases (pair_value (decode_hex_digit c) (decode_hex_digit e))) [
      | inl bad ↦ absurd (pair_value_some c e h k bad)
      | inr good ↦ good
    ]

pair_value-none :
    (c e : ℕ)
    → (is_hex c && is_hex e) ≡ false
    → pair_value (decode_hex_digit c) (decode_hex_digit e) ≡ none
unfolding pair_value decode_hex_digit
pair_value-none c e h = ground arith

-- On a text of even length the loop succeeds exactly if all characters are digits.
decode_loop-IsOk :
    (bytes text : List ℕ)
    → length text % 2 ≡ 0
    → all_hex text ≡ true
    → IsOk (decode_loop bytes text)
unfolding decode_loop
decode_loop-IsOk bytes [] even h = tt
decode_loop-IsOk bytes (c ∷ []) even h = absurd (omega arith)
decode_loop-IsOk bytes (c ∷ e ∷ text) even h =
    let (v, good) = pair_value_hex c e (ground arith) (ground arith) in
    rw (good, decode_loop) (decode_loop-IsOk (bytes ++ (v ∷ [])) text (omega arith) (ground arith))

all_hex-decode_loop :
    (bytes text : List ℕ)
    → length text % 2 ≡ 0
    → IsOk (decode_loop bytes text)
    → all_hex text ≡ true
unfolding decode_loop
all_hex-decode_loop bytes [] even h = refl
all_hex-decode_loop bytes (c ∷ []) even h = absurd (omega arith)
all_hex-decode_loop bytes (c ∷ e ∷ text) even h = elim (Bool-cases (is_hex c && is_hex e)) [
  | inl both ↦
      let (v, good) = pair_value_hex c e (ground arith) (ground arith) in
      let rest : all_hex text ≡ true =
        all_hex-decode_loop (bytes ++ (v ∷ [])) text (omega arith) (rw (good, decode_loop) at h) in
      ground arith
  | inr bad ↦ absurd (rw (pair_value-none c e bad, decode_loop) at h)
]

-- `decode_hex` succeeds exactly on the texts of even length, of at most `vector_max` pairs,
-- that consist of the characters 0-9, a-f and A-F.
pub decode_hex-IsOk :
    (vector_max : ℕ) (text : List ℕ)
    → IsOk (decode_hex vector_max text)
      ↔ ((length text % 2 ≡ 0) × (length text / 2 ≤ vector_max) × (all_hex text ≡ true))
unfolding decode_hex
decode_hex-IsOk vector_max text = (
  λ h. (ground arith, ground arith, ground (arith, all_hex-decode_loop [] text)),
  λ h. ground (arith, decode_loop-IsOk [] text),
)
