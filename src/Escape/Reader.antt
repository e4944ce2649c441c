-- ===== src/Escape/Reader.antt =====
-- A reader of the written form of a value, and what it reads.
use tpmkit.Base.{
  ℕ, ◌+◌, ◌-◌, ◌*◌, ◌/◌, ◌≡◌, refl, ap, ◌∙◌, arith, true, false, Bool-cases, inl, inr, List, [],
  ◌∷◌, ◌++◌, append_assoc, leb, ltb, ◌==◌, ==_iff, if◌then◌else◌, bit_and, get_or,
}
use tpmkit.Base.Bits.{passes, passes_lem}
use tpmkit.Escape.{hex, needs_quoting, escape_control, escape_byte, escape_loop, escape_value}

-- The value of a hexadecimal digit.
digit_value : ℕ → ℕ
digit_value d = if leb b'a' d then d - b'a' + 10 else d - b'0'

-- What a letter after a backslash stands for, but `x`.
letter_value : ℕ → ℕ
letter_value d = if d == b'n' then 10 else if d == b'r' then 13 else if d == b't' then 9 else d

-- Where the reader stands: in the text, after a backslash, after `\x`, after its first digit.
data Place : Type 0 where
  text after_backslash first_digit : Place
  second_digit : ℕ → Place

-- The text after an opening quote, up to the closing one.
read_quoted : Place → List ℕ → List ℕ
unfolding digit_value letter_value
read_quoted place [] = []
read_quoted text (c ∷ cs) =
    let escaped = read_quoted after_backslash cs in
    let more = read_quoted text cs in if c == 34 then [] else if c == 92 then escaped else c ∷ more
read_quoted after_backslash (c ∷ cs) =
    let digits = read_quoted first_digit cs in
    let more = read_quoted text cs in if c == b'x' then digits else letter_value c ∷ more
read_quoted first_digit (c ∷ cs) = read_quoted (second_digit (digit_value c)) cs
read_quoted (second_digit n) (c ∷ cs) = (n * 16 + digit_value c) ∷ read_quoted text cs

-- A written value, which is quoted when it starts with a quote.
pub read_value : List ℕ → List ℕ
unfolding read_quoted
read_value [] = []
read_value (c ∷ cs) = if c == 34 then read_quoted text cs else c ∷ cs

digits_value : ℕ → ℕ
digits_value c =
    digit_value (get_or hex (bit_and (c / 16) 0x0f) 0) * 16
    + digit_value (get_or hex (bit_and c 0x0f) 0)

digits_table : passes (λ c. digits_value c == c) 0x20 ≡ true
unfolding passes digit_value digits_value
digits_table = refl

digits_lem : (c : ℕ) → ltb c 0x20 ≡ true → digits_value c ≡ c
digits_lem c low = (==_iff _ _).0 (passes_lem _ 0x20 c digits_table (ground (arith, low)))

read_quoted-escape_byte :
    (c : ℕ) (rest : List ℕ) → read_quoted text (escape_byte c ++ rest) ≡ c ∷ read_quoted text rest
unfolding read_quoted escape_byte escape_control digit_value letter_value digits_value
read_quoted-escape_byte c rest = elim (Bool-cases (c == 34)) [
  | inl e ↦ let same : c ≡ 34 = ground (arith, e) in rw same refl
  | inr quote ↦ elim (Bool-cases (c == 92)) [
    | inl e ↦ let same : c ≡ 92 = ground (arith, e) in rw same refl
    | inr slash ↦ elim (Bool-cases (c == 10)) [
      | inl e ↦ let same : c ≡ 10 = ground (arith, e) in rw same refl
      | inr newline ↦ elim (Bool-cases (c == 13)) [
        | inl e ↦ let same : c ≡ 13 = ground (arith, e) in rw same refl
        | inr return ↦ elim (Bool-cases (c == 9)) [
          | inl e ↦ let same : c ≡ 9 = ground (arith, e) in rw same refl
          | inr tab ↦ elim (Bool-cases (ltb c 0x20)) [
            | inl low ↦
                rw (quote, slash, newline, return, tab, low)
                  (ap (λ v. v ∷ read_quoted text rest) (digits_lem c low))
            | inr high ↦ rw (quote, slash, newline, return, tab, high) (rw (quote, slash) refl)
          ]
        ]
      ]
    ]
  ]
]

read_quoted-escape_loop : (cs : List ℕ) → read_quoted text (escape_loop cs ++ (34 ∷ [])) ≡ cs
unfolding escape_loop read_quoted
read_quoted-escape_loop [] = refl
read_quoted-escape_loop (c ∷ cs) =
    ap (read_quoted text) (append_assoc (escape_byte c) (escape_loop cs) (34 ∷ []))
    ∙ read_quoted-escape_byte c (escape_loop cs ++ (34 ∷ []))
    ∙ ap (◌∷◌ c) (read_quoted-escape_loop cs)

read_plain : (value : List ℕ) → needs_quoting value ≡ false → read_value value ≡ value
unfolding read_value
read_plain [] e = refl
read_plain (c ∷ cs) e = ground (arith, e)

-- What is written for a value gives the value back, for any bytes: a reader that takes a leading
-- quote for the start of a quoted text, undoes the escapes in it and stops at its closing quote
-- reads exactly the value.
pub read_value-escape_value : (value : List ℕ) → read_value (escape_value value) ≡ value
unfolding escape_value read_value
read_value-escape_value value = elim (Bool-cases (needs_quoting value)) [
  | inl quoted ↦ rw quoted (read_quoted-escape_loop value)
  | inr plain ↦ rw plain (read_plain value plain)
]
