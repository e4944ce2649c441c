-- ===== src/Context/Version.antt =====
-- `abi_version_string` of tpm_context.cpp, and the decimal text of a number, read back.
use tpmkit.Base.{
  sym, ℕ, zero, suc, ◌+◌, ◌-◌, ◌*◌, ◌/◌, ◌%◌, ◌<◌, ◌≡◌, refl, ap, ◌∙◌, arith, Bool-cases, inl, inr,
  ◌&&◌, true, List, [], ◌∷◌, ◌++◌, Option, none, some, leb, ◌==◌, if◌then◌else◌, append-nil,
}
use tpmkit.Base.Decimal.{to_decimal, decimal_loop}
use tpmkit.Context.Session.{AbiVersion}
use tpmkit.Context.{abi_version_string}

-- The number that the digits in front make, after `n`, and what follows them.
abbrev scan_number : ℕ → List ℕ → ℕ × List ℕ
scan_number n [] = (n, [])
scan_number n (c ∷ cs) =
    let rest = scan_number (10 * n + (c - b'0')) cs in
    if leb b'0' c && leb c b'9' then rest else (n, c ∷ cs)

scan_number-digit :
    (n d : ℕ) (cs : List ℕ) → d < 10 → scan_number n ((b'0' + d) ∷ cs) ≡ scan_number (10 * n + d) cs
scan_number-digit n d cs small = rw (is_digit, minus_zero) refl
  where
    is_digit : leb b'0' (b'0' + d) && leb (b'0' + d) b'9' ≡ true
    is_digit = ground (arith, small)

    minus_zero : b'0' + d - b'0' ≡ d
    minus_zero = omega arith

decimal_loop-append :
    (fuel n : ℕ) (acc rest : List ℕ)
    → decimal_loop fuel n acc ++ rest ≡ decimal_loop fuel n (acc ++ rest)
unfolding decimal_loop
decimal_loop-append zero n acc rest = refl
decimal_loop-append (suc fuel) n acc rest = elim (Bool-cases (n / 10 == 0)) [
  | inl last ↦ rw last refl
  | inr more ↦ rw more (decimal_loop-append fuel (n / 10) ((b'0' + n % 10) ∷ acc) rest)
]

-- The rounds are enough: the text of a number is all its digits.
scan_number-decimal_loop :
    (fuel n : ℕ) (acc : List ℕ)
    → n < fuel
    → scan_number 0 (decimal_loop fuel n acc) ≡ scan_number n acc
unfolding decimal_loop
scan_number-decimal_loop zero n acc enough = absurd (omega (arith, enough))
scan_number-decimal_loop (suc fuel) n acc enough = elim (Bool-cases (n / 10 == 0)) [
  | inl last ↦ rw last (
      scan_number-digit 0 (n % 10) acc (omega arith)
      ∙ ap (λ m. scan_number m acc) (ground (arith, last)))
  | inr more ↦ rw more (
      scan_number-decimal_loop fuel (n / 10) ((b'0' + n % 10) ∷ acc) (ground (arith, enough, more))
      ∙ scan_number-digit (n / 10) (n % 10) acc (omega arith)
      ∙ ap (λ m. scan_number m acc) (omega arith))
]

-- A text that goes on after a number with a byte that is no digit.
scan_number-to_decimal :
    (n : ℕ) (rest : List ℕ) → scan_number 0 (to_decimal n ++ rest) ≡ scan_number n rest
unfolding to_decimal
scan_number-to_decimal n rest =
    ap (scan_number 0) (decimal_loop-append (suc n) n [] rest)
    ∙ scan_number-decimal_loop (suc n) n rest (omega arith)

scan_number-all : (n : ℕ) → scan_number 0 (to_decimal n) ≡ (n, [])
scan_number-all n =
    ap (scan_number 0) (sym (append-nil (to_decimal n))) ∙ scan_number-to_decimal n []

abbrev after_dot : {A : Type 0} → ℕ × List ℕ → (ℕ → List ℕ → Option A) → Option A
after_dot (n, []) f = none
after_dot (n, c ∷ cs) f = if c == b'.' then f n cs else none

abbrev at_end : ℕ × List ℕ → (ℕ → AbiVersion) → Option AbiVersion
at_end (n, []) f = some (f n)
at_end (n, c ∷ cs) f = none

-- Four numbers with dots between them.
abbrev pub read_version : List ℕ → Option AbiVersion
read_version text = after_dot (scan_number 0 text) λ creator rest.
    after_dot (scan_number 0 rest) λ family rest. after_dot (scan_number 0 rest) λ level rest.
      at_end (scan_number 0 rest)
        λ version. record { creator = creator; family = family; level = level; version = version }

-- The text of a version, read back, gives the four numbers of the version.
pub read_version-abi_version_string :
    (v : AbiVersion) → read_version (abi_version_string v) ≡ some v
unfolding abi_version_string
read_version-abi_version_string v =
    rw
      (
        scan_number-to_decimal v.creator (
            b'.'
            ∷ (to_decimal v.family
                ++ (b'.' ∷ (to_decimal v.level ++ (b'.' ∷ to_decimal v.version))))),
        scan_number-to_decimal v.family
            (b'.' ∷ (to_decimal v.level ++ (b'.' ∷ to_decimal v.version))),
        scan_number-to_decimal v.level (b'.' ∷ to_decimal v.version),
        scan_number-all v.version,
      )
      refl
