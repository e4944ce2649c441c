-- ===== src/TctiConfig.antt =====
-- The shape of a TCTI configuration string, as src/adapters/tpm2_esys/context/tcti_loader.cpp and
-- tpm_context.cpp and src/adapters/mock/fake_tpm_context.cpp test it, each with its own copy.
pub mod Shape
pub mod Sanitized
use tpmkit.Base.{
  ℕ, zero, suc, ◌+◌, Bool, true, false, not, ◌||◌, ◌&&◌, List, [], ◌∷◌, Option, none, some, String,
  codes, length, take, leb, ltb, ◌==◌, if◌then◌else◌,
}
use tpmkit.Domain.Values.{list_eq}
use tpmkit.Outcome.{Outcome, ok, fails, input_error}

-- `std::isspace` of the "C" locale.
unfoldable pub is_space : ℕ → Bool
is_space c = c == 32 || (leb 9 c && leb c 13)

-- The first loop of `trim`.
unfoldable pub trim_front : List ℕ → List ℕ
trim_front [] = []
trim_front (c ∷ cs) = let rest = trim_front cs in if is_space c then rest else c ∷ cs

abbrev pub is_empty {ℓ} : {A : Type ℓ} → List A → Bool
is_empty [] = true
is_empty (c ∷ cs) = false

-- The second loop of `trim`: a character goes when it and all after it are spaces.
unfoldable pub trim_back : List ℕ → List ℕ
trim_back [] = []
trim_back (c ∷ cs) = let rest = trim_back cs in if is_empty rest && is_space c then [] else c ∷ rest

unfoldable pub trim : List ℕ → List ℕ
unfolding trim_front trim_back
trim value = trim_back (trim_front value)

abbrev one_further : Option ℕ → Option ℕ
one_further none = none
one_further (some n) = some (suc n)

-- `value.find(c)`; `none` is `npos`.
unfoldable pub find : ℕ → List ℕ → Option ℕ
find c [] = none
find c (d ∷ ds) = let rest = find c ds in if d == c then some 0 else one_further rest

abbrev has_position : Option ℕ → Bool
has_position none = false
has_position (some n) = ltb 0 n

-- 58 is the colon.
unfoldable pub has_name_args_shape : List ℕ → Bool
unfolding find
has_name_args_shape value = has_position (find 58 value)

abbrev up_to : Option ℕ → List ℕ → List ℕ
up_to none value = value
up_to (some n) value = take n value

unfoldable pub tcti_name : List ℕ → List ℕ
unfolding find
tcti_name value = up_to (find 58 value) value

abbrev pub tcti_invalid_message : String
tcti_invalid_message = "TCTI configuration must use name:args format"

-- `validate_config` of tcti_loader.cpp.
unfoldable pub validate_string : List ℕ → Outcome (List ℕ)
unfolding trim has_name_args_shape
validate_string config =
    let trimmed = trim config in
    if is_empty trimmed
    then fails input_error tcti_invalid_message
    else if not (length trimmed == length config)
    then fails input_error tcti_invalid_message
    else if not (has_name_args_shape trimmed)
    then fails input_error tcti_invalid_message
    else ok trimmed

-- `is_valid_string_config` of fake_tpm_context.cpp.
unfoldable pub is_valid_string_config : List ℕ → Bool
unfolding trim has_name_args_shape
is_valid_string_config config =
    let trimmed = trim config in
    not (is_empty trimmed) && length trimmed == length config && has_name_args_shape trimmed

-- `is_known_tcti_name` of tpm_context.cpp.
unfoldable pub is_known_tcti_name : List ℕ → Bool
is_known_tcti_name name =
    list_eq ◌==◌ name (codes "device")
    || list_eq ◌==◌ name (codes "mssim")
    || list_eq ◌==◌ name (codes "swtpm")
    || list_eq ◌==◌ name (codes "tabrmd")

abbrev known_or_custom : List ℕ → List ℕ
known_or_custom name = if is_known_tcti_name name then name else codes "<custom>"

abbrev sanitized_at : Option ℕ → List ℕ → List ℕ
sanitized_at none trimmed = []
sanitized_at (some n) trimmed = if n == 0 then [] else known_or_custom (take n trimmed)

-- What the log gets of the configuration string.
unfoldable pub sanitized_tcti_name : List ℕ → List ℕ
unfolding trim find
sanitized_tcti_name config =
    let trimmed = trim config in
    if is_empty trimmed || not (length trimmed == length config)
    then []
    else sanitized_at (find 58 trimmed) trimmed
