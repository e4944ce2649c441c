-- ===== src/Domain/Hash.antt =====
-- include/tpmkit/hash_algorithm.h and src/domain/hash_algorithm.cpp. The build option
-- TPMKIT_ENABLE_LEGACY_SHA1_PCR is the argument `legacy`.
use tpmkit.Base.{ℕ, ◌+◌, ◌≡◌, String, Bool, arith, if◌then◌else◌}
use tpmkit.Outcome.{Throws, returns, throws, tpmkit_error}

-- `unlisted n` is the value n + 4 of the enum's underlying type, which no enumerator has.
pub data HashAlgorithm : Type 0 where
  sha1 sha256 sha384 sha512 : HashAlgorithm
  unlisted : ℕ → HashAlgorithm

-- The value of the underlying type, by which the enum is compared and ordered.
unfoldable pub underlying : HashAlgorithm → ℕ
underlying sha1 = 0
underlying sha256 = 1
underlying sha384 = 2
underlying sha512 = 3
underlying (unlisted n) = n + 4

pub underlying-injective : (a b : HashAlgorithm) → underlying a ≡ underlying b → a ≡ b
unfolding underlying
underlying-injective a b h = ground arith

unfoldable pub hash_algorithm_name : HashAlgorithm → String
hash_algorithm_name sha1 = "sha1"
hash_algorithm_name sha256 = "sha256"
hash_algorithm_name sha384 = "sha384"
hash_algorithm_name sha512 = "sha512"
hash_algorithm_name (unlisted n) = "unknown"

unfoldable pub digest_size : Bool → HashAlgorithm → Throws ℕ
digest_size legacy sha1 =
    if legacy
    then returns 20
    else throws (tpmkit_error "SHA-1 PCR support requires TPMKIT_ENABLE_LEGACY_SHA1_PCR")
digest_size legacy sha256 = returns 32
digest_size legacy sha384 = returns 48
digest_size legacy sha512 = returns 64
digest_size legacy (unlisted n) = throws (tpmkit_error "unsupported hash algorithm")

-- The algorithms whose digests the build handles.
abbrev pub Handled : Bool → HashAlgorithm → Type 0
Handled legacy a = (n : ℕ) × (digest_size legacy a ≡ returns n)
