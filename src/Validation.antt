-- ===== src/Validation.antt =====
-- src/adapters/tpm2_esys/pcr/pcr_validation.cpp: the checks before a TSS call.
pub mod Laws
use tpmkit.Base.{
  ℕ, Bool, true, false, not, ◌||◌, List, [], ◌∷◌, String, ltb, ◌==◌, if◌then◌else◌, length,
}
use tpmkit.Outcome.{Done, done, fails, input_error, resource_error, lift, ◌>>=◌}
use tpmkit.Domain.Hash.{HashAlgorithm, underlying, digest_size}
use tpmkit.Domain.Values.{Bank, DigestValue}
use tpmkit.Tss.{Tss}
use tpmkit.Marshalling.{is_supported_algorithm}

abbrev pub contains : HashAlgorithm → List HashAlgorithm → Bool
contains a [] = false
contains a (b ∷ bs) = underlying a == underlying b || contains a bs

-- `for (...) if (!algorithms.insert(...).second) return error`, with the set as a list.
unfoldable pub distinct_loop : String → List HashAlgorithm → List HashAlgorithm → Done
distinct_loop message seen [] = done
distinct_loop message seen (a ∷ rest) =
    let next = distinct_loop message (a ∷ seen) rest in
    if contains a seen then fails input_error message else next

abbrev pub bank_algorithms : List Bank → List HashAlgorithm
bank_algorithms [] = []
bank_algorithms (b ∷ bs) = b.algorithm ∷ bank_algorithms bs

abbrev pub digest_algorithms : List DigestValue → List HashAlgorithm
digest_algorithms [] = []
digest_algorithms (d ∷ ds) = d.algorithm ∷ digest_algorithms ds

unfoldable pub ensure_bank_count : Tss → List Bank → Done
ensure_bank_count t [] = fails input_error "PCR allocate requires at least one bank"
ensure_bank_count t (b ∷ bs) =
    if ltb t.num_pcr_banks (length (b ∷ bs))
    then fails input_error "too many PCR banks"
    else distinct_loop "duplicate PCR bank" [] (bank_algorithms (b ∷ bs))

unfoldable pub ensure_digest_count : Tss → List DigestValue → Done
ensure_digest_count t [] = fails input_error "PCR extend requires at least one digest"
ensure_digest_count t (d ∷ ds) =
    if ltb t.num_pcr_banks (length (d ∷ ds))
    then fails input_error "too many PCR digests"
    else distinct_loop "duplicate PCR digest algorithm" [] (digest_algorithms (d ∷ ds))

-- The argument says whether the pointer is not null.
unfoldable pub ensure_esys_available : Bool → Done
ensure_esys_available true = done
ensure_esys_available false = fails resource_error "ESYS PCR provider has no TPM context"

unfoldable pub ensure_event_size : Tss → List ℕ → Done
ensure_event_size t event_data =
    if ltb t.event_buffer_size (length event_data)
    then fails input_error "PCR event data is too large"
    else done

unfoldable pub ensure_sized_buffer_fits : Tss → ℕ → String → Done
ensure_sized_buffer_fits t size message =
    if ltb t.digest_buffer_size size then fails input_error message else done

unfoldable pub ensure_policy_digest_size : Bool → Tss → HashAlgorithm → List ℕ → Done
unfolding ensure_sized_buffer_fits
ensure_policy_digest_size legacy t a digest =
    if not (is_supported_algorithm legacy t a)
    then fails input_error "unsupported PCR auth policy hash algorithm"
    else lift (digest_size legacy a) >>= λ n.
        if not (length digest == n)
        then fails input_error "PCR auth policy digest has wrong size"
        else ensure_sized_buffer_fits t (length digest) "PCR auth policy digest is too large"

unfoldable pub ensure_secure_auth_value_transport : List ℕ → Done
ensure_secure_auth_value_transport [] = done
ensure_secure_auth_value_transport (b ∷ bs) =
    fails resource_error
      "secure PCR auth value transport is unavailable for non-empty authorization values"
