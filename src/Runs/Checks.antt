-- ===== src/Runs/Checks.antt =====
-- Runs of the checks and of the error translation.
use tpmkit.Base.{none, refl, arith, replicate, ◌≡◌, ◌↔◌, true, false, List, [], ◌∷◌}
use tpmkit.Outcome.{IsOk, returns, fails, input_error}
use tpmkit.Domain.Hash.{sha1, sha256, Handled, digest_size}
use tpmkit.Domain.Values.{Bank}
use tpmkit.Marshalling.{is_supported_algorithm}
use tpmkit.Marshalling.Algorithms.{is_supported_algorithm_iff}
use tpmkit.Logging.{pcr_tss_error}
use tpmkit.Translation.{documented_mappings, translate_tss_rc}
use tpmkit.Translation.Layout.{HasTssLayout, tpm, format_one}
use tpmkit.Translation.Table.{unique_keys}
use tpmkit.Translation.Expected.{translate_tss_rc-expected}
use tpmkit.Validation.{ensure_policy_digest_size}
use tpmkit.Validation.Laws.{ensure_policy_digest_size-IsOk}
use tpmkit.Runs.Fixtures.{tss, tss-IsTss, rcs}

abbrev two_banks : List Bank
two_banks =
    record { algorithm = sha256; digest_size = 32 }
    ∷ record { algorithm = sha1; digest_size = 20 }
    ∷ []

is_supported_algorithm_iff_example :
    (is_supported_algorithm false tss sha1 ≡ true) ↔ Handled false sha1
is_supported_algorithm_iff_example = is_supported_algorithm_iff false tss tss-IsTss sha1

ensure_policy_digest_size-IsOk_example :
    IsOk (ensure_policy_digest_size false tss sha256 (replicate 32 7))
    ↔ (digest_size false sha256 ≡ returns 32)
ensure_policy_digest_size-IsOk_example =
    ensure_policy_digest_size-IsOk false tss tss-IsTss sha256 (replicate 32 7)

keys_unique : unique_keys (documented_mappings rcs) ≡ true
unfolding documented_mappings
keys_unique = refl

rcs-HasTssLayout : HasTssLayout rcs
rcs-HasTssLayout = record {
  layer_mask_lem = refl;
  rc_fmt1_lem = refl;
  tpm_layer_lem = refl;
  esapi_layer_lem = refl;
  tcti_layer_lem = refl;
}

-- TPM2_RC_VALUE + TPM2_RC_P + TPM2_RC_3
translate_tss_rc-expected_example :
    (translate_tss_rc rcs 0x3c4 "pcr_read" true pcr_tss_error none).0
    ≡ fails input_error "input rejected by TPM"
translate_tss_rc-expected_example =
    translate_tss_rc-expected rcs-HasTssLayout tpm 0x84 0x3c4 0 "pcr_read" true pcr_tss_error none
      keys_unique (format_one 3 1 (omega arith) (omega arith) (omega arith) (omega arith))
      (λ e. absurd (omega arith))
