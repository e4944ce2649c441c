-- ===== src/Provider/Told.antt =====
-- What the log is to be told of a completed PCR operation, written out in full, apart from the
-- functions of pcr_logging.cpp and log_record.h that build it.
use tpmkit.Base.{ℕ, Bool, true, false, List, [], ◌∷◌, String, codes}
use tpmkit.Base.Decimal.{to_decimal}
use tpmkit.Domain.Hash.{HashAlgorithm, hash_algorithm_name}
use tpmkit.Domain.Index.{Index}
use tpmkit.Domain.Values.{Selection}
use tpmkit.Logging.{LogField, LogRecord, LogLevel, field}

-- A record at level info of an event that went well, with its own fields last.
abbrev pub told : (name message : String) → List LogField → LogRecord
told name message details = record {
  level = LogLevel.info;
  message = message;
  fields =
      field "event" (codes name)
      ∷ field "component" (codes "tpm2_esys")
      ∷ field "outcome" (codes "success")
      ∷ details;
}

abbrev truth_text : Bool → List ℕ
truth_text true = codes "true"
truth_text false = codes "false"

abbrev pub told_allocate : Bool → ℕ → LogRecord
told_allocate success banks =
    told "tpm.pcr.allocate_completed" "PCR allocation completed"
      (field "allocation_success" (truth_text success) ∷ field "bank_count" (to_decimal banks) ∷ [])

abbrev pub told_event : Index → (size banks : ℕ) → LogRecord
told_event i size banks = told "tpm.pcr.event_completed" "PCR event completed" (
    field "bank_count" (to_decimal banks)
    ∷ field "event_size" (to_decimal size)
    ∷ field "pcr_index" (to_decimal i.value)
    ∷ [])

abbrev pub told_extend : Index → ℕ → LogRecord
told_extend i banks =
    told "tpm.pcr.extend_completed" "PCR extend completed"
      (field "bank_count" (to_decimal banks) ∷ field "pcr_index" (to_decimal i.value) ∷ [])

abbrev pub told_read : Selection → ℕ → LogRecord
told_read s values = told "tpm.pcr.read_completed" "PCR read completed" (
    field "bank" (codes (hash_algorithm_name s.algorithm))
    ∷ field "pcr_count" (to_decimal values)
    ∷ [])

abbrev pub told_reset : Index → LogRecord
told_reset i =
    told "tpm.pcr.reset_completed" "PCR reset completed"
      (field "pcr_index" (to_decimal i.value) ∷ [])

abbrev pub told_auth_policy : Index → HashAlgorithm → LogRecord
told_auth_policy i a = told "tpm.pcr.auth_policy_set" "PCR authorization policy set" (
    field "pcr_index" (to_decimal i.value)
    ∷ field "policy_algorithm" (codes (hash_algorithm_name a))
    ∷ [])

abbrev pub told_auth_value : Index → LogRecord
told_auth_value i =
    told "tpm.pcr.auth_value_set" "PCR authorization value set"
      (field "pcr_index" (to_decimal i.value) ∷ [])
