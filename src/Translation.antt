-- ===== src/Translation.antt =====
-- src/adapters/tpm2_esys/support/error_translation.cpp: TSS return codes to domain errors. The
-- codes of the TSS headers are the fields of a parameter, `Codes`.
pub mod Laws
pub mod Reports
pub mod Layout
pub mod Documented
pub mod Places
pub mod Table
pub mod Expected
use tpmkit.Base.{
  ℕ, Bool, true, false, ◌&&◌, List, [], ◌∷◌, String, Option, none, some, ltb, leb, ◌==◌,
  if◌then◌else◌, bit_and, bit_or, codes, map, take,
}
use tpmkit.Base.Decimal.{to_hex8}
use tpmkit.Outcome.{
  ErrorCategory, input_error, security_failure, resource_error, backend_error, unlisted, Done, done,
  fails,
}
use tpmkit.Logging.{LogField, LogRecord, EventDescriptor, field, failure_record}

pub record Codes : Type 0 where
  pub rc_success : ℕ
  pub layer_mask : ℕ
  pub tpm_layer : ℕ
  pub tcti_layer : ℕ
  pub esapi_layer : ℕ
  pub sys_layer : ℕ
  pub mu_layer : ℕ
  pub rc_fmt1 : ℕ
  -- TPM2_RC_*
  pub rc_auth_fail : ℕ
  pub rc_bad_auth : ℕ
  pub rc_hash : ℕ
  pub rc_handle : ℕ
  pub rc_locality : ℕ
  pub rc_lockout : ℕ
  pub rc_memory : ℕ
  pub rc_policy_fail : ℕ
  pub rc_range : ℕ
  pub rc_size : ℕ
  pub rc_value : ℕ
  pub rc_initialize : ℕ
  -- TSS2_BASE_RC_*
  pub general_failure : ℕ
  pub not_implemented : ℕ
  pub abi_mismatch : ℕ
  pub bad_reference : ℕ
  pub insufficient_buffer : ℕ
  pub bad_sequence : ℕ
  pub invalid_sessions : ℕ
  pub try_again : ℕ
  pub io_error : ℕ
  pub bad_value : ℕ
  pub no_decrypt_param : ℕ
  pub no_encrypt_param : ℕ
  pub bad_size : ℕ
  pub malformed_response : ℕ
  pub insufficient_context : ℕ
  pub insufficient_response : ℕ
  pub incompatible_tcti : ℕ
  pub bad_tcti_structure : ℕ
  pub memory : ℕ
  pub bad_tr : ℕ
  pub multiple_decrypt_sessions : ℕ
  pub multiple_encrypt_sessions : ℕ
  pub not_supported : ℕ
  pub rsp_auth_failed : ℕ
  pub callback_null : ℕ
  pub bad_context : ℕ
  pub no_connection : ℕ
  pub not_permitted : ℕ

-- The message that goes with each category (`mapped_error`).
abbrev pub mapped_message : ErrorCategory → String
mapped_message input_error = "input rejected by TPM"
mapped_message security_failure = "TPM verification failed"
mapped_message resource_error = "TPM operation cannot be completed"
mapped_message backend_error = "TPM backend reported an error"
mapped_message (unlisted n) = "TPM backend reported an error"

pub record Mapping : Type 0 where
  pub layer : ℕ
  pub base : ℕ
  pub category : ErrorCategory

abbrev pub map_entry : ℕ → ℕ → ErrorCategory → Mapping
map_entry layer base category = record { layer = layer; base = base; category = category }

module _ (c : Codes) where
  open c use {tpm_layer, esapi_layer, tcti_layer}

  unfoldable pub documented_mappings : List Mapping
  documented_mappings =
      map_entry tpm_layer c.rc_auth_fail security_failure
      ∷ map_entry tpm_layer c.rc_bad_auth security_failure
      ∷ map_entry tpm_layer c.rc_hash input_error
      ∷ map_entry tpm_layer c.rc_handle input_error
      ∷ map_entry tpm_layer c.rc_locality resource_error
      ∷ map_entry tpm_layer c.rc_lockout security_failure
      ∷ map_entry tpm_layer c.rc_memory resource_error
      ∷ map_entry tpm_layer c.rc_policy_fail security_failure
      ∷ map_entry tpm_layer c.rc_range input_error
      ∷ map_entry tpm_layer c.rc_size input_error
      ∷ map_entry tpm_layer c.rc_value input_error
      ∷ map_entry esapi_layer c.general_failure backend_error
      ∷ map_entry esapi_layer c.not_implemented backend_error
      ∷ map_entry esapi_layer c.abi_mismatch backend_error
      ∷ map_entry esapi_layer c.bad_reference input_error
      ∷ map_entry esapi_layer c.insufficient_buffer input_error
      ∷ map_entry esapi_layer c.bad_sequence backend_error
      ∷ map_entry esapi_layer c.invalid_sessions input_error
      ∷ map_entry esapi_layer c.try_again resource_error
      ∷ map_entry esapi_layer c.io_error resource_error
      ∷ map_entry esapi_layer c.bad_value input_error
      ∷ map_entry esapi_layer c.no_decrypt_param input_error
      ∷ map_entry esapi_layer c.no_encrypt_param input_error
      ∷ map_entry esapi_layer c.bad_size input_error
      ∷ map_entry esapi_layer c.malformed_response backend_error
      ∷ map_entry esapi_layer c.insufficient_context backend_error
      ∷ map_entry esapi_layer c.insufficient_response backend_error
      ∷ map_entry esapi_layer c.incompatible_tcti resource_error
      ∷ map_entry esapi_layer c.bad_tcti_structure backend_error
      ∷ map_entry esapi_layer c.memory resource_error
      ∷ map_entry esapi_layer c.bad_tr input_error
      ∷ map_entry esapi_layer c.multiple_decrypt_sessions input_error
      ∷ map_entry esapi_layer c.multiple_encrypt_sessions input_error
      ∷ map_entry esapi_layer c.not_supported backend_error
      ∷ map_entry esapi_layer c.rsp_auth_failed security_failure
      ∷ map_entry esapi_layer c.callback_null backend_error
      ∷ map_entry tcti_layer c.general_failure backend_error
      ∷ map_entry tcti_layer c.not_implemented backend_error
      ∷ map_entry tcti_layer c.bad_context backend_error
      ∷ map_entry tcti_layer c.abi_mismatch backend_error
      ∷ map_entry tcti_layer c.bad_reference input_error
      ∷ map_entry tcti_layer c.insufficient_buffer input_error
      ∷ map_entry tcti_layer c.bad_sequence backend_error
      ∷ map_entry tcti_layer c.no_connection resource_error
      ∷ map_entry tcti_layer c.try_again resource_error
      ∷ map_entry tcti_layer c.io_error resource_error
      ∷ map_entry tcti_layer c.bad_value input_error
      ∷ map_entry tcti_layer c.not_permitted backend_error
      ∷ map_entry tcti_layer c.malformed_response backend_error
      ∷ map_entry tcti_layer c.not_supported backend_error
      ∷ []

  unfoldable pub rc_layer : ℕ → ℕ
  rc_layer rc = bit_and rc c.layer_mask

  unfoldable pub normalize_tpm_base : ℕ → ℕ
  normalize_tpm_base base =
      if bit_and base c.rc_fmt1 == 0 then base else bit_and base (bit_or c.rc_fmt1 0x3f)

  unfoldable pub rc_base : ℕ → ℕ → ℕ
  unfolding normalize_tpm_base
  rc_base rc layer =
      let base = bit_and rc 0xffff in if layer == c.tpm_layer then normalize_tpm_base base else base

  unfoldable pub layer_name : ℕ → String
  layer_name layer =
      if layer == c.tpm_layer
      then "tpm"
      else if layer == c.tcti_layer
      then "tcti"
      else if layer == c.esapi_layer
      then "esapi"
      else if layer == c.sys_layer
      then "sys"
      else if layer == c.mu_layer
      then "mu"
      else "unknown"

-- The loop of `translate_layer_base` over the table.
unfoldable pub find_mapping : ℕ → ℕ → List Mapping → ErrorCategory
find_mapping layer base [] = backend_error
find_mapping layer base (entry ∷ entries) =
    if (entry.layer == layer) && (entry.base == base)
    then entry.category
    else find_mapping layer base entries

unfoldable pub category_name : ErrorCategory → String
category_name input_error = "input_error"
category_name security_failure = "security_failure"
category_name resource_error = "resource_error"
category_name backend_error = "backend_error"
category_name (unlisted n) = "backend_error"

abbrev pub max_backend_error_description_size : ℕ
max_backend_error_description_size = 128

unfoldable pub is_printable_ascii : ℕ → Bool
is_printable_ascii byte = leb 0x20 byte && ltb byte 0x7f

-- A C string is the list of its bytes before the terminating zero; `none` is a null pointer.
unfoldable pub sanitized_backend_error_description : Option (List ℕ) → List ℕ
unfolding is_printable_ascii
sanitized_backend_error_description none = codes "unavailable"
sanitized_backend_error_description (some []) = codes "unavailable"
sanitized_backend_error_description (some (ch ∷ chs)) =
    map (λ b. if is_printable_ascii b then b else b'_')
      (take max_backend_error_description_size (ch ∷ chs))

-- `tss_error_decoder`, a function pointer that may be null.
abbrev pub Decoder : Type 0
Decoder = Option (ℕ → Option (List ℕ))

unfoldable pub decode_backend_error_description : ℕ → Decoder → List ℕ
unfolding sanitized_backend_error_description
decode_backend_error_description rc none = codes "unavailable"
decode_backend_error_description rc (some decoder) =
    sanitized_backend_error_description (decoder rc)

module _ (c : Codes) where
  unfoldable pub translated_category : ℕ → ErrorCategory
  unfolding rc_layer rc_base find_mapping documented_mappings
  translated_category rc =
      find_mapping (rc_layer c rc) (rc_base c rc (rc_layer c rc)) (documented_mappings c)

  -- `log_tss_error`: the records that a logger is given; `present` says that there is one.
  unfoldable pub log_tss_error :
      Bool → ℕ → ℕ → ErrorCategory → String → EventDescriptor → Decoder → List LogRecord
  unfolding decode_backend_error_description category_name layer_name failure_record
  log_tss_error false rc layer category operation error_event decoder = []
  log_tss_error true rc layer category operation error_event decoder =
      failure_record error_event (
        field "error_category" (codes (category_name category))
        ∷ field "error_code" (to_hex8 rc)
        ∷ field "backend_error_description" (decode_backend_error_description rc decoder)
        ∷ field "operation" (codes operation)
        ∷ field "tss_layer" (codes (layer_name c layer))
        ∷ [])
      ∷ []

  unfoldable pub translate_tss_rc :
      ℕ → String → Bool → EventDescriptor → Decoder → Done × List LogRecord
  unfolding log_tss_error rc_layer
  translate_tss_rc rc operation present error_event decoder =
      if rc == c.rc_success then (done, []) else (
        fails (translated_category rc) (mapped_message (translated_category rc)),
        log_tss_error present rc (rc_layer c rc) (translated_category rc) operation error_event
            decoder,
      )
