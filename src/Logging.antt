-- ===== src/Logging.antt =====
-- include/tpmkit/logging/logger.h, src/adapters/tpm2_esys/support/log_record.h and log_events.h:
-- the structured log port. A field's key is a text, its value a list of bytes.
use tpmkit.Base.{ℕ, List, ◌∷◌, String, codes}

-- `unlisted n` is the value n + 5 of the enum's underlying type.
pub data LogLevel : Type 0 where
  trace debug info warn error : LogLevel
  unlisted : ℕ → LogLevel

pub record LogField : Type 0 where
  pub key : String
  pub value : List ℕ

pub record LogRecord : Type 0 where
  pub level : LogLevel
  pub message : String
  pub fields : List LogField

pub record EventDescriptor : Type 0 where
  pub name : String
  pub message : String

abbrev pub field : String → List ℕ → LogField
field k v = record { key = k; value = v }

abbrev pub component_tpm2_esys : String
component_tpm2_esys = "tpm2_esys"

-- `emit_outcome_record`: the record that the logger is given.
unfoldable pub outcome_record : LogLevel → EventDescriptor → String → List LogField → LogRecord
outcome_record level event outcome fields = record {
  level = level;
  message = event.message;
  fields =
      field "event" (codes event.name)
      ∷ field "component" (codes component_tpm2_esys)
      ∷ field "outcome" (codes outcome)
      ∷ fields;
}

unfoldable pub failure_record : EventDescriptor → List LogField → LogRecord
unfolding outcome_record
failure_record event fields = outcome_record error event "failure" fields

unfoldable pub success_record : EventDescriptor → List LogField → LogRecord
unfolding outcome_record
success_record event fields = outcome_record info event "success" fields

abbrev pub esys_initialized : EventDescriptor
esys_initialized = record {
  name = "tpm.context.esys_initialized";
  message = "ESYS context initialized";
}

abbrev pub finalized : EventDescriptor
finalized = record { name = "tpm.context.finalized"; message = "TPM context finalized" }

abbrev pub pcr_allocate_completed : EventDescriptor
pcr_allocate_completed = record {
  name = "tpm.pcr.allocate_completed";
  message = "PCR allocation completed";
}

abbrev pub pcr_auth_policy_set : EventDescriptor
pcr_auth_policy_set = record {
  name = "tpm.pcr.auth_policy_set";
  message = "PCR authorization policy set";
}

abbrev pub pcr_auth_value_set : EventDescriptor
pcr_auth_value_set = record {
  name = "tpm.pcr.auth_value_set";
  message = "PCR authorization value set";
}

abbrev pub pcr_event_completed : EventDescriptor
pcr_event_completed = record { name = "tpm.pcr.event_completed"; message = "PCR event completed" }

abbrev pub pcr_extend_completed : EventDescriptor
pcr_extend_completed = record {
  name = "tpm.pcr.extend_completed";
  message = "PCR extend completed";
}

abbrev pub pcr_read_completed : EventDescriptor
pcr_read_completed = record { name = "tpm.pcr.read_completed"; message = "PCR read completed" }

abbrev pub pcr_reset_completed : EventDescriptor
pcr_reset_completed = record { name = "tpm.pcr.reset_completed"; message = "PCR reset completed" }

abbrev pub pcr_tss_error : EventDescriptor
pcr_tss_error = record { name = "tpm.pcr.tss_error"; message = "TPM backend call failed" }

abbrev pub startup_completed : EventDescriptor
startup_completed = record {
  name = "tpm.context.startup_completed";
  message = "TPM startup completed";
}

abbrev pub startup_invoked : EventDescriptor
startup_invoked = record { name = "tpm.context.startup_invoked"; message = "TPM startup invoked" }

abbrev pub tcti_configured : EventDescriptor
tcti_configured = record { name = "tpm.context.tcti_configured"; message = "TCTI configured" }

abbrev pub tcti_configuring : EventDescriptor
tcti_configuring = record { name = "tpm.context.tcti_configuring"; message = "TCTI configuring" }

abbrev pub tss_error : EventDescriptor
tss_error = record { name = "tpm.context.tss_error"; message = "TPM backend call failed" }
