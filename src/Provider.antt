-- ===== src/Provider.antt =====
-- src/adapters/tpm2_esys/pcr/esys_pcr_provider.cpp with pcr_logging.cpp: the PCR operations.
pub mod Session
pub mod Port
pub mod Tally
pub mod Notifies
pub mod Buffers
pub mod Answers
pub mod Guards
pub mod Reports
pub mod Told
pub mod Records
pub mod Failures
pub mod Stops
use tpmkit.Base.{
  ℕ, ◌+◌, ◌%◌, ◌^◌, Bool, true, false, not, List, [], ◌∷◌, ◌++◌, Option, none, some, ◌==◌, String,
  if◌then◌else◌, length, codes,
}
use tpmkit.Base.Decimal.{to_decimal}
use tpmkit.Outcome.{Outcome, ok, unexpected, fails, backend_error, done}
use tpmkit.Domain.Hash.{HashAlgorithm, hash_algorithm_name}
use tpmkit.Domain.Index.{Index}
use tpmkit.Domain.Values.{Bank, DigestValue, Selection, ReadResult, EventResult, AllocateResult}
use tpmkit.Logging.{
  LogRecord, field, success_record, pcr_allocate_completed, pcr_auth_policy_set, pcr_auth_value_set,
  pcr_event_completed, pcr_extend_completed, pcr_read_completed, pcr_reset_completed,
}
use tpmkit.Tss.{Tss, zero_tpm2b}
use tpmkit.Marshalling.{
  algorithm_to_tpm, pcr_handle, to_domain_digests, to_domain_read_values, to_domain_selection,
  to_tpm_allocation, to_tpm_digest_values, to_tpm_event, to_tpm_selection, to_tpm_sized_digest,
}
use tpmkit.Translation.{Codes}
use tpmkit.Validation.{
  ensure_bank_count, ensure_digest_count, ensure_esys_available, ensure_event_size,
  ensure_policy_digest_size, ensure_secure_auth_value_transport, ensure_sized_buffer_fits,
}
use Port.{Request}
use Session.{
  Call, pcr_allocate, pcr_event, pcr_extend, pcr_read, pcr_reset, pcr_set_auth_policy,
  pcr_set_auth_value, tr_set_auth, on_event, on_extend, called, logged, observed, AllocateReply,
  EventReply, ReadReply, EsysApi, Run, from, emit, ◌>>=◌, ◌>>◌, resume, buffers, release, finally,
  check_rc, Effect, Notification,
}

-- `esys_` and `observer_` count by whether they are null.
pub record Provider : Type 0 where
  pub esys : Bool
  pub observer : Bool

-- pcr_logging.cpp.
abbrev bool_text : Bool → List ℕ
bool_text true = codes "true"
bool_text false = codes "false"

unfoldable pub log_allocate_completed : Bool → ℕ → LogRecord
log_allocate_completed allocation_success bank_count = success_record pcr_allocate_completed (
    field "allocation_success" (bool_text allocation_success)
    ∷ field "bank_count" (to_decimal bank_count)
    ∷ [])

unfoldable pub log_auth_policy_set : Index → HashAlgorithm → LogRecord
log_auth_policy_set i a = success_record pcr_auth_policy_set (
    field "pcr_index" (to_decimal i.value)
    ∷ field "policy_algorithm" (codes (hash_algorithm_name a))
    ∷ [])

unfoldable pub log_auth_value_set : Index → LogRecord
log_auth_value_set i =
    success_record pcr_auth_value_set (field "pcr_index" (to_decimal i.value) ∷ [])

unfoldable pub log_event_completed : Index → ℕ → ℕ → LogRecord
log_event_completed i event_size bank_count = success_record pcr_event_completed (
    field "bank_count" (to_decimal bank_count)
    ∷ field "event_size" (to_decimal event_size)
    ∷ field "pcr_index" (to_decimal i.value)
    ∷ [])

unfoldable pub log_extend_completed : Index → ℕ → LogRecord
log_extend_completed i bank_count =
    success_record pcr_extend_completed
      (field "bank_count" (to_decimal bank_count) ∷ field "pcr_index" (to_decimal i.value) ∷ [])

unfoldable pub log_read_completed : Selection → ℕ → LogRecord
log_read_completed s value_count = success_record pcr_read_completed (
    field "bank" (codes (hash_algorithm_name s.algorithm))
    ∷ field "pcr_count" (to_decimal value_count)
    ∷ [])

unfoldable pub log_reset_completed : Index → LogRecord
log_reset_completed i =
    success_record pcr_reset_completed (field "pcr_index" (to_decimal i.value) ∷ [])

-- `if (observer_ != nullptr) observer_->...`
abbrev notify : Bool → Notification → Run (Unit {0})
notify true n = emit (observed n)
notify false n = from done

-- A pointer that must not be null.
abbrev require {ℓ} : {A : Type ℓ} → Option A → String → Outcome A
require none message = fails backend_error message
require (some a) message = ok a

-- Both pointers of a read.
abbrev require_both {ℓ κ} :
    {A : Type ℓ} {B : Type κ} → Option A → Option B → String → Outcome (A × B)
require_both (some a) (some b) message = ok (a, b)
require_both (some a) none message = fails backend_error message
require_both none b message = fails backend_error message

module _ (legacy : Bool) (t : Tss) (c : Codes) (api : EsysApi) (p : Provider) where
  open t use {esys_tr_none, esys_tr_password, esys_tr_rh_platform}

  -- A call whose only answer is its return code.
  call_status : Call → Run ℕ
  call_status request h = (ok (api.status h request), h ++ (called request 0 ∷ []))

  -- A simple call and the check of its return code.
  call_checked : Call → String → Run (Unit {0})
  unfolding call_status check_rc
  call_checked request operation = do
    rc ← call_status request
    check_rc c api.decode_error rc operation

  call_allocate : Call → Run AllocateReply
  call_allocate request h = (ok (api.allocate_reply h request), h ++ (called request 0 ∷ []))

  unfoldable pub call_event : Call → Run EventReply
  call_event request h =
      let reply = api.event_reply h request in
      (ok reply, h ++ (called request (buffers reply.digests) ∷ []))

  unfoldable pub call_read : Call → Run ReadReply
  call_read request h =
      let reply = api.read_reply h request in
      (ok reply, h ++ (called request (buffers reply.selection + buffers reply.values) ∷ []))

  unfoldable pub allocate : List Bank → Run AllocateResult
  unfolding call_allocate
  allocate banks = do
    from (ensure_esys_available p.esys)
    from (ensure_bank_count t banks)
    reply ← call_allocate (
        pcr_allocate esys_tr_rh_platform esys_tr_password esys_tr_none esys_tr_none
          (to_tpm_allocation legacy t banks))
    check_rc c api.decode_error reply.rc "pcr_allocate"
    let success = not (reply.allocation_success == t.no)
    emit (logged (log_allocate_completed success (length banks)))
    from (
        ok (record {
          allocation_success = success;
          max_pcr = reply.max_pcr;
          size_needed = reply.size_needed;
          size_available = reply.size_available;
        }))

  -- `event` after the call, while the digests are held.
  unfoldable pub finish_event : Index → List ℕ → EventReply → Run EventResult
  finish_event i event_data reply = do
    check_rc c api.decode_error reply.rc "pcr_event"
    digests ← from (require reply.digests "TPM returned no PCR event digests")
    domain_digests ← from (to_domain_digests legacy t digests)
    let result : EventResult = record { digests = domain_digests }
    emit (logged (log_event_completed i (length event_data) (length domain_digests)))
    notify p.observer (on_event i event_data result)
    from (ok result)

  unfoldable pub event : Index → List ℕ → Run EventResult
  unfolding call_event finish_event
  event i event_data = do
    from (ensure_esys_available p.esys)
    from (ensure_event_size t event_data)
    reply ← call_event (
        pcr_event (pcr_handle legacy t i) esys_tr_password esys_tr_none esys_tr_none
          (to_tpm_event t event_data))
    finally (finish_event i event_data reply) (release reply.digests)

  unfoldable pub extend : Index → List DigestValue → Run (Unit {0})
  unfolding call_checked
  extend i digests = do
    from (ensure_esys_available p.esys)
    from (ensure_digest_count t digests)
    call_checked
        (pcr_extend (pcr_handle legacy t i) esys_tr_password esys_tr_none esys_tr_none
          (to_tpm_digest_values legacy t digests))
        "pcr_extend"
    emit (logged (log_extend_completed i (length digests)))
    notify p.observer (on_extend i digests)

  -- `read` after the call, while both buffers are held.
  unfoldable pub finish_read : Selection → ReadReply → Run ReadResult
  finish_read selection reply = do
    check_rc c api.decode_error reply.rc "pcr_read"
    (actual, values) ←
        from (require_both reply.selection reply.values "TPM returned incomplete PCR read response")
    domain_selection ← from (to_domain_selection legacy t actual selection.algorithm)
    domain_values ← from (to_domain_read_values legacy t values domain_selection)
    emit (logged (log_read_completed domain_selection (length domain_values)))
    from (
        ok (record {
          actual_selection = domain_selection;
          update_counter = reply.update_counter;
          values = domain_values;
        }))

  -- The buffer of the values was taken over last, so it goes first.
  unfoldable pub read : Selection → Run ReadResult
  unfolding call_read finish_read
  read selection = do
    from (ensure_esys_available p.esys)
    reply ←
        call_read
          (pcr_read esys_tr_none esys_tr_none esys_tr_none (to_tpm_selection legacy t selection))
    finally (finish_read selection reply) (release reply.values ++ release reply.selection)

  unfoldable pub reset : Index → Run (Unit {0})
  unfolding call_checked
  reset i = do
    from (ensure_esys_available p.esys)
    call_checked (pcr_reset (pcr_handle legacy t i) esys_tr_password esys_tr_none esys_tr_none)
        "pcr_reset"
    emit (logged (log_reset_completed i))

  unfoldable pub set_auth_policy : Index → HashAlgorithm → List ℕ → Run (Unit {0})
  unfolding call_checked
  set_auth_policy i policy_alg policy_digest = do
    from (ensure_esys_available p.esys)
    from (ensure_policy_digest_size legacy t policy_alg policy_digest)
    call_checked
        (pcr_set_auth_policy esys_tr_rh_platform esys_tr_password esys_tr_none esys_tr_none
          (to_tpm_sized_digest t policy_digest) (algorithm_to_tpm legacy t policy_alg)
          ((t.hr_pcr + i.value) % 2 ^ 32))
        "pcr_set_auth_policy"
    emit (logged (log_auth_policy_set i policy_alg))

  -- `auth` is the view of the secret buffer.
  unfoldable pub set_auth_value : Index → List ℕ → Run (Unit {0})
  unfolding call_checked
  set_auth_value i auth = do
    from (ensure_esys_available p.esys)
    from (ensure_sized_buffer_fits t (length auth) "PCR auth value is too large")
    from (ensure_secure_auth_value_transport auth)
    call_checked (tr_set_auth (pcr_handle legacy t i) (zero_tpm2b t.digest_buffer_size))
        "pcr_set_auth_value_set_current_auth"
    call_checked
        (pcr_set_auth_value (pcr_handle legacy t i) esys_tr_password esys_tr_none esys_tr_none
          (to_tpm_sized_digest t auth))
        "pcr_set_auth_value"
    call_checked (tr_set_auth (pcr_handle legacy t i) (zero_tpm2b t.digest_buffer_size))
        "pcr_set_auth_value_update_current_auth"
    emit (logged (log_auth_value_set i))

  -- The operations of the port (include/tpmkit/pcr/provider.h) and what each adds to the effects.
  unfoldable pub perform : Request → List Effect → List Effect
  perform (Request.allocate banks) h = (allocate banks h).1
  perform (Request.event i event_data) h = (event i event_data h).1
  perform (Request.extend i digests) h = (extend i digests h).1
  perform (Request.read selection) h = (read selection h).1
  perform (Request.reset i) h = (reset i h).1
  perform (Request.set_auth_policy i a digest) h = (set_auth_policy i a digest h).1
  perform (Request.set_auth_value i auth) h = (set_auth_value i auth h).1
