-- ===== src/Provider/Session.antt =====
-- The surroundings of src/adapters/tpm2_esys/pcr/esys_pcr_provider.cpp: the function table of
-- src/adapters/tpm2_esys/support/esys_api.h, the log, the observer of
-- include/tpmkit/pcr/observer.h and the buffers that the TSS hands out. What happens is a list
-- of effects, oldest first; the TSS answers by that list, so that it may keep any state.
use tpmkit.Base.{ℕ, true, List, [], ◌∷◌, ◌++◌, Option, none, some, ◌==◌, String, if◌then◌else◌, map}
use tpmkit.Outcome.{done}
use tpmkit.Domain.Index.{Index}
use tpmkit.Domain.Values.{DigestValue, EventResult}
use tpmkit.Logging.{LogRecord, pcr_tss_error}
use tpmkit.Tss.{TpmlPcrSelection, TpmlDigestValues, TpmlDigest, Tpm2b}
use tpmkit.Effects
unfoldable pub use tpmkit.Effects.{◌>>=◌, ◌>>◌, from, emit, finally, resume}
use tpmkit.Translation.{Codes, Decoder, translate_tss_rc}

-- The calls through the function table, with their arguments after the ESYS context.
pub data Call : Type 0 where
  pcr_allocate : ℕ → ℕ → ℕ → ℕ → TpmlPcrSelection → Call
  pcr_event : ℕ → ℕ → ℕ → ℕ → Tpm2b → Call
  pcr_extend : ℕ → ℕ → ℕ → ℕ → TpmlDigestValues → Call
  pcr_read : ℕ → ℕ → ℕ → TpmlPcrSelection → Call
  pcr_reset : ℕ → ℕ → ℕ → ℕ → Call
  pcr_set_auth_policy : ℕ → ℕ → ℕ → ℕ → Tpm2b → ℕ → ℕ → Call
  pcr_set_auth_value : ℕ → ℕ → ℕ → ℕ → Tpm2b → Call
  tr_set_auth : ℕ → Tpm2b → Call

-- The two notifications of `pcr::observer`.
pub data Notification : Type 0 where
  on_event : Index → List ℕ → EventResult → Notification
  on_extend : Index → List DigestValue → Notification

-- `called c n`: the call `c` was made and handed out `n` buffers. `freed`: one was given back.
pub data Effect : Type 0 where
  called : Call → ℕ → Effect
  logged : LogRecord → Effect
  observed : Notification → Effect
  freed : Effect

pub record AllocateReply : Type 0 where
  pub rc : ℕ
  pub allocation_success : ℕ
  pub max_pcr : ℕ
  pub size_needed : ℕ
  pub size_available : ℕ

-- The values of the out parameters after the call; `none` is a null pointer.
pub record EventReply : Type 0 where
  pub rc : ℕ
  pub digests : Option TpmlDigestValues

pub record ReadReply : Type 0 where
  pub rc : ℕ
  pub update_counter : ℕ
  pub selection : Option TpmlPcrSelection
  pub values : Option TpmlDigest

-- The TSS: its answer to a call, given all that happened before.
pub record EsysApi : Type 0 where
  pub allocate_reply : List Effect → Call → AllocateReply
  pub event_reply : List Effect → Call → EventReply
  pub read_reply : List Effect → Call → ReadReply
  -- The return code of the calls without out parameters.
  pub status : List Effect → Call → ℕ
  pub decode_error : Decoder

-- A member function of the provider.
abbrev pub Run : Type 0 → Type 0
Run A = Effects.Run Effect A

-- The `unique_ptr` of a TSS buffer gives it back when the function ends, if it is not null.
abbrev pub buffers {ℓ} : {A : Type ℓ} → Option A → ℕ
buffers none = 0
buffers (some a) = 1

abbrev pub release {ℓ} : {A : Type ℓ} → Option A → List Effect
release none = []
release (some a) = freed ∷ []

-- `if (rc != TSS2_RC_SUCCESS) { return tl::unexpected(translate_tss_rc(...).error()); }`
unfoldable pub check_rc : Codes → Decoder → ℕ → String → Run (Unit {0})
check_rc c decoder rc operation h =
    if rc == c.rc_success
    then (done, h)
    else (let (r, records) = translate_tss_rc c rc operation true pcr_tss_error decoder in
        (r, h ++ map logged records))
