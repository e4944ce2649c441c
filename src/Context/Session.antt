-- ===== src/Context/Session.antt =====
-- The surroundings of src/adapters/tpm2_esys/context: what happens, as a list of effects, and the
-- TSS, which answers by that list.
use tpmkit.Base.{ℕ, Bool, List, [], ◌∷◌, ◌++◌, map}
use tpmkit.Outcome.{Outcome, ok, unexpected, raised}
use tpmkit.Logging.{LogRecord}
use tpmkit.Translation.{Decoder}
use tpmkit.Effects
unfoldable pub use tpmkit.Effects.{◌>>=◌, ◌>>◌, from, emit, finally, resume}

-- `unlisted n` is the value n + 3 of the enum's underlying type.
pub data StartupMode : Type 0 where
  clear state skip : StartupMode
  unlisted : ℕ → StartupMode

-- What closes a TCTI: the loader of the TSS, or the deleter that came with an owned handle.
pub data Source : Type 0 where
  loaded owned : Source

-- The logger of the caller, or `noop_logger`, which drops every record.
pub data Logger : Type 0 where
  given noop : Logger

pub record AbiVersion : Type 0 where
  pub creator : ℕ
  pub family : ℕ
  pub level : ℕ
  pub version : ℕ

pub data Effect : Type 0 where
  -- `get_info`, which hands out a description, and `free_info`
  info_asked : List ℕ → Effect
  info_freed : Effect
  -- `init` without a context, to ask for its size
  size_asked : Effect
  -- `calloc` gave the storage of a TCTI context
  storage_taken : ℕ → Effect
  -- `init` with a context and the configuration
  tcti_started : List ℕ → Effect
  -- `Tss2_TctiLdr_Finalize` after a failed `init`; true: it sets the pointer to null
  loader_finalized : Bool → Effect
  -- `free` of the context that it leaves
  storage_freed : Effect
  tcti_closed : Source → Effect
  -- the caller comes with a TCTI context of its own and what closes it
  tcti_given : Effect
  -- `initialize`; it says whether an ESYS context is taken over
  esys_opened : Bool → Effect
  startup_called : ℕ → Effect
  esys_finalized : Effect
  -- a call through a null function pointer, which is undefined
  null_call : Effect
  logged : LogRecord → Effect

-- `tcti_loader_api`, the entries of `esys_api` that a context needs, and the memory allocation.
pub record ContextApi : Type 0 where
  pub info_rc : List ℕ → List Effect → ℕ
  -- the return code and the size
  pub size_reply : List Effect → ℕ × ℕ
  pub storage : List Effect → ℕ → Bool
  pub init_rc : List ℕ → List Effect → ℕ
  -- `Tss2_TctiLdr_Finalize` sets the pointer to null
  pub cleared : List Effect → Bool
  pub loader_decoder : Decoder
  pub open_rc : List Effect → ℕ
  -- the out parameter is not null
  pub open_handle : List Effect → Bool
  pub open_abi : List Effect → AbiVersion
  pub startup_rc : ℕ → List Effect → ℕ
  pub decode_error : Decoder
  -- TPM2_SU_CLEAR and TPM2_SU_STATE
  pub su_clear : ℕ
  pub su_state : ℕ

abbrev pub Run : Type 0 → Type 0
Run A = Effects.Run Effect A

-- A call and its answer.
unfoldable pub ask : {A : Type 0} → Effect → (List Effect → A) → Run A
ask e reply h = (ok (reply h), h ++ (e ∷ []))

abbrev pub delivered : Logger → List LogRecord → List Effect
delivered given records = map logged records
delivered noop records = []

abbrev pub released : {A : Type 0} → Outcome A → List Effect → List Effect
released (ok a) effects = []
released (unexpected e) effects = effects
released (raised x) effects = effects

-- What a `unique_ptr` does when its scope ends, unless the scope ends in a value and has passed
-- the pointer on.
unfoldable pub guarded : {A : Type 0} → Run A → (List Effect → List Effect) → Run A
guarded m effects h = let (r, h') = m h in (r, h' ++ released r (effects h'))
