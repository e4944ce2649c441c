-- ===== src/Context.antt =====
-- src/adapters/tpm2_esys/context/tcti_loader.cpp and tpm_context.cpp: the life of a TPM context.
pub mod Session
pub mod Loading
pub mod Holdings
pub mod Ownership
pub mod Lifetime
pub mod Startup
pub mod Failures
pub mod Version
pub mod Undefined
use tpmkit.Base.{
  ℕ, Bool, true, false, not, ◌&&◌, List, [], ◌∷◌, ◌++◌, Option, none, some, String, codes, ◌==◌,
  if◌then◌else◌,
}
use tpmkit.Base.Decimal.{to_decimal}
use tpmkit.Outcome.{Outcome, ok, Done, done, fails, input_error, resource_error}
use tpmkit.Logging.{
  field, tcti_configuring, tcti_configured, esys_initialized, startup_invoked, startup_completed,
  finalized,
}
use tpmkit.Translation.{Codes}
use tpmkit.Provider.{Provider}
use Session.{
  StartupMode, clear, state, skip, unlisted, Source, loaded, owned, Logger, given, noop, AbiVersion,
  Effect, tcti_closed, esys_opened, startup_called, esys_finalized, null_call, ContextApi, Run, ask,
  guarded, from, ◌>>=◌, ◌>>◌,
}
unfoldable pub use Loading.{
  succeed, log_tcti_event, announce, translate, check, check_known, release_failed, take_storage,
  allocate_tcti_loader_context, start_loader, load_tcti, resolve_tcti,
}

-- `tpm_context_config`; `log` says whether the pointer is not null.
pub record ContextConfig : Type 0 where
  pub tcti : List ℕ
  pub startup : StartupMode
  pub log : Bool

-- `tpm_context::impl`: where the TCTI is from, whether `esys_` is not null, and the logger.
pub record ContextImpl : Type 0 where
  pub source : Source
  pub esys : Bool
  pub log : Logger

-- `tpm_context`; `none` after a move from it.
abbrev pub Context : Type 0
Context = Option ContextImpl

unfoldable pub effective_logger : Bool → Logger
effective_logger true = given
effective_logger false = noop

unfoldable pub startup_mode_name : StartupMode → String
startup_mode_name clear = "clear"
startup_mode_name state = "state"
startup_mode_name skip = "skip"
startup_mode_name (unlisted n) = "unknown"

unfoldable pub is_valid_startup_mode : StartupMode → Bool
is_valid_startup_mode clear = true
is_valid_startup_mode state = true
is_valid_startup_mode skip = true
is_valid_startup_mode (unlisted n) = false

-- `validate_config` of tpm_context.cpp.
unfoldable pub validate_startup : StartupMode → Done
unfolding is_valid_startup_mode
validate_startup mode =
    if not (is_valid_startup_mode mode)
    then fails input_error "TPM startup mode is invalid"
    else done

unfoldable pub abi_version_string : AbiVersion → List ℕ
abi_version_string v =
    to_decimal v.creator
    ++ ((46 ∷ to_decimal v.family) ++ ((46 ∷ to_decimal v.level) ++ (46 ∷ to_decimal v.version)))

-- The destructor of `impl`, with those of its members in their order.
unfoldable pub close_esys : Bool → List Effect
close_esys true = esys_finalized ∷ []
close_esys false = []

unfoldable pub destroy : Context → Run (Unit {0})
unfolding succeed close_esys
destroy none h = (done, h)
destroy (some impl) h =
    let (r, h') = succeed impl.log finalized [] h in
    (r, h' ++ (close_esys impl.esys ++ (tcti_closed impl.source ∷ [])))

unfoldable pub completed : Logger → StartupMode → String → Run (Unit {0})
unfolding succeed startup_mode_name
completed log mode result =
    succeed log startup_completed
      (field "startup_mode" (codes (startup_mode_name mode)) ∷ field "result" (codes result) ∷ [])

abbrev pub is_skip : StartupMode → Bool
is_skip clear = false
is_skip state = false
is_skip skip = true
is_skip (unlisted n) = false

-- The end of an owned handle that was not passed on: handle and deleter, whether not null.
unfoldable pub drop_owned : Bool → Bool → List Effect
drop_owned false deleter = []
drop_owned true true = tcti_closed owned ∷ []
drop_owned true false = null_call ∷ []

-- The checks of `create_context_from_owned_tcti`; without a deleter the handle is let go.
unfoldable pub check_owned : Bool → Bool → StartupMode → Run (Unit {0})
unfolding is_valid_startup_mode drop_owned
check_owned handle deleter mode h =
    if not (is_valid_startup_mode mode)
    then (fails input_error "TPM startup mode is invalid", h ++ drop_owned handle deleter)
    else if not handle
    then (fails input_error "TCTI owned handle must not be null", h)
    else if not deleter
    then (fails input_error "TCTI owned handle deleter must not be null", h)
    else (done, h)

module _ (c : Codes) (api : ContextApi) where
  -- A context is taken over only after success; the out parameter may still be null.
  unfoldable pub open_esys : Run (ℕ × Bool × AbiVersion)
  open_esys h =
      let rc = api.open_rc h in
      let handle = if rc == c.rc_success then api.open_handle h else false in
      (ok (rc, handle, api.open_abi h), h ++ (esys_opened handle ∷ []))

  unfoldable pub initialize_esys : Logger → Run Bool
  unfolding open_esys check succeed
  initialize_esys log = do
    (rc, handle, version) ← open_esys
    check c api log api.decode_error rc "esys_initialize"
    succeed log esys_initialized (field "abi_version" (abi_version_string version) ∷ [])
    from (ok handle)

  unfoldable pub is_startup_already_initialized : ℕ → Bool
  is_startup_already_initialized rc = rc == c.rc_initialize

  unfoldable pub startup_result_field : ℕ → String
  unfolding is_startup_already_initialized
  startup_result_field rc =
      if is_startup_already_initialized rc then "already_initialized" else "ok"

  unfoldable pub startup_type : StartupMode → ℕ
  startup_type clear = api.su_clear
  startup_type state = api.su_state
  startup_type skip = api.su_clear
  startup_type (unlisted n) = api.su_clear

  -- The part of `start_tpm` that calls the TPM.
  unfoldable pub call_startup : StartupMode → Logger → Run (Unit {0})
  unfolding is_startup_already_initialized startup_result_field startup_type completed translate
  call_startup mode log = do
    rc ← ask (startup_called (startup_type mode)) (api.startup_rc (startup_type mode))
    if not (rc == c.rc_success) && not (is_startup_already_initialized rc)
        then translate c api log api.decode_error rc "esys_startup"
        else completed log mode (startup_result_field rc)

  unfoldable pub start_tpm : StartupMode → Logger → Run (Unit {0})
  unfolding succeed startup_mode_name completed call_startup
  start_tpm mode log = do
    succeed log startup_invoked (field "startup_mode" (codes (startup_mode_name mode)) ∷ [])
    if is_skip mode then completed log mode "skipped" else call_startup mode log

  -- `create_from_resolved_tcti` after `initialize_esys`, up to the `impl`: `esys` is closed if the
  -- startup fails.
  unfoldable pub finish_create : Source → StartupMode → Logger → Bool → Run ContextImpl
  unfolding start_tpm close_esys
  finish_create source mode log esys = do
    guarded (start_tpm mode log) (λ h. close_esys esys)
    from (ok (record { source = source; esys = esys; log = log }))

  -- The TCTI is an argument, so it is closed after all else if this fails.
  unfoldable pub create_from_resolved_tcti : Source → StartupMode → Logger → Run Context
  unfolding initialize_esys finish_create
  create_from_resolved_tcti source mode log = do
    impl ←
        guarded (initialize_esys log >>= finish_create source mode log)
          (λ h. tcti_closed source ∷ [])
    from (ok (some impl))

  unfoldable pub create_context_from_config : ContextConfig → Run Context
  unfolding validate_startup effective_logger resolve_tcti create_from_resolved_tcti
  create_context_from_config config = do
    from (validate_startup config.startup)
    resolve_tcti c api config.tcti (effective_logger config.log)
    create_from_resolved_tcti loaded config.startup (effective_logger config.log)

  unfoldable pub create_context_from_owned_tcti : Bool → Bool → StartupMode → Bool → Run Context
  unfolding check_owned effective_logger log_tcti_event create_from_resolved_tcti
  create_context_from_owned_tcti handle deleter mode log = do
    check_owned handle deleter mode
    log_tcti_event (effective_logger log) tcti_configuring (codes "owned_handle") (codes "<owned>")
    log_tcti_event (effective_logger log) tcti_configured (codes "owned_handle") (codes "<owned>")
    create_from_resolved_tcti owned mode (effective_logger log)

  -- `tpm_context::create` with a string.
  unfoldable pub create : List ℕ → StartupMode → Bool → Run Context
  unfolding create_context_from_config
  create tcti startup log =
      create_context_from_config (record { tcti = tcti; startup = startup; log = log })

  -- `tpm2_esys::create_context`
  unfoldable pub create_context : Bool → Bool → StartupMode → Bool → Run Context
  unfolding create_context_from_owned_tcti
  create_context handle deleter startup log =
      create_context_from_owned_tcti handle deleter startup log

-- The provider stands on the context's ESYS context.
unfoldable pub create_pcr_provider : Context → Bool → Outcome Provider
create_pcr_provider none observer =
    fails resource_error "TPM context does not contain a usable backend"
create_pcr_provider (some impl) observer =
    if not impl.esys
    then fails resource_error "TPM context does not contain a usable backend"
    else ok (record { esys = impl.esys; observer = observer })
