-- ===== src/Context/Loading.antt =====
-- src/adapters/tpm2_esys/context/tcti_loader.cpp, and the parts of tpm_context.cpp that log and call
-- it: the load of a TCTI.
use tpmkit.Base.{ℕ, true, List, [], ◌∷◌, ◌++◌, String, codes, ◌==◌, if◌then◌else◌}
use tpmkit.Outcome.{done, fails, input_error, resource_error, backend_error}
use tpmkit.Logging.{
  LogField, EventDescriptor, field, success_record, tcti_configuring, tcti_configured, tss_error,
}
use tpmkit.Translation.{Codes, Decoder, translate_tss_rc}
use tpmkit.TctiConfig.{is_empty, sanitized_tcti_name, tcti_name, validate_string}
use tpmkit.Context.Session.{
  Logger, Effect, info_asked, info_freed, size_asked, storage_taken, tcti_started, loader_finalized,
  storage_freed, ContextApi, Run, ask, delivered, guarded, from, emit, ◌>>=◌, ◌>>◌,
}

-- A success record to a logger that is not null.
unfoldable pub succeed : Logger → EventDescriptor → List LogField → Run (Unit {0})
succeed log event fields h = (done, h ++ delivered log (success_record event fields ∷ []))

unfoldable pub log_tcti_event : Logger → EventDescriptor → List ℕ → List ℕ → Run (Unit {0})
unfolding succeed
log_tcti_event log event kind name =
    succeed log event (field "tcti_kind" kind ∷ field "tcti_name" name ∷ [])

-- A name that is not empty is announced before the load.
unfoldable pub announce : Logger → List ℕ → Run (Unit {0})
unfolding log_tcti_event
announce log name h =
    if is_empty name then (done, h) else log_tcti_event log tcti_configuring (codes "string") name h

module _ (c : Codes) (api : ContextApi) where
  -- `translate_tss_rc(rc, operation, log, events::tss_error, decode_error)`
  unfoldable pub translate : Logger → Decoder → ℕ → String → Run (Unit {0})
  translate log decoder rc operation h =
      let (r, records) = translate_tss_rc c rc operation true tss_error decoder in
      (r, h ++ delivered log records)

  unfoldable pub check : Logger → Decoder → ℕ → String → Run (Unit {0})
  unfolding translate
  check log decoder rc operation h =
      if rc == c.rc_success then (done, h) else translate log decoder rc operation h

  -- The error of the translation is dropped for another.
  unfoldable pub check_known : Logger → ℕ → Run (Unit {0})
  unfolding translate
  check_known log rc h = if rc == c.rc_success then (done, h) else (
    fails input_error "Unknown TCTI name",
    (translate log api.loader_decoder rc "tcti_init" h).1,
  )

  -- What `release_failed_tcti_init` does.
  unfoldable pub release_failed : List Effect → List Effect
  release_failed h =
      loader_finalized (api.cleared h) ∷ (if api.cleared h then [] else storage_freed ∷ [])

  -- `std::calloc(1U, size)`
  unfoldable pub take_storage : ℕ → Run (Unit {0})
  take_storage size h =
      if api.storage h size
      then (done, h ++ (storage_taken size ∷ []))
      else (fails resource_error "TCTI loader context allocation failed", h)

  unfoldable pub allocate_tcti_loader_context : Logger → Run (Unit {0})
  unfolding check take_storage
  allocate_tcti_loader_context log = do
    (rc, size) ← ask size_asked api.size_reply
    check log api.loader_decoder rc "tcti_init"
    from (
        if size == 0 then fails backend_error "TCTI loader returned invalid context size" else done)
    take_storage size

  -- `init` with the context, which is released if it fails.
  unfoldable pub start_loader : Logger → List ℕ → Run (Unit {0})
  unfolding check
  start_loader log config = do
    rc ← ask (tcti_started config) (api.init_rc config)
    check log api.loader_decoder rc "tcti_init"

  unfoldable pub load_tcti : List ℕ → Logger → Run (Unit {0})
  unfolding check_known allocate_tcti_loader_context start_loader release_failed
  load_tcti config log = do
    validated ← from (validate_string config)
    rc ← ask (info_asked (tcti_name validated)) (api.info_rc (tcti_name validated))
    emit info_freed
    check_known log rc
    allocate_tcti_loader_context log
    guarded (start_loader log validated) release_failed

  unfoldable pub resolve_tcti : List ℕ → Logger → Run (Unit {0})
  unfolding announce load_tcti log_tcti_event
  resolve_tcti config log = do
    announce log (sanitized_tcti_name config)
    load_tcti config log
    log_tcti_event log tcti_configured (codes "string") (sanitized_tcti_name config)
