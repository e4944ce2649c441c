-- ===== src/Context/Startup.antt =====
-- src/adapters/tpm2_esys/context/tpm_context.cpp: which answers of the TPM a startup accepts.
use tpmkit.Base.{
  ℕ, ◌≡◌, refl, ap, sym, ◌∙◌, true, false, ◌||◌, inl, inr, List, [], ◌∷◌, ◌++◌, append-nil, String,
  codes, ◌==◌, if◌then◌else◌, Bool-cases,
}
use tpmkit.Outcome.{Done, done, fails}
use tpmkit.Logging.{
  LogRecord, LogField, EventDescriptor, startup_completed, tss_error, startup_invoked, field,
  success_record,
}
use tpmkit.Translation.{Codes, translate_tss_rc, translated_category, mapped_message}
use tpmkit.Effects.Tally.{tally, tally-append}
use tpmkit.Context.{
  startup_result_field, is_startup_already_initialized, startup_type, startup_mode_name, succeed,
  translate, completed, call_startup, is_skip, start_tpm,
}
use tpmkit.Context.Session.{
  StartupMode, Logger, given, noop, Effect, info_asked, info_freed, size_asked, storage_taken,
  tcti_started, loader_finalized, storage_freed, tcti_closed, tcti_given, esys_opened,
  startup_called, esys_finalized, null_call, logged, ContextApi, ask, delivered, ◌>>=◌,
}

abbrev start_records : StartupMode → List LogRecord
start_records mode =
    success_record startup_invoked (field "startup_mode" (codes (startup_mode_name mode)) ∷ []) ∷ []

-- What has happened when the TPM is called.
abbrev pub invoked : Logger → StartupMode → List Effect → List Effect
invoked log mode h = h ++ delivered log (start_records mode)

-- The startups that the TPM is asked for.
abbrev asked_of : Effect → List ℕ
asked_of (info_asked name) = []
asked_of info_freed = []
asked_of size_asked = []
asked_of (storage_taken size) = []
asked_of (tcti_started config) = []
asked_of (loader_finalized cleared) = []
asked_of storage_freed = []
asked_of (tcti_closed source) = []
asked_of tcti_given = []
asked_of (esys_opened handle) = []
asked_of (startup_called mode) = mode ∷ []
asked_of esys_finalized = []
asked_of null_call = []
asked_of (logged r) = []

abbrev pub startups : List Effect → List ℕ
startups = tally asked_of

startups-delivered :
    (h : List Effect) (log : Logger) (rs : List LogRecord)
    → startups (h ++ delivered log rs) ≡ startups h
startups-delivered h log rs =
    tally-append asked_of h (delivered log rs)
    ∙ ap (◌++◌ (startups h)) (none_asked log rs)
    ∙ append-nil (startups h)
  where
    none_asked : (log : Logger) (rs : List LogRecord) → startups (delivered log rs) ≡ []
    none_asked noop rs = refl
    none_asked given [] = refl
    none_asked given (r ∷ rs) = none_asked given rs

succeed_unasked :
    (log : Logger) (event : EventDescriptor) (fields : List LogField) (h : List Effect)
    → startups (succeed log event fields h).1 ≡ startups h
unfolding succeed
succeed_unasked log event fields h = startups-delivered h log (success_record event fields ∷ [])

completed_unasked :
    (log : Logger) (mode : StartupMode) (result : String) (h : List Effect)
    → startups (completed log mode result h).1 ≡ startups h
unfolding completed
completed_unasked log mode result h = succeed_unasked log startup_completed _ h

module _ (c : Codes) (api : ContextApi) where
  translate_unasked :
      (log : Logger) (rc : ℕ) (h : List Effect)
      → startups (translate c api log api.decode_error rc "esys_startup" h).1 ≡ startups h
  unfolding translate
  translate_unasked log rc h =
      startups-delivered h log
        (translate_tss_rc c rc "esys_startup" true tss_error api.decode_error).1

  -- The answer of the TPM, as an outcome.
  abbrev pub verdict : ℕ → Done
  verdict rc =
      if rc == c.rc_success || rc == c.rc_initialize
      then done
      else fails (translated_category c rc) (mapped_message (translated_category c rc))

  translated :
      (rc : ℕ)
      → rc == c.rc_success ≡ false
      → (translate_tss_rc c rc "esys_startup" true tss_error api.decode_error).0
        ≡ fails (translated_category c rc) (mapped_message (translated_category c rc))
  unfolding translate_tss_rc
  translated rc bad = rw bad refl

  call_startup_lem :
      (mode : StartupMode) (log : Logger) (h : List Effect)
      → ((call_startup c api mode log h).0 ≡ verdict (api.startup_rc (startup_type c api mode) h))
        × (startups (call_startup c api mode log h).1
            ≡ startups h ++ (startup_type c api mode ∷ []))
  unfolding call_startup translate startup_result_field is_startup_already_initialized ask ◌>>=◌
  call_startup_lem mode log h =
      let rc = api.startup_rc (startup_type c api mode) h in
      let h' = h ++ (startup_called (startup_type c api mode) ∷ []) in
      let calls = tally-append asked_of h (startup_called (startup_type c api mode) ∷ []) in
      elim (Bool-cases (rc == c.rc_success)) [
        | inl good ↦
            rw good (refl, completed_unasked log mode (startup_result_field c api rc) h' ∙ calls)
        | inr bad ↦ elim (Bool-cases (rc == c.rc_initialize)) [
          | inl twice ↦
              rw (bad, twice) (refl, completed_unasked log mode "already_initialized" h' ∙ calls)
          | inr other ↦ rw (bad, other) (translated rc bad, translate_unasked log rc h' ∙ calls)
        ]
      ]

  -- A startup that is skipped asks the TPM for nothing and succeeds; any other asks it once, for
  -- the type of the mode, and succeeds exactly when the TPM answers with success or that it is
  -- already started; otherwise it fails with the translated error of the answer.
  pub start_tpm_lem :
      (mode : StartupMode) (log : Logger) (h : List Effect)
      → ((start_tpm c api mode log h).0 ≡ (
          if is_skip mode
          then done
          else verdict (api.startup_rc (startup_type c api mode) (invoked log mode h))))
        × (startups (start_tpm c api mode log h).1
            ≡ startups h ++ (if is_skip mode then [] else startup_type c api mode ∷ []))
  unfolding start_tpm succeed completed ◌>>=◌
  start_tpm_lem mode log h = elim (Bool-cases (is_skip mode)) [
    | inl skips ↦ rw skips (
      refl,
      completed_unasked log mode "skipped" (invoked log mode h)
          ∙ startups-delivered h log (start_records mode)
          ∙ sym (append-nil (startups h)),
    )
    | inr calls ↦
        let (answer, asked) = call_startup_lem mode log (invoked log mode h) in
        rw calls (
          answer,
          asked
              ∙ ap (λ l. l ++ (startup_type c api mode ∷ []))
                  (startups-delivered h log (start_records mode)),
        )
  ]
