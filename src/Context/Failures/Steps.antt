-- ===== src/Context/Failures/Steps.antt =====
-- tcti_loader.cpp and tpm_context.cpp: what each step of a creation owes the log and pays.
use tpmkit.Base.{
  ℕ, ◌≡◌, refl, ap, ◌∙◌, append-nil, true, false, not, ◌&&◌, Bool, Bool-cases, inl, inr, List, [],
  ◌∷◌, ◌++◌, String, ◌==◌, if◌then◌else◌,
}
use tpmkit.Logging.{EventDescriptor}
use tpmkit.Translation.{Codes}
use tpmkit.Translation.Reports.{due_for}
use tpmkit.Effects.Owing.{Quiet, append-Quiet, owe_last}
use tpmkit.Context.Session.{StartupMode, Source, Logger, Effect, ContextApi}
use tpmkit.Context.{
  is_skip, close_esys, completed, open_esys, initialize_esys, is_startup_already_initialized,
  startup_result_field, call_startup, start_tpm, finish_create, create_from_resolved_tcti,
  log_tcti_event, announce, translate, check, check_known, release_failed, take_storage,
  allocate_tcti_loader_context, start_loader, load_tcti, resolve_tcti,
}
use tpmkit.TctiConfig.{is_empty}
use tpmkit.Context.Failures.Rules.{
  errors, error_logged, told, startup_due, failure_of, Settles, Paid, bind-Settles, from-Paid,
  succeed-Paid, plain_last, emit-Settles, fine_due, failed_due, told_nothing, ask-Settles,
  translated-Owes, translate-Owes, check-Settles, guarded-Settles,
}

module _ (c : Codes) (api : ContextApi) (log : Logger) where
  pub log_tcti_event-Paid :
      (event : EventDescriptor) (kind name : List ℕ)
      → Paid c api log (log_tcti_event log event kind name)
  unfolding log_tcti_event
  log_tcti_event-Paid event kind name = succeed-Paid c api log event _

  announce-Paid : (name : List ℕ) → Paid c api log (announce log name)
  unfolding announce
  announce-Paid name = record {
    settles = λ h now. elim (Bool-cases (is_empty name)) [
      | inl nothing ↦ rw nothing now
      | inr something ↦ rw something ((log_tcti_event-Paid _ _ name).settles h now)
    ];
  }

  check_known-Settles :
      (rc : ℕ)
      → Settles c api log (told c api log (due_for c rc)) (λ _. []) (check_known c api log rc)
  unfolding check_known check
  check_known-Settles rc = record {
    settles = λ h now. elim (Bool-cases (rc == c.rc_success)) [
      | inl fine ↦ rw fine (now ∙ ap (◌++◌ (errors h)) (fine_due c api log rc fine))
      | inr failed ↦ rw failed (
          translated-Owes c api log api.loader_decoder rc "tcti_init" h failed
            (now ∙ ap (◌++◌ (errors h)) (failed_due c api log rc failed)))
    ];
  }

  take_storage-Paid : (size : ℕ) → Paid c api log (take_storage c api size)
  unfolding take_storage
  take_storage-Paid size = record {
    settles = λ h now. elim (Bool-cases (api.storage h size)) [
      | inl granted ↦ rw granted (plain_last c api log _ refl (λ h. refl) h now)
      | inr refused ↦ rw refused now
    ];
  }

  allocate_tcti_loader_context-Paid : Paid c api log (allocate_tcti_loader_context c api log)
  unfolding allocate_tcti_loader_context
  allocate_tcti_loader_context-Paid =
      bind-Settles c api log (ask-Settles c api log _ _ (λ r. due_for c r.0) refl λ h. refl) λ r.
        bind-Settles c api log (check-Settles c api log _ _ _)
          λ _. bind-Settles c api log (from-Paid c api log _) λ _. take_storage-Paid _

  release_failed-Quiet :
      (h : List Effect) → Quiet error_logged (failure_of c api log) (release_failed c api h)
  unfolding release_failed
  release_failed-Quiet h = elim (Bool-cases (api.cleared h)) [
    | inl cleared ↦ rw cleared (plain_last c api log _ refl λ h. refl)
    | inr kept ↦ rw kept (
        append-Quiet error_logged (failure_of c api log) (_ ∷ []) (_ ∷ [])
          (plain_last c api log _ refl λ h. refl) (plain_last c api log _ refl λ h. refl))
  ]

  start_loader-Paid : (config : List ℕ) → Paid c api log (start_loader c api log config)
  unfolding start_loader
  start_loader-Paid config =
      bind-Settles c api log (ask-Settles c api log _ _ (due_for c) refl λ h. refl)
        λ rc. check-Settles c api log _ _ _

  load_tcti-Paid : (config : List ℕ) → Paid c api log (load_tcti c api config log)
  unfolding load_tcti
  load_tcti-Paid config = bind-Settles c api log (from-Paid c api log _) λ validated.
      bind-Settles c api log (ask-Settles c api log _ _ (due_for c) refl λ h. refl) λ rc.
        bind-Settles c api log
          (emit-Settles c api log _ (told c api log (due_for c rc)) refl λ h. refl)
          λ _. bind-Settles c api log (check_known-Settles rc) λ _.
            bind-Settles c api log allocate_tcti_loader_context-Paid
              λ _. guarded-Settles c api log _ release_failed-Quiet (start_loader-Paid validated)

  pub resolve_tcti-Paid : (config : List ℕ) → Paid c api log (resolve_tcti c api config log)
  unfolding resolve_tcti
  resolve_tcti-Paid config =
      bind-Settles c api log (announce-Paid _)
        λ _. bind-Settles c api log (load_tcti-Paid config) λ _. log_tcti_event-Paid _ _ _

  open_esys-Settles : Settles c api log [] (λ r. told c api log (due_for c r.0)) (open_esys c api)
  unfolding open_esys
  open_esys-Settles = record {
    settles = λ h now. owe_last error_logged (failure_of c api log) h _ refl now;
  }

  initialize_esys-Paid : Paid c api log (initialize_esys c api log)
  unfolding initialize_esys
  initialize_esys-Paid = bind-Settles c api log open_esys-Settles λ r.
      bind-Settles c api log (check-Settles c api log _ _ _)
        λ _. bind-Settles c api log (succeed-Paid c api log _ _) λ _. from-Paid c api log _

  completed-Paid :
      (mode : StartupMode) (result : String) → Paid c api log (completed log mode result)
  unfolding completed
  completed-Paid mode result = succeed-Paid c api log _ _

  -- A startup that is accepted owes nothing.
  already_due :
      (rc : ℕ) → (rc == c.rc_initialize) ≡ true → told c api log (startup_due c api rc) ≡ []
  already_due rc twice =
      ap (λ b. told c api log (if b then [] else due_for c rc)) twice ∙ told_nothing c api log

  new_due :
      (rc : ℕ)
      → (rc == c.rc_initialize) ≡ false
      → told c api log (startup_due c api rc) ≡ told c api log (due_for c rc)
  new_due rc new = ap (λ b. told c api log (if b then [] else due_for c rc)) new

  good_due : (rc : ℕ) → (rc == c.rc_success) ≡ true → told c api log (startup_due c api rc) ≡ []
  good_due rc good = elim (Bool-cases (rc == c.rc_initialize)) [
    | inl twice ↦ already_due rc twice
    | inr new ↦ new_due rc new ∙ fine_due c api log rc good
  ]

  answered-Settles :
      (mode : StartupMode) (rc : ℕ)
      → Settles c api log
          (told c api log (startup_due c api rc))
          (λ _. [])
          (if not (rc == c.rc_success) && not (is_startup_already_initialized c api rc)
            then translate c api log api.decode_error rc "esys_startup"
            else completed log mode (startup_result_field c api rc))
  unfolding is_startup_already_initialized
  answered-Settles mode rc = record {
    settles = λ h now. elim (Bool-cases (rc == c.rc_success)) [
      | inl good ↦
          rw good
            ((completed-Paid mode _).settles h (now ∙ ap (◌++◌ (errors h)) (good_due rc good)))
      | inr bad ↦ elim (Bool-cases (rc == c.rc_initialize)) [
        | inl twice ↦
            rw (bad, twice)
              ((completed-Paid mode _).settles h
                (now ∙ ap (◌++◌ (errors h)) (already_due rc twice)))
        | inr other ↦
            rw (bad, other)
              (translate-Owes c api log api.decode_error rc "esys_startup" h bad
                (now ∙ ap (◌++◌ (errors h)) (new_due rc other ∙ failed_due c api log rc bad)))
      ]
    ];
  }

  call_startup-Paid : (mode : StartupMode) → Paid c api log (call_startup c api mode log)
  unfolding call_startup
  call_startup-Paid mode =
      bind-Settles c api log (ask-Settles c api log _ _ (startup_due c api) refl λ h. refl)
        λ rc. answered-Settles mode rc

  start_tpm-Paid : (mode : StartupMode) → Paid c api log (start_tpm c api mode log)
  unfolding start_tpm
  start_tpm-Paid mode = bind-Settles c api log (succeed-Paid c api log _ _) λ _. started
    where
      started :
          Paid c api log
            (if is_skip mode then completed log mode "skipped" else call_startup c api mode log)
      started = elim (Bool-cases (is_skip mode)) [
        | inl skips ↦ rw skips (completed-Paid mode "skipped")
        | inr calls ↦ rw calls (call_startup-Paid mode)
      ]

  close_esys-Quiet : (esys : Bool) → Quiet error_logged (failure_of c api log) (close_esys esys)
  unfolding close_esys
  close_esys-Quiet true h now = plain_last c api log _ refl (λ h. refl) h now
  close_esys-Quiet false h now = rw (append-nil h) now

  finish_create-Paid :
      (source : Source) (mode : StartupMode) (esys : Bool)
      → Paid c api log (finish_create c api source mode log esys)
  unfolding finish_create
  finish_create-Paid source mode esys =
      bind-Settles c api log
        (guarded-Settles c api log _ (λ h. close_esys-Quiet esys) (start_tpm-Paid mode))
        λ _. from-Paid c api log _

  pub create_from_resolved_tcti-Paid :
      (source : Source) (mode : StartupMode)
      → Paid c api log (create_from_resolved_tcti c api source mode log)
  unfolding create_from_resolved_tcti
  create_from_resolved_tcti-Paid source mode =
      bind-Settles c api log
        (guarded-Settles c api log _ (λ h. plain_last c api log _ refl λ h. refl)
          (bind-Settles c api log initialize_esys-Paid (finish_create-Paid source mode)))
        λ _. from-Paid c api log _
