-- ===== src/Context/Ownership/Loading.antt =====
-- src/adapters/tpm2_esys/context/tcti_loader.cpp: what its steps take and give back.
use tpmkit.Base.{
  ℕ, ◌+◌, ◌≤◌, ◌≡◌, refl, ap, arith, Bool, true, false, List, [], ◌∷◌, some, ◌==◌, if◌then◌else◌,
  String,
}
use tpmkit.Outcome.{done}
use tpmkit.Translation.{Codes, Decoder}
use tpmkit.TctiConfig.{sanitized_tcti_name, validate_string}
use tpmkit.Context.{
  translate, check, check_known, release_failed, take_storage, allocate_tcti_loader_context,
  start_loader, load_tcti, resolve_tcti,
}
use tpmkit.Context.Session.{
  Logger, Effect, info_freed, size_asked, storage_taken, loader_finalized, storage_freed,
  ContextApi, from, emit,
}
use tpmkit.Context.Holdings.{
  Held, nothing, one_info, one_tcti, ◌⊕◌, held, Leaves, Even, bind-Leaves, from-Even, Effect-Leaves,
  GivesBack, guarded-Leaves,
}
use tpmkit.Context.Ownership.Steps.{
  log_tcti_event-Leaves, emit-Leaves, logging-Even, branch-Leaves, fails-Leaves, finalize_one,
  finalize-free_one, announce-Even,
}

module _ (c : Codes) (api : ContextApi) where
  pub translate-Even :
      {room : ℕ} (log : Logger) (decoder : Decoder) (rc : ℕ) (operation : String)
      → Even room (translate c api log decoder rc operation)
  unfolding translate
  translate-Even log decoder rc operation = logging-Even log _ _

  check-Even :
      {room : ℕ} (log : Logger) (decoder : Decoder) (rc : ℕ) (operation : String)
      → Even room (check c api log decoder rc operation)
  unfolding check from
  check-Even log decoder rc operation =
      branch-Leaves (λ h. rc == c.rc_success) (from-Even done)
        (translate-Even log decoder rc operation)

  check_known-Even : {room : ℕ} (log : Logger) (rc : ℕ) → Even room (check_known c api log rc)
  unfolding check_known translate from
  check_known-Even log rc =
      branch-Leaves (λ h. rc == c.rc_success) (from-Even done) (logging-Even log _ _)

  release_failed-GivesBack : (h : List Effect) → GivesBack 0 1 one_tcti (release_failed c api h)
  unfolding release_failed
  release_failed-GivesBack h = record {
    gives = λ base o. (omega arith, freed_lem (api.cleared h) base o);
  }
    where
      freed_lem :
          (cleared : Bool) (base : Held)
          → base.esyss + 0 ≤ base.tctis
          → held
              (some (base ⊕ one_tcti))
              (loader_finalized cleared ∷ (if cleared then [] else storage_freed ∷ []))
            ≡ some base
      freed_lem true base o = ap (λ k. held k []) (finalize_one base o)
      freed_lem false base o = finalize-free_one base o

  take_storage-Leaves :
      {room : ℕ} (size : ℕ) → Leaves room nothing (λ _. one_tcti) (take_storage c api size)
  unfolding take_storage emit from
  take_storage-Leaves size =
      branch-Leaves (λ h. api.storage h size)
        (emit-Leaves (storage_taken size) (λ base o. ground arith)) (fails-Leaves _)

  allocate-Leaves :
      {room : ℕ} (log : Logger)
      → Leaves room nothing (λ _. one_tcti) (allocate_tcti_loader_context c api log)
  unfolding allocate_tcti_loader_context
  allocate-Leaves log =
      bind-Leaves (Effect-Leaves size_asked api.size_reply (λ _ base o. refl)) (λ (rc, size).
        bind-Leaves (check-Even log api.loader_decoder rc "tcti_init")
          (λ _. bind-Leaves (from-Even _) (λ _. take_storage-Leaves size)))

  start_loader-Even :
      {room : ℕ} (log : Logger) (config : List ℕ) → Even room (start_loader c api log config)
  unfolding start_loader
  start_loader-Even log config =
      bind-Leaves (Effect-Leaves _ _ (λ _ base o. refl))
        (λ rc. check-Even log api.loader_decoder rc "tcti_init")

  -- On every path and for every answer of the loader, the load of a TCTI gives the description
  -- back that it asks for and leaves one TCTI context held when it returns a value; when it fails
  -- it leaves no TCTI context, nor the storage of one that the loader has finalized without
  -- clearing the pointer. This is on top of whatever else is held, if that is no more ESYS contexts
  -- than TCTI contexts.
  pub load_tcti-Leaves :
      (config : List ℕ) (log : Logger)
      → Leaves 0 nothing (λ _. one_tcti) (load_tcti c api config log)
  unfolding load_tcti
  load_tcti-Leaves config log = bind-Leaves (from-Even (validate_string config)) (λ validated.
      bind-Leaves {mid = λ _. one_info} (Effect-Leaves _ _ (λ _ base o. ground arith)) (λ rc.
        bind-Leaves {mid = λ _. nothing} (emit-Leaves info_freed (λ base o. ground arith)) (λ _.
          bind-Leaves (check_known-Even log rc) (λ _. bind-Leaves (allocate-Leaves log) (λ _.
            guarded-Leaves {taken = λ _. nothing} one_tcti (release_failed c api)
              release_failed-GivesBack (start_loader-Even log validated))))))

  pub resolve_tcti-Leaves :
      (config : List ℕ) (log : Logger)
      → Leaves 0 nothing (λ _. one_tcti) (resolve_tcti c api config log)
  unfolding resolve_tcti
  resolve_tcti-Leaves config log =
      bind-Leaves (announce-Even log (sanitized_tcti_name config))
        (λ _. bind-Leaves (load_tcti-Leaves config log) (λ _. log_tcti_event-Leaves log _ _ _))
