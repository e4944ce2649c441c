-- ===== src/Context/Ownership/Creation.antt =====
-- src/adapters/tpm2_esys/context/tpm_context.cpp: what the creation of a context takes, and what
-- its end gives back.
use tpmkit.Base.{
  ℕ, ◌+◌, ◌≤◌, ◌≡◌, refl, ap, sym, ◌∙◌, arith, Bool, true, false, List, [], ◌∷◌, ◌++◌, none, some,
  ◌==◌, if◌then◌else◌, String, not, ◌&&◌,
}
use tpmkit.Outcome.{done}
use tpmkit.Logging.{success_record, finalized}
use tpmkit.Translation.{Codes, Decoder, translate_tss_rc}
use tpmkit.Context.{
  is_valid_startup_mode, ContextConfig, Context, effective_logger, validate_startup, close_esys,
  succeed, destroy, translate, check, open_esys, initialize_esys, call_startup, is_skip, start_tpm,
  finish_create, create_from_resolved_tcti, create_context_from_config, drop_owned, check_owned,
  create_context_from_owned_tcti,
}
use tpmkit.Context.Session.{
  StartupMode, AbiVersion, Source, loaded, owned, Logger, Effect, tcti_closed, esys_opened,
  esys_finalized, ContextApi, delivered, from,
}
use tpmkit.Context.Holdings.{
  Held, nothing, one_tcti, esys_if, ◌⊕◌, held_after, held, holdings-append, Leaves, Even,
  bind-Leaves, from-Even, ok-Leaves, Effect-Leaves, delivered_lem, plus_nothing, guarded-Leaves,
  kept,
}
use tpmkit.Context.Ownership.Steps.{
  succeed-Leaves, log_tcti_event-Leaves, close_one, closed-GivesBack, esys-GivesBack, branch-Leaves,
  fails-Leaves, branched, impl_esys, context_held, completed-Even, open_one,
}
use tpmkit.Context.Ownership.Loading.{translate-Even, resolve_tcti-Leaves}

module _ (c : Codes) (api : ContextApi) where
  -- What an answer of `initialize` hands over.
  abbrev handed : ℕ × Bool × AbiVersion → Held
  handed (rc, handle, version) = if rc == c.rc_success then esys_if handle else nothing

  open_esys-Leaves : Leaves 1 nothing handed (open_esys c api)
  unfolding open_esys
  open_esys-Leaves = record {
    leaves = λ h base o e.
        holdings-append h _ (base ⊕ nothing) e
        ∙ opened (api.open_rc h == c.rc_success) (api.open_handle h) base o;
  }
    where
      opened :
          (good handle : Bool) (base : Held)
          → base.esyss + 1 ≤ base.tctis
          → held (some (base ⊕ nothing)) (esys_opened (if good then handle else false) ∷ [])
            ≡ some (base ⊕ (if good then esys_if (if good then handle else false) else nothing))
      opened true true base o = ap (λ k. held k []) (open_one base o)
      opened true false base o = refl
      opened false handle base o = refl

  translate-fails :
      (taken : Unit {0} → Held) (log : Logger) (decoder : Decoder) (rc : ℕ) (operation : String)
      (h : List Effect)
      → rc == c.rc_success ≡ false
      → kept taken (translate c api log decoder rc operation h).0 ≡ nothing
  unfolding translate translate_tss_rc
  translate-fails taken log decoder rc operation h bad = rw bad refl

  -- Only an answer that hands over nothing is an error.
  checked-Leaves :
      {room : ℕ} (log : Logger) (decoder : Decoder) (operation : String)
      (reply : ℕ × Bool × AbiVersion)
      → Leaves room
          (handed reply)
          (λ _. esys_if reply.1)
          (check c api log decoder reply.0 operation)
  unfolding check translate
  checked-Leaves {room} log decoder operation (rc, handle, version) =
      decided (rc == c.rc_success) refl
    where
      decided :
          (good : Bool)
          → rc == c.rc_success ≡ good
          → Leaves room
              (if good then esys_if handle else nothing)
              (λ _. esys_if handle)
              (λ h. if good then (done, h) else translate c api log decoder rc operation h)
      decided true eq = record { leaves = λ h base o e. e }
      decided false eq = record {
        leaves = λ h base o e.
            delivered_lem h log _ (base ⊕ nothing) e
            ∙ ap (λ k. some (base ⊕ k))
                (sym (translate-fails (λ _. esys_if handle) log decoder rc operation h eq));
      }

  initialize_esys-Leaves : (log : Logger) → Leaves 1 nothing esys_if (initialize_esys c api log)
  unfolding initialize_esys
  initialize_esys-Leaves log = bind-Leaves open_esys-Leaves (λ (rc, handle, version).
      bind-Leaves (checked-Leaves log api.decode_error "esys_initialize" (rc, handle, version))
        (λ _. bind-Leaves (succeed-Leaves log _ _) (λ _. ok-Leaves esys_if handle)))

  call_startup-Even :
      {room : ℕ} (mode : StartupMode) (log : Logger) → Even room (call_startup c api mode log)
  unfolding call_startup
  call_startup-Even mode log = bind-Leaves (Effect-Leaves _ _ (λ _ base o. refl)) (λ rc.
      branched (not (rc == c.rc_success) && not (rc == c.rc_initialize))
        (translate-Even c api log api.decode_error rc "esys_startup") (completed-Even log mode _))

  start_tpm-Even :
      {room : ℕ} (mode : StartupMode) (log : Logger) → Even room (start_tpm c api mode log)
  unfolding start_tpm
  start_tpm-Even mode log = bind-Leaves (succeed-Leaves log _ _) (λ _.
      branched (is_skip mode) (completed-Even log mode "skipped") (call_startup-Even mode log))

  finish_create-Leaves :
      (source : Source) (mode : StartupMode) (log : Logger) (esys : Bool)
      → Leaves 1 (esys_if esys) impl_esys (finish_create c api source mode log esys)
  unfolding finish_create
  finish_create-Leaves source mode log esys =
      bind-Leaves
        (guarded-Leaves {taken = λ _. nothing} (esys_if esys) _ (λ h. esys-GivesBack esys)
          (start_tpm-Even mode log))
        (λ _. rw (plus_nothing (esys_if esys)) (ok-Leaves impl_esys _))

  create_from_resolved_tcti-Leaves :
      (source : Source) (mode : StartupMode) (log : Logger)
      → Leaves 0 one_tcti context_held (create_from_resolved_tcti c api source mode log)
  unfolding create_from_resolved_tcti
  create_from_resolved_tcti-Leaves source mode log =
      bind-Leaves
        (guarded-Leaves {taken = impl_esys} one_tcti _ (λ h. closed-GivesBack source)
          (bind-Leaves (initialize_esys-Leaves log) (finish_create-Leaves source mode log)))
        (λ impl. ok-Leaves context_held (some impl))

  pub create_context_from_config-Leaves :
      (config : ContextConfig)
      → Leaves 0 nothing context_held (create_context_from_config c api config)
  unfolding create_context_from_config
  create_context_from_config-Leaves config =
      bind-Leaves (from-Even (validate_startup config.startup)) (λ _.
        bind-Leaves (resolve_tcti-Leaves c api config.tcti (effective_logger config.log)) (λ _.
          create_from_resolved_tcti-Leaves loaded config.startup (effective_logger config.log)))

-- Whether an owned handle can be closed.
abbrev pub owned_held : Bool → Held
owned_held true = one_tcti
owned_held false = nothing

check_owned-Leaves :
    (handle : Bool) (mode : StartupMode)
    → Leaves 0 (owned_held handle) (λ _. one_tcti) (check_owned handle true mode)
unfolding check_owned drop_owned from
check_owned-Leaves true mode =
    branch-Leaves (λ h. not (is_valid_startup_mode mode))
      (record {
        leaves = λ h base o e.
            holdings-append h _ (base ⊕ one_tcti) e
            ∙ ap (λ k. held k []) (close_one base o owned)
            ∙ ap some (sym (plus_nothing base));
      })
      (record { leaves = λ h base o e. e })
check_owned-Leaves false mode =
    branch-Leaves (λ h. not (is_valid_startup_mode mode))
      (record { leaves = λ h base o e. holdings-append h [] (base ⊕ nothing) e }) (fails-Leaves _)

pub create_context_from_owned_tcti-Leaves :
    (c : Codes) (api : ContextApi) (handle : Bool) (mode : StartupMode) (log : Bool)
    → Leaves 0
        (owned_held handle)
        context_held
        (create_context_from_owned_tcti c api handle true mode log)
unfolding create_context_from_owned_tcti
create_context_from_owned_tcti-Leaves c api handle mode log =
    bind-Leaves (check_owned-Leaves handle mode) (λ _.
      bind-Leaves (log_tcti_event-Leaves (effective_logger log) _ _ _) (λ _.
        bind-Leaves (log_tcti_event-Leaves (effective_logger log) _ _ _)
          (λ _. create_from_resolved_tcti-Leaves c api owned mode (effective_logger log))))

finalize_esys :
    (base : Held)
    → held_after (base ⊕ (one_tcti ⊕ esys_if true)) esys_finalized ≡ some (base ⊕ one_tcti)
finalize_esys base = ground arith

pub destroy-Leaves : (ctx : Context) → Leaves 0 (context_held ctx) (λ _. nothing) (destroy ctx)
unfolding destroy succeed close_esys
destroy-Leaves none = record { leaves = λ h base o e. e }
destroy-Leaves (some impl) = record {
  leaves = λ h base o e.
      holdings-append (h ++ delivered impl.log (success_record finalized [] ∷ [])) _ _
        (delivered_lem h impl.log _ _ e)
      ∙ closed impl.esys base o;
}
  where
    closed :
        (esys : Bool) (base : Held)
        → base.esyss + 0 ≤ base.tctis
        → held
            (some (base ⊕ (one_tcti ⊕ esys_if esys)))
            (close_esys esys ++ (tcti_closed impl.source ∷ []))
          ≡ some (base ⊕ nothing)
    closed true base o =
        ap (λ k. held k (tcti_closed impl.source ∷ [])) (finalize_esys base)
        ∙ ap (λ k. held k []) (close_one base o impl.source)
        ∙ ap some (sym (plus_nothing base))
    closed false base o =
        ap (λ k. held k []) (close_one base o impl.source) ∙ ap some (sym (plus_nothing base))
