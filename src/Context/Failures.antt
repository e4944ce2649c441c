-- ===== src/Context/Failures.antt =====
-- What the log is told of the calls that fail while contexts are created.
pub mod Rules
pub mod Steps
use tpmkit.Base.{
  if◌then◌else◌, ◌≡◌, refl, sym, ◌∙◌, append-nil, true, false, not, Bool, Bool-cases, inl, inr,
  List, [], ◌∷◌, ◌++◌, ℕ,
}
use tpmkit.Translation.{Codes}
use tpmkit.Effects.Replay.{replay_nothing}
use tpmkit.Effects.Owing.{settled}
use tpmkit.Context.Session.{StartupMode, loaded, owned, Logger, Effect, ContextApi}
use tpmkit.Context.{
  effective_logger, is_valid_startup_mode, drop_owned, check_owned, create_context_from_config,
  create_context_from_owned_tcti,
}
use Rules.{
  errors, error_logged, failures, failure_of, told, Owes, Paid, bind-Settles, from-Paid, plain_last,
}
use Steps.{log_tcti_event-Paid, resolve_tcti-Paid, create_from_resolved_tcti-Paid}

-- A creation from a configuration, or from a handle, perhaps null, that comes with a deleter.
pub data Creation : Type 0 where
  configured : List ℕ → StartupMode → Creation
  from_owned : Bool → StartupMode → Creation

module _ (c : Codes) (api : ContextApi) (logs : Bool) where
  check_owned-Paid :
      (handle : Bool) (mode : StartupMode)
      → Paid c api (effective_logger logs) (check_owned handle true mode)
  unfolding check_owned drop_owned
  check_owned-Paid true mode = record {
    settles = λ h now. elim (Bool-cases (is_valid_startup_mode mode)) [
      | inl valid ↦ rw valid now
      | inr invalid ↦ rw invalid (plain_last c api _ _ refl (λ h. refl) h now)
    ];
  }
  check_owned-Paid false mode = record {
    settles = λ h now. elim (Bool-cases (is_valid_startup_mode mode)) [
      | inl valid ↦ rw valid now
      | inr invalid ↦ rw (invalid, append-nil h) now
    ];
  }

  create_from_config-Paid :
      (tcti : List ℕ) (mode : StartupMode)
      → Paid c api
          (effective_logger logs)
          (create_context_from_config c api (record { tcti = tcti; startup = mode; log = logs }))
  unfolding create_context_from_config
  create_from_config-Paid tcti mode = bind-Settles c api _ (from-Paid c api _ _) λ _.
      bind-Settles c api _ (resolve_tcti-Paid c api _ tcti)
        λ _. create_from_resolved_tcti-Paid c api _ loaded mode

  create_from_owned-Paid :
      (handle : Bool) (mode : StartupMode)
      → Paid c api
          (effective_logger logs)
          (create_context_from_owned_tcti c api handle true mode logs)
  unfolding create_context_from_owned_tcti
  create_from_owned-Paid handle mode = bind-Settles c api _ (check_owned-Paid handle mode) λ _.
      bind-Settles c api _ (log_tcti_event-Paid c api _ _ _ _) λ _.
        bind-Settles c api _ (log_tcti_event-Paid c api _ _ _ _)
          λ _. create_from_resolved_tcti-Paid c api _ owned mode

  -- What has happened after creations that are made one after the other, with or without a logger.
  abbrev pub create_each : List Creation → List Effect → List Effect
  create_each [] h = h
  create_each (configured tcti mode ∷ rest) h =
      create_each rest
        (create_context_from_config c api (record { tcti = tcti; startup = mode; log = logs }) h).1
  create_each (from_owned handle mode ∷ rest) h =
      create_each rest (create_context_from_owned_tcti c api handle true mode logs h).1

  pub each_paid :
      (all : List Creation) (h : List Effect)
      → Owes c api (effective_logger logs) [] h
      → Owes c api (effective_logger logs) [] (create_each all h)
  each_paid [] h now = now
  each_paid (configured tcti mode ∷ rest) h now =
      each_paid rest _
        (settled error_logged (failure_of c api _) h (create_from_config-Paid tcti mode) now)
  each_paid (from_owned handle mode ∷ rest) h now =
      each_paid rest _
        (settled error_logged (failure_of c api _) h (create_from_owned-Paid handle mode) now)

-- After any sequence of creations of contexts, from configurations and from handles that come with
-- a deleter, whatever the TSS answers: without a logger no record is made at level error; with one, the records at level error are exactly one for each
-- call of the TSS that failed, in the order of the calls, with the category and the code that
-- the call's return code stands for, where the answer to a startup that the TPM is already
-- started is no failure.
pub errors-create_each :
    (c : Codes) (api : ContextApi) (logs : Bool) (all : List Creation)
    → errors (create_each c api logs all [])
      ≡ (if logs then failures c api (create_each c api logs all []) else [])
unfolding effective_logger
errors-create_each c api true all =
    sym (each_paid c api true all [] refl ∙ append-nil (errors (create_each c api true all [])))
errors-create_each c api false all =
    sym (append-nil (errors (create_each c api false all [])))
    ∙ sym (each_paid c api false all [] refl)
    ∙ replay_nothing (create_each c api false all [])
