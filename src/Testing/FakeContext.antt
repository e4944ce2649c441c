-- ===== src/Testing/FakeContext.antt =====
-- include/tpmkit/testing/fake_tpm_context.h and src/adapters/mock/fake_tpm_context.cpp: a context
-- that checks its configuration as the real one does, and has no TSS.
use tpmkit.Base.{
  ℕ, ◌≡◌, refl, ap, sym, ◌∙◌, Bool, true, false, not, inl, inr, ◌↔◌, List, none, if◌then◌else◌,
  Bool-cases,
}
use tpmkit.Outcome.{Outcome, ok, unexpected, raised, Error, fails, input_error, resource_error}
use tpmkit.Translation.{Codes}
use tpmkit.TctiConfig.{is_valid_string_config, tcti_invalid_message}
use tpmkit.TctiConfig.Shape.{validate_string_lem, IsConfig, is_valid_string_config_iff}
use tpmkit.TctiConfig.Sanitized.{invalid_lem}
use tpmkit.Provider.{Provider}
use tpmkit.Context.{
  Context, ContextConfig, is_valid_startup_mode, validate_startup, effective_logger, announce,
  load_tcti, resolve_tcti, create_context_from_config,
}
use tpmkit.Context.Session.{StartupMode, Logger, Effect, ContextApi, from, ◌>>=◌}

pub record FakeContext : Type 0 where
  pub config : ContextConfig

unfoldable pub validate : ContextConfig → Outcome ContextConfig
unfolding is_valid_startup_mode is_valid_string_config
validate config =
    if not (is_valid_startup_mode config.startup)
    then fails input_error "TPM startup mode is invalid"
    else if not (is_valid_string_config config.tcti)
    then fails input_error tcti_invalid_message
    else ok config

abbrev constructed : Outcome ContextConfig → Outcome FakeContext
constructed (ok config) = ok (record { config = config })
constructed (unexpected e) = unexpected e
constructed (raised x) = raised x

-- `fake_tpm_context::create`
unfoldable pub fake_create : ContextConfig → Outcome FakeContext
unfolding validate
fake_create config = constructed (validate config)

-- `fake_tpm_context::create` with a string.
unfoldable pub fake_create_string : List ℕ → StartupMode → Bool → Outcome FakeContext
unfolding fake_create
fake_create_string tcti startup log =
    fake_create (record { tcti = tcti; startup = startup; log = log })

unfoldable pub last_config : FakeContext → ContextConfig
last_config fake = fake.config

unfoldable pub fake_create_pcr_provider : FakeContext → Bool → Outcome Provider
fake_create_pcr_provider fake observer = fails resource_error "Fake TPM context has no TPM backend"

-- The same error of another type of value.
abbrev refused_as : Outcome FakeContext → Outcome Context
refused_as (ok fake) = ok none
refused_as (unexpected e) = unexpected e
refused_as (raised x) = raised x

fake_modes :
    (config : ContextConfig)
    → is_valid_startup_mode config.startup ≡ false
    → fake_create config ≡ fails input_error "TPM startup mode is invalid"
unfolding fake_create validate
fake_modes config bad = rw bad refl

fake_strings :
    (config : ContextConfig)
    → is_valid_startup_mode config.startup ≡ true
    → (valid : Bool) → is_valid_string_config config.tcti ≡ valid
    → fake_create config
      ≡ (if valid then ok (record { config = config }) else fails input_error tcti_invalid_message)
unfolding fake_create validate
fake_strings config good true fine = rw (good, fine) refl
fake_strings config good false bad = rw (good, bad) refl

module _ (c : Codes) (api : ContextApi) where
  resolve_refused :
      (v : List ℕ) (log : Logger) (h : List Effect)
      → is_valid_string_config v ≡ false
      → resolve_tcti c api v log h ≡ (fails input_error tcti_invalid_message, h)
  unfolding resolve_tcti announce load_tcti ◌>>=◌ from
  resolve_refused v log h bad = rw (invalid_lem v bad, validate_string_lem v, bad) refl

  create_modes :
      (config : ContextConfig) (h : List Effect)
      → is_valid_startup_mode config.startup ≡ false
      → create_context_from_config c api config h
        ≡ (fails input_error "TPM startup mode is invalid", h)
  unfolding create_context_from_config validate_startup ◌>>=◌ from
  create_modes config h bad = rw bad refl

  create_strings :
      (config : ContextConfig) (h : List Effect)
      → is_valid_startup_mode config.startup ≡ true
      → is_valid_string_config config.tcti ≡ false
      → create_context_from_config c api config h ≡ (fails input_error tcti_invalid_message, h)
  unfolding create_context_from_config validate_startup ◌>>=◌ from
  create_strings config h good bad =
      rw (good, resolve_refused config.tcti (effective_logger config.log) h bad) refl

  -- A configuration that the fake context refuses is refused by a real one with the same error
  -- and without any effect: no call of the TSS, no memory, no record.
  pub refuses-fake_create :
      (config : ContextConfig) (e : Error)
      → fake_create config ≡ unexpected e
      → (h : List Effect) → create_context_from_config c api config h ≡ (unexpected e, h)
  refuses-fake_create config e refused h =
      elim (Bool-cases (is_valid_startup_mode config.startup)) [
        | inr bad ↦
            create_modes config h bad
            ∙ ap (λ o. (refused_as o, h)) (sym (fake_modes config bad) ∙ refused)
        | inl good ↦ elim (Bool-cases (is_valid_string_config config.tcti)) [
          | inl fine ↦ absurd (accepted (sym (fake_strings config good true fine) ∙ refused))
          | inr bad ↦
              create_strings config h good bad
              ∙ ap (λ o. (refused_as o, h)) (sym (fake_strings config good false bad) ∙ refused)
        ]
      ]
    where
      accepted : {f : FakeContext} → ok f ≡ unexpected e → ⊥
      accepted eq = cc

-- The fake context accepts a configuration exactly when the startup mode is one of the three and
-- the string is a non-empty name without a colon, a colon and any arguments, with no space at
-- either end; then it keeps the configuration as it is.
pub fake_create_lem :
    (config : ContextConfig)
    → ((is_valid_startup_mode config.startup ≡ true) × IsConfig config.tcti)
      ↔ (fake_create config ≡ ok (record { config = config }))
fake_create_lem config = (
  (λ (good, shaped).
      fake_strings config good true ((is_valid_string_config_iff config.tcti).1 shaped)),
  (λ made. elim (Bool-cases (is_valid_startup_mode config.startup)) [
    | inr bad ↦ absurd (refused (sym made ∙ fake_modes config bad))
    | inl good ↦ elim (Bool-cases (is_valid_string_config config.tcti)) [
      | inl fine ↦ (good, (is_valid_string_config_iff config.tcti).0 fine)
      | inr bad ↦ absurd (refused (sym made ∙ fake_strings config good false bad))
    ]
  ]),
)
  where
    refused : {f : FakeContext} {e : Error} → ok f ≡ unexpected e → ⊥
    refused eq = cc
