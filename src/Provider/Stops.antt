-- ===== src/Provider/Stops.antt =====
-- Calls that esys_pcr_provider.cpp makes until one fails.
pub mod Rules
use tpmkit.Base.{Bool, List, ◌++◌}
use tpmkit.Outcome.{Outcome, ok, unexpected, raised, done}
use tpmkit.Domain.Index.{Index}
use tpmkit.Tss.{Tss}
use tpmkit.Translation.{Codes}
use tpmkit.Provider.Session.{Effect, on_event, on_extend, EsysApi, release}
use tpmkit.Effects.Tally.{worth_nothing}
use tpmkit.Provider.Port.{Request}
use tpmkit.Provider.{
  Provider, allocate, event, extend, read, reset, set_auth_policy, set_auth_value,
  log_allocate_completed, log_auth_policy_set, log_auth_value_set, log_event_completed,
  log_extend_completed, log_read_completed, log_reset_completed,
}

-- An outcome without its value.
abbrev without_value {ℓ} : {A : Type ℓ} → Outcome A → Outcome (Unit {0})
without_value (ok a) = done
without_value (unexpected e) = unexpected e
without_value (raised x) = raised x

module _ (legacy : Bool) (t : Tss) (c : Codes) (api : EsysApi) (p : Provider) where
  abbrev pub ending : Request → List Effect → Outcome (Unit {0})
  ending (Request.allocate banks) h = without_value (allocate legacy t c api p banks h).0
  ending (Request.event i d) h = without_value (event legacy t c api p i d h).0
  ending (Request.extend i ds) h = without_value (extend legacy t c api p i ds h).0
  ending (Request.read s) h = without_value (read legacy t c api p s h).0
  ending (Request.reset i) h = without_value (reset legacy t c api p i h).0
  ending (Request.set_auth_policy i a d) h =
      without_value (set_auth_policy legacy t c api p i a d h).0
  ending (Request.set_auth_value i auth) h =
      without_value (set_auth_value legacy t c api p i auth h).0
