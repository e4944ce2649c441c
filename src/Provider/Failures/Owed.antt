-- ===== src/Provider/Failures/Owed.antt =====
-- The return codes of the calls that esys_pcr_provider.cpp makes and the records at level error in
-- its log.
use tpmkit.Base.{ℕ, List, []}
use tpmkit.Translation.{Codes}
use tpmkit.Translation.Reports.{Report, at_error, due_for}
use tpmkit.Effects.Replay.{replay}
use tpmkit.Effects.Tally.{tally}
use tpmkit.Effects.Owing
use tpmkit.Provider.Session.{
  Call, pcr_allocate, pcr_event, pcr_extend, pcr_read, pcr_reset, pcr_set_auth_policy,
  pcr_set_auth_value, tr_set_auth, Effect, called, logged, observed, freed, EsysApi, Run,
}

abbrev pub error_logged : Effect → List Report
error_logged (called request n) = []
error_logged (logged r) = at_error r.level r
error_logged (observed n) = []
error_logged freed = []

-- The records at level error among the effects, in order.
abbrev pub errors : List Effect → List Report
errors = tally error_logged

module _ (c : Codes) (api : EsysApi) where
  -- What the TSS answers to a call after a history.
  abbrev pub answered_rc : List Effect → Call → ℕ
  answered_rc h (pcr_allocate a b d e s) = (api.allocate_reply h (pcr_allocate a b d e s)).rc
  answered_rc h (pcr_event a b d e x) = (api.event_reply h (pcr_event a b d e x)).rc
  answered_rc h (pcr_extend a b d e x) = api.status h (pcr_extend a b d e x)
  answered_rc h (pcr_read a b d s) = (api.read_reply h (pcr_read a b d s)).rc
  answered_rc h (pcr_reset a b d e) = api.status h (pcr_reset a b d e)
  answered_rc h (pcr_set_auth_policy a b d e x i j) =
      api.status h (pcr_set_auth_policy a b d e x i j)
  answered_rc h (pcr_set_auth_value a b d e x) = api.status h (pcr_set_auth_value a b d e x)
  answered_rc h (tr_set_auth a x) = api.status h (tr_set_auth a x)

  abbrev pub failure_of : List Effect → Effect → List Report
  failure_of past (called request n) = due_for c (answered_rc past request)
  failure_of past (logged r) = []
  failure_of past (observed n) = []
  failure_of past freed = []

  -- The calls that failed, in order.
  abbrev pub failures : List Effect → List Report
  failures = replay failure_of

  -- A run that is handed a debt to the log and leaves one.
  abbrev pub Settles : {A : Type 0} → List Report → (A → List Report) → Run A → Type 0
  Settles owed left m = Owing.Settles error_logged failure_of owed left m

  abbrev pub Paid : {A : Type 0} → Run A → Type 0
  Paid m = Settles [] (λ _. []) m
