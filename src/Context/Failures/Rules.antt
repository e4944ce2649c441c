-- ===== src/Context/Failures/Rules.antt =====
-- The failing calls of tcti_loader.cpp and tpm_context.cpp, the records at level error in the log,
-- and how the steps of a creation owe and pay the log.
use tpmkit.Base.{
  ℕ, ◌≡◌, refl, ap, sym, ◌∙◌, append-nil, true, false, Bool-cases, inl, inr, List, [], ◌∷◌, ◌++◌,
  String, ◌==◌, if◌then◌else◌,
}
use tpmkit.Outcome.{Outcome, ok, unexpected, raised}
use tpmkit.Logging.{failure_record, outcome_record, success_record, EventDescriptor, LogField}
use tpmkit.Translation.{Codes, Decoder, translate_tss_rc, log_tss_error}
use tpmkit.Translation.Reports.{Report, at_error, entry_of, due_for}
use tpmkit.Effects.Replay.{replay}
use tpmkit.Effects.Tally.{tally, worth, worth_nothing}
use tpmkit.Effects.Owing
use tpmkit.Effects.Owing.{Quiet, carry_last, quiet_last, owe_last, pay_last}
use tpmkit.Context.{succeed, translate, check}
use tpmkit.Context.Session.{
  Logger, given, noop, Effect, info_asked, info_freed, size_asked, storage_taken, tcti_started,
  loader_finalized, storage_freed, tcti_closed, tcti_given, esys_opened, startup_called,
  esys_finalized, null_call, logged, ContextApi, Run, ask, released, guarded, from, emit, ◌>>=◌,
}

abbrev pub error_logged : Effect → List Report
error_logged (info_asked name) = []
error_logged info_freed = []
error_logged size_asked = []
error_logged (storage_taken size) = []
error_logged (tcti_started config) = []
error_logged (loader_finalized cleared) = []
error_logged storage_freed = []
error_logged (tcti_closed source) = []
error_logged tcti_given = []
error_logged (esys_opened handle) = []
error_logged (startup_called mode) = []
error_logged esys_finalized = []
error_logged null_call = []
error_logged (logged r) = at_error r.level r

-- The records at level error that the caller's logger was given, in order.
abbrev pub errors : List Effect → List Report
errors = tally error_logged

module _ (c : Codes) (api : ContextApi) where
  -- A TPM that is already started is no failure of a startup.
  abbrev pub startup_due : ℕ → List Report
  startup_due rc = if rc == c.rc_initialize then [] else due_for c rc

  abbrev pub tss_failure : List Effect → Effect → List Report
  tss_failure past (info_asked name) = due_for c (api.info_rc name past)
  tss_failure past info_freed = []
  tss_failure past size_asked = due_for c (api.size_reply past).0
  tss_failure past (storage_taken size) = []
  tss_failure past (tcti_started config) = due_for c (api.init_rc config past)
  tss_failure past (loader_finalized cleared) = []
  tss_failure past storage_freed = []
  tss_failure past (tcti_closed source) = []
  tss_failure past tcti_given = []
  tss_failure past (esys_opened handle) = due_for c (api.open_rc past)
  tss_failure past (startup_called mode) = startup_due (api.startup_rc mode past)
  tss_failure past esys_finalized = []
  tss_failure past null_call = []
  tss_failure past (logged r) = []

  -- The calls that failed, in order, with what the log should say of each.
  abbrev pub failures : List Effect → List Report
  failures = replay tss_failure

  -- What is told to a logger: nothing, if it drops all.
  abbrev pub told : Logger → List Report → List Report
  told given reports = reports
  told noop reports = []

  abbrev pub failure_of : Logger → List Effect → Effect → List Report
  failure_of log past e = told log (tss_failure past e)

  abbrev pub Owes : Logger → List Report → List Effect → Type 0
  Owes log = Owing.Owing error_logged (failure_of log)

  abbrev pub Settles : {A : Type 0} → Logger → List Report → (A → List Report) → Run A → Type 0
  Settles log owed left m = Owing.Settles error_logged (failure_of log) owed left m

  abbrev pub Paid : {A : Type 0} → Logger → Run A → Type 0
  Paid log m = Settles log [] (λ _. []) m

  pub told_nothing : (log : Logger) → told log [] ≡ []
  told_nothing given = refl
  told_nothing noop = refl

  pub bind-Settles :
      {A B : Type 0} {owed : List Report} {mid : A → List Report} {left : B → List Report}
      {m : Run A} {f : A → Run B} (log : Logger)
      → Settles log owed mid m
      → ((a : A) → Settles log (mid a) left (f a))
      → Settles log owed left (m >>= f)
  bind-Settles log = Owing.bind-Settles error_logged (failure_of log)

  pub from-Paid : {A : Type 0} (log : Logger) (r : Outcome A) → Paid log (from r)
  from-Paid log = Owing.from-Settles error_logged (failure_of log)

  pub succeed-Paid :
      (log : Logger) (event : EventDescriptor) (fields : List LogField)
      → Paid log (succeed log event fields)
  unfolding succeed success_record outcome_record
  succeed-Paid given event fields = record {
    settles = λ h now. quiet_last error_logged (failure_of given) h _ refl refl now;
  }
  succeed-Paid noop event fields = record { settles = λ h now. rw (append-nil h) now }

  -- An effect that is no call and no record.
  pub plain_last :
      (log : Logger) (e : Effect)
      → error_logged e ≡ []
      → ((h : List Effect) → tss_failure h e ≡ [])
      → Quiet error_logged (failure_of log) (e ∷ [])
  plain_last log e silent fine h now =
      quiet_last error_logged (failure_of log) h e silent
        (ap (told log) (fine h) ∙ told_nothing log) now

  -- Such an effect while a failure is still to be logged.
  pub emit-Settles :
      (log : Logger) (e : Effect) (owed : List Report)
      → error_logged e ≡ []
      → ((h : List Effect) → tss_failure h e ≡ [])
      → Settles log owed (λ _. owed) (emit e)
  unfolding emit
  emit-Settles log e owed silent fine = record {
    settles = λ h now.
        carry_last error_logged (failure_of log) owed h e silent
          (ap (told log) (fine h) ∙ told_nothing log) now;
  }

  -- A call, which owes what it fails with.
  pub ask-Settles :
      {A : Type 0} (log : Logger) (e : Effect) (reply : List Effect → A) (due : A → List Report)
      → error_logged e ≡ []
      → ((h : List Effect) → tss_failure h e ≡ due (reply h))
      → Settles log [] (λ a. told log (due a)) (ask e reply)
  unfolding ask
  ask-Settles log e reply due silent fails = record {
    settles = λ h now.
        owe_last error_logged (failure_of log) h e silent now
        ∙ ap (λ l. errors (h ++ (e ∷ [])) ++ told log l) (fails h);
  }

  pub fine_due :
      (log : Logger) (rc : ℕ) → (rc == c.rc_success) ≡ true → told log (due_for c rc) ≡ []
  fine_due log rc fine =
      ap (λ b. told log (if b then [] else entry_of c rc ∷ [])) fine ∙ told_nothing log

  pub failed_due :
      (log : Logger) (rc : ℕ)
      → (rc == c.rc_success) ≡ false
      → told log (due_for c rc) ≡ told log (entry_of c rc ∷ [])
  failed_due log rc failed = ap (λ b. told log (if b then [] else entry_of c rc ∷ [])) failed

  -- The log of a failure, whatever is returned for it.
  pub translated-Owes :
      (log : Logger) (decoder : Decoder) (rc : ℕ) (operation : String) (h : List Effect)
      → (rc == c.rc_success) ≡ false
      → Owes log (told log (entry_of c rc ∷ [])) h
      → Owes log [] (translate c api log decoder rc operation h).1
  unfolding translate translate_tss_rc log_tss_error failure_record outcome_record
  translated-Owes given decoder rc operation h failed now =
      rw failed (pay_last error_logged (failure_of given) h _ refl now)
  translated-Owes noop decoder rc operation h failed now = rw (append-nil h) now

  -- The same, for a run that ends with the translated error.
  pub translate-Owes :
      (log : Logger) (decoder : Decoder) (rc : ℕ) (operation : String) (h : List Effect)
      → (rc == c.rc_success) ≡ false
      → Owes log (told log (entry_of c rc ∷ [])) h
      → Owes log
          (worth error_logged (λ _. []) (translate c api log decoder rc operation h).0)
          (translate c api log decoder rc operation h).1
  translate-Owes log decoder rc operation h failed now =
      translated-Owes log decoder rc operation h failed now
      ∙ ap (◌++◌ (errors (translate c api log decoder rc operation h).1))
          (sym (worth_nothing error_logged (translate c api log decoder rc operation h).0))

  pub check-Settles :
      (log : Logger) (decoder : Decoder) (rc : ℕ) (operation : String)
      → Settles log (told log (due_for c rc)) (λ _. []) (check c api log decoder rc operation)
  unfolding check
  check-Settles log decoder rc operation = record {
    settles = λ h now. elim (Bool-cases (rc == c.rc_success)) [
      | inl fine ↦ rw fine (now ∙ ap (◌++◌ (errors h)) (fine_due log rc fine))
      | inr failed ↦ rw failed (
          translate-Owes log decoder rc operation h failed
            (now ∙ ap (◌++◌ (errors h)) (failed_due log rc failed)))
    ];
  }

  pub guarded-Settles :
      {A : Type 0} {m : Run A} {owed : List Report} (log : Logger)
      (effects : List Effect → List Effect)
      → ((h : List Effect) → Quiet error_logged (failure_of log) (effects h))
      → Settles log owed (λ _. []) m
      → Settles log owed (λ _. []) (guarded m effects)
  unfolding guarded
  guarded-Settles {m} log effects quiet inner = record {
    settles = λ h now.
        released-Owes (m h).0 (m h).1 (effects (m h).1) (quiet (m h).1) (inner.settles h now);
  }
    where
      released-Owes :
          {A : Type 0} (r : Outcome A) (h es : List Effect)
          → Quiet error_logged (failure_of log) es
          → Owes log (worth error_logged (λ _. []) r) h
          → Owes log (worth error_logged (λ _. []) r) (h ++ released r es)
      released-Owes (ok a) h es quiet now = rw (append-nil h) now
      released-Owes (unexpected e) h es quiet now = quiet h now
      released-Owes (raised x) h es quiet now = quiet h now
