-- ===== src/Provider/Failures/Rules.antt =====
-- How the steps of an operation of esys_pcr_provider.cpp owe and pay the log.
use tpmkit.Base.{
  ℕ, ◌≡◌, refl, ap, ◌∙◌, append-nil, Bool, true, false, Bool-cases, inl, inr, List, [], ◌∷◌, ◌++◌,
  Option, none, some, String, ◌==◌, if◌then◌else◌,
}
use tpmkit.Outcome.{done, Outcome, ok}
use tpmkit.Logging.{failure_record, outcome_record, success_record, EventDescriptor, LogField}
use tpmkit.Translation.{Codes, translate_tss_rc, log_tss_error}
use tpmkit.Translation.Reports.{Report, entry_of, due_for}
use tpmkit.Effects.Owing
use tpmkit.Effects.Owing.{Quiet, quiet_last, owe_last, pay_last}
use tpmkit.Provider.Session.{
  Call, Effect, called, logged, observed, freed, EsysApi, Run, check_rc, Notification, from, emit,
  finally, ◌>>=◌, release,
}
use tpmkit.Provider.{notify}
use tpmkit.Provider.Failures.Owed.{error_logged, errors, answered_rc, failure_of, Settles, Paid}

module _ (c : Codes) (api : EsysApi) where
  pub bind-Settles :
      {A B : Type 0} {owed : List Report} {mid : A → List Report} {left : B → List Report}
      {m : Run A} {f : A → Run B}
      → Settles c api owed mid m
      → ((a : A) → Settles c api (mid a) left (f a))
      → Settles c api owed left (m >>= f)
  bind-Settles = Owing.bind-Settles error_logged (failure_of c api)

  pub from-Paid : {A : Type 0} (r : Outcome A) → Paid c api (from r)
  from-Paid = Owing.from-Settles error_logged (failure_of c api)

  pub success-Paid :
      (event : EventDescriptor) (fields : List LogField)
      → Paid c api (emit (logged (success_record event fields)))
  unfolding emit success_record outcome_record
  success-Paid event fields = record {
    settles = λ h now. quiet_last error_logged (failure_of c api) h _ refl refl now;
  }

  pub notify-Paid : (attached : Bool) (n : Notification) → Paid c api (notify attached n)
  unfolding emit from
  notify-Paid true n = record {
    settles = λ h now. quiet_last error_logged (failure_of c api) h (observed n) refl refl now;
  }
  notify-Paid false n = from-Paid done

  pub release-Quiet {ℓ} :
      {A : Type ℓ} (o : Option A) → Quiet error_logged (failure_of c api) (release o)
  release-Quiet none h now = rw (append-nil h) now
  release-Quiet (some a) h now = quiet_last error_logged (failure_of c api) h freed refl refl now

  pub finally-Settles :
      {A : Type 0} {m : Run A} {owed : List Report} (es : List Effect)
      → Quiet error_logged (failure_of c api) es
      → Settles c api owed (λ _. []) m
      → Settles c api owed (λ _. []) (finally m es)
  finally-Settles = Owing.finally-Settles error_logged (failure_of c api)

  -- A call whose answer is `reply h`, with the code `code (reply h)`.
  pub call-Settles :
      {A : Type 0} {m : Run A} (code : A → ℕ) (request : Call) (reply : List Effect → A)
      (count : A → ℕ)
      → ((h : List Effect) → m h ≡ (ok (reply h), h ++ (called request (count (reply h)) ∷ [])))
      → ((h : List Effect) → answered_rc c api h request ≡ code (reply h))
      → Settles c api [] (λ a. due_for c (code a)) m
  call-Settles code request reply count made answers = record {
    settles = λ h now. rw (made h) (
        owe_last error_logged (failure_of c api) h (called request (count (reply h))) refl now
        ∙ ap (λ rc. errors (h ++ (called request (count (reply h)) ∷ [])) ++ due_for c rc)
            (answers h));
  }

  pub check_rc-Settles :
      (rc : ℕ) (operation : String)
      → Settles c api (due_for c rc) (λ _. []) (check_rc c api.decode_error rc operation)
  unfolding check_rc translate_tss_rc log_tss_error failure_record outcome_record
  check_rc-Settles rc operation = record {
    settles = λ h now. elim (Bool-cases (rc == c.rc_success)) [
      | inl fine ↦ rw fine (now ∙ ap (λ b. errors h ++ (if b then [] else entry_of c rc ∷ [])) fine)
      | inr failed ↦ rw failed (
          pay_last error_logged (failure_of c api) h _ refl
            (now ∙ ap (λ b. errors h ++ (if b then [] else entry_of c rc ∷ [])) failed))
    ];
  }
