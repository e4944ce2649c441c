-- ===== src/Provider/Reports.antt =====
-- The reports in the log of esys_pcr_provider.cpp, its records at level info: what the steps of
-- an operation add to them.
use tpmkit.Base.{
  ℕ, ◌≡◌, ap, sym, ◌∙◌, append-nil, Bool, true, false, Bool-cases, inl, inr, List, [], ◌∷◌, ◌++◌,
  String, ◌==◌,
}
use tpmkit.Outcome.{ok}
use tpmkit.Logging.{
  LogLevel, trace, debug, info, warn, error, unlisted, LogRecord, failure_record, outcome_record,
}
use tpmkit.Translation.{Codes, Decoder, translate_tss_rc, log_tss_error}
use tpmkit.Provider.Session.{
  Effect, called, logged, observed, freed, Notification, from, emit, ◌>>=◌, check_rc,
}
use tpmkit.Effects.Tally.{tally, Adds, Silent, tally-append}
use tpmkit.Provider.{notify}

abbrev at_level : LogLevel → LogRecord → List LogRecord
at_level info r = r ∷ []
at_level trace r = []
at_level debug r = []
at_level warn r = []
at_level error r = []
at_level (unlisted n) r = []

abbrev pub reported : Effect → List LogRecord
reported (called c n) = []
reported (logged r) = at_level r.level r
reported (observed n) = []
reported freed = []

-- The records at level info among the effects, in order.
abbrev pub reports : List Effect → List LogRecord
reports = tally reported

-- A record that counts as a report.
abbrev IsReport : LogRecord → Type 0
IsReport r = reported (logged r) ≡ r ∷ []

pub reported_last : (r : LogRecord) → IsReport r → Adds reported (λ _. r ∷ []) (emit (logged r))
unfolding emit
reported_last r info_level = record {
  adds = λ h. tally-append reported h (logged r ∷ []) ∙ ap (λ l. reports h ++ (l ++ [])) info_level;
}

pub reported_value :
    {A : Type 0} (f : A → LogRecord) (a : A)
    → IsReport (f a)
    → Adds reported (λ r. f r ∷ []) (emit (logged (f a)) >>= λ _. from (ok a))
unfolding emit from ◌>>=◌
reported_value f a info_level = record { adds = (reported_last (f a) info_level).adds }

pub reported-notify :
    (r : LogRecord) (attached : Bool) (n : Notification)
    → IsReport r
    → Adds reported (λ _. r ∷ []) (emit (logged r) >>= λ _. notify attached n)
unfolding emit from ◌>>=◌
reported-notify r false n info_level = record { adds = (reported_last r info_level).adds }
reported-notify r true n info_level = record {
  adds = λ h.
      tally-append reported (h ++ (logged r ∷ [])) (observed n ∷ [])
      ∙ append-nil _
      ∙ (reported_last r info_level).adds h;
}

pub reported_both :
    {A : Type 0} (f : A → LogRecord) (a : A) (attached : Bool) (n : Notification)
    → IsReport (f a)
    → Adds reported
        (λ r. f r ∷ [])
        (emit (logged (f a)) >>= λ _. notify attached n >>= λ _. from (ok a))
unfolding emit from ◌>>=◌
reported_both f a false n info_level = record { adds = (reported_last (f a) info_level).adds }
reported_both f a true n info_level = record {
  adds = λ h.
      tally-append reported (h ++ (logged (f a) ∷ [])) (observed n ∷ [])
      ∙ append-nil _
      ∙ (reported_last (f a) info_level).adds h;
}

-- A failing return code is logged at level error.
pub check_rc-Silent :
    (c : Codes) (d : Decoder) (rc : ℕ) (operation : String)
    → Silent reported (check_rc c d rc operation)
unfolding check_rc translate_tss_rc log_tss_error failure_record outcome_record
check_rc-Silent c d rc operation = record {
  adds = λ h. elim (Bool-cases (rc == c.rc_success)) [
    | inl fine ↦ rw fine (sym (append-nil (reports h)))
    | inr failed ↦ rw failed (tally-append reported h _)
  ];
}
