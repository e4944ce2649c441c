-- ===== src/Translation/Reports.antt =====
-- What the records of error_translation.cpp at level error say: the category and the code.
use tpmkit.Base.{
  ℕ, Bool, true, false, ◌&&◌, List, [], ◌∷◌, Option, none, some, String, codes, ◌==◌, if◌then◌else◌,
}
use tpmkit.Base.Decimal.{to_hex8}
use tpmkit.Logging.{LogLevel, trace, debug, info, warn, error, unlisted, LogField, LogRecord}
use tpmkit.Translation.{Codes, translated_category, category_name}

abbrev same_text : List ℕ → List ℕ → Bool
same_text [] [] = true
same_text [] (d ∷ ds) = false
same_text (c ∷ cs) [] = false
same_text (c ∷ cs) (d ∷ ds) = (c == d) && same_text cs ds

-- The value of the first field with a key.
abbrev value_of : String → List LogField → Option (List ℕ)
value_of key [] = none
value_of key (f ∷ fs) =
    if same_text (codes f.key) (codes key) then some f.value else value_of key fs

-- What a record says of an error: its category and its code.
abbrev pub Report : Type 0
Report = Option (List ℕ) × Option (List ℕ)

abbrev pub report : LogRecord → Report
report r = (value_of "error_category" r.fields, value_of "error_code" r.fields)

abbrev pub at_error : LogLevel → LogRecord → List Report
at_error error r = report r ∷ []
at_error trace r = []
at_error debug r = []
at_error info r = []
at_error warn r = []
at_error (unlisted n) r = []

module _ (c : Codes) where
  -- What the log should say of a return code.
  abbrev pub entry_of : ℕ → Report
  entry_of rc = (some (codes (category_name (translated_category c rc))), some (to_hex8 rc))

  abbrev pub due_for : ℕ → List Report
  due_for rc = if rc == c.rc_success then [] else entry_of rc ∷ []
