-- ===== src/Testing/Recorders.antt =====
-- src/adapters/mock/recording_logger.cpp and in_memory_pcr_observer.cpp: what a logger and an
-- observer are told is kept in order. A failed allocation, which drops a record, is not modelled.
use tpmkit.Base.{
  Bool-cases, inl, inr, suc, ℕ, ◌+◌, ◌≡◌, refl, ap, sym, ◌∙◌, Bool, List, [], ◌∷◌, ◌++◌,
  append_assoc, append-nil, codes, length, length-append, if◌then◌else◌,
}
use tpmkit.Logging.{LogLevel, LogField, LogRecord}
use tpmkit.Domain.Index.{Index}
use tpmkit.Domain.Values.{DigestValue, EventResult, index_eq}
use tpmkit.Tss.{Tss}
use tpmkit.Translation.{Codes}
use tpmkit.Provider.{perform, Provider}
use tpmkit.Provider.Port.{Request}
use tpmkit.Provider.Session.{Effect, EsysApi, Notification, on_event, on_extend}
use tpmkit.Provider.Notifies.{notifications, announced, notifications-perform}

-- `log_record` of recording_logger.h
pub record RecordedLog : Type 0 where
  pub level : LogLevel
  pub message : List ℕ
  pub fields : List (List ℕ × List ℕ)

abbrev copy_fields : List LogField → List (List ℕ × List ℕ)
copy_fields [] = []
copy_fields (f ∷ fs) = (codes f.key, f.value) ∷ copy_fields fs

unfoldable pub make_record : LogRecord → RecordedLog
make_record r = record { level = r.level; message = codes r.message; fields = copy_fields r.fields }

unfoldable pub record_log : List RecordedLog → LogRecord → List RecordedLog
unfolding make_record
record_log records r = records ++ (make_record r ∷ [])

unfoldable pub clear_log : List RecordedLog → List RecordedLog
clear_log records = []

pub data MeasurementOperation : Type 0 where
  extended measured : MeasurementOperation

pub record MeasurementRecord : Type 0 where
  pub index : Index
  pub operation : MeasurementOperation
  pub digests : List DigestValue
  pub event_data : List ℕ

unfoldable pub make_event_record : Index → List ℕ → EventResult → MeasurementRecord
make_event_record i event_data result = record {
  index = i;
  operation = measured;
  digests = result.digests;
  event_data = event_data;
}

unfoldable pub make_extend_record : Index → List DigestValue → MeasurementRecord
make_extend_record i digests = record {
  index = i;
  operation = extended;
  digests = digests;
  event_data = [];
}

-- `on_event` and `on_extend` of `in_memory_pcr_observer`.
unfoldable pub observe : List MeasurementRecord → Notification → List MeasurementRecord
unfolding make_event_record make_extend_record
observe records (on_event i event_data result) =
    records ++ (make_event_record i event_data result ∷ [])
observe records (on_extend i digests) = records ++ (make_extend_record i digests ∷ [])

unfoldable pub clear_entries : List MeasurementRecord → List MeasurementRecord
clear_entries records = []

unfoldable pub count : List MeasurementRecord → ℕ
count records = length records

unfoldable pub entries_by_index : Index → List MeasurementRecord → List MeasurementRecord
entries_by_index i [] = []
entries_by_index i (r ∷ records) =
    let matches = entries_by_index i records in if index_eq r.index i then r ∷ matches else matches

-- An observer that is told of all these, oldest first.
abbrev pub observe_all : List MeasurementRecord → List Notification → List MeasurementRecord
observe_all records [] = records
observe_all records (n ∷ ns) = observe_all (observe records n) ns

observe_all-from :
    (records : List MeasurementRecord) (ns : List Notification)
    → observe_all records ns ≡ records ++ observe_all [] ns
unfolding observe
observe_all-from records [] = sym (append-nil records)
observe_all-from records (on_event i d r ∷ ns) =
    observe_all-from _ ns
    ∙ append_assoc records (make_event_record i d r ∷ []) (observe_all [] ns)
    ∙ ap (◌++◌ records) (sym (observe_all-from (make_event_record i d r ∷ []) ns))
observe_all-from records (on_extend i ds ∷ ns) =
    observe_all-from _ ns
    ∙ append_assoc records (make_extend_record i ds ∷ []) (observe_all [] ns)
    ∙ ap (◌++◌ records) (sym (observe_all-from (make_extend_record i ds ∷ []) ns))

observe_all-append :
    (records : List MeasurementRecord) (ns ms : List Notification)
    → observe_all records (ns ++ ms) ≡ observe_all (observe_all records ns) ms
observe_all-append records [] ms = refl
observe_all-append records (n ∷ ns) ms = observe_all-append (observe records n) ns ms

entries_by_index-append :
    (i : Index) (xs ys : List MeasurementRecord)
    → entries_by_index i (xs ++ ys) ≡ entries_by_index i xs ++ entries_by_index i ys
unfolding entries_by_index
entries_by_index-append i [] ys = refl
entries_by_index-append i (x ∷ xs) ys = elim (Bool-cases (index_eq x.index i)) [
  | inl same ↦ rw same (ap (λ l. x ∷ l) (entries_by_index-append i xs ys))
  | inr other ↦ rw other (entries_by_index-append i xs ys)
]

length-observe_all : (ns : List Notification) → length (observe_all [] ns) ≡ length ns
unfolding observe
length-observe_all [] = refl
length-observe_all (on_event i d r ∷ ns) =
    ap length (observe_all-from (make_event_record i d r ∷ []) ns) ∙ ap suc (length-observe_all ns)
length-observe_all (on_extend i ds ∷ ns) =
    ap length (observe_all-from (make_extend_record i ds ∷ []) ns) ∙ ap suc (length-observe_all ns)

-- What the observer of a program has kept.
abbrev pub kept_by_observer : List Effect → List MeasurementRecord
kept_by_observer h = observe_all [] (notifications h)

module _ (legacy : Bool) (t : Tss) (c : Codes) (api : EsysApi) (p : Provider) where
  kept-perform :
      (r : Request) (h : List Effect)
      → kept_by_observer (perform legacy t c api p r h)
        ≡ kept_by_observer h ++ observe_all [] (announced legacy t c api p r h)
  kept-perform r h =
      ap (observe_all []) (notifications-perform legacy t c api p r h)
      ∙ observe_all-append [] (notifications h) (announced legacy t c api p r h)
      ∙ observe_all-from (kept_by_observer h) (announced legacy t c api p r h)

  -- An operation of the provider leaves what the in-memory observer has for a PCR and adds to it the
  -- records for that PCR of what the operation announces: the one of an `event` or an `extend` that
  -- succeeded, if the observer is attached, and nothing otherwise. The observer's count grows by the
  -- number of announcements.
  pub entries_by_index-perform :
      (r : Request) (h : List Effect) (i : Index)
      → (entries_by_index i (kept_by_observer (perform legacy t c api p r h))
          ≡ entries_by_index i (kept_by_observer h)
            ++ entries_by_index i (observe_all [] (announced legacy t c api p r h)))
        × (count (kept_by_observer (perform legacy t c api p r h))
            ≡ count (kept_by_observer h) + length (announced legacy t c api p r h))
  unfolding count
  entries_by_index-perform r h i = (
    ap (entries_by_index i) (kept-perform r h)
        ∙ entries_by_index-append i (kept_by_observer h)
            (observe_all [] (announced legacy t c api p r h)),
    ap length (kept-perform r h)
        ∙ length-append (kept_by_observer h) (observe_all [] (announced legacy t c api p r h))
        ∙ ap (λ n. length (kept_by_observer h) + n)
            (length-observe_all (announced legacy t c api p r h)),
  )
