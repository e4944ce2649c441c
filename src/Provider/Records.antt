-- ===== src/Provider/Records.antt =====
-- What the operations of esys_pcr_provider.cpp log through pcr_logging.cpp.
use tpmkit.Base.{ℕ, ◌≡◌, refl, ◌∙◌, Bool, List, [], ◌∷◌, ◌++◌, Option, none, some, String, length}
use tpmkit.Domain.Hash.{HashAlgorithm}
use tpmkit.Domain.Index.{Index}
use tpmkit.Domain.Values.{Bank, DigestValue, Selection}
use tpmkit.Logging.{LogRecord, success_record, outcome_record}
use tpmkit.Tss.{Tss}
use tpmkit.Translation.{Codes}
use tpmkit.Provider.Session.{Call, Effect, EsysApi, EventReply, ReadReply, release}
use tpmkit.Effects.Tally.{worth, Adds, Silent, bind-Adds, from-Silent, finally-Adds, tally-append}
use tpmkit.Provider.Port.{Request}
use tpmkit.Provider.{
  perform, Provider, call_status, call_checked, call_allocate, call_event, call_read, allocate,
  finish_event, event, extend, finish_read, read, reset, set_auth_policy, set_auth_value,
  log_allocate_completed, log_auth_policy_set, log_auth_value_set, log_event_completed,
  log_extend_completed, log_read_completed, log_reset_completed,
}
use tpmkit.Provider.Told.{
  told_allocate, told_event, told_extend, told_read, told_reset, told_auth_policy, told_auth_value,
}
use tpmkit.Provider.Reports.{
  reported, reports, reported_last, reported_value, reported-notify, reported_both, check_rc-Silent,
}

release_silent {ℓ} : {A : Type ℓ} (o : Option A) → reports (release o) ≡ []
release_silent none = refl
release_silent (some a) = refl

release_both : (reply : ReadReply) → reports (release reply.values ++ release reply.selection) ≡ []
release_both reply =
    tally-append reported (release reply.values) (release reply.selection)
    ∙ rw (release_silent reply.values) (release_silent reply.selection)

module _ (legacy : Bool) (t : Tss) (c : Codes) (api : EsysApi) (p : Provider) where
  call_checked-Silent :
      (request : Call) (operation : String)
      → Silent reported (call_checked legacy t c api p request operation)
  unfolding call_checked call_status
  call_checked-Silent request operation =
      bind-Adds reported (record { adds = λ h. tally-append reported h _ })
        λ rc. check_rc-Silent _ _ _ _

  allocate-Adds :
      (banks : List Bank)
      → Adds reported
          (λ r. told_allocate r.allocation_success (length banks) ∷ [])
          (allocate legacy t c api p banks)
  unfolding allocate call_allocate log_allocate_completed success_record outcome_record
  allocate-Adds banks = bind-Adds reported (from-Silent reported _) λ _.
      bind-Adds reported (from-Silent reported _) λ _.
        bind-Adds reported (record { adds = λ h. tally-append reported h _ })
          λ reply.
            bind-Adds reported (check_rc-Silent _ _ _ _)
              λ _. reported_value (λ r. told_allocate r.allocation_success (length banks)) _ refl

  finish_event-Adds :
      (i : Index) (event_data : List ℕ) (reply : EventReply)
      → Adds reported
          (λ r. told_event i (length event_data) (length r.digests) ∷ [])
          (finish_event legacy t c api p i event_data reply)
  unfolding finish_event log_event_completed success_record outcome_record
  finish_event-Adds i event_data reply = bind-Adds reported (check_rc-Silent _ _ _ _) λ _.
      bind-Adds reported (from-Silent reported _) λ digests.
        bind-Adds reported (from-Silent reported _)
          λ ds. reported_both (λ r. told_event i (length event_data) (length r.digests)) _ _ _ refl

  event-Adds :
      (i : Index) (event_data : List ℕ)
      → Adds reported
          (λ r. told_event i (length event_data) (length r.digests) ∷ [])
          (event legacy t c api p i event_data)
  unfolding event call_event
  event-Adds i event_data = bind-Adds reported (from-Silent reported _) λ _.
      bind-Adds reported (from-Silent reported _) λ _.
        bind-Adds reported (record { adds = λ h. tally-append reported h _ })
          λ reply.
            finally-Adds reported _ (release_silent reply.digests)
              (finish_event-Adds i event_data reply)

  extend-Adds :
      (i : Index) (digests : List DigestValue)
      → Adds reported (λ _. told_extend i (length digests) ∷ []) (extend legacy t c api p i digests)
  unfolding extend log_extend_completed success_record outcome_record
  extend-Adds i digests = bind-Adds reported (from-Silent reported _) λ _.
      bind-Adds reported (from-Silent reported _)
        λ _. bind-Adds reported (call_checked-Silent _ _) λ _. reported-notify _ _ _ refl

  finish_read-Adds :
      (s : Selection) (reply : ReadReply)
      → Adds reported
          (λ r. told_read r.actual_selection (length r.values) ∷ [])
          (finish_read legacy t c api p s reply)
  unfolding finish_read log_read_completed success_record outcome_record
  finish_read-Adds s reply = bind-Adds reported (check_rc-Silent _ _ _ _) λ _.
      bind-Adds reported (from-Silent reported _) λ both.
        bind-Adds reported (from-Silent reported _) λ ds.
          bind-Adds reported (from-Silent reported _)
            λ vs. reported_value (λ r. told_read r.actual_selection (length r.values)) _ refl

  read-Adds :
      (s : Selection)
      → Adds reported
          (λ r. told_read r.actual_selection (length r.values) ∷ [])
          (read legacy t c api p s)
  unfolding read call_read
  read-Adds s = bind-Adds reported (from-Silent reported _) λ _.
      bind-Adds reported (record { adds = λ h. tally-append reported h _ })
        λ reply. finally-Adds reported _ (release_both reply) (finish_read-Adds s reply)

  reset-Adds : (i : Index) → Adds reported (λ _. told_reset i ∷ []) (reset legacy t c api p i)
  unfolding reset log_reset_completed success_record outcome_record
  reset-Adds i =
      bind-Adds reported (from-Silent reported _)
        λ _. bind-Adds reported (call_checked-Silent _ _) λ _. reported_last _ refl

  set_auth_policy-Adds :
      (i : Index) (a : HashAlgorithm) (digest : List ℕ)
      → Adds reported (λ _. told_auth_policy i a ∷ []) (set_auth_policy legacy t c api p i a digest)
  unfolding set_auth_policy log_auth_policy_set success_record outcome_record
  set_auth_policy-Adds i a digest = bind-Adds reported (from-Silent reported _) λ _.
      bind-Adds reported (from-Silent reported _)
        λ _. bind-Adds reported (call_checked-Silent _ _) λ _. reported_last _ refl

  set_auth_value-Adds :
      (i : Index) (auth : List ℕ)
      → Adds reported (λ _. told_auth_value i ∷ []) (set_auth_value legacy t c api p i auth)
  unfolding set_auth_value log_auth_value_set success_record outcome_record
  set_auth_value-Adds i auth = bind-Adds reported (from-Silent reported _) λ _.
      bind-Adds reported (from-Silent reported _) λ _.
        bind-Adds reported (from-Silent reported _) λ _.
          bind-Adds reported (call_checked-Silent _ _) λ _.
            bind-Adds reported (call_checked-Silent _ _)
              λ _. bind-Adds reported (call_checked-Silent _ _) λ _. reported_last _ refl

  -- The report that an operation's outcome is due, as the log is to be told: one for a value, none
  -- for an error.
  abbrev pub due : Request → List Effect → List LogRecord
  due (Request.allocate banks) h =
      worth reported (λ r. told_allocate r.allocation_success (length banks) ∷ [])
        (allocate legacy t c api p banks h).0
  due (Request.event i d) h =
      worth reported (λ r. told_event i (length d) (length r.digests) ∷ [])
        (event legacy t c api p i d h).0
  due (Request.extend i ds) h =
      worth reported (λ _. told_extend i (length ds) ∷ []) (extend legacy t c api p i ds h).0
  due (Request.read s) h =
      worth reported (λ r. told_read r.actual_selection (length r.values) ∷ [])
        (read legacy t c api p s h).0
  due (Request.reset i) h = worth reported (λ _. told_reset i ∷ []) (reset legacy t c api p i h).0
  due (Request.set_auth_policy i a d) h =
      worth reported (λ _. told_auth_policy i a ∷ []) (set_auth_policy legacy t c api p i a d h).0
  due (Request.set_auth_value i auth) h =
      worth reported (λ _. told_auth_value i ∷ []) (set_auth_value legacy t c api p i auth h).0

  -- On every path of every operation, whatever the TSS answers, the log gets exactly one record
  -- at level info when the operation returns a value, and none when it fails. The record is the
  -- one that is written out for the operation: its event's name and message, the component, the
  -- outcome, and last its own fields, in order, with the sizes of what it was given or returns.
  pub reports-perform :
      (r : Request) (h : List Effect)
      → reports (perform legacy t c api p r h) ≡ reports h ++ due r h
  unfolding perform
  reports-perform (Request.allocate banks) = (allocate-Adds banks).adds
  reports-perform (Request.event i d) = (event-Adds i d).adds
  reports-perform (Request.extend i ds) = (extend-Adds i ds).adds
  reports-perform (Request.read s) = (read-Adds s).adds
  reports-perform (Request.reset i) = (reset-Adds i).adds
  reports-perform (Request.set_auth_policy i a d) = (set_auth_policy-Adds i a d).adds
  reports-perform (Request.set_auth_value i auth) = (set_auth_value-Adds i auth).adds
