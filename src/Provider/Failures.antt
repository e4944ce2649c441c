-- ===== src/Provider/Failures.antt =====
-- What esys_pcr_provider.cpp logs of the calls that fail.
pub mod Owed
pub mod Rules
use tpmkit.Base.{ℕ, ◌+◌, sym, ◌≡◌, refl, ◌∙◌, append-nil, ap, Bool, List, [], ◌∷◌, ◌++◌, String}
use tpmkit.Domain.Hash.{HashAlgorithm}
use tpmkit.Domain.Index.{Index}
use tpmkit.Domain.Values.{Bank, DigestValue, Selection}
use tpmkit.Tss.{Tss}
use tpmkit.Translation.{Codes}
use tpmkit.Provider.Session.{
  Run, buffers, Call, Effect, on_event, on_extend, EsysApi, EventReply, ReadReply, release,
}
use tpmkit.Effects.Tally.{worth_nothing}
use tpmkit.Provider.Port.{Request}
use tpmkit.Provider.{
  perform, Provider, call_status, call_checked, call_allocate, call_event, call_read, allocate,
  finish_event, event, extend, finish_read, read, reset, set_auth_policy, set_auth_value,
  log_allocate_completed, log_auth_policy_set, log_auth_value_set, log_event_completed,
  log_extend_completed, log_read_completed, log_reset_completed,
}
use tpmkit.Effects.Owing.{Owing, append-Quiet, settled}
use tpmkit.Translation.Reports.{due_for}
use Owed.{failure_of, error_logged, errors, answered_rc, failures, Settles, Paid}
use Rules.{
  bind-Settles, from-Paid, success-Paid, notify-Paid, release-Quiet, finally-Settles, call-Settles,
  check_rc-Settles,
}

module _ (legacy : Bool) (t : Tss) (c : Codes) (api : EsysApi) (p : Provider) where
  call_checked-Paid :
      (request : Call) (operation : String)
      → ((h : List Effect) → answered_rc c api h request ≡ api.status h request)
      → Paid c api (call_checked legacy t c api p request operation)
  unfolding call_checked
  call_checked-Paid request operation plain =
      bind-Settles c api (call_status-Settles request plain)
        λ rc. check_rc-Settles c api rc operation
    where
      call_status-Settles :
          (request : Call)
          → ((h : List Effect) → answered_rc c api h request ≡ api.status h request)
          → Settles c api [] (due_for c) (call_status legacy t c api p request)
      call_status-Settles request plain =
          call-Settles c api (λ rc. rc) request (λ h. api.status h request) (λ _. 0) (λ h. refl)
            plain

  finish_event-Settles :
      (i : Index) (event_data : List ℕ) (reply : EventReply)
      → Settles c api
          (due_for c reply.rc)
          (λ _. [])
          (finish_event legacy t c api p i event_data reply)
  unfolding finish_event log_event_completed
  finish_event-Settles i event_data reply = bind-Settles c api (check_rc-Settles c api _ _) λ _.
      bind-Settles c api (from-Paid c api _) λ digests. bind-Settles c api (from-Paid c api _) λ ds.
        bind-Settles c api (success-Paid c api _ _)
          λ _. bind-Settles c api (notify-Paid c api _ _) λ _. from-Paid c api _

  event-Paid : (i : Index) (event_data : List ℕ) → Paid c api (event legacy t c api p i event_data)
  unfolding event call_event
  event-Paid i event_data = bind-Settles c api (from-Paid c api _) λ _.
      bind-Settles c api (from-Paid c api _) λ _.
        bind-Settles c api
          (call-Settles c api (λ reply. reply.rc) _ _ (λ reply. buffers reply.digests) (λ h. refl)
            λ h. refl)
          λ reply.
            finally-Settles c api _ (release-Quiet c api reply.digests)
              (finish_event-Settles i event_data reply)

  extend-Paid :
      (i : Index) (digests : List DigestValue) → Paid c api (extend legacy t c api p i digests)
  unfolding extend log_extend_completed
  extend-Paid i digests = bind-Settles c api (from-Paid c api _) λ _.
      bind-Settles c api (from-Paid c api _) λ _.
        bind-Settles c api (call_checked-Paid _ _ λ h. refl)
          λ _. bind-Settles c api (success-Paid c api _ _) λ _. notify-Paid c api _ _

  allocate-Paid : (banks : List Bank) → Paid c api (allocate legacy t c api p banks)
  unfolding allocate call_allocate log_allocate_completed
  allocate-Paid banks = bind-Settles c api (from-Paid c api _) λ _.
      bind-Settles c api (from-Paid c api _) λ _.
        bind-Settles c api
          (call-Settles c api (λ reply. reply.rc) _ _ (λ _. 0) (λ h. refl) λ h. refl)
          λ reply.
            bind-Settles c api (check_rc-Settles c api _ _)
              λ _. bind-Settles c api (success-Paid c api _ _) λ _. from-Paid c api _

  finish_read-Settles :
      (s : Selection) (reply : ReadReply)
      → Settles c api (due_for c reply.rc) (λ _. []) (finish_read legacy t c api p s reply)
  unfolding finish_read log_read_completed
  finish_read-Settles s reply = bind-Settles c api (check_rc-Settles c api _ _) λ _.
      bind-Settles c api (from-Paid c api _) λ both. bind-Settles c api (from-Paid c api _) λ ds.
        bind-Settles c api (from-Paid c api _)
          λ vs. bind-Settles c api (success-Paid c api _ _) λ _. from-Paid c api _

  read-Paid : (s : Selection) → Paid c api (read legacy t c api p s)
  unfolding read call_read
  read-Paid s = bind-Settles c api (from-Paid c api _) λ _.
      bind-Settles c api
        (call-Settles c api (λ reply. reply.rc) _ _
          (λ reply. buffers reply.selection + buffers reply.values) (λ h. refl) λ h. refl)
        λ reply.
          finally-Settles c api _
            (append-Quiet error_logged (failure_of c api) _ _ (release-Quiet c api reply.values)
              (release-Quiet c api reply.selection))
            (finish_read-Settles s reply)

  reset-Paid : (i : Index) → Paid c api (reset legacy t c api p i)
  unfolding reset log_reset_completed
  reset-Paid i =
      bind-Settles c api (from-Paid c api _)
        λ _. bind-Settles c api (call_checked-Paid _ _ λ h. refl) λ _. success-Paid c api _ _

  set_auth_policy-Paid :
      (i : Index) (a : HashAlgorithm) (digest : List ℕ)
      → Paid c api (set_auth_policy legacy t c api p i a digest)
  unfolding set_auth_policy log_auth_policy_set
  set_auth_policy-Paid i a digest = bind-Settles c api (from-Paid c api _) λ _.
      bind-Settles c api (from-Paid c api _)
        λ _. bind-Settles c api (call_checked-Paid _ _ λ h. refl) λ _. success-Paid c api _ _

  set_auth_value-Paid :
      (i : Index) (auth : List ℕ) → Paid c api (set_auth_value legacy t c api p i auth)
  unfolding set_auth_value log_auth_value_set
  set_auth_value-Paid i auth = bind-Settles c api (from-Paid c api _) λ _.
      bind-Settles c api (from-Paid c api _) λ _. bind-Settles c api (from-Paid c api _) λ _.
        bind-Settles c api (call_checked-Paid _ _ λ h. refl) λ _.
          bind-Settles c api (call_checked-Paid _ _ λ h. refl)
            λ _. bind-Settles c api (call_checked-Paid _ _ λ h. refl) λ _. success-Paid c api _ _

  perform_paid :
      (r : Request) (h : List Effect)
      → Owing error_logged (failure_of c api) [] h
      → Owing error_logged (failure_of c api) [] (perform legacy t c api p r h)
  unfolding perform
  perform_paid (Request.allocate banks) h now =
      settled error_logged (failure_of c api) h (allocate-Paid banks) now
  perform_paid (Request.event i d) h now =
      settled error_logged (failure_of c api) h (event-Paid i d) now
  perform_paid (Request.extend i ds) h now =
      settled error_logged (failure_of c api) h (extend-Paid i ds) now
  perform_paid (Request.read s) h now = settled error_logged (failure_of c api) h (read-Paid s) now
  perform_paid (Request.reset i) h now =
      settled error_logged (failure_of c api) h (reset-Paid i) now
  perform_paid (Request.set_auth_policy i a d) h now =
      settled error_logged (failure_of c api) h (set_auth_policy-Paid i a d) now
  perform_paid (Request.set_auth_value i auth) h now =
      settled error_logged (failure_of c api) h (set_auth_value-Paid i auth) now

  -- The effects of operations that are performed one after the other.
  abbrev pub perform_all : List Request → List Effect → List Effect
  perform_all [] h = h
  perform_all (r ∷ rs) h = perform_all rs (perform legacy t c api p r h)

  all_paid :
      (rs : List Request) (h : List Effect)
      → Owing error_logged (failure_of c api) [] h
      → Owing error_logged (failure_of c api) [] (perform_all rs h)
  all_paid [] h now = now
  all_paid (r ∷ rs) h now = all_paid rs (perform legacy t c api p r h) (perform_paid r h now)

  -- After any sequence of operations, whatever the TSS answers: the records at level error in the
  -- log are exactly one for each call of the TSS that failed, in the order of the calls, with the
  -- category and the code that the call's own return code stands for.
  pub errors-perform_all :
      (rs : List Request) → errors (perform_all rs []) ≡ failures c api (perform_all rs [])
  errors-perform_all rs = sym (all_paid rs [] refl ∙ append-nil (errors (perform_all rs [])))
