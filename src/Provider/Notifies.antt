-- ===== src/Provider/Notifies.antt =====
-- When the observer of esys_pcr_provider.cpp is notified.
use tpmkit.Base.{
  ℕ, ◌≡◌, refl, ap, sym, ◌∙◌, append-nil, Bool, true, false, List, [], ◌∷◌, ◌++◌, Option, none,
  some, String,
}
use tpmkit.Outcome.{Outcome, ok}
use tpmkit.Domain.Hash.{HashAlgorithm}
use tpmkit.Domain.Index.{Index}
use tpmkit.Domain.Values.{Bank, DigestValue, Selection}
use tpmkit.Tss.{Tss}
use tpmkit.Translation.{Codes}
use tpmkit.Provider.Session.{
  Call, Effect, called, logged, observed, freed, Notification, on_event, on_extend, EsysApi,
  EventReply, ReadReply, from, emit, ◌>>=◌, release,
}
use tpmkit.Effects.Tally.{
  worth, worth_nothing, tally, Adds, Silent, bind-Adds, from-Silent, emit-Silent, finally-Adds,
  tally-append,
}
use tpmkit.Provider.Tally.{check_rc-Silent}
use tpmkit.Provider.Port.{Request}
use tpmkit.Provider.{
  perform, Provider, notify, call_status, call_checked, call_allocate, call_event, call_read,
  allocate, finish_event, event, extend, finish_read, read, reset, set_auth_policy, set_auth_value,
}

abbrev notified : Effect → List Notification
notified (called c n) = []
notified (logged r) = []
notified (observed n) = n ∷ []
notified freed = []

-- The notifications among the effects, in order.
abbrev pub notifications : List Effect → List Notification
notifications = tally notified

-- What an attached observer is told; without one, nobody is.
abbrev pub told : Bool → Notification → List Notification
told true n = n ∷ []
told false n = []

-- What is told of a call that ended: of a value, `told`; of an error, nothing.
abbrev pub told_of : {A : Type 0} → Bool → (A → Notification) → Outcome A → List Notification
told_of attached f = worth notified (λ a. told attached (f a))

notify-Adds :
    {A : Type 0} (attached : Bool) (f : A → Notification) (a : A)
    → Adds notified (λ r. told attached (f r)) (notify attached (f a) >>= λ _. from (ok a))
unfolding ◌>>=◌ from emit
notify-Adds true f a = record { adds = λ h. tally-append notified h (observed (f a) ∷ []) }
notify-Adds false f a = record { adds = λ h. sym (append-nil (tally notified h)) }

notify_last :
    (attached : Bool) (n : Notification) → Adds notified (λ _. told attached n) (notify attached n)
unfolding from emit
notify_last true n = record { adds = λ h. tally-append notified h (observed n ∷ []) }
notify_last false n = record { adds = λ h. sym (append-nil (tally notified h)) }

release_silent {ℓ} : {A : Type ℓ} (o : Option A) → notifications (release o) ≡ []
release_silent none = refl
release_silent (some a) = refl

release_both :
    (reply : ReadReply) → notifications (release reply.values ++ release reply.selection) ≡ []
release_both reply =
    tally-append notified (release reply.values) (release reply.selection)
    ∙ rw (release_silent reply.values) (release_silent reply.selection)

module _ (legacy : Bool) (t : Tss) (c : Codes) (api : EsysApi) (p : Provider) where
  call_event-Silent : (request : Call) → Silent notified (call_event legacy t c api p request)
  unfolding call_event
  call_event-Silent request = record { adds = λ h. tally-append notified h _ }

  finish_event-Adds :
      (i : Index) (event_data : List ℕ) (reply : EventReply)
      → Adds notified
          (λ r. told p.observer (on_event i event_data r))
          (finish_event legacy t c api p i event_data reply)
  unfolding finish_event
  finish_event-Adds i event_data reply =
      bind-Adds notified (check_rc-Silent notified _ _ _ _ (λ r. refl)) λ _.
        bind-Adds notified (from-Silent notified _) λ digests.
          bind-Adds notified (from-Silent notified _) λ ds.
            bind-Adds notified (emit-Silent notified refl)
              λ _. notify-Adds p.observer (on_event i event_data) _

  event-Adds :
      (i : Index) (event_data : List ℕ)
      → Adds notified
          (λ r. told p.observer (on_event i event_data r))
          (event legacy t c api p i event_data)
  unfolding event
  event-Adds i event_data = bind-Adds notified (from-Silent notified _) λ _.
      bind-Adds notified (from-Silent notified _) λ _.
        bind-Adds notified (call_event-Silent _) λ reply.
          finally-Adds notified _ (release_silent reply.digests)
            (finish_event-Adds i event_data reply)

  call_checked-Silent :
      (request : Call) (operation : String)
      → Silent notified (call_checked legacy t c api p request operation)
  unfolding call_checked
  call_checked-Silent request operation =
      bind-Adds notified (call_status-Silent request)
        λ rc. check_rc-Silent notified _ _ _ _ (λ r. refl)
    where
      call_status-Silent : (request : Call) → Silent notified (call_status legacy t c api p request)
      call_status-Silent request = record { adds = λ h. tally-append notified h _ }

  extend-Adds :
      (i : Index) (digests : List DigestValue)
      → Adds notified
          (λ _. told p.observer (on_extend i digests))
          (extend legacy t c api p i digests)
  unfolding extend
  extend-Adds i digests = bind-Adds notified (from-Silent notified _) λ _.
      bind-Adds notified (from-Silent notified _) λ _.
        bind-Adds notified (call_checked-Silent _ _)
          λ _. bind-Adds notified (emit-Silent notified refl) λ _. notify_last p.observer _

  allocate-Silent : (banks : List Bank) → Silent notified (allocate legacy t c api p banks)
  unfolding allocate call_allocate
  allocate-Silent banks = bind-Adds notified (from-Silent notified _) λ _.
      bind-Adds notified (from-Silent notified _) λ _.
        bind-Adds notified (record { adds = λ h. tally-append notified h _ })
          λ reply.
            bind-Adds notified (check_rc-Silent notified _ _ _ _ (λ r. refl))
              λ _. bind-Adds notified (emit-Silent notified refl) λ _. from-Silent notified _

  finish_read-Silent :
      (s : Selection) (reply : ReadReply) → Silent notified (finish_read legacy t c api p s reply)
  unfolding finish_read
  finish_read-Silent s reply =
      bind-Adds notified (check_rc-Silent notified _ _ _ _ (λ r. refl)) λ _.
        bind-Adds notified (from-Silent notified _) λ both.
          bind-Adds notified (from-Silent notified _) λ ds.
            bind-Adds notified (from-Silent notified _)
              λ vs. bind-Adds notified (emit-Silent notified refl) λ _. from-Silent notified _

  read-Silent : (s : Selection) → Silent notified (read legacy t c api p s)
  unfolding read call_read
  read-Silent s = bind-Adds notified (from-Silent notified _) λ _.
      bind-Adds notified (record { adds = λ h. tally-append notified h _ })
        λ reply. finally-Adds notified _ (release_both reply) (finish_read-Silent s reply)

  reset-Silent : (i : Index) → Silent notified (reset legacy t c api p i)
  unfolding reset
  reset-Silent i =
      bind-Adds notified (from-Silent notified _)
        λ _. bind-Adds notified (call_checked-Silent _ _) λ _. emit-Silent notified refl

  set_auth_policy-Silent :
      (i : Index) (a : HashAlgorithm) (digest : List ℕ)
      → Silent notified (set_auth_policy legacy t c api p i a digest)
  unfolding set_auth_policy
  set_auth_policy-Silent i a digest = bind-Adds notified (from-Silent notified _) λ _.
      bind-Adds notified (from-Silent notified _)
        λ _. bind-Adds notified (call_checked-Silent _ _) λ _. emit-Silent notified refl

  set_auth_value-Silent :
      (i : Index) (auth : List ℕ) → Silent notified (set_auth_value legacy t c api p i auth)
  unfolding set_auth_value
  set_auth_value-Silent i auth = bind-Adds notified (from-Silent notified _) λ _.
      bind-Adds notified (from-Silent notified _) λ _.
        bind-Adds notified (from-Silent notified _) λ _.
          bind-Adds notified (call_checked-Silent _ _) λ _.
            bind-Adds notified (call_checked-Silent _ _)
              λ _. bind-Adds notified (call_checked-Silent _ _) λ _. emit-Silent notified refl

  -- What an operation's outcome should be announced as.
  abbrev pub announced : Request → List Effect → List Notification
  announced (Request.event i d) h =
      told_of p.observer (on_event i d) (event legacy t c api p i d h).0
  announced (Request.extend i ds) h =
      told_of p.observer (λ _. on_extend i ds) (extend legacy t c api p i ds h).0
  announced (Request.allocate banks) h = []
  announced (Request.read s) h = []
  announced (Request.reset i) h = []
  announced (Request.set_auth_policy i a d) h = []
  announced (Request.set_auth_value i auth) h = []

  -- On every path of every operation, whatever the TSS answers: an attached observer is notified
  -- exactly once, with the operation's own arguments and result, when `event` or `extend`
  -- succeeds; no other outcome and no other operation notifies anyone.
  pub notifications-perform :
      (r : Request) (h : List Effect)
      → notifications (perform legacy t c api p r h) ≡ notifications h ++ announced r h
  unfolding perform
  notifications-perform (Request.event i d) h = (event-Adds i d).adds h
  notifications-perform (Request.extend i ds) h = (extend-Adds i ds).adds h
  notifications-perform (Request.allocate banks) h =
      (allocate-Silent banks).adds h ∙ ap (◌++◌ (notifications h)) (worth_nothing notified _)
  notifications-perform (Request.read s) h =
      (read-Silent s).adds h ∙ ap (◌++◌ (notifications h)) (worth_nothing notified _)
  notifications-perform (Request.reset i) h =
      (reset-Silent i).adds h ∙ ap (◌++◌ (notifications h)) (worth_nothing notified _)
  notifications-perform (Request.set_auth_policy i a d) h =
      (set_auth_policy-Silent i a d).adds h ∙ ap (◌++◌ (notifications h)) (worth_nothing notified _)
  notifications-perform (Request.set_auth_value i auth) h =
      (set_auth_value-Silent i auth).adds h ∙ ap (◌++◌ (notifications h)) (worth_nothing notified _)
