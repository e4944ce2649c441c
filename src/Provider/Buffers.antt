-- ===== src/Provider/Buffers.antt =====
-- The buffers that the TSS hands out to esys_pcr_provider.cpp, which holds them in `unique_ptr`s.
use tpmkit.Base.{
  ℕ, zero, suc, ◌+◌, ◌≡◌, refl, ap, ◌∙◌, arith, List, [], ◌∷◌, ◌++◌, Option, none, some, map,
  String, ◌==◌, Bool, true, false, Bool-cases, inl, inr,
}
use tpmkit.Outcome.{Outcome, ok, unexpected, raised}
use tpmkit.Domain.Index.{Index}
use tpmkit.Domain.Values.{Bank, Selection}
use tpmkit.Logging.{LogRecord, pcr_tss_error}
use tpmkit.Tss.{Tss}
use tpmkit.Translation.{Codes, Decoder, translate_tss_rc}
use tpmkit.Provider.Session.{
  Call, Effect, called, logged, observed, freed, Notification, EsysApi, EventReply, ReadReply, Run,
  from, emit, ◌>>=◌, resume, finally, buffers, release, check_rc,
}
use tpmkit.Provider.Port.{Request}
use tpmkit.Provider.{
  perform, Provider, notify, call_status, call_checked, call_allocate, call_event, call_read,
  allocate, finish_event, event, extend, finish_read, read, reset, set_auth_policy, set_auth_value,
}

-- How many buffers are held after the effects, given how many were before; `none` when one is
-- given back that is not held.
abbrev pub held : ℕ → List Effect → Option ℕ
held n [] = some n
held n (called c k ∷ es) = held (n + k) es
held n (logged r ∷ es) = held n es
held n (observed o ∷ es) = held n es
held zero (freed ∷ es) = none
held (suc n) (freed ∷ es) = held n es

held-append : (n k : ℕ) (h es : List Effect) → held n h ≡ some k → held n (h ++ es) ≡ held k es
held-append n k [] es e = ap (λ n. held n es) (the_number e)
  where
    the_number : {n k : ℕ} → some n ≡ some k → n ≡ k
    the_number e = cc
held-append n k (called c j ∷ h) es e = held-append (n + j) k h es e
held-append n k (logged r ∷ h) es e = held-append n k h es e
held-append n k (observed o ∷ h) es e = held-append n k h es e
held-append zero k (freed ∷ h) es e = cc
held-append (suc n) k (freed ∷ h) es e = held-append n k h es e

-- A run that leaves as many buffers held as it found.
record Keeps {A : Type 0} (m : Run A) : Type 0 where
  keeps : (h : List Effect) (k : ℕ) → held 0 h ≡ some k → held 0 (m h).1 ≡ some k

-- A run that gives back `n` buffers which were held before.
record Returns {A : Type 0} (n : ℕ) (m : Run A) : Type 0 where
  returned : (h : List Effect) (k : ℕ) → held 0 h ≡ some (k + n) → held 0 (m h).1 ≡ some k

resume-Keeps :
    {A B : Type 0} (r : Outcome A × List Effect) (f : A → Run B) (k : ℕ)
    → held 0 r.1 ≡ some k
    → ((a : A) → Keeps (f a))
    → held 0 (resume r f).1 ≡ some k
resume-Keeps (ok a, h) f k e all = (all a).keeps h k e
resume-Keeps (unexpected x, h) f k e all = e
resume-Keeps (raised x, h) f k e all = e

bind-Keeps :
    {A B : Type 0} {m : Run A} {f : A → Run B} → Keeps m → ((a : A) → Keeps (f a)) → Keeps (m >>= f)
unfolding ◌>>=◌
bind-Keeps {m} {f} first all = record {
  keeps = λ h k e. resume-Keeps (m h) f k (first.keeps h k e) all;
}

from-Keeps : {A : Type 0} (r : Outcome A) → Keeps (from r)
unfolding from
from-Keeps r = record { keeps = λ h k e. e }

append_keeps :
    (es : List Effect) (h : List Effect) (k n : ℕ)
    → held n es ≡ some k
    → held 0 h ≡ some n
    → held 0 (h ++ es) ≡ some k
append_keeps es h k n gives e = held-append 0 n h es e ∙ gives

emit_record : (r : LogRecord) → Keeps (emit (logged r))
unfolding emit
emit_record r = record { keeps = λ h k e. append_keeps (logged r ∷ []) h k k refl e }

notify-Keeps : (attached : Bool) (n : Notification) → Keeps (notify attached n)
unfolding emit from
notify-Keeps true n = record { keeps = λ h k e. append_keeps (observed n ∷ []) h k k refl e }
notify-Keeps false n = record { keeps = λ h k e. e }

logged_keeps : (rs : List LogRecord) (k : ℕ) → held k (map logged rs) ≡ some k
logged_keeps [] k = refl
logged_keeps (r ∷ rs) k = logged_keeps rs k

check_rc-Keeps :
    (c : Codes) (d : Decoder) (rc : ℕ) (operation : String) → Keeps (check_rc c d rc operation)
unfolding check_rc
check_rc-Keeps c d rc operation = record {
  keeps = λ h k e. elim (Bool-cases (rc == c.rc_success)) [
    | inl fine ↦ rw fine e
    | inr failed ↦
        let (r, records) = translate_tss_rc c rc operation true pcr_tss_error d in
        rw failed (append_keeps (map logged records) h k k (logged_keeps records k) e)
  ];
}

finally-Returns :
    {A : Type 0} {m : Run A} (n : ℕ) (es : List Effect)
    → ((k : ℕ) → held (k + n) es ≡ some k)
    → Keeps m
    → Returns n (finally m es)
unfolding finally
finally-Returns {m} n es gives all = record {
  returned = λ h k e. append_keeps es (m h).1 k (k + n) (gives k) (all.keeps h (k + n) e);
}

held_freed : (k : ℕ) (es : List Effect) → held (k + 1) (freed ∷ es) ≡ held k es
held_freed k es = ap (λ n. held n (freed ∷ es)) (k_suc k)
  where
    k_suc : (k : ℕ) → k + 1 ≡ suc k
    k_suc k = omega arith

add_zero : (k : ℕ) → k + 0 ≡ k
add_zero k = omega arith

release_one {ℓ} : {A : Type ℓ} (o : Option A) (k : ℕ) → held (k + buffers o) (release o) ≡ some k
release_one none k = ap some (add_zero k)
release_one (some a) k = held_freed k []

release_two {ℓ κ} :
    {A : Type ℓ} {B : Type κ} (o : Option A) (p : Option B) (k : ℕ)
    → held (k + (buffers o + buffers p)) (release p ++ release o) ≡ some k
release_two none none k = ap some (add_zero k)
release_two none (some b) k = held_freed k []
release_two (some a) none k = held_freed k []
release_two (some a) (some b) k =
    ap (λ n. held n (freed ∷ freed ∷ [])) (two_more k)
    ∙ held_freed (k + 1) (freed ∷ [])
    ∙ held_freed k []
  where
    two_more : (k : ℕ) → k + 2 ≡ k + 1 + 1
    two_more k = omega arith

-- A call hands out buffers, and what follows gives them back.
handed_back :
    {A B : Type 0} (request : Call) (reply : List Effect → A) (n : A → ℕ) {f : A → Run B}
    → ((a : A) → Returns (n a) (f a))
    → Keeps ((λ h. (ok (reply h), h ++ (called request (n (reply h)) ∷ []))) >>= f)
unfolding ◌>>=◌
handed_back request reply n all = record {
  keeps = λ h k e.
      (all (reply h)).returned _ k (append_keeps (called request (n (reply h)) ∷ []) h _ k refl e);
}

-- A call that hands out none.
call-Keeps :
    {A : Type 0} (request : Call) (reply : List Effect → A)
    → Keeps (λ h. (ok (reply h), h ++ (called request 0 ∷ [])))
call-Keeps request reply = record {
  keeps = λ h k e. append_keeps (called request 0 ∷ []) h k k (ap some (add_zero k)) e;
}

module _ (legacy : Bool) (t : Tss) (c : Codes) (api : EsysApi) (p : Provider) where
  call_checked-Keeps :
      (request : Call) (operation : String)
      → Keeps (call_checked legacy t c api p request operation)
  unfolding call_checked call_status
  call_checked-Keeps request operation =
      bind-Keeps (call-Keeps request (λ h. api.status h request)) λ rc. check_rc-Keeps _ _ _ _

  finish_event-Keeps :
      (i : Index) (event_data : List ℕ) (reply : EventReply)
      → Keeps (finish_event legacy t c api p i event_data reply)
  unfolding finish_event
  finish_event-Keeps i event_data reply = bind-Keeps (check_rc-Keeps _ _ _ _) λ _.
      bind-Keeps (from-Keeps _) λ digests.
        bind-Keeps (from-Keeps _)
          λ ds. bind-Keeps (emit_record _) λ _. bind-Keeps (notify-Keeps _ _) λ _. from-Keeps _

  event-Keeps : (i : Index) (event_data : List ℕ) → Keeps (event legacy t c api p i event_data)
  unfolding event call_event
  event-Keeps i event_data = bind-Keeps (from-Keeps _) λ _. bind-Keeps (from-Keeps _) λ _.
      handed_back _ (λ h. api.event_reply h _) (λ reply. buffers reply.digests)
        λ reply.
          finally-Returns _ _ (release_one reply.digests) (finish_event-Keeps i event_data reply)

  finish_read-Keeps :
      (s : Selection) (reply : ReadReply) → Keeps (finish_read legacy t c api p s reply)
  unfolding finish_read
  finish_read-Keeps s reply = bind-Keeps (check_rc-Keeps _ _ _ _) λ _.
      bind-Keeps (from-Keeps _) λ both.
        bind-Keeps (from-Keeps _)
          λ ds. bind-Keeps (from-Keeps _) λ vs. bind-Keeps (emit_record _) λ _. from-Keeps _

  read-Keeps : (s : Selection) → Keeps (read legacy t c api p s)
  unfolding read call_read
  read-Keeps s = bind-Keeps (from-Keeps _) λ _.
      handed_back _ (λ h. api.read_reply h _)
        (λ reply. buffers reply.selection + buffers reply.values)
        λ reply.
          finally-Returns _ _ (release_two reply.selection reply.values) (finish_read-Keeps s reply)

  allocate-Keeps : (banks : List Bank) → Keeps (allocate legacy t c api p banks)
  unfolding allocate call_allocate
  allocate-Keeps banks = bind-Keeps (from-Keeps _) λ _. bind-Keeps (from-Keeps _) λ _.
      bind-Keeps (call-Keeps _ (λ h. api.allocate_reply h _)) λ reply.
        bind-Keeps (check_rc-Keeps _ _ _ _) λ _. bind-Keeps (emit_record _) λ _. from-Keeps _

  -- On every path of every operation, whatever the TSS answers, as many buffers of the TSS are
  -- held afterwards as before, and none is given back that is not held: what a call hands out is
  -- given back exactly once, also when the call or the reading of its answer fails.
  pub held-perform :
      (r : Request) (h : List Effect) (n : ℕ)
      → held 0 h ≡ some n
      → held 0 (perform legacy t c api p r h) ≡ some n
  unfolding perform allocate extend reset set_auth_policy set_auth_value
  held-perform (Request.event i d) = (event-Keeps i d).keeps
  held-perform (Request.read s) = (read-Keeps s).keeps
  held-perform (Request.allocate banks) = (allocate-Keeps banks).keeps
  held-perform (Request.extend i ds) =
      (bind-Keeps (from-Keeps _) λ _. bind-Keeps (from-Keeps _) λ _.
        bind-Keeps (call_checked-Keeps _ _)
          λ _. bind-Keeps (emit_record _) λ _. notify-Keeps _ _).keeps
  held-perform (Request.reset i) =
      (bind-Keeps (from-Keeps _) λ _. bind-Keeps (call_checked-Keeps _ _) λ _. emit_record _).keeps
  held-perform (Request.set_auth_policy i a d) =
      (bind-Keeps (from-Keeps _) λ _.
        bind-Keeps (from-Keeps _) λ _. bind-Keeps (call_checked-Keeps _ _) λ _. emit_record _).keeps
  held-perform (Request.set_auth_value i auth) =
      (bind-Keeps (from-Keeps _) λ _. bind-Keeps (from-Keeps _) λ _. bind-Keeps (from-Keeps _) λ _.
        bind-Keeps (call_checked-Keeps _ _) λ _.
          bind-Keeps (call_checked-Keeps _ _)
            λ _. bind-Keeps (call_checked-Keeps _ _) λ _. emit_record _).keeps
