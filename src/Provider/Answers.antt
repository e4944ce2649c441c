-- ===== src/Provider/Answers.antt =====
-- What the callers of esys_pcr_provider.cpp can rely on when an operation returns a value.
use tpmkit.Base.{
  ℕ, ◌≤◌, ltb, if◌then◌else◌, arith, ap, sym, ◌∙◌, ◌≡◌, refl, Bool, true, Bool-cases, inl, inr,
  List, ◌∷◌, All, length, take, map, some, Option, none, String, ◌==◌,
}
use tpmkit.Outcome.{
  ok-injective, fails, input_error, resource_error, Outcome, ok, unexpected, raised,
}
use tpmkit.Domain.Index.{Index}
use tpmkit.Domain.Values.{Selection, ReadResult, EventResult}
use tpmkit.Tss.{Tss, TpmlDigest}
use tpmkit.Translation.{Codes, Decoder, translate_tss_rc}
use tpmkit.Validation.{
  ensure_event_size, ensure_esys_available, ensure_sized_buffer_fits,
  ensure_secure_auth_value_transport,
}
use tpmkit.Marshalling.{to_tpm_selection, pcr_handle, to_tpm_event}
use tpmkit.Marshalling.Digests.{IsDigest}
use tpmkit.Marshalling.Responses.{to_domain_read_values_sound, to_domain_digests_sound}
use tpmkit.Provider.Session.{
  pcr_read, pcr_event, Effect, Run, EsysApi, EventReply, ReadReply, from, ◌>>=◌, resume, finally,
  check_rc,
}
use tpmkit.Provider.{
  Provider, require_both, finish_event, finish_read, event, read, set_auth_value, call_event,
  call_read,
}

resume-eq-ok :
    {A B : Type 0} (r : Outcome A × List Effect) (f : A → Run B) {b : B}
    → (resume r f).0 ≡ ok b
    → (a : A) × (r.0 ≡ ok a) × ((f a r.1).0 ≡ ok b)
resume-eq-ok (ok a, h) f e = (a, refl, e)
resume-eq-ok (unexpected x, h) f e = cc
resume-eq-ok (raised x, h) f e = cc

-- A run that returns a value ran each of its steps to a value.
run-eq-ok :
    {A B : Type 0} (m : Run A) (f : A → Run B) (h : List Effect) {b : B}
    → ((m >>= f) h).0 ≡ ok b
    → (a : A) × ((m h).0 ≡ ok a) × ((f a (m h).1).0 ≡ ok b)
unfolding ◌>>=◌
run-eq-ok m f h e = resume-eq-ok (m h) f e

finally-eq-ok :
    {A : Type 0} (m : Run A) (es : List Effect) (h : List Effect) {a : A}
    → (finally m es h).0 ≡ ok a
    → (m h).0 ≡ ok a
unfolding finally
finally-eq-ok m es h e = e

from-eq-ok : {A : Type 0} (r : Outcome A) (h : List Effect) {a : A} → (from r h).0 ≡ ok a → r ≡ ok a
unfolding from
from-eq-ok r h e = e

require_both-eq-ok :
    {A B : Type 0} (o : Option A) (p : Option B) (message : String) (a : A) (b : B)
    → require_both o p message ≡ ok (a, b)
    → (o ≡ some a) × (p ≡ some b)
require_both-eq-ok (some x) (some y) message a b e = (cc, cc)
require_both-eq-ok (some x) none message a b e = (cc, cc)
require_both-eq-ok none p message a b e = (cc, cc)

check_rc-eq-ok :
    (c : Codes) (d : Decoder) (rc : ℕ) (operation : String) (h : List Effect) {u : Unit {0}}
    → (check_rc c d rc operation h).0 ≡ ok u
    → rc ≡ c.rc_success
unfolding check_rc translate_tss_rc
check_rc-eq-ok c d rc operation h e = elim (Bool-cases (rc == c.rc_success)) [
  | inl fine ↦ ground (arith, fine)
  | inr failed ↦ ground (arith, failed, e)
]

module _ (legacy : Bool) (t : Tss) (c : Codes) (api : EsysApi) (p : Provider) where
  finish_read-eq-ok :
      (s : Selection) (reply : ReadReply) (h : List Effect) (result : ReadResult)
      → (finish_read legacy t c api p s reply h).0 ≡ ok result
      → ((w : TpmlDigest) → reply.values ≡ some w → length (take w.count w.digests) ≡ w.count)
      → (reply.rc ≡ c.rc_success)
        × (result.update_counter ≡ reply.update_counter)
        × (map (λ x. x.index) result.values ≡ result.actual_selection.indices)
        × All (λ x. IsDigest legacy x.digest) result.values
  unfolding finish_read
  finish_read-eq-ok s reply h result e array =
      let (_, checked, e) = run-eq-ok _ _ h e in
      let ((sel, w), both, e) = run-eq-ok _ _ _ e in
      let (ds, _, e) = run-eq-ok _ _ _ e in
      let (vs, read_values, e) = run-eq-ok _ _ _ e in
      let (_, _, e) = run-eq-ok _ _ _ e in
      let same : record {
        actual_selection = ds;
        update_counter = reply.update_counter;
        values = vs;
      }
          ≡ result =
        ok-injective (from-eq-ok _ _ e) in
      let held = require_both-eq-ok reply.selection reply.values _ sel w (from-eq-ok _ _ both) in
      let (indices, _, sizes) =
        to_domain_read_values_sound legacy t w ds vs (array w held.1)
          (from-eq-ok _ _ read_values) in
      (
        check_rc-eq-ok c api.decode_error reply.rc "pcr_read" h checked,
        ap (λ r. r.update_counter) (sym same),
        rw (← same) indices,
        rw (← same) sizes,
      )

  -- The answer of the TSS to the call that a read makes.
  abbrev pub read_answer : Selection → List Effect → ReadReply
  read_answer s h =
      api.read_reply h
        (pcr_read t.esys_tr_none t.esys_tr_none t.esys_tr_none (to_tpm_selection legacy t s))

  -- A read that returns a value made its call, which succeeded, and carries the call's update
  -- counter; its values are for exactly the PCRs of the selection that it returns, in that order,
  -- and each digest has the size of its algorithm. Condition: when the TSS hands out a list of
  -- values, the list's array has all the entries that it counts.
  pub read_sound :
      (s : Selection) (h : List Effect) (result : ReadResult)
      → ((w : TpmlDigest)
          → (read_answer s h).values ≡ some w
          → length (take w.count w.digests) ≡ w.count)
      → (read legacy t c api p s h).0 ≡ ok result
      → ((read_answer s h).rc ≡ c.rc_success)
        × (result.update_counter ≡ (read_answer s h).update_counter)
        × (map (λ x. x.index) result.values ≡ result.actual_selection.indices)
        × All (λ x. IsDigest legacy x.digest) result.values
  unfolding read call_read from
  read_sound s h result array e =
      let (_, _, e) = run-eq-ok _ _ h e in
      let (reply, answered, e) = run-eq-ok _ _ _ e in
      let given : read_answer s h ≡ reply = ok-injective answered in
      let (succeeded, counter, indices, sizes) =
        finish_read-eq-ok s reply _ result (finally-eq-ok _ _ _ e)
          (λ w holds. array w (ap (λ r. r.values) given ∙ holds)) in
      (
        ap (λ r. r.rc) given ∙ succeeded,
        counter ∙ sym (ap (λ r. r.update_counter) given),
        indices,
        sizes,
      )

  -- The answer of the TSS to the call that an event makes.
  abbrev pub event_answer : Index → List ℕ → List Effect → EventReply
  event_answer i event_data h = api.event_reply h (
      pcr_event (pcr_handle legacy t i) t.esys_tr_password t.esys_tr_none t.esys_tr_none
        (to_tpm_event t event_data))

  finish_event-eq-ok :
      (i : Index) (event_data : List ℕ) (reply : EventReply) (h : List Effect)
      (result : EventResult)
      → (finish_event legacy t c api p i event_data reply h).0 ≡ ok result
      → (reply.rc ≡ c.rc_success) × All (IsDigest legacy) result.digests
  unfolding finish_event
  finish_event-eq-ok i event_data reply h result e =
      let (_, checked, e) = run-eq-ok _ _ h e in
      let (w, _, e) = run-eq-ok _ _ _ e in
      let (ds, read_digests, e) = run-eq-ok _ _ _ e in
      let (_, _, e) = run-eq-ok _ _ _ e in
      let (_, _, e) = run-eq-ok _ _ _ e in
      let same : record { digests = ds } ≡ result = ok-injective (from-eq-ok _ _ e) in
      let (sizes, _) = to_domain_digests_sound legacy t w ds (from-eq-ok _ _ read_digests) in
      (check_rc-eq-ok c api.decode_error reply.rc "pcr_event" h checked, rw (← same) sizes)

  -- An event that returns a value had event data that fits a TPM2B_EVENT, made its call, which
  -- succeeded, and returns only digests with the size of their algorithm.
  pub event_sound :
      (i : Index) (event_data : List ℕ) (h : List Effect) (result : EventResult)
      → (event legacy t c api p i event_data h).0 ≡ ok result
      → (length event_data ≤ t.event_buffer_size)
        × ((event_answer i event_data h).rc ≡ c.rc_success)
        × All (IsDigest legacy) result.digests
  unfolding event call_event from ensure_event_size
  event_sound i event_data h result e =
      let (_, _, e) = run-eq-ok _ _ h e in
      let (_, fits, e) = run-eq-ok _ _ _ e in
      let (reply, answered, e) = run-eq-ok _ _ _ e in
      let given : event_answer i event_data h ≡ reply = ok-injective answered in
      let (succeeded, sizes) =
        finish_event-eq-ok i event_data reply _ result (finally-eq-ok _ _ _ e) in
      (ground (arith, fits), ap (λ r. r.rc) given ∙ succeeded, sizes)

  -- A non-empty authorization value never reaches the TSS, the log or the observer: the operation
  -- does nothing, and fails with input_error when the value is longer than a TPM2B_AUTH, with
  -- resource_error otherwise. Condition: the provider has a TPM context.
  pub set_auth_value_secret :
      (i : Index) (b : ℕ) (auth : List ℕ) (h : List Effect)
      → p.esys ≡ true
      → set_auth_value legacy t c api p i (b ∷ auth) h ≡ (
        if ltb t.digest_buffer_size (length (b ∷ auth))
            then fails input_error "PCR auth value is too large"
            else fails resource_error
                "secure PCR auth value transport is unavailable for non-empty authorization values",
        h,
      )
  unfolding set_auth_value from ◌>>=◌ ensure_esys_available ensure_sized_buffer_fits
      ensure_secure_auth_value_transport
  set_auth_value_secret i b auth h there =
      elim (Bool-cases (ltb t.digest_buffer_size (length (b ∷ auth)))) [
        | inl long ↦ rw (there, long) refl
        | inr short ↦ rw (there, short) refl
      ]
