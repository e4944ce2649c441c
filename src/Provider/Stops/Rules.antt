-- ===== src/Provider/Stops/Rules.antt =====
-- The return codes that esys_pcr_provider.cpp gets, and how the steps of an operation end at the
-- first that is not success.
use tpmkit.Base.{
  ℕ, ◌≡◌, refl, ap, sym, ◌∙◌, append-nil, append_assoc, ◌⊎◌, inl, inr, Bool, true, false,
  Bool-cases, List, [], ◌∷◌, ◌++◌, Option, none, some, String, ◌==◌, All, All-append,
}
use tpmkit.Outcome.{Outcome, ok, unexpected, raised, done, Error}
use tpmkit.Translation.{Codes, translate_tss_rc, translated_category, log_tss_error}
use tpmkit.Effects.Replay.{replay, replay-last}
use tpmkit.Provider.Session.{
  Call, Effect, called, logged, observed, freed, EsysApi, Run, check_rc, Notification, from, emit,
  finally, ◌>>=◌, resume, release,
}
use tpmkit.Provider.{notify}
use tpmkit.Provider.Failures.Owed.{answered_rc}

module _ (c : Codes) (api : EsysApi) where
  abbrev rc_of : List Effect → Effect → List ℕ
  rc_of past (called request n) = answered_rc c api past request ∷ []
  rc_of past (logged r) = []
  rc_of past (observed n) = []
  rc_of past freed = []

  -- The return codes of all calls of the TSS, in order.
  abbrev pub rcs_of : List Effect → List ℕ
  rcs_of = replay rc_of

  abbrev pub IsSuccess : ℕ → Type 0
  IsSuccess rc = (rc == c.rc_success) ≡ true

  -- After the calls of `old`, calls that succeeded, and then those of `last`.
  abbrev pub Then : List ℕ → List ℕ → List ℕ → Type 0
  Then old last now = (good : List ℕ) × All IsSuccess good × (now ≡ old ++ (good ++ last))

  -- The error of a call: its code is not success, and the error has the category of the code.
  abbrev pub Failing : Error → ℕ → Type 0
  Failing e rc = ((rc == c.rc_success) ≡ false) × (e.category ≡ translated_category c rc)

  -- How a run ends: a value comes after calls that succeeded; an error after such calls only, or
  -- after one more that failed and gave the error its category.
  abbrev pub Ended : {A : Type 0} → (A → List ℕ) → List ℕ → Outcome A → List ℕ → Type 0
  Ended left old (ok a) now = Then old (left a) now
  Ended left old (unexpected e) now =
      Then old [] now ⊎ ((rc : ℕ) × Failing e rc × Then old (rc ∷ []) now)
  Ended left old (raised x) now = Then old [] now

  pub record Stops {A : Type 0} (last : List ℕ) (left : A → List ℕ) (m : Run A) : Type 0 where
    pub stops :
        (old : List ℕ) (h : List Effect)
        → Then old last (rcs_of h)
        → Ended left old (m h).0 (rcs_of (m h).1)

  abbrev pub Plain : {A : Type 0} → Run A → Type 0
  Plain m = Stops [] (λ _. []) m

  resume-Ended :
      {A B : Type 0} (mid : A → List ℕ) (left : B → List ℕ) (old : List ℕ)
      (r : Outcome A × List Effect) (f : A → Run B)
      → Ended mid old r.0 (rcs_of r.1)
      → ((a : A) → Stops (mid a) left (f a))
      → Ended left old (resume r f).0 (rcs_of (resume r f).1)
  resume-Ended mid left old (ok a, h) f now all = (all a).stops old h now
  resume-Ended mid left old (unexpected e, h) f now all = now
  resume-Ended mid left old (raised x, h) f now all = now

  pub bind-Stops :
      {A B : Type 0} {last : List ℕ} {mid : A → List ℕ} {left : B → List ℕ} {m : Run A}
      {f : A → Run B}
      → Stops last mid m
      → ((a : A) → Stops (mid a) left (f a))
      → Stops last left (m >>= f)
  unfolding ◌>>=◌
  bind-Stops {mid} {left} {m} {f} first all = record {
    stops = λ old h now. resume-Ended mid left old (m h) f (first.stops old h now) all;
  }

  pub from-Plain : {A : Type 0} (r : Outcome A) → Plain (from r)
  unfolding from
  from-Plain (ok a) = record { stops = λ old h now. now }
  from-Plain (unexpected e) = record { stops = λ old h now. inl now }
  from-Plain (raised x) = record { stops = λ old h now. now }

  quiet_last : (h : List Effect) (e : Effect) → rc_of h e ≡ [] → rcs_of (h ++ (e ∷ [])) ≡ rcs_of h
  quiet_last h e silent =
      replay-last rc_of h e ∙ ap (◌++◌ (rcs_of h)) silent ∙ append-nil (rcs_of h)

  pub emit-Plain : (e : Effect) → ((h : List Effect) → rc_of h e ≡ []) → Plain (emit e)
  unfolding emit
  emit-Plain e silent = record { stops = λ old h now. rw (quiet_last h e (silent h)) now }

  pub notify-Plain : (attached : Bool) (n : Notification) → Plain (notify attached n)
  notify-Plain true n = emit-Plain (observed n) (λ h. refl)
  notify-Plain false n = from-Plain done

  -- Effects that are no calls.
  abbrev Uncalled : List Effect → Type 0
  Uncalled es = (h : List Effect) → rcs_of (h ++ es) ≡ rcs_of h

  pub release-Uncalled {ℓ} : {A : Type ℓ} (o : Option A) → Uncalled (release o)
  release-Uncalled none h = ap rcs_of (append-nil h)
  release-Uncalled (some a) h = quiet_last h freed refl

  pub append-Uncalled :
      (es more : List Effect) → Uncalled es → Uncalled more → Uncalled (es ++ more)
  append-Uncalled es more first second h =
      ap rcs_of (sym (append_assoc h es more)) ∙ second (h ++ es) ∙ first h

  pub finally-Stops :
      {A : Type 0} {last : List ℕ} {left : A → List ℕ} {m : Run A} (es : List Effect)
      → Uncalled es
      → Stops last left m
      → Stops last left (finally m es)
  unfolding finally
  finally-Stops {left} {m} es uncalled inner = record {
    stops = λ old h now. rw (uncalled (m h).1) (inner.stops old h now);
  }

  then-last :
      (old good now : List ℕ) (rc : ℕ)
      → now ≡ old ++ (good ++ [])
      → now ++ (rc ∷ []) ≡ old ++ (good ++ (rc ∷ []))
  then-last old good now rc e =
      ap (λ l. l ++ (rc ∷ [])) e
      ∙ append_assoc old (good ++ []) (rc ∷ [])
      ∙ ap (λ l. old ++ (l ++ (rc ∷ []))) (append-nil good)

  -- A call whose answer is `reply h`, with the code `code (reply h)`.
  pub call-Stops :
      {A : Type 0} {m : Run A} (code : A → ℕ) (request : Call) (reply : List Effect → A)
      (count : A → ℕ)
      → ((h : List Effect) → m h ≡ (ok (reply h), h ++ (called request (count (reply h)) ∷ [])))
      → ((h : List Effect) → answered_rc c api h request ≡ code (reply h))
      → Stops [] (λ a. code a ∷ []) m
  call-Stops code request reply count made answers = record {
    stops = λ old h (good, fine, now). rw (made h) (
      good,
      fine,
      replay-last rc_of h (called request (count (reply h)))
          ∙ ap (λ rc. rcs_of h ++ (rc ∷ [])) (answers h)
          ∙ then-last old good (rcs_of h) (code (reply h)) now,
    );
  }

  pub check_rc-Stops :
      (rc : ℕ) (operation : String)
      → Stops (rc ∷ []) (λ _. []) (check_rc c api.decode_error rc operation)
  unfolding check_rc translate_tss_rc log_tss_error
  check_rc-Stops rc operation = record {
    stops = λ old h (good, fine, now). elim (Bool-cases (rc == c.rc_success)) [
      | inl success ↦ rw success (
        good ++ (rc ∷ []),
        All-append IsSuccess good (rc ∷ []) fine (success, tt),
        now ∙ ap (◌++◌ old) (sym (append-nil (good ++ (rc ∷ [])))),
      )
      | inr failed ↦ rw failed (inr (rc, (failed, refl), (good, fine, quiet_last h _ refl ∙ now)))
    ];
  }
