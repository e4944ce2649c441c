-- ===== src/Effects/Owing.antt =====
-- A log and the failures that it should tell of: a call owes the log what its failure is worth, and
-- a record pays it. `said` is what an effect tells, `failure_of` what it fails with after a history.
use tpmkit.Base.{◌≡◌, ap, sym, ◌∙◌, append-nil, append_assoc, List, [], ◌∷◌, ◌++◌}
use tpmkit.Outcome.{Outcome, ok, unexpected, raised}
use tpmkit.Effects.{Run, from, finally, ◌>>=◌, resume}
use tpmkit.Effects.Replay.{replay, replay-last}
use tpmkit.Effects.Tally.{tally, tally-append, worth, worth_nothing}

module _ {ℓ} {E : Type 0} {X : Type ℓ} (said : E → List X) (failure_of : List E → E → List X) where
  -- A history that still owes the log `owed`.
  abbrev pub Owing : List X → List E → Type ℓ
  Owing owed h = replay failure_of h ≡ tally said h ++ owed

  -- A run that is handed a debt and leaves one when it returns a value, none when it fails.
  pub record Settles {A : Type 0} (owed : List X) (left : A → List X) (m : Run E A) : Type ℓ where
    pub settles : (h : List E) → Owing owed h → Owing (worth said left (m h).0) (m h).1

  resume-Settles :
      {A B : Type 0} (mid : A → List X) (left : B → List X) (r : Outcome A × List E)
      (f : A → Run E B)
      → Owing (worth said mid r.0) r.1
      → ((a : A) → Settles (mid a) left (f a))
      → Owing (worth said left (resume r f).0) (resume r f).1
  resume-Settles mid left (ok a, h) f now all = (all a).settles h now
  resume-Settles mid left (unexpected e, h) f now all = now
  resume-Settles mid left (raised x, h) f now all = now

  pub bind-Settles :
      {A B : Type 0} {owed : List X} {mid : A → List X} {left : B → List X} {m : Run E A}
      {f : A → Run E B}
      → Settles owed mid m
      → ((a : A) → Settles (mid a) left (f a))
      → Settles owed left (m >>= f)
  unfolding ◌>>=◌
  bind-Settles {mid} {left} {m} {f} first all = record {
    settles = λ h now. resume-Settles mid left (m h) f (first.settles h now) all;
  }

  pub from-Settles : {A : Type 0} (r : Outcome A) → Settles [] (λ _. []) (from r)
  unfolding from
  from-Settles r = record {
    settles = λ h now. now ∙ ap (◌++◌ (tally said h)) (sym (worth_nothing said r));
  }

  -- An effect that tells nothing adds what it fails with to what is owed.
  pub owe_last :
      (h : List E) (e : E) → said e ≡ [] → Owing [] h → Owing (failure_of h e) (h ++ (e ∷ []))
  owe_last h e silent now =
      replay-last failure_of h e
      ∙ ap (λ l. l ++ failure_of h e)
          (now ∙ sym (tally-append said h (e ∷ []) ∙ ap (λ l. tally said h ++ (l ++ [])) silent))

  -- An effect that does not fail pays what it tells.
  pub pay_last :
      (h : List E) (e : E) → failure_of h e ≡ [] → Owing (said e) h → Owing [] (h ++ (e ∷ []))
  pay_last h e fine now =
      replay-last failure_of h e
      ∙ ap (◌++◌ (replay failure_of h)) fine
      ∙ append-nil (replay failure_of h)
      ∙ now
      ∙ sym (
          append-nil (tally said (h ++ (e ∷ [])))
          ∙ tally-append said h (e ∷ [])
          ∙ ap (◌++◌ (tally said h)) (append-nil (said e)))

  -- An effect that neither tells anything nor fails leaves what is owed.
  pub carry_last :
      (owed : List X) (h : List E) (e : E)
      → said e ≡ []
      → failure_of h e ≡ []
      → Owing owed h
      → Owing owed (h ++ (e ∷ []))
  carry_last owed h e silent fine now =
      replay-last failure_of h e
      ∙ ap (◌++◌ (replay failure_of h)) fine
      ∙ append-nil (replay failure_of h)
      ∙ now
      ∙ ap (λ l. l ++ owed)
          (sym (
            tally-append said h (e ∷ [])
            ∙ ap (λ l. tally said h ++ (l ++ [])) silent
            ∙ append-nil (tally said h)))

  pub quiet_last :
      (h : List E) (e : E)
      → said e ≡ []
      → failure_of h e ≡ []
      → Owing [] h
      → Owing [] (h ++ (e ∷ []))
  quiet_last = carry_last []

  -- Effects after which as much is owed as before.
  abbrev pub Quiet : List E → Type ℓ
  Quiet es = (h : List E) → Owing [] h → Owing [] (h ++ es)

  pub append-Quiet : (es more : List E) → Quiet es → Quiet more → Quiet (es ++ more)
  append-Quiet es more quiet last h now =
      rw (sym (append_assoc h es more)) (last (h ++ es) (quiet h now))

  -- What a run that leaves no debt settles, whatever its result.
  pub settled :
      {A : Type 0} {m : Run E A} {owed : List X} (h : List E)
      → Settles owed (λ _. []) m
      → Owing owed h
      → Owing [] (m h).1
  settled {m} h all now =
      all.settles h now ∙ ap (◌++◌ (tally said (m h).1)) (worth_nothing said (m h).0)

  pub finally-Settles :
      {A : Type 0} {m : Run E A} {owed : List X} (es : List E)
      → Quiet es
      → Settles owed (λ _. []) m
      → Settles owed (λ _. []) (finally m es)
  unfolding finally
  finally-Settles {m} es quiet inner = record {
    settles = λ h now.
        quiet (m h).1 (settled h inner now) ∙ ap (◌++◌ _) (sym (worth_nothing said (m h).0));
  }
