-- ===== src/Effects/Tally.antt =====
-- What a run adds to a list that is read off the effects, such as the notifications: rules for
-- the steps of an operation.
use tpmkit.Base.{◌≡◌, refl, sym, ap, ◌∙◌, List, [], ◌∷◌, ◌++◌, append_assoc, append-nil}
use tpmkit.Outcome.{Outcome, ok, unexpected, raised}
use tpmkit.Effects.{Run, from, emit, ◌>>=◌, resume, finally}

module _ {ℓ} {E : Type 0} {X : Type ℓ} (weigh : E → List X) where
  abbrev pub tally : List E → List X
  tally [] = []
  tally (e ∷ es) = weigh e ++ tally es

  pub tally-append : (h es : List E) → tally (h ++ es) ≡ tally h ++ tally es
  tally-append [] es = refl
  tally-append (e ∷ h) es =
      ap (◌++◌ (weigh e)) (tally-append h es) ∙ sym (append_assoc (weigh e) (tally h) (tally es))

  -- What a result is worth: nothing, unless it is a value.
  abbrev pub worth : {A : Type 0} → (A → List X) → Outcome A → List X
  worth g (ok a) = g a
  worth g (unexpected e) = []
  worth g (raised x) = []

  pub worth_nothing : {A : Type 0} (r : Outcome A) → worth (λ _. []) r ≡ []
  worth_nothing (ok a) = refl
  worth_nothing (unexpected e) = refl
  worth_nothing (raised x) = refl

  -- A run adds what its result is worth.
  pub record Adds {A : Type 0} (g : A → List X) (m : Run E A) : Type ℓ where
    pub adds : (h : List E) → tally (m h).1 ≡ tally h ++ worth g (m h).0

  abbrev pub Silent : {A : Type 0} → Run E A → Type ℓ
  Silent m = Adds (λ _. []) m

  resume-Adds :
      {A B : Type 0} (g : B → List X) (r : Outcome A × List E) (f : A → Run E B) (old : List X)
      → tally r.1 ≡ old ++ worth (λ _. []) r.0
      → ((a : A) → Adds g (f a))
      → tally (resume r f).1 ≡ old ++ worth g (resume r f).0
  resume-Adds g (ok a, h) f old e all =
      (all a).adds h ∙ ap (λ l. l ++ worth g (f a h).0) (e ∙ append-nil old)
  resume-Adds g (unexpected x, h) f old e all = e
  resume-Adds g (raised x, h) f old e all = e

  -- After a silent step the rest decides.
  pub bind-Adds :
      {A B : Type 0} {g : B → List X} {m : Run E A} {f : A → Run E B}
      → Silent m
      → ((a : A) → Adds g (f a))
      → Adds g (m >>= f)
  unfolding ◌>>=◌
  bind-Adds {g} {m} {f} silent all = record {
    adds = λ h. resume-Adds g (m h) f (tally h) (silent.adds h) all;
  }

  pub from-Silent : {A : Type 0} (r : Outcome A) → Silent (from r)
  unfolding from
  from-Silent r = record {
    adds = λ h. sym (ap (◌++◌ (tally h)) (worth_nothing r) ∙ append-nil (tally h));
  }

  -- A step that adds an effect of no weight.
  pub emit-Silent : {e : E} → weigh e ≡ [] → Silent (emit e)
  unfolding emit
  emit-Silent {e} weightless = record {
    adds = λ h. tally-append h (e ∷ []) ∙ ap (λ l. tally h ++ (l ++ [])) weightless;
  }

  pub finally-Adds :
      {A : Type 0} {g : A → List X} {m : Run E A} (es : List E)
      → tally es ≡ []
      → Adds g m
      → Adds g (finally m es)
  unfolding finally
  finally-Adds {m} es weightless all = record {
    adds = λ h.
        tally-append (m h).1 es
        ∙ ap (◌++◌ (tally (m h).1)) weightless
        ∙ append-nil (tally (m h).1)
        ∙ all.adds h;
  }
