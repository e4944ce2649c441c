-- ===== src/Effects/Replay.antt =====
-- What is read off a list of effects when each is weighed by all that came before it.
use tpmkit.Base.{◌≡◌, refl, sym, ap, ◌∙◌, List, [], ◌∷◌, ◌++◌, append_assoc, append-nil}

module _ {ℓ} {E : Type 0} {X : Type ℓ} (weigh : List E → E → List X) where
  -- The effects come after `past`.
  abbrev replay_after : List E → List E → List X
  replay_after past [] = []
  replay_after past (e ∷ es) = weigh past e ++ replay_after (past ++ (e ∷ [])) es

  abbrev pub replay : List E → List X
  replay = replay_after []

  replay_after-append :
      (past h es : List E)
      → replay_after past (h ++ es) ≡ replay_after past h ++ replay_after (past ++ h) es
  replay_after-append past [] es = ap (λ p. replay_after p es) (sym (append-nil past))
  replay_after-append past (e ∷ h) es =
      ap (◌++◌ (weigh past e)) (
        replay_after-append (past ++ (e ∷ [])) h es
        ∙ ap (λ p. replay_after (past ++ (e ∷ [])) h ++ replay_after p es)
            (append_assoc past (e ∷ []) h))
      ∙ sym (append_assoc (weigh past e) _ _)

  pub replay-last : (h : List E) (e : E) → replay (h ++ (e ∷ [])) ≡ replay h ++ weigh h e
  replay-last h e =
      replay_after-append [] h (e ∷ []) ∙ ap (◌++◌ (replay h)) (append-nil (weigh h e))

-- What weighs nothing adds up to nothing.
pub replay_nothing {ℓ} :
    {E : Type 0} {X : Type ℓ} (es : List E) → replay {E = E} {X = X} (λ past e. []) es ≡ []
replay_nothing {E} {X} es = go [] es
  where
    go : (past es : List E) → replay_after {E = E} {X = X} (λ past e. []) past es ≡ []
    go past [] = refl
    go past (e ∷ es) = go (past ++ (e ∷ [])) es
