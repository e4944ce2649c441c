-- ===== src/Effects.antt =====
-- A member function as a function on the effects so far: it adds effects, oldest first, and ends
-- as an outcome. The parts of the program choose what an effect is.
pub mod Sum
pub mod Tally
pub mod Replay
pub mod Owing
use tpmkit.Base.{List, [], ◌∷◌, ◌++◌}
use tpmkit.Outcome.{Outcome, ok, unexpected, raised, done}

abbrev pub Run : Type 0 → Type 0 → Type 0
Run E A = List E → Outcome A × List E

module _ {E : Type 0} where
  -- An early return skips what follows.
  abbrev pub resume : {A B : Type 0} → Outcome A × List E → (A → Run E B) → Outcome B × List E
  resume (ok a, h) f = f a h
  resume (unexpected e, h) f = (unexpected e, h)
  resume (raised x, h) f = (raised x, h)

  infixl 5 ◌>>=◌ ◌>>◌
  unfoldable pub ◌>>=◌ : {A B : Type 0} → Run E A → (A → Run E B) → Run E B
  ◌>>=◌ m f h = resume (m h) f

  abbrev pub ◌>>◌ : {B : Type 0} → Run E (Unit {0}) → Run E B → Run E B
  m >> k = m >>= λ _. k

  unfoldable pub from : {A : Type 0} → Outcome A → Run E A
  from r h = (r, h)

  unfoldable pub emit : E → Run E (Unit {0})
  emit e h = (done, h ++ (e ∷ []))

  -- The destructors at the end of a scope, on every path.
  unfoldable pub finally : {A : Type 0} → Run E A → List E → Run E A
  finally m effects h = let (r, h') = m h in (r, h' ++ effects)
