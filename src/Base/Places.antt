-- ===== src/Base/Places.antt =====
-- What stands at a place of a list, if there is one.
use Prim.Native.Nat.{ℕ, zero, suc}
use mathlib.Core.Path.{◌≡◌, refl, sym}
use mathlib.Core.Bool.{false, false≢true}
use mathlib.Core.Option.{Option, none, some, none-ne-some}
use mathlib.Core.List.{List, [], ◌∷◌}
use native.Mathlib.Omega.{arith}
use tpmkit.Base.Tests.{◌==◌}
use tpmkit.Base.Lists.{set}

module _ {ℓ} {A : Type ℓ} where
  abbrev pub get_elem? : List A → ℕ → Option A
  get_elem? [] i = none
  get_elem? (x ∷ xs) zero = some x
  get_elem? (x ∷ xs) (suc i) = get_elem? xs i

  pub get_elem?-set :
      (xs : List A) (i : ℕ) (x y : A) → get_elem? xs i ≡ some x → get_elem? (set xs i y) i ≡ some y
  get_elem?-set [] i x y e = absurd (none-ne-some x e)
  get_elem?-set (z ∷ xs) zero x y e = refl
  get_elem?-set (z ∷ xs) (suc i) x y e = get_elem?-set xs i x y e

  pub get_elem?-set_other :
      (xs : List A) (i j : ℕ) (y : A) → (j == i) ≡ false → get_elem? (set xs i y) j ≡ get_elem? xs j
  get_elem?-set_other [] i j y e = refl
  get_elem?-set_other (x ∷ xs) zero zero y e = absurd (false≢true (sym e))
  get_elem?-set_other (x ∷ xs) zero (suc j) y e = refl
  get_elem?-set_other (x ∷ xs) (suc i) zero y e = refl
  get_elem?-set_other (x ∷ xs) (suc i) (suc j) y e =
      get_elem?-set_other xs i j y (ground (arith, e))
