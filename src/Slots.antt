-- ===== src/Slots.antt =====
-- Objects of a program by their places, each a pointer that may be null.
use tpmkit.Base.{
  ℕ, zero, suc, ◌+◌, ◌≡◌, refl, arith, Bool, true, false, false≢true, Option, none, some, List, [],
  ◌∷◌,
}

module _ {A : Type 0} where
  abbrev pub put : List (Option A) → ℕ → Option A → List (Option A)
  put [] i y = []
  put (x ∷ xs) zero y = y ∷ xs
  put (x ∷ xs) (suc i) y = x ∷ put xs i y

  -- What a place holds, and null where there is none.
  abbrev pub at : List (Option A) → ℕ → Option A
  at [] i = none
  at (x ∷ xs) zero = x
  at (x ∷ xs) (suc i) = at xs i

  abbrev pub is_place : List (Option A) → ℕ → Bool
  is_place [] i = false
  is_place (x ∷ xs) zero = true
  is_place (x ∷ xs) (suc i) = is_place xs i

  pub is_place-put :
      (xs : List (Option A)) (i j : ℕ) (y : Option A) → is_place (put xs j y) i ≡ is_place xs i
  is_place-put [] i j y = refl
  is_place-put (x ∷ xs) zero zero y = refl
  is_place-put (x ∷ xs) zero (suc j) y = refl
  is_place-put (x ∷ xs) (suc i) zero y = refl
  is_place-put (x ∷ xs) (suc i) (suc j) y = is_place-put xs i j y

  module _ (weigh : A → ℕ) where
    abbrev pub weight_of : Option A → ℕ
    weight_of none = 0
    weight_of (some a) = weigh a

    abbrev pub weight : List (Option A) → ℕ
    weight [] = 0
    weight (x ∷ xs) = weight_of x + weight xs

    pub weight-put :
        (xs : List (Option A)) (i : ℕ) (y : Option A)
        → is_place xs i ≡ true
        → weight (put xs i y) + weight_of (at xs i) ≡ weight xs + weight_of y
    weight-put [] i y p = absurd (false≢true p)
    weight-put (x ∷ xs) zero y p = omega arith
    weight-put (x ∷ xs) (suc i) y p = let e = weight-put xs i y p in omega arith
