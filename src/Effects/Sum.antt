-- ===== src/Effects/Sum.antt =====
-- A measure of effects, added up.
use tpmkit.Base.{ℕ, ◌+◌, ◌≡◌, arith, List, [], ◌∷◌, ◌++◌}

module _ {E : Type 0} (weigh : E → ℕ) where
  abbrev pub sum : List E → ℕ
  sum [] = 0
  sum (e ∷ es) = weigh e + sum es

  pub sum-append : (h es : List E) → sum (h ++ es) ≡ sum h + sum es
  sum-append [] es = omega arith
  sum-append (e ∷ h) es = let rest = sum-append h es in omega arith

  pub sum-last : (h : List E) (e : E) → sum (h ++ (e ∷ [])) ≡ sum h + weigh e
  sum-last h e = let all = sum-append h (e ∷ []) in omega arith
