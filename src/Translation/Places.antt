-- ===== src/Translation/Places.antt =====
-- Where the documented codes stand in the table of error_translation.cpp: each entry by its layer,
-- its category, and its place among the codes documented for these.
use tpmkit.Base.{
  ℕ, zero, suc, ◌≡◌, refl, inl, inr, Bool, true, false, ◌&&◌, List, [], ◌∷◌, map, arith,
}
use tpmkit.Outcome.{ErrorCategory, input_error, security_failure, resource_error, backend_error}
use tpmkit.Translation.{Codes, Mapping, map_entry, documented_mappings}
use tpmkit.Translation.Layout.{Layer, tpm, esapi, tcti, layer_code}
use tpmkit.Translation.Documented.{Among, documented, is_one_of}

abbrev Place : Type 0
Place = Layer × ErrorCategory × ℕ

abbrev places : List Place
places =
    (tpm, security_failure, 0)
    ∷ (tpm, security_failure, 1)
    ∷ (tpm, input_error, 0)
    ∷ (tpm, input_error, 1)
    ∷ (tpm, resource_error, 0)
    ∷ (tpm, security_failure, 2)
    ∷ (tpm, resource_error, 1)
    ∷ (tpm, security_failure, 3)
    ∷ (tpm, input_error, 2)
    ∷ (tpm, input_error, 3)
    ∷ (tpm, input_error, 4)
    ∷ (esapi, backend_error, 0)
    ∷ (esapi, backend_error, 1)
    ∷ (esapi, backend_error, 2)
    ∷ (esapi, input_error, 0)
    ∷ (esapi, input_error, 1)
    ∷ (esapi, backend_error, 3)
    ∷ (esapi, input_error, 2)
    ∷ (esapi, resource_error, 0)
    ∷ (esapi, resource_error, 1)
    ∷ (esapi, input_error, 3)
    ∷ (esapi, input_error, 4)
    ∷ (esapi, input_error, 5)
    ∷ (esapi, input_error, 6)
    ∷ (esapi, backend_error, 4)
    ∷ (esapi, backend_error, 5)
    ∷ (esapi, backend_error, 6)
    ∷ (esapi, resource_error, 2)
    ∷ (esapi, backend_error, 7)
    ∷ (esapi, resource_error, 3)
    ∷ (esapi, input_error, 7)
    ∷ (esapi, input_error, 8)
    ∷ (esapi, input_error, 9)
    ∷ (esapi, backend_error, 8)
    ∷ (esapi, security_failure, 0)
    ∷ (esapi, backend_error, 9)
    ∷ (tcti, backend_error, 0)
    ∷ (tcti, backend_error, 1)
    ∷ (tcti, backend_error, 2)
    ∷ (tcti, backend_error, 3)
    ∷ (tcti, input_error, 0)
    ∷ (tcti, input_error, 1)
    ∷ (tcti, backend_error, 4)
    ∷ (tcti, resource_error, 0)
    ∷ (tcti, resource_error, 1)
    ∷ (tcti, resource_error, 2)
    ∷ (tcti, input_error, 2)
    ∷ (tcti, backend_error, 5)
    ∷ (tcti, backend_error, 6)
    ∷ (tcti, backend_error, 7)
    ∷ []

abbrev code_at : ℕ → List ℕ → ℕ
code_at n [] = 0
code_at zero (d ∷ ds) = d
code_at (suc n) (d ∷ ds) = code_at n ds

abbrev is_in_range : ℕ → List ℕ → Bool
is_in_range n [] = false
is_in_range zero (d ∷ ds) = true
is_in_range (suc n) (d ∷ ds) = is_in_range n ds

is_one_of-code_at :
    (n : ℕ) (ds : List ℕ) → is_in_range n ds ≡ true → is_one_of (code_at n ds) ds ≡ true
is_one_of-code_at n [] h = absurd (cc)
is_one_of-code_at zero (d ∷ ds) h = ground arith
is_one_of-code_at (suc n) (d ∷ ds) h = ground (arith, is_one_of-code_at n ds h)

module _ (c : Codes) where
  abbrev entry_of : Place → Mapping
  entry_of (l, category, n) =
      map_entry (layer_code c l) (code_at n (documented c l category)) category

  abbrev are_in_range : List Place → Bool
  are_in_range [] = true
  are_in_range ((l, category, n) ∷ ps) = is_in_range n (documented c l category) && are_in_range ps

  -- An entry is documented for its layer and category.
  abbrev pub IsDocumented : Mapping → Type 0
  IsDocumented m =
      (l : Layer) × (m.layer ≡ layer_code c l)
      × (is_one_of m.base (documented c l m.category) ≡ true)

  placed-IsDocumented :
      (m : Mapping) (ps : List Place)
      → are_in_range ps ≡ true
      → Among m (map entry_of ps)
      → IsDocumented m
  placed-IsDocumented m [] range found = absurd found
  placed-IsDocumented m ((l, category, n) ∷ ps) range (inl here) = (
    l,
    rw here refl,
    rw here (is_one_of-code_at n (documented c l category) (ground (arith, range))),
  )
  placed-IsDocumented m ((l, category, n) ∷ ps) range (inr later) =
      placed-IsDocumented m ps (ground (arith, range)) later

  pub Among-IsDocumented : (m : Mapping) → Among m (documented_mappings c) → IsDocumented m
  unfolding documented_mappings
  Among-IsDocumented m found = placed-IsDocumented m places refl found
