-- ===== src/Translation/Table.antt =====
-- The table of documented return codes of error_translation.cpp.
use tpmkit.Base.{
  ℕ, ◌≡◌, refl, sym, subst, All, arith, inl, inr, Bool, true, false, not, ◌&&◌, Bool-cases, ◌⊎◌,
  List, [], ◌∷◌, ◌==◌, if◌then◌else◌,
}
use tpmkit.Outcome.{ErrorCategory, backend_error}
use tpmkit.Translation.{Codes, Mapping, map_entry, documented_mappings, find_mapping}
use tpmkit.Translation.Layout.{Layer, layer_code}
use tpmkit.Translation.Documented.{Among, documented, documented-Among, is_one_of}

abbrev pub has_key : ℕ → ℕ → List Mapping → Bool
has_key layer base [] = false
has_key layer base (e ∷ es) =
    if (e.layer == layer) && (e.base == base) then true else has_key layer base es

-- No two entries have the same layer and base.
abbrev pub unique_keys : List Mapping → Bool
unique_keys [] = true
unique_keys (e ∷ es) = not (has_key e.layer e.base es) && unique_keys es

has_key-Among : (m : Mapping) (es : List Mapping) → Among m es → has_key m.layer m.base es ≡ true
has_key-Among m [] found = absurd found
has_key-Among m (e ∷ es) (inl here) = rw here (ground arith)
has_key-Among m (e ∷ es) (inr later) =
    elim (Bool-cases ((e.layer == m.layer) && (e.base == m.base))) [
      | inl same ↦ rw same refl
      | inr other ↦ rw other (has_key-Among m es later)
    ]

find_mapping-Among :
    (m : Mapping) (es : List Mapping)
    → unique_keys es ≡ true
    → Among m es
    → find_mapping m.layer m.base es ≡ m.category
unfolding find_mapping
find_mapping-Among m [] unique found = absurd found
find_mapping-Among m (e ∷ es) unique (inl here) = rw here (ground arith)
find_mapping-Among m (e ∷ es) unique (inr later) =
    elim (Bool-cases ((e.layer == m.layer) && (e.base == m.base))) [
      | inl same ↦
          let layers : e.layer ≡ m.layer = ground (arith, same) in
          let bases : e.base ≡ m.base = ground (arith, same) in
          let again : has_key e.layer e.base es ≡ true =
            rw (layers, bases) (has_key-Among m es later) in
          absurd (ground (arith, again, unique))
      | inr other ↦ rw other (find_mapping-Among m es (ground (arith, unique)) later)
    ]

All-is_one_of :
    (P : ℕ → Type 0) (code : ℕ) (ds : List ℕ) → All P ds → is_one_of code ds ≡ true → P code
All-is_one_of P code [] all listed = absurd (cc)
All-is_one_of P code (d ∷ ds) (first, rest) listed = elim (Bool-cases (code == d)) [
  | inl same ↦ subst P (ground (arith, same)) first
  | inr other ↦ All-is_one_of P code ds rest (ground (arith, other, listed))
]

-- A documented code is found.
pub find_mapping-documented :
    (c : Codes) (l : Layer) (category : ErrorCategory) (code : ℕ)
    → unique_keys (documented_mappings c) ≡ true
    → is_one_of code (documented c l category) ≡ true
    → find_mapping (layer_code c l) code (documented_mappings c) ≡ category
find_mapping-documented c l category code unique listed =
    find_mapping-Among (map_entry (layer_code c l) code category) (documented_mappings c) unique
      (All-is_one_of _ code (documented c l category) (documented-Among c l category) listed)

-- What the loop finds is an entry for the layer and the code, or nothing.
pub find_mapping_found :
    (layer code : ℕ) (category : ErrorCategory) (es : List Mapping)
    → find_mapping layer code es ≡ category
    → (category ≡ backend_error) ⊎ Among (map_entry layer code category) es
unfolding find_mapping
find_mapping_found layer code category [] found = inl (sym found)
find_mapping_found layer code category (e ∷ es) found =
    elim (Bool-cases ((e.layer == layer) && (e.base == code))) [
      | inl same ↦ inr (inl (ground (arith, same, found)))
      | inr other ↦
          let later : find_mapping layer code es ≡ category = ground (arith, other, found) in
          elim (find_mapping_found layer code category es later) [
            | inl unlisted_code ↦ inl unlisted_code
            | inr listed ↦ inr (inr listed)
          ]
    ]
