-- ===== src/Translation/Expected.antt =====
-- What error_translation.cpp is expected to make of every return code of the TPM, ESAPI and the
-- TCTIs.
use tpmkit.Base.{
  ℕ, ◌≡◌, ◌≢◌, refl, sym, subst, ◌∙◌, inl, inr, arith, Bool, true, false, Bool-cases, String, ◌==◌,
  if◌then◌else◌,
}
use tpmkit.Outcome.{
  ErrorCategory, input_error, security_failure, resource_error, backend_error, unlisted, fails,
}
use tpmkit.Logging.{EventDescriptor}
use tpmkit.Translation.{
  Codes, map_entry, Decoder, documented_mappings, find_mapping, mapped_message, rc_base, rc_layer,
  translate_tss_rc, translated_category,
}
use tpmkit.Translation.Layout.{
  HasTssLayout, Layer, tpm, esapi, tcti, layer_code, Carries, return_code, low-lt,
  rc_layer-return_code, rc_base-return_code, layer_code-injective,
}
use tpmkit.Translation.Documented.{Among, documented, is_one_of}
use tpmkit.Translation.Places.{Among-IsDocumented}
use tpmkit.Translation.Table.{unique_keys, find_mapping-documented, find_mapping_found}

-- The category of a code: that of the group it is in, and `backend_error` for every other.
abbrev pub expected : Codes → Layer → ℕ → ErrorCategory
expected c l code =
    if is_one_of code (documented c l input_error)
    then input_error
    else if is_one_of code (documented c l security_failure)
    then security_failure
    else if is_one_of code (documented c l resource_error)
    then resource_error
    else backend_error

-- A code that is in no group but that of its own category.
in_no_group :
    (c : Codes) (l : Layer) (code : ℕ) (category : ErrorCategory)
    → is_one_of code (documented c l input_error) ≡ false
    → is_one_of code (documented c l security_failure) ≡ false
    → is_one_of code (documented c l resource_error) ≡ false
    → is_one_of code (documented c l category) ≡ true
    → category ≡ backend_error
in_no_group c l code input_error i s r listed = absurd (cc)
in_no_group c l code security_failure i s r listed = absurd (cc)
in_no_group c l code resource_error i s r listed = absurd (cc)
in_no_group c l code backend_error i s r listed = refl
in_no_group c tpm code (unlisted n) i s r listed = absurd (cc)
in_no_group c esapi code (unlisted n) i s r listed = absurd (cc)
in_no_group c tcti code (unlisted n) i s r listed = absurd (cc)

module _ {c : Codes} (h : HasTssLayout c) where
  found-documented :
      (l : Layer) (code : ℕ) (category : ErrorCategory)
      → Among (map_entry (layer_code c l) code category) (documented_mappings c)
      → is_one_of code (documented c l category) ≡ true
  found-documented l code category found =
      let (k, layer, listed) = Among-IsDocumented c _ found in
      subst (λ x. is_one_of code (documented c x category) ≡ true)
        (sym (layer_code-injective h l k layer)) listed

  find_mapping-expected :
      (l : Layer) (code : ℕ)
      → unique_keys (documented_mappings c) ≡ true
      → find_mapping (layer_code c l) code (documented_mappings c) ≡ expected c l code
  find_mapping-expected l code unique =
      elim (Bool-cases (is_one_of code (documented c l input_error))) [
        | inl listed ↦ find_mapping-documented c l input_error code unique listed ∙ rw listed refl
        | inr i ↦ rw i (elim (Bool-cases (is_one_of code (documented c l security_failure))) [
          | inl listed ↦
              find_mapping-documented c l security_failure code unique listed ∙ rw listed refl
          | inr s ↦ rw s (elim (Bool-cases (is_one_of code (documented c l resource_error))) [
            | inl listed ↦
                find_mapping-documented c l resource_error code unique listed ∙ rw listed refl
            | inr r ↦
                rw r
                  (elim (find_mapping_found (layer_code c l) code _ (documented_mappings c) refl) [
                    | inl nothing ↦ nothing
                    | inr found ↦ in_no_group c l code _ i s r (found-documented l code _ found)
                  ])
          ])
        ])
      ]

  different : (a b : ℕ) → a ≢ b → (a == b) ≡ false
  different a b ne = ground arith

  -- Every failing return code of the TPM, of ESAPI or of a TCTI is reported with the category, and
  -- the category's message, of the group in which the code it carries is documented, and as a
  -- backend error when it is in no other group, whatever parameter, handle or session a TPM code
  -- of format one is about and whatever stands in the reserved upper byte. Conditions: the masks
  -- and the numbers of the layers are those of the TSS headers, and the table of
  -- error_translation.cpp has no two entries with one layer and one code.
  pub translate_tss_rc-expected :
      (l : Layer) (code low reserved : ℕ) (operation : String) (present : Bool)
      (event : EventDescriptor) (decoder : Decoder)
      → unique_keys (documented_mappings c) ≡ true
      → Carries l code low
      → return_code reserved l low ≢ c.rc_success
      → (translate_tss_rc c (return_code reserved l low) operation present event decoder).0
        ≡ fails (expected c l code) (mapped_message (expected c l code))
  unfolding translate_tss_rc translated_category
  translate_tss_rc-expected l code low reserved operation present event decoder unique carries
        failed =
      let rc : ℕ = return_code reserved l low in
      let layer : rc_layer c rc ≡ layer_code c l =
        rc_layer-return_code h reserved l low (low-lt carries) in
      let base : rc_base c rc (layer_code c l) ≡ code = rc_base-return_code h reserved carries in
      let found : find_mapping (rc_layer c rc) (rc_base c rc (rc_layer c rc))
            (documented_mappings c)
          ≡ expected c l code =
        rw (layer, base) (find_mapping-expected l code unique) in
      rw (different rc c.rc_success failed, found) refl
