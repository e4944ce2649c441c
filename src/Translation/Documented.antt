-- ===== src/Translation/Documented.antt =====
-- The documented codes, layer by layer, grouped by the category of error that each is reported as,
-- to be set against the table of error_translation.cpp.
use tpmkit.Base.{
  ℕ, zero, suc, ◌≡◌, refl, ◌⊎◌, inl, inr, List, [], ◌∷◌, Option, none, some, All, Bool, true, false,
  ◌==◌, if◌then◌else◌,
}
use tpmkit.Outcome.{
  ErrorCategory, input_error, security_failure, resource_error, backend_error, unlisted,
}
use tpmkit.Translation.{Codes, Mapping, map_entry, documented_mappings}
use tpmkit.Translation.Layout.{Layer, tpm, esapi, tcti, layer_code}

abbrev pub Among : Mapping → List Mapping → Type 0
Among m [] = ⊥
Among m (e ∷ es) = (m ≡ e) ⊎ Among m es

abbrev pub is_one_of : ℕ → List ℕ → Bool
is_one_of code [] = false
is_one_of code (d ∷ ds) = if code == d then true else is_one_of code ds

abbrev entry_at : ℕ → List Mapping → Option Mapping
entry_at n [] = none
entry_at zero (e ∷ es) = some e
entry_at (suc n) (e ∷ es) = entry_at n es

entry_at-Among : (n : ℕ) (m : Mapping) (es : List Mapping) → entry_at n es ≡ some m → Among m es
entry_at-Among n m [] found = absurd (cc)
entry_at-Among zero m (e ∷ es) found = inl (cc)
entry_at-Among (suc n) m (e ∷ es) found = inr (entry_at-Among n m es found)

module _ (c : Codes) where
  -- What is reported as which category.
  abbrev pub documented : Layer → ErrorCategory → List ℕ
  documented tpm input_error = c.rc_hash ∷ c.rc_handle ∷ c.rc_range ∷ c.rc_size ∷ c.rc_value ∷ []
  documented tpm security_failure =
      c.rc_auth_fail ∷ c.rc_bad_auth ∷ c.rc_lockout ∷ c.rc_policy_fail ∷ []
  documented tpm resource_error = c.rc_locality ∷ c.rc_memory ∷ []
  documented tpm backend_error = []
  documented tpm (unlisted n) = []
  documented esapi input_error =
      c.bad_reference ∷ c.insufficient_buffer ∷ c.invalid_sessions ∷ c.bad_value
      ∷ c.no_decrypt_param ∷ c.no_encrypt_param ∷ c.bad_size ∷ c.bad_tr
      ∷ c.multiple_decrypt_sessions ∷ c.multiple_encrypt_sessions ∷ []
  documented esapi security_failure = c.rsp_auth_failed ∷ []
  documented esapi resource_error = c.try_again ∷ c.io_error ∷ c.incompatible_tcti ∷ c.memory ∷ []
  documented esapi backend_error =
      c.general_failure ∷ c.not_implemented ∷ c.abi_mismatch ∷ c.bad_sequence ∷ c.malformed_response
      ∷ c.insufficient_context ∷ c.insufficient_response ∷ c.bad_tcti_structure ∷ c.not_supported
      ∷ c.callback_null ∷ []
  documented esapi (unlisted n) = []
  documented tcti input_error = c.bad_reference ∷ c.insufficient_buffer ∷ c.bad_value ∷ []
  documented tcti security_failure = []
  documented tcti resource_error = c.no_connection ∷ c.try_again ∷ c.io_error ∷ []
  documented tcti backend_error =
      c.general_failure ∷ c.not_implemented ∷ c.bad_context ∷ c.abi_mismatch ∷ c.bad_sequence
      ∷ c.not_permitted ∷ c.malformed_response ∷ c.not_supported ∷ []
  documented tcti (unlisted n) = []

  at :
      {m : Mapping} (n : ℕ)
      → entry_at n (documented_mappings c) ≡ some m
      → Among m (documented_mappings c)
  at {m} n found = entry_at-Among n m (documented_mappings c) found

  pub documented-Among :
      (l : Layer) (category : ErrorCategory)
      → All
          (λ code. Among (map_entry (layer_code c l) code category) (documented_mappings c))
          (documented l category)
  unfolding documented_mappings
  documented-Among tpm input_error =
      (at 2 refl, (at 3 refl, (at 8 refl, (at 9 refl, (at 10 refl, tt)))))
  documented-Among tpm security_failure = (at 0 refl, (at 1 refl, (at 5 refl, (at 7 refl, tt))))
  documented-Among tpm resource_error = (at 4 refl, (at 6 refl, tt))
  documented-Among tpm backend_error = tt
  documented-Among tpm (unlisted n) = tt
  documented-Among esapi input_error = (
    at 14 refl,
    (
      at 15 refl,
      (
        at 17 refl,
        (
          at 20 refl,
          (at 21 refl, (at 22 refl, (at 23 refl, (at 30 refl, (at 31 refl, (at 32 refl, tt)))))),
        ),
      ),
    ),
  )
  documented-Among esapi security_failure = (at 34 refl, tt)
  documented-Among esapi resource_error = (at 18 refl, (at 19 refl, (at 27 refl, (at 29 refl, tt))))
  documented-Among esapi backend_error = (
    at 11 refl,
    (
      at 12 refl,
      (
        at 13 refl,
        (
          at 16 refl,
          (at 24 refl, (at 25 refl, (at 26 refl, (at 28 refl, (at 33 refl, (at 35 refl, tt)))))),
        ),
      ),
    ),
  )
  documented-Among esapi (unlisted n) = tt
  documented-Among tcti input_error = (at 40 refl, (at 41 refl, (at 46 refl, tt)))
  documented-Among tcti security_failure = tt
  documented-Among tcti resource_error = (at 43 refl, (at 44 refl, (at 45 refl, tt)))
  documented-Among tcti backend_error = (
    at 36 refl,
    (
      at 37 refl,
      (at 38 refl, (at 39 refl, (at 42 refl, (at 47 refl, (at 48 refl, (at 49 refl, tt)))))),
    ),
  )
  documented-Among tcti (unlisted n) = tt
