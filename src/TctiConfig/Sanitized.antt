-- ===== src/TctiConfig/Sanitized.antt =====
-- src/adapters/tpm2_esys/context/tpm_context.cpp: what of a configuration string is logged.
use tpmkit.Base.{
  zero, suc, ltb, ℕ, ◌≡◌, refl, arith, true, false, ◌⊎◌, inl, inr, List, [], Option, none, some,
  codes, take, ◌==◌, Bool-cases,
}
use tpmkit.TctiConfig.{
  trim, find, has_position, has_name_args_shape, is_valid_string_config, is_known_tcti_name,
  known_or_custom, sanitized_at, sanitized_tcti_name,
}

-- One of the four known names, or a fixed text in place of another.
abbrev pub Shown : List ℕ → Type 0
Shown name = (is_known_tcti_name name ≡ true) ⊎ (name ≡ codes "<custom>")

known_or_custom_lem : (name : List ℕ) → Shown (known_or_custom name)
known_or_custom_lem name = elim (Bool-cases (is_known_tcti_name name)) [
  | inl known ↦ rw known (inl known)
  | inr other ↦ rw other (inr refl)
]

at_colon :
    (o : Option ℕ) (v : List ℕ)
    → ((has_position o ≡ false) × (sanitized_at o v ≡ []))
      ⊎ ((has_position o ≡ true) × Shown (sanitized_at o v))
at_colon none v = inl (refl, refl)
at_colon (some zero) v = inl (refl, refl)
at_colon (some (suc n)) v = inr (positive n, rw (not_zero n) (known_or_custom_lem (take (suc n) v)))
  where
    positive : (n : ℕ) → ltb 0 (suc n) ≡ true
    positive n = ground arith

    not_zero : (n : ℕ) → (suc n == 0) ≡ false
    not_zero n = ground arith

pub invalid_lem : (v : List ℕ) → is_valid_string_config v ≡ false → sanitized_tcti_name v ≡ []
unfolding is_valid_string_config sanitized_tcti_name has_name_args_shape
invalid_lem v invalid = elim (at_colon (find 58 (trim v)) (trim v)) [
  | inl (none_at, hidden) ↦ ground (arith, hidden)
  | inr (some_at, shown) ↦ ground (arith, invalid, some_at)
]
