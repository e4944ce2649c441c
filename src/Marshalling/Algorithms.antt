-- ===== src/Marshalling/Algorithms.antt =====
-- `algorithm_from_tpm`, `algorithm_to_tpm` and `is_supported_algorithm` of pcr_marshalling.cpp.
use tpmkit.Base.{ℕ, ◌≡◌, refl, ◌≢◌, ◌↔◌, Bool, true, arith}
use tpmkit.Outcome.{ok, returns}
use tpmkit.Domain.Hash.{HashAlgorithm, sha1, sha256, sha384, sha512, unlisted, digest_size, Handled}
use tpmkit.Tss.{Tss, IsTss}
use tpmkit.Marshalling.{algorithm_from_tpm, algorithm_to_tpm, is_supported_algorithm}

-- The digest size of each algorithm, whether the build handles it or not.
abbrev width : HashAlgorithm → ℕ
width sha1 = 20
width sha256 = 32
width sha384 = 48
width sha512 = 64
width (unlisted n) = 0

module _ (legacy : Bool) (t : Tss) (v : IsTss t) where
  pub algorithm_from_tpm-algorithm_to_tpm :
      (a : HashAlgorithm) (n : ℕ)
      → digest_size legacy a ≡ returns n
      → algorithm_from_tpm legacy t (algorithm_to_tpm legacy t a) ≡ ok a
  unfolding algorithm_from_tpm algorithm_to_tpm digest_size
  algorithm_from_tpm-algorithm_to_tpm sha1 n h = ground arith
  algorithm_from_tpm-algorithm_to_tpm sha256 n h = ground arith
  algorithm_from_tpm-algorithm_to_tpm sha384 n h = ground arith
  algorithm_from_tpm-algorithm_to_tpm sha512 n h = ground arith
  algorithm_from_tpm-algorithm_to_tpm (unlisted k) n h = ground arith

  pub algorithm_to_tpm-algorithm_from_tpm :
      (id : ℕ) (a : HashAlgorithm)
      → algorithm_from_tpm legacy t id ≡ ok a
      → (algorithm_to_tpm legacy t a ≡ id) × (id ≢ t.alg_error)
  unfolding algorithm_from_tpm algorithm_to_tpm
  algorithm_to_tpm-algorithm_from_tpm id a h = ground arith

  pub algorithm_from_tpm-Handled :
      (id : ℕ) (a : HashAlgorithm)
      → algorithm_from_tpm legacy t id ≡ ok a
      → (n : ℕ) × (digest_size legacy a ≡ returns n)
  unfolding algorithm_from_tpm digest_size
  algorithm_from_tpm-Handled id a h = (width a, ground arith)

  -- The marshalling supports exactly the algorithms that `digest_size` handles, whether or not
  -- the build has the legacy ones.
  pub is_supported_algorithm_iff :
      (a : HashAlgorithm) → (is_supported_algorithm legacy t a ≡ true) ↔ Handled legacy a
  unfolding is_supported_algorithm digest_size
  is_supported_algorithm_iff sha1 = (λ h. (20, ground arith), λ h. ground arith)
  is_supported_algorithm_iff sha256 = (λ _. (32, refl), λ _. ground arith)
  is_supported_algorithm_iff sha384 = (λ _. (48, refl), λ _. ground arith)
  is_supported_algorithm_iff sha512 = (λ _. (64, refl), λ _. ground arith)
  is_supported_algorithm_iff (unlisted n) = (λ h. ground arith, λ h. ground arith)
