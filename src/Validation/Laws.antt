-- ===== src/Validation/Laws.antt =====
-- What the checks of pcr_validation.cpp accept.
use tpmkit.Base.{
  false≢true, ap, not, if◌then◌else◌, ◌==◌, ℕ, Bool, sym, ◌∙◌, ◌≤◌, ◌≡◌, refl, ◌↔◌, arith, false,
  Bool-cases, inl, inr, List, [], ◌∷◌, String, length, ltb,
}
use tpmkit.Outcome.{done, fails, input_error, IsOk, returns}
use tpmkit.Domain.Hash.{HashAlgorithm, sha1, sha256, sha384, sha512, unlisted, digest_size}
use tpmkit.Domain.Values.{Bank, DigestValue}
use tpmkit.Tss.{Tss, IsTss}
use tpmkit.Marshalling.{is_supported_algorithm}
use tpmkit.Marshalling.Algorithms.{is_supported_algorithm_iff}
use tpmkit.Validation.{
  contains, distinct_loop, bank_algorithms, digest_algorithms, ensure_bank_count,
  ensure_digest_count, ensure_policy_digest_size, ensure_sized_buffer_fits,
}

-- No algorithm of the list equals an earlier one or one of those seen.
abbrev pub Fresh : List HashAlgorithm → List HashAlgorithm → Type 0
Fresh seen [] = Unit
Fresh seen (a ∷ rest) = (contains a seen ≡ false) × Fresh (a ∷ seen) rest

abbrev pub Distinct : List HashAlgorithm → Type 0
Distinct = Fresh []

distinct_loop-IsOk :
    (message : String) (seen rest : List HashAlgorithm)
    → IsOk (distinct_loop message seen rest) ↔ Fresh seen rest
unfolding distinct_loop
distinct_loop-IsOk message seen [] = ((λ _. tt), (λ _. tt))
distinct_loop-IsOk message seen (a ∷ rest) = elim (Bool-cases (contains a seen)) [
  | inl found ↦ rw found ((λ e. absurd e), (λ (e, _). cc))
  | inr fresh ↦
      let (to, back) = distinct_loop-IsOk message (a ∷ seen) rest in
      rw fresh ((λ e. (refl, to e)), (λ (_, e). back e))
]

-- An allocation is accepted exactly when it names at least one bank and at most as many as a
-- TPML_PCR_SELECTION holds, with distinct algorithms.
pub ensure_bank_count-IsOk :
    (t : Tss) (banks : List Bank)
    → IsOk (ensure_bank_count t banks)
      ↔ ((1 ≤ length banks) × (length banks ≤ t.num_pcr_banks) × Distinct (bank_algorithms banks))
unfolding ensure_bank_count
ensure_bank_count-IsOk t [] = ((λ e. absurd e), (λ (e, _, _). absurd (omega arith)))
ensure_bank_count-IsOk t (b ∷ bs) = elim (Bool-cases (ltb t.num_pcr_banks (length (b ∷ bs)))) [
  | inl many ↦ rw many ((λ e. absurd e), (λ (_, e, _). absurd (ground (arith, many, e))))
  | inr few ↦
      let (to, back) = distinct_loop-IsOk "duplicate PCR bank" [] (bank_algorithms (b ∷ bs)) in
      rw few ((λ e. (omega arith, ground (arith, few), to e)), (λ (_, _, e). back e))
]

-- An extend is accepted exactly when it has at least one digest and at most as many as a
-- TPML_DIGEST_VALUES holds, with distinct algorithms.
pub ensure_digest_count-IsOk :
    (t : Tss) (digests : List DigestValue)
    → IsOk (ensure_digest_count t digests) ↔ (
        (1 ≤ length digests)
        × (length digests ≤ t.num_pcr_banks)
        × Distinct (digest_algorithms digests))
unfolding ensure_digest_count
ensure_digest_count-IsOk t [] = ((λ e. absurd e), (λ (e, _, _). absurd (omega arith)))
ensure_digest_count-IsOk t (d ∷ ds) = elim (Bool-cases (ltb t.num_pcr_banks (length (d ∷ ds)))) [
  | inl many ↦ rw many ((λ e. absurd e), (λ (_, e, _). absurd (ground (arith, many, e))))
  | inr few ↦
      let (to, back) =
        distinct_loop-IsOk "duplicate PCR digest algorithm" [] (digest_algorithms (d ∷ ds)) in
      rw few ((λ e. (omega arith, ground (arith, few), to e)), (λ (_, _, e). back e))
]

digest_size-le_64 :
    (legacy : Bool) (a : HashAlgorithm) (n : ℕ) → digest_size legacy a ≡ returns n → n ≤ 64
unfolding digest_size
digest_size-le_64 legacy sha1 n h = ground arith
digest_size-le_64 legacy sha256 n h = ground arith
digest_size-le_64 legacy sha384 n h = ground arith
digest_size-le_64 legacy sha512 n h = ground arith
digest_size-le_64 legacy (unlisted k) n h = ground arith

-- The size checks of `ensure_policy_digest_size` for an algorithm of `n` bytes.
sized_lem :
    (t : Tss) (v : IsTss t) (n m : ℕ) (wrong large : String)
    → n ≤ 64
    → IsOk (
        if not (m == n)
        then fails input_error wrong
        else (if ltb t.digest_buffer_size m then fails input_error large else done))
      ↔ (returns n ≡ returns m)
sized_lem t v n m wrong large small = elim (Bool-cases (m == n)) [
  | inl same ↦
      let equal : m ≡ n = ground (arith, same) in
      let fits : ltb t.digest_buffer_size m ≡ false =
        ground (arith, small, equal, v.digest_in_buffer) in
      rw (same, fits) ((λ _. ap returns (sym equal)), (λ _. tt))
  | inr other ↦ rw other ((λ e. absurd e), (λ e. absurd (ground (arith, other, e))))
]

-- A policy digest is accepted exactly when the build handles its algorithm and the digest has
-- that algorithm's size. Condition: the constants are those of a TSS whose digest buffers hold
-- the longest digest.
pub ensure_policy_digest_size-IsOk :
    (legacy : Bool) (t : Tss) (v : IsTss t) (a : HashAlgorithm) (digest : List ℕ)
    → IsOk (ensure_policy_digest_size legacy t a digest)
      ↔ (digest_size legacy a ≡ returns (length digest))
unfolding ensure_policy_digest_size ensure_sized_buffer_fits
ensure_policy_digest_size-IsOk legacy t v a digest =
    elim (Bool-cases (is_supported_algorithm legacy t a)) [
      | inl supported ↦
          let (n, sized) = (is_supported_algorithm_iff legacy t v a).0 supported in
          rw (supported, sized)
            (sized_lem t v n (length digest) _ _ (digest_size-le_64 legacy a n sized))
      | inr unsupported ↦ rw unsupported (
        (λ e. absurd e),
        (λ sized. absurd (
            false≢true (sym unsupported ∙ (is_supported_algorithm_iff legacy t v a).1 (_, sized)))),
      )
    ]
